-- ===== src/Bulk/Examples.antt =====
-- A controller of numbers, whose creation of 9 fails after it has written.
use ninja_devx.Prelude.{
  refl, ◌∷◌, [], ℕ, List, if◌then◌else◌, ok, true, not, ◌==◌, ◌≡◌, raise, nat_in, ◌↔◌, false,
  length, ◌≤◌, All,
}
use ninja_devx.Bulk.Defs.{Call, Controller, each_call, returned, integrity, check_object}
use ninja_devx.Bulk.Operations.{
  bulk_update, bulk_create, Entry, try_each, rejected, stored, results, bulk_error, create_one,
}
use ninja_devx.Prelude.Table.{Table, put, drop, get}
use ninja_devx.Bulk.Objects.{
  get_objects, check_size, reject_duplicates, has_duplicates, refresh, by_key, pick, check_objects,
}
use ninja_devx.Bulk.Rollback.{run, creation, run_unchanged}
use ninja_devx.Bulk.Results.{Tried, bulk_create_iff, bulk_update_iff, Updated}
use ninja_devx.Permissions.{check_object_permissions}
use ninja_devx.Bulk.Fetched.{lookups_of, IsAllowed, get_objects-IsAllowed}

unfoldable make_number : ℕ → Call ℕ (ℕ × ℕ)
make_number item rows =
    if item == 9 then (raise integrity, put 99 item rows) else (ok (item, item), put item item rows)

abbrev change_number : ℕ × ℕ → ℕ → Call ℕ (ℕ × ℕ)
change_number (pk, o) d rows = (ok (pk, d), put pk d rows)

abbrev remove_number : ℕ × ℕ → Call ℕ (Unit {0})
remove_number (pk, o) rows = (ok tt, drop pk rows)

abbrev numbers : Controller ℕ ℕ ℕ ℕ
numbers = record {
  request = 0;
  bound = [];
  in_scope = λ o. true;
  lookup_field = λ pk o. pk;
  perform_create = make_number;
  perform_update = change_number;
  perform_destroy = remove_number;
  has_changes = λ o d. not (o == d);
  on_change = λ row d. returned tt;
  refresh_after_write = true;
}

abbrev one_row : Table ℕ
one_row = (3, 3) ∷ []

-- The first item is created, and taken back when the second one fails.
run_unchanged_example : (run numbers (creation 5 false (1 ∷ 9 ∷ [])) one_row).1 ≡ one_row
unfolding bulk_create check_size each_call make_number put
run_unchanged_example = run_unchanged numbers (creation 5 false (1 ∷ 9 ∷ [])) one_row integrity refl

abbrev three_entries : List (Entry ℕ)
three_entries = stored 0 201 (1, 1) ∷ rejected 1 422 ∷ stored 2 201 (2, 2) ∷ []

abbrev three_rows : Table ℕ
three_rows = (3, 3) ∷ (1, 1) ∷ (2, 2) ∷ []

bulk_create_iff_example :
    (bulk_create numbers 5 true (1 ∷ 9 ∷ 2 ∷ []) one_row
      ≡ (ok (results three_entries 1), three_rows))
    ↔ ((length {A = ℕ} (1 ∷ 9 ∷ 2 ∷ []) ≤ 5)
        × Tried (create_one numbers) 201 0 (1 ∷ 9 ∷ 2 ∷ []) one_row three_entries 1 three_rows)
bulk_create_iff_example =
    bulk_create_iff numbers 5 1 (1 ∷ 9 ∷ 2 ∷ []) one_row three_rows three_entries

-- The run that the equivalence is about.
bulk_create_run :
    bulk_create numbers 5 true (1 ∷ 9 ∷ 2 ∷ []) one_row ≡ (ok (results three_entries 1), three_rows)
unfolding bulk_create check_size try_each make_number put refresh get check_object bulk_error
    check_object_permissions
bulk_create_run = refl

abbrev two_entries : List (Entry ℕ)
two_entries = rejected 0 404 ∷ stored 1 200 (3, 8) ∷ []

bulk_update_iff_example :
    (bulk_update numbers true 8 (5 ∷ 3 ∷ []) one_row ≡ (ok (results two_entries 1), (3, 8) ∷ []))
    ↔ ((has_duplicates (5 ∷ 3 ∷ []) ≡ false)
        × Updated numbers 8 0 (5 ∷ 3 ∷ []) one_row two_entries 1 ((3, 8) ∷ []))
bulk_update_iff_example = bulk_update_iff numbers 8 1 (5 ∷ 3 ∷ []) one_row ((3, 8) ∷ []) two_entries

get_objects-IsAllowed_example :
    (has_duplicates (2 ∷ 3 ∷ []) ≡ false)
    × (lookups_of numbers ((2, 2) ∷ (3, 3) ∷ []) ≡ 2 ∷ 3 ∷ [])
    × All (IsAllowed numbers three_rows) ((2, 2) ∷ (3, 3) ∷ [])
    × (three_rows ≡ three_rows)
unfolding get_objects reject_duplicates has_duplicates nat_in by_key put pick get check_objects
    check_object check_object_permissions
get_objects-IsAllowed_example =
    get_objects-IsAllowed numbers (2 ∷ 3 ∷ []) three_rows three_rows ((2, 2) ∷ (3, 3) ∷ []) refl
