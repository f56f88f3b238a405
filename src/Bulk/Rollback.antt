-- ===== src/Bulk/Rollback.antt =====
-- A bulk operation that raises leaves the rows as they were.
use ninja_devx.Prelude.{
  ℕ, Bool, List, Outcome, if◌then◌else◌, ◌≡◌, raise, ltb, ok, true, refl, length, false,
}
use ninja_devx.Bulk.Defs.{
  Call, Controller, BulkFailure, after, rolled_back, failing, returned, too_long, duplicate,
}
use ninja_devx.Bulk.Operations.{bulk_create, BulkAnswer, bulk_update, bulk_destroy}
use ninja_devx.Prelude.Table.{Table}
use ninja_devx.Bulk.Objects.{check_size, reject_duplicates, has_duplicates}

rolled_back_unchanged :
    {O A : Type 0} (rows : Table O) (r : Outcome BulkFailure A × Table O) (e : BulkFailure)
    → (rolled_back rows r).0 ≡ raise e
    → (rolled_back rows r).1 ≡ rows
rolled_back_unchanged rows (ok a, changed) e h = cc
rolled_back_unchanged rows (raise f, changed) e h = refl

guarded_unchanged :
    {O A : Type 0} (test : Bool) (f : BulkFailure) (block : Call O A) (rows : Table O)
    (e : BulkFailure)
    → (after
        ((if◌then◌else◌ {A = Call O (Unit {0})} test (failing f) (returned tt)) rows)
        (λ a. block)).0
      ≡ raise e
    → ((block rows).0 ≡ raise e → (block rows).1 ≡ rows)
    → (after
        ((if◌then◌else◌ {A = Call O (Unit {0})} test (failing f) (returned tt)) rows)
        (λ a. block)).1
      ≡ rows
guarded_unchanged true f block rows e h step = refl
guarded_unchanged false f block rows e h step = step h

-- The three operations of a controller.
pub data Operation (I D : Type 0) : Type 0 where
  creation : ℕ → Bool → List I → Operation I D
  change : Bool → D → List ℕ → Operation I D
  deletion : List ℕ → Operation I D

abbrev pub run : {R I D O : Type 0} → Controller R I D O → Operation I D → Call O (BulkAnswer O)
run c (creation limit partial payload) = bulk_create c limit partial payload
run c (change partial d lookups) = bulk_update c partial d lookups
run c (deletion lookups) = bulk_destroy c lookups

module _ {R I D O : Type 0} (c : Controller R I D O) where
  -- Whatever the methods of the controller did by then, a bulk operation that raises leaves every
  -- row as it was before the request.
  pub run_unchanged :
      (operation : Operation I D) (rows : Table O) (e : BulkFailure)
      → (run c operation rows).0 ≡ raise e
      → (run c operation rows).1 ≡ rows
  unfolding bulk_create bulk_update bulk_destroy check_size reject_duplicates
  run_unchanged (creation limit true payload) rows e h =
      guarded_unchanged (ltb limit (length payload)) too_long _ rows e h
        (rolled_back_unchanged rows _ e)
  run_unchanged (creation limit false payload) rows e h =
      guarded_unchanged (ltb limit (length payload)) too_long _ rows e h
        (rolled_back_unchanged rows _ e)
  run_unchanged (change true d lookups) rows e h =
      guarded_unchanged (has_duplicates lookups) duplicate _ rows e h
        (rolled_back_unchanged rows _ e)
  run_unchanged (change false d lookups) rows e h = rolled_back_unchanged rows _ e h
  run_unchanged (deletion lookups) rows e h = rolled_back_unchanged rows _ e h
