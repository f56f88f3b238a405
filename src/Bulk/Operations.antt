-- ===== src/Bulk/Operations.antt =====
-- `bulk_create`, `bulk_update` and `bulk_destroy`.
use ninja_devx.Prelude.{
  List, ℕ, Bool, Outcome, Option, ok, some, length, ◌∷◌, none, if◌then◌else◌, [], ◌+◌, raise,
}
use ninja_devx.Bulk.Defs.{
  Call, Controller, ◌>>=◌, ◌>>◌, each_call, BulkFailure, check_object, atomic, returned, failing,
  domain_error, http404, permission_error, other_exception, django_validation, integrity, too_long,
  duplicate, after,
}
use ninja_devx.Bulk.Objects.{
  refresh, get_objects, refresh_many, check_size, reject_duplicates, first_object,
}
use ninja_devx.Permissions.{type_error, http_error}
use ninja_devx.Prelude.Table.{Table, get}

-- `_bulk_error`: the status of an entry; `none` aborts the request.
unfoldable pub bulk_error : BulkFailure → Option ℕ
bulk_error django_validation = some 422
bulk_error integrity = some 422
bulk_error (domain_error status) = some status
bulk_error http404 = some 404
bulk_error (permission_error type_error) = none
bulk_error (permission_error (http_error status message)) = some status
bulk_error too_long = none
bulk_error duplicate = none
bulk_error (other_exception kind) = none

-- An entry of `results`, by its index: the object with its status, or the status of its errors.
pub data Entry (O : Type 0) : Type 0 where
  stored : ℕ → ℕ → ℕ × O → Entry O
  rejected : ℕ → ℕ → Entry O

-- The answers: 200 or 201 with objects, 207 with the results and the `X-Bulk-Failed` header, 204.
pub data BulkAnswer (O : Type 0) : Type 0 where
  objects : ℕ → List (ℕ × O) → BulkAnswer O
  results : List (Entry O) → ℕ → BulkAnswer O
  no_content : BulkAnswer O

abbrev pub entered :
    {O : Type 0}
    → Entry O
    → (ℕ → ℕ)
    → Outcome BulkFailure (List (Entry O) × ℕ) × Table O
    → Outcome BulkFailure (List (Entry O) × ℕ) × Table O
entered entry count (ok (entries, failed), rows) = (ok (entry ∷ entries, count failed), rows)
entered entry count (raise e, rows) = (raise e, rows)

-- What the loop does with the outcome of one item; `next` is the rest of the loop.
abbrev pub tally :
    {O : Type 0}
    → ℕ
    → ℕ
    → Outcome BulkFailure (ℕ × O) × Table O
    → (Table O → Outcome BulkFailure (List (Entry O) × ℕ) × Table O)
    → Outcome BulkFailure (List (Entry O) × ℕ) × Table O
tally status index (ok instance_of, rows) next =
    entered (stored index status instance_of) (λ failed. failed) (next rows)
tally status index (raise e, rows) next = elim (bulk_error e) [
  | none ↦ (raise e, rows)
  | some code ↦ entered (rejected index code) (λ failed. failed + 1) (next rows)
]

-- The loops of the partial operations: each item in a savepoint of its own. `one` is the block of an
-- item, and `status` that of a success.
unfoldable pub try_each :
    {O A : Type 0} → (A → Call O (ℕ × O)) → ℕ → ℕ → List A → Call O (List (Entry O) × ℕ)
unfolding bulk_error
try_each one status index [] rows = (ok ([], 0), rows)
try_each one status index (a ∷ rest) rows =
    tally status index (atomic (one a) rows) (λ rows'. try_each one status (index + 1) rest rows')

-- `Status(207, {"results": results})`
abbrev pub reported :
    {O : Type 0}
    → Outcome BulkFailure (List (Entry O) × ℕ) × Table O
    → Outcome BulkFailure (BulkAnswer O) × Table O
reported r = after r (λ (entries, failed). returned (results entries failed))

module _ {R I D O : Type 0} (c : Controller R I D O) where
  abbrev pub create_one : I → Call O (ℕ × O)
  create_one item = c.perform_create item >>= refresh c

  -- `bulk_create`, with the limit of the controller and its `bulk_partial`
  unfoldable pub bulk_create : ℕ → Bool → List I → Call O (BulkAnswer O)
  unfolding check_size try_each each_call refresh refresh_many
  bulk_create limit partial payload =
      check_size limit (length payload)
      >> (if partial
          then atomic (
              try_each create_one 201 0 payload >>= λ (entries, failed).
              returned (results entries failed))
          else atomic (
              each_call c.perform_create payload >>= λ made.
              refresh_many c made >>= λ fresh. returned (objects 201 fresh)))

  -- The block of an update: `on_change` runs if the data changes fields of the old object.
  abbrev pub update_one : D → ℕ × O → Call O (ℕ × O)
  update_one d (pk, o) =
      check_object c o
      >> (c.perform_update (pk, o) d >>= λ updated. refresh c updated >>= λ fresh.
          if c.has_changes o d then c.on_change fresh d >> returned fresh else returned fresh)

  -- An unknown key gets the entry of a 404.
  abbrev pub update_lookup : D → ℕ → Call O (ℕ × O)
  update_lookup d lookup rows = elim (first_object c lookup rows) [
    | none ↦ failing http404 rows
    | some instance_of ↦ update_one d instance_of rows
  ]

  -- `on_change` for each refreshed object that had changes, by the dictionary of before
  unfoldable pub announce : D → Table Bool → List (ℕ × O) → Call O (Unit {0})
  announce d changes [] = returned tt
  announce d changes ((pk, o) ∷ rest) = elim (get pk changes) [
    | some true ↦ c.on_change (pk, o) d >> announce d changes rest
    | _ ↦ announce d changes rest
  ]

  abbrev pub changes_of : D → List (ℕ × O) → Table Bool
  changes_of d [] = []
  changes_of d ((pk, o) ∷ rest) = (pk, c.has_changes o d) ∷ changes_of d rest

  unfoldable pub bulk_update : Bool → D → List ℕ → Call O (BulkAnswer O)
  unfolding reject_duplicates try_each get_objects refresh refresh_many announce check_object
      first_object each_call
  bulk_update partial d lookups =
      if partial
      then reject_duplicates lookups
        >> atomic (
            try_each (update_lookup d) 200 0 lookups >>= λ (entries, failed).
            returned (results entries failed))
      else atomic (
          get_objects c lookups >>= λ instances.
          each_call (λ instance_of. c.perform_update instance_of d) instances >>= λ updated.
          refresh_many c updated >>= λ refreshed.
          announce d (changes_of d instances) refreshed >> returned (objects 200 refreshed))

  unfoldable pub bulk_destroy : List ℕ → Call O (BulkAnswer O)
  unfolding get_objects each_call
  bulk_destroy lookups = atomic (
      get_objects c lookups >>= λ instances.
      each_call c.perform_destroy instances >> returned no_content)
