-- ===== src/Bulk/Objects.antt =====
-- The objects of a request: `get_objects`, `refresh_many` and `refresh`.
use ninja_devx.Prelude.{
  nat_in, Option, ℕ, List, if◌then◌else◌, ◌∷◌, none, [], Bool, ◌+◌, true, some, false, ◌&&◌, ltb,
  not, ◌==◌, leb, ◌||◌, is_none,
}
use ninja_devx.Bulk.Defs.{
  Call, Controller, ◌>>◌, check_object, returned, failing, http404, duplicate, too_long,
}
use ninja_devx.Prelude.Table.{get, Table, put}

-- `len(set(lookups)) != len(lookups)`
unfoldable pub has_duplicates : List ℕ → Bool
unfolding nat_in
has_duplicates [] = false
has_duplicates (k ∷ ks) = nat_in k ks || has_duplicates ks

-- `_check_size`
unfoldable pub check_size : {O : Type 0} → ℕ → ℕ → Call O (Unit {0})
check_size limit size = if ltb limit size then failing too_long else returned tt

-- `_reject_duplicates`
unfoldable pub reject_duplicates : {O : Type 0} → List ℕ → Call O (Unit {0})
unfolding has_duplicates
reject_duplicates lookups = if has_duplicates lookups then failing duplicate else returned tt

-- The objects of `by_key` in the order of the lookups, if none is missing.
unfoldable pub pick : {A : Type 0} → List ℕ → Table A → Option (List A)
pick [] found = some []
pick (k ∷ ks) found = elim (get k found) [
  | none ↦ none
  | some a ↦ elim (pick ks found) [ none ↦ none | some rest ↦ some (a ∷ rest) ]
]

-- The index that `order` has for a primary key: the last one, after `best`.
unfoldable pub rank : {O : Type 0} → ℕ → List (ℕ × O) → ℕ → Option ℕ → Option ℕ
rank pk [] index best = best
rank pk ((j, o) ∷ rest) index best = rank pk rest (index + 1) (if j == pk then some index else best)

abbrev pub no_later : Option ℕ → Option ℕ → Bool
no_later (some i) (some j) = leb i j
no_later _ _ = true

-- `sorted` by the index of `order`
unfoldable pub place : {O : Type 0} → List (ℕ × O) → ℕ × O → List (ℕ × O) → List (ℕ × O)
unfolding rank
place order x [] = x ∷ []
place order x (y ∷ ys) =
    let rest = place order x ys in
    if no_later (rank x.0 order 0 none) (rank y.0 order 0 none) then x ∷ y ∷ ys else y ∷ rest

unfoldable pub sort_by : {O : Type 0} → List (ℕ × O) → List (ℕ × O) → List (ℕ × O)
unfolding place
sort_by order [] = []
sort_by order (x ∷ xs) = place order x (sort_by order xs)

module _ {R I D O : Type 0} (c : Controller R I D O) where
  -- The dictionary of the queryset's rows by their lookup; a later row replaces an earlier one.
  unfoldable pub by_key : List ℕ → Table O → Table (ℕ × O) → Table (ℕ × O)
  by_key lookups [] found = found
  by_key lookups ((pk, o) ∷ rows) found =
      let key = c.lookup_field pk o in
      let found' = if c.in_scope o && nat_in key lookups then put key (pk, o) found else found in
      by_key lookups rows found'

  unfoldable pub check_objects : List (ℕ × O) → Call O (Unit {0})
  unfolding check_object
  check_objects [] = returned tt
  check_objects ((pk, o) ∷ rest) = check_object c o >> check_objects rest

  -- The 404 for a missing object, and else the permissions of each object.
  abbrev pub fetch_picked : Option (List (ℕ × O)) → Call O (List (ℕ × O))
  fetch_picked none = failing http404
  fetch_picked (some instances) = check_objects instances >> returned instances

  -- `get_objects`
  unfoldable pub get_objects : List ℕ → Call O (List (ℕ × O))
  unfolding reject_duplicates by_key pick check_objects
  get_objects lookups =
      reject_duplicates lookups
      >> (λ rows. fetch_picked (pick lookups (by_key lookups rows [])) rows)

  -- `scoped_queryset(request).filter(pk__in=order)`
  unfoldable pub fresh_rows : List (ℕ × O) → Table O → Table O
  unfolding rank
  fresh_rows order [] = []
  fresh_rows order ((pk, o) ∷ rows) =
      let rest = fresh_rows order rows in
      if c.in_scope o && not (is_none (rank pk order 0 none)) then (pk, o) ∷ rest else rest

  abbrev pub all_found : List (ℕ × O) → Table O → Bool
  all_found [] fresh = true
  all_found ((pk, o) ∷ rest) fresh = not (is_none (get pk fresh)) && all_found rest fresh

  -- `refresh_many`
  unfoldable pub refresh_many : List (ℕ × O) → Call O (List (ℕ × O))
  unfolding fresh_rows check_objects sort_by get
  refresh_many instances rows =
      let fresh = fresh_rows instances rows in
      (if all_found instances fresh
          then check_objects fresh >> returned (sort_by instances fresh)
          else failing http404)
        rows

  -- `refresh`: the written object is still in the scope of the request.
  unfoldable pub refresh : ℕ × O → Call O (ℕ × O)
  unfolding check_object
  refresh (pk, o) rows = elim (get pk rows) [
    | none ↦ failing http404 rows
    | some fresh ↦
        (if c.in_scope fresh
            then check_object c fresh >> returned (pk, if c.refresh_after_write then fresh else o)
            else failing http404)
          rows
  ]

  -- `.filter(**{self.lookup_field: lookup}).first()` of the scoped queryset
  unfoldable pub first_object : ℕ → Table O → Option (ℕ × O)
  first_object lookup [] = none
  first_object lookup ((pk, o) ∷ rows) =
      let rest = first_object lookup rows in
      if c.in_scope o && c.lookup_field pk o == lookup then some (pk, o) else rest
