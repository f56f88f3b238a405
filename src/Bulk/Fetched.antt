-- ===== src/Bulk/Fetched.antt =====
-- The objects that `get_objects` returns.
use mathlib.Core.List.{Memᴰ}
use mathlib.Core.Path.{subst}
use ninja_devx.Prelude.{
  refl, ◌∷◌, [], List, ℕ, ◌≡◌, All, true, some, Bool-cases, ◌&&◌, Option-cases, ok, nat_in, inr,
  inl, arith, ap, Outcome, raise, false, All-zip, Bool, Option, if◌then◌else◌, none,
}
use ninja_devx.Bulk.Defs.{
  Call, Controller, check_object, after, BulkFailure, permitted, returned, duplicate, failing,
}
use ninja_devx.Permissions.{check_object_permissions, Error}
use ninja_devx.Prelude.Table.{Table, get, All-get, All-put}
use ninja_devx.Bulk.Objects.{
  pick, by_key, check_objects, get_objects, reject_duplicates, has_duplicates, fetch_picked,
}

guarded_ok :
    {O A : Type 0} (test : Bool) (f : BulkFailure) (block : Call O A) (rows after_all : Table O)
    (a : A)
    → after
        ((if◌then◌else◌ {A = Call O (Unit {0})} test (failing f) (returned tt)) rows)
        (λ t. block)
      ≡ (ok a, after_all)
    → (test ≡ false) × (block rows ≡ (ok a, after_all))
guarded_ok true f block rows after_all a h = cc
guarded_ok false f block rows after_all a h = (refl, h)

module _ {R I D O : Type 0} (c : Controller R I D O) where
  -- A row of the queryset in the scope of the request.
  abbrev InScope : Table O → ℕ × O → Type 0
  InScope all (pk, o) = Memᴰ (pk, o) all × (c.in_scope o ≡ true)

  -- An entry of the dictionary, under its lookup.
  abbrev IsEntry : Table O → ℕ × (ℕ × O) → Type 0
  IsEntry all (k, (pk, o)) = (c.lookup_field pk o ≡ k) × InScope all (pk, o)

  -- An object that the permissions of the operation let pass.
  abbrev pub IsAllowed : Table O → ℕ × O → Type 0
  IsAllowed all (pk, o) =
      Memᴰ (pk, o) all
      × (c.in_scope o ≡ true)
      × (check_object_permissions c.bound c.request o ≡ ok tt)

  by_key-IsEntry :
      (lookups : List ℕ) (all rows : Table O) (found : Table (ℕ × O))
      → ((row : ℕ × O) → Memᴰ row rows → Memᴰ row all)
      → All (IsEntry all) found
      → All (IsEntry all) (by_key c lookups rows found)
  unfolding by_key
  by_key-IsEntry lookups all [] found inside h = h
  by_key-IsEntry lookups all ((pk, o) ∷ rows) found inside h =
      elim (Bool-cases (c.in_scope o && nat_in (c.lookup_field pk o) lookups)) [
        | inr e ↦ rw e (by_key-IsEntry lookups all rows found (λ row m. inside row (Memᴰ.tail m)) h)
        | inl e ↦
            (let entry : IsEntry all (c.lookup_field pk o, (pk, o)) =
                (refl, (inside (pk, o) (Memᴰ.head refl), ground arith)) in
              rw e (
                by_key-IsEntry lookups all rows _ (λ row m. inside row (Memᴰ.tail m))
                  (All-put (IsEntry all) (c.lookup_field pk o) (pk, o) found entry h)))
      ]

  abbrev pub lookups_of : List (ℕ × O) → List ℕ
  lookups_of [] = []
  lookups_of ((pk, o) ∷ rest) = c.lookup_field pk o ∷ lookups_of rest

  pick-InScope :
      (lookups : List ℕ) (all : Table O) (found : Table (ℕ × O)) (instances : List (ℕ × O))
      → All (IsEntry all) found
      → pick lookups found ≡ some instances
      → (lookups_of instances ≡ lookups) × All (InScope all) instances
  unfolding pick
  pick-InScope [] all found instances h e =
      let none_left : [] ≡ instances = cc in
      subst (λ x. (lookups_of x ≡ []) × All (InScope all) x) none_left (refl, tt)
  pick-InScope (k ∷ ks) all found instances h e = elim (Option-cases (get k found)) [
    | inl g ↦ (let missing = rw (g, pick) at e in cc)
    | inr ((pk, o), g) ↦ elim (Option-cases (pick ks found)) [
      | inl g' ↦ (let missing = rw (g', pick) at (rw (g, pick) at e) in cc)
      | inr (rest, g') ↦
          (let picked = rw (g', pick) at (rw (g, pick) at e) in
            let same : (pk, o) ∷ rest ≡ instances = cc in
            let (key, here) = All-get (IsEntry all) k (pk, o) found g h in
            let (keys, there) = pick-InScope ks all found rest h g' in
            subst (λ x. (lookups_of x ≡ k ∷ ks) × All (InScope all) x) same
              (rw key (ap (λ x. k ∷ x) keys), (here, there)))
    ]
  ]

  abbrev Passes : ℕ × O → Type 0
  Passes (pk, o) = check_object_permissions c.bound c.request o ≡ ok tt

  permitted_ok :
      (r : Outcome Error (Unit {0})) (next : Call O (Unit {0})) (rows after_all : Table O)
      (u : Unit {0})
      → after (permitted r rows) (λ a. next) ≡ (ok u, after_all)
      → (r ≡ ok tt) × (next rows ≡ (ok u, after_all))
  permitted_ok (ok t) next rows after_all u h = (refl, h)
  permitted_ok (raise e) next rows after_all u h = cc

  check_objects-Passes :
      (instances : List (ℕ × O)) (rows after_all : Table O) (u : Unit {0})
      → check_objects c instances rows ≡ (ok u, after_all)
      → All Passes instances × (rows ≡ after_all)
  unfolding check_objects check_object
  check_objects-Passes [] rows after_all u h = (tt, cc)
  check_objects-Passes ((pk, o) ∷ rest) rows after_all u h =
      let (passed, h1) =
        permitted_ok (check_object_permissions c.bound c.request o) (check_objects c rest) rows
          after_all u h in
      let (others, kept) = check_objects-Passes rest rows after_all u h1 in ((passed, others), kept)

  returned_lem :
      (r : Outcome BulkFailure (Unit {0}) × Table O) (instances fetched : List (ℕ × O))
      (after_all : Table O)
      → after r (λ a. returned instances) ≡ (ok fetched, after_all)
      → (u : Unit {0}) × (r ≡ (ok u, after_all)) × (instances ≡ fetched)
  returned_lem (ok u, rows) instances fetched after_all h = (u, cc, cc)
  returned_lem (raise e, rows) instances fetched after_all h = cc

  picked_ok :
      (o : Option (List (ℕ × O))) (rows after_all : Table O) (fetched : List (ℕ × O))
      → fetch_picked c o rows ≡ (ok fetched, after_all)
      → (o ≡ some fetched) × (u : Unit {0}) × (check_objects c fetched rows ≡ (ok u, after_all))
  picked_ok none rows after_all fetched h = cc
  picked_ok (some instances) rows after_all fetched h =
      let (u, checked, same) =
        returned_lem (check_objects c instances rows) instances fetched after_all h in
      (ap some same, u, subst (λ x. check_objects c x rows ≡ (ok u, after_all)) same checked)

  -- `get_objects` returns one object for each lookup, in their order, and the lookups are distinct.
  -- Each object is a row in the scope of the request that the permissions let pass, and no row
  -- changes.
  pub get_objects-IsAllowed :
      (lookups : List ℕ) (rows after_all : Table O) (fetched : List (ℕ × O))
      → get_objects c lookups rows ≡ (ok fetched, after_all)
      → (has_duplicates lookups ≡ false)
        × (lookups_of fetched ≡ lookups)
        × All (IsAllowed rows) fetched
        × (rows ≡ after_all)
  unfolding get_objects reject_duplicates
  get_objects-IsAllowed lookups rows after_all fetched h =
      let (once, h1) =
        guarded_ok (has_duplicates lookups) duplicate
          (λ rows. fetch_picked c (pick lookups (by_key c lookups rows [])) rows) rows after_all
          fetched h in
      let (e, u, checked) =
        picked_ok (pick lookups (by_key c lookups rows [])) rows after_all fetched h1 in
      let (passed, kept) = check_objects-Passes fetched rows after_all u checked in
      let entries = by_key-IsEntry lookups rows rows [] (λ row m. m) tt in
      let (keys, scoped) = pick-InScope lookups rows (by_key c lookups rows []) fetched entries e in
      (
        once,
        keys,
        All-zip {S = IsAllowed rows} (λ row s p. (s.0, s.1, p)) fetched scoped passed,
        kept,
      )
