-- ===== src/Prelude/Table.antt =====
-- A database table by numeric primary key: one row for each key.
use ninja_devx.Prelude.{Option-cases, inl, inr, Bool-cases}
use Prim.Native.Nat.{ℕ}
use mathlib.Core.Path.{◌≡◌, refl}
use mathlib.Core.Bool.{Bool, true, false}
use mathlib.Core.Option.{Option, none, some}
use mathlib.Core.List.{List, [], ◌∷◌}
use native.Mathlib.Omega.{arith}
use ninja_devx.Prelude.Lists.{All}
use mathlib.Core.Path.{subst}
use ninja_devx.Prelude.Tests.{◌==◌, if◌then◌else◌}

abbrev pub Table {ℓ} : Type ℓ → Type ℓ
Table V = List (ℕ × V)

module _ {ℓ} {V : Type ℓ} where
  unfoldable pub get : ℕ → Table V → Option V
  get k [] = none
  get k ((j, v) ∷ rows) = if j == k then some v else get k rows

  unfoldable pub put : ℕ → V → Table V → Table V
  put k v [] = (k, v) ∷ []
  put k v ((j, w) ∷ rows) = if j == k then (k, v) ∷ rows else (j, w) ∷ put k v rows

  pub get-put :
      (k j : ℕ) (v : V) (rows : Table V)
      → get j (put k v rows) ≡ (if k == j then some v else get j rows)
  unfolding get put
  get-put k j v [] = refl
  get-put k j v ((i, w) ∷ rows) = ground (arith, get-put k j v rows)

  -- `filter(pk=k, <test>).update(<change>)`: whether the row was there and passed, and the table.
  unfoldable pub update : ℕ → (V → Bool) → (V → V) → Table V → Bool × Table V
  update k test change rows = elim (get k rows) [
    | none ↦ (false, rows)
    | some v ↦ (if test v then (true, put k (change v) rows) else (false, rows))
  ]

  -- The row after an update, and whether there was one to update.
  abbrev pub amend : (V → Bool) → (V → V) → Option V → Option V
  amend test change none = none
  amend test change (some v) = some (if test v then change v else v)

  abbrev pub hit : (V → Bool) → Option V → Bool
  hit test none = false
  hit test (some v) = test v

  pub get-update :
      (k j : ℕ) (test : V → Bool) (change : V → V) (rows : Table V)
      → get j (update k test change rows).1
        ≡ (if k == j then amend test change (get j rows) else get j rows)
  unfolding update
  get-update k j test change rows = elim (Option-cases (get k rows)) [
    | inl e ↦ ground arith
    | inr (v, e) ↦ ground (arith, get-put k j (change v) rows)
  ]

  pub update-hit :
      (k : ℕ) (test : V → Bool) (change : V → V) (rows : Table V)
      → (update k test change rows).0 ≡ hit test (get k rows)
  unfolding update
  update-hit k test change rows = ground arith

  pub update-some :
      (k : ℕ) (test : V → Bool) (change : V → V) (rows : Table V) (v : V)
      → get k rows ≡ some v
      → test v ≡ true
      → update k test change rows ≡ (true, put k (change v) rows)
  unfolding update
  update-some k test change rows v h t = rw (h, update) (rw t refl)

  pub get-put_self : (k : ℕ) (v : V) (rows : Table V) → get k (put k v rows) ≡ some v
  get-put_self k v rows = ground (arith, get-put k k v rows)

  pub update-miss :
      (k : ℕ) (test : V → Bool) (change : V → V) (rows : Table V)
      → hit test (get k rows) ≡ false
      → update k test change rows ≡ (false, rows)
  unfolding update
  update-miss k test change rows h = ground arith

  -- `filter(<test>).update(<change>)`: every row that passes is changed.
  unfoldable pub sweep : (V → Bool) → (V → V) → Table V → Table V
  sweep test change [] = []
  sweep test change ((j, v) ∷ rows) = (j, if test v then change v else v) ∷ sweep test change rows

  pub get-sweep :
      (k : ℕ) (test : V → Bool) (change : V → V) (rows : Table V)
      → get k (sweep test change rows) ≡ amend test change (get k rows)
  unfolding get sweep
  get-sweep k test change [] = refl
  get-sweep k test change ((j, v) ∷ rows) = ground (arith, get-sweep k test change rows)

  -- A property of every row and its key.
  abbrev pub Every {κ} : (ℕ → V → Type κ) → Table V → Type (ℓ ⊔ κ)
  Every Q rows = (k : ℕ) (v : V) → get k rows ≡ some v → Q k v

  pub Every-put {κ} :
      (Q : ℕ → V → Type κ) (k : ℕ) (v : V) (rows : Table V)
      → Q k v
      → Every Q rows
      → Every Q (put k v rows)
  Every-put Q k v rows q all j w h = elim (Bool-cases (k == j)) [
    | inl same ↦
        (let key : j ≡ k = ground arith in
          let value : w ≡ v = ground (arith, get-put k j v rows) in rw (key, value) q)
    | inr other ↦ all j w (ground (arith, get-put k j v rows))
  ]

  pub Every-sweep {κ} :
      (Q : ℕ → V → Type κ) (test : V → Bool) (change : V → V) (rows : Table V)
      → ((k : ℕ) (v : V) → Q k v → test v ≡ true → Q k (change v))
      → Every Q rows
      → Every Q (sweep test change rows)
  Every-sweep Q test change rows step all j w h = elim (Option-cases (get j rows)) [
    | inl e ↦ ground (arith, get-sweep j test change rows)
    | inr (v, e) ↦ elim (Bool-cases (test v)) [
      | inl t ↦
          (let value : w ≡ change v = ground (arith, get-sweep j test change rows) in
            rw value (step j v (all j v e) t))
      | inr t ↦ all j w (ground (arith, get-sweep j test change rows))
    ]
  ]

  pub Every-update {κ} :
      (Q : ℕ → V → Type κ) (k : ℕ) (test : V → Bool) (change : V → V) (rows : Table V)
      → ((v : V) → Q k v → test v ≡ true → Q k (change v))
      → Every Q rows
      → Every Q (update k test change rows).1
  Every-update Q k test change rows step all = elim (Option-cases (get k rows)) [
    | inl e ↦ rw (update-miss k test change rows (rw e refl)) all
    | inr (v, e) ↦ elim (Bool-cases (test v)) [
      | inl t ↦
          rw (update-some k test change rows v e t)
            (Every-put Q k (change v) rows (step v (all k v e) t) all)
      | inr t ↦ rw (update-miss k test change rows (rw e t)) all
    ]
  ]

  -- `dict.pop(key, None)`
  unfoldable pub drop : ℕ → Table V → Table V
  drop k [] = []
  drop k ((j, v) ∷ rows) = let rest = drop k rows in if j == k then rest else (j, v) ∷ rest

  pub get-drop :
      (k j : ℕ) (rows : Table V) → get j (drop k rows) ≡ (if k == j then none else get j rows)
  unfolding get drop
  get-drop k j [] = ground arith
  get-drop k j ((i, v) ∷ rows) = ground (arith, get-drop k j rows)

  -- A property of every entry.
  pub All-put {κ} :
      (P : ℕ × V → Type κ) (k : ℕ) (v : V) (rows : Table V)
      → P (k, v)
      → All P rows
      → All P (put k v rows)
  unfolding put
  All-put P k v [] p all = (p, tt)
  All-put P k v ((j, old) ∷ rows) p all = elim (Bool-cases (j == k)) [
    | inl e ↦ rw e (p, all.1)
    | inr e ↦ rw e (all.0, All-put P k v rows p all.1)
  ]

  pub All-get {κ} :
      (P : ℕ × V → Type κ) (k : ℕ) (v : V) (rows : Table V)
      → get k rows ≡ some v
      → All P rows
      → P (k, v)
  unfolding get
  All-get P k v [] h all = cc
  All-get P k v ((j, old) ∷ rows) h all = elim (Bool-cases (j == k)) [
    | inl e ↦ (let row : ◌≡◌ {A = ℕ × V} (j, old) (k, v) = ground arith in subst P row all.0)
    | inr e ↦ All-get P k v rows (ground arith) all.1
  ]
