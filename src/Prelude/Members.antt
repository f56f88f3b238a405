-- ===== src/Prelude/Members.antt =====
-- Membership of numbers in lists, and how many items of a list another list leaves free.
use Prim.Native.Nat.{ℕ, ◌+◌, ◌≤◌, ◌<◌}
use mathlib.Core.Path.{◌≡◌, sym}
use mathlib.Core.Logic.{inl, inr}
use mathlib.Core.Bool.{Bool, true, false, ◌||◌}
use mathlib.Core.List.{List, [], ◌∷◌, Memᴰ}
use native.Mathlib.Omega.{arith}
use ninja_devx.Prelude.Lists.{length}
use ninja_devx.Prelude.Tests.{◌==◌, if◌then◌else◌, Bool-cases}

unfoldable pub nat_in : ℕ → List ℕ → Bool
nat_in a [] = false
nat_in a (b ∷ rest) = a == b || nat_in a rest

pub nat_in_mem : (a : ℕ) (xs : List ℕ) → nat_in a xs ≡ true → Memᴰ a xs
unfolding nat_in
nat_in_mem a [] h = cc
nat_in_mem a (b ∷ rest) h = elim (Bool-cases (a == b)) [
  | inl e ↦ Memᴰ.head (ground arith)
  | inr e ↦ Memᴰ.tail (nat_in_mem a rest (ground arith))
]

pub nat_in_of_mem : (a : ℕ) (xs : List ℕ) → Memᴰ a xs → nat_in a xs ≡ true
unfolding nat_in
nat_in_of_mem a [] m = elim m [ ]
nat_in_of_mem a (b ∷ rest) (Memᴰ.head e) = ground arith
nat_in_of_mem a (b ∷ rest) (Memᴰ.tail m) = rw (nat_in_of_mem a rest m) (ground arith)

-- How many items of the second list are not in the first.
unfoldable pub free : List ℕ → List ℕ → ℕ
unfolding nat_in
free used [] = 0
free used (u ∷ us) = (if nat_in u used then 0 else 1) + free used us

free-cons-le : (a : ℕ) (used us : List ℕ) → free (a ∷ used) us ≤ free used us
unfolding free nat_in
free-cons-le a used [] = omega arith
free-cons-le a used (u ∷ us) = ground (arith, free-cons-le a used us)

-- An item that gets used was free before.
pub free-cons-lt :
    (a : ℕ) (used us : List ℕ)
    → Memᴰ a us
    → nat_in a used ≡ false
    → free (a ∷ used) us < free used us
unfolding free nat_in
free-cons-lt a used [] m h = elim m [ ]
free-cons-lt a used (u ∷ us) (Memᴰ.head e) h =
    let unused : nat_in u used ≡ false = rw (sym e) h in
    let now_used : (u == a || nat_in u used) ≡ true = ground arith in
    rw now_used (rw unused (omega (arith, free-cons-le a used us)))
free-cons-lt a used (u ∷ us) (Memᴰ.tail m) h = ground (arith, free-cons-lt a used us m h)

pub free-le-length : (used us : List ℕ) → free used us ≤ length us
unfolding free
free-le-length used [] = omega arith
free-le-length used (u ∷ us) = ground (arith, free-le-length used us)
