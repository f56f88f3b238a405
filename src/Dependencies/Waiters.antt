-- ===== src/Dependencies/Waiters.antt =====
-- The tasks that wait for each other never wait in a circle.
use mathlib.Core.List.{Memᴰ}
use mathlib.Core.Path.{subst}
use ninja_devx.Dependencies.Defs.{circular, out_of_fuel}
use ninja_devx.Prelude.{
  [], ◌∷◌, ℕ, ◌≡◌, ◌==◌, some, ok, false, none, suc, unless_ok, ◌∙◌, Option-cases, arith, ◌⊎◌, inl,
  sym, Bool-cases, inr, zero, List, length, free, nat_in, ◌<◌, nat_in_mem, ◌≢◌, raise, [],
  free-le-length, free-cons-lt, ap, refl,
}
use ninja_devx.Prelude.Table.{Table, get, put, get-put, drop, get-drop}
use ninja_devx.Dependencies.Container.{track_waiter, release_waiter}

-- The first task waits for the second, directly or through others.
pub data Waits (waiting : Table ℕ) (last : ℕ) : ℕ → Type 0 where
  direct : (a : ℕ) → get a waiting ≡ some last → Waits waiting last a
  through : (a b : ℕ) → get a waiting ≡ some b → Waits waiting last b → Waits waiting last a

pub record NoCircle (waiting : Table ℕ) : Type 0 where
  pub apart : (a : ℕ) → ¬ (Waits waiting a a)

-- A task whose chain of waits ends without the waiter.
data Clear (waiter : ℕ) (waiting : Table ℕ) : ℕ → Type 0 where
  ends : (c : ℕ) → (c == waiter) ≡ false → get c waiting ≡ none → Clear waiter waiting c
  goes :
      (c next : ℕ)
      → (c == waiter) ≡ false
      → get c waiting ≡ some next
      → Clear waiter waiting next
      → Clear waiter waiting c

unfoldable keys : Table ℕ → List ℕ
keys [] = []
keys ((k, v) ∷ rows) = k ∷ keys rows

length-keys : (rows : Table ℕ) → length (keys rows) ≡ length rows
unfolding keys
length-keys [] = refl
length-keys ((k, v) ∷ rows) = ap suc (length-keys rows)

keys_mem : (k v : ℕ) (rows : Table ℕ) → get k rows ≡ some v → Memᴰ k (keys rows)
unfolding keys get
keys_mem k v [] h = cc
keys_mem k v ((j, w) ∷ rows) h = elim (Bool-cases (j == k)) [
  | inl e ↦ Memᴰ.head (ground arith)
  | inr e ↦ Memᴰ.tail (keys_mem k v rows (ground arith))
]

Waits-append :
    (waiting : Table ℕ) (c b a : ℕ) → Waits waiting b a → Waits waiting c b → Waits waiting c a
Waits-append waiting c b a (direct _ e) r = through a b e r
Waits-append waiting c b a (through _ n e w) r = through a n e (Waits-append waiting c b n w r)

module _ (waiter owner : ℕ) (waiting : Table ℕ) where
  track_waiter-Clear :
      (fuel cursor : ℕ) (after : Table ℕ)
      → track_waiter fuel waiter owner cursor waiting ≡ ok after
      → Clear waiter waiting cursor × (after ≡ put waiter owner waiting)
  unfolding track_waiter
  track_waiter-Clear zero cursor after h = cc
  track_waiter-Clear (suc fuel) cursor after h =
      let (apart, h1) = unless_ok (cursor == waiter) circular _ after h in
      elim (Option-cases (get cursor waiting)) [
        | inl e ↦ (ends cursor apart e, ground (arith, h1))
        | inr (next, e) ↦
            (let (clear, same) = track_waiter-Clear fuel next after (rw (e, track_waiter) at h1) in
              (goes cursor next apart e clear, same))
      ]

  Clear-apart : (c : ℕ) → Clear waiter waiting c → (c == waiter) ≡ false
  Clear-apart c (ends _ h e) = h
  Clear-apart c (goes _ n h e r) = h

  abbrev After : Table ℕ
  After = put waiter owner waiting

  not_visited :
      (cursor : ℕ) (visited : List ℕ)
      → NoCircle waiting
      → ((v : ℕ) → Memᴰ v visited → Waits waiting cursor v)
      → nat_in cursor visited ≡ false
  not_visited cursor visited none_yet trail = elim (Bool-cases (nat_in cursor visited)) [
    | inr h ↦ h
    | inl h ↦ elim (none_yet.apart cursor (trail cursor (nat_in_mem cursor visited h))) [ ]
  ]

  longer :
      (cursor next : ℕ) (visited : List ℕ)
      → get cursor waiting ≡ some next
      → ((v : ℕ) → Memᴰ v visited → Waits waiting cursor v)
      → (v : ℕ) → Memᴰ v (cursor ∷ visited)
      → Waits waiting next v
  longer cursor next visited e trail v (Memᴰ.head same) =
      subst (λ x. Waits waiting next x) (sym same) (direct cursor e)
  longer cursor next visited e trail v (Memᴰ.tail m) =
      Waits-append waiting next cursor v (trail v m) (direct cursor e)

  get-After : (c : ℕ) → (c == waiter) ≡ false → get c After ≡ get c waiting
  get-After c h = get-put waiter c owner waiting ∙ ground arith

  -- From a clear task, the new wait is never reached.
  Clear-next : (c n : ℕ) → Clear waiter waiting c → get c After ≡ some n → Clear waiter waiting n
  Clear-next c n (ends _ h e) w = ground (arith, get-After c h)
  Clear-next c n (goes _ next h e r) w =
      let same : next ≡ n = ground (arith, get-After c h) in rw (sym same) r

  Clear-Waits : (b c : ℕ) → Clear waiter waiting c → Waits After b c → Clear waiter waiting b
  Clear-Waits b c clear (direct _ e) = Clear-next c b clear e
  Clear-Waits b c clear (through _ n e w) = Clear-Waits b n (Clear-next c n clear e) w

  not_back : Clear waiter waiting owner → ¬ (Waits After waiter owner)
  not_back clear w =
      let apart = Clear-apart waiter (Clear-Waits waiter owner clear w) in ground (arith, apart)

  not_circle : Clear waiter waiting owner → ¬ (Waits After waiter waiter)
  not_circle clear (direct _ e) =
      let same : owner ≡ waiter = ground (arith, get-put waiter waiter owner waiting) in
      let apart = Clear-apart owner clear in ground (arith, apart, same)
  not_circle clear (through _ n e w) =
      let same : owner ≡ n = ground (arith, get-put waiter waiter owner waiting) in
      not_back clear (subst (λ x. Waits After waiter x) (sym same) w)

  -- A chain of waits is an old one, or the waiter is on it.
  Waits-split :
      (b a : ℕ)
      → Waits After b a
      → Waits waiting b a ⊎ (((a ≡ waiter) ⊎ Waits After waiter a) × Waits After b waiter)
  Waits-split b a (direct _ e) = elim (Bool-cases (a == waiter)) [
    | inr h ↦ inl (direct a (sym (get-After a h) ∙ e))
    | inl h ↦
        (let same : a ≡ waiter = ground arith in
          inr (inl same, direct waiter (subst (λ x. get x After ≡ some b) same e)))
  ]
  Waits-split b a (through _ n e w) = elim (Bool-cases (a == waiter)) [
    | inl h ↦
        (let same : a ≡ waiter = ground arith in
          inr (inl same, through waiter n (subst (λ x. get x After ≡ some n) same e) w))
    | inr h ↦ elim (Waits-split b n w) [
      | inl old ↦ inl (through a n (sym (get-After a h) ∙ e) old)
      | inr (inl last, q) ↦ inr (inr (direct a (subst (λ x. get a After ≡ some x) last e)), q)
      | inr (inr further_on, q) ↦ inr (inr (through a n e further_on), q)
    ]
  ]

  -- If no task waits for itself through others, and a task is entered as a waiter, still none does.
  pub track_waiter-NoCircle :
      (fuel : ℕ) (after : Table ℕ)
      → NoCircle waiting
      → track_waiter fuel waiter owner owner waiting ≡ ok after
      → NoCircle after
  track_waiter-NoCircle fuel after none_yet h =
      let (clear, same) = track_waiter-Clear fuel owner after h in
      subst NoCircle (sym same) (record { apart = λ a w. circle clear a (Waits-split a a w) })
    where
      circle :
          Clear waiter waiting owner
          → (a : ℕ)
          → Waits waiting a a ⊎ (((a ≡ waiter) ⊎ Waits After waiter a) × Waits After a waiter)
          → ⊥
      circle clear a (inl old) = none_yet.apart a old
      circle clear a (inr (inl same, q)) =
          not_circle clear (subst (λ x. Waits After x waiter) same q)
      circle clear a (inr (inr p, q)) = not_circle clear (Waits-append After waiter a waiter q p)

  -- The loop ends: with more fuel than rows it does not run out.
  walk-Ends :
      (fuel cursor : ℕ) (visited : List ℕ)
      → NoCircle waiting
      → ((v : ℕ) → Memᴰ v visited → Waits waiting cursor v)
      → free visited (keys waiting) < fuel
      → track_waiter fuel waiter owner cursor waiting ≢ raise out_of_fuel
  unfolding track_waiter
  walk-Ends zero cursor visited none_yet trail h = ground arith
  walk-Ends (suc fuel) cursor visited none_yet trail h = elim (Bool-cases (cursor == waiter)) [
    | inl on ↦ rw on (λ b. cc)
    | inr off ↦ elim (Option-cases (get cursor waiting)) [
      | inl e ↦ rw off (rw (e, track_waiter) (λ b. cc))
      | inr (next, e) ↦
          (let new : nat_in cursor visited ≡ false = not_visited cursor visited none_yet trail in
            rw off (
              rw (e, track_waiter)
                (walk-Ends fuel next (cursor ∷ visited) none_yet
                  (longer cursor next visited e trail)
                  (omega (
                    arith,
                    free-cons-lt cursor visited (keys waiting) (keys_mem cursor next waiting e) new,
                  )))))
    ]
  ]

  pub track_waiter-Ends :
      (fuel : ℕ)
      → NoCircle waiting
      → length waiting < fuel
      → track_waiter fuel waiter owner owner waiting ≢ raise out_of_fuel
  track_waiter-Ends fuel none_yet h =
      walk-Ends fuel owner [] none_yet (λ v m. elim m [ ])
        (omega (arith, h, free-le-length [] (keys waiting), length-keys waiting))

drop-Waits :
    (waiter : ℕ) (waiting : Table ℕ) (b a : ℕ) → Waits (drop waiter waiting) b a → Waits waiting b a
drop-Waits waiter waiting b a (direct _ e) = direct a (ground (arith, get-drop waiter a waiting))
drop-Waits waiter waiting b a (through _ n e w) =
    through a n (ground (arith, get-drop waiter a waiting)) (drop-Waits waiter waiting b n w)

-- The waits that a container goes through, task by task.
pub data Reach : Table ℕ → Type 0 where
  idle : Reach []
  entered :
      (fuel waiter owner : ℕ) (waiting after : Table ℕ)
      → Reach waiting
      → track_waiter fuel waiter owner owner waiting ≡ ok after
      → Reach after
  released :
      (waiter : ℕ) (waiting after : Table ℕ)
      → Reach waiting
      → release_waiter waiter waiting ≡ after
      → Reach after

-- However tasks enter and leave their waits, no task ever waits for itself, directly or through
-- others.
pub Reach-NoCircle : (waiting : Table ℕ) → Reach waiting → NoCircle waiting
unfolding release_waiter get
Reach-NoCircle waiting idle = record { apart = λ a w. nobody a w }
  where
    nobody : (a : ℕ) → Waits [] a a → ⊥
    nobody a (direct _ e) = cc
    nobody a (through _ n e w) = cc
Reach-NoCircle waiting (entered fuel waiter owner before _ r h) =
    track_waiter-NoCircle waiter owner before fuel waiting (Reach-NoCircle before r) h
Reach-NoCircle waiting (released waiter before _ r h) =
    let old = Reach-NoCircle before r in
    subst NoCircle h (record { apart = λ a w. old.apart a (drop-Waits waiter before a a w) })
