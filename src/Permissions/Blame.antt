-- ===== src/Permissions/Blame.antt =====
-- The permission that `denied` reports is itself refused.
use ninja_devx.Prelude.{Option, Bool, ◌≡◌, some, false, ok, arith, refl}
use ninja_devx.Permissions.Defs.{
  Leaf, Permission, leaf, negation, all_of, any_of, cons, Permissions, nil,
}
use ninja_devx.Permissions.Logic.{truth, blamed, truth_any, truth_all, first_blamed, last_blamed}
use ninja_devx.Permissions.Eval.{requires_async, denied, requires_async_any}
use ninja_devx.Permissions.Sync.{truth_at, denied-report, blamed_at, grants}
use ninja_devx.Permissions.Agree.{waits_at}

module _ {R O : Type 0} (answer waits : Leaf R O → Bool) where
  -- `q` is false, is to blame for itself, and has no coroutine check.
  abbrev Refused : Permission R O → Type 0
  Refused q =
      (truth answer waits q ≡ some false) × (blamed answer waits q ≡ q) × (requires_async q ≡ false)

  mutual
    unfolding truth blamed requires_async

    pub blamed-Refused :
        (p : Permission R O)
        → requires_async p ≡ false
        → truth answer waits p ≡ some false
        → Refused (blamed answer waits p)
    blamed-Refused (leaf p) s h = (h, refl, s)
    blamed-Refused (negation p) s h = (h, refl, s)
    blamed-Refused (all_of ps) s h = first_blamed-Refused ps (all_of ps) s h
    blamed-Refused (any_of nil) s h = (refl, refl, refl)
    blamed-Refused (any_of (cons p ps)) s h =
        let first : truth answer waits p ≡ some false = ground arith in
        let others : truth_any answer waits ps ≡ some false = ground arith in
        rw first (
          last_blamed-Refused ps (blamed answer waits p) (ground arith) others
            (blamed-Refused p (ground arith) first))

    first_blamed-Refused :
        (ps : Permissions R O) (q : Permission R O)
        → requires_async_any ps ≡ false
        → truth_all answer waits ps ≡ some false
        → Refused (first_blamed answer waits ps q)
    first_blamed-Refused nil q s h = absurd (cc)
    first_blamed-Refused (cons p ps) q s h =
        ground (arith, blamed-Refused p, first_blamed-Refused ps q)

    last_blamed-Refused :
        (ps : Permissions R O) (q : Permission R O)
        → requires_async_any ps ≡ false
        → truth_any answer waits ps ≡ some false
        → Refused q
        → Refused (last_blamed answer waits ps q)
    last_blamed-Refused nil q s h r = r
    last_blamed-Refused (cons p ps) q s h r =
        let first : truth answer waits p ≡ some false = ground arith in
        let others : truth_any answer waits ps ≡ some false = ground arith in
        rw first (
          last_blamed-Refused ps (blamed answer waits p) (ground arith) others
            (blamed-Refused p (ground arith) first))

-- For a tree without coroutine checks, the permission that `denied` reports would be refused, and
-- reported, on its own: its status code and message belong to a check that failed.
pub denied-denied :
    {R O : Type 0} (request : R) (target : Option O) (p q : Permission R O)
    → requires_async p ≡ false
    → denied p request target ≡ ok (some q)
    → denied q request target ≡ ok (some q)
denied-denied request target p q s h =
    let false_here : truth_at request target p ≡ some false =
      ground (arith, denied-report request target p s) in
    let named : blamed_at request target p ≡ q = ground (arith, denied-report request target p s) in
    let r = blamed-Refused (grants request target) (waits_at target) p s false_here in
    rw (← named) (rw (denied-report request target (blamed_at request target p) r.2, r.0, r.1) refl)
