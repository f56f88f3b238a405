-- ===== src/Permissions/Agree.antt =====
-- The evaluator computes the three-valued truth of a permission, and reports whom to blame.
use ninja_devx.Prelude.{
  Bool, true, false, ◌&&◌, ◌≡◌, Option, none, some, Outcome, ok, is_none, if◌then◌else◌, arith,
}
use ninja_devx.Permissions.Defs.{
  Leaf, Permission, leaf, all_of, any_of, negation, Permissions, nil, cons, Error, checks_objects,
}
use ninja_devx.Permissions.Eval.{all, any, Verdict, evaluate, evaluate_operands}
use ninja_devx.Permissions.Logic.{
  kleene_and, kleene_or, truth, truth_all, truth_any, blamed, first_blamed, last_blamed,
}

-- A truth value with the permission to blame if it is false.
abbrev pub report : {R O : Type 0} → Option Bool → Permission R O → Verdict R O
report (some false) q = (some false, some q)
report t q = (t, none)

abbrev pub waits_at : {R O : Type 0} → Option O → Leaf R O → Bool
waits_at target p = is_none target && checks_objects p

abbrev pub told : {R O : Type 0} → (Leaf R O → Bool) → Leaf R O → R → Option O → Outcome Error Bool
told answer p _ _ = ok (answer p)

module _ {R O : Type 0} (answer : Leaf R O → Bool) (request : R) (target : Option O) where
  mutual
    unfolding evaluate truth blamed

    pub evaluate-report :
        (p : Permission R O)
        → evaluate (told answer) request target p
          ≡ ok (report (truth answer (waits_at target) p) (blamed answer (waits_at target) p))
    evaluate-report (leaf p) = ground arith
    evaluate-report (all_of ps) = ground (arith, all-report ps false (all_of ps))
    evaluate-report (any_of ps) = ground (arith, any-report ps false (any_of ps))
    evaluate-report (negation p) = ground (arith, evaluate-report p)

    all-report :
        (ps : Permissions R O) (pending : Bool) (q : Permission R O)
        → evaluate_operands (told answer) request target all ps pending q
          ≡ ok (
              report
                (kleene_and
                  (if pending then none else some true)
                  (truth_all answer (waits_at target) ps))
                (first_blamed answer (waits_at target) ps q))
    all-report nil pending q = ground arith
    all-report (cons p ps) pending q =
        ground (arith, evaluate-report p, all-report ps true q, all-report ps pending q)

    any-report :
        (ps : Permissions R O) (pending : Bool) (q : Permission R O)
        → evaluate_operands (told answer) request target any ps pending q
          ≡ ok (
              report
                (kleene_or
                  (if pending then none else some false)
                  (truth_any answer (waits_at target) ps))
                (last_blamed answer (waits_at target) ps q))
    any-report nil pending q = ground arith
    any-report (cons p ps) pending q = ground (
      arith,
      evaluate-report p,
      any-report ps true q,
      any-report ps pending q,
      any-report ps pending (blamed answer (waits_at target) p),
    )
