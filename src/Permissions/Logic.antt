-- ===== src/Permissions/Logic.antt =====
-- The meaning of a permission tree, independent of the evaluator: Kleene's three-valued logic over
-- the answers of the leaves, and the permission to blame for a refusal.
use ninja_devx.Prelude.{Bool, true, false, Option, none, some, if◌then◌else◌, not}
use ninja_devx.Permissions.Defs.{
  Leaf, Permission, leaf, all_of, any_of, negation, Permissions, nil, cons,
}

abbrev pub kleene_and : Option Bool → Option Bool → Option Bool
kleene_and (some false) b = some false
kleene_and (some true) b = b
kleene_and none (some false) = some false
kleene_and none _ = none

abbrev pub kleene_not : Option Bool → Option Bool
kleene_not none = none
kleene_not (some b) = some (not b)

abbrev pub kleene_or : Option Bool → Option Bool → Option Bool
kleene_or (some true) b = some true
kleene_or (some false) b = b
kleene_or none (some true) = some true
kleene_or none _ = none

-- `truth` and `blamed` read a leaf through `answer`, and `waits` says that its object check is
-- still to come.
module _ {R O : Type 0} (answer waits : Leaf R O → Bool) where
  unfoldable mutual
    pub truth : Permission R O → Option Bool
    truth (leaf p) = if answer p then (if waits p then none else some true) else some false
    truth (all_of ps) = truth_all ps
    truth (any_of ps) = truth_any ps
    truth (negation p) = kleene_not (truth p)

    pub truth_all : Permissions R O → Option Bool
    truth_all nil = some true
    truth_all (cons p ps) = kleene_and (truth p) (truth_all ps)

    pub truth_any : Permissions R O → Option Bool
    truth_any nil = some false
    truth_any (cons p ps) = kleene_or (truth p) (truth_any ps)

  abbrev refused_only : {A : Type 0} → Option Bool → A → Option A
  refused_only (some false) a = some a
  refused_only _ a = none

  unfoldable mutual
    pub blamed : Permission R O → Permission R O
    blamed (leaf p) = leaf p
    blamed (all_of ps) = first_blamed ps (all_of ps)
    blamed (any_of ps) = last_blamed ps (any_of ps)
    blamed (negation p) = negation p

    -- The first operand that is false is to blame for a conjunction.
    pub first_blamed : Permissions R O → Permission R O → Permission R O
    first_blamed nil q = q
    first_blamed (cons p ps) q = elim (truth p) [ some false ↦ blamed p | _ ↦ first_blamed ps q ]

    -- The last operand that is false is to blame for a disjunction.
    pub last_blamed : Permissions R O → Permission R O → Permission R O
    last_blamed nil q = q
    last_blamed (cons p ps) q = last_blamed ps (elim (truth p) [ some false ↦ blamed p | _ ↦ q ])
