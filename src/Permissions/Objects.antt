-- ===== src/Permissions/Objects.antt =====
-- Object-level decisions: the two-valued meaning of a tree, and what the request-level check may
-- decide before the object is loaded.
use mathlib.Core.Path.{refl}
use ninja_devx.Prelude.{Bool, some, none, ◌≡◌, false, true, arith, not, ◌&&◌, ◌||◌, ok, ◌↔◌}
use ninja_devx.Permissions.Defs.{
  Leaf, checks_objects, Permission, has_object_permission, leaf, all_of, any_of, negation,
  Permissions, cons, has_permission, nil,
}
use ninja_devx.Permissions.Logic.{truth, truth_all, truth_any}
use ninja_devx.Permissions.Sync.{grants, denied-report}
use ninja_devx.Permissions.Agree.{waits_at}
use ninja_devx.Permissions.Eval.{requires_async, denied}

-- The classical meaning of a tree over the answers of its leaves.
module _ {R O : Type 0} (answer : Leaf R O → Bool) where
  unfoldable mutual
    pub holds : Permission R O → Bool
    holds (leaf p) = answer p
    holds (all_of ps) = holds_all ps
    holds (any_of ps) = holds_any ps
    holds (negation p) = not (holds p)

    pub holds_all : Permissions R O → Bool
    holds_all nil = true
    holds_all (cons p ps) = holds p && holds_all ps

    pub holds_any : Permissions R O → Bool
    holds_any nil = false
    holds_any (cons p ps) = holds p || holds_any ps

module _ {R O : Type 0} (request : R) (obj : O) where
  mutual
    unfolding truth holds has_object_permission has_permission

    truth-holds :
        (p : Permission R O)
        → truth (grants request (some obj)) (waits_at (some obj)) p
          ≡ some (holds (grants request (some obj)) p)
    truth-holds (leaf p) = ground arith
    truth-holds (all_of ps) = truth_all-holds ps
    truth-holds (any_of ps) = truth_any-holds ps
    truth-holds (negation p) = rw (truth-holds p) refl

    truth_all-holds :
        (ps : Permissions R O)
        → truth_all (grants request (some obj)) (waits_at (some obj)) ps
          ≡ some (holds_all (grants request (some obj)) ps)
    truth_all-holds nil = refl
    truth_all-holds (cons p ps) = ground (arith, truth-holds p, truth_all-holds ps)

    truth_any-holds :
        (ps : Permissions R O)
        → truth_any (grants request (some obj)) (waits_at (some obj)) ps
          ≡ some (holds_any (grants request (some obj)) ps)
    truth_any-holds nil = refl
    truth_any-holds (cons p ps) = ground (arith, truth-holds p, truth_any-holds ps)

  -- A leaf whose object check is not overridden grants every object.
  grants-early :
      (p : Leaf R O)
      → grants request none p ≡ true
      → waits_at {O = O} none p ≡ false
      → grants request (some obj) p ≡ true
  unfolding checks_objects has_object_permission has_permission
  grants-early p g w = ground arith

  grants-early_false :
      (p : Leaf R O) → grants request none p ≡ false → grants request (some obj) p ≡ false
  unfolding has_object_permission has_permission
  grants-early_false p g = ground arith

  mutual
    unfolding truth holds

    early-holds :
        (p : Permission R O) (b : Bool)
        → truth (grants request none) (waits_at {O = O} none) p ≡ some b
        → holds (grants request (some obj)) p ≡ b
    early-holds (leaf p) b h = ground (arith, grants-early p, grants-early_false p)
    early-holds (all_of ps) b h = early_all-holds ps b h
    early-holds (any_of ps) b h = early_any-holds ps b h
    early-holds (negation p) b h = ground (arith, early-holds p true, early-holds p false)

    early_all-holds :
        (ps : Permissions R O) (b : Bool)
        → truth_all (grants request none) (waits_at {O = O} none) ps ≡ some b
        → holds_all (grants request (some obj)) ps ≡ b
    early_all-holds nil b h = ground arith
    early_all-holds (cons p ps) b h = ground (
      arith,
      early-holds p true,
      early-holds p false,
      early_all-holds ps true,
      early_all-holds ps false,
    )

    early_any-holds :
        (ps : Permissions R O) (b : Bool)
        → truth_any (grants request none) (waits_at {O = O} none) ps ≡ some b
        → holds_any (grants request (some obj)) ps ≡ b
    early_any-holds nil b h = ground arith
    early_any-holds (cons p ps) b h = ground (
      arith,
      early-holds p true,
      early-holds p false,
      early_any-holds ps true,
      early_any-holds ps false,
    )

module _ {R O : Type 0} (request : R) (obj : O) (p : Permission R O)
    (sync : requires_async p ≡ false) where
  -- For a tree without coroutine checks, `denied` lets the object pass exactly when the tree holds
  -- classically over the answers of its leaves, each leaf answering for the request and the object.
  pub denied-object_iff :
      (denied p request (some obj) ≡ ok none) ↔ (holds (grants request (some obj)) p ≡ true)
  denied-object_iff =
      rw (denied-report request (some obj) p sync, truth-holds request obj p)
        (λ h. ground arith, λ h. rw h refl)

  -- For a permission tree without coroutine checks, a refusal by the sync evaluator before any
  -- object is loaded is final: the tree holds for no object.
  pub denied-early :
      (q : Permission R O)
      → denied p request none ≡ ok (some q)
      → holds (grants request (some obj)) p ≡ false
  denied-early q h =
      early-holds request obj p false (ground (arith, denied-report request none p sync))

  pub denied-early_pass : denied p request (some obj) ≡ ok none → denied p request none ≡ ok none
  denied-early_pass h =
      let granted = denied-object_iff.0 h in
      rw (denied-report request none p sync) (ground (arith, early-holds request obj p false))
