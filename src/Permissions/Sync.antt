-- ===== src/Permissions/Sync.antt =====
-- A tree without coroutine checks never raises in a sync operation, and the async evaluator gives
-- the same answer where the async checks agree with the sync ones.
use ninja_devx.Prelude.{Bool, false, ◌&&◌, ◌≡◌, refl, Option, none, some, ok, ◌>>=◌, arith, ap}
use mathlib.Core.Path.{fun_ext}
use ninja_devx.Permissions.Defs.{
  Leaf, Permission, leaf, all_of, any_of, negation, Permissions, nil, cons, awaited, has_permission,
  has_object_permission, leaf_allows, ahas_permission, ahas_object_permission, aleaf_allows,
}
use ninja_devx.Permissions.Eval.{
  Junction, visit, evaluate, evaluate_operands, requires_async, requires_async_any, denied, refusal,
  adenied,
}
use ninja_devx.Permissions.Agree.{told, waits_at, report, evaluate-report}
use ninja_devx.Permissions.Logic.{blamed, truth}

-- Whether a leaf grants the request, and then the object: both checks, without short-circuiting.
abbrev pub grants : {R O : Type 0} → R → Option O → Leaf R O → Bool
unfolding has_permission has_object_permission
grants request none p = awaited (has_permission p request)
grants request (some obj) p =
    awaited (has_permission p request) && awaited (has_object_permission p request obj)

module _ {R O : Type 0} (request : R) (target : Option O) where
  leaf_allows-grants :
      (p : Leaf R O)
      → requires_async (leaf p) ≡ false
      → leaf_allows p request target ≡ ok (grants request target p)
  unfolding leaf_allows requires_async has_permission has_object_permission
  leaf_allows-grants p h = ground arith

  mutual
    unfolding evaluate requires_async

    evaluate-told :
        (p : Permission R O)
        → requires_async p ≡ false
        → evaluate leaf_allows request target p
          ≡ evaluate (told (grants request target)) request target p
    evaluate-told (leaf p) h = rw (leaf_allows-grants p h)
    evaluate-told (all_of ps) h = operands-told ps _ _ _ h
    evaluate-told (any_of ps) h = operands-told ps _ _ _ h
    evaluate-told (negation p) h = ground (arith, evaluate-told p)

    operands-told :
        (ps : Permissions R O) (junction : Junction) (pending : Bool) (q : Permission R O)
        → requires_async_any ps ≡ false
        → evaluate_operands leaf_allows request target junction ps pending q
          ≡ evaluate_operands (told (grants request target)) request target junction ps pending q
    operands-told nil junction pending q h = refl
    operands-told (cons p ps) junction pending q h =
        let first : requires_async p ≡ false = ground arith in
        let others : requires_async_any ps ≡ false = ground arith in
        rw (evaluate-told p first) (
          ap (λ k. evaluate (told (grants request target)) request target p >>= k)
            (fun_ext (λ v. ap (visit junction v) (operands-told ps junction _ _ others))))

module _ {R O : Type 0} (request : R) (target : Option O) (p : Permission R O) where
  abbrev pub truth_at : Option Bool
  truth_at = truth (grants request target) (waits_at target) p

  abbrev pub blamed_at : Permission R O
  blamed_at = blamed (grants request target) (waits_at target) p

  -- A tree without coroutine checks is decided by its three-valued truth: it never raises.
  pub denied-report :
      requires_async p ≡ false → denied p request target ≡ ok (refusal (report truth_at blamed_at))
  unfolding denied
  denied-report h = rw (evaluate-told request target p h) (rw evaluate-report refl)

-- The async checks of every leaf give what the sync ones give, as the defaults do.
unfoldable mutual
  pub AsyncAgrees : {R O : Type 0} → Permission R O → Type 0
  AsyncAgrees {R} {O} (leaf p) =
      ((r : R) → ahas_permission p r ≡ awaited (has_permission p r))
      × ((r : R) (o : O) → ahas_object_permission p r o ≡ awaited (has_object_permission p r o))
  AsyncAgrees (all_of ps) = AsyncAgreesAll ps
  AsyncAgrees (any_of ps) = AsyncAgreesAll ps
  AsyncAgrees (negation p) = AsyncAgrees p

  pub AsyncAgreesAll : {R O : Type 0} → Permissions R O → Type 0
  AsyncAgreesAll nil = Unit
  AsyncAgreesAll (cons p ps) = AsyncAgrees p × AsyncAgreesAll ps

module _ {R O : Type 0} (request : R) where
  aleaf_allows-grants :
      (target : Option O) (p : Leaf R O)
      → AsyncAgrees (leaf p)
      → aleaf_allows p request target ≡ ok (grants request target p)
  unfolding aleaf_allows AsyncAgrees
  aleaf_allows-grants none p h = ap ok (h.0 request)
  aleaf_allows-grants (some o) p h = ground (arith, h.0 request, h.1 request o)

  mutual
    unfolding evaluate AsyncAgrees

    aevaluate-told :
        (p : Permission R O) (target : Option O)
        → AsyncAgrees p
        → evaluate aleaf_allows request target p
          ≡ evaluate (told (grants request target)) request target p
    aevaluate-told (leaf p) target h = rw (aleaf_allows-grants target p h)
    aevaluate-told (all_of ps) target h = aoperands-told ps target _ _ _ h
    aevaluate-told (any_of ps) target h = aoperands-told ps target _ _ _ h
    aevaluate-told (negation p) target h = ground (arith, aevaluate-told p target h)

    aoperands-told :
        (ps : Permissions R O) (target : Option O) (junction : Junction) (pending : Bool)
        (q : Permission R O)
        → AsyncAgreesAll ps
        → evaluate_operands aleaf_allows request target junction ps pending q
          ≡ evaluate_operands (told (grants request target)) request target junction ps pending q
    aoperands-told nil target junction pending q h = refl
    aoperands-told (cons p ps) target junction pending q h = rw (aevaluate-told p target h.0) (
        ap (λ k. evaluate (told (grants request target)) request target p >>= k)
          (fun_ext (λ v. ap (visit junction v) (aoperands-told ps target junction _ _ h.1))))

  -- The async evaluator refuses what the sync evaluator refuses, and blames the same permission,
  -- for a tree that has no coroutine check and whose async checks agree with the sync ones.
  pub adenied-eq-denied :
      (p : Permission R O) (target : Option O)
      → requires_async p ≡ false
      → AsyncAgrees p
      → adenied p request target ≡ denied p request target
  unfolding adenied
  adenied-eq-denied p target h a =
      rw (denied-report request target p h, aevaluate-told p target a, evaluate-report) refl
