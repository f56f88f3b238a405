-- ===== src/Permissions/Gate.antt =====
-- The loops over an operation's permissions: `check_permissions` before the operation and
-- `check_object_permissions` once the object is loaded.
use mathlib.Core.Path.{subst}
use ninja_devx.Prelude.{
  Option, List, All, ◌≡◌, ◌∷◌, false, ok, ◌↔◌, none, ◌>>=◌, some, raise, true, ◌>>◌, [], refl,
  All-zip, Outcome, ap, String,
}
use ninja_devx.Permissions.Eval.{
  check_each, denied, requires_async, check_permissions, check_object_permissions, raise_denied,
  denial,
}
use ninja_devx.Permissions.Defs.{
  Permission, leaf, Error, Leaf, all_of, http_error, any_of, negation, Permissions,
}
use ninja_devx.Permissions.Objects.{holds, denied-object_iff, denied-early_pass}
use ninja_devx.Permissions.Sync.{grants}

abbrev pub refused_message : String
refused_message = "You do not have permission to perform this action."

-- The error of a refusal: that of a leaf has the status code and message of its class, and that of
-- a combined permission is 403 with the default message.
pub data Says {R O : Type 0} : Permission R O → Error → Type 0 where
  leaf_says : (p : Leaf R O) → Says (leaf p) (http_error p.status_code p.message)
  any_says : (ps : Permissions R O) → Says (any_of ps) (http_error 403 refused_message)
  all_says : (ps : Permissions R O) → Says (all_of ps) (http_error 403 refused_message)
  not_says : (p : Permission R O) → Says (negation p) (http_error 403 refused_message)

-- The loop over the permissions ends with an error: the permissions before it pass, and it is the
-- error of the permission to blame, or one of the evaluation itself.
pub data Refuses {R O : Type 0} (request : R) (target : Option O) (e : Error)
    : List (Permission R O) → Type 0 where
  passed :
      (p : Permission R O) (ps : List (Permission R O))
      → denied p request target ≡ ok none
      → Refuses request target e ps
      → Refuses request target e (p ∷ ps)
  blamed :
      (p q : Permission R O) (ps : List (Permission R O))
      → denied p request target ≡ ok (some q)
      → Says q e
      → Refuses request target e (p ∷ ps)
  failed :
      (p : Permission R O) (ps : List (Permission R O))
      → denied p request target ≡ raise e
      → Refuses request target e (p ∷ ps)

module _ {R O : Type 0} (request : R) (target : Option O) where
  Says-denial : (q : Permission R O) → Says q (denial q)
  Says-denial (leaf p) = leaf_says p
  Says-denial (all_of ps) = all_says ps
  Says-denial (any_of ps) = any_says ps
  Says-denial (negation p) = not_says p

  denial-Says : (q : Permission R O) (e : Error) → Says q e → denial q ≡ e
  denial-Says _ _ (leaf_says p) = refl
  denial-Says _ _ (all_says ps) = refl
  denial-Says _ _ (any_says ps) = refl
  denial-Says _ _ (not_says p) = refl

  -- One round of the loop that ends with an error, by the outcome of its permission.
  round :
      (e : Error) (p : Permission R O) (ps : List (Permission R O))
      (o : Outcome Error (Option (Permission R O)))
      → denied p request target ≡ o
      → (o >>= λ refused. raise_denied refused >> check_each ps request target) ≡ raise e
      → (check_each ps request target ≡ raise e → Refuses request target e ps)
      → Refuses request target e (p ∷ ps)
  round e p ps (ok none) d h next = passed p ps d (next h)
  round e p ps (ok (some q)) d h next =
      let same : denial q ≡ e = cc in blamed p q ps d (subst (Says q) same (Says-denial q))
  round e p ps (raise f) d h next =
      let same : f ≡ e = cc in failed p ps (subst (λ x. denied p request target ≡ raise x) same d)

  -- The loop raises an error just when the first permission that does not pass gives it: 403 with
  -- the default message, or the status code and message of the leaf that is to blame, for a
  -- refusal, or the error of the evaluation. The permissions behind it have no say.
  pub check_each-raise_iff :
      (e : Error) (ps : List (Permission R O))
      → (check_each ps request target ≡ raise e) ↔ Refuses request target e ps
  unfolding check_each
  check_each-raise_iff e [] = (λ h. cc, λ r. elim r [ ])
  check_each-raise_iff e (p ∷ ps) =
      let (there, back) = check_each-raise_iff e ps in
      (
        λ h. round e p ps (denied p request target) refl h there,
        λ r. elim r [
          | passed _ _ d rest ↦ rw d (back rest)
          | blamed _ q _ d says ↦ rw d (ap raise (denial-Says q e says))
          | failed _ _ d ↦ rw d refl
        ],
      )

  check_each-ok :
      (ps : List (Permission R O))
      → (check_each ps request target ≡ ok tt) ↔ All (λ p. denied p request target ≡ ok none) ps
  unfolding check_each
  check_each-ok [] = (λ _. tt, λ _. refl)
  check_each-ok (p ∷ ps) =
      let (there, back) = check_each-ok ps in
      elim (denied p request target)
        as (λ d.
          (d >>= (λ refused. raise_denied refused >> check_each ps request target) ≡ ok tt)
          ↔ (d ≡ ok none) × All (λ a. denied a request target ≡ ok none) ps) [
            | ok none ↦ (λ h. (refl, there h), λ h. back h.1)
            | ok (some q) ↦ (λ h. absurd (cc), λ h. absurd (cc (h.0)))
            | raise e ↦ (λ h. absurd (cc), λ h. absurd (cc (h.0)))
          ]

module _ {R O : Type 0} (request : R) (obj : O) (ps : List (Permission R O))
    (sync : All (λ p. requires_async p ≡ false) ps) where
  -- For permissions without coroutine checks, the object passes `check_object_permissions` exactly
  -- when every permission holds classically for the request and the object.
  pub check_object_permissions_iff :
      (check_object_permissions ps request obj ≡ ok tt)
      ↔ All (λ p. holds (grants request (some obj)) p ≡ true) ps
  unfolding check_object_permissions
  check_object_permissions_iff =
      let (passes, back) = check_each-ok request (some obj) ps in
      (
        λ h. All-zip (λ p s d. (denied-object_iff request obj p s).0 d) ps sync (passes h),
        λ h. back (All-zip (λ p s k. (denied-object_iff request obj p s).1 k) ps sync h),
      )

  -- If some object passes, the request-level check had passed: nothing is refused early that the
  -- object-level check would have let through.
  pub check_permissions-early :
      check_object_permissions ps request obj ≡ ok tt → check_permissions request ps ≡ ok tt
  unfolding check_permissions check_object_permissions
  check_permissions-early h = (check_each-ok request none ps).1 (
      All-zip (λ p s d. denied-early_pass request obj p s d) ps sync
        ((check_each-ok request (some obj) ps).0 h))
