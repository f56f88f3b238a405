-- ===== src/Permissions/Eval.antt =====
-- `_evaluate`, `denied` and the enforcement over a list of permissions. The sync and the async
-- evaluator are one text that calls another leaf check, which is here an argument.
use ninja_devx.Prelude.{
  String, Bool, true, false, ◌||◌, ◌&&◌, Option, none, some, List, [], ◌∷◌, Outcome, ok, raise,
  is_none, ◌>>=◌, ◌>>◌, if◌then◌else◌,
}
use ninja_devx.Permissions.Defs.{
  Leaf, Permission, leaf, all_of, any_of, negation, Permissions, nil, cons, Error, http_error,
  checks_objects, leaf_allows, aleaf_allows, Check, sync_check, coroutine_check,
}

-- The combinator of a node with operands in a loop.
pub data Junction : Type 0 where
  all any : Junction

-- `allowed` (`none` is "unknown") and the permission that refused.
abbrev pub Verdict : Type 0 → Type 0 → Type 0
Verdict R O = Option Bool × Option (Permission R O)

-- `child_refused if child_refused is not None else refused`
abbrev pub or_else {ℓ} : {A : Type ℓ} → Option A → A → A
or_else none a = a
or_else (some b) a = b

module _ {R O : Type 0} where
  -- After the loop: what remains when no operand decided.
  abbrev pub undecided : Junction → Bool → Permission R O → Verdict R O
  undecided junction true refused = (none, none)
  undecided all false refused = (some true, none)
  undecided any false refused = (some false, some refused)

  -- One operand's verdict: it decides, or the loop goes on.
  abbrev pub visit :
      Junction → Verdict R O → Outcome Error (Verdict R O) → Outcome Error (Verdict R O)
  visit all (some false, refused) rest = ok (some false, refused)
  visit any (some true, refused) rest = ok (some true, none)
  visit _ _ rest = rest

  abbrev pub invert : Permission R O → Verdict R O → Verdict R O
  invert permission (none, _) = (none, none)
  invert permission (some true, _) = (some false, some permission)
  invert permission (some false, _) = (some true, none)

module _ {R O : Type 0} (allows : Leaf R O → R → Option O → Outcome Error Bool) (request : R)
    (target : Option O) where
  unfoldable mutual
    pub evaluate : Permission R O → Outcome Error (Verdict R O)
    evaluate (leaf p) = do
      allowed ← allows p request target
      if allowed
          then (if is_none target && checks_objects p
              then ok (none, none)
              else ok (some true, none))
          else ok (some false, some (leaf p))
    evaluate (all_of ps) = evaluate_operands all ps false (all_of ps)
    evaluate (any_of ps) = evaluate_operands any ps false (any_of ps)
    evaluate (negation p) = do v ← evaluate p; ok (invert (negation p) v)

    -- `for child in permission.operands`, with the loop's `pending` and `refused`.
    pub evaluate_operands :
        Junction → Permissions R O → Bool → Permission R O → Outcome Error (Verdict R O)
    evaluate_operands junction nil pending refused = ok (undecided junction pending refused)
    evaluate_operands junction (cons p ps) pending refused = do
      v ← evaluate p
      visit junction v
          (evaluate_operands junction ps (pending || is_none v.0) (or_else v.1 refused))

-- `refused if allowed is False else None`
abbrev pub refusal : {R O : Type 0} → Verdict R O → Option (Permission R O)
refusal (some false, refused) = refused
refusal _ = none

module _ {R O : Type 0} where
  unfoldable pub denied : Permission R O → R → Option O → Outcome Error (Option (Permission R O))
  unfolding evaluate leaf_allows
  denied permission request target = do
    v ← evaluate leaf_allows request target permission
    ok (refusal v)

  unfoldable pub adenied : Permission R O → R → Option O → Outcome Error (Option (Permission R O))
  unfolding evaluate aleaf_allows
  adenied permission request target = do
    v ← evaluate aleaf_allows request target permission
    ok (refusal v)

-- The check is a coroutine function.
abbrev pub is_coroutine : {A : Type 0} → Option (Check A) → Bool
is_coroutine none = false
is_coroutine (some (sync_check f)) = false
is_coroutine (some (coroutine_check f)) = true

-- `BasePermission.status_code` and `message`, which the combinators inherit.
abbrev pub default_message : String
default_message = "You do not have permission to perform this action."

module _ {R O : Type 0} where
  abbrev pub denial : Permission R O → Error
  denial (leaf p) = http_error p.status_code p.message
  denial _ = http_error 403 default_message

  -- `if refused is not None: _raise_denied(refused)`
  abbrev pub raise_denied : Option (Permission R O) → Outcome Error (Unit {0})
  raise_denied none = ok tt
  raise_denied (some refused) = raise (denial refused)

  -- `check_permissions` is this loop at the target `none`, and `check_object_permissions` at
  -- `some obj` over the permissions that `bind_permissions` stored.
  unfoldable pub check_each : List (Permission R O) → R → Option O → Outcome Error (Unit {0})
  unfolding denied
  check_each [] request target = ok tt
  check_each (p ∷ ps) request target = do
    refused ← denied p request target
    raise_denied refused
    check_each ps request target

  unfoldable pub check_permissions : R → List (Permission R O) → Outcome Error (Unit {0})
  unfolding check_each
  check_permissions request permissions = check_each permissions request none

  unfoldable pub check_object_permissions : List (Permission R O) → R → O → Outcome Error (Unit {0})
  unfolding check_each
  check_object_permissions bound request obj = check_each bound request (some obj)

  unfoldable mutual
    pub requires_async : Permission R O → Bool
    requires_async (leaf p) =
        is_coroutine p.own_has_permission || is_coroutine p.own_has_object_permission
    requires_async (all_of ps) = requires_async_any ps
    requires_async (any_of ps) = requires_async_any ps
    requires_async (negation p) = requires_async p || false

    -- `any(requires_async(child) for child in permission.operands)`
    pub requires_async_any : Permissions R O → Bool
    requires_async_any nil = false
    requires_async_any (cons p ps) = requires_async p || requires_async_any ps
