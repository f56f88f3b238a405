-- ===== src/Permissions/Examples.antt =====
-- Concrete requests, objects and permission trees.
use ninja_devx.Prelude.{
  Option, ℕ, Bool, some, true, none, false, ◌≡◌, ok, refl, ◌↔◌, List, All, raise, ◌∷◌, ◌==◌, [],
}
use ninja_devx.Permissions.Owner.{owns, is_owner, PyObject, object, attribute, key, end}
use ninja_devx.Permissions.Eval.{
  denied, requires_async, evaluate, check_permissions, check_object_permissions, adenied,
  check_each,
}
use ninja_devx.Permissions.Defs.{
  Permission, any_of, cons, leaf, has_permission, nil, has_object_permission, checks_objects,
  all_of, negation, Leaf, sync_check, ahas_permission, http_error, ahas_object_permission,
}
use ninja_devx.Permissions.User.{
  User, HttpRequest, SessionUser, request_user, arequest_user, unloaded,
}
use ninja_devx.Permissions.Objects.{holds, denied-object_iff, denied-early}
use ninja_devx.Permissions.Sync.{grants, AsyncAgrees, adenied-eq-denied}
use ninja_devx.Permissions.Builtin.{deny_all, is_staff, is_authenticated}
use ninja_devx.Permissions.Gate.{check_object_permissions_iff, check_each-raise_iff, Refuses}

abbrev user : ℕ → Bool → User
user k staff = record {
  pk = some k;
  is_authenticated = true;
  is_staff = staff;
  is_superuser = false;
  has_perms = none;
  ahas_perms = none;
}

abbrev request_of : Option User → HttpRequest
request_of u = record {
  method = some "DELETE";
  auth = u;
  stored = none;
  user = SessionUser.absent;
  in_event_loop = false;
}

abbrev article : PyObject
article = object (attribute "author" (object (attribute "user_id" (key 7) end)) end)

abbrev owner_or_staff : Permission HttpRequest PyObject
owner_or_staff = any_of (cons (leaf (is_owner "author__user")) (cons (leaf is_staff) nil))

program : Unit {0}
unfolding is_owner is_staff owns request_user denied evaluate holds has_permission
    has_object_permission requires_async checks_objects is_authenticated deny_all check_permissions
    check_object_permissions arequest_user
program = tt

owned : owns (some (user 7 false)) article "author__user" ≡ true
unfolding owns
owned = refl

owner_or_staff-sync : requires_async owner_or_staff ≡ false
unfolding requires_async is_owner is_staff
owner_or_staff-sync = refl

denied-object_iff_example :
    (denied owner_or_staff (request_of (some (user 7 false))) (some article) ≡ ok none)
    ↔ (holds (grants (request_of (some (user 7 false))) (some article)) owner_or_staff ≡ true)
denied-object_iff_example =
    denied-object_iff (request_of (some (user 7 false))) article owner_or_staff owner_or_staff-sync

owner_passes : denied owner_or_staff (request_of (some (user 7 false))) (some article) ≡ ok none
unfolding program
owner_passes = refl

stranger_fails :
    denied owner_or_staff (request_of (some (user 8 false))) (some article)
    ≡ ok (some (leaf is_staff))
unfolding program
stranger_fails = refl

-- A refusal before the object is loaded: nobody is authenticated.
abbrev members_only : Permission HttpRequest PyObject
members_only = all_of (cons (leaf is_authenticated) (cons (leaf (is_owner "author__user")) nil))

members_only-sync : requires_async members_only ≡ false
unfolding requires_async is_owner is_authenticated
members_only-sync = refl

early_refusal : denied members_only (request_of none) none ≡ ok (some (leaf is_authenticated))
unfolding program
early_refusal = refl

denied-early_example : holds (grants (request_of none) (some article)) members_only ≡ false
denied-early_example =
    denied-early (request_of none) article members_only members_only-sync (leaf is_authenticated)
      early_refusal

abbrev guards : List (Permission HttpRequest PyObject)
guards = owner_or_staff ∷ members_only ∷ []

owner_passes_none : denied owner_or_staff (request_of none) none ≡ ok none
unfolding program
owner_passes_none = refl

check_each-raise_iff_example :
    (check_each (owner_or_staff ∷ members_only ∷ []) (request_of none) none
      ≡ raise (http_error 401 "Authentication credentials were not provided."))
    ↔ Refuses
        (request_of none)
        none
        (http_error 401 "Authentication credentials were not provided.")
        (owner_or_staff ∷ members_only ∷ [])
check_each-raise_iff_example =
    check_each-raise_iff (request_of none) none
      (http_error 401 "Authentication credentials were not provided.")
      (owner_or_staff ∷ members_only ∷ [])

anonymous_refused :
    check_each guards (request_of none) none
    ≡ raise (http_error 401 "Authentication credentials were not provided.")
unfolding program
anonymous_refused = refl

guards-sync : All (λ p. requires_async p ≡ false) guards
guards-sync = (owner_or_staff-sync, (members_only-sync, tt))

guards_pass : check_object_permissions guards (request_of (some (user 7 false))) article ≡ ok tt
unfolding program
guards_pass = refl

check_object_permissions_iff_example :
    (check_object_permissions guards (request_of (some (user 7 false))) article ≡ ok tt)
    ↔ All (λ p. holds (grants (request_of (some (user 7 false))) (some article)) p ≡ true) guards
check_object_permissions_iff_example =
    check_object_permissions_iff (request_of (some (user 7 false))) article guards guards-sync

-- A leaf with one check of its own and no async variant.
abbrev odd_requests : Leaf ℕ ℕ
odd_requests = record {
  own_has_permission = some (sync_check (λ r. r == 1));
  own_has_object_permission = some (sync_check (λ (r, o). r == o));
  own_ahas_permission = none;
  own_ahas_object_permission = none;
  status_code = 403;
  message = "odd requests only";
}

odd-AsyncAgrees : AsyncAgrees (negation (leaf odd_requests))
unfolding AsyncAgrees ahas_permission ahas_object_permission
odd-AsyncAgrees = (λ r. refl, λ r o. refl)

odd-sync : requires_async (negation (leaf odd_requests)) ≡ false
unfolding requires_async
odd-sync = refl

adenied-eq-denied_example :
    adenied (negation (leaf odd_requests)) 1 (some 1)
    ≡ denied (negation (leaf odd_requests)) 1 (some 1)
adenied-eq-denied_example =
    adenied-eq-denied 1 (negation (leaf odd_requests)) (some 1) odd-sync odd-AsyncAgrees

abbrev session_request : HttpRequest
session_request = record {
  method = some "GET";
  auth = none;
  stored = none;
  user = unloaded (user 7 false);
  in_event_loop = true;
}
