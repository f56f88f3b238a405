-- ===== src/Permissions/User.antt =====
-- `request_user` and `arequest_user` of security/auth.py. A request carries what Ninja's
-- authentication and Django's middleware left on it.
use ninja_devx.Prelude.{
  Option, Bool, some, ◌≡◌, none, String, ℕ, if◌then◌else◌, List, arith, true, false,
}

-- An authenticated or anonymous object with the attributes that the checks read; an attribute that
-- the object lacks has the default that the code gives to `getattr`.
pub record User : Type 0 where
  pub pk : Option ℕ
  pub is_authenticated : Bool
  pub is_staff : Bool
  pub is_superuser : Bool
  -- `has_perms`, where the object has such a method
  pub has_perms : Option (List String → Bool)
  pub ahas_perms : Option (List String → Bool)

-- `request.user`: missing, a lazy object that is not loaded yet, or a user.
pub data SessionUser : Type 0 where
  absent : SessionUser
  unloaded : User → SessionUser
  loaded : User → SessionUser

pub record HttpRequest : Type 0 where
  pub method : Option String
  -- `request.auth`
  pub auth : Option User
  -- the user that `arequest_user` stored on the request
  pub stored : Option User
  pub user : SessionUser
  pub in_event_loop : Bool

-- `user if getattr(user, "is_authenticated", False) else None`
abbrev pub authenticated : Option User → Option User
authenticated none = none
authenticated (some u) = if u.is_authenticated then some u else none

-- Reading an attribute of the lazy user loads it, which an event loop forbids.
session_user : SessionUser → Bool → Option User
session_user absent in_loop = none
session_user (unloaded u) true = none
session_user (unloaded u) false = authenticated (some u)
session_user (loaded u) in_loop = authenticated (some u)

abbrev first_some : Option User → Option User → Option User
first_some none rest = rest
first_some (some u) rest = some u

unfoldable pub request_user : HttpRequest → Option User
unfolding session_user
request_user request =
    first_some (authenticated request.auth)
      (first_some request.stored (session_user request.user request.in_event_loop))

-- The user that `await request.auser()` gives.
abbrev auser : SessionUser → Option User
auser absent = none
auser (unloaded u) = some u
auser (loaded u) = some u

store_user : HttpRequest → Option User → Option User × HttpRequest
store_user request none = (none, request)
store_user request (some u) = (some u, record request { stored = some u })

-- The user beside the request, on which a session user is stored.
unfoldable pub arequest_user : HttpRequest → Option User × HttpRequest
unfolding store_user
arequest_user request = elim (authenticated request.auth) [
  | some u ↦ (some u, request)
  | none ↦ store_user request (authenticated (auser request.user))
]

-- Sync code that runs after `arequest_user` in the same request sees the same user, in an event
-- loop too, if no user was stored before.
pub request_user-arequest_user :
    (request : HttpRequest)
    → request.stored ≡ none
    → request_user (arequest_user request).1 ≡ (arequest_user request).0
unfolding request_user arequest_user
request_user-arequest_user request h = ground arith
