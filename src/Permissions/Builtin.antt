-- ===== src/Permissions/Builtin.antt =====
-- The built-in permissions of security/permissions.py, as leaves over a request and an object.
use Prim.Native.String.{◌++◌ as append}
use ninja_devx.Prelude.{
  String, List, Option, Bool, none, ◌∷◌, false, ℕ, some, [], str_eq, ◌||◌, true, map, if◌then◌else◌,
}
use ninja_devx.Permissions.User.{User, HttpRequest, request_user, arequest_user}
use ninja_devx.Permissions.Defs.{Leaf, sync_check}
use ninja_devx.Permissions.Eval.{default_message}

-- `SAFE_METHODS`
abbrev pub safe_methods : List String
safe_methods = "GET" ∷ "HEAD" ∷ "OPTIONS" ∷ "QUERY" ∷ []

unfoldable pub member : String → List String → Bool
member s [] = false
member s (t ∷ ts) = str_eq s t || member s ts

is_safe : HttpRequest → Bool
unfolding member
is_safe request = elim request.method [ none ↦ false | some m ↦ member m safe_methods ]

-- The user has the flag; a missing user does not.
abbrev flag : (User → Bool) → Option User → Bool
flag f none = false
flag f (some u) = f u

abbrev is_set : {A : Type 0} → Option A → Bool
is_set none = false
is_set (some _) = true

-- `_has_perms` and `_ahas_perms`
has_perms : Option User → List String → Bool
has_perms none perms = false
has_perms (some u) perms = elim u.has_perms [ none ↦ false | some f ↦ f perms ]

ahas_perms : Option User → List String → Bool
unfolding has_perms
ahas_perms none perms = false
ahas_perms (some u) perms = elim u.ahas_perms [ none ↦ has_perms (some u) perms | some f ↦ f perms ]

-- A class that overrides only the request-level checks.
abbrev request_leaf :
    {O : Type 0}
    → (HttpRequest → Bool)
    → Option (HttpRequest → Bool)
    → ℕ
    → String
    → Leaf HttpRequest O
request_leaf has ahas status text = record {
  own_has_permission = some (sync_check has);
  own_has_object_permission = none;
  own_ahas_permission = ahas;
  own_ahas_object_permission = none;
  status_code = status;
  message = text;
}

has_auth : HttpRequest → Bool
has_auth request = is_set request.auth || is_set (request_user request)

ahas_auth : HttpRequest → Bool
ahas_auth request = is_set request.auth || is_set (arequest_user request).0

-- `DjangoModelPermissions.perms_map`, the default one
perms_map : String → Option (List String)
perms_map m =
    if member m ("GET" ∷ "HEAD" ∷ "QUERY" ∷ [])
    then some ("view" ∷ [])
    else if str_eq m "OPTIONS"
    then some []
    else if str_eq m "POST"
    then some ("add" ∷ [])
    else if member m ("PUT" ∷ "PATCH" ∷ [])
    then some ("change" ∷ [])
    else if str_eq m "DELETE"
    then some ("delete" ∷ [])
    else none

-- `request.method or ""`
abbrev method_name : HttpRequest → String
method_name request = elim request.method [ none ↦ "" | some m ↦ m ]

-- `_codenames`, for the `app_label` and `model_name` of the model's options
codenames : String → String → HttpRequest → Option (List String)
unfolding perms_map
codenames app_label model_name request = elim (perms_map (method_name request)) [
  | none ↦ none
  | some actions ↦ some (
      map (λ action. append app_label (append "." (append action (append "_" model_name)))) actions)
]

-- `codenames is not None and check(codenames)`
abbrev checked : Option (List String) → (List String → Bool) → Bool
checked none check = false
checked (some names) check = check names

module _ {O : Type 0} where
  unfoldable pub allow_any : Leaf HttpRequest O
  allow_any = record {
    own_has_permission = none;
    own_has_object_permission = none;
    own_ahas_permission = none;
    own_ahas_object_permission = none;
    status_code = 403;
    message = default_message;
  }

  unfoldable pub deny_all : Leaf HttpRequest O
  deny_all = request_leaf (λ _. false) none 403 default_message

  unfoldable pub is_authenticated : Leaf HttpRequest O
  unfolding has_auth ahas_auth
  is_authenticated =
      request_leaf has_auth (some ahas_auth) 401 "Authentication credentials were not provided."

  unfoldable pub is_authenticated_or_read_only : Leaf HttpRequest O
  unfolding has_auth ahas_auth is_safe
  is_authenticated_or_read_only =
      request_leaf (λ r. is_safe r || has_auth r) (some (λ r. is_safe r || ahas_auth r)) 401
        "Authentication credentials were not provided."

  unfoldable pub is_read_only : Leaf HttpRequest O
  unfolding is_safe
  is_read_only = request_leaf is_safe none 403 "This action is read-only."

  unfoldable pub is_staff : Leaf HttpRequest O
  is_staff =
      request_leaf (λ r. flag (λ u. u.is_staff) (request_user r))
        (some (λ r. flag (λ u. u.is_staff) (arequest_user r).0)) 403 default_message

  unfoldable pub is_superuser : Leaf HttpRequest O
  is_superuser =
      request_leaf (λ r. flag (λ u. u.is_superuser) (request_user r))
        (some (λ r. flag (λ u. u.is_superuser) (arequest_user r).0)) 403 default_message

  unfoldable pub has_django_permission : List String → Leaf HttpRequest O
  unfolding has_perms ahas_perms
  has_django_permission perms =
      request_leaf (λ r. has_perms (request_user r) perms)
        (some (λ r. ahas_perms (arequest_user r).0 perms)) 403 default_message

  unfoldable pub django_model_permissions : String → String → Leaf HttpRequest O
  unfolding has_perms ahas_perms codenames
  django_model_permissions app_label model_name =
      request_leaf (λ r. checked (codenames app_label model_name r) (has_perms (request_user r)))
        (some (λ r. checked (codenames app_label model_name r) (ahas_perms (arequest_user r).0)))
        403 default_message
