-- ===== src/Idempotency/Policy.antt =====
-- `Policy.before`, `idempotent` and `_identity` of idempotency/policy.py. The hashes of the two
-- JSON lists are parameters: `digest` names the row and `imprint` its fingerprint.

use Prim.Native.String.{◌++◌ as append}
use ninja_devx.Prelude.{
  ℕ, Option, Outcome, Bool, Text, String, false, ◌==◌, if◌then◌else◌, ok, some, ◌∷◌, raise, none,
  ◌||◌, text_eq, [], ltb, leb, length, ◌&&◌, ◌>>=◌,
}
use ninja_devx.Idempotency.Store.{
  Db, Acquired, Response, StoreError, acquire, claimed, Claim, json_detail, answered,
}

-- A principal, tenant or API key, as `_identity` looks at it.
pub data PyValue : Type 0 where
  none_value : PyValue
  -- a `str`, `int` or `UUID`: the name of its type and its text
  scalar : String → String → PyValue
  -- another object: its module, its qualified name and its `pk`, if that is such a scalar
  instance_of : String → String → Option String → PyValue

pub data PolicyError : Type 0 where
  identity_error ttl_error : PolicyError
  store_error : StoreError → PolicyError
  value_error : String → PolicyError

unfoldable pub identity : PyValue → Outcome PolicyError String
identity none_value = ok "anonymous"
identity (scalar type text) = ok (append type (append ":" text))
identity (instance_of mod_name qualname none) = raise identity_error
identity (instance_of mod_name qualname (some pk)) =
    ok (append mod_name (append "." (append qualname (append ":" pk))))

-- What the policy reads of a request.
pub record Request : Type 0 where
  -- the policy's header
  pub key : Option Text
  pub method : String
  pub path : String
  pub full_path : String
  pub user : PyValue
  pub auth : PyValue
  -- the tenant that was resolved for the request, and `request.tenant`
  pub resolved_tenant : PyValue
  pub tenant : PyValue
  pub authorization : String
  pub x_api_key : String
  pub session_cookie : String
  pub api_key : PyValue
  pub hashed_secret : String
  pub content_type : String
  pub accept : String
  pub accept_language : String
  pub body : Text

-- `self.scope(request)`, or the list of the two identities.
pub data Scope : Type 0 where
  custom : String → Scope
  principal_and_tenant : String → String → Scope

pub record Parts : Type 0 where
  pub method : String
  pub path : String
  pub scope : Scope
  pub key : Text
  pub authorization : String
  pub x_api_key : String
  pub session_cookie : String
  pub api_identity : String
  pub hashed_secret : String

pub record Imprint : Type 0 where
  pub full_path : String
  pub content_type : String
  pub accept : String
  pub accept_language : String
  pub body : Text

pub record Policy : Type 0 where
  pub header : Text
  pub ttl : Option ℕ
  pub required : Bool
  pub scope : Option (Request → String)

-- `a if a is not None else b`
abbrev pub fallback : PyValue → PyValue → PyValue
fallback none_value b = b
fallback a b = a

unfoldable pub scope_of : Option (Request → String) → Request → Outcome PolicyError Scope
unfolding identity
scope_of none request = do
  principal ← identity (fallback request.user request.auth)
  tenant ← identity (fallback request.resolved_tenant request.tenant)
  ok (principal_and_tenant principal tenant)
scope_of (some scope) request = ok (custom (scope request))

unfoldable pub parts_of : Policy → Text → Request → Outcome PolicyError Parts
unfolding scope_of
parts_of policy key request = do
  scope ← scope_of policy.scope request
  api_identity ← identity request.api_key
  ok (record {
    method = request.method;
    path = request.path;
    scope = scope;
    key = key;
    authorization = request.authorization;
    x_api_key = request.x_api_key;
    session_cookie = request.session_cookie;
    api_identity = api_identity;
    hashed_secret = request.hashed_secret;
  })

abbrev pub imprint_of : Request → Imprint
imprint_of request = record {
  full_path = request.full_path;
  content_type = request.content_type;
  accept = request.accept;
  accept_language = request.accept_language;
  body = request.body;
}

-- What `before` leaves behind: an answer that ends the request, or the claim that the request
-- carries on (or neither, where the request has no key).
pub data Before : Type 0 where
  answer : Response → Before
  carry : Claim → Before
  unkeyed : Before

abbrev pub before_of : Acquired → Before
before_of (claimed c) = carry c
before_of (answered r) = answer r

abbrev lift_store : Outcome StoreError (Acquired × Db) → Outcome PolicyError (Before × Db)
lift_store (ok (a, db)) = ok (before_of a, db)
lift_store (raise e) = raise (store_error e)

-- `self.ttl if self.ttl is not None else get_settings().idempotency_ttl`
abbrev pub ttl_or : Option ℕ → ℕ → ℕ
ttl_or none default_ttl = default_ttl
ttl_or (some t) default_ttl = t

module _ (digest : Parts → ℕ) (imprint : Imprint → ℕ) where
  -- With a key of 1 to 255 characters.
  unfoldable pub before_keyed :
      Policy → ℕ → Bool → Text → Request → ℕ → ℕ → Db → Outcome PolicyError (Before × Db)
  before_keyed policy default_ttl in_atomic key request token now db = do
    parts ← parts_of policy key request
    if ttl_or policy.ttl default_ttl == 0
        then raise ttl_error
        else lift_store (
            acquire in_atomic (digest parts) token (imprint (imprint_of request))
              (ttl_or policy.ttl default_ttl) now db)

  abbrev no_key : Policy → Db → Outcome PolicyError (Before × Db)
  no_key policy db =
      if policy.required
      then ok (answer (json_detail "The header is required" 400), db)
      else ok (unkeyed, db)

  unfoldable pub before_with :
      Policy → ℕ → Bool → Option Text → Request → ℕ → ℕ → Db → Outcome PolicyError (Before × Db)
  unfolding before_keyed
  before_with policy default_ttl in_atomic none request token now db = no_key policy db
  before_with policy default_ttl in_atomic (some []) request token now db = no_key policy db
  before_with policy default_ttl in_atomic (some (c ∷ cs)) request token now db =
      if ltb 255 (length (c ∷ cs))
      then ok (answer (json_detail "Idempotency key exceeds 255 characters" 400), db)
      else before_keyed policy default_ttl in_atomic (c ∷ cs) request token now db

  unfoldable pub before :
      Policy → ℕ → Bool → Request → ℕ → ℕ → Db → Outcome PolicyError (Before × Db)
  unfolding before_with
  before policy default_ttl in_atomic request token now db =
      before_with policy default_ttl in_atomic request.key request token now db

-- A valid field name: ASCII, not empty, without spaces and colons.
abbrev bad_character : ℕ → Bool
bad_character c =
    c == 32 || (leb 9 c && leb c 13) || (leb 28 c && leb c 31) || c == b':' || leb 128 c

has_bad_character : Text → Bool
has_bad_character [] = false
has_bad_character (c ∷ s) = bad_character c || has_bad_character s

abbrev zero_ttl : Option ℕ → Bool
zero_ttl none = false
zero_ttl (some t) = t == 0

unfoldable pub idempotent :
    Text → Option ℕ → Bool → Option (Request → String) → Outcome PolicyError Policy
unfolding has_bad_character
idempotent header ttl required scope =
    if zero_ttl ttl
    then raise (value_error "idempotency ttl must be positive")
    else if text_eq header [] || has_bad_character header
    then raise (value_error "idempotency header must be a valid HTTP field name")
    else ok (record { header = header; ttl = ttl; required = required; scope = scope })
