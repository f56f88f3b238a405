-- ===== src/ApiKeys/Manage.antt =====
-- The operations of `APIKeyController`.
use ninja_devx.Prelude.{
  List, Text, ℕ, Option, Outcome, Bool, ok, ◌>>◌, true, some, raise, ◌∷◌, require, none, [],
  text_in, if◌then◌else◌, ◌==◌, ◌&&◌,
}
use ninja_devx.ApiKeys.Defs.{ApiKey, Session, KeyError, create_api_key, revoke_api_key}
use ninja_devx.Prelude.Table.{Table, get}

-- An answer other than a success: the status of an `HttpError`, or an error of the operations.
pub data Refusal : Type 0 where
  http_error : ℕ → Refusal
  failed : KeyError → Refusal

abbrev pub lift_error : {A : Type 0} → Outcome KeyError A → Outcome Refusal A
lift_error (ok a) = ok a
lift_error (raise e) = raise (failed e)

-- `before_operation`: a request with an API key manages no keys.
abbrev pub before_operation : Option (ℕ × ApiKey) → Outcome Refusal (Unit {0})
before_operation none = ok tt
before_operation (some key) = raise (http_error 403)

-- `list_keys`, in the order of the table
unfoldable pub list_keys : ℕ → Table ApiKey → Table ApiKey
list_keys user [] = []
list_keys user ((pk, key) ∷ keys) =
    let rest = list_keys user keys in if key.user == user then (pk, key) ∷ rest else rest

abbrev pub all_in : List Text → List Text → Bool
all_in allowed [] = true
all_in allowed (scope ∷ scopes) = text_in scope allowed && all_in allowed scopes

-- `grantable_scopes`: `none` allows any.
abbrev pub grantable : Option (List Text) → List Text → Bool
grantable none scopes = true
grantable (some allowed) scopes = all_in allowed scopes

-- `create_key`; the primary key, the prefix and the secret are those that `create_api_key` draws.
unfoldable pub create_key :
    (Text → Text)
    → (ℕ → Bool)
    → Option (List Text)
    → ℕ
    → ℕ
    → Text
    → Text
    → Text
    → List Text
    → Option ℕ
    → Session
    → Outcome Refusal (Text × Table ApiKey)
unfolding create_api_key
create_key digest is_active allowed user pk prefix secret name scopes expires_at s = do
  before_operation s.current
  require (grantable allowed scopes) (http_error 422)
  lift_error
      (create_api_key digest is_active pk prefix secret user name scopes expires_at [] s.keys)

-- `revoke_key`
unfoldable pub revoke_key : ℕ → ℕ → ℕ → Session → Outcome Refusal (Table ApiKey)
unfolding revoke_api_key
revoke_key now user key_id s = do
  before_operation s.current
  elim (get key_id s.keys) [
    | none ↦ raise (http_error 404)
    | some key ↦
        (if key.user == user
          then lift_error (revoke_api_key now key_id s.keys)
          else raise (http_error 404))
  ]
