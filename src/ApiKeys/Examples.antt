-- ===== src/ApiKeys/Examples.antt =====
-- A user with a key that reads orders, and one that was revoked. The digest of the samples puts a
-- mark before the secret.
use ninja_devx.Prelude.{
  Text, ℕ, some, All, none, ◌∷◌, false, Bool, codes, [], ◌≡◌, refl, ◌≢◌, true, ◌↔◌, ◌⊎◌, text_eq,
  nat_in, text_in, ◌&&◌, not,
}
use mathlib.Core.List.{Memᴰ}
use ninja_devx.Throttling.{allow_request, bad_rate, cache_storage, parse_rate}
use ninja_devx.ApiKeys.Defs.{
  authenticate, Session, ApiKey, validate_rate, rotate_api_key, create_api_key, validate_given,
  is_taken, new_key, rotated, save_fields, sorted_set, insert,
}
use ninja_devx.ApiKeys.Scopes.{get_rate, has_scopes, identify}
use ninja_devx.ApiKeys.Manage.{create_key}
use ninja_devx.Prelude.Table.{get, Table, put}
use ninja_devx.ApiKeys.Revoked.{IsRevoked, revoked-authenticate}
use ninja_devx.ApiKeys.Limits.{HasRate, authenticate-allow_request}
use ninja_devx.ApiKeys.Grants.{AnyGrants, has_scopes_iff}
use ninja_devx.ApiKeys.Accepted.{IsAccepted, authenticate-IsAccepted}
use ninja_devx.ApiKeys.Steps.{Reach, replaced, started}
use ninja_devx.ApiKeys.Owners.{create_key-get}
use ninja_devx.ApiKeys.Created.{create-authenticate}

abbrev marked_digest : Text → Text
marked_digest secret = b'#' ∷ secret

abbrev everyone : ℕ → Bool
everyone user = true

abbrev reader : ApiKey
reader =
    new_key marked_digest everyone (codes "ab12") (codes "s_1") 7 (codes "ci")
      (codes "orders:*" ∷ []) none (codes "10/min")

abbrev stolen : ApiKey
stolen = record reader { prefix = codes "cd34"; revoked_at = some 5 }

abbrev two_keys : Table ApiKey
two_keys = (1, stolen) ∷ (2, reader) ∷ []

create-authenticate_example :
    (authenticate marked_digest everyone 100
      (some (codes "ndx_ab12_s_1"))
      (record { keys = two_keys; current = none })).0
    ≡ some 7
unfolding create_api_key validate_rate is_taken sorted_set insert put text_eq nat_in parse_rate
create-authenticate_example =
    create-authenticate marked_digest everyone 2 7 100 (codes "ab12") (codes "s_1") (codes "ci")
      (codes "10/min") (codes "ndx_ab12_s_1") (codes "orders:*" ∷ []) none ((1, stolen) ∷ [])
      two_keys refl refl (λ expires e. cc) refl

authenticate-IsAccepted_example :
    ((authenticate marked_digest everyone 100
          (some (codes "ndx_ab12_s_1"))
          (record { keys = two_keys; current = none })).0
        ≡ none
      × (authenticate marked_digest everyone 100
          (some (codes "ndx_ab12_s_1"))
          (record { keys = two_keys; current = none })).1.current
        ≡ none)
    ⊎ ((pk : ℕ) × (key : ApiKey) × IsAccepted marked_digest everyone 100
          (some (codes "ndx_ab12_s_1"))
          two_keys
          pk
          key
        × ((authenticate marked_digest everyone 100
              (some (codes "ndx_ab12_s_1"))
              (record { keys = two_keys; current = none })).0
            ≡ some key.user)
        × ((authenticate marked_digest everyone 100
              (some (codes "ndx_ab12_s_1"))
              (record { keys = two_keys; current = none })).1.current
            ≡ some (pk, key)))
authenticate-IsAccepted_example =
    authenticate-IsAccepted marked_digest everyone 100 (some (codes "ndx_ab12_s_1")) two_keys

two_keys-IsRevoked : IsRevoked 1 two_keys
unfolding get
two_keys-IsRevoked = record { present = refl; dead = (λ h. refl, ((λ h. cc), tt)) }

abbrev rotated_stolen : ApiKey
rotated_stolen = rotated (codes "ef56") (marked_digest (codes "new")) none none none stolen

abbrev after_rotation : Table ApiKey
after_rotation = (1, rotated_stolen) ∷ (2, reader) ∷ []

-- A request that read the key before it was revoked rotates it.
after_rotation-Reach : Reach marked_digest everyone two_keys after_rotation
unfolding rotate_api_key validate_given is_taken save_fields get put text_eq
after_rotation-Reach =
    replaced 1 (record stolen { revoked_at = none }) (codes "ef56") (codes "new")
      (codes "ndx_ef56_new") none none none two_keys after_rotation started refl

revoked-authenticate_example :
    (authenticate marked_digest everyone 100
      (some (codes "ndx_ef56_new"))
      (record { keys = after_rotation; current = none })).1.current
    ≢ some (1, rotated_stolen)
revoked-authenticate_example =
    revoked-authenticate marked_digest everyone 1 100 (some (codes "ndx_ef56_new")) rotated_stolen
      two_keys after_rotation two_keys-IsRevoked after_rotation-Reach

abbrev same_key : Text → ℕ → ℕ → ℕ
same_key identity duration window = window

abbrev no_digits : ℕ → Text
no_digits n = []

two_keys-HasRate : All HasRate two_keys
unfolding validate_rate parse_rate text_eq
two_keys-HasRate = (refl, (refl, tt))

authenticate-allow_request_example :
    (allow_request cache_storage same_key
      (get_rate none
        (authenticate marked_digest everyone 100
          (some (codes "ndx_ab12_s_1"))
          (record { keys = after_rotation; current = none })).1.current)
      (identify no_digits
        (authenticate marked_digest everyone 100
          (some (codes "ndx_ab12_s_1"))
          (record { keys = after_rotation; current = none })).1.current)
      200
      []).0
    ≢ bad_rate
authenticate-allow_request_example =
    authenticate-allow_request cache_storage same_key marked_digest everyone no_digits none 100 200
      (some (codes "ndx_ab12_s_1")) two_keys after_rotation [] two_keys-HasRate after_rotation-Reach
      (λ r e. cc)

has_scopes_iff_example :
    (has_scopes false (codes "orders:read" ∷ []) (some (2, reader)) ≡ true)
    ↔ ((scope : Text) → Memᴰ scope (codes "orders:read" ∷ []) → AnyGrants reader.scopes scope)
has_scopes_iff_example = has_scopes_iff false (codes "orders:read" ∷ []) 2 reader

abbrev signed_in : Session
signed_in = record { keys = two_keys; current = none }

abbrev own_key : ApiKey
own_key =
    new_key marked_digest everyone (codes "ee") (codes "t") 7 (codes "cd")
      (codes "orders:read" ∷ []) none []

create_key-get_example :
    (signed_in.current ≡ none)
    × ((key : ApiKey) × (get 3 ((1, stolen) ∷ (2, reader) ∷ (3, own_key) ∷ []) ≡ some key)
        × (key.user ≡ 7)
        × (text_in (codes "orders:read") key.scopes
            ≡ text_in (codes "orders:read") (codes "orders:read" ∷ []))
        × ((text_in (codes "orders:read") key.scopes
              && not (text_in (codes "orders:read") (codes "orders:read" ∷ [])))
            ≡ false))
unfolding create_key create_api_key validate_rate is_taken sorted_set insert put text_eq text_in
create_key-get_example =
    create_key-get marked_digest everyone (codes "orders:read" ∷ []) 7 3 (codes "ee") (codes "t")
      (codes "cd") (codes "ndx_ee_t") (codes "orders:read") (codes "orders:read" ∷ []) none
      signed_in ((1, stolen) ∷ (2, reader) ∷ (3, own_key) ∷ []) refl
