-- ===== src/ApiKeys/Created.antt =====
-- A new key is accepted.
use mathlib.Core.Path.{subst}
use ninja_devx.Prelude.{
  ◌∷◌, Text, ℕ, Bool, ◌≡◌, List, false, Option, some, nat_in, true, text_eq_iff, ◌<◌, ok, none,
  bind_ok, require_ok, ltb, ◌&&◌, not, arith, refl, Bool-cases, ◌==◌, ap, inl, inr, text_eq, [],
  ◌∙◌,
}
use ninja_devx.ApiKeys.Defs.{
  ApiKey, find_prefix, is_taken, create_api_key, authenticate, accept, Session, prefix_taken,
  is_valid, validate_rate, new_key, raw_key, parse,
}
use ninja_devx.ApiKeys.Parse.{parse-raw_key}
use ninja_devx.Prelude.Table.{put, Table}

find_prefix-put :
    (pk : ℕ) (key : ApiKey) (keys : Table ApiKey)
    → is_taken key.prefix pk keys ≡ false
    → find_prefix key.prefix (put pk key keys) ≡ some (pk, key)
unfolding find_prefix is_taken put
find_prefix-put pk key [] h = rw ((text_eq_iff key.prefix key.prefix).1 refl) refl
find_prefix-put pk key ((j, old) ∷ keys) h = elim (Bool-cases (j == pk)) [
  | inl e ↦ rw e (rw ((text_eq_iff key.prefix key.prefix).1 refl) refl)
  | inr e ↦
      (let other : text_eq old.prefix key.prefix ≡ false = ground arith in
        let rest : is_taken key.prefix pk keys ≡ false = ground arith in
        rw e (rw other (find_prefix-put pk key keys rest)))
]

module _ (digest : Text → Text) (is_active : ℕ → Bool) where
  -- What a creation that returns has checked, and what it returns.
  pub create_api_key_ok :
      (pk user : ℕ) (prefix secret name rate_limit raw : Text) (scopes : List Text)
      (expires_at : Option ℕ) (keys after : Table ApiKey)
      → create_api_key digest is_active pk prefix secret user name scopes expires_at rate_limit keys
        ≡ ok (raw, after)
      → (validate_rate rate_limit ≡ ok tt)
        × (is_taken prefix pk keys ≡ false)
        × (raw_key prefix secret ≡ raw)
        × (put pk
              (new_key digest is_active prefix secret user name scopes expires_at rate_limit)
              keys
            ≡ after)
  unfolding create_api_key
  create_api_key_ok pk user prefix secret name rate_limit raw scopes expires_at keys after h =
      let (checked, valid, h1) = bind_ok (validate_rate rate_limit) _ (raw, after) h in
      let (open_prefix, h2) =
        require_ok (not (is_taken prefix pk keys)) prefix_taken _ (raw, after) h1 in
      (valid, ground (arith, open_prefix), cc, cc)

  accept_new :
      (pk user now : ℕ) (prefix secret name rate_limit : Text) (scopes : List Text)
      (expires_at : Option ℕ) (keys : Table ApiKey)
      → is_active user ≡ true
      → ((expires : ℕ) → expires_at ≡ some expires → now < expires)
      → is_valid digest is_active now
          (new_key digest is_active prefix secret user name scopes expires_at rate_limit)
          secret
        ≡ true
  unfolding is_valid
  accept_new pk user now prefix secret name rate_limit scopes expires_at keys active early =
      rw (active, (text_eq_iff (digest secret) (digest secret)).1 refl) (in_time expires_at early)
    where
      in_time :
          (e : Option ℕ)
          → ((expires : ℕ) → e ≡ some expires → now < expires)
          → ((elim e [ none ↦ true | some expires ↦ ltb now expires ]) && true && true) ≡ true
      in_time none f = refl
      in_time (some expires) f = ground (arith, f expires refl)

  authenticate_parsed :
      (now : ℕ) (raw prefix secret : Text) (s : Session)
      → parse (some raw) ≡ some (prefix, secret)
      → authenticate digest is_active now (some raw) s ≡ accept digest is_active now prefix secret s
  unfolding authenticate
  authenticate_parsed now raw prefix secret s h = rw (h, authenticate) refl

  accept_found :
      (now pk : ℕ) (key : ApiKey) (prefix secret : Text) (s : Session)
      → find_prefix prefix s.keys ≡ some (pk, key)
      → is_valid digest is_active now key secret ≡ true
      → (accept digest is_active now prefix secret s).0 ≡ some key.user
  unfolding accept
  accept_found now pk key prefix secret s h valid = rw (h, accept) (rw valid refl)

  -- The raw key that a creation returns authenticates its user, at each instant before the key
  -- expires, as long as the user is active. The prefix that was drawn has no underscore; the
  -- secret may have some.
  pub create-authenticate :
      (pk user now : ℕ) (prefix secret name rate_limit raw : Text) (scopes : List Text)
      (expires_at : Option ℕ) (keys after : Table ApiKey)
      → nat_in b'_' prefix ≡ false
      → is_active user ≡ true
      → ((expires : ℕ) → expires_at ≡ some expires → now < expires)
      → create_api_key digest is_active pk prefix secret user name scopes expires_at rate_limit keys
        ≡ ok (raw, after)
      → (authenticate digest is_active now (some raw) (record { keys = after; current = none })).0
        ≡ some user
  create-authenticate pk user now prefix secret name rate_limit raw scopes expires_at keys after
        clear active early h =
      let (valid, open_prefix, same_raw, same_keys) =
        create_api_key_ok pk user prefix secret name rate_limit raw scopes expires_at keys after
          h in
      let key = new_key digest is_active prefix secret user name scopes expires_at rate_limit in
      let valid_now =
        accept_new pk user now prefix secret name rate_limit scopes expires_at keys active early in
      let accepted =
        accept_found now pk key prefix secret (record { keys = put pk key keys; current = none })
          (find_prefix-put pk key keys open_prefix) valid_now in
      subst
        (λ r.
          (authenticate digest is_active now (some r) (record { keys = after; current = none })).0
          ≡ some user)
        same_raw
        (ap (λ o. o.0)
            (authenticate_parsed now (raw_key prefix secret) prefix secret _
              (parse-raw_key prefix secret clear))
          ∙ subst
              (λ rows.
                (accept digest is_active now prefix secret
                  (record { keys = rows; current = none })).0
                ≡ some user)
              same_keys accepted)
