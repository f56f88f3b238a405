-- ===== src/ApiKeys/Steps.antt =====
-- The tables of keys that requests go through.
use ninja_devx.Prelude.{
  ℕ, Text, Option, is_none, Bool, List, Bool-cases, inr, inl, Option-cases, ◌≡◌, none, ok, false,
  some, require_ok, ◌∷◌, refl, bind_ok, [], not, ◌∙◌, ap,
}
use mathlib.Core.Path.{subst}
use ninja_devx.ApiKeys.Defs.{
  ApiKey, Session, find_prefix, create_api_key, rotate_api_key, revoke_api_key, authenticate,
  accept, validate_rate, validate_given, save_fields, rotated, touched, is_taken, parse, is_valid,
  prefix_taken, already_revoked, needs_touch,
}
use ninja_devx.ApiKeys.Created.{create_api_key_ok}
use ninja_devx.Prelude.Table.{Table, get, update, put}

-- What every operation does to a table: nothing, a new row, or a change of a row that keeps a
-- revocation and a valid rate.
pub data Change (keys : Table ApiKey) (after : Table ApiKey) : Type 0 where
  same : keys ≡ after → Change keys after
  new :
      (pk : ℕ) (key : ApiKey)
      → get pk keys ≡ none
      → validate_rate key.rate_limit ≡ ok tt
      → put pk key keys ≡ after
      → Change keys after
  edited :
      (pk : ℕ) (old key : ApiKey)
      → get pk keys ≡ some old
      → (is_none old.revoked_at ≡ false → is_none key.revoked_at ≡ false)
      → (validate_rate old.rate_limit ≡ ok tt → validate_rate key.rate_limit ≡ ok tt)
      → put pk key keys ≡ after
      → Change keys after

save_fields-Change :
    (pk : ℕ) (change : ApiKey → ApiKey) (keys after : Table ApiKey)
    → ((old : ApiKey) → is_none old.revoked_at ≡ false → is_none (change old).revoked_at ≡ false)
    → ((old : ApiKey)
        → validate_rate old.rate_limit ≡ ok tt
        → validate_rate (change old).rate_limit ≡ ok tt)
    → save_fields pk change keys ≡ ok after
    → Change keys after
unfolding save_fields
save_fields-Change pk change keys after dead rated h = elim (Option-cases (get pk keys)) [
  | inl e ↦ (let no_row = rw (e, save_fields) at h in cc)
  | inr (old, e) ↦
      (let stored = rw (e, save_fields) at h in
        edited pk old (change old) e (dead old) (rated old) cc)
]

revoke_api_key-Change :
    (now pk : ℕ) (keys after : Table ApiKey)
    → revoke_api_key now pk keys ≡ ok after
    → Change keys after
unfolding revoke_api_key
revoke_api_key-Change now pk keys after h =
    save_fields-Change pk (λ row. record row { revoked_at = some now }) keys after (λ old d. refl)
      (λ old v. v) h

rotated_rate :
    (rate_limit : Option (Option Text)) (prefix hashed : Text) (scopes : Option (List Text))
    (expires_at : Option (Option ℕ)) (old : ApiKey)
    → validate_given rate_limit ≡ ok tt
    → validate_rate old.rate_limit ≡ ok tt
    → validate_rate (rotated prefix hashed scopes expires_at rate_limit old).rate_limit ≡ ok tt
unfolding validate_given validate_rate
rotated_rate none prefix hashed scopes expires_at old given valid = valid
rotated_rate (some none) prefix hashed scopes expires_at old given valid = refl
rotated_rate (some (some [])) prefix hashed scopes expires_at old given valid = refl
rotated_rate (some (some (c ∷ rate))) prefix hashed scopes expires_at old given valid = given

module _ (digest : Text → Text) (is_active : ℕ → Bool) where
  rotate_api_key-Change :
      (pk : ℕ) (key : ApiKey) (prefix secret raw : Text) (scopes : Option (List Text))
      (expires_at : Option (Option ℕ)) (rate_limit : Option (Option Text))
      (keys after : Table ApiKey)
      → rotate_api_key digest is_active pk key prefix secret scopes expires_at rate_limit keys
        ≡ ok (raw, after)
      → Change keys after
  unfolding rotate_api_key
  rotate_api_key-Change pk key prefix secret raw scopes expires_at rate_limit keys after h =
      let (alive, h1) = require_ok (is_none key.revoked_at) already_revoked _ (raw, after) h in
      let (checked, valid, h2) = bind_ok (validate_given rate_limit) _ (raw, after) h1 in
      let (open_prefix, h3) =
        require_ok (not (is_taken prefix pk keys)) prefix_taken _ (raw, after) h2 in
      let (saved, stored, h4) =
        bind_ok (save_fields pk (rotated prefix (digest secret) scopes expires_at rate_limit) keys)
          _ (raw, after) h3 in
      let kept : saved ≡ after = cc in
      save_fields-Change pk (rotated prefix (digest secret) scopes expires_at rate_limit) keys after
        (λ old d. d)
        (λ old v. rotated_rate rate_limit prefix (digest secret) scopes expires_at old valid v)
        (stored ∙ ap ok kept)

  create_api_key-Change :
      (pk user : ℕ) (prefix secret name rate_limit raw : Text) (scopes : List Text)
      (expires_at : Option ℕ) (keys after : Table ApiKey)
      → get pk keys ≡ none
      → create_api_key digest is_active pk prefix secret user name scopes expires_at rate_limit keys
        ≡ ok (raw, after)
      → Change keys after
  create_api_key-Change pk user prefix secret name rate_limit raw scopes expires_at keys after e h =
      let (valid, open_prefix, same_raw, same_keys) =
        create_api_key_ok digest is_active pk user prefix secret name rate_limit raw scopes
          expires_at keys after h in
      new pk _ e valid same_keys

  touched-Change :
      (now pk : ℕ) (key : ApiKey) (keys : Table ApiKey)
      → Change keys (touched digest is_active now pk key keys)
  unfolding update
  touched-Change now pk key keys = elim (Bool-cases (needs_touch now key)) [
    | inr e ↦ rw e (same refl)
    | inl t ↦ elim (Option-cases (get pk keys)) [
      | inl e ↦ rw t (rw (e, update) (same refl))
      | inr (old, e) ↦ rw t (rw (e, update) (edited pk old _ e (λ d. d) (λ v. v) refl))
    ]
  ]

  authenticate-Change :
      (now : ℕ) (raw : Option Text) (s : Session)
      → Change s.keys (authenticate digest is_active now raw s).1.keys
  unfolding authenticate accept
  authenticate-Change now raw s = elim (Option-cases (parse raw)) [
    | inl e ↦ rw (e, authenticate) (same refl)
    | inr ((prefix, secret), e) ↦ elim (Option-cases (find_prefix prefix s.keys)) [
      | inl f ↦ rw (e, authenticate) (rw (f, accept) (same refl))
      | inr ((pk, key), f) ↦ elim (Bool-cases (is_valid digest is_active now key secret)) [
        | inl v ↦ rw (e, authenticate) (rw (f, accept) (rw v (touched-Change now pk key s.keys)))
        | inr v ↦ rw (e, authenticate) (rw (f, accept) (rw v (same refl)))
      ]
    ]
  ]

  -- The tables that are reached from a table by the operations of any requests, in any order. A
  -- rotation may come from a request that read the key long before.
  pub data Reach (start : Table ApiKey) : Table ApiKey → Type 0 where
    started : Reach start start
    created :
        (pk user : ℕ) (prefix secret name rate_limit raw : Text) (scopes : List Text)
        (expires_at : Option ℕ) (keys after : Table ApiKey)
        → Reach start keys
        → get pk keys ≡ none
        → create_api_key digest is_active pk prefix secret user name scopes expires_at rate_limit
            keys
          ≡ ok (raw, after)
        → Reach start after
    replaced :
        (pk : ℕ) (key : ApiKey) (prefix secret raw : Text) (scopes : Option (List Text))
        (expires_at : Option (Option ℕ)) (rate_limit : Option (Option Text))
        (keys after : Table ApiKey)
        → Reach start keys
        → rotate_api_key digest is_active pk key prefix secret scopes expires_at rate_limit keys
          ≡ ok (raw, after)
        → Reach start after
    ended :
        (now pk : ℕ) (keys after : Table ApiKey)
        → Reach start keys
        → revoke_api_key now pk keys ≡ ok after
        → Reach start after
    entered :
        (now : ℕ) (raw : Option Text) (s : Session) (after : Table ApiKey)
        → Reach start s.keys
        → (authenticate digest is_active now raw s).1.keys ≡ after
        → Reach start after

  -- What every change keeps holds of every table that is reached.
  pub Reach-kept :
      (P : Table ApiKey → Type 0) (start keys : Table ApiKey)
      → ((before after : Table ApiKey) → Change before after → P before → P after)
      → P start
      → Reach start keys
      → P keys
  Reach-kept P start _ step p started = p
  Reach-kept P start _ step p
        (created pk user prefix secret name rate raw scopes e keys after r f h) =
      step keys after
        (create_api_key-Change pk user prefix secret name rate raw scopes e keys after f h)
        (Reach-kept P start keys step p r)
  Reach-kept P start _ step p (replaced pk key prefix secret raw scopes e rate keys after r h) =
      step keys after (rotate_api_key-Change pk key prefix secret raw scopes e rate keys after h)
        (Reach-kept P start keys step p r)
  Reach-kept P start _ step p (ended now pk keys after r h) =
      step keys after (revoke_api_key-Change now pk keys after h) (Reach-kept P start keys step p r)
  Reach-kept P start _ step p (entered now raw s after r h) =
      step s.keys after (subst (Change s.keys) h (authenticate-Change now raw s))
        (Reach-kept P start s.keys step p r)
