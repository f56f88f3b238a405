-- ===== src/ApiKeys/Accepted.antt =====
-- What an authenticated request has shown.
use ninja_devx.Prelude.{
  Text, ℕ, Bool, Option, none, true, ◌≡◌, ◌⊎◌, some, arith, Option-cases, ◌<◌, ltb, text_eq_iff,
  inl, inr, Bool-cases, refl,
}
use ninja_devx.ApiKeys.Defs.{ApiKey, find_prefix, authenticate, accept, parse, is_valid}
use ninja_devx.Prelude.Table.{Table}

module _ (digest : Text → Text) (is_active : ℕ → Bool) where
  -- The raw key names a row by its prefix, which is alive, and has its secret.
  pub record IsAccepted (now : ℕ) (raw : Option Text) (keys : Table ApiKey) (pk : ℕ) (key : ApiKey)
      : Type 0 where
    pub prefix : Text
    pub secret : Text
    pub parsed : parse raw ≡ some (prefix, secret)
    pub found : find_prefix prefix keys ≡ some (pk, key)
    pub alive : key.revoked_at ≡ none
    pub in_time : (expires : ℕ) → key.expires_at ≡ some expires → now < expires
    pub active : is_active key.user ≡ true
    pub known : key.hashed_secret ≡ digest secret

  in_time_lem :
      (now expires : ℕ) (e : Option ℕ)
      → (elim e [ none ↦ true | some expires ↦ ltb now expires ]) ≡ true
      → e ≡ some expires
      → now < expires
  in_time_lem now expires none h same = cc
  in_time_lem now expires (some x) h same = ground (arith, h, same)

  is_valid-IsAccepted :
      (now pk : ℕ) (raw : Option Text) (prefix secret : Text) (keys : Table ApiKey) (key : ApiKey)
      → parse raw ≡ some (prefix, secret)
      → find_prefix prefix keys ≡ some (pk, key)
      → is_valid digest is_active now key secret ≡ true
      → IsAccepted now raw keys pk key
  unfolding is_valid
  is_valid-IsAccepted now pk raw prefix secret keys key e f v = record {
    prefix = prefix;
    secret = secret;
    parsed = e;
    found = f;
    alive = ground arith;
    in_time = λ expires same. in_time_lem now expires key.expires_at (ground arith) same;
    active = ground arith;
    known = (text_eq_iff key.hashed_secret (digest secret)).0 (ground arith);
  }

  -- A request without a key yet is given a user just with the row of an accepted key, and the user
  -- is that of the row; a request that is refused has no key.
  pub authenticate-IsAccepted :
      (now : ℕ) (raw : Option Text) (keys : Table ApiKey)
      → ((authenticate digest is_active now raw (record { keys = keys; current = none })).0 ≡ none
          × (authenticate digest is_active now raw
              (record { keys = keys; current = none })).1.current
            ≡ none)
        ⊎ ((pk : ℕ) × (key : ApiKey) × IsAccepted now raw keys pk key
            × ((authenticate digest is_active now raw (record { keys = keys; current = none })).0
                ≡ some key.user)
            × ((authenticate digest is_active now raw
                  (record { keys = keys; current = none })).1.current
                ≡ some (pk, key)))
  unfolding authenticate accept
  authenticate-IsAccepted now raw keys = elim (Option-cases (parse raw)) [
    | inl e ↦ rw (e, authenticate) (inl (refl, refl))
    | inr ((prefix, secret), e) ↦ elim (Option-cases (find_prefix prefix keys)) [
      | inl f ↦ rw (e, authenticate) (rw (f, accept) (inl (refl, refl)))
      | inr ((pk, key), f) ↦ elim (Bool-cases (is_valid digest is_active now key secret)) [
        | inr v ↦ rw (e, authenticate) (rw (f, accept) (rw v (inl (refl, refl))))
        | inl v ↦
            (let accepted = is_valid-IsAccepted now pk raw prefix secret keys key e f v in
              rw (e, authenticate) (rw (f, accept) (rw v (inr (pk, key, accepted, refl, refl)))))
      ]
    ]
  ]
