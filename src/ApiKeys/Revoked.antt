-- ===== src/ApiKeys/Revoked.antt =====
-- A revoked key stays revoked.
use ninja_devx.Prelude.{
  ◌∷◌, Text, ℕ, Bool, ◌==◌, is_none, ◌≡◌, Option, arith, All, true, some, false, none, refl, ◌≢◌,
  inl, inr, Bool-cases, text_eq, [],
}
use mathlib.Core.Path.{subst}
use ninja_devx.ApiKeys.Defs.{ApiKey, find_prefix, authenticate}
use ninja_devx.ApiKeys.Steps.{Change, same, new, edited, Reach, Reach-kept}
use ninja_devx.ApiKeys.Accepted.{authenticate-IsAccepted}
use ninja_devx.Prelude.Table.{Table, put, get, get-put, All-get, All-put}

module _ (P : ℕ × ApiKey → Type 0) where
  pub All-find_prefix :
      (p : Text) (pk : ℕ) (key : ApiKey) (keys : Table ApiKey)
      → find_prefix p keys ≡ some (pk, key)
      → All P keys
      → P (pk, key)
  unfolding find_prefix
  All-find_prefix p pk key [] h all = cc
  All-find_prefix p pk key ((j, old) ∷ keys) h all = elim (Bool-cases (text_eq old.prefix p)) [
    | inl e ↦
        (let row : ◌≡◌ {A = ℕ × ApiKey} (j, old) (pk, key) = ground (arith, rw e at h) in
          subst P row all.0)
    | inr e ↦ All-find_prefix p pk key keys (rw e at h) all.1
  ]

-- The table has a row of the key, and each such row is revoked.
abbrev pub DeadRow : ℕ → ℕ × ApiKey → Type 0
DeadRow pk (j, key) = (j == pk) ≡ true → is_none key.revoked_at ≡ false

pub record IsRevoked (pk : ℕ) (keys : Table ApiKey) : Type 0 where
  pub present : is_none (get pk keys) ≡ false
  pub dead : All (DeadRow pk) keys

put-IsRevoked :
    (pk j : ℕ) (key : ApiKey) (keys : Table ApiKey)
    → IsRevoked pk keys
    → DeadRow pk (j, key)
    → IsRevoked pk (put j key keys)
put-IsRevoked pk j key keys r d = record {
  present = ground (arith, r.present, get-put j pk key keys);
  dead = All-put (DeadRow pk) j key keys d r.dead;
}

Change-IsRevoked :
    (pk : ℕ) (before after : Table ApiKey)
    → Change before after
    → IsRevoked pk before
    → IsRevoked pk after
Change-IsRevoked pk before after (same e) r = subst (IsRevoked pk) e r
Change-IsRevoked pk before after (new j key unused valid e) r =
    subst (IsRevoked pk) e (put-IsRevoked pk j key before r (λ h. other h))
  where
    other : (j == pk) ≡ true → is_none key.revoked_at ≡ false
    other h =
        let eq : pk ≡ j = ground arith in
        let gone : is_none (get pk before) ≡ true = rw eq (rw unused refl) in
        ground (arith, gone, r.present)
Change-IsRevoked pk before after (edited j old key found stays rated e) r = subst (IsRevoked pk) e (
    put-IsRevoked pk j key before r (λ h. stays (All-get (DeadRow pk) j old before found r.dead h)))

-- Whatever requests do after a key was revoked, rotations by those that read it before included, no
-- request is ever authenticated by it again.
pub revoked-authenticate :
    (digest : Text → Text) (is_active : ℕ → Bool) (pk now : ℕ) (raw : Option Text) (key : ApiKey)
    (start keys : Table ApiKey)
    → IsRevoked pk start
    → Reach digest is_active start keys
    → (authenticate digest is_active now raw (record { keys = keys; current = none })).1.current
      ≢ some (pk, key)
revoked-authenticate digest is_active pk now raw key start keys r reached h =
    let after =
      Reach-kept digest is_active (IsRevoked pk) start keys (Change-IsRevoked pk) r reached in
    elim (authenticate-IsAccepted digest is_active now raw keys) [
      | inl (no_user, no_key) ↦ cc
      | inr (j, found_key, accepted, user, current) ↦
          (let row : ◌≡◌ {A = ℕ × ApiKey} (j, found_key) (pk, key) = cc in
            let dead =
              All-find_prefix (DeadRow pk) accepted.prefix j found_key keys accepted.found
                after.dead in
            let alive : is_none found_key.revoked_at ≡ true = rw accepted.alive refl in
            let number : (j == pk) ≡ true = ground arith in ground (arith, dead number, alive))
    ]
