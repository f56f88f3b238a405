-- ===== src/ApiKeys/Limits.antt =====
-- The rate of a key, and the throttle that reads it.
use ninja_devx.Prelude.{
  Option, Text, ℕ, ◌≢◌, ◌≡◌, All, Bool, some, ok, none, Option-cases, is_none, inl, [], inr, false,
  ◌∷◌, arith, refl, not, if◌then◌else◌, require, true,
}
use mathlib.Core.Path.{subst}
use ninja_devx.Throttling.{
  ThrottleStorage, allow_request, bad_rate, parse_rate, refused, allowed, Decision,
}
use ninja_devx.ApiKeys.Defs.{ApiKey, authenticate, validate_rate, invalid_rate, KeyError}
use ninja_devx.ApiKeys.Scopes.{get_rate, identify}
use ninja_devx.ApiKeys.Steps.{Change, same, new, edited, Reach, Reach-kept}
use ninja_devx.ApiKeys.Accepted.{authenticate-IsAccepted}
use ninja_devx.ApiKeys.Revoked.{All-find_prefix}
use ninja_devx.Prelude.Table.{All-put, All-get, Table}

abbrev pub HasRate : ℕ × ApiKey → Type 0
HasRate (pk, key) = validate_rate key.rate_limit ≡ ok tt

Change-HasRate :
    (before after : Table ApiKey) → Change before after → All HasRate before → All HasRate after
Change-HasRate before after (same e) r = subst (All HasRate) e r
Change-HasRate before after (new j key unused valid e) r =
    subst (All HasRate) e (All-put HasRate j key before valid r)
Change-HasRate before after (edited j old key found stays rated e) r =
    subst (All HasRate) e
      (All-put HasRate j key before (rated (All-get HasRate j old before found r)) r)

-- A rate that may be given to the throttle.
abbrev pub Parses : Option Text → Type 0
Parses rate = (r : Text) → rate ≡ some r → is_none (parse_rate r) ≡ false

required_lem : (test : Bool) (e : KeyError) → require test e ≡ ok tt → test ≡ true
required_lem true e h = refl
required_lem false e h = cc

get_rate-Parses :
    (rate : Option Text) (pk : ℕ) (key : ApiKey)
    → Parses rate
    → validate_rate key.rate_limit ≡ ok tt
    → Parses (get_rate rate (some (pk, key)))
unfolding validate_rate
get_rate-Parses rate pk key default valid = chosen key.rate_limit valid
  where
    chosen :
        (own : Text)
        → validate_rate own ≡ ok tt
        → Parses (elim own [ [] ↦ rate | c ∷ s ↦ some (c ∷ s) ])
    chosen [] v = default
    chosen (c ∷ s) v = λ r same_rate.
        (let text : r ≡ c ∷ s = cc in
          let checked = required_lem (not (is_none (parse_rate (c ∷ s)))) invalid_rate v in
          rw text (ground (arith, checked)))

module _ {S : Type 0} (storage : ThrottleStorage S) (key_of : Text → ℕ → ℕ → ℕ) where
  not_bad :
      (over : Bool) (wait : ℕ) (s s' : S)
      → (if◌then◌else◌ {A = Decision × S} over (refused wait, s) (allowed, s')).0 ≢ bad_rate
  not_bad true wait s s' = λ b. cc
  not_bad false wait s s' = λ b. cc

  allow_request-Parses :
      (rate identity : Option Text) (now : ℕ) (s : S)
      → Parses rate
      → (allow_request storage key_of rate identity now s).0 ≢ bad_rate
  unfolding allow_request
  allow_request-Parses none identity now s h = λ b. cc
  allow_request-Parses (some rate) none now s h = λ b. cc
  allow_request-Parses (some rate) (some identity) now s h = elim (Option-cases (parse_rate rate)) [
    | inl e ↦ ground (arith, h rate refl)
    | inr ((limit, duration), e) ↦ rw (e, allow_request) (not_bad _ _ _ _)
  ]

  -- From a table whose rates are valid, no operations of any requests bring `APIKeyRateThrottle` to
  -- a rate that does not parse, whichever key a request is authenticated by, if the throttle's own
  -- rate parses.
  pub authenticate-allow_request :
      (digest : Text → Text) (is_active : ℕ → Bool) (decimal : ℕ → Text) (rate : Option Text)
      (now later : ℕ) (raw : Option Text) (start keys : Table ApiKey) (s : S)
      → All HasRate start
      → Reach digest is_active start keys
      → Parses rate
      → (allow_request storage key_of
          (get_rate rate
            (authenticate digest is_active now raw
              (record { keys = keys; current = none })).1.current)
          (identify decimal
            (authenticate digest is_active now raw
              (record { keys = keys; current = none })).1.current)
          later
          s).0
        ≢ bad_rate
  authenticate-allow_request digest is_active decimal rate now later raw start keys s rates reached
        default =
      let valid =
        Reach-kept digest is_active (All HasRate) start keys Change-HasRate rates reached in
      elim (authenticate-IsAccepted digest is_active now raw keys) [
        | inl (no_user, no_key) ↦ rw no_key (allow_request-Parses rate none later s default)
        | inr (pk, key, accepted, user, current) ↦ rw current (
            allow_request-Parses _ _ later s (
              get_rate-Parses rate pk key default
                (All-find_prefix HasRate accepted.prefix pk key keys accepted.found valid)))
      ]
