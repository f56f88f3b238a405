-- ===== src/ApiKeys/Owners.antt =====
-- What `APIKeyController` lets a user do.
use ninja_devx.Prelude.{
  Outcome, ℕ, Text, text_in, Option, ◌≡◌, List, ◌>>◌, Bool, some, true, ◌∷◌, ok, text_eq, arith,
  Bool-cases, raise, ◌||◌, none, inl, if◌then◌else◌, refl, [], ◌&&◌, text_eq_iff, not, ◌==◌,
  Option-cases, false, inr, ap, require_ok, sym, ◌∙◌,
}
use ninja_devx.ApiKeys.Defs.{
  ApiKey, KeyError, Session, revoke_api_key, save_fields, sorted_set, insert,
}
use ninja_devx.ApiKeys.Manage.{
  create_key, revoke_key, before_operation, lift_error, all_in, http_error,
}
use ninja_devx.ApiKeys.Created.{create_api_key_ok}
use ninja_devx.Prelude.Table.{Table, get, put, get-put, get-put_self}

before_operation_ok :
    {A : Type 0} (current : Option (ℕ × ApiKey)) (o : Outcome _ A) (a : A)
    → (before_operation current >> o) ≡ ok a
    → (current ≡ none) × (o ≡ ok a)
before_operation_ok none o a h = (refl, h)
before_operation_ok (some key) o a h = cc

lift_error_ok : {A : Type 0} (o : Outcome KeyError A) (a : A) → lift_error o ≡ ok a → o ≡ ok a
lift_error_ok (ok b) a h = cc
lift_error_ok (raise e) a h = cc

saved_lem :
    (pk : ℕ) (change : ApiKey → ApiKey) (key : ApiKey) (keys after : Table ApiKey)
    → get pk keys ≡ some key
    → save_fields pk change keys ≡ ok after
    → put pk (change key) keys ≡ after
unfolding save_fields
saved_lem pk change key keys after e h = let stored = rw (e, save_fields) at h in cc

-- A user revokes just keys of their own, without an API key: the row of the key is revoked, and
-- nothing else changes.
pub revoke_key-get :
    (now user key_id j : ℕ) (s : Session) (after : Table ApiKey)
    → revoke_key now user key_id s ≡ ok after
    → (s.current ≡ none)
      × ((key : ApiKey) × (get key_id s.keys ≡ some key)
          × (key.user ≡ user)
          × (get j after ≡ (
              if key_id == j then some (record key { revoked_at = some now }) else get j s.keys)))
unfolding revoke_key revoke_api_key
revoke_key-get now user key_id j s after h =
    let (no_key, h1) = before_operation_ok s.current _ after h in
    elim (Option-cases (get key_id s.keys)) [
      | inl e ↦ (let missing = rw e at h1 in cc)
      | inr (key, e) ↦ elim (Bool-cases (key.user == user)) [
        | inr other ↦ (let refused = rw other at (rw e at h1) in cc)
        | inl own ↦
            (let saved = lift_error_ok _ after (rw own at (rw e at h1)) in
              let kept =
                saved_lem key_id (λ row. record row { revoked_at = some now }) key s.keys after e
                  saved in
              (
                no_key,
                (
                  key,
                  e,
                  ground arith,
                  ap (get j) (sym kept)
                      ∙ get-put key_id j (record key { revoked_at = some now }) s.keys,
                ),
              ))
      ]
    ]

text_in-insert :
    (s t : Text) (ts : List Text) → text_in s (insert t ts) ≡ (text_eq s t || text_in s ts)
unfolding insert text_in
text_in-insert s t [] = refl
text_in-insert s t (u ∷ ts) = elim (Bool-cases (text_eq t u)) [
  | inl e ↦ (let eq : t ≡ u = (text_eq_iff t u).0 e in rw e (rw eq (ground arith)))
  | inr e ↦ ground (arith, text_in-insert s t ts)
]

text_in-sorted_set : (s : Text) (ts : List Text) → text_in s (sorted_set ts) ≡ text_in s ts
unfolding sorted_set text_in
text_in-sorted_set s [] = refl
text_in-sorted_set s (t ∷ ts) =
    ground (arith, text_in-insert s t (sorted_set ts), text_in-sorted_set s ts)

all_in_lem :
    (allowed scopes : List Text) (scope : Text)
    → all_in allowed scopes ≡ true
    → text_in scope scopes ≡ true
    → text_in scope allowed ≡ true
unfolding text_in
all_in_lem allowed [] scope all h = cc
all_in_lem allowed (first ∷ rest) scope all h = elim (Bool-cases (text_eq scope first)) [
  | inl e ↦ (let eq : scope ≡ first = (text_eq_iff scope first).0 e in rw eq (ground arith))
  | inr e ↦ all_in_lem allowed rest scope (ground arith) (ground arith)
]

granted_lem :
    (allowed scopes : List Text) (scope : Text)
    → all_in allowed scopes ≡ true
    → (text_in scope scopes && not (text_in scope allowed)) ≡ false
granted_lem allowed scopes scope all = elim (Bool-cases (text_in scope scopes)) [
  | inl e ↦ rw e (rw (all_in_lem allowed scopes scope all e) refl)
  | inr e ↦ rw e refl
]

-- A key that a user creates belongs to the user and has no scope but the given ones, all of which
-- the controller lets be granted; no API key was used for it.
pub create_key-get :
    (digest : Text → Text) (is_active : ℕ → Bool) (allowed : List Text) (user pk : ℕ)
    (prefix secret name raw scope : Text) (scopes : List Text) (expires_at : Option ℕ) (s : Session)
    (after : Table ApiKey)
    → create_key digest is_active (some allowed) user pk prefix secret name scopes expires_at s
      ≡ ok (raw, after)
    → (s.current ≡ none)
      × ((key : ApiKey) × (get pk after ≡ some key)
          × (key.user ≡ user)
          × (text_in scope key.scopes ≡ text_in scope scopes)
          × ((text_in scope key.scopes && not (text_in scope allowed)) ≡ false))
unfolding create_key
create_key-get digest is_active allowed user pk prefix secret name raw scope scopes expires_at s
      after h =
    let (no_key, h1) = before_operation_ok s.current _ (raw, after) h in
    let (granted, h2) = require_ok (all_in allowed scopes) (http_error 422) _ (raw, after) h1 in
    let made = lift_error_ok _ (raw, after) h2 in
    let (valid, open_prefix, same_raw, same_keys) =
      create_api_key_ok digest is_active pk user prefix secret name [] raw scopes expires_at s.keys
        after made in
    let given = text_in-sorted_set scope scopes in
    (
      no_key,
      (
        _,
        ap (get pk) (sym same_keys) ∙ get-put_self pk _ s.keys,
        refl,
        given,
        rw given (granted_lem allowed scopes scope granted),
      ),
    )
