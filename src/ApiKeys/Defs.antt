-- ===== src/ApiKeys/Defs.antt =====
-- Keys, their creation, revocation and rotation, and authentication with them. An instant is a
-- number of microseconds, and a user is a number.
use ninja_devx.Prelude.{
  Text, ℕ, List, Option, Bool, none, Outcome, ◌++◌, ◌∷◌, true, some, codes, if◌then◌else◌, is_none,
  ◌>>◌, [], ok, ltb, false, ◌&&◌, suc, not, text_eq, ◌||◌, ◌-◌, require, ◌==◌, zero, ◌>>=◌, raise,
}
use ninja_devx.Throttling.{parse_rate}
use ninja_devx.Prelude.Table.{Table, update, put, get}

-- `APIKey`, without the instant of its creation.
pub record ApiKey : Type 0 where
  pub name : Text
  pub prefix : Text
  pub hashed_secret : Text
  pub user : ℕ
  pub scopes : List Text
  pub rate_limit : Text
  pub last_used_at : Option ℕ
  pub expires_at : Option ℕ
  pub revoked_at : Option ℕ

-- `ValidationError` of a rate, `IntegrityError` of the unique prefix, `ValueError` of a rotation, and
-- the `DatabaseError` of a row that is gone.
pub data KeyError : Type 0 where
  invalid_rate prefix_taken already_revoked row_missing : KeyError

-- The order of Python's strings.
unfoldable pub text_lt : Text → Text → Bool
text_lt s [] = false
text_lt [] (b ∷ t) = true
text_lt (a ∷ s) (b ∷ t) = ltb a b || (a == b && text_lt s t)

unfoldable pub insert : Text → List Text → List Text
unfolding text_lt
insert s [] = s ∷ []
insert s (t ∷ ts) =
    let rest = insert s ts in
    if text_eq s t then t ∷ ts else if text_lt s t then s ∷ t ∷ ts else t ∷ rest

-- `sorted(set(items))`
unfoldable pub sorted_set : List Text → List Text
unfolding insert
sorted_set [] = []
sorted_set (s ∷ ts) = insert s (sorted_set ts)

abbrev pub push_front : ℕ → List Text → List Text
push_front c [] = (c ∷ []) ∷ []
push_front c (part ∷ parts) = (c ∷ part) ∷ parts

-- `text.split(mark, most)` for a single character
unfoldable pub split_most : ℕ → ℕ → Text → List Text
split_most mark zero s = s ∷ []
split_most mark (suc most) [] = [] ∷ []
split_most mark (suc most) (c ∷ s) =
    let parts = split_most mark most s in
    let longer = split_most mark (suc most) s in
    if c == mark then [] ∷ parts else push_front c longer

abbrev pub key_prefix : Text
key_prefix = codes "ndx"

-- `f"{KEY_PREFIX}_{prefix}_{secret}"`
abbrev pub raw_key : Text → Text → Text
raw_key prefix secret = key_prefix ++ b'_' ∷ prefix ++ b'_' ∷ secret

abbrev pub three_parts : List Text → Option (Text × Text)
three_parts (a ∷ b ∷ c ∷ []) = if text_eq a key_prefix then some (b, c) else none
three_parts _ = none

-- `_parse`
unfoldable pub parse : Option Text → Option (Text × Text)
unfolding split_most
parse none = none
parse (some []) = none
parse (some (c ∷ s)) = three_parts (split_most b'_' 2 (c ∷ s))

-- `if rate_limit: validate_rate(rate_limit)`
unfoldable pub validate_rate : Text → Outcome KeyError (Unit {0})
validate_rate [] = ok tt
validate_rate (c ∷ s) = require (not (is_none (parse_rate (c ∷ s)))) invalid_rate

-- `APIKey.objects.filter(prefix=prefix).first()`
unfoldable pub find_prefix : Text → Table ApiKey → Option (ℕ × ApiKey)
find_prefix p [] = none
find_prefix p ((pk, key) ∷ keys) =
    let rest = find_prefix p keys in if text_eq key.prefix p then some (pk, key) else rest

-- Whether a row other than `pk` has the prefix: the unique constraint.
unfoldable pub is_taken : Text → ℕ → Table ApiKey → Bool
is_taken p pk [] = false
is_taken p pk ((j, key) ∷ keys) = (not (j == pk) && text_eq key.prefix p) || is_taken p pk keys

-- What the request keeps of its authentication, next to the table.
pub record Session : Type 0 where
  pub keys : Table ApiKey
  pub current : Option (ℕ × ApiKey)

-- `_TOUCH_EVERY`
abbrev pub touch_every : ℕ
touch_every = 60000000

-- `_needs_touch`
unfoldable pub needs_touch : ℕ → ApiKey → Bool
needs_touch now key = elim key.last_used_at [
  | none ↦ true
  | some last ↦ ltb touch_every (now - last)
]

-- `key.save(update_fields=...)`: the other fields of the row stay.
unfoldable pub save_fields : ℕ → (ApiKey → ApiKey) → Table ApiKey → Outcome KeyError (Table ApiKey)
save_fields pk change keys = elim (get pk keys) [
  | none ↦ raise row_missing
  | some row ↦ ok (put pk (change row) keys)
]

-- `revoke_api_key`
unfoldable pub revoke_api_key : ℕ → ℕ → Table ApiKey → Outcome KeyError (Table ApiKey)
unfolding save_fields
revoke_api_key now pk keys = save_fields pk (λ row. record row { revoked_at = some now }) keys

-- The fields that a rotation changes: `none` keeps the value.
abbrev pub rotated :
    Text → Text → Option (List Text) → Option (Option ℕ) → Option (Option Text) → ApiKey → ApiKey
rotated prefix hashed scopes expires_at rate_limit key = record key {
  prefix = prefix;
  hashed_secret = hashed;
  scopes = elim scopes [ none ↦ key.scopes | some granted ↦ sorted_set granted ];
  expires_at = elim expires_at [ none ↦ key.expires_at | some e ↦ e ];
  rate_limit = elim rate_limit [ none ↦ key.rate_limit | some none ↦ [] | some (some rate) ↦ rate ];
}

-- `if rate_limit is not KEEP and rate_limit is not None: validate_rate(str(rate_limit))`
unfoldable pub validate_given : Option (Option Text) → Outcome KeyError (Unit {0})
validate_given none = ok tt
validate_given (some none) = ok tt
validate_given (some (some rate)) = require (not (is_none (parse_rate rate))) invalid_rate

-- `digest` is SHA-256 in hexadecimal, and `is_active` is the flag of a user.
module _ (digest : Text → Text) (is_active : ℕ → Bool) where
  -- The row of a new key.
  abbrev pub new_key : Text → Text → ℕ → Text → List Text → Option ℕ → Text → ApiKey
  new_key prefix secret user name scopes expires_at rate_limit = record {
    name = name;
    prefix = prefix;
    hashed_secret = digest secret;
    user = user;
    scopes = sorted_set scopes;
    rate_limit = rate_limit;
    last_used_at = none;
    expires_at = expires_at;
    revoked_at = none;
  }

  -- `create_api_key`: the primary key, the prefix and the secret are new. The rate is validated
  -- only if it is given.
  unfoldable pub create_api_key :
      ℕ
      → Text
      → Text
      → ℕ
      → Text
      → List Text
      → Option ℕ
      → Text
      → Table ApiKey
      → Outcome KeyError (Text × Table ApiKey)
  unfolding validate_rate is_taken
  create_api_key pk prefix secret user name scopes expires_at rate_limit keys = do
    validate_rate rate_limit
    require (not (is_taken prefix pk keys)) prefix_taken
    ok (
      raw_key prefix secret,
      put pk (new_key prefix secret user name scopes expires_at rate_limit) keys,
    )

  -- `rotate_api_key` for the row `pk`: `key` is the object that the caller holds, which tells
  -- whether the key is revoked, and may be older than the row.
  unfoldable pub rotate_api_key :
      ℕ
      → ApiKey
      → Text
      → Text
      → Option (List Text)
      → Option (Option ℕ)
      → Option (Option Text)
      → Table ApiKey
      → Outcome KeyError (Text × Table ApiKey)
  unfolding validate_given is_taken save_fields sorted_set
  rotate_api_key pk key prefix secret scopes expires_at rate_limit keys = do
    require (is_none key.revoked_at) already_revoked
    validate_given rate_limit
    require (not (is_taken prefix pk keys)) prefix_taken
    keys' ← save_fields pk (rotated prefix (digest secret) scopes expires_at rate_limit) keys
    ok (raw_key prefix secret, keys')

  -- `_valid`
  unfoldable pub is_valid : ℕ → ApiKey → Text → Bool
  is_valid now key secret =
      is_none key.revoked_at
      && (elim key.expires_at [ none ↦ true | some expires ↦ ltb now expires ])
      && is_active key.user
      && text_eq key.hashed_secret (digest secret)

  abbrev pub touched : ℕ → ℕ → ApiKey → Table ApiKey → Table ApiKey
  touched now pk key keys =
      if needs_touch now key
      then (update pk (λ row. true) (λ row. record row { last_used_at = some now }) keys).1
      else keys

  -- What is left of `_authenticate` once a raw key is parsed.
  unfoldable pub accept : ℕ → Text → Text → Session → Option ℕ × Session
  unfolding find_prefix is_valid needs_touch update
  accept now prefix secret s = elim (find_prefix prefix s.keys) [
    | none ↦ (none, s)
    | some (pk, key) ↦
        (if is_valid now key secret
          then (
            some key.user,
            record { keys = touched now pk key s.keys; current = some (pk, key) },
          )
          else (none, s))
  ]

  -- `_authenticate`: the user, or `none` for a request that is refused.
  unfoldable pub authenticate : ℕ → Option Text → Session → Option ℕ × Session
  unfolding parse accept
  authenticate now raw s = elim (parse raw) [
    | none ↦ (none, s)
    | some (prefix, secret) ↦ accept now prefix secret s
  ]
