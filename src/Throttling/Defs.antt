-- ===== src/Throttling/Defs.antt =====
-- `parse_rate`, the cache storage and `allow_request`. Time is a number of seconds, rounded down.
use ninja_devx.Prelude.{
  ℕ, Bool, Option, Text, List, none, ◌-◌, some, leb, codes, ◌%◌, ◌∷◌, ◌+◌, ◌*◌, ◌&&◌, if◌then◌else◌,
  ◌/◌, [], text_eq, ltb, ◌==◌, is_none,
}
use ninja_devx.Prelude.Table.{Table, get, put}

abbrev pub periods : List (Text × ℕ)
periods =
    (codes "s", 1)
    ∷ (codes "sec", 1)
    ∷ (codes "second", 1)
    ∷ (codes "m", 60)
    ∷ (codes "min", 60)
    ∷ (codes "minute", 60)
    ∷ (codes "h", 3600)
    ∷ (codes "hour", 3600)
    ∷ (codes "d", 86400)
    ∷ (codes "day", 86400)
    ∷ []

unfoldable pub period_of : Text → List (Text × ℕ) → Option ℕ
period_of name [] = none
period_of name ((n, seconds) ∷ rest) = if text_eq n name then some seconds else period_of name rest

abbrev pub is_digit : ℕ → Bool
is_digit c = leb b'0' c && leb c b'9'

-- The digits at the front of a text and what follows, as `[0-9]*` takes them.
unfoldable pub take_digits : Text → Text × Text
take_digits [] = ([], [])
take_digits (c ∷ s) =
    let (digits, rest) = take_digits s in if is_digit c then (c ∷ digits, rest) else ([], c ∷ s)

-- `int` of a text of digits, from the value of the digits before.
unfoldable pub int_from : ℕ → Text → ℕ
int_from n [] = n
int_from n (c ∷ s) = int_from (n * 10 + (c - b'0')) s

-- `[1-9][0-9]*` at the front of a text: its value and what follows.
unfoldable pub positive : Text → Option (ℕ × Text)
unfolding take_digits int_from
positive [] = none
positive (c ∷ s) =
    let (digits, rest) = take_digits s in
    if leb b'1' c && leb c b'9' then some (int_from 0 (c ∷ digits), rest) else none

-- `match[2] or 1` and `match[3]`: the optional number and the period.
unfoldable pub multiple : Text → ℕ × Text
unfolding positive
multiple s = elim (positive s) [ none ↦ (1, s) | some p ↦ p ]

-- What follows the limit: a slash, the optional number and a period.
unfoldable pub rate_of : ℕ → Text → Option (ℕ × ℕ)
unfolding multiple period_of
rate_of limit [] = none
rate_of limit (c ∷ rest) = elim (period_of (multiple rest).1 periods) [
  | none ↦ none
  | some seconds ↦ (if c == b'/' then some (limit, (multiple rest).0 * seconds) else none)
]

-- `parse_rate`: `none` is `ImproperlyConfigured`. A name of `_PERIODS` is made of letters.
unfoldable pub parse_rate : Text → Option (ℕ × ℕ)
unfolding positive rate_of
parse_rate rate = elim (positive rate) [ none ↦ none | some (limit, rest) ↦ rate_of limit rest ]

-- A counter of the cache with the instant at which it expires.
pub record Counter : Type 0 where
  pub count : ℕ
  pub expires : ℕ

-- The digest of a key in the cache is a number.
abbrev pub Cache : Type 0
Cache = Table Counter

-- A live counter of a key.
unfoldable pub live : ℕ → ℕ → Cache → Option ℕ
live key now cache = elim (get key cache) [
  | none ↦ none
  | some c ↦ (if ltb now c.expires then some c.count else none)
]

-- `cache.add(key, 0, timeout=window_seconds + 1)`
unfoldable pub add : ℕ → ℕ → ℕ → Cache → Cache
unfolding live
add key window now cache =
    if is_none (live key now cache)
    then put key (record { count = 0; expires = now + (window + 1) }) cache
    else cache

-- `cache.add` and then `cache.incr`, or `cache.set` when the counter expired in between: the count.
-- `now` and `later` are the instants of the two calls.
unfoldable pub hit_cache : ℕ → ℕ → ℕ → ℕ → Cache → ℕ × Cache
unfolding add
hit_cache key window now later cache = elim (live key later (add key window now cache)) [
  | none ↦
      (1, put key (record { count = 1; expires = later + (window + 1) }) (add key window now cache))
  | some n ↦ elim (get key (add key window now cache)) [
    | none ↦ (n, add key window now cache)
    | some c ↦ (n + 1, put key (record c { count = n + 1 }) (add key window now cache))
  ]
]

-- `window_seconds - (time.time() % window_seconds)`
abbrev pub retry_after : ℕ → ℕ → ℕ
retry_after window now = window - now % window

-- `throttle_storage`: the hits of a key at an instant give a count and the seconds that are left.
pub record ThrottleStorage (S : Type 0) : Type 0 where
  pub hit : ℕ → ℕ → ℕ → S → (ℕ × ℕ) × S

-- `CacheThrottleStorage`, where the two calls happen in the same second.
unfoldable pub cache_storage : ThrottleStorage Cache
unfolding hit_cache
cache_storage = record {
  hit = λ key window now cache.
      let (count, cache') = hit_cache key window now now cache in
      ((count, retry_after window now), cache');
}

pub data Decision : Type 0 where
  allowed : Decision
  refused : ℕ → Decision
  bad_rate : Decision

-- `allow_request`: `rate` and `identity` are those of the request, and `key_of` is the cache key of
-- an identity, a duration and a window within the scope of the throttle. A refusal carries `wait`.
unfoldable pub allow_request :
    {S : Type 0}
    → ThrottleStorage S
    → (Text → ℕ → ℕ → ℕ)
    → Option Text
    → Option Text
    → ℕ
    → S
    → Decision × S
unfolding parse_rate
allow_request storage key_of none identity now s = (allowed, s)
allow_request storage key_of (some rate) none now s = (allowed, s)
allow_request storage key_of (some rate) (some identity) now s = elim (parse_rate rate) [
  | none ↦ (bad_rate, s)
  | some (limit, duration) ↦
      (let ((count, wait), s') =
          storage.hit (key_of identity duration (now / duration)) duration now s in
        if ltb limit count then (refused wait, s') else (allowed, s'))
]

-- The decisions on requests of one identity, one after another.
unfoldable pub serve :
    {S : Type 0} → ThrottleStorage S → (Text → ℕ → ℕ → ℕ) → Text → Text → List ℕ → S → List Decision
unfolding allow_request
serve storage key_of rate identity [] s = []
serve storage key_of rate identity (now ∷ times) s =
    let (decision, s') = allow_request storage key_of (some rate) (some identity) now s in
    decision ∷ serve storage key_of rate identity times s'

-- How many requests were let through.
unfoldable pub passed : List Decision → ℕ
passed [] = 0
passed (allowed ∷ rest) = passed rest + 1
passed (_ ∷ rest) = passed rest
