-- ===== src/Throttling/Windows.antt =====
-- The limit of a window, with the counters of the cache.
use mathlib.Core.Path.{subst}
use ninja_devx.Prelude.{
  refl, ℕ, ◌≤◌, ◌/◌, none, ◌≡◌, ◌<◌, some, ◌*◌, ◌+◌, Option-cases, ◌%◌, inl, sym, inr, Option, ltb,
  true, arith, if◌then◌else◌, Text, leb, List, All, ◌-◌, length, ◌∷◌, Bool-cases, [], ap,
}
use native.Mathlib.Omega.{div_any}
use native.Mathlib.Nat.{mod-lt}
use ninja_devx.Prelude.Table.{get, get-put_self}
use ninja_devx.Throttling.Defs.{
  Cache, hit_cache, add, live, Counter, parse_rate, serve, allow_request, passed, cache_storage,
  refused, retry_after, allowed,
}
use ninja_devx.Throttling.Rates.{parse_rate_lem}

-- A counter says `n`, and outlives the window that ends at `close`.
abbrev pub Counted : ℕ → ℕ → Option Counter → Type 0
Counted n close none = n ≡ 0
Counted n close (some c) = (c.count ≡ n) × (close ≤ c.expires)

within : (t d w : ℕ) → 1 ≤ d → t / d ≡ w → (d * w ≤ t) × (t < d * w + d)
within t d w low h =
    let parts : d * w + t % d ≡ t = rw (sym h) (div_any t d) in
    let small : t % d < d = mod-lt t (omega arith) in omega arith

add-Counted :
    (key d t close n : ℕ) (cache : Cache)
    → t < close
    → close ≤ t + d
    → Counted n close (get key cache)
    → (c : Counter) × (get key (add key d t cache) ≡ some c) × (c.count ≡ n) × (close ≤ c.expires)
unfolding add live
add-Counted key d t close n cache early late counted = elim (Option-cases (get key cache)) [
  | inl e ↦
      (let zero_count : n ≡ 0 = subst (Counted n close) e counted in
        (
          record { count = 0; expires = t + (d + 1) },
          rw (e, live) (get-put_self key _ cache),
          sym zero_count,
          omega arith,
        ))
  | inr (c, e) ↦
      (let known : (c.count ≡ n) × (close ≤ c.expires) = subst (Counted n close) e counted in
        let alive : ltb t c.expires ≡ true = ground (arith, known.1) in
        (c, rw (e, live) (rw alive e), known.0, known.1))
]

hit_cache-Counted :
    (key d t close n : ℕ) (cache : Cache)
    → t < close
    → close ≤ t + d
    → Counted n close (get key cache)
    → ((hit_cache key d t t cache).0 ≡ n + 1)
      × Counted (n + 1) close (get key (hit_cache key d t t cache).1)
unfolding hit_cache live
hit_cache-Counted key d t close n cache early late counted =
    let (c, e, count, lasts) = add-Counted key d t close n cache early late counted in
    let alive : ltb t c.expires ≡ true = ground (arith, lasts) in
    let same : c.count + 1 ≡ n + 1 = omega (arith, count) in
    (
      rw (e, live, hit_cache) (rw alive (rw (e, hit_cache) same)),
      rw (e, live, hit_cache)
          (rw alive (
            rw (e, hit_cache)
              (rw (get-put_self key (record c { count = c.count + 1 }) (add key d t cache))
                (same, lasts)))),
    )

abbrev pub at_most : ℕ → ℕ → ℕ
at_most limit n = if leb n limit then n else limit

module _ (key_of : Text → ℕ → ℕ → ℕ) (rate identity : Text) (limit duration window : ℕ)
    (parsed : parse_rate rate ≡ some (limit, duration)) where
  abbrev pub key : ℕ
  key = key_of identity duration window

  allow_request-hit :
      (t : ℕ) (cache : Cache)
      → t / duration ≡ window
      → allow_request cache_storage key_of (some rate) (some identity) t cache ≡ (
          if ltb limit (hit_cache key duration t t cache).0
          then (refused (retry_after duration t), (hit_cache key duration t t cache).1)
          else (allowed, (hit_cache key duration t t cache).1))
  unfolding allow_request cache_storage
  allow_request-hit t cache same = rw (parsed, allow_request) (rw same refl)

  passed-serve-Counted :
      (times : List ℕ) (n : ℕ) (cache : Cache)
      → All (λ t. t / duration ≡ window) times
      → Counted n (duration * window + duration) (get key cache)
      → passed (serve cache_storage key_of rate identity times cache)
        ≡ at_most (limit - n) (length times)
  unfolding serve passed
  passed-serve-Counted [] n cache same counted = ground arith
  passed-serve-Counted (t ∷ times) n cache same counted =
      let (limits, low) = parse_rate_lem rate limit duration parsed in
      let (from, before) = within t duration window low same.0 in
      let (count, kept) =
        hit_cache-Counted key duration t (duration * window + duration) n cache before (omega arith)
          counted in
      let rest =
        passed-serve-Counted times (n + 1) (hit_cache key duration t t cache).1 same.1 kept in
      rw (allow_request-hit t cache same.0) (
        rw count (elim (Bool-cases (ltb limit (n + 1))) [
          | inl over ↦ rw over (ground (arith, rest))
          | inr under ↦ rw under (ground (arith, rest))
        ]))

  -- Of the requests of one identity in one window, whose counter does not exist before the first of
  -- them, as many pass as the limit says, or all of them if they are fewer, in whatever order their
  -- instants come.
  pub passed-serve :
      (times : List ℕ) (cache : Cache)
      → All (λ t. t / duration ≡ window) times
      → get key cache ≡ none
      → passed (serve cache_storage key_of rate identity times cache) ≡ at_most limit (length times)
  passed-serve times cache same fresh =
      let whole : limit - 0 ≡ limit = omega arith in
      rw (ap (λ l. at_most l (length times)) (sym whole)) (
        passed-serve-Counted times 0 cache same
          (subst (Counted 0 (duration * window + duration)) (sym fresh) refl))
