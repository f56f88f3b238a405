-- ===== src/Idempotency/Separation.antt =====
-- Requests of different callers never share a row, and what a response may carry to a retry.
use ninja_devx.Prelude.{
  Text, List, ◌∷◌, ◌↔◌, ◌≡◌, text_in, ◌⊎◌, [], lower, false, ◌≢◌, ok, Bool-cases, inl, inr, ◌∙◌, ap,
}
use ninja_devx.Idempotency.Policy.{Parts, Policy, Request, scope_of, identity}
use ninja_devx.Idempotency.Store.{kept}

-- The parts of a request are its fields, and its scope and the identity of its API key.
record ArePartsOf (policy : Policy) (key : Text) (r : Request) (p : Parts) : Type 0 where
  method : p.method ≡ r.method
  path : p.path ≡ r.path
  scope : scope_of policy.scope r ≡ ok p.scope
  key_text : p.key ≡ key
  authorization : p.authorization ≡ r.authorization
  x_api_key : p.x_api_key ≡ r.x_api_key
  session_cookie : p.session_cookie ≡ r.session_cookie
  api_identity : identity r.api_key ≡ ok p.api_identity
  hashed_secret : p.hashed_secret ≡ r.hashed_secret

-- Two keyed requests that differ in the method, the path, the key, the scope, which without a
-- custom one is the principal and the tenant, or in a credential.
pub data Differ (policy : Policy) (key_a key_b : Text) (a b : Request) : Type 0 where
  by_method : a.method ≢ b.method → Differ policy key_a key_b a b
  by_path : a.path ≢ b.path → Differ policy key_a key_b a b
  by_key : key_a ≢ key_b → Differ policy key_a key_b a b
  by_scope : scope_of policy.scope a ≢ scope_of policy.scope b → Differ policy key_a key_b a b
  by_authorization : a.authorization ≢ b.authorization → Differ policy key_a key_b a b
  by_x_api_key : a.x_api_key ≢ b.x_api_key → Differ policy key_a key_b a b
  by_session_cookie : a.session_cookie ≢ b.session_cookie → Differ policy key_a key_b a b
  by_api_key : identity a.api_key ≢ identity b.api_key → Differ policy key_a key_b a b
  by_hashed_secret : a.hashed_secret ≢ b.hashed_secret → Differ policy key_a key_b a b

abbrev pub Listed : Text × Text → List (Text × Text) → Type 0
Listed h [] = ⊥
Listed h (x ∷ xs) = (h ≡ x) ⊎ Listed h xs

-- The headers that are stored, and later replayed, are those whose name, in any case, is not one of
-- the omitted names: every other header is kept with its value, and none is added.
pub kept_iff :
    (names : List Text) (headers : List (Text × Text)) (n v : Text)
    → Listed (n, v) (kept names headers)
      ↔ (Listed (n, v) headers × (text_in (lower n) names ≡ false))
unfolding kept
kept_iff names [] n v = (λ h. absurd h, λ h. h.0)
kept_iff names ((m, w) ∷ rest) n v =
    let ih = kept_iff names rest n v in
    elim (Bool-cases (text_in (lower m) names)) [
      | inl omit ↦ rw omit (
        λ h. (inr (ih.0 h).0, (ih.0 h).1),
        λ h. elim h.0 [
          | inl e ↦ absurd (cc (ap (λ (x : Text × Text). text_in (lower x.0) names) e, h.1, omit))
          | inr r ↦ ih.1 (r, h.1)
        ],
      )
      | inr keep ↦ rw keep (
        λ h. elim h [
          | inl e ↦ (inl e, ap (λ (x : Text × Text). text_in (lower x.0) names) e ∙ keep)
          | inr r ↦ (inr (ih.0 r).0, (ih.0 r).1)
        ],
        λ h. elim h.0 [ inl e ↦ inl e | inr r ↦ inr (ih.1 (r, h.1)) ],
      )
    ]
