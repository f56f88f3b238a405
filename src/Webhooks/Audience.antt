-- ===== src/Webhooks/Audience.antt =====
-- The endpoints that `publish` selects are those that `_attempt` accepts.
use ninja_devx.Prelude.{
  [], ◌∷◌, ℕ, Option, Text, ◌≡◌, Bool, true, ◌↔◌, some, none, sym, ◌≢◌, text_eq, arith, false, refl,
  ◌==◌, text_eq_iff, ap,
}
use ninja_devx.Webhooks.Publish.{in_audience, audience_of}
use ninja_devx.Webhooks.Defs.{audience_matches, WebhookEndpoint}

text_eq-sym : (s t : Text) → text_eq s t ≡ text_eq t s
unfolding text_eq
text_eq-sym [] [] = refl
text_eq-sym (a ∷ s) [] = refl
text_eq-sym [] (b ∷ t) = refl
text_eq-sym (a ∷ s) (b ∷ t) = ground (arith, text_eq-sym s t)

bool_eq : (a b : Bool) → (a ≡ true → b ≡ true) → (b ≡ true → a ≡ true) → a ≡ b
bool_eq true b f g = sym (f refl)
bool_eq false true f g = g refl
bool_eq false false f g = refl

none_differs : {pk : ℕ} → some pk ≢ none
none_differs h = cc

module _ (str : Option ℕ → Text) (str_injective : (a b : Option ℕ) → str a ≡ str b → a ≡ b) where
  -- The stored text names the owner whose primary key the query compares.
  owner_eq :
      (pk : ℕ) (owner : Option ℕ)
      → text_eq (str (some pk)) (str owner) ≡ elim owner [ none ↦ false | some id ↦ id == pk ]
  owner_eq pk none =
      bool_eq _ _
        (λ h. elim (none_differs (str_injective (some pk) none ((text_eq_iff _ _).0 h))) [ ])
        (λ h. cc)
  owner_eq pk (some id) =
      bool_eq _ _
        (λ h.
          (let same : some pk ≡ some id = str_injective _ _ ((text_eq_iff _ _).0 h) in
            ground arith))
        (λ h.
          (let same : pk ≡ id = ground arith in (text_eq_iff _ _).1 (ap (λ x. str (some x)) same)))

  -- The query of `publish` selects an endpoint exactly when it is active and the audience that
  -- `publish` stores accepts it later.
  pub in_audience_iff :
      (event_type payload : Text) (created : ℕ) (owner : Option ℕ) (tenant_key : Text)
      (broadcast : Bool) (endpoint : WebhookEndpoint)
      → (in_audience broadcast owner tenant_key endpoint ≡ true) ↔ (
          (endpoint.is_active ≡ true)
          × (audience_matches str
                (record {
                  event_type = event_type;
                  payload = payload;
                  audience = some (audience_of str owner tenant_key broadcast);
                  created = created;
                })
                endpoint
              ≡ true))
  unfolding in_audience audience_matches
  in_audience_iff event_type payload created none tenant_key broadcast endpoint =
      rw (text_eq-sym tenant_key endpoint.tenant_key) (ground arith)
  in_audience_iff event_type payload created (some pk) tenant_key broadcast endpoint =
      rw (text_eq-sym tenant_key endpoint.tenant_key)
        (rw (owner_eq pk endpoint.owner_id) (ground arith))
