-- ===== src/Tenancy/Cached.antt =====
-- A request has one tenant.
-- A call that found out the tenant, or that there is none: not the refusal of an async resolver.
use ninja_devx.Prelude.{Outcome, Option, ℕ, ◌≡◌, some, refl, none, sym, ap, ◌∙◌}
use ninja_devx.Tenancy.Defs.{
  current_tenant_for, acurrent_tenant_for, Resolver, TenantError, TenantRequest, Context,
  afind_tenant, keep, plain, required, called, coroutine, acontext_tenant, cached_or, find_tenant,
}

abbrev pub IsSettled : Outcome TenantError ℕ × TenantRequest → Type 0
IsSettled (o, request) = (t : Option ℕ) × (request.cached ≡ some t) × (o ≡ required t)

keep-IsSettled : (t : Option ℕ) (request : TenantRequest) → IsSettled (keep t request)
keep-IsSettled t request = (t, refl, refl)

cached_or-IsSettled :
    (c : Option (Option ℕ)) (request : TenantRequest)
    (found : Outcome TenantError ℕ × TenantRequest)
    → request.cached ≡ c
    → IsSettled found
    → IsSettled (cached_or c request found)
cached_or-IsSettled none request found e h = h
cached_or-IsSettled (some t) request found e h = (t, e, refl)

afind_tenant-IsSettled :
    (resolver : Option Resolver) (context : Option Context) (request : TenantRequest)
    → IsSettled (afind_tenant resolver context request)
afind_tenant-IsSettled none context request = keep-IsSettled _ request
afind_tenant-IsSettled (some (plain f)) context request = keep-IsSettled _ (called request)
afind_tenant-IsSettled (some (coroutine f)) context request = keep-IsSettled _ (called request)

cached_or_settled :
    (r found : Outcome TenantError ℕ × TenantRequest)
    → IsSettled r
    → cached_or r.1.cached r.1 found ≡ r
cached_or_settled r found (t, e, s) = ap (λ c. cached_or c r.1 found) e ∙ ap (λ o. (o, r.1)) (sym s)

-- After an async lookup every lookup of the request, sync or async and with whatever resolver,
-- gives the same tenant or the same refusal, and calls no resolver again.
pub acurrent_tenant_for-again :
    (resolver other_resolver : Option Resolver) (context other_context : Option Context)
    (request : TenantRequest)
    → (current_tenant_for other_resolver other_context
          (acurrent_tenant_for resolver context request).1
        ≡ acurrent_tenant_for resolver context request)
      × (acurrent_tenant_for other_resolver other_context
            (acurrent_tenant_for resolver context request).1
          ≡ acurrent_tenant_for resolver context request)
unfolding current_tenant_for acurrent_tenant_for
acurrent_tenant_for-again resolver other_resolver context other_context request =
    let first = acurrent_tenant_for resolver context request in
    let settled_first : IsSettled first =
      cached_or-IsSettled request.cached request (afind_tenant resolver context request) refl
        (afind_tenant-IsSettled resolver context request) in
    (
      cached_or_settled first (find_tenant other_resolver other_context first.1) settled_first,
      cached_or_settled first (afind_tenant other_resolver other_context first.1) settled_first,
    )

-- The sync lookup gives what the async lookup gives, if the resolver is no coroutine function and
-- the sync resolver of the container finds the context's tenant.
pub current-acurrent :
    (resolver : ℕ → Option ℕ) (tenant : Option ℕ) (by_async : Option (Option ℕ))
    (request : TenantRequest)
    → ((t : Option ℕ) → by_async ≡ some t → t ≡ tenant)
    → (current_tenant_for (some (plain resolver)) none request
        ≡ acurrent_tenant_for (some (plain resolver)) none request)
      × (current_tenant_for none
            (some (record { by_sync = some tenant; by_async = by_async }))
            request
          ≡ acurrent_tenant_for none
              (some (record { by_sync = some tenant; by_async = by_async }))
              request)
      × (current_tenant_for none none request ≡ acurrent_tenant_for none none request)
unfolding current_tenant_for acurrent_tenant_for
current-acurrent resolver tenant by_async request agree = (
  refl,
  ap (λ t. cached_or request.cached request (keep t request)) (chosen by_async agree),
  refl,
)
  where
    chosen :
        (a : Option (Option ℕ))
        → ((t : Option ℕ) → a ≡ some t → t ≡ tenant)
        → tenant ≡ acontext_tenant (some (record { by_sync = some tenant; by_async = a })) request
    chosen none h = refl
    chosen (some t) h = sym (h t refl)
