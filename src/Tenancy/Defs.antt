-- ===== src/Tenancy/Defs.antt =====
-- `current_tenant_for` and `acurrent_tenant_for`. A tenant is a number.
-- A resolver of the project: a function of the request, or a coroutine function. The number that it
-- is given tells how often resolvers were called before.
use ninja_devx.Prelude.{Option, ◌+◌, ℕ, some, Outcome, none, raise, ok}

pub data Resolver : Type 0 where
  plain coroutine : (ℕ → Option ℕ) → Resolver

-- The tenant of the context that the container resolves, by its sync and by its async resolver;
-- `none` stands for a call that has no such resolver.
pub record Context : Type 0 where
  pub by_sync : Option (Option ℕ)
  pub by_async : Option (Option ℕ)

-- A request: what an earlier call cached (a tenant, or that there is none), the attribute that a
-- middleware sets, and the calls of resolvers so far.
pub record TenantRequest : Type 0 where
  pub cached : Option (Option ℕ)
  pub attribute : Option ℕ
  pub calls : ℕ

pub data TenantError : Type 0 where
  missing_tenant async_resolver : TenantError

-- `_required`
abbrev pub required : Option ℕ → Outcome TenantError ℕ
required none = raise missing_tenant
required (some tenant) = ok tenant

abbrev pub keep : Option ℕ → TenantRequest → Outcome TenantError ℕ × TenantRequest
keep tenant request = (required tenant, record request { cached = some tenant })

abbrev pub called : TenantRequest → TenantRequest
called request = record request { calls = request.calls + 1 }

-- The tenant of the context in a sync operation: without a sync resolver, that of the request.
abbrev pub context_tenant : Option Context → TenantRequest → Option ℕ
context_tenant none request = request.attribute
context_tenant (some context) request = elim context.by_sync [
  | none ↦ request.attribute
  | some tenant ↦ tenant
]

-- The same in an async operation, where the async resolver comes first.
abbrev pub acontext_tenant : Option Context → TenantRequest → Option ℕ
acontext_tenant none request = request.attribute
acontext_tenant (some context) request = elim context.by_async [
  | some tenant ↦ tenant
  | none ↦ elim context.by_sync [ none ↦ none | some tenant ↦ tenant ]
]

-- The cases of a request that has nothing cached yet.
abbrev pub find_tenant :
    Option Resolver → Option Context → TenantRequest → Outcome TenantError ℕ × TenantRequest
find_tenant (some (plain resolver)) context request = keep (resolver request.calls) (called request)
find_tenant (some (coroutine resolver)) context request = (raise async_resolver, called request)
find_tenant none context request = keep (context_tenant context request) request

abbrev pub afind_tenant :
    Option Resolver → Option Context → TenantRequest → Outcome TenantError ℕ × TenantRequest
afind_tenant (some (plain resolver)) context request =
    keep (resolver request.calls) (called request)
afind_tenant (some (coroutine resolver)) context request =
    keep (resolver request.calls) (called request)
afind_tenant none context request = keep (acontext_tenant context request) request

-- The cached tenant, or what is found.
abbrev pub cached_or :
    Option (Option ℕ)
    → TenantRequest
    → Outcome TenantError ℕ × TenantRequest
    → Outcome TenantError ℕ × TenantRequest
cached_or (some tenant) request found = (required tenant, request)
cached_or none request found = found

unfoldable pub current_tenant_for :
    Option Resolver → Option Context → TenantRequest → Outcome TenantError ℕ × TenantRequest
current_tenant_for resolver context request =
    cached_or request.cached request (find_tenant resolver context request)

unfoldable pub acurrent_tenant_for :
    Option Resolver → Option Context → TenantRequest → Outcome TenantError ℕ × TenantRequest
acurrent_tenant_for resolver context request =
    cached_or request.cached request (afind_tenant resolver context request)

-- `current_tenant`: the tenant found before, if any.
unfoldable pub current_tenant : TenantRequest → Option ℕ
current_tenant request = elim request.cached [ none ↦ none | some tenant ↦ tenant ]
