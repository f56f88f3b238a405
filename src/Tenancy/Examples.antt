-- ===== src/Tenancy/Examples.antt =====
-- A request of tenant 4, whose context is resolved.
use ninja_devx.Prelude.{ℕ, Option, none, some, ◌+◌, ◌≡◌}
use ninja_devx.Tenancy.Defs.{
  current_tenant_for, TenantRequest, acurrent_tenant_for, coroutine, plain,
}
use ninja_devx.Tenancy.Cached.{acurrent_tenant_for-again}

abbrev fresh_request : TenantRequest
fresh_request = record { cached = none; attribute = some 4; calls = 0 }

-- A resolver that would give another tenant each time.
abbrev counting : ℕ → Option ℕ
counting calls = some (calls + 20)

acurrent_tenant_for-again_example :
    (current_tenant_for
        (some (plain counting))
        none
        (acurrent_tenant_for (some (coroutine counting)) none fresh_request).1
      ≡ acurrent_tenant_for (some (coroutine counting)) none fresh_request)
    × (acurrent_tenant_for
          (some (plain counting))
          none
          (acurrent_tenant_for (some (coroutine counting)) none fresh_request).1
        ≡ acurrent_tenant_for (some (coroutine counting)) none fresh_request)
acurrent_tenant_for-again_example =
    acurrent_tenant_for-again (some (coroutine counting)) (some (plain counting)) none none
      fresh_request
