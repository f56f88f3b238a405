-- ===== src/Dependencies/Examples.antt =====
-- A small application: a scoped service that needs the request and a repository, which is a
-- singleton.
use ninja_devx.Prelude.{
  ℕ, List, ◌≡◌, Option, nat_in_mem, false, [], nat_in, some, if◌then◌else◌, refl, true, ◌==◌, arith,
  none, ap, Bool-cases, inl, inr, ok, ◌≢◌, raise, free-le-length,
}
use mathlib.Core.List.{Memᴰ}
use mathlib.Core.Path.{subst}
use ninja_devx.Prelude.{◌∷◌, []}
use ninja_devx.Dependencies.Defs.{
  Inspection, wanted, Provider, Dependency, scoped, singleton, plain, is_registered, generator,
  transient, out_of_fuel, describe, plan,
}
use ninja_devx.Prelude.Table.{get, Table, put}
use ninja_devx.Dependencies.Engine.{
  ScopeState, World, resolve, resolve_key, provide, build, arguments, construct,
}
use ninja_devx.Dependencies.Graph.{IsClosed}
use ninja_devx.Dependencies.Scopes.{Ready}
use ninja_devx.Dependencies.Waiters.{NoCircle, Reach-NoCircle, Reach, entered, idle}
use ninja_devx.Dependencies.Checker.{check, Seen, check_provider, check_dependencies, marked}
use ninja_devx.Dependencies.Container.{override_enter, track_waiter, Registry, override_exit}
use ninja_devx.Dependencies.Refines.{check-resolve}
use ninja_devx.Dependencies.Overrides.{override-restores}
use ninja_devx.Dependencies.Lifetimes.{resolve-again}
use ninja_devx.Dependencies.Termination.{check-Ends}

abbrev service : Provider
service = record { factory = 11; lifetime = scoped; kind = generator }

abbrev repository : Provider
repository = record { factory = 12; lifetime = singleton; kind = plain }

abbrev provider_table : Table Provider
provider_table = (1, service) ∷ (2, repository) ∷ []

abbrev needs_request : Dependency
needs_request = record { key = 0; has_default = false }

abbrev needs_repository : Dependency
needs_repository = record { key = 2; has_default = false }

abbrev service_needs : List Dependency
service_needs = needs_request ∷ needs_repository ∷ []

unfoldable needs : ℕ → Option (List Dependency)
needs factory =
    if factory == 11 then some service_needs else (if factory == 12 then some [] else none)

abbrev signatures : Inspection
signatures = record {
  unwrap_annotated = λ k. k;
  without_none = λ k. k;
  is_autowirable = λ k. false;
  parameters = needs;
}

abbrev key_list : List ℕ
key_list = 0 ∷ 1 ∷ 2 ∷ []

key_in_service :
    (d : Dependency) (key : ℕ)
    → Memᴰ d service_needs
    → wanted signatures (is_registered provider_table) d ≡ some key
    → nat_in key key_list ≡ true
unfolding wanted nat_in
key_in_service d key (Memᴰ.head e) w =
    ground (arith, ap (λ x. wanted signatures (is_registered provider_table) x) e)
key_in_service d key (Memᴰ.tail (Memᴰ.head e)) w =
    ground (arith, ap (λ x. wanted signatures (is_registered provider_table) x) e)
key_in_service d key (Memᴰ.tail (Memᴰ.tail m)) w = elim m [ ]

key_in_needs :
    (factory : ℕ) (deps : List Dependency) (d : Dependency) (key : ℕ)
    → needs factory ≡ some deps
    → Memᴰ d deps
    → wanted signatures (is_registered provider_table) d ≡ some key
    → nat_in key key_list ≡ true
unfolding needs
key_in_needs factory deps d key h m w = elim (Bool-cases (factory == 11)) [
  | inl e ↦
      (let same : deps ≡ service_needs = ground (arith, h) in
        key_in_service d key (subst (λ x. Memᴰ d x) same m) w)
  | inr e ↦ elim (Bool-cases (factory == 12)) [
    | inl e' ↦ (let same : deps ≡ [] = ground (arith, h) in elim (subst (λ x. Memᴰ d x) same m) [ ])
    | inr e' ↦ ground (arith, h)
  ]
]

key_list-IsClosed : IsClosed signatures provider_table key_list
key_list-IsClosed = record {
  next = λ k p deps d key m described planned listed w.
      nat_in_mem key key_list (key_in_needs p.factory deps d key planned listed w);
}

abbrev no_state : ScopeState
no_state = record { instances = []; pending = []; exits = [] }

abbrev fresh_world : World
fresh_world = record {
  next = 8;
  built = [];
  root = no_state;
  scope = record { instances = (0, 7) ∷ []; pending = []; exits = [] };
}

fresh_world-Ready : Ready provider_table fresh_world
unfolding get
fresh_world-Ready = record {
  request_id = 7;
  has_request = refl;
  values = λ k id e. ground arith;
  root_idle = refl;
  scope_idle = refl;
}

abbrev service_seen : Seen
service_seen = (2, false) ∷ (1, false) ∷ []

service_check : check signatures provider_table false 5 1 [] transient [] ≡ ok service_seen
unfolding check check_provider check_dependencies describe plan wanted marked needs nat_in get
    is_registered
service_check = refl

check-resolve_example :
    (id : ℕ) × (after : World) × (resolve signatures provider_table 4 1 [] true fresh_world
      ≡ ok (id, after))
    × Ready provider_table after
check-resolve_example =
    check-resolve signatures provider_table refl key_list 5 4 1 service_seen fresh_world
      key_list-IsClosed (Memᴰ.tail (Memᴰ.head refl)) service_check fresh_world-Ready (ground arith)

check-Ends_example : check signatures provider_table true 4 1 [] transient [] ≢ raise out_of_fuel
check-Ends_example =
    check-Ends signatures provider_table true key_list key_list-IsClosed 4 1 [] transient []
      (Memᴰ.tail (Memᴰ.head refl)) (omega (arith, free-le-length [] key_list))

abbrev repository_built : World
repository_built = record {
  next = 9;
  built = record { id = 8; factory = 12; arguments = [] } ∷ [];
  root = record { instances = (2, 8) ∷ []; pending = []; exits = [] };
  scope = record { instances = (0, 7) ∷ []; pending = []; exits = [] };
}

repository_resolve :
    resolve signatures provider_table 3 2 [] true fresh_world ≡ ok (8, repository_built)
unfolding resolve resolve_key provide build arguments construct describe plan needs nat_in get put
repository_resolve = refl

resolve-again_example :
    resolve signatures provider_table 1 2 (1 ∷ []) false repository_built ≡ ok (8, repository_built)
unfolding get nat_in
resolve-again_example =
    resolve-again signatures provider_table 3 2 2 repository [] true fresh_world 8 repository_built
      refl refl refl refl repository_resolve 1 (1 ∷ []) false repository_built (ground arith) refl
      refl refl

abbrev registry : Registry
registry = record { providers = provider_table; instances = (2, 8) ∷ [] }

override-restores_example :
    (get 2 (override_enter 2 90 91 registry).1.instances ≡ some 91)
    × (get 2 (override_exit 2 (override_enter 2 90 91 registry).0 registry).providers
        ≡ (if 2 == 2 then get 2 registry.providers else get 2 registry.providers))
    × (get 2 (override_exit 2 (override_enter 2 90 91 registry).0 registry).instances
        ≡ (if 2 == 2 then get 2 registry.instances else get 2 registry.instances))
override-restores_example = override-restores 2 90 91 2 registry registry

abbrev two_waits : Table ℕ
two_waits = (4, 5) ∷ (5, 6) ∷ []

two_waits-Reach : Reach two_waits
unfolding track_waiter get put
two_waits-Reach =
    entered 3 5 6 ((4, 5) ∷ []) two_waits (entered 3 4 5 [] ((4, 5) ∷ []) idle refl) refl

Reach-NoCircle_example : NoCircle two_waits
Reach-NoCircle_example = Reach-NoCircle two_waits two_waits-Reach
