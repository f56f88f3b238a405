-- ===== src/Dependencies/Defs.antt =====
-- Providers, dependencies and the container. A key (a class or an annotation) and a factory are
-- numbers; what Python's inspection says of them is given.
use ninja_devx.Prelude.{
  ℕ, Bool, true, not, Outcome, Option, if◌then◌else◌, some, List, is_none, false, ok, ◌&&◌, none,
  raise, ◌>>=◌, ◌==◌,
}
use ninja_devx.Prelude.Table.{Table, get}

pub data Lifetime : Type 0 where
  singleton scoped transient : Lifetime

pub data ProviderKind : Type 0 where
  plain generator coroutine async_generator : ProviderKind

pub record Provider : Type 0 where
  pub factory : ℕ
  pub lifetime : Lifetime
  pub kind : ProviderKind

pub record Dependency : Type 0 where
  pub key : ℕ
  pub has_default : Bool

-- `CircularDependencyError`, and `DependencyResolutionError` by its reason. `out_of_fuel` is no
-- error of the program: the recursion of the model ran out.
pub data DependencyError : Type 0 where
  circular unresolvable captive outside_scope async_factory pending_build uninspectable :
      DependencyError
  out_of_fuel : DependencyError

-- What the inspection of annotations and signatures says: `unwrap_annotated` of a key, `without_none`,
-- whether a class can be auto-wired (it is its own factory), and the parameters of a factory.
pub record Inspection : Type 0 where
  pub unwrap_annotated : ℕ → ℕ
  pub without_none : ℕ → ℕ
  pub is_autowirable : ℕ → Bool
  pub parameters : ℕ → Option (List Dependency)

-- The key of `HttpRequest`.
abbrev pub http_request : ℕ
http_request = 0

abbrev pub is_singleton : Lifetime → Bool
is_singleton singleton = true
is_singleton _ = false

abbrev pub is_scoped : Lifetime → Bool
is_scoped scoped = true
is_scoped _ = false

abbrev pub is_async : ProviderKind → Bool
is_async coroutine = true
is_async async_generator = true
is_async _ = false

abbrev pub is_generator : ProviderKind → Bool
is_generator generator = true
is_generator _ = false

module _ (inspection : Inspection) where
  -- `Container.plan`
  unfoldable pub plan : ℕ → Outcome DependencyError (List Dependency)
  plan factory = elim (inspection.parameters factory) [
    | none ↦ raise uninspectable
    | some deps ↦ ok deps
  ]

  -- `Container.autowire`; the request is only available inside a request scope.
  unfoldable pub autowire : ℕ → Outcome DependencyError ℕ
  autowire key =
      if inspection.is_autowirable key && not (key == http_request)
      then ok key
      else raise unresolvable

  -- The provider of a key, or an auto-wired class, built anew each time.
  unfoldable pub describe : Table Provider → ℕ → Outcome DependencyError Provider
  unfolding autowire
  describe providers key = elim (get key providers) [
    | some p ↦ ok p
    | none ↦ (do
      factory ← autowire key
      ok (record { factory = factory; lifetime = transient; kind = plain }))
  ]

  -- The key of a parameter that is injected: one with a default only when its key is known.
  unfoldable pub wanted : (ℕ → Bool) → Dependency → Option ℕ
  wanted is_known d =
      if d.has_default
      then (if is_known (inspection.without_none d.key)
          then some (inspection.without_none d.key)
          else none)
      else some d.key

-- `key in self._providers`
unfoldable pub is_registered : Table Provider → ℕ → Bool
is_registered providers key = not (is_none (get key providers))
