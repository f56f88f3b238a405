-- ===== src/Dependencies/Refines.antt =====
-- The startup check against the resolution at run time.
use mathlib.Core.List.{Memᴰ}
use ninja_devx.Prelude.{
  ℕ, [], ◌≡◌, nat_in, false, ok, true, refl, List, length, ◌<◌, arith, free-le-length,
}
use ninja_devx.Prelude.Table.{Table}
use ninja_devx.Dependencies.Defs.{Inspection, Provider, http_request, transient}
use ninja_devx.Dependencies.Checker.{Seen, check}
use ninja_devx.Dependencies.Engine.{World, resolve}
use ninja_devx.Dependencies.Scopes.{Ready}
use ninja_devx.Dependencies.Sound.{check-Good}
use ninja_devx.Dependencies.Resolves.{resolve-Returned}
use ninja_devx.Dependencies.Graph.{IsClosed}

module _ (inspection : Inspection) (providers : Table Provider)
    (request_is_class : inspection.unwrap_annotated http_request ≡ http_request) where
  -- Let the unwrapping of annotations leave the request's class alone, and the universe be keys
  -- that have their dependencies among them. If the sync check of one of them returns, then the
  -- engine resolves it in the scope of every request where no async factory is at work: it
  -- returns an object and leaves such a scope, so it meets no cycle, no unknown key, no scoped
  -- service below a singleton and no async factory, and its recursion is at most one call deeper
  -- than the universe has keys.
  pub check-resolve :
      (universe : List ℕ) (fuel n key : ℕ) (seen : Seen) (w : World)
      → IsClosed inspection providers universe
      → Memᴰ (inspection.unwrap_annotated key) universe
      → check inspection providers false fuel key [] transient [] ≡ ok seen
      → Ready providers w
      → length universe < n
      → (id : ℕ) × (after : World) × (resolve inspection providers n key [] true w ≡ ok (id, after))
        × Ready providers after
  unfolding nat_in
  check-resolve universe fuel n key seen w closed m h ready deep =
      let (good, grown) =
        check-Good inspection providers fuel key [] transient [] seen h (λ k f e. elim e [ ]) in
      resolve-Returned inspection providers request_is_class universe closed _ false good n key [] w
        (omega (arith, free-le-length [] universe)) m refl (λ s e. elim e [ ]) refl ready
