-- ===== src/Dependencies/Checker.antt =====
-- `DependencyChecker.check`, by recursion on fuel.
use ninja_devx.Prelude.{
  ℕ, Bool, not, false, List, if◌then◌else◌, true, nat_in, Outcome, ◌>>=◌, raise, ok, ◌>>◌, ◌∷◌, suc,
  require, ◌==◌, none, some, ◌&&◌, ◌||◌, [], zero,
}
use ninja_devx.Prelude.Table.{Table}
use ninja_devx.Dependencies.Defs.{
  Lifetime, Inspection, Provider, wanted, is_singleton, describe, is_registered, singleton, plan,
  DependencyError, Dependency, out_of_fuel, circular, is_scoped, http_request, captive, is_async,
  async_factory,
}

-- A marker: a key, and whether a singleton needs it.
abbrev pub Seen : Type 0
Seen = List (ℕ × Bool)

abbrev pub same_flag : Bool → Bool → Bool
same_flag true b = b
same_flag false b = not b

unfoldable pub marked : ℕ → Bool → Seen → Bool
marked key flag [] = false
marked key flag ((k, f) ∷ seen) = (k == key && same_flag f flag) || marked key flag seen

-- `SINGLETON` if the owner or the dependency is one.
abbrev pub effective : Lifetime → Lifetime → Lifetime
effective owner lifetime = if is_singleton owner then singleton else lifetime

module _ (inspection : Inspection) (providers : Table Provider) (asynchronous : Bool) where
  -- The loop over the dependencies of a factory; `step` is the recursive call.
  unfoldable pub check_dependencies :
      (ℕ → Seen → Outcome DependencyError Seen)
      → List Dependency
      → Seen
      → Outcome DependencyError Seen
  unfolding wanted is_registered
  check_dependencies step [] seen = ok seen
  check_dependencies step (d ∷ deps) seen = elim (wanted inspection (is_registered providers) d) [
    | none ↦ check_dependencies step deps seen
    | some key ↦ (do seen' ← step key seen; check_dependencies step deps seen')
  ]

  -- What is left of `check` once the stack and the request are tested.
  unfoldable pub check_provider :
      (Lifetime → ℕ → Seen → Outcome DependencyError Seen)
      → ℕ
      → Lifetime
      → Seen
      → Outcome DependencyError Seen
  unfolding check_dependencies describe plan marked
  check_provider step key owner seen = do
    p ← describe inspection providers key
    require (not (is_scoped p.lifetime && is_singleton owner)) captive
    require (asynchronous || not (is_async p.kind)) async_factory
    if marked key (is_singleton owner) seen then ok seen else (do
      deps ← plan inspection p.factory
      check_dependencies (step (effective owner p.lifetime)) deps
          ((key, is_singleton owner) ∷ seen))

  unfoldable pub check : ℕ → ℕ → List ℕ → Lifetime → Seen → Outcome DependencyError Seen
  unfolding check_provider nat_in
  check zero key stack owner seen = raise out_of_fuel
  check (suc fuel) key stack owner seen =
      let k = inspection.unwrap_annotated key in
      if nat_in k stack
      then raise circular
      else if k == http_request
      then (if is_singleton owner then raise captive else ok seen)
      else check_provider (λ lifetime d s. check fuel d (k ∷ stack) lifetime s) k owner seen
