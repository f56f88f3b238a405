-- ===== src/Dependencies/Termination.antt =====
-- The startup check ends: its depth is bounded by the number of keys.
use mathlib.Core.List.{Memᴰ}
use ninja_devx.Prelude.{
  ℕ, Bool, ◌∷◌, [], Outcome, ◌≡◌, ◌≢◌, List, raise, ok, require, ◌>>=◌, arith, ◌>>◌, free, some,
  ◌<◌, Option-cases, suc, Bool-cases, inl, nat_in, inr, ◌==◌, free-cons-lt, zero, refl,
  if◌then◌else◌, true, false,
}
use ninja_devx.Prelude.Table.{Table}
use ninja_devx.Dependencies.Defs.{
  Inspection, DependencyError, Provider, out_of_fuel, plan, describe, Dependency, autowire,
  Lifetime, wanted, is_registered, captive, async_factory, is_singleton, http_request, singleton,
  scoped, transient,
}
use ninja_devx.Dependencies.Checker.{
  check_dependencies, check_provider, check, Seen, marked, effective,
}
use ninja_devx.Dependencies.Sound.{planned_lem}
use ninja_devx.Dependencies.Graph.{IsClosed}

-- A call that does not run out of fuel.
abbrev Ends : {A : Type 0} → Outcome DependencyError A → Type 0
Ends o = o ≢ raise out_of_fuel

Ends-bind :
    {A B : Type 0} (o : Outcome DependencyError A) (k : A → Outcome DependencyError B)
    → Ends o
    → ((a : A) → o ≡ ok a → Ends (k a))
    → Ends (o >>= k)
Ends-bind (raise e) k h next b = h (ground (arith, b))
Ends-bind (ok a) k h next b = next a refl b

Ends-require :
    {B : Type 0} (test : Bool) (e : DependencyError) (o : Outcome DependencyError B)
    → e ≢ out_of_fuel
    → Ends o
    → Ends (require test e >> o)
Ends-require true e o d h b = h b
Ends-require false e o d h b = d (ground (arith, b))

module _ (inspection : Inspection) (providers : Table Provider) (asynchronous : Bool)
    (universe : List ℕ) where
  describe-Ends : (k : ℕ) → Ends (describe inspection providers k)
  unfolding describe autowire
  describe-Ends k = ground arith

  plan-Ends : (factory : ℕ) → Ends (plan inspection factory)
  unfolding plan
  plan-Ends factory = ground arith

  check_dependencies-Ends :
      (step : ℕ → Seen → Outcome DependencyError Seen) (deps : List Dependency) (seen : Seen)
      → ((d : Dependency) (key : ℕ) (s : Seen)
          → Memᴰ d deps
          → wanted inspection (is_registered providers) d ≡ some key
          → Ends (step key s))
      → Ends (check_dependencies inspection providers asynchronous step deps seen)
  unfolding check_dependencies
  check_dependencies-Ends step [] seen h = λ b. cc
  check_dependencies-Ends step (d ∷ deps) seen h =
      elim (Option-cases (wanted inspection (is_registered providers) d)) [
        | inl e ↦
            rw (e, check_dependencies)
              (check_dependencies-Ends step deps seen (λ d' key s m. h d' key s (Memᴰ.tail m)))
        | inr (key, e) ↦
            rw (e, check_dependencies)
              (Ends-bind (step key seen) _ (h d key seen (Memᴰ.head refl) e) (λ s r.
                check_dependencies-Ends step deps s (λ d' key' s' m. h d' key' s' (Memᴰ.tail m))))
      ]

  visit-Ends :
      (step : ℕ → Seen → Outcome DependencyError Seen) (k : ℕ) (owner : Lifetime) (seen : Seen)
      (p : Provider)
      → ((deps : List Dependency) (d : Dependency) (key : ℕ) (s : Seen)
          → inspection.parameters p.factory ≡ some deps
          → Memᴰ d deps
          → wanted inspection (is_registered providers) d ≡ some key
          → Ends (step key s))
      → Ends (
          if marked k (is_singleton owner) seen
          then ok seen
          else (plan inspection p.factory >>= λ deps.
              check_dependencies inspection providers asynchronous step deps
                ((k, is_singleton owner) ∷ seen)))
  visit-Ends step k owner seen p h = elim (Bool-cases (marked k (is_singleton owner) seen)) [
    | inl old ↦ rw old (λ b. cc)
    | inr new ↦ rw new (
        Ends-bind (plan inspection p.factory) _ (plan-Ends p.factory) (λ deps planned.
          check_dependencies-Ends step deps _
            (λ d key s m w. h deps d key s (planned_lem inspection p.factory deps planned) m w)))
  ]

  check_provider-Ends :
      (step : Lifetime → ℕ → Seen → Outcome DependencyError Seen) (k : ℕ) (owner : Lifetime)
      (seen : Seen)
      → ((lifetime : Lifetime) (p : Provider) (deps : List Dependency) (d : Dependency) (key : ℕ)
            (s : Seen)
          → describe inspection providers k ≡ ok p
          → inspection.parameters p.factory ≡ some deps
          → Memᴰ d deps
          → wanted inspection (is_registered providers) d ≡ some key
          → Ends (step lifetime key s))
      → Ends (check_provider inspection providers asynchronous step k owner seen)
  unfolding check_provider
  check_provider-Ends step k owner seen h =
      Ends-bind (describe inspection providers k) _ (describe-Ends k) (λ p described.
        Ends-require _ captive _ (λ b. cc)
          (Ends-require _ async_factory _ (λ b. cc)
            (visit-Ends (step (effective owner p.lifetime)) k owner seen p
              (λ deps d key s planned m w.
                h (effective owner p.lifetime) p deps d key s described planned m w))))

  Ends-request :
      (owner : Lifetime) (seen : Seen)
      → Ends (if is_singleton owner then raise captive else ok seen)
  Ends-request singleton seen = λ b. cc
  Ends-request scoped seen = λ b. cc
  Ends-request transient seen = λ b. cc

  -- The check never runs out of fuel that exceeds the number of the keys that are reachable and
  -- not on the stack: the recursion of the program ends.
  pub check-Ends :
      IsClosed inspection providers universe
      → (fuel key : ℕ) (stack : List ℕ) (owner : Lifetime) (seen : Seen)
      → Memᴰ (inspection.unwrap_annotated key) universe
      → free stack universe < fuel
      → check inspection providers asynchronous fuel key stack owner seen ≢ raise out_of_fuel
  unfolding check
  check-Ends closed zero key stack owner seen m h = ground arith
  check-Ends closed (suc fuel) key stack owner seen m h =
      elim (Bool-cases (nat_in (inspection.unwrap_annotated key) stack)) [
        | inl on ↦ rw on (λ b. cc)
        | inr out ↦ elim (Bool-cases (inspection.unwrap_annotated key == http_request)) [
          | inl r ↦ rw out (rw r (Ends-request owner seen))
          | inr nr ↦ rw out (
              rw nr (
                check_provider-Ends _ (inspection.unwrap_annotated key) owner seen
                  (λ lifetime p deps d next s described planned listed w.
                    check-Ends closed fuel next (inspection.unwrap_annotated key ∷ stack) lifetime s
                      (closed.next (inspection.unwrap_annotated key) p deps d next m described
                        planned listed w)
                      (omega (
                        arith,
                        free-cons-lt (inspection.unwrap_annotated key) stack universe m out,
                      )))))
        ]
      ]
