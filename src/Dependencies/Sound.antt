-- ===== src/Dependencies/Sound.antt =====
-- A key that the sync check accepts is good.
use mathlib.Core.Path.{subst}
use mathlib.Core.List.{Memᴰ}
use ninja_devx.Prelude.{
  ◌∙◌, ℕ, Bool, ◌∷◌, [], List, ◌≡◌, inl, true, ◌||◌, inr, Outcome, ◌⊎◌, Bool-cases, ok, ◌==◌, refl,
  ◌&&◌, false, arith, Option-cases, nat_in, sym, bind_ok, require_ok, not, nat_in_of_mem, ◌≢◌, some,
  ap, require, suc, ◌>>◌, unless_ok, if◌then◌else◌, ◌>>=◌, zero,
}
use ninja_devx.Prelude.Table.{Table}
use ninja_devx.Dependencies.Defs.{
  Lifetime, Inspection, is_singleton, Provider, DependencyError, singleton, scoped, Dependency,
  transient, wanted, is_registered, http_request, describe, is_scoped, captive, is_async,
  async_factory, plan, circular,
}
use ninja_devx.Dependencies.Checker.{
  marked, Seen, effective, check_dependencies, same_flag, check_provider, check,
}
use ninja_devx.Dependencies.Graph.{Good, AllGood, none_left, skipped, needed, node, request}

same_flag_lem : (g f : Bool) → same_flag g f ≡ true → f ≡ g
same_flag_lem true f h = h
same_flag_lem false true h = cc
same_flag_lem false false h = refl

marked_mem : (k : ℕ) (f : Bool) (seen : Seen) → marked k f seen ≡ true → Memᴰ (k, f) seen
unfolding marked
marked_mem k f [] h = cc
marked_mem k f ((j, g) ∷ seen) h = elim (Bool-cases (j == k && same_flag g f)) [
  | inl e ↦
      (let key : k ≡ j = ground arith in
        let flag : f ≡ g = same_flag_lem g f (ground arith) in Memᴰ.head (rw (key, flag) refl))
  | inr e ↦ Memᴰ.tail (marked_mem k f seen (ground arith))
]

is_singleton-effective :
    (owner lifetime : Lifetime)
    → is_singleton (effective owner lifetime) ≡ (is_singleton owner || is_singleton lifetime)
is_singleton-effective singleton lifetime = refl
is_singleton-effective scoped lifetime = refl
is_singleton-effective transient lifetime = refl

ok_injective : {A : Type 0} {a b : A} → ◌≡◌ {A = Outcome DependencyError A} (ok a) (ok b) → a ≡ b
ok_injective h = ground arith

true-false : true ≢ false
true-false h = cc

pub planned_lem :
    (inspection : Inspection) (factory : ℕ) (deps : List Dependency)
    → plan inspection factory ≡ ok deps
    → inspection.parameters factory ≡ some deps
unfolding plan
planned_lem inspection factory deps h = elim (Option-cases (inspection.parameters factory)) [
  | inl e ↦ ground arith
  | inr (ds, e) ↦ ground arith
]

module _ (inspection : Inspection) (providers : Table Provider) where
  abbrev IsGood : ℕ → Bool → Type 0
  IsGood = Good inspection providers

  -- Every marker is that of a key on the stack or of a good key.
  abbrev pub Covered : List ℕ → Seen → Type 0
  Covered stack seen = (k : ℕ) (f : Bool) → Memᴰ (k, f) seen → Memᴰ k stack ⊎ IsGood k f

  -- What a search adds is good.
  abbrev pub Grown : Seen → Seen → Type 0
  Grown seen seen' = (k : ℕ) (f : Bool) → Memᴰ (k, f) seen' → Memᴰ (k, f) seen ⊎ IsGood k f

  Covered-Grown :
      (stack : List ℕ) (seen seen' : Seen)
      → Covered stack seen
      → Grown seen seen'
      → Covered stack seen'
  Covered-Grown stack seen seen' c g k f m = elim (g k f m) [
    | inl old ↦ c k f old
    | inr new ↦ inr new
  ]

  Grown-trans : (a b c : Seen) → Grown a b → Grown b c → Grown a c
  Grown-trans a b c g h k f m = elim (h k f m) [ inl old ↦ g k f old | inr new ↦ inr new ]

  -- What one recursive call gives.
  abbrev Sound : List ℕ → Bool → (ℕ → Seen → Outcome DependencyError Seen) → Type 0
  Sound stack flag step =
      (key : ℕ) (seen seen' : Seen)
      → step key seen ≡ ok seen'
      → Covered stack seen
      → IsGood (inspection.unwrap_annotated key) flag × Grown seen seen'

  check_dependencies-AllGood :
      (stack : List ℕ) (flag : Bool) (step : ℕ → Seen → Outcome DependencyError Seen)
      → Sound stack flag step
      → (deps : List Dependency) (seen seen' : Seen)
      → check_dependencies inspection providers false step deps seen ≡ ok seen'
      → Covered stack seen
      → AllGood inspection providers deps flag × Grown seen seen'
  unfolding check_dependencies
  check_dependencies-AllGood stack flag step sound [] seen seen' h c =
      (none_left flag, λ k f m. inl (subst (λ s. Memᴰ (k, f) s) (sym (ok_injective h)) m))
  check_dependencies-AllGood stack flag step sound (d ∷ deps) seen seen' h c =
      elim (Option-cases (wanted inspection (is_registered providers) d)) [
        | inl e ↦
            (let (all, grown) =
                check_dependencies-AllGood stack flag step sound deps seen seen'
                  (rw (e, check_dependencies) at h) c in
              (skipped d deps flag e all, grown))
        | inr (key, e) ↦
            (let (mid, first, rest) =
                bind_ok (step key seen)
                  (λ s. check_dependencies inspection providers false step deps s) seen'
                  (rw (e, check_dependencies) at h) in
              let (good, grown) = sound key seen mid first c in
              let (all, grown') =
                check_dependencies-AllGood stack flag step sound deps mid seen' rest
                  (Covered-Grown stack seen mid c grown) in
              (needed d deps flag key e good all, Grown-trans seen mid seen' grown grown'))
      ]

  Covered-push :
      (k : ℕ) (flag : Bool) (stack : List ℕ) (seen : Seen)
      → Covered stack seen
      → Covered (k ∷ stack) ((k, flag) ∷ seen)
  Covered-push k flag stack seen c j f (Memᴰ.head e) =
      inl (Memᴰ.head (ap (λ (m : ℕ × Bool). m.0) e))
  Covered-push k flag stack seen c j f (Memᴰ.tail m) = elim (c j f m) [
    | inl s ↦ inl (Memᴰ.tail s)
    | inr g ↦ inr g
  ]

  -- The marker of the key itself is good in the end.
  Grown-pop :
      (k : ℕ) (flag : Bool) (seen seen' : Seen)
      → IsGood k flag
      → Grown ((k, flag) ∷ seen) seen'
      → Grown seen seen'
  Grown-pop k flag seen seen' good grown j f m = back (grown j f m)
    where
      back : Memᴰ (j, f) ((k, flag) ∷ seen) ⊎ IsGood j f → Memᴰ (j, f) seen ⊎ IsGood j f
      back (inl (Memᴰ.head e)) = inr (subst (λ (m : ℕ × Bool). IsGood m.0 m.1) (sym e) good)
      back (inl (Memᴰ.tail m')) = inl m'
      back (inr g) = inr g

  -- The check of the provider of a key that is not on the stack.
  module _ (stack : List ℕ) (step : Lifetime → ℕ → Seen → Outcome DependencyError Seen) (k : ℕ)
      (owner : Lifetime) (seen seen' : Seen)
      (sound : (lifetime : Lifetime) → Sound (k ∷ stack) (is_singleton lifetime) (step lifetime))
      (out : nat_in k stack ≡ false) (nr : (k == http_request) ≡ false)
      (c : Covered stack seen) where
    old-Good : Memᴰ k stack ⊎ IsGood k (is_singleton owner) → IsGood k (is_singleton owner)
    old-Good (inl m) = elim (true-false (sym (nat_in_of_mem k stack m) ∙ out)) [ ]
    old-Good (inr g) = g

    planned-Good :
        (p : Provider) (deps : List Dependency)
        → describe inspection providers k ≡ ok p
        → (is_scoped p.lifetime && is_singleton owner) ≡ false
        → is_async p.kind ≡ false
        → inspection.parameters p.factory ≡ some deps
        → check_dependencies inspection providers false
            (step (effective owner p.lifetime))
            deps
            ((k, is_singleton owner) ∷ seen)
          ≡ ok seen'
        → IsGood k (is_singleton owner) × Grown seen seen'
    planned-Good p deps described scope_ok sync_ok planned h =
        let (all, grown) =
          check_dependencies-AllGood (k ∷ stack) (is_singleton (effective owner p.lifetime))
            (step (effective owner p.lifetime)) (sound (effective owner p.lifetime)) deps
            ((k, is_singleton owner) ∷ seen) seen' h
            (Covered-push k (is_singleton owner) stack seen c) in
        let good = node k (is_singleton owner) p deps nr described scope_ok sync_ok planned (
          subst (AllGood inspection providers deps) (is_singleton-effective owner p.lifetime)
            all) in
        (good, Grown-pop k (is_singleton owner) seen seen' good grown)

    described-Good :
        (p : Provider)
        → describe inspection providers k ≡ ok p
        → (require (not (is_scoped p.lifetime && is_singleton owner)) captive
            >> (require (false || not (is_async p.kind)) async_factory
                >> (if marked k (is_singleton owner) seen
                    then ok seen
                    else (plan inspection p.factory >>= λ deps.
                        check_dependencies inspection providers false
                          (step (effective owner p.lifetime))
                          deps
                          ((k, is_singleton owner) ∷ seen)))))
          ≡ ok seen'
        → IsGood k (is_singleton owner) × Grown seen seen'
    unfolding plan
    described-Good p described h =
        let body : Outcome DependencyError Seen =
          if marked k (is_singleton owner) seen
          then ok seen
          else (plan inspection p.factory >>= λ deps.
              check_dependencies inspection providers false (step (effective owner p.lifetime)) deps
                ((k, is_singleton owner) ∷ seen)) in
        let (scope_ok, h2) =
          require_ok (not (is_scoped p.lifetime && is_singleton owner)) captive _ seen' h in
        let (sync_ok, h3) =
          require_ok (false || not (is_async p.kind)) async_factory body seen' h2 in
        elim (Bool-cases (marked k (is_singleton owner) seen)) [
          | inl old ↦
              (let same : seen ≡ seen' = ok_injective (rw old at h3) in
                (
                  old-Good (c k (is_singleton owner) (marked_mem k (is_singleton owner) seen old)),
                  λ j f m. inl (subst (λ s. Memᴰ (j, f) s) (sym same) m),
                ))
          | inr new ↦
              (let (deps, planned, h4) =
                  bind_ok (plan inspection p.factory) _ seen' (rw new at h3) in
                planned-Good p deps described (ground arith) (ground arith)
                  (planned_lem inspection p.factory deps planned) h4)
        ]

  check_provider-Good :
      (stack : List ℕ) (step : Lifetime → ℕ → Seen → Outcome DependencyError Seen) (k : ℕ)
      (owner : Lifetime) (seen seen' : Seen)
      → ((lifetime : Lifetime) → Sound (k ∷ stack) (is_singleton lifetime) (step lifetime))
      → nat_in k stack ≡ false
      → (k == http_request) ≡ false
      → Covered stack seen
      → check_provider inspection providers false step k owner seen ≡ ok seen'
      → IsGood k (is_singleton owner) × Grown seen seen'
  unfolding check_provider
  check_provider-Good stack step k owner seen seen' sound out nr c h =
      let (p, described, h1) = bind_ok (describe inspection providers k) _ seen' h in
      described-Good stack step k owner seen seen' sound out nr c p described h1

  -- If the check of a key returns, the key is good, and so is every marker that it added.
  pub check-Good :
      (fuel key : ℕ) (stack : List ℕ) (owner : Lifetime) (seen seen' : Seen)
      → check inspection providers false fuel key stack owner seen ≡ ok seen'
      → Covered stack seen
      → IsGood (inspection.unwrap_annotated key) (is_singleton owner) × Grown seen seen'
  unfolding check
  check-Good zero key stack owner seen seen' h c = cc
  check-Good (suc fuel) key stack owner seen seen' h c =
      let k = inspection.unwrap_annotated key in
      let (out, h1) = unless_ok (nat_in k stack) circular _ seen' h in
      elim (Bool-cases (k == http_request)) [
        | inr nr ↦
            check_provider-Good stack
              (λ lifetime d s. check inspection providers false fuel d (k ∷ stack) lifetime s) k
              owner seen seen'
              (λ lifetime d s s' e cov. check-Good fuel d (k ∷ stack) lifetime s s' e cov) out nr c
              (rw nr at h1)
        | inl r ↦
            (let (free_owner, h2) =
                unless_ok (is_singleton owner) captive (ok seen) seen' (rw r at h1) in
              (
                subst (Good inspection providers k) (sym free_owner) (request k (ground arith)),
                λ j f m. inl (subst (λ s. Memᴰ (j, f) s) (sym (ok_injective h2)) m),
              ))
      ]
