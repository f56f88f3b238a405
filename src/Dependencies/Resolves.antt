-- ===== src/Dependencies/Resolves.antt =====
-- A good key resolves: the engine meets no error on the way.
use mathlib.Core.List.{Memᴰ}
use ninja_devx.Dependencies.Graph.{
  Good, AllGood, request, node, none_left, skipped, needed, Edge, one, then-Below, IsClosed,
}
use ninja_devx.Prelude.{
  ℕ, Bool, ◌∷◌, [], ◌∙◌, ◌≡◌, true, List, some, nat_in, false, not, arith, ◌||◌, suc, zero, refl,
  inr, ◌==◌, inl, sym, ◌<◌, none, free, free-cons-lt,
}
use ninja_devx.Prelude.Table.{Table}
use ninja_devx.Dependencies.Defs.{
  Provider, Inspection, http_request, is_registered, is_singleton, Dependency, wanted,
}
use ninja_devx.Dependencies.Engine.{resolve, World, Resolved, resolve_key, arguments, is_known}
use ninja_devx.Dependencies.Scopes.{Returned, Ready, OnPath, not_on_stack, known_cases}
use ninja_devx.Dependencies.Provides.{
  Returned-bind, none_differs, resolve_key-Returned, provide-Returned, build-Returned,
  describe_scoped, resolve-request,
}

module _ (inspection : Inspection) (providers : Table Provider)
    (request_is_class : inspection.unwrap_annotated http_request ≡ http_request) where
  -- What the check wants is wanted.
  needed_key :
      (d : Dependency) (key : ℕ) (w : World) (f : Bool)
      → wanted inspection (is_registered providers) d ≡ some key
      → Ready providers w
      → wanted inspection (is_known inspection providers (not f) w) d ≡ some key
  needed_key d key w f e ready =
      elim (known_cases inspection providers request_is_class d (not f) w ready) [
        | inl same ↦ same ∙ e
        | inr (n, t, x) ↦ elim (none_differs (sym n ∙ e)) [ ]
      ]

  arguments-skip :
      (step : ℕ → World → Resolved) (b : Bool) (d : Dependency) (deps : List Dependency) (w : World)
      → wanted inspection (is_known inspection providers b w) d ≡ none
      → Returned providers (arguments inspection providers step b deps w)
      → Returned providers (arguments inspection providers step b (d ∷ deps) w)
  unfolding arguments
  arguments-skip step b d deps w e done = rw (e, arguments) done

  arguments-step :
      (step : ℕ → World → Resolved) (b : Bool) (d : Dependency) (deps : List Dependency) (w : World)
      (key : ℕ)
      → wanted inspection (is_known inspection providers b w) d ≡ some key
      → Returned providers (step key w)
      → ((w' : World)
          → Ready providers w'
          → Returned providers (arguments inspection providers step b deps w'))
      → Returned providers (arguments inspection providers step b (d ∷ deps) w)
  unfolding arguments
  arguments-step step b d deps w key e first rest =
      rw (e, arguments)
        (Returned-bind providers (step key w) _ first (λ id w1 r1.
          Returned-bind providers (arguments inspection providers step b deps w1) _ (rest w1 r1)
            (λ ids w2 r2. (id ∷ ids, w2, refl, r2))))

  resolve-step :
      (fuel key k : ℕ) (stack : List ℕ) (b : Bool) (w : World)
      → inspection.unwrap_annotated key ≡ k
      → nat_in k stack ≡ false
      → Returned providers (
          resolve_key inspection providers
            (λ scope d w'. resolve inspection providers fuel d (k ∷ stack) scope w')
            k
            b
            w)
      → Returned providers (resolve inspection providers (suc fuel) key stack b w)
  unfolding resolve
  resolve-step fuel key k stack b w u out done = rw u (rw out done)

  abbrev Trail : List ℕ → ℕ → Bool → Type 0
  Trail = OnPath inspection providers request_is_class

  -- The trail of a dependency.
  Trail-push :
      (k : ℕ) (f : Bool) (stack : List ℕ) (next : ℕ) (g : Bool)
      → Edge inspection providers k f next g
      → Trail stack k f
      → Trail (k ∷ stack) next g
  Trail-push k f stack next g e trail s (Memᴰ.head h) = (f, rw h (one k f e))
  Trail-push k f stack next g e trail s (Memᴰ.tail m) =
      let (fs, b) = trail s m in (fs, then-Below inspection providers k f next g s fs b (one k f e))

  out-cons :
      (k : ℕ) (stack : List ℕ)
      → (k == http_request) ≡ false
      → nat_in http_request stack ≡ false
      → nat_in http_request (k ∷ stack) ≡ false
  unfolding nat_in
  out-cons k stack n out = ground arith

  -- The keys in reach bound the depth of the recursion.
  module _ (universe : List ℕ) (closed : IsClosed inspection providers universe) where
    mutual
      unfolding arguments

      pub resolve-Returned :
          (k : ℕ) (f : Bool) (good : Good inspection providers k f) (fuel key : ℕ) (stack : List ℕ)
          (w : World)
          → free stack universe < fuel
          → Memᴰ k universe
          → inspection.unwrap_annotated key ≡ k
          → Trail stack k f
          → nat_in http_request stack ≡ false
          → Ready providers w
          → Returned providers (resolve inspection providers fuel key stack (not f) w)
      resolve-Returned k _ (request _ e) fuel key stack w h m0 u trail out ready =
          resolve-request inspection providers request_is_class fuel key stack true w
            (omega (arith, h)) (u ∙ e) out refl ready
      resolve-Returned k f (node _ _ p deps nr d s a pl all) zero key stack w h m0 u trail out
            ready =
          ground arith
      resolve-Returned k f (node _ _ p deps nr d s a pl all) (suc fuel) key stack w h m0 u trail out
            ready =
          let off : nat_in k stack ≡ false =
            not_on_stack inspection providers request_is_class stack k f
              (node k f p deps nr d s a pl all) trail in
          resolve-step fuel key k stack (not f) w u off (
            resolve_key-Returned inspection providers request_is_class _ k p (not f) w d ready (
              provide-Returned inspection providers request_is_class _ k p f w p.lifetime
                (describe_scoped inspection providers request_is_class k p d) s ready refl
                (build-Returned inspection providers request_is_class _ p
                  (not (f || is_singleton p.lifetime)) deps w a pl
                  (arguments-Returned deps (f || is_singleton p.lifetime) all fuel (k ∷ stack) w
                    (omega (arith, h, free-cons-lt k stack universe m0 off))
                    (λ d' key' m wnt. (
                      closed.next k p deps d' key' m0 d pl m wnt,
                      Trail-push k f stack _ _
                          (record {
                            provider = p;
                            deps = deps;
                            dependency = d';
                            key = key';
                            no_request = nr;
                            described = d;
                            planned = pl;
                            listed = m;
                            injected = wnt;
                            to = refl;
                            to_flag = refl;
                          })
                          trail,
                    ))
                    (out-cons k stack nr out) ready))))

      arguments-Returned :
          (deps : List Dependency) (f : Bool) (all : AllGood inspection providers deps f) (fuel : ℕ)
          (stack : List ℕ) (w : World)
          → free stack universe < fuel
          → ((d : Dependency) (key : ℕ)
              → Memᴰ d deps
              → wanted inspection (is_registered providers) d ≡ some key
              → Memᴰ (inspection.unwrap_annotated key) universe
                × Trail stack (inspection.unwrap_annotated key) f)
          → nat_in http_request stack ≡ false
          → Ready providers w
          → Returned providers (
              arguments inspection providers
                (λ d w'. resolve inspection providers fuel d stack (not f) w')
                (not f)
                deps
                w)
      arguments-Returned _ f (none_left _) fuel stack w h trail out ready = ([], w, refl, ready)
      arguments-Returned _ f (skipped d deps _ e rest) fuel stack w h trail out ready =
          elim (known_cases inspection providers request_is_class d (not f) w ready) [
            | inl same ↦ arguments-skip _ (not f) d deps w (same ∙ e) (
                arguments-Returned deps f rest fuel stack w h
                  (λ d' key' m. trail d' key' (Memᴰ.tail m)) out ready)
            | inr (n, t, x) ↦
                arguments-step _ (not f) d deps w http_request x
                  (resolve-request inspection providers request_is_class fuel http_request stack
                    (not f) w (omega (arith, h)) request_is_class out t ready)
                  (λ w' r.
                    arguments-Returned deps f rest fuel stack w' h
                      (λ d' key' m. trail d' key' (Memᴰ.tail m)) out r)
          ]
      arguments-Returned _ f (needed d deps _ key e good rest) fuel stack w h trail out ready =
          arguments-step _ (not f) d deps w key (needed_key d key w f e ready)
            (resolve-Returned (inspection.unwrap_annotated key) f good fuel key stack w h
              (trail d key (Memᴰ.head refl) e).0 refl (trail d key (Memᴰ.head refl) e).1 out ready)
            (λ w' r.
              arguments-Returned deps f rest fuel stack w' h
                (λ d' key' m. trail d' key' (Memᴰ.tail m)) out r)
