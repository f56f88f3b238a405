-- ===== src/Dependencies/Provides.antt =====
-- One provider at a time: the cases on a lifetime, and a request of the request itself.
use ninja_devx.Prelude.{
  ℕ, Bool, [], ◌∙◌, Outcome, ◌≡◌, true, List, some, ◌≤◌, ◌>>=◌, nat_in, false, ◌&&◌, ok, not, arith,
  ◌||◌, suc, zero, refl, if◌then◌else◌, Option-cases, inr, ◌==◌, Bool-cases, inl, sym, none, ◌≢◌,
}
use ninja_devx.Prelude.Table.{Table, get, get-put}
use ninja_devx.Dependencies.Defs.{
  Provider, Inspection, http_request, DependencyError, is_registered, Lifetime, is_scoped,
  is_singleton, transient, scoped, singleton, plan, describe, autowire, Dependency, is_async,
}
use ninja_devx.Dependencies.Engine.{
  provide, resolve, World, Resolved, resolve_key, store_scoped, build, store_singleton, arguments,
  construct,
}
use ninja_devx.Dependencies.Scopes.{Returned, Ready, construct-Ready}

pub none_differs : {a : ℕ} → none ≢ some a
none_differs h = cc

pub Returned-bind :
    {A B : Type 0} (providers : Table Provider) (o : Outcome DependencyError (A × World))
    (k : A × World → Outcome DependencyError (B × World))
    → Returned providers o
    → ((a : A) (w : World) → Ready providers w → Returned providers (k (a, w)))
    → Returned providers (o >>= k)
Returned-bind providers o k (a, w, e, ready) next = rw e (next a w ready)

module _ (inspection : Inspection) (providers : Table Provider)
    (request_is_class : inspection.unwrap_annotated http_request ≡ http_request) where
  -- An instance of the scope is the result.
  found_in_scope :
      (fuel key : ℕ) (stack : List ℕ) (id : ℕ) (w : World)
      → 1 ≤ fuel
      → nat_in (inspection.unwrap_annotated key) stack ≡ false
      → get (inspection.unwrap_annotated key) w.scope.instances ≡ some id
      → resolve inspection providers fuel key stack true w ≡ ok (id, w)
  unfolding resolve resolve_key
  found_in_scope zero key stack id w h out e = ground arith
  found_in_scope (suc fuel) key stack id w h out e = rw out (rw (e, resolve_key) refl)

  store_scoped-Ready :
      (k id : ℕ) (w : World)
      → is_registered providers k ≡ true
      → Ready providers w
      → Ready providers (store_scoped k id w)
  store_scoped-Ready k id w r ready = record {
    request_id = if k == http_request then id else ready.request_id;
    has_request = ground (arith, get-put k http_request id w.scope.instances, ready.has_request);
    values = λ j i h. elim (Bool-cases (k == j)) [
      | inl same ↦ (let key : k ≡ j = ground arith in inr (rw (sym key) r))
      | inr other ↦ ready.values j i (rw other at (sym (get-put k j id w.scope.instances) ∙ h))
    ];
    root_idle = ready.root_idle;
    scope_idle = ready.scope_idle;
  }

  store_singleton-Ready :
      (k id : ℕ) (w : World) → Ready providers w → Ready providers (store_singleton k id w)
  store_singleton-Ready k id w ready = record {
    request_id = ready.request_id;
    has_request = ready.has_request;
    values = ready.values;
    root_idle = ready.root_idle;
    scope_idle = ready.scope_idle;
  }

  idle : (k : ℕ) (pending : List ℕ) → pending ≡ [] → nat_in k pending ≡ false
  unfolding nat_in
  idle k pending h = rw h refl

  pub provide-Returned :
      (step : Bool → ℕ → World → Resolved) (k : ℕ) (p : Provider) (f : Bool) (w : World)
      (l : Lifetime)
      → (p.lifetime ≡ scoped → is_registered providers k ≡ true)
      → (is_scoped p.lifetime && f) ≡ false
      → Ready providers w
      → p.lifetime ≡ l
      → Returned providers (
          build inspection providers
            (step (not (f || is_singleton l)))
            p
            (not (f || is_singleton l))
            w)
      → Returned providers (provide inspection providers step k p (not f) w)
  unfolding provide
  provide-Returned step k p true w transient e s ready l built = rw (l, provide) built
  provide-Returned step k p false w transient e s ready l built = rw (l, provide) built
  provide-Returned step k p true w scoped e s ready l built =
      let is : is_scoped p.lifetime ≡ true = rw l refl in ground (arith, is)
  provide-Returned step k p false w scoped e s ready l built =
      elim (Option-cases (get k w.scope.instances)) [
        | inr (id, h) ↦
            rw (l, provide)
              (rw (idle k w.scope.pending ready.scope_idle) (rw (h, provide) (id, w, refl, ready)))
        | inl h ↦
            rw (l, provide)
              (rw (idle k w.scope.pending ready.scope_idle) (
                rw (h, provide)
                  (Returned-bind providers (build inspection providers (step true) p true w) _ built
                    (λ id w' r.
                      (id, store_scoped k id w', refl, store_scoped-Ready k id w' (e l) r)))))
      ]
  provide-Returned step k p f w singleton e s ready l built =
      elim (Option-cases (get k w.root.instances)) [
        | inr (id, h) ↦ rw (l, provide) (rw (h, provide) (id, w, refl, ready))
        | inl h ↦
            rw (l, provide)
              (rw (h, provide)
                (rw (idle k w.root.pending ready.root_idle) (
                  Returned-bind providers (build inspection providers (step false) p false w) _
                    (below f built)
                    (λ id w' r.
                      (id, store_singleton k id w', refl, store_singleton-Ready k id w' r)))))
      ]
    where
      below :
          (f : Bool)
          → Returned providers
              (build inspection providers (step (not (f || true))) p (not (f || true)) w)
          → Returned providers (build inspection providers (step false) p false w)
      below true b = b
      below false b = b

  pub build-Returned :
      (step : ℕ → World → Resolved) (p : Provider) (b : Bool) (deps : List Dependency) (w : World)
      → is_async p.kind ≡ false
      → inspection.parameters p.factory ≡ some deps
      → Returned providers (arguments inspection providers step b deps w)
      → Returned providers (build inspection providers step p b w)
  unfolding build plan
  build-Returned step p b deps w a e done = rw a (
      rw (e, plan)
        (Returned-bind providers (arguments inspection providers step b deps w) _ done (λ ids w' r.
          (
            (construct p b ids w').0,
            (construct p b ids w').1,
            refl,
            construct-Ready inspection providers request_is_class p b ids w' r,
          ))))

  pub resolve_key-Returned :
      (step : Bool → ℕ → World → Resolved) (k : ℕ) (p : Provider) (b : Bool) (w : World)
      → describe inspection providers k ≡ ok p
      → Ready providers w
      → Returned providers (provide inspection providers step k p b w)
      → Returned providers (resolve_key inspection providers step k b w)
  unfolding resolve_key
  resolve_key-Returned step k p b w d ready done = elim (Option-cases (get k w.scope.instances)) [
    | inl e ↦ rw (e, resolve_key) (rw d done)
    | inr (id, e) ↦ elim (Bool-cases b) [
      | inl t ↦ rw (e, resolve_key) (rw t (id, w, refl, ready))
      | inr f ↦ rw (e, resolve_key) (rw d (pick b id f done))
    ]
  ]
    where
      pick :
          (b : Bool) (id : ℕ)
          → b ≡ false
          → Returned providers (provide inspection providers step k p b w)
          → Returned providers (if b then ok (id, w) else provide inspection providers step k p b w)
      pick true id h r = cc
      pick false id h r = r

  pub describe_scoped :
      (k : ℕ) (p : Provider)
      → describe inspection providers k ≡ ok p
      → p.lifetime ≡ scoped
      → is_registered providers k ≡ true
  unfolding describe is_registered autowire
  describe_scoped k p d l = ground arith

  pub resolve-request :
      (fuel key : ℕ) (stack : List ℕ) (b : Bool) (w : World)
      → 1 ≤ fuel
      → inspection.unwrap_annotated key ≡ http_request
      → nat_in http_request stack ≡ false
      → b ≡ true
      → Ready providers w
      → Returned providers (resolve inspection providers fuel key stack b w)
  resolve-request fuel key stack b w h u out t ready = (
    ready.request_id,
    w,
    rw t (found_in_scope fuel key stack ready.request_id w h (rw u out) (rw u ready.has_request)),
    ready,
  )
