-- ===== src/Dependencies/Graph.antt =====
-- What a checked key is, apart from the search that checks it: a finite tree of providers.
use mathlib.Core.Path.{subst}
use mathlib.Core.List.{Memᴰ}
use ninja_devx.Prelude.{
  ◌∷◌, ℕ, Bool, true, List, ◌≡◌, arith, false, ◌==◌, ok, some, ◌||◌, ◌&&◌, [], refl, none, sym, ◌∙◌,
  ap,
}
use ninja_devx.Prelude.Table.{Table}
use ninja_devx.Dependencies.Defs.{
  Inspection, Provider, Dependency, http_request, wanted, describe, is_registered, is_scoped,
  is_singleton, is_async,
}

pub some_injective {ℓ} : {A : Type ℓ} {a b : A} → some a ≡ some b → a ≡ b
some_injective h = ground arith

none_differs : {a : ℕ} → ¬ (none ≡ some a)
none_differs h = cc

module _ (inspection : Inspection) (providers : Table Provider) where
  mutual
    -- A key that a sync resolution can build: `flag` says that a singleton needs it.
    pub data Good : ℕ → Bool → Type 0 where
      request : (k : ℕ) → k ≡ http_request → Good k false
      node :
          (k : ℕ) (flag : Bool) (p : Provider) (deps : List Dependency)
          → (k == http_request) ≡ false
          → describe inspection providers k ≡ ok p
          → (is_scoped p.lifetime && flag) ≡ false
          → is_async p.kind ≡ false
          → inspection.parameters p.factory ≡ some deps
          → AllGood deps (flag || is_singleton p.lifetime)
          → Good k flag

    pub data AllGood : List Dependency → Bool → Type 0 where
      none_left : (flag : Bool) → AllGood [] flag
      skipped :
          (d : Dependency) (deps : List Dependency) (flag : Bool)
          → wanted inspection (is_registered providers) d ≡ none
          → AllGood deps flag
          → AllGood (d ∷ deps) flag
      needed :
          (d : Dependency) (deps : List Dependency) (flag : Bool) (key : ℕ)
          → wanted inspection (is_registered providers) d ≡ some key
          → Good (inspection.unwrap_annotated key) flag
          → AllGood deps flag
          → AllGood (d ∷ deps) flag

  -- The next key and flag on the way down.
  pub record Edge (k : ℕ) (flag : Bool) (next : ℕ) (next_flag : Bool) : Type 0 where
    pub provider : Provider
    pub deps : List Dependency
    pub dependency : Dependency
    pub key : ℕ
    pub no_request : (k == http_request) ≡ false
    pub described : describe inspection providers k ≡ ok provider
    pub planned : inspection.parameters provider.factory ≡ some deps
    pub listed : Memᴰ dependency deps
    pub injected : wanted inspection (is_registered providers) dependency ≡ some key
    pub to : next ≡ inspection.unwrap_annotated key
    pub to_flag : next_flag ≡ (flag || is_singleton provider.lifetime)

  -- The first key lies below the other one.
  pub data Below (last : ℕ) (last_flag : Bool) : ℕ → Bool → Type 0 where
    one : (k : ℕ) (flag : Bool) → Edge k flag last last_flag → Below last last_flag k flag
    more :
        (k : ℕ) (flag : Bool) (next : ℕ) (next_flag : Bool)
        → Edge k flag next next_flag
        → Below last last_flag next next_flag
        → Below last last_flag k flag

  pub then-Below :
      (b : ℕ) (g : Bool) (c : ℕ) (h : Bool) (a : ℕ) (f : Bool)
      → Below b g a f
      → Below c h b g
      → Below c h a f
  then-Below b g c h a f (one _ _ e) r = more a f b g e r
  then-Below b g c h a f (more _ _ n m e q) r = more a f n m e (then-Below b g c h n m q r)

  -- A way down from a key is one for the key below a singleton.
  Edge-lift : (a b : ℕ) (f g : Bool) → Edge a f b g → Edge a true b true
  Edge-lift a b f g e = record {
    provider = e.provider;
    deps = e.deps;
    dependency = e.dependency;
    key = e.key;
    no_request = e.no_request;
    described = e.described;
    planned = e.planned;
    listed = e.listed;
    injected = e.injected;
    to = e.to;
    to_flag = refl;
  }

  pub Below-lift : (b : ℕ) (g : Bool) (a : ℕ) (f : Bool) → Below b g a f → Below b true a true
  Below-lift b g a f (one _ _ e) = one a true (Edge-lift a b f g e)
  Below-lift b g a f (more _ _ n m e q) =
      more a true n true (Edge-lift a n f m e) (Below-lift b g n m q)

  -- Below a singleton everything is below a singleton.
  pub Below-flag : (b : ℕ) (g : Bool) (a : ℕ) (f : Bool) → Below b g a f → f ≡ true → g ≡ true
  Below-flag b g a f (one _ _ e) h = ground (arith, e.to_flag)
  Below-flag b g a f (more _ _ n m e q) h = Below-flag b g n m q (ground (arith, e.to_flag))

  pub Below-no_request :
      (b : ℕ) (g : Bool) (a : ℕ) (f : Bool) → Below b g a f → (a == http_request) ≡ false
  Below-no_request b g a f (one _ _ e) = e.no_request
  Below-no_request b g a f (more _ _ n m e q) = e.no_request

  -- A cycle, begun at its second key.
  rotate : (k : ℕ) (f : Bool) → Below k f k f → (n : ℕ) × (m : Bool) × Edge k f n m × Below n m n m
  rotate k f (one _ _ e) = (k, f, e, one k f e)
  rotate k f (more _ _ n m e q) = (n, m, e, then-Below k f n m n m q (one k f e))

  mutual
    -- No good key is below itself.
    pub acyclic : (k : ℕ) (f : Bool) → Good k f → ¬ (Below k f k f)
    acyclic k _ (request _ e) b =
        let other : (k == http_request) ≡ false = Below-no_request k false k false b in
        ground (arith, other)
    acyclic k f (node _ _ p deps nr d s a pl all) b =
        let (n, m, e, c) = rotate k f b in
        let same_p : e.provider ≡ p = ground (arith, e.described) in
        let same_deps : e.deps ≡ deps =
          some_injective (sym e.planned ∙ ap (λ q. inspection.parameters q.factory) same_p ∙ pl) in
        let listed : Memᴰ e.dependency deps =
          subst (λ ds. Memᴰ e.dependency ds) same_deps e.listed in
        let flag : m ≡ (f || is_singleton p.lifetime) =
          e.to_flag ∙ ap (λ q. f || is_singleton q.lifetime) same_p in
        acyclic_all deps (f || is_singleton p.lifetime) e.dependency e.key all listed e.injected (
          subst (λ x. Below x (f || is_singleton p.lifetime) x (f || is_singleton p.lifetime)) e.to
            (subst (λ x. Below n x n x) flag c))

    acyclic_all :
        (deps : List Dependency) (f : Bool) (d : Dependency) (key : ℕ)
        → AllGood deps f
        → Memᴰ d deps
        → wanted inspection (is_registered providers) d ≡ some key
        → ¬ (Below (inspection.unwrap_annotated key) f (inspection.unwrap_annotated key) f)
    acyclic_all _ f d key (none_left _) m w b = elim m [ ]
    acyclic_all _ f d key (skipped d' deps _ w' rest) (Memᴰ.head e) w b =
        none_differs (sym w' ∙ ap (wanted inspection (is_registered providers)) (sym e) ∙ w)
    acyclic_all _ f d key (skipped d' deps _ w' rest) (Memᴰ.tail m) w b =
        acyclic_all deps f d key rest m w b
    acyclic_all _ f d key (needed d' deps _ key' w' g rest) (Memᴰ.head e) w b =
        let same : key ≡ key' =
          some_injective (sym w ∙ ap (wanted inspection (is_registered providers)) e ∙ w') in
        acyclic (inspection.unwrap_annotated key') f g (
          subst (λ x. Below (inspection.unwrap_annotated x) f (inspection.unwrap_annotated x) f)
            same b)
    acyclic_all _ f d key (needed d' deps _ key' w' g rest) (Memᴰ.tail m) w b =
        acyclic_all deps f d key rest m w b

  -- The list holds the keys that its keys depend on.
  pub record IsClosed (universe : List ℕ) : Type 0 where
    pub next :
        (k : ℕ) (p : Provider) (deps : List Dependency) (d : Dependency) (key : ℕ)
        → Memᴰ k universe
        → describe inspection providers k ≡ ok p
        → inspection.parameters p.factory ≡ some deps
        → Memᴰ d deps
        → wanted inspection (is_registered providers) d ≡ some key
        → Memᴰ (inspection.unwrap_annotated key) universe
