-- ===== src/Transitions/Listing.antt =====
-- `GET /{pk}/transitions` against `POST /{pk}/<name>`.
use ninja_devx.Prelude.{
  Text, Outcome, List, ◌≡◌, some, ◌∷◌, raise, ok, true, ◌⊎◌, [], inl, refl, inr, Bool, Option,
  if◌then◌else◌, false, ◌>>=◌, ◌>>◌, is_none, not, none, arith, sym, ◌≢◌, ◌∙◌,
}
use ninja_devx.Permissions.{Permission, Error}
use ninja_devx.Permissions.{denied, check_object_permissions, check_each, raise_denied}
use ninja_devx.Transitions.Defs.{
  StateField, Transition, all_pass, allowed_transitions, transition_allowed, combine,
}

pub data Shown (name : Text) : List Text → Type 0 where
  first : {names : List Text} → Shown name (name ∷ names)
  later : {other : Text} {names : List Text} → Shown name names → Shown name (other ∷ names)

-- The transition of a name.
pub data Declared {R O : Type 0} (name : Text) (config : Transition R O)
    : List (Text × Transition R O) → Type 0 where
  declared : {rest : List (Text × Transition R O)} → Declared name config ((name, config) ∷ rest)
  further :
      {other : Text × Transition R O} {rest : List (Text × Transition R O)}
      → Declared name config rest
      → Declared name config (other ∷ rest)

module _ {R O : Type 0} where
  pass-check :
      (o : Outcome Error (Option (Permission R O))) (passes : Outcome Error Bool)
      (checks : Outcome Error (Unit {0}))
      → (passes ≡ ok true → checks ≡ ok tt)
      → (o >>= λ refused. if is_none refused then passes else ok false) ≡ ok true
      → (o >>= λ refused. raise_denied refused >> checks) ≡ ok tt
  pass-check (raise e) passes checks next h = cc
  pass-check (ok none) passes checks next h = next h
  pass-check (ok (some q)) passes checks next h = cc

  check-pass :
      (o : Outcome Error (Option (Permission R O))) (passes : Outcome Error Bool)
      (checks : Outcome Error (Unit {0}))
      → (checks ≡ ok tt → passes ≡ ok true)
      → (o >>= λ refused. raise_denied refused >> checks) ≡ ok tt
      → (o >>= λ refused. if is_none refused then passes else ok false) ≡ ok true
  check-pass (raise e) passes checks next h = cc
  check-pass (ok none) passes checks next h = next h
  check-pass (ok (some q)) passes checks next h = cc

  all_pass-check_each :
      (ps : List (Permission R O)) (request : R) (instance : O)
      → all_pass ps request instance ≡ ok true
      → check_each ps request (some instance) ≡ ok tt
  unfolding all_pass check_each
  all_pass-check_each [] request instance h = refl
  all_pass-check_each (p ∷ ps) request instance h =
      pass-check (denied p request (some instance)) _ _ (all_pass-check_each ps request instance) h

  check_each-all_pass :
      (ps : List (Permission R O)) (request : R) (instance : O)
      → check_each ps request (some instance) ≡ ok tt
      → all_pass ps request instance ≡ ok true
  unfolding all_pass check_each
  check_each-all_pass [] request instance h = refl
  check_each-all_pass (p ∷ ps) request instance h =
      check-pass (denied p request (some instance)) _ _ (check_each-all_pass ps request instance) h

-- How one round of `allowed_transitions` makes its names from the later ones.
data Round (name : Text) (allowed : Bool) (passes : Outcome Error Bool)
    (others : Outcome Error (List Text)) (names : List Text) : Type 0 where
  skipped : allowed ≡ false → others ≡ ok names → Round name allowed passes others names
  refused : passes ≡ ok false → others ≡ ok names → Round name allowed passes others names
  added :
      (rest : List Text)
      → allowed ≡ true
      → passes ≡ ok true
      → others ≡ ok rest
      → names ≡ name ∷ rest
      → Round name allowed passes others names

round :
    (name : Text) (allowed : Bool) (passes : Outcome Error Bool)
    (others : Outcome Error (List Text)) (names : List Text)
    → (if not allowed
        then others
        else passes >>= λ p. others >>= λ ns. ok (if p then name ∷ ns else ns))
      ≡ ok names
    → Round name allowed passes others names
round name false passes others names h = skipped refl h
round name true (raise e) others names h = cc
round name true (ok p) (raise e) names h = cc
round name true (ok false) (ok rest) names h = refused refl h
round name true (ok true) (ok rest) names h = added rest refl refl refl (ground arith)

true-false : true ≢ false
true-false h = cc

ok_differs : ◌≢◌ {A = Outcome Error Bool} (ok true) (ok false)
ok_differs h = cc

not_shown : {A : Type 0} (name : Text) → Shown name [] → A
not_shown name s = elim s [ ]

Shown-cons :
    (name other : Text) (names : List Text)
    → Shown name (other ∷ names)
    → (other ≡ name) ⊎ Shown name names
Shown-cons name _ names first = inl refl
Shown-cons name other names (later s) = inr s

module _ {R O : Type 0} (field : StateField O) (base : List (Permission R O)) (request : R)
    (instance : O) where
  -- The state and the guard allow a transition, and the permissions let the object pass.
  pub record IsAvailable (config : Transition R O) : Type 0 where
    pub allowed : transition_allowed field request instance config ≡ true
    pub passes : check_object_permissions (combine base config.permissions) request instance ≡ ok tt

  widen :
      (other : Text × Transition R O) (ts : List (Text × Transition R O)) (name : Text)
      → (config : Transition R O) × Declared name config ts × IsAvailable config
      → (config : Transition R O) × Declared name config (other ∷ ts) × IsAvailable config
  widen other ts name (config, d, a) = (config, further d, a)

  pub Shown-IsAvailable :
      (ts : List (Text × Transition R O)) (names : List Text) (name : Text)
      → allowed_transitions field base ts request instance ≡ ok names
      → Shown name names
      → (config : Transition R O) × Declared name config ts × IsAvailable config
  unfolding allowed_transitions check_object_permissions
  Shown-IsAvailable [] names name h s =
      let empty : names ≡ [] = ground arith in not_shown name (rw (sym empty) s)
  Shown-IsAvailable ((other, config) ∷ ts) names name h s =
      let deeper : allowed_transitions field base ts request instance ≡ ok names
          → (c : Transition R O) × Declared name c ((other, config) ∷ ts) × IsAvailable c =
        λ f. widen (other, config) ts name (Shown-IsAvailable ts names name f s) in
      elim (round other _ _ (allowed_transitions field base ts request instance) names h) [
        | skipped n f ↦ deeper f
        | refused n f ↦ deeper f
        | added rest a p f e ↦ elim (Shown-cons name other rest (rw (sym e) s)) [
          | inr s' ↦ widen (other, config) ts name (Shown-IsAvailable ts rest name f s')
          | inl same ↦ (
            config,
            rw (sym same) declared,
            record {
              allowed = a;
              passes = all_pass-check_each (combine base config.permissions) request instance p;
            },
          )
        ]
      ]

  pub IsAvailable-Shown :
      (ts : List (Text × Transition R O)) (names : List Text) (name : Text)
      (config : Transition R O)
      → allowed_transitions field base ts request instance ≡ ok names
      → Declared name config ts
      → IsAvailable config
      → Shown name names
  unfolding allowed_transitions check_object_permissions
  IsAvailable-Shown [] names name config h d a = elim d [ ]
  IsAvailable-Shown ((_, _) ∷ ts) names name config h declared a =
      let p = check_each-all_pass (combine base config.permissions) request instance a.passes in
      elim (round name _ _ (allowed_transitions field base ts request instance) names h) [
        | skipped n f ↦ elim (true-false (sym a.allowed ∙ n)) [ ]
        | refused n f ↦ elim (ok_differs (sym p ∙ n)) [ ]
        | added rest b q f e ↦ rw e first
      ]
  IsAvailable-Shown ((other, c) ∷ ts) names name config h (further d) a =
      elim (round other _ _ (allowed_transitions field base ts request instance) names h) [
        | skipped n f ↦ IsAvailable-Shown ts names name config f d a
        | refused n f ↦ IsAvailable-Shown ts names name config f d a
        | added rest b q f e ↦ rw e (later (IsAvailable-Shown ts rest name config f d a))
      ]
