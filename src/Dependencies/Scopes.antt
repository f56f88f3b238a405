-- ===== src/Dependencies/Scopes.antt =====
-- Lemmas on the way to a resolution: the state of a scope, and the stack.
use mathlib.Core.List.{Memᴰ}
use ninja_devx.Dependencies.Graph.{Good}
use ninja_devx.Prelude.{
  ℕ, Bool, ◌∷◌, [], Outcome, ◌≡◌, ok, List, some, ◌==◌, nat_in, true, ◌+◌, false, ◌⊎◌, Bool-cases,
  none, inr, inl, nat_in_mem, refl, ◌&&◌, not, is_none, Option-cases, arith, ap,
}
use ninja_devx.Prelude.Table.{Table, get}
use ninja_devx.Dependencies.Defs.{
  Inspection, Provider, http_request, DependencyError, wanted, Dependency, is_registered,
  is_generator,
}
use ninja_devx.Dependencies.Engine.{World, construct, is_known, closes_later}
use ninja_devx.Dependencies.Graph.{Good, Below, acyclic, Below-lift, Below-flag}

-- The state of a request's scope: it has the request, its other values are those of registered
-- keys, and no async factory is at work.
pub record Ready (providers : Table Provider) (w : World) : Type 0 where
  pub request_id : ℕ
  pub has_request : get http_request w.scope.instances ≡ some request_id
  pub values :
      (k id : ℕ)
      → get k w.scope.instances ≡ some id
      → ((k == http_request) ≡ true) ⊎ (is_registered providers k ≡ true)
  pub root_idle : w.root.pending ≡ []
  pub scope_idle : w.scope.pending ≡ []

-- A call returned, in a state that is ready.
abbrev pub Returned : {A : Type 0} → Table Provider → Outcome DependencyError (A × World) → Type 0
Returned {A} providers o = (a : A) × (w : World) × (o ≡ ok (a, w)) × Ready providers w

module _ (inspection : Inspection) (providers : Table Provider)
    (request_is_class : inspection.unwrap_annotated http_request ≡ http_request) where
  -- Every key on the stack has the key below it.
  abbrev pub OnPath : List ℕ → ℕ → Bool → Type 0
  OnPath stack k f = (s : ℕ) → Memᴰ s stack → (fs : Bool) × Below inspection providers k f s fs

  pub not_on_stack :
      (stack : List ℕ) (k : ℕ) (f : Bool)
      → Good inspection providers k f
      → OnPath stack k f
      → nat_in k stack ≡ false
  not_on_stack stack k f good path = elim (Bool-cases (nat_in k stack)) [
    | inr out ↦ out
    | inl on ↦ (let (fs, b) = path k (nat_in_mem k stack on) in elim (no_cycle k f fs good b) [ ])
  ]
    where
      no_cycle :
          (k : ℕ) (f fs : Bool)
          → Good inspection providers k f
          → Below inspection providers k f k fs
          → ⊥
      no_cycle k true fs good b =
          acyclic inspection providers k true good (Below-lift inspection providers k true k fs b)
      no_cycle k false false good b = acyclic inspection providers k false good b
      no_cycle k false true good b =
          let flag : false ≡ true = Below-flag inspection providers k false k true b refl in cc

  -- The keys that a resolution looks for beyond those of the check: the request itself.
  pub known_cases :
      (d : Dependency) (b : Bool) (w : World)
      → Ready providers w
      → (wanted inspection (is_known inspection providers b w) d
          ≡ wanted inspection (is_registered providers) d)
        ⊎ ((wanted inspection (is_registered providers) d ≡ none)
            × (b ≡ true)
            × (wanted inspection (is_known inspection providers b w) d ≡ some http_request))
  unfolding wanted is_known
  known_cases d b w ready = elim (Bool-cases d.has_default) [
    | inr h ↦ inl (rw h refl)
    | inl h ↦ elim (Bool-cases (is_registered providers (inspection.without_none d.key))) [
      | inl r ↦ inl (rw h (rw r refl))
      | inr r ↦
          elim (Bool-cases
            (b && not (is_none (get (inspection.without_none d.key) w.scope.instances)))) [
              | inr s ↦ inl (rw h (rw r (rw s refl)))
              | inl s ↦
                  elim (Option-cases (get (inspection.without_none d.key) w.scope.instances)) [
                    | inl e ↦ ground arith
                    | inr (id, e) ↦ elim (ready.values (inspection.without_none d.key) id e) [
                      | inr r' ↦ ground arith
                      | inl q ↦
                          (let key : inspection.without_none d.key ≡ http_request = ground arith in
                            inr (rw h (rw r refl), ground arith, rw h (rw r (rw s (ap some key)))))
                    ]
                  ]
            ]
    ]
  ]

  pub construct-Ready :
      (p : Provider) (b : Bool) (ids : List ℕ) (w : World)
      → Ready providers w
      → Ready providers (construct p b ids w).1
  unfolding construct
  construct-Ready p b ids w ready = elim (Bool-cases (is_generator p.kind)) [
    | inr h ↦ rw h (record {
      request_id = ready.request_id;
      has_request = ready.has_request;
      values = ready.values;
      root_idle = ready.root_idle;
      scope_idle = ready.scope_idle;
    })
    | inl h ↦ rw h (closed b)
  ]
    where
      closed :
          (b : Bool)
          → Ready providers (
              closes_later b w.next (record w {
                next = w.next + 1;
                built = record { id = w.next; factory = p.factory; arguments = ids } ∷ w.built;
              }))
      closed true = record {
        request_id = ready.request_id;
        has_request = ready.has_request;
        values = ready.values;
        root_idle = ready.root_idle;
        scope_idle = ready.scope_idle;
      }
      closed false = record {
        request_id = ready.request_id;
        has_request = ready.has_request;
        values = ready.values;
        root_idle = ready.root_idle;
        scope_idle = ready.scope_idle;
      }
