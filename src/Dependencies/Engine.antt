-- ===== src/Dependencies/Engine.antt =====
-- `ResolutionEngine.resolve`, by recursion on fuel. Objects are numbered in the order of their
-- construction. A resolution outside of a scope has no scope state.
use ninja_devx.Prelude.{
  ℕ, Bool, List, Outcome, ◌∷◌, raise, true, ◌+◌, ◌||◌, ◌>>=◌, if◌then◌else◌, false, suc, not, ◌&&◌,
  none, ok, some, is_none, nat_in, [], zero,
}
use ninja_devx.Prelude.Table.{Table, get, put}
use ninja_devx.Dependencies.Defs.{
  Provider, Inspection, wanted, plan, transient, describe, DependencyError, is_registered,
  out_of_fuel, Dependency, is_generator, is_async, outside_scope, async_factory, pending_build,
  circular, scoped, singleton,
}

-- An object that a factory built from its arguments.
pub record Built : Type 0 where
  pub id : ℕ
  pub factory : ℕ
  pub arguments : List ℕ

-- `ScopeState`: the instances, the keys that an async factory is building, and the generators to
-- close, the last one first.
pub record ScopeState : Type 0 where
  pub instances : Table ℕ
  pub pending : List ℕ
  pub exits : List ℕ

pub record World : Type 0 where
  pub next : ℕ
  pub built : List Built
  pub root : ScopeState
  pub scope : ScopeState

abbrev pub Resolved : Type 0
Resolved = Outcome DependencyError (ℕ × World)

-- The owner of what is built: the scope, or the root of the container.
abbrev pub closes_later : Bool → ℕ → World → World
closes_later true id w = record w { scope = record w.scope { exits = id ∷ w.scope.exits } }
closes_later false id w = record w { root = record w.root { exits = id ∷ w.root.exits } }

-- The call of the factory, entered as a context manager if it is a generator.
unfoldable pub construct : Provider → Bool → List ℕ → World → ℕ × World
construct p in_scope arguments w =
    let w' = record w {
      next = w.next + 1;
      built = record { id = w.next; factory = p.factory; arguments = arguments } ∷ w.built;
    } in
    (w.next, if is_generator p.kind then closes_later in_scope w.next w' else w')

abbrev pub store_singleton : ℕ → ℕ → World → World
store_singleton key id w = record w {
  root = record w.root { instances = put key id w.root.instances };
}

abbrev pub store_scoped : ℕ → ℕ → World → World
store_scoped key id w = record w {
  scope = record w.scope { instances = put key id w.scope.instances };
}

module _ (inspection : Inspection) (providers : Table Provider) where
  -- `Container.is_known`
  unfoldable pub is_known : Bool → World → ℕ → Bool
  unfolding is_registered
  is_known in_scope w key =
      is_registered providers key || (in_scope && not (is_none (get key w.scope.instances)))

  -- `_arguments`; `step` resolves a key.
  unfoldable pub arguments :
      (ℕ → World → Resolved)
      → Bool
      → List Dependency
      → World
      → Outcome DependencyError (List ℕ × World)
  unfolding is_known wanted
  arguments step in_scope [] w = ok ([], w)
  arguments step in_scope (d ∷ deps) w = elim (wanted inspection (is_known in_scope w) d) [
    | none ↦ arguments step in_scope deps w
    | some key ↦ (do
      (id, w1) ← step key w
      (ids, w2) ← arguments step in_scope deps w1
      ok (id ∷ ids, w2))
  ]

  -- `_build`
  unfoldable pub build : (ℕ → World → Resolved) → Provider → Bool → World → Resolved
  unfolding arguments plan construct
  build step p in_scope w = if is_async p.kind then raise async_factory else (do
    deps ← plan inspection p.factory
    (ids, w') ← arguments step in_scope deps w
    ok (construct p in_scope ids w'))

  -- The cases on the lifetime. `step` resolves a key with or without the scope: a singleton never
  -- sees it.
  unfoldable pub provide : (Bool → ℕ → World → Resolved) → ℕ → Provider → Bool → World → Resolved
  unfolding build
  provide step key p in_scope w = elim p.lifetime [
    | transient ↦ build (step in_scope) p in_scope w
    | scoped ↦
        (if not in_scope
          then raise outside_scope
          else if nat_in key w.scope.pending
          then raise pending_build
          else elim (get key w.scope.instances) [
            | some id ↦ ok (id, w)
            | none ↦ (do (id, w') ← build (step true) p true w; ok (id, store_scoped key id w'))
          ])
    | singleton ↦ elim (get key w.root.instances) [
      | some id ↦ ok (id, w)
      | none ↦
          (if nat_in key w.root.pending
            then raise pending_build
            else (do (id, w') ← build (step false) p false w; ok (id, store_singleton key id w')))
    ]
  ]

  -- What is left of `resolve` once the stack is tested.
  unfoldable pub resolve_key : (Bool → ℕ → World → Resolved) → ℕ → Bool → World → Resolved
  unfolding provide describe
  resolve_key step key in_scope w =
      let fresh = (do p ← describe inspection providers key; provide step key p in_scope w) in
      elim (get key w.scope.instances) [
        | none ↦ fresh
        | some id ↦ (if in_scope then ok (id, w) else fresh)
      ]

  unfoldable pub resolve : ℕ → ℕ → List ℕ → Bool → World → Resolved
  unfolding resolve_key
  resolve zero key stack in_scope w = raise out_of_fuel
  resolve (suc fuel) key stack in_scope w =
      let k = inspection.unwrap_annotated key in
      if nat_in k stack
      then raise circular
      else resolve_key (λ scope d w'. resolve fuel d (k ∷ stack) scope w') k in_scope w
