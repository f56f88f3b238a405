-- ===== src/Transitions/Defs.antt =====
-- `Transition`, `TransitionsMixin` and `get_object`. The rows of the model are a table; the state
-- field is read and written by functions that are given.
use ninja_devx.Prelude.{
  ℕ, Outcome, Bool, Text, List, Option, ok, none, text_in, ◌∷◌, ◌>>=◌, if◌then◌else◌, true, [],
  ◌&&◌, some, not, raise, ◌>>◌, is_none, false,
}
use ninja_devx.Prelude.Table.{Table, get, put}
use ninja_devx.Permissions.{Permission, Error}
use ninja_devx.Permissions.{denied, check_object_permissions}

-- A hook works on the instance and the table, in the transaction; it may raise.
abbrev pub Hook : Type 0 → Type 0 → Type 0
Hook R O = R → ℕ → O → Table O → Outcome Error (Table O)

pub record Transition (R O : Type 0) : Type 0 where
  pub source : List Text
  pub target : Text
  pub permissions : List (Permission R O)
  pub guard : Option (R → O → Bool)
  pub on_transition : Option (Hook R O)

pub data TransitionError : Type 0 where
  not_found : TransitionError
  invalid_transition : Text → Text → TransitionError
  raised_error : Error → TransitionError

-- An error of the permissions or of a hook leaves the operation.
unfoldable pub lifted : {A : Type 0} → Outcome Error A → Outcome TransitionError A
lifted (ok a) = ok a
lifted (raise e) = raise (raised_error e)

-- `state_field` of an instance, and `setattr` with `save(update_fields=[field])`.
pub record StateField (O : Type 0) : Type 0 where
  pub state : O → Text
  pub with_state : Text → O → O

-- `(*base, *config.permissions)`
unfoldable pub combine : {A : Type 0} → List A → List A → List A
combine [] ys = ys
combine (x ∷ xs) ys = let zs = combine xs ys in x ∷ zs

module _ {R O : Type 0} where
  -- `all(denied(...) is None for permission in combined)`
  unfoldable pub all_pass : List (Permission R O) → R → O → Outcome Error Bool
  all_pass [] request instance = ok true
  all_pass (p ∷ ps) request instance = do
    refused ← denied p request (some instance)
    if is_none refused then all_pass ps request instance else ok false

module _ {R O : Type 0} (field : StateField O) where
  abbrev pub guard_holds : Transition R O → R → O → Bool
  guard_holds config request instance = elim config.guard [
    | none ↦ true
    | some guard ↦ guard request instance
  ]

  unfoldable pub transition_allowed : R → O → Transition R O → Bool
  transition_allowed request instance config =
      text_in (field.state instance) config.source && guard_holds config request instance

  abbrev pub run_hook : Option (Hook R O) → R → ℕ → O → Table O → Outcome Error (Table O)
  run_hook none request pk instance rows = ok rows
  run_hook (some hook) request pk instance rows = hook request pk instance rows

  -- `perform_transition` on the instance at a key; `after` is the `on_transition` of the
  -- controller.
  unfoldable pub perform_transition :
      Hook R O → R → ℕ → O → Text → Transition R O → Table O → Outcome TransitionError (O × Table O)
  unfolding transition_allowed
  perform_transition after request pk instance name config rows =
      let updated = field.with_state config.target instance in
      if transition_allowed request instance config
      then (do
        rows' ← lifted (run_hook config.on_transition request pk updated (put pk updated rows))
        rows'' ← lifted (after request pk updated rows')
        ok (updated, rows''))
      else raise (invalid_transition name (field.state instance))

  -- `get_object`: the row in the scope of the request, once the permissions of the operation let
  -- it pass.
  unfoldable pub get_object :
      (R → O → Bool) → List (Permission R O) → R → ℕ → Table O → Outcome TransitionError O
  get_object in_scope bound request pk rows = elim (get pk rows) [
    | none ↦ raise not_found
    | some instance ↦
        (if in_scope request instance
          then (do lifted (check_object_permissions bound request instance); ok instance)
          else raise not_found)
  ]

  -- `refresh`: the stored row must still be in the scope of the request and pass the permissions of
  -- the operation; it is the result if the setting says so.
  unfoldable pub refresh :
      Bool
      → (R → O → Bool)
      → List (Permission R O)
      → R
      → ℕ
      → O
      → Table O
      → Outcome TransitionError O
  unfolding get_object
  refresh refresh_after_write in_scope bound request pk instance rows = do
    fresh ← get_object in_scope bound request pk rows
    ok (if refresh_after_write then fresh else instance)

  -- `POST /{pk}/<name>`, in one transaction: an error leaves the table as it was. `bound` are the
  -- permissions of the operation. They are those of the controller and then those of the
  -- transition, unless a router or a route overrides them.
  unfoldable pub run_transition :
      Bool
      → (R → O → Bool)
      → List (Permission R O)
      → Hook R O
      → R
      → ℕ
      → Text
      → Transition R O
      → Table O
      → Outcome TransitionError (O × Table O)
  unfolding get_object perform_transition refresh
  run_transition refresh_after_write in_scope bound after request pk name config rows = do
    instance ← get_object in_scope bound request pk rows
    updated ← perform_transition after request pk instance name config rows
    result ← refresh refresh_after_write in_scope bound request pk updated.0 updated.1
    ok (result, updated.1)

  -- `allowed_transitions`
  unfoldable pub allowed_transitions :
      List (Permission R O) → List (Text × Transition R O) → R → O → Outcome Error (List Text)
  unfolding transition_allowed combine all_pass
  allowed_transitions base [] request instance = ok []
  allowed_transitions base ((name, config) ∷ rest) request instance =
      let others = allowed_transitions base rest request instance in
      if not (transition_allowed request instance config) then others else (do
        passes ← all_pass (combine base config.permissions) request instance
        names ← others
        ok (if passes then name ∷ names else names))
