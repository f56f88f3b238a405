-- ===== src/Transitions/States.antt =====
-- What `POST /{pk}/<name>` does to the rows.
use ninja_devx.Prelude.{Bool, ok, List, ◌≡◌, true}
use ninja_devx.Prelude.Table.{Table}
use ninja_devx.Permissions.{Permission, check_object_permissions}
use ninja_devx.Transitions.Defs.{StateField, Hook, Transition, combine}

-- The default `on_transition` of a controller.
abbrev pub no_hook : {R O : Type 0} → Hook R O
no_hook request pk instance rows = ok rows

-- In the target state the row is in the scope of the request and passes the permissions.
pub record Stays {R O : Type 0} (field : StateField O) (in_scope : R → O → Bool)
    (base : List (Permission R O)) (request : R) (instance : O) (c : Transition R O) : Type 0 where
  pub visible : in_scope request (field.with_state c.target instance) ≡ true
  pub passes :
      check_object_permissions
        (combine base c.permissions)
        request
        (field.with_state c.target instance)
      ≡ ok tt
