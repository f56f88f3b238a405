-- ===== src/Bulk/Defs.antt =====
-- Calls that work on the rows of a model, their transactions, and what a controller overrides.
use ninja_devx.Prelude.{ok, Bool, raise, List, Outcome, ℕ, ◌∷◌, []}
use ninja_devx.Permissions.{Error, Permission, check_object_permissions}
use ninja_devx.Prelude.Table.{Table}

-- What a bulk operation may fail with: Ninja's `ValidationError`, the exceptions that `_bulk_error`
-- knows, with the status of a `DomainError`, the errors of the permissions, and any other.
pub data BulkFailure : Type 0 where
  too_long duplicate : BulkFailure
  django_validation integrity http404 : BulkFailure
  domain_error : ℕ → BulkFailure
  permission_error : Error → BulkFailure
  other_exception : ℕ → BulkFailure

-- A call returns or raises, and leaves the rows as it has changed them by then.
abbrev pub Call : Type 0 → Type 0 → Type 0
Call O A = Table O → Outcome BulkFailure A × Table O

abbrev pub returned : {O A : Type 0} → A → Call O A
returned a rows = (ok a, rows)

abbrev pub failing : {O A : Type 0} → BulkFailure → Call O A
failing e rows = (raise e, rows)

abbrev pub after :
    {O A B : Type 0}
    → Outcome BulkFailure A × Table O
    → (A → Call O B)
    → Outcome BulkFailure B × Table O
after (ok a, rows) next = next a rows
after (raise e, rows) next = (raise e, rows)

infixl 5 ◌>>=◌ ◌>>◌
abbrev pub ◌>>=◌ : {O A B : Type 0} → Call O A → (A → Call O B) → Call O B
call >>= next = λ rows. after (call rows) next

abbrev pub ◌>>◌ : {O A B : Type 0} → Call O A → Call O B → Call O B
call >> next = call >>= λ a. next

-- `transaction.atomic`: the rows are put back if the block raises.
abbrev pub rolled_back :
    {O A : Type 0} → Table O → Outcome BulkFailure A × Table O → Outcome BulkFailure A × Table O
rolled_back rows (ok a, changed) = (ok a, changed)
rolled_back rows (raise e, changed) = (raise e, rows)

abbrev pub atomic : {O A : Type 0} → Call O A → Call O A
atomic block rows = rolled_back rows (block rows)

-- A controller at one request: the scope of the request's queryset, the lookup field of a row, the
-- permissions of the operation, and the methods that a controller may override. `I` is the
-- payload of a creation, `D` that of an update, and `changes` tells whether it changes fields.
pub record Controller (R I D O : Type 0) : Type 0 where
  pub request : R
  pub bound : List (Permission R O)
  pub in_scope : O → Bool
  pub lookup_field : ℕ → O → ℕ
  pub perform_create : I → Call O (ℕ × O)
  pub perform_update : ℕ × O → D → Call O (ℕ × O)
  pub perform_destroy : ℕ × O → Call O (Unit {0})
  pub has_changes : O → D → Bool
  pub on_change : ℕ × O → D → Call O (Unit {0})
  pub refresh_after_write : Bool

abbrev pub permitted : {O : Type 0} → Outcome Error (Unit {0}) → Call O (Unit {0})
permitted (ok passed) rows = (ok passed, rows)
permitted (raise e) rows = (raise (permission_error e), rows)

-- `check_object_permissions`
unfoldable pub check_object : {R I D O : Type 0} → Controller R I D O → O → Call O (Unit {0})
check_object c o = permitted (check_object_permissions c.bound c.request o)

-- The calls on a list, one after another, with the list of what they return.
unfoldable pub each_call : {O A B : Type 0} → (A → Call O B) → List A → Call O (List B)
each_call call [] = returned []
each_call call (a ∷ rest) = call a >>= λ b. each_call call rest >>= λ bs. returned (b ∷ bs)
