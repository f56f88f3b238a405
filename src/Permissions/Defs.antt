-- ===== src/Permissions/Defs.antt =====
-- The permission objects. A leaf is a `BasePermission` subclass seen through its overrides: a
-- check that the class does not override is `none`, and the methods below fall back on
-- `BasePermission`'s own.
use ninja_devx.Prelude.{
  ℕ, String, Bool, true, false, ◌||◌, not, Option, none, some, Outcome, ok, raise, is_none,
  if◌then◌else◌, ◌>>=◌,
}

-- A check is a plain function or a coroutine function (`async def`).
pub data Check (A : Type 0) : Type 0 where
  sync_check : (A → Bool) → Check A
  coroutine_check : (A → Bool) → Check A

pub record Leaf (R O : Type 0) : Type 0 where
  pub own_has_permission : Option (Check R)
  pub own_has_object_permission : Option (Check (R × O))
  pub own_ahas_permission : Option (R → Bool)
  pub own_ahas_object_permission : Option (R × O → Bool)
  pub status_code : ℕ
  pub message : String

mutual
  pub data Permission (R O : Type 0) : Type 0 where
    leaf : Leaf R O → Permission R O
    all_of : Permissions R O → Permission R O
    any_of : Permissions R O → Permission R O
    negation : Permission R O → Permission R O

  pub data Permissions (R O : Type 0) : Type 0 where
    nil : Permissions R O
    cons : Permission R O → Permissions R O → Permissions R O

-- `TypeError` for a coroutine check in a sync operation, and `HttpError` for a denial.
pub data Error : Type 0 where
  type_error : Error
  http_error : ℕ → String → Error

-- What a sync method call gives: a value, or an awaitable of one.
pub data PermissionResult : Type 0 where
  value : Bool → PermissionResult
  awaitable : Bool → PermissionResult

abbrev pub call : {A : Type 0} → Check A → A → PermissionResult
call (sync_check f) a = value (f a)
call (coroutine_check f) a = awaitable (f a)

abbrev pub awaited : PermissionResult → Bool
awaited (value b) = b
awaited (awaitable b) = b

-- An awaitable result cannot guard a sync operation.
unfoldable pub settled : PermissionResult → Outcome Error Bool
settled (value b) = ok b
settled (awaitable b) = raise type_error

module _ {R O : Type 0} where
  -- The methods, with the defaults of `BasePermission`.
  unfoldable pub has_permission : Leaf R O → R → PermissionResult
  has_permission p request = elim p.own_has_permission [
    | none ↦ value true
    | some c ↦ call c request
  ]

  unfoldable pub has_object_permission : Leaf R O → R → O → PermissionResult
  has_object_permission p request obj = elim p.own_has_object_permission [
    | none ↦ value true
    | some c ↦ call c (request, obj)
  ]

  unfoldable pub ahas_permission : Leaf R O → R → Bool
  unfolding has_permission
  ahas_permission p request = elim p.own_ahas_permission [
    | none ↦ awaited (has_permission p request)
    | some f ↦ f request
  ]

  unfoldable pub ahas_object_permission : Leaf R O → R → O → Bool
  unfolding has_object_permission
  ahas_object_permission p request obj = elim p.own_ahas_object_permission [
    | none ↦ awaited (has_object_permission p request obj)
    | some f ↦ f (request, obj)
  ]

  -- The class overrides one of the two object checks.
  unfoldable pub checks_objects : Leaf R O → Bool
  checks_objects p =
      not (is_none p.own_has_object_permission) || not (is_none p.own_ahas_object_permission)

  -- The target is `none` for the request-level check and `some obj` for the object-level one.
  unfoldable pub leaf_allows : Leaf R O → R → Option O → Outcome Error Bool
  unfolding has_permission has_object_permission settled
  leaf_allows p request none = settled (has_permission p request)
  leaf_allows p request (some obj) = settled (has_permission p request) >>= λ allowed.
      if allowed then settled (has_object_permission p request obj) else ok false

  unfoldable pub aleaf_allows : Leaf R O → R → Option O → Outcome Error Bool
  unfolding ahas_permission ahas_object_permission
  aleaf_allows p request none = ok (ahas_permission p request)
  aleaf_allows p request (some obj) =
      if ahas_permission p request then ok (ahas_object_permission p request obj) else ok false
