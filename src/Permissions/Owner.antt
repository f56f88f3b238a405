-- ===== src/Permissions/Owner.antt =====
-- `IsOwner`: the object's owner, through relations, must be the current user.
use Prim.Native.Char.{Char, code}
use Prim.Native.String.{◌++◌ as append}
use ninja_devx.Prelude.{
  ℕ, String, Bool, List, Option, some, [], none, ◌==◌, if◌then◌else◌, false, ◌∷◌, str_eq, ◌&&◌, ◌≡◌,
  true, ◌↔◌, arith,
}
use ninja_devx.Permissions.Defs.{Leaf, sync_check}
use ninja_devx.Permissions.User.{User, HttpRequest, request_user, arequest_user}
use ninja_devx.Permissions.Eval.{default_message}

-- A Python value as `_owns` reads it: `None`, a primary key, or an object with attributes.
mutual
  pub data PyObject : Type 0 where
    none_object : PyObject
    key : ℕ → PyObject
    object : Attributes → PyObject

  pub data Attributes : Type 0 where
    end : Attributes
    attribute : String → PyObject → Attributes → Attributes

lookup_attribute : String → Attributes → Option PyObject
lookup_attribute name end = none
lookup_attribute name (attribute n v rest) =
    if str_eq n name then some v else lookup_attribute name rest

-- `getattr(target, name, _MISSING)`; `none` is the missing attribute.
getattr : PyObject → String → Option PyObject
unfolding lookup_attribute
getattr none_object name = none
getattr (key k) name = none
getattr (object attributes) name = lookup_attribute name attributes

-- `getattr(target, name, None)`
abbrev or_none : Option PyObject → PyObject
or_none none = none_object
or_none (some v) = v

-- `for part in relations: target = getattr(target, part, None)`; `none` is the early `False`.
follow : List String → PyObject → Option PyObject
follow [] target = some target
follow (part ∷ relations) target = elim (or_none (getattr target part)) [
  | none_object ↦ none
  | key k ↦ follow relations (key k)
  | object a ↦ follow relations (object a)
]

-- `getattr(target, f"{last}_id", _MISSING)`, and where it is missing the `pk` of the related object
owner_pk : PyObject → String → PyObject
unfolding getattr
owner_pk target last = elim (getattr target (append last "_id")) [
  | some v ↦ v
  | none ↦ or_none (getattr (or_none (getattr target last)) "pk")
]

-- `owner_pk == user_pk`, for a primary key that is not `None`
abbrev same_key : PyObject → ℕ → Bool
same_key (key k) user_pk = k == user_pk
same_key _ user_pk = false

-- `path.split("__")`: the text before the first mark, and the parts behind it.
abbrev grow : Char → String × List String → String × List String
grow c (part, parts) = (String.◌∷◌ c part, parts)

split : String → String × List String
split String.[] = (String.[], [])
split (String.◌∷◌ c String.[]) = (String.◌∷◌ c String.[], [])
split (String.◌∷◌ c (String.◌∷◌ d s)) =
    let (part, parts) = split s in
    let behind = split (String.◌∷◌ d s) in
    if code c == b'_' && code d == b'_' then (String.[], part ∷ parts) else grow c behind

-- `*relations, last`
unsnoc : String → List String → List String × String
unsnoc part [] = ([], part)
unsnoc part (next ∷ parts) = let (relations, last) = unsnoc next parts in (part ∷ relations, last)

-- The key that `_owns` compares with the user's; `none` is the early `False`.
unfoldable pub owner_key : PyObject → String → Option PyObject
unfolding split unsnoc follow getattr owner_pk
owner_key obj path =
    let (part, parts) = split path in
    let (relations, last) = unsnoc part parts in
    elim (follow relations obj) [ none ↦ none | some target ↦ some (owner_pk target last) ]

abbrev matches : Option PyObject → ℕ → Bool
matches none user_pk = false
matches (some v) user_pk = same_key v user_pk

unfoldable pub owns : Option User → PyObject → String → Bool
unfolding owner_key
owns none obj path = false
owns (some u) obj path = elim u.pk [
  | none ↦ false
  | some user_pk ↦ matches (owner_key obj path) user_pk
]

unfoldable pub is_owner : String → Leaf HttpRequest PyObject
is_owner field = record {
  own_has_permission = none;
  own_has_object_permission =
      some (sync_check (λ (request, obj). owns (request_user request) obj field));
  own_ahas_permission = none;
  own_ahas_object_permission = some (λ (request, obj). owns (arequest_user request).0 obj field);
  status_code = 403;
  message = default_message;
}

-- An object has one owner: if a user owns it along a path, another user owns it exactly if both
-- have the same primary key.
pub owns_unique :
    (u v : User) (obj : PyObject) (path : String)
    → owns (some u) obj path ≡ true
    → (owns (some v) obj path ≡ true) ↔ (v.pk ≡ u.pk)
unfolding owns
owns_unique u v obj path h = (λ k. ground arith, λ k. ground arith)
