-- ===== src/ApiKeys/Grants.antt =====
-- What the scopes of a key allow.
use mathlib.Core.Path.{subst}
use ninja_devx.Prelude.{
  nat_in, List, Text, ◌∷◌, ◌≡◌, codes, Bool-cases, false, ◌++◌, ◌==◌, inl, arith, inr, [], refl, ℕ,
  true, Bool, text_in, ap, text_eq, ◌↔◌, ◌∙◌, text_eq_iff, some, sym,
}
use mathlib.Core.List.{Memᴰ}
use ninja_devx.ApiKeys.Defs.{ApiKey}
use ninja_devx.ApiKeys.Scopes.{before_mark, covering, scope_allows, all_allowed, has_scopes}

-- The resource of a scope: what stands before its first colon, or all of it.
pub data IsResource (resource required : Text) : Type 0 where
  whole : nat_in b':' resource ≡ false → required ≡ resource → IsResource resource required
  action :
      (rest : Text)
      → nat_in b':' resource ≡ false
      → required ≡ resource ++ b':' ∷ rest
      → IsResource resource required

-- A granted scope covers a required one: every scope, the scope itself, or its whole resource.
pub data Grants (scope required : Text) : Type 0 where
  everything : scope ≡ codes "*" → Grants scope required
  exactly : scope ≡ required → Grants scope required
  resource : (r : Text) → IsResource r required → scope ≡ r ++ codes ":*" → Grants scope required

pub data AnyGrants : List Text → Text → Type 0 where
  here :
      (scope : Text) (scopes : List Text) (required : Text)
      → Grants scope required
      → AnyGrants (scope ∷ scopes) required
  there :
      (scope : Text) (scopes : List Text) (required : Text)
      → AnyGrants scopes required
      → AnyGrants (scope ∷ scopes) required

IsResource-cons :
    (c : ℕ) (r s : Text) → (c == b':') ≡ false → IsResource r s → IsResource (c ∷ r) (c ∷ s)
unfolding nat_in
IsResource-cons c r s h (whole clear e) = whole (ground arith) (ap (λ x. c ∷ x) e)
IsResource-cons c r s h (action rest clear e) = action rest (ground arith) (ap (λ x. c ∷ x) e)

IsResource-before_mark : (s : Text) → IsResource (before_mark b':' s) s
unfolding before_mark nat_in
IsResource-before_mark [] = whole refl refl
IsResource-before_mark (c ∷ s) = elim (Bool-cases (c == b':')) [
  | inl e ↦ (let same : c ≡ b':' = ground arith in rw e (action s refl (ap (λ x. x ∷ s) same)))
  | inr e ↦ rw e (IsResource-cons c _ s e (IsResource-before_mark s))
]

before_mark_whole : (r : Text) → nat_in b':' r ≡ false → before_mark b':' r ≡ r
unfolding before_mark nat_in
before_mark_whole [] h = refl
before_mark_whole (c ∷ r) h =
    let away : (c == b':') ≡ false = ground arith in
    rw away (ap (λ x. c ∷ x) (before_mark_whole r (ground arith)))

before_mark_action :
    (r rest : Text) → nat_in b':' r ≡ false → before_mark b':' (r ++ b':' ∷ rest) ≡ r
unfolding before_mark nat_in
before_mark_action [] rest h = refl
before_mark_action (c ∷ r) rest h =
    let away : (c == b':') ≡ false = ground arith in
    rw away (ap (λ x. c ∷ x) (before_mark_action r rest (ground arith)))

before_mark-IsResource : (r s : Text) → IsResource r s → before_mark b':' s ≡ r
before_mark-IsResource r s (whole clear e) = ap (before_mark b':') e ∙ before_mark_whole r clear
before_mark-IsResource r s (action rest clear e) =
    ap (before_mark b':') e ∙ before_mark_action r rest clear

covering-Grants :
    (scope required : Text) → text_in scope (covering required) ≡ true → Grants scope required
unfolding text_in
covering-Grants scope required h = elim (Bool-cases (text_eq scope required)) [
  | inl e ↦ exactly ((text_eq_iff scope required).0 e)
  | inr n ↦ elim (Bool-cases (text_eq scope (codes "*"))) [
    | inl e ↦ everything ((text_eq_iff scope (codes "*")).0 e)
    | inr m ↦
        resource (before_mark b':' required) (IsResource-before_mark required)
          ((text_eq_iff scope (before_mark b':' required ++ codes ":*")).0 (ground arith))
  ]
]

text_eq_self : (s t : Text) → s ≡ t → text_eq s t ≡ true
text_eq_self s t e = (text_eq_iff s t).1 e

Grants-covering :
    (scope required : Text) → Grants scope required → text_in scope (covering required) ≡ true
unfolding text_in
Grants-covering scope required (everything e) = ground (arith, text_eq_self scope (codes "*") e)
Grants-covering scope required (exactly e) = ground (arith, text_eq_self scope required e)
Grants-covering scope required (resource r of_resource e) =
    let same : scope ≡ before_mark b':' required ++ codes ":*" =
      e ∙ ap (λ x. x ++ codes ":*") (sym (before_mark-IsResource r required of_resource)) in
    ground (arith, text_eq_self scope (before_mark b':' required ++ codes ":*") same)

scope_allows-AnyGrants :
    (granted : List Text) (required : Text)
    → scope_allows granted required ≡ true
    → AnyGrants granted required
unfolding scope_allows
scope_allows-AnyGrants [] required h = cc
scope_allows-AnyGrants (scope ∷ granted) required h =
    elim (Bool-cases (text_in scope (covering required))) [
      | inl e ↦ here scope granted required (covering-Grants scope required e)
      | inr e ↦
          there scope granted required (scope_allows-AnyGrants granted required (ground arith))
    ]

AnyGrants-scope_allows :
    (granted : List Text) (required : Text)
    → AnyGrants granted required
    → scope_allows granted required ≡ true
unfolding scope_allows
AnyGrants-scope_allows granted required (here scope scopes _ g) =
    ground (arith, Grants-covering scope required g)
AnyGrants-scope_allows granted required (there scope scopes _ g) =
    ground (arith, AnyGrants-scope_allows scopes required g)

all_allowed-AnyGrants :
    (granted required : List Text)
    → all_allowed granted required ≡ true
    → (scope : Text) → Memᴰ scope required
    → AnyGrants granted scope
unfolding all_allowed
all_allowed-AnyGrants granted [] h scope m = elim m [ ]
all_allowed-AnyGrants granted (first ∷ rest) h scope (Memᴰ.head e) =
    subst (AnyGrants granted) (sym e) (scope_allows-AnyGrants granted first (ground arith))
all_allowed-AnyGrants granted (first ∷ rest) h scope (Memᴰ.tail m) =
    all_allowed-AnyGrants granted rest (ground arith) scope m

AnyGrants-all_allowed :
    (granted required : List Text)
    → ((scope : Text) → Memᴰ scope required → AnyGrants granted scope)
    → all_allowed granted required ≡ true
unfolding all_allowed
AnyGrants-all_allowed granted [] h = refl
AnyGrants-all_allowed granted (first ∷ rest) h =
    let front = AnyGrants-scope_allows granted first (h first (Memᴰ.head refl)) in
    let back = AnyGrants-all_allowed granted rest (λ scope m. h scope (Memᴰ.tail m)) in
    ground (arith, front, back)

-- A request with an API key passes just if each scope that the operation requires is covered by a
-- scope of the key: by `*`, by the scope itself, or by the whole resource before its first colon.
pub has_scopes_iff :
    (allow_unscoped : Bool) (required : List Text) (pk : ℕ) (key : ApiKey)
    → (has_scopes allow_unscoped required (some (pk, key)) ≡ true)
      ↔ ((scope : Text) → Memᴰ scope required → AnyGrants key.scopes scope)
unfolding has_scopes
has_scopes_iff allow_unscoped required pk key =
    (all_allowed-AnyGrants key.scopes required, AnyGrants-all_allowed key.scopes required)
