-- ===== src/ApiKeys/Scopes.antt =====
-- Scopes, and the rate of a key.
use ninja_devx.Prelude.{
  text_in, Bool, Text, List, Option, ℕ, ◌||◌, false, true, some, ◌∷◌, if◌then◌else◌, [], codes,
  ◌&&◌, none, ◌++◌, ◌==◌,
}
use ninja_devx.ApiKeys.Defs.{ApiKey}

-- `text.split(mark, 1)[0]` for a single character
unfoldable pub before_mark : ℕ → Text → Text
before_mark mark [] = []
before_mark mark (c ∷ s) = let front = before_mark mark s in if c == mark then [] else c ∷ front

-- The scopes that cover a required one.
abbrev pub covering : Text → List Text
covering required = required ∷ codes "*" ∷ (before_mark b':' required ++ codes ":*") ∷ []

-- `scope_allows`
unfoldable pub scope_allows : List Text → Text → Bool
unfolding before_mark text_in
scope_allows [] required = false
scope_allows (scope ∷ granted) required =
    text_in scope (covering required) || scope_allows granted required

-- `all(scope_allows(scopes, scope) for scope in required)`
unfoldable pub all_allowed : List Text → List Text → Bool
unfolding scope_allows
all_allowed granted [] = true
all_allowed granted (scope ∷ required) = scope_allows granted scope && all_allowed granted required

abbrev pub is_empty_list : List Text → Bool
is_empty_list [] = true
is_empty_list (scope ∷ scopes) = false

-- `HasScopes.has_permission`, for the scopes that the operation requires and the key of the request.
unfoldable pub has_scopes : Bool → List Text → Option (ℕ × ApiKey) → Bool
unfolding all_allowed
has_scopes allow_unscoped required none = allow_unscoped || is_empty_list required
has_scopes allow_unscoped required (some (pk, key)) = all_allowed key.scopes required

-- `APIKeyRateThrottle.identify`; `decimal` writes a number.
abbrev pub identify : (ℕ → Text) → Option (ℕ × ApiKey) → Option Text
identify decimal none = none
identify decimal (some (pk, key)) = some (codes "apikey:" ++ decimal pk)

-- `APIKeyRateThrottle.get_rate`: the rate of the key if it has one, else the rate of the throttle.
abbrev pub get_rate : Option Text → Option (ℕ × ApiKey) → Option Text
get_rate rate none = rate
get_rate rate (some (pk, key)) = elim key.rate_limit [ [] ↦ rate | c ∷ s ↦ some (c ∷ s) ]
