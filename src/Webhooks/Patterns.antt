-- ===== src/Webhooks/Patterns.antt =====
-- What an endpoint's subscriptions match.
use ninja_devx.Prelude.{
  Text, List, ◌≡◌, ◌++◌, ◌∷◌, true, codes, text_eq_iff, arith, Bool-cases, ap, ◌↔◌, [], inl,
  text_eq, refl, inr, ◌∙◌,
}
use ninja_devx.Webhooks.Defs.{ends_with, but_last, starts_with, event_matches, pattern_matches}

-- A pattern covers an event type: the pattern that covers everything, the type itself, or a prefix
-- of whole words.
pub data Covers (pattern event_type : Text) : Type 0 where
  everything : pattern ≡ codes "*" → Covers pattern event_type
  exactly : pattern ≡ event_type → Covers pattern event_type
  below :
      (stem rest : Text)
      → pattern ≡ stem ++ codes ".*"
      → event_type ≡ stem ++ codes "." ++ rest
      → Covers pattern event_type

pub data AnyCovers : List Text → Text → Type 0 where
  here : {p : Text} {ps : List Text} {e : Text} → Covers p e → AnyCovers (p ∷ ps) e
  there : {p : Text} {ps : List Text} {e : Text} → AnyCovers ps e → AnyCovers (p ∷ ps) e

ends_with_some :
    (suffix s : Text) → ends_with suffix s ≡ true → (stem : Text) × (s ≡ stem ++ suffix)
unfolding ends_with
ends_with_some suffix [] h = ([], (text_eq_iff [] suffix).0 h)
ends_with_some suffix (c ∷ s) h = elim (Bool-cases (text_eq (c ∷ s) suffix)) [
  | inl e ↦ ([], (text_eq_iff (c ∷ s) suffix).0 e)
  | inr e ↦
      (let (stem, f) = ends_with_some suffix s (ground arith) in (c ∷ stem, ap (λ x. c ∷ x) f))
]

ends_with-append : (stem suffix : Text) → ends_with suffix (stem ++ suffix) ≡ true
unfolding ends_with text_eq
ends_with-append [] [] = refl
ends_with-append [] (c ∷ s) = rw ((text_eq_iff (c ∷ s) (c ∷ s)).1 refl) refl
ends_with-append (c ∷ stem) suffix = rw (ends_with-append stem suffix) (ground arith)

but_last-append : (stem : Text) → but_last (stem ++ codes ".*") ≡ stem ++ codes "."
unfolding but_last
but_last-append [] = refl
but_last-append (c ∷ []) = refl
but_last-append (c ∷ d ∷ stem) = ap (λ x. c ∷ x) (but_last-append (d ∷ stem))

starts_with_some :
    (prefix s : Text) → starts_with prefix s ≡ true → (rest : Text) × (s ≡ prefix ++ rest)
unfolding starts_with
starts_with_some [] s h = (s, refl)
starts_with_some (c ∷ prefix) [] h = cc
starts_with_some (c ∷ prefix) (d ∷ s) h =
    let (rest, e) = starts_with_some prefix s (ground arith) in
    let same : d ≡ c = ground arith in (rest, rw same (ap (λ x. c ∷ x) e))

starts_with-append : (prefix rest : Text) → starts_with prefix (prefix ++ rest) ≡ true
unfolding starts_with
starts_with-append [] rest = refl
starts_with-append (c ∷ prefix) rest = rw (starts_with-append prefix rest) (ground arith)

pattern_matches_sound : (p e : Text) → pattern_matches p e ≡ true → Covers p e
unfolding pattern_matches
pattern_matches_sound p e h = elim (Bool-cases (text_eq p (codes "*"))) [
  | inl a ↦ everything ((text_eq_iff p _).0 a)
  | inr a ↦ elim (Bool-cases (text_eq p e)) [
    | inl b ↦ exactly ((text_eq_iff p e).0 b)
    | inr b ↦
        (let ends : ends_with (codes ".*") p ≡ true = ground arith in
          let starts : starts_with (but_last p) e ≡ true = ground arith in
          let (stem, f) = ends_with_some (codes ".*") p ends in
          let (rest, g) = starts_with_some (but_last p) e starts in
          below stem rest f (g ∙ ap (λ x. x ++ rest) (ap but_last f ∙ but_last-append stem)))
  ]
]

pattern_matches_complete : (p e : Text) → Covers p e → pattern_matches p e ≡ true
unfolding pattern_matches
pattern_matches_complete p e (everything h) = rw ((text_eq_iff p (codes "*")).1 h) refl
pattern_matches_complete p e (exactly h) = rw ((text_eq_iff p e).1 h) (ground arith)
pattern_matches_complete p e (below stem rest h k) =
    let ends : ends_with (codes ".*") p ≡ true = rw h (ends_with-append stem (codes ".*")) in
    let starts : starts_with (but_last p) e ≡ true =
      rw (h, k, but_last-append stem) (starts_with-append (stem ++ codes ".") rest) in
    rw ends (rw starts (ground arith))

-- An endpoint gets an event exactly when one of its subscriptions covers the type: `*` covers all,
-- a type covers itself, and `stem.*` covers the types that continue `stem.`.
pub event_matches_iff :
    (patterns : List Text) (event_type : Text)
    → (event_matches patterns event_type ≡ true) ↔ AnyCovers patterns event_type
unfolding event_matches
event_matches_iff patterns e = (to patterns, from patterns)
  where
    to : (ps : List Text) → event_matches ps e ≡ true → AnyCovers ps e
    to [] h = cc
    to (p ∷ ps) h = elim (Bool-cases (pattern_matches p e)) [
      | inl a ↦ here (pattern_matches_sound p e a)
      | inr a ↦ there (to ps (ground arith))
    ]

    from : (ps : List Text) → AnyCovers ps e → event_matches ps e ≡ true
    from [] a = elim a [ ]
    from (p ∷ ps) (here c) = rw (pattern_matches_complete p e c) refl
    from (p ∷ ps) (there a) = rw (from ps a) (ground arith)
