-- ===== src/Idempotency/Headers.antt =====
-- The headers of a replayed response, by name.
use ninja_devx.Prelude.{
  Text, List, Option, ◌∷◌, ◌≡◌, [], none, some, text_eq, lower, if◌then◌else◌, Bool, true, false,
  Bool-cases, inl, inr, refl, text_eq_iff, sym, ◌∙◌, ap,
}
use ninja_devx.Idempotency.Store.{set_header, set_headers}

abbrev pub same_name : Text → Text → Bool
same_name a b = text_eq (lower a) (lower b)

-- `response.get(name)`
pub header_of : Text → List (Text × Text) → Option Text
header_of name [] = none
header_of name ((n, v) ∷ rest) =
    let others = header_of name rest in if same_name n name then some v else others

-- The last of the stored headers of this name, and else the one that is given.
pub stored_header : Text → List (Text × Text) → Option Text → Option Text
stored_header name [] default = default
stored_header name ((n, v) ∷ rest) default =
    stored_header name rest (if same_name n name then some v else default)

abbrev overridden : Text → Text → Text → List (Text × Text) → Option Text
overridden name n v headers = if same_name n name then some v else header_of name headers

-- A header of another name than the new one stays before it.
passed_lem :
    (name n v m w : Text) (others : Option Text)
    → same_name m n ≡ false
    → (if same_name m name then some w else if same_name n name then some v else others)
      ≡ (if same_name n name then some v else if same_name m name then some w else others)
passed_lem name n v m w others apart = elim (Bool-cases (same_name m name)) [
  | inr a ↦ rw a refl
  | inl a ↦ elim (Bool-cases (same_name n name)) [
    | inr b ↦ rw (a, b) refl
    | inl b ↦
        (let both : lower m ≡ lower n =
            (text_eq_iff (lower m) (lower name)).0 a
            ∙ sym ((text_eq_iff (lower n) (lower name)).0 b) in
          let same = (text_eq_iff (lower m) (lower n)).1 both in cc)
  ]
]

-- A header that is replaced has the name of the new one.
replaced_lem :
    (name n v m w : Text) (others : Option Text)
    → same_name m n ≡ true
    → (if same_name n name then some v else others)
      ≡ (if same_name n name then some v else if same_name m name then some w else others)
replaced_lem name n v m w others same =
    let e : lower m ≡ lower n = (text_eq_iff (lower m) (lower n)).0 same in
    elim (Bool-cases (same_name n name)) [
      | inl b ↦ rw b refl
      | inr b ↦
          (let c : same_name m name ≡ false = ap (λ x. text_eq x (lower name)) e ∙ b in
            rw (b, c) refl)
    ]

header_of-set_header :
    (name n v : Text) (headers : List (Text × Text))
    → header_of name (set_header n v headers) ≡ overridden name n v headers
unfolding header_of set_header
header_of-set_header name n v [] = refl
header_of-set_header name n v ((m, w) ∷ rest) = elim (Bool-cases (same_name m n)) [
  | inl s ↦ rw s (replaced_lem name n v m w (header_of name rest) s)
  | inr s ↦
      rw s
        (rw (header_of-set_header name n v rest) (passed_lem name n v m w (header_of name rest) s))
]

header_of-set_headers :
    (name : Text) (stored headers : List (Text × Text))
    → header_of name (set_headers stored headers)
      ≡ stored_header name stored (header_of name headers)
unfolding set_headers stored_header
header_of-set_headers name [] headers = refl
header_of-set_headers name ((n, v) ∷ stored) headers =
    header_of-set_headers name stored (set_header n v headers)
    ∙ ap (stored_header name stored) (header_of-set_header name n v headers)

-- The mark, then the stored headers, then a default.
pub header_of-replay :
    (name mark on default_name default : Text) (stored : List (Text × Text))
    → header_of name (set_header mark on (set_headers stored ((default_name, default) ∷ []))) ≡ (
        if same_name mark name
        then some on
        else stored_header name stored (if same_name default_name name then some default else none))
unfolding header_of
header_of-replay name mark on default_name default stored =
    header_of-set_header name mark on (set_headers stored ((default_name, default) ∷ []))
    ∙ ap (λ x. if same_name mark name then some on else x)
        (header_of-set_headers name stored ((default_name, default) ∷ []))
