-- ===== src/Throttling/Rates.antt =====
-- What a rate means.
use ninja_devx.Prelude.{
  zero, suc, ℕ, Text, ◌≤◌, ◌≡◌, Option-cases, some, arith, inl, ◌∷◌, inr, ◌*◌, Bool-cases, leb, ◌+◌,
  ◌&&◌, ◌-◌, [], List, All, text_eq,
}
use ninja_devx.Throttling.Defs.{
  positive, multiple, period_of, parse_rate, int_from, take_digits, rate_of, periods,
}

int_from_le : (n : ℕ) (s : Text) → n ≤ int_from n s
unfolding int_from
int_from_le n [] = omega arith
int_from_le n (c ∷ s) = omega (arith, int_from_le (n * 10 + (c - b'0')) s)

positive_lem : (s rest : Text) (n : ℕ) → positive s ≡ some (n, rest) → 1 ≤ n
unfolding positive int_from
positive_lem [] rest n h = cc
positive_lem (c ∷ s) rest n h = elim (Bool-cases (leb b'1' c && leb c b'9')) [
  | inr f ↦ ground arith
  | inl t ↦
      (let value : int_from (0 * 10 + (c - b'0')) (take_digits s).0 ≡ n = ground arith in
        let low : 1 ≤ c - b'0' = ground arith in
        omega (arith, value, low, int_from_le (0 * 10 + (c - b'0')) (take_digits s).0))
]

multiple_lem : (s : Text) → 1 ≤ (multiple s).0
unfolding multiple
multiple_lem s = elim (Option-cases (positive s)) [
  | inl e ↦ rw (e, multiple) (omega arith)
  | inr ((n, rest), e) ↦ rw (e, multiple) (positive_lem s rest n e)
]

period_lem :
    (name : Text) (ps : List (Text × ℕ)) (seconds : ℕ)
    → All (λ (p : Text × ℕ). 1 ≤ p.1) ps
    → period_of name ps ≡ some seconds
    → 1 ≤ seconds
unfolding period_of
period_lem name [] seconds a h = cc
period_lem name ((n, s) ∷ ps) seconds a h = elim (Bool-cases (text_eq n name)) [
  | inl t ↦ (let value : s ≡ seconds = ground arith in omega (arith, value, a.0))
  | inr f ↦ period_lem name ps seconds a.1 (ground arith)
]

product_lem : (a b : ℕ) → 1 ≤ a → 1 ≤ b → 1 ≤ a * b
product_lem (suc a) (suc b) h k = omega arith
product_lem zero b h k = omega arith
product_lem (suc a) zero h k = omega arith

rate_of_lem :
    (n : ℕ) (rest : Text) (limit duration : ℕ)
    → 1 ≤ n
    → rate_of n rest ≡ some (limit, duration)
    → (1 ≤ limit) × (1 ≤ duration)
unfolding rate_of
rate_of_lem n [] limit duration low h = cc
rate_of_lem n (c ∷ rest) limit duration low h =
    elim (Option-cases (period_of (multiple rest).1 periods)) [
      | inl e ↦ ground arith
      | inr (seconds, e) ↦
          (let long : 1 ≤ (multiple rest).0 * seconds =
              product_lem _ _ (multiple_lem rest)
                (period_lem (multiple rest).1 periods seconds (omega arith) e) in
            ground arith)
    ]

-- A rate that parses allows at least one request, in a window of at least one second.
pub parse_rate_lem :
    (rate : Text) (limit duration : ℕ)
    → parse_rate rate ≡ some (limit, duration)
    → (1 ≤ limit) × (1 ≤ duration)
unfolding parse_rate
parse_rate_lem rate limit duration h = elim (Option-cases (positive rate)) [
  | inl e ↦ ground arith
  | inr ((n, rest), e) ↦
      rate_of_lem n rest limit duration (positive_lem rate rest n e) (ground arith)
]
