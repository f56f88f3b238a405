-- ===== src/ApiKeys/Parse.antt =====
-- A raw key is parsed into the parts it was made of.
use ninja_devx.Prelude.{
  text_eq, nat_in, Text, ℕ, ◌≡◌, false, some, suc, ◌++◌, ◌∷◌, arith, refl, ◌==◌, [], ap, ◌∙◌,
}
use ninja_devx.ApiKeys.Defs.{split_most, parse, raw_key, key_prefix, three_parts}

split_most-mark :
    (mark most : ℕ) (s rest : Text)
    → nat_in mark s ≡ false
    → split_most mark (suc most) (s ++ mark ∷ rest) ≡ s ∷ split_most mark most rest
unfolding split_most nat_in
split_most-mark mark most [] rest h = ground arith
split_most-mark mark most (c ∷ s) rest h =
    let away : (c == mark) ≡ false = ground arith in
    let later = split_most-mark mark most s rest (ground arith) in rw (away) (rw later refl)

-- The prefix of a key has no underscore, and its secret may have some.
pub parse-raw_key :
    (prefix secret : Text)
    → nat_in b'_' prefix ≡ false
    → parse (some (raw_key prefix secret)) ≡ some (prefix, secret)
unfolding parse split_most text_eq nat_in
parse-raw_key prefix secret h =
    let first = split_most-mark b'_' 1 key_prefix (prefix ++ b'_' ∷ secret) refl in
    let second = split_most-mark b'_' 0 prefix secret h in
    ap three_parts (first ∙ ap (λ parts. key_prefix ∷ parts) second)
