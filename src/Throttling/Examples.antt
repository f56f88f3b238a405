-- ===== src/Throttling/Examples.antt =====
-- Concrete rates and requests.
use ninja_devx.Prelude.{codes, ◌∷◌, [], ◌≡◌, text_eq, some, refl}
use ninja_devx.Prelude.Table.{get}
use ninja_devx.Throttling.Defs.{
  passed, parse_rate, positive, serve, cache_storage, take_digits, int_from, rate_of, multiple,
  period_of,
}
use ninja_devx.Throttling.Windows.{at_most, passed-serve}

parsed_lem : parse_rate (codes "2/5min") ≡ some (2, 300)
unfolding parse_rate positive take_digits int_from rate_of multiple period_of text_eq
parsed_lem = refl

passed-serve_example :
    passed (
      serve cache_storage
        (λ identity duration window. window)
        (codes "2/5min")
        (codes "user:7")
        (601 ∷ 700 ∷ 899 ∷ [])
        [])
    ≡ at_most 2 3
unfolding get
passed-serve_example =
    passed-serve (λ identity duration window. window) (codes "2/5min") (codes "user:7") 2 300 2
      parsed_lem (601 ∷ 700 ∷ 899 ∷ []) [] (refl, (refl, (refl, tt))) refl
