-- ===== src/SoftDelete/Examples.antt =====
-- Posts with a nullable `deleted_at` (field 1) and a title (field 2).
use ninja_devx.Prelude.{
  refl, ◌∷◌, [], ℕ, false, Option, true, none, if◌then◌else◌, ◌≡◌, ok, ◌==◌, some,
}
use ninja_devx.SoftDelete.Defs.{
  Store, SoftConfig, ResolvedConfig, Row, ModelField, null, instant, value_equal, infer,
  perform_destroy, other, is_active, perform_restore,
}
use ninja_devx.Prelude.Table.{get}
use ninja_devx.SoftDelete.Restore.{destroy-restore}

abbrev moment : ModelField
moment = record { is_boolean = false; is_datetime = true; is_null = true; many_to_one = false }

unfoldable post_fields : ℕ → Option ModelField
post_fields name = if name == 1 then some moment else none

abbrev by_default : SoftConfig
by_default = record {
  field = 1;
  deleted = infer;
  active = none;
  deleted_at = none;
  deleted_by = none;
}

abbrev by_moment : ResolvedConfig
by_moment = record { config = by_default; deleted = λ now. instant now; active = null }

abbrev post : Row
post = (1, null) ∷ (2, other 6) ∷ []

abbrev post_store : Store
post_store = record { rows = (4, post) ∷ []; related = λ pk name. [] }

destroy-restore_example :
    (gone : Store) × (hidden : Row) × (back : Store) × (shown : Row) × (perform_destroy by_moment
        (3 ∷ [])
        50
        51
        52
        7
        4
        post_store
      ≡ ok gone)
    × (get 4 gone.rows ≡ some hidden)
    × (is_active by_moment hidden ≡ false)
    × (perform_restore by_moment (3 ∷ []) 4 gone ≡ ok back)
    × (get 4 back.rows ≡ some shown)
    × (is_active by_moment shown ≡ true)
    × (get 2 shown ≡ get 2 post)
unfolding get value_equal
destroy-restore_example =
    destroy-restore by_moment (λ n e. cc) (λ n e. cc) (3 ∷ []) 50 51 52 7 4 2 post_store post refl
      refl refl (λ n e. cc) (λ n e. cc)
