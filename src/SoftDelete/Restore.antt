-- ===== src/SoftDelete/Restore.antt =====
-- A deleted row is hidden and kept, and a restoration brings it back.
use mathlib.Core.Path.{subst}
use ninja_devx.Prelude.{
  ℕ, Option, ◌≡◌, true, some, Bool, ◌==◌, arith, false, List, ◌∙◌, none, ok, refl, bind_ok, Outcome,
  ◌&&◌, Bool-cases, inl, inr,
}
use ninja_devx.SoftDelete.Defs.{
  ResolvedConfig, field_value, value_equal, perform_destroy, ModelField, perform_restore, Value,
  is_active, Row, write_deleted, stamp, SoftConfig, boolean, infer, write_active, instant, user,
  resolved, other, Store, null, infer_values, found_field, SoftError, check_stamp, with_stamp,
  destroyed, restored,
}
use ninja_devx.Prelude.Table.{get, put, get-put, get-put_self}

-- The field is none of the stamps.
abbrev pub Apart : Option ℕ → ℕ → Type 0
Apart stamped name = (n : ℕ) → stamped ≡ some n → (n == name) ≡ false

get-stamp :
    (stamped : Option ℕ) (name : ℕ) (v : Value) (row : Row)
    → Apart stamped name
    → get name (stamp stamped v row) ≡ get name row
get-stamp none name v row apart = refl
get-stamp (some n) name v row apart = ground (arith, get-put n name v row, apart n refl)

value_equal_self : (v : Value) → value_equal v v ≡ true
unfolding value_equal
value_equal_self null = refl
value_equal_self (boolean true) = refl
value_equal_self (boolean false) = refl
value_equal_self (instant a) = ground arith
value_equal_self (user a) = ground arith
value_equal_self (other a) = ground arith

module _ (r : ResolvedConfig) (at_apart : Apart r.config.deleted_at r.config.field)
    (by_apart : Apart r.config.deleted_by r.config.field) where
  marked_lem :
      (v a b : Value) (row : Row)
      → field_value r.config.field
          (stamp r.config.deleted_by a (stamp r.config.deleted_at b (put r.config.field v row)))
        ≡ v
  unfolding field_value
  marked_lem v a b row =
      let found : get r.config.field
            (stamp r.config.deleted_by a (stamp r.config.deleted_at b (put r.config.field v row)))
          ≡ some v =
        get-stamp r.config.deleted_by r.config.field a _ by_apart
        ∙ (get-stamp r.config.deleted_at r.config.field b _ at_apart
            ∙ get-put_self r.config.field v row) in
      rw (found, field_value) refl

  kept_lem :
      (name : ℕ) (v a b : Value) (row : Row)
      → (r.config.field == name) ≡ false
      → Apart r.config.deleted_at name
      → Apart r.config.deleted_by name
      → get name
          (stamp r.config.deleted_by a (stamp r.config.deleted_at b (put r.config.field v row)))
        ≡ get name row
  kept_lem name v a b row off at by =
      get-stamp r.config.deleted_by name a _ by
      ∙ (get-stamp r.config.deleted_at name b _ at
          ∙ ground (arith, get-put r.config.field name v row))

  -- If deleted_at and deleted_by name other fields than the marker, and the marker of a deletion is
  -- not the active value, a deletion of an existing row returns, and hides the row from the
  -- queryset. A restoration then returns, and shows the row again; each field but the marker and
  -- the stamps has the value it had before the deletion.
  pub destroy-restore :
      (names : List ℕ) (now stamped late by pk name : ℕ) (s : Store) (row : Row)
      → get pk s.rows ≡ some row
      → value_equal (r.deleted now) r.active ≡ false
      → (r.config.field == name) ≡ false
      → Apart r.config.deleted_at name
      → Apart r.config.deleted_by name
      → (gone : Store) × (hidden : Row) × (back : Store) × (shown : Row) × (perform_destroy r names
            now stamped late by pk s
          ≡ ok gone)
        × (get pk gone.rows ≡ some hidden)
        × (is_active r hidden ≡ false)
        × (perform_restore r names pk gone ≡ ok back)
        × (get pk back.rows ≡ some shown)
        × (is_active r shown ≡ true)
        × (get name shown ≡ get name row)
  unfolding perform_destroy perform_restore is_active write_deleted write_active
  destroy-restore names now stamped late by pk name s row found unlike off at by_name =
      let hidden = write_deleted r now stamped by row in
      let gone = destroyed r names now stamped late by pk row s in
      let stored : get pk gone.rows ≡ some hidden = get-put_self pk hidden s.rows in
      let shown = write_active r hidden in
      (
        gone,
        hidden,
        restored r names pk hidden gone,
        shown,
        rw (found, perform_destroy) refl,
        stored,
        rw (marked_lem (r.deleted now) (user by) (instant stamped) row) unlike,
        rw (stored, perform_restore) refl,
        get-put_self pk shown gone.rows,
        rw (marked_lem r.active null null hidden) (value_equal_self r.active),
        kept_lem name r.active null null hidden off at by_name
            ∙ kept_lem name (r.deleted now) (user by) (instant stamped) row off at by_name,
      )

infer_values_unlike :
    (field : ModelField) (now : ℕ) (marker : ℕ → Value) (active : Value)
    → infer_values infer none field ≡ ok (marker, active)
    → value_equal (marker now) active ≡ false
unfolding infer_values value_equal
infer_values_unlike field now marker active h = elim (Bool-cases field.is_boolean) [
  | inl b ↦ unlike (λ t. boolean true) (boolean false) refl (rw b at h)
  | inr b ↦ elim (Bool-cases (field.is_datetime && field.is_null)) [
    | inl t ↦ unlike (λ t. instant t) null refl (rw t at (rw b at h))
    | inr t ↦ (let refused = rw t at (rw b at h) in cc)
  ]
]
  where
    unlike :
        (m : ℕ → Value) (a : Value)
        → value_equal (m now) a ≡ false
        → ◌≡◌ {A = Outcome SoftError ((ℕ → Value) × Value)} (ok (m, a)) (ok (marker, active))
        → value_equal (marker now) active ≡ false
    unlike m a differ e =
        let same_marker : m ≡ marker = cc in
        let same_active : a ≡ active = cc in
        subst (λ x. value_equal (marker now) x ≡ false) same_active
          (subst (λ f. value_equal (f now) a ≡ false) same_marker differ)

ok_injective :
    (a b : ResolvedConfig) → ◌≡◌ {A = Outcome SoftError ResolvedConfig} (ok a) (ok b) → a ≡ b
ok_injective a b h = cc

-- A configuration that names neither value marks a deleted row otherwise than an active one.
pub resolved-unlike :
    (model : ℕ → Option ModelField) (soft_deletable : Bool) (deleted_by now : ℕ)
    (config : SoftConfig) (r : ResolvedConfig)
    → config.deleted ≡ infer
    → config.active ≡ none
    → resolved model soft_deletable deleted_by config ≡ ok r
    → value_equal (r.deleted now) r.active ≡ false
unfolding resolved
resolved-unlike model soft_deletable deleted_by now config r d a h =
    let (field, found, h1) = bind_ok (found_field (model config.field)) _ r h in
    let ((marker, active), inferred, h2) =
      bind_ok (infer_values config.deleted config.active field) _ r h1 in
    let (t1, s1, h3) =
      bind_ok (check_stamp model (λ f. f.is_datetime && f.is_null) config.deleted_at) _ r h2 in
    let (t2, s2, h4) =
      bind_ok
        (check_stamp model (λ f. f.many_to_one && f.is_null)
          (with_stamp soft_deletable deleted_by config).deleted_by)
        _ r h3 in
    let differ = infer_values_unlike field now marker active (rw a at (rw d at inferred)) in
    subst (λ x. value_equal (x.deleted now) x.active ≡ false) (ok_injective _ r h4) differ
