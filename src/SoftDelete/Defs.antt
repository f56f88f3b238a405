-- ===== src/SoftDelete/Defs.antt =====
-- `SoftDelete`, its resolution against a model, and the deletion and restoration of a row. A field
-- and a related accessor are numbers, and so is an instant.
use ninja_devx.Prelude.{
  ◌∷◌, [], Option, Bool, Outcome, List, false, ℕ, ok, true, if◌then◌else◌, some, not, none, ◌>>=◌,
  ◌==◌, ◌&&◌, raise, ◌||◌, require, ◌>>◌, is_none,
}
use ninja_devx.Prelude.Table.{put, Table, get}

-- The value of a field: `None`, a Boolean, an instant, a user, or any other.
pub data Value : Type 0 where
  null : Value
  boolean : Bool → Value
  instant user other : ℕ → Value

-- What is written on a deletion: `INFER`, a value, or a callable, which may read the clock.
pub data Setting : Type 0 where
  infer : Setting
  fixed : Value → Setting
  computed : (ℕ → Value) → Setting

-- What `resolved` asks of a model field.
pub record ModelField : Type 0 where
  pub is_boolean : Bool
  pub is_datetime : Bool
  pub is_null : Bool
  pub many_to_one : Bool

-- `ControllerConfigError`, and the `DatabaseError` of a row that is gone.
pub data SoftError : Type 0 where
  config_error row_gone : SoftError

-- `active` is a value, or `none` for `INFER`.
pub record SoftConfig : Type 0 where
  pub field : ℕ
  pub deleted : Setting
  pub active : Option Value
  pub deleted_at : Option ℕ
  pub deleted_by : Option ℕ

-- `_Resolved`: what the row gets when it is deleted, at an instant, and the value of an active row.
pub record ResolvedConfig : Type 0 where
  pub config : SoftConfig
  pub deleted : ℕ → Value
  pub active : Value

abbrev pub given : Setting → (ℕ → Value) → ℕ → Value
given infer default = default
given (fixed v) default = λ now. v
given (computed f) default = f

abbrev pub value_of : Option Value → Value → Value
value_of none default = default
value_of (some v) default = v

-- `not deleted if isinstance(deleted, bool) else False`
abbrev pub opposite : Setting → Value
opposite infer = boolean false
opposite (fixed (boolean b)) = boolean (not b)
opposite _ = boolean false

abbrev pub is_infer : Setting → Bool
is_infer infer = true
is_infer _ = false

-- The two fields that a deletion may stamp.
abbrev pub check_stamp :
    (ℕ → Option ModelField) → (ModelField → Bool) → Option ℕ → Outcome SoftError (Unit {0})
check_stamp model suits none = ok tt
check_stamp model suits (some name) = elim (model name) [
  | none ↦ raise config_error
  | some field ↦ require (suits field) config_error
]

-- `SoftDeletable` models have a field `deleted_by`.
abbrev pub with_stamp : Bool → ℕ → SoftConfig → SoftConfig
with_stamp soft_deletable deleted_by config = elim config.deleted_by [
  | none ↦ (if soft_deletable then record config { deleted_by = some deleted_by } else config)
  | some name ↦ config
]

-- The two values, by the kind of the marker field.
unfoldable pub infer_values :
    Setting → Option Value → ModelField → Outcome SoftError ((ℕ → Value) × Value)
infer_values deleted active field =
    if field.is_boolean
    then ok (given deleted (λ now. boolean true), value_of active (opposite deleted))
    else if field.is_datetime && field.is_null
    then ok (given deleted (λ now. instant now), value_of active null)
    else if is_infer deleted || is_none active
    then raise config_error
    else ok (given deleted (λ now. null), value_of active null)

-- `resolve_field`
abbrev pub found_field : Option ModelField → Outcome SoftError ModelField
found_field none = raise config_error
found_field (some field) = ok field

-- `SoftDelete.resolved`
unfoldable pub resolved :
    (ℕ → Option ModelField) → Bool → ℕ → SoftConfig → Outcome SoftError ResolvedConfig
unfolding infer_values
resolved model soft_deletable deleted_by config = do
  field ← found_field (model config.field)
  (deleted, active) ← infer_values config.deleted config.active field
  check_stamp model (λ f. f.is_datetime && f.is_null) config.deleted_at
  check_stamp model (λ f. f.many_to_one && f.is_null)
      (with_stamp soft_deletable deleted_by config).deleted_by
  ok (record {
    config = with_stamp soft_deletable deleted_by config;
    deleted = deleted;
    active = active;
  })

-- The values of a row's fields.
abbrev pub Row : Type 0
Row = Table Value

unfoldable pub field_value : ℕ → Row → Value
field_value name row = elim (get name row) [ none ↦ null | some v ↦ v ]

unfoldable pub value_equal : Value → Value → Bool
value_equal null null = true
value_equal (boolean a) (boolean b) = if a then b else not b
value_equal (instant a) (instant b) = a == b
value_equal (user a) (user b) = a == b
value_equal (other a) (other b) = a == b
value_equal _ _ = false

-- `active_filter`
unfoldable pub is_active : ResolvedConfig → Row → Bool
unfolding field_value value_equal
is_active r row = value_equal (field_value r.config.field row) r.active

abbrev pub stamp : Option ℕ → Value → Row → Row
stamp none v row = row
stamp (some name) v row = put name v row

-- `_write` of `deleted_values`, and of `active_values`
unfoldable pub write_deleted : ResolvedConfig → ℕ → ℕ → ℕ → Row → Row
write_deleted r now stamped by row =
    stamp r.config.deleted_by (user by)
      (stamp r.config.deleted_at (instant stamped) (put r.config.field (r.deleted now) row))

unfoldable pub write_active : ResolvedConfig → Row → Row
write_active r row =
    stamp r.config.deleted_by null
      (stamp r.config.deleted_at null (put r.config.field r.active row))

-- The rows of the model, and the rows that an accessor of an object relates to it.
pub record Store : Type 0 where
  pub rows : Table Row
  pub related : ℕ → ℕ → List Row

abbrev pub mark_all : ℕ → Value → List Row → List Row
mark_all field v [] = []
mark_all field v (row ∷ rest) = put field v row ∷ mark_all field v rest

-- `_cascade` for one object
unfoldable pub cascade : List ℕ → ℕ → ℕ → Value → (ℕ → ℕ → List Row) → ℕ → ℕ → List Row
cascade [] field pk v related = related
cascade (name ∷ names) field pk v related =
    cascade names field pk v
      (λ j n. if j == pk && n == name then mark_all field v (related j n) else related j n)

-- What the two operations leave, for the row they read: the instants of a deletion are those of the
-- marker, of `deleted_at` and of the cascade.
abbrev pub destroyed : ResolvedConfig → List ℕ → ℕ → ℕ → ℕ → ℕ → ℕ → Row → Store → Store
destroyed r names now stamped late by pk row s = record {
  rows = put pk (write_deleted r now stamped by row) s.rows;
  related = cascade names r.config.field pk (r.deleted late) s.related;
}

abbrev pub restored : ResolvedConfig → List ℕ → ℕ → Row → Store → Store
restored r names pk row s = record {
  rows = put pk (write_active r row) s.rows;
  related = cascade names r.config.field pk r.active s.related;
}

-- `perform_destroy`
unfoldable pub perform_destroy :
    ResolvedConfig → List ℕ → ℕ → ℕ → ℕ → ℕ → ℕ → Store → Outcome SoftError Store
unfolding write_deleted cascade
perform_destroy r names now stamped late by pk s = elim (get pk s.rows) [
  | none ↦ raise row_gone
  | some row ↦ ok (destroyed r names now stamped late by pk row s)
]

-- `perform_restore`
unfoldable pub perform_restore : ResolvedConfig → List ℕ → ℕ → Store → Outcome SoftError Store
unfolding write_active cascade
perform_restore r names pk s = elim (get pk s.rows) [
  | none ↦ raise row_gone
  | some row ↦ ok (restored r names pk row s)
]
