-- ===== src/Dependencies/Overrides.antt =====
-- An override is undone when its block ends.
use ninja_devx.Prelude.{
  ℕ, Option, ◌≡◌, if◌then◌else◌, ◌==◌, some, arith, none, ◌∙◌, Bool-cases, inl, inr, refl,
}
use ninja_devx.Prelude.Table.{Table, get, drop, get-put, get-drop, get-put_self}
use ninja_devx.Dependencies.Container.{
  override_enter, put_back, override_exit, register_instance, register, Registry,
}

get-put_back :
    {A : Type 0} (key j : ℕ) (old : Option A) (rows : Table A)
    → get j (put_back key old (drop key rows)) ≡ (if key == j then old else get j rows)
get-put_back key j none rows = ground (arith, get-drop key j rows)
get-put_back key j (some a) rows =
    ground (arith, get-drop key j rows, get-put key j a (drop key rows))

at_key :
    {A : Type 0} (key j : ℕ) (rows : Table A) (other : Option A)
    → (if key == j then get key rows else other) ≡ (if key == j then get j rows else other)
at_key key j rows other = elim (Bool-cases (key == j)) [
  | inl e ↦ (let same : key ≡ j = ground arith in rw same refl)
  | inr e ↦ rw e refl
]

-- Inside the block of an override the key has the given instance; after it the key has the provider
-- and the instance of before, whatever the block did with it, and each other key what the block
-- left.
pub override-restores :
    (key factory value j : ℕ) (c inside : Registry)
    → (get key (override_enter key factory value c).1.instances ≡ some value)
      × (get j (override_exit key (override_enter key factory value c).0 inside).providers
          ≡ (if key == j then get j c.providers else get j inside.providers))
      × (get j (override_exit key (override_enter key factory value c).0 inside).instances
          ≡ (if key == j then get j c.instances else get j inside.instances))
unfolding override_enter override_exit register_instance register
override-restores key factory value j c inside = (
  get-put_self key value (drop key c.instances),
  get-put_back key j (get key c.providers) inside.providers ∙ at_key key j c.providers _,
  get-put_back key j (get key c.instances) inside.instances ∙ at_key key j c.instances _,
)
