-- ===== src/Dependencies/Container.antt =====
-- The registrations of `Container`, and the tasks that wait for a build of another task.
use ninja_devx.Prelude.{ℕ, Option, Outcome, some, raise, none, suc, if◌then◌else◌, ◌==◌, ok, zero}
use ninja_devx.Prelude.Table.{Table, get, put, drop}
use ninja_devx.Dependencies.Defs.{
  Provider, singleton, plain, DependencyError, out_of_fuel, circular,
}

pub record Registry : Type 0 where
  pub providers : Table Provider
  pub instances : Table ℕ

-- `register`: what was built for the key is forgotten.
unfoldable pub register : ℕ → Provider → Registry → Registry
register key p c = record { providers = put key p c.providers; instances = drop key c.instances }

-- `instance`, where `factory` returns the value.
unfoldable pub register_instance : ℕ → ℕ → ℕ → Registry → Registry
unfolding register
register_instance key factory value c =
    let c' = register key (record { factory = factory; lifetime = singleton; kind = plain }) c in
    record c' { instances = put key value c'.instances }

abbrev pub put_back : {A : Type 0} → ℕ → Option A → Table A → Table A
put_back key none rows = rows
put_back key (some a) rows = put key a rows

-- `override` up to the `yield`, and its `finally` block, which puts back what the first part read.
unfoldable pub override_enter : ℕ → ℕ → ℕ → Registry → (Option Provider × Option ℕ) × Registry
unfolding register_instance
override_enter key factory value c =
    ((get key c.providers, get key c.instances), register_instance key factory value c)

unfoldable pub override_exit : ℕ → Option Provider × Option ℕ → Registry → Registry
override_exit key (provider, instance_of) c = record {
  providers = put_back key provider (drop key c.providers);
  instances = put_back key instance_of (drop key c.instances);
}

-- `track_waiter`: the task that a task waits for. The loop recurses on fuel.
unfoldable pub track_waiter : ℕ → ℕ → ℕ → ℕ → Table ℕ → Outcome DependencyError (Table ℕ)
track_waiter zero waiter owner cursor waiting = raise out_of_fuel
track_waiter (suc fuel) waiter owner cursor waiting =
    if cursor == waiter then raise circular else elim (get cursor waiting) [
      | none ↦ ok (put waiter owner waiting)
      | some next ↦ track_waiter fuel waiter owner next waiting
    ]

-- `release_waiter`
unfoldable pub release_waiter : ℕ → Table ℕ → Table ℕ
release_waiter waiter waiting = drop waiter waiting
