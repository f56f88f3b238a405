-- ===== src/Jobs/Run.antt =====
-- `resolve_job` and `run_job`. What the job function does is given: for each try the changes that
-- are made to the table while it runs, and whether it returns or raises. A run is the table that it
-- leaves, also where the error of a result that JSON cannot store leaves `run_job`.
use ninja_devx.Prelude.{
  ℕ, String, Bool, List, Option, true, raise, false, suc, if◌then◌else◌, ◌+◌, ok, [], zero, none,
  ◌∷◌, some,
}
use ninja_devx.Jobs.Defs.{
  cancel, ℤ, Status, Jobs, start_try, set_progress, finish_failed, finish_succeeded, failed,
  cancelled,
}
use ninja_devx.Prelude.Table.{get}

-- What happens to the job's row during a try.
pub data Event : Type 0 where
  -- `ctx.set_progress(percent)` by the function; a value out of range raises in the function
  report : ℤ → Event
  -- `POST /{id}/cancel` by another request, at an instant
  request_cancel : ℕ → Event

-- A result is its JSON text; `unstorable` is a result on which `_json_safe` raises.
pub data Ending : Type 0 where
  returned : String → Ending
  unstorable : Ending
  raised : String → Ending

pub record Try : Type 0 where
  pub started_at : ℕ
  pub events : List Event
  pub ending : Ending
  pub finished_at : ℕ

-- The operation loads the job and cancels it.
unfoldable pub cancel_now : ℕ → ℕ → Jobs → Jobs
unfolding cancel
cancel_now id now jobs = elim (get id jobs) [ none ↦ jobs | some row ↦ cancel id row now jobs ]

-- The function up to its ending; an error of `set_progress` is its ending.
unfoldable pub play : ℕ → List Event → Ending → Jobs → Ending × Jobs
unfolding cancel_now
play id [] ending jobs = (ending, jobs)
play id (request_cancel now ∷ events) ending jobs = play id events ending (cancel_now id now jobs)
play id (report percent ∷ events) ending jobs = elim (set_progress id percent jobs) [
  | raise e ↦ (raised "percent must be between 0 and 100", jobs)
  | ok jobs' ↦ play id events ending jobs'
]

-- The `except` clause and the lines behind it. `on_error` is what follows an exception of the
-- function. The error of `_json_safe` is raised outside the `try`: it leaves `run_job` before the
-- row is finished.
unfoldable pub conclude : ℕ → ℕ → (String → Jobs → Jobs) → Ending → Jobs → Jobs
conclude id now on_error (returned result) jobs = finish_succeeded id now result jobs
conclude id now on_error unstorable jobs = jobs
conclude id now on_error (raised error) jobs = on_error error jobs

-- One round of the `while True` loop.
unfoldable pub attempt : Try → ℕ → (String → Jobs → Jobs) → Jobs → Jobs
unfolding conclude
attempt try id on_error jobs =
    let (started, jobs1) = start_try id try.started_at jobs in
    let (ending, jobs2) = play id try.events try.ending jobs1 in
    if started then conclude id try.finished_at on_error ending jobs2 else jobs1

-- The loop, by recursion on the retries that are left: `tries <= retry` holds exactly while one is
-- left. `nth` counts the tries from 0.
unfoldable pub run_tries : (ℕ → Try) → ℕ → ℕ → ℕ → Jobs → Jobs
unfolding attempt
run_tries tries id zero nth jobs =
    attempt (tries nth) id (finish_failed id (tries nth).finished_at) jobs
run_tries tries id (suc left) nth jobs =
    attempt (tries nth) id (λ error jobs'. run_tries tries id left (nth + 1) jobs') jobs

-- `run_job`; `resolved` is the function that the target names, or the text of the lookup error
-- with the instant at which it is stored.
pub data Resolved : Type 0 where
  found : (ℕ → Try) → Resolved
  lookup_error : String → ℕ → Resolved

unfoldable pub run_job : Resolved → ℕ → ℕ → Jobs → Jobs
unfolding run_tries
run_job (lookup_error error now) id retry jobs = finish_failed id now error jobs
run_job (found tries) id retry jobs = run_tries tries id retry 0 jobs

-- `devx_jobs retry <id>`: `none` is the `CommandError` for a missing job or another status. An
-- error that leaves `run_job` leaves the command, with the same table.
abbrev retriable : Status → Bool
retriable failed = true
retriable cancelled = true
retriable _ = false

unfoldable pub retry_command : Resolved → ℕ → ℕ → Jobs → Option Jobs
retry_command resolved id retry_count jobs = elim (get id jobs) [
  | none ↦ none
  | some row ↦ (if retriable row.status then some (run_job resolved id retry_count jobs) else none)
]
