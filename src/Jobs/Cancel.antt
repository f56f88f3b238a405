-- ===== src/Jobs/Cancel.antt =====
-- Cancellation against the runner.
use ninja_devx.Prelude.{ℕ, String, ◌≡◌, some, ap, false, refl, suc, zero, Bool, ◌+◌}
use ninja_devx.Jobs.Run.{
  run_job, retry_command, attempt, Try, Resolved, lookup_error, found, run_tries,
}
use ninja_devx.Jobs.Defs.{start_try, finish_failed, Job, Jobs, cancelled, alive}
use ninja_devx.Prelude.Table.{get, update-miss}

-- A cancelled row is not started.
start_try-cancelled :
    (id now : ℕ) (row : Job) (jobs : Jobs)
    → get id jobs ≡ some row
    → row.status ≡ cancelled
    → start_try id now jobs ≡ (false, jobs)
unfolding start_try
start_try-cancelled id now row jobs h c = update-miss id alive _ jobs (rw h (rw c refl))

pub attempt-cancelled :
    (try : Try) (id : ℕ) (on_error : String → Jobs → Jobs) (row : Job) (jobs : Jobs)
    → get id jobs ≡ some row
    → row.status ≡ cancelled
    → attempt try id on_error jobs ≡ jobs
unfolding attempt
attempt-cancelled try id on_error row jobs h c =
    rw (start_try-cancelled id try.started_at row jobs h c) refl

pub finish_failed-cancelled :
    (id now : ℕ) (error : String) (row : Job) (jobs : Jobs)
    → get id jobs ≡ some row
    → row.status ≡ cancelled
    → finish_failed id now error jobs ≡ jobs
unfolding finish_failed
finish_failed-cancelled id now error row jobs h c =
    ap (λ (u : Bool × Jobs). u.1) (update-miss id alive _ jobs (rw h (rw c refl)))

-- The runner never changes a cancelled row, whatever the function does and however many retries
-- it has: `run_job` leaves the whole table as it is.
pub run_job-cancelled :
    (resolved : Resolved) (id retry : ℕ) (row : Job) (jobs : Jobs)
    → get id jobs ≡ some row
    → row.status ≡ cancelled
    → run_job resolved id retry jobs ≡ jobs
unfolding run_job run_tries
run_job-cancelled (lookup_error e now) id retry row jobs h c =
    finish_failed-cancelled id now e row jobs h c
run_job-cancelled (found tries) id zero row jobs h c =
    attempt-cancelled (tries 0) id (finish_failed id (tries 0).finished_at) row jobs h c
run_job-cancelled (found tries) id (suc left) row jobs h c =
    attempt-cancelled (tries 0) id (λ error jobs'. run_tries tries id left (0 + 1) jobs') row jobs h
      c

-- So `devx_jobs retry` accepts a cancelled job, and then does nothing: no try is made, and no row
-- changes.
pub retry_command-cancelled :
    (resolved : Resolved) (id retry_count : ℕ) (row : Job) (jobs : Jobs)
    → get id jobs ≡ some row
    → row.status ≡ cancelled
    → retry_command resolved id retry_count jobs ≡ some jobs
unfolding retry_command
retry_command-cancelled resolved id retry_count row jobs h c =
    rw (h, retry_command) (rw c (ap some (run_job-cancelled resolved id retry_count row jobs h c)))
