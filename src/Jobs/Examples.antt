-- ===== src/Jobs/Examples.antt =====
-- Concrete jobs and tries.
use ninja_devx.Prelude.{ℕ, some, ◌∷◌, suc, none, zero, ◌≡◌, [], true, refl, ◌+◌, ◌≤◌, ◌≢◌}
use ninja_devx.Jobs.Defs.{
  Status, Jobs, Job, running, queued, cancelled, pos, start_try, succeeded, is_terminal,
  set_progress, with_progress, finish_succeeded,
}
use ninja_devx.Prelude.Table.{get, update, put}
use ninja_devx.Jobs.Run.{
  run_job, retry_command, run_tries, Try, found, report, attempt, raised, play, returned,
  unstorable, request_cancel,
}
use ninja_devx.Jobs.Verdict.{Quiet, Shows, verdict, run_job-Shows, ending_of, effective}
use ninja_devx.Jobs.Cancel.{retry_command-cancelled}
use ninja_devx.Jobs.Stops.{run_job-IsStopped, here, there}
use ninja_devx.Jobs.Interrupts.{IsStopped, reported, now_cancelled}
use ninja_devx.Jobs.Outcomes.{run_job-terminal}

abbrev row_with : Status → Job
row_with status = record {
  name = "Export report";
  status = status;
  function = "reports.export";
  arguments = "{}";
  created_by = some 7;
  tenant = "";
  progress = 0;
  result = "{}";
  error = "";
  attempts = 0;
  started = none;
  finished = none;
}

abbrev table_with : Status → Jobs
table_with status = (4, row_with status) ∷ []

-- The first try reports its progress and fails, and the later ones return.
flaky : ℕ → Try
flaky zero = record {
  started_at = 10;
  events = report (pos 50) ∷ [];
  ending = raised "timeout";
  finished_at = 11;
}
flaky (suc n) = record {
  started_at = 20;
  events = report (pos 80) ∷ [];
  ending = returned "rows=1000";
  finished_at = 25;
}

flaky-Quiet : (n : ℕ) → Quiet (flaky n).events
unfolding flaky
flaky-Quiet zero = tt
flaky-Quiet (suc n) = tt

-- The second try, which returns, is cancelled between two reports.
stopped : ℕ → Try
stopped zero = flaky zero
stopped (suc n) = record {
  started_at = 20;
  events = report (pos 80) ∷ request_cancel 22 ∷ report (pos 90) ∷ [];
  ending = returned "rows=1000";
  finished_at = 25;
}

run_job-IsStopped_example :
    (after : Job) × (get 4 (run_job (found stopped) 4 1 (table_with queued)) ≡ some after)
    × IsStopped (row_with queued) after
unfolding get stopped flaky ending_of effective
run_job-IsStopped_example =
    run_job-IsStopped stopped 4 1 (row_with queued) (table_with queued) refl refl
      (there "timeout" refl (here (reported refl now_cancelled)))

flaky-Storable : (n : ℕ) → (flaky n).ending ≢ unstorable
unfolding flaky
flaky-Storable zero e = cc
flaky-Storable (suc n) e = cc

retry_command-cancelled_example :
    retry_command (found flaky) 4 3 (table_with cancelled) ≡ some (table_with cancelled)
unfolding get
retry_command-cancelled_example =
    retry_command-cancelled (found flaky) 4 3 (row_with cancelled) (table_with cancelled) refl refl

run_job-terminal_example :
    (after : Job) × (get 4 (run_job (found flaky) 4 1 (table_with queued)) ≡ some after)
    × (is_terminal after.status ≡ true)
    × (after.attempts ≤ 0 + 1 + 1)
unfolding get
run_job-terminal_example =
    run_job-terminal (found flaky) 4 1 (row_with queued) (table_with queued) flaky-Storable refl

run_job-Shows_example :
    (after : Job) × (get 4 (run_job (found flaky) 4 1 (table_with queued)) ≡ some after)
    × Shows (verdict flaky 1 0).1 (0 + (verdict flaky 1 0).0) after
unfolding get
run_job-Shows_example =
    run_job-Shows flaky 4 1 (row_with queued) (table_with queued) flaky-Quiet refl refl

flaky_runs :
    get 4 (run_job (found flaky) 4 1 (table_with queued))
    ≡ some (record (row_with succeeded) {
      progress = 100;
      result = "rows=1000";
      attempts = 2;
      started = some 20;
      finished = some 25;
    })
unfolding run_job run_tries attempt start_try play set_progress with_progress finish_succeeded
    update get put flaky
flaky_runs = refl

-- A job whose result cannot be stored stays running, without a retry.
opaque : ℕ → Try
opaque n = record { started_at = 10; events = []; ending = unstorable; finished_at = 11 }

opaque_runs :
    get 4 (run_job (found opaque) 4 1 (table_with queued))
    ≡ some (record (row_with running) { attempts = 1; started = some 10 })
unfolding run_job run_tries attempt start_try play update get put opaque
opaque_runs = refl
