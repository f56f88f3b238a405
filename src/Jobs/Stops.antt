-- ===== src/Jobs/Stops.antt =====
-- A cancellation that arrives while the job runs.
use ninja_devx.Prelude.{ℕ, String, ◌≡◌, ◌+◌, some, true, suc, zero, refl, inl, inr, ap, ◌∙◌, Bool}
use ninja_devx.Jobs.Run.{
  Ending, Try, play, returned, unstorable, raised, conclude, run_tries, attempt, run_job, found,
}
use ninja_devx.Jobs.Defs.{Job, Jobs, cancelled, alive, finish_succeeded}
use ninja_devx.Prelude.Table.{get, get-put_self, put, update-miss}
use ninja_devx.Jobs.Cancel.{finish_failed-cancelled, attempt-cancelled}
use ninja_devx.Jobs.Outcomes.{Row, begun, attempt-alive}
use ninja_devx.Jobs.Verdict.{ending_of, play-effective}
use ninja_devx.Jobs.Interrupts.{IsStopped, Cancels, Unfinished, play-Tried, play-Cancels}

-- A try that is made is cancelled: the one of number `nth`, with `left` retries behind it, or one
-- that follows an exception.
pub data Stops (tries : ℕ → Try) : ℕ → ℕ → Type 0 where
  here : {left nth : ℕ} → Cancels (tries nth).events → Stops tries left nth
  there :
      {left nth : ℕ} (error : String)
      → ending_of (tries nth) ≡ raised error
      → Stops tries left (nth + 1)
      → Stops tries (suc left) nth

finish_succeeded-cancelled :
    (id now : ℕ) (result : String) (row : Job) (jobs : Jobs)
    → get id jobs ≡ some row
    → row.status ≡ cancelled
    → finish_succeeded id now result jobs ≡ jobs
unfolding finish_succeeded
finish_succeeded-cancelled id now result row jobs h c =
    ap (λ (u : Bool × Jobs). u.1) (update-miss id alive _ jobs (rw h (rw c refl)))

run_tries-cancelled :
    (tries : ℕ → Try) (id left nth : ℕ) (row : Job) (jobs : Jobs)
    → get id jobs ≡ some row
    → row.status ≡ cancelled
    → run_tries tries id left nth jobs ≡ jobs
unfolding run_tries
run_tries-cancelled tries id zero nth row jobs h c = attempt-cancelled (tries nth) id _ row jobs h c
run_tries-cancelled tries id (suc left) nth row jobs h c =
    attempt-cancelled (tries nth) id _ row jobs h c

-- What follows an exception leaves the table of a cancelled job as it is.
abbrev Idle : ℕ → (String → Jobs → Jobs) → Type 0
Idle id on_error =
    (error : String) (s : Job) (jobs : Jobs)
    → get id jobs ≡ some s
    → s.status ≡ cancelled
    → on_error error jobs ≡ jobs

conclude-cancelled :
    (id now : ℕ) (on_error : String → Jobs → Jobs) (ending : Ending) (s : Job) (jobs : Jobs)
    → Idle id on_error
    → get id jobs ≡ some s
    → s.status ≡ cancelled
    → conclude id now on_error ending jobs ≡ jobs
unfolding conclude
conclude-cancelled id now on_error (returned result) s jobs idle h c =
    finish_succeeded-cancelled id now result s jobs h c
conclude-cancelled id now on_error unstorable s jobs idle h c = refl
conclude-cancelled id now on_error (raised error) s jobs idle h c = idle error s jobs h c

attempt-Cancels :
    (try : Try) (id : ℕ) (on_error : String → Jobs → Jobs) (r s : Job) (jobs : Jobs)
    → Cancels try.events
    → Idle id on_error
    → Unfinished r s
    → get id jobs ≡ some s
    → alive s ≡ true
    → Row (IsStopped r) id (attempt try id on_error jobs)
attempt-Cancels try id on_error r s jobs c idle k h a =
    let jobs1 = put id (begun try.started_at s) jobs in
    let (t, at_t, stopped) =
      play-Cancels id r try.events try.ending (begun try.started_at s) jobs1 c
        (record { result = k.result; error = k.error }) (get-put_self id _ jobs) refl in
    rw (attempt-alive try id on_error s jobs h a) (
      rw
        (conclude-cancelled id try.finished_at on_error (play id try.events try.ending jobs1).0 t
          (play id try.events try.ending jobs1).1 idle at_t stopped.status)
        (t, at_t, stopped))

run_tries-Idle :
    (tries : ℕ → Try) (id left nth : ℕ) → Idle id (λ error jobs'. run_tries tries id left nth jobs')
run_tries-Idle tries id left nth error s jobs h c = run_tries-cancelled tries id left nth s jobs h c

-- A try that raises, then the later tries, one of which is cancelled.
attempt-later :
    (try : Try) (id : ℕ) (on_error : String → Jobs → Jobs) (r s : Job) (jobs : Jobs)
    (error : String)
    → Idle id on_error
    → Unfinished r s
    → get id jobs ≡ some s
    → alive s ≡ true
    → ending_of try ≡ raised error
    → ((t : Job) (later : Jobs)
        → Unfinished r t
        → get id later ≡ some t
        → alive t ≡ true
        → Row (IsStopped r) id (on_error error later))
    → Row (IsStopped r) id (attempt try id on_error jobs)
unfolding ending_of
attempt-later try id on_error r s jobs error idle k h a fails rest =
    let jobs1 = put id (begun try.started_at s) jobs in
    let jobs2 = (play id try.events try.ending jobs1).1 in
    let (t, at_t, tried) =
      play-Tried id r try.events try.ending (begun try.started_at s) jobs1
        (record { result = k.result; error = k.error }) (get-put_self id _ jobs) refl in
    let same : (play id try.events try.ending jobs1).0 ≡ raised error =
      play-effective id try.events try.ending jobs1 ∙ fails in
    rw (attempt-alive try id on_error s jobs h a, same)
      (unfold conclude in
        elim tried.status [
          | inl live ↦ rest t jobs2 tried.kept at_t (rw live refl)
          | inr c ↦
              rw (idle error t jobs2 at_t c) (
                t,
                at_t,
                record { status = c; result = tried.kept.result; error = tried.kept.error },
              )
        ])

module _ (tries : ℕ → Try) (id : ℕ) (r : Job) where
  run_tries-IsStopped :
      (left nth : ℕ) (s : Job) (jobs : Jobs)
      → Stops tries left nth
      → Unfinished r s
      → get id jobs ≡ some s
      → alive s ≡ true
      → Row (IsStopped r) id (run_tries tries id left nth jobs)
  unfolding run_tries
  run_tries-IsStopped zero nth s jobs (here c) k h a =
      attempt-Cancels (tries nth) id _ r s jobs c
        (λ e t j g d. finish_failed-cancelled id (tries nth).finished_at e t j g d) k h a
  run_tries-IsStopped (suc left) nth s jobs (here c) k h a =
      attempt-Cancels (tries nth) id _ r s jobs c (run_tries-Idle tries id left (nth + 1)) k h a
  run_tries-IsStopped (suc left) nth s jobs (there error fails more) k h a =
      attempt-later (tries nth) id _ r s jobs error (run_tries-Idle tries id left (nth + 1)) k h a
        fails
        λ t later kept g alive_t. run_tries-IsStopped left (nth + 1) t later more kept g alive_t

-- A cancellation that arrives in a try that is made, before the function ends, is final: whether
-- the function then returns or raises, and however many retries are left, the row ends cancelled,
-- with the result and the error that it had before the run.
pub run_job-IsStopped :
    (tries : ℕ → Try) (id retry : ℕ) (row : Job) (jobs : Jobs)
    → get id jobs ≡ some row
    → alive row ≡ true
    → Stops tries retry 0
    → (after : Job) × (get id (run_job (found tries) id retry jobs) ≡ some after)
      × IsStopped row after
unfolding run_job
run_job-IsStopped tries id retry row jobs h a stops =
    run_tries-IsStopped tries id row retry 0 row jobs stops (record { result = refl; error = refl })
      h a
