-- ===== src/Jobs/Outcomes.antt =====
-- How a run ends.
use ninja_devx.Prelude.{
  ℕ, arith, inl, List, ◌≡◌, ◌⊎◌, some, refl, ◌∷◌, Bool-cases, leb, inr, [], true, false, String,
  ◌≤◌, ◌+◌, suc, ◌∙◌, zero, ◌≢◌, ap, sym,
}
use ninja_devx.Jobs.Run.{
  play, Event, Ending, request_cancel, cancel_now, report, attempt, raised, Try, conclude,
  run_tries, Resolved, returned, run_job, lookup_error, found, unstorable,
}
use ninja_devx.Jobs.Defs.{
  set_progress, Job, Jobs, cancelled, negsuc, pos, with_progress, cancel, cancellable,
  finish_succeeded, is_terminal, finish_failed, start_try, alive, succeeded, failed, running,
}
use ninja_devx.Prelude.Table.{get, get-update, put, update-some, get-put_self}
use ninja_devx.Jobs.Cancel.{attempt-cancelled}

-- The row after the events of a try: the attempts are as before, and the status too, unless the
-- job was cancelled.
record Kept (r s : Job) : Type 0 where
  attempts : s.attempts ≡ r.attempts
  status : (s.status ≡ r.status) ⊎ (s.status ≡ cancelled)

Kept-refl : (r : Job) → Kept r r
Kept-refl r = record { attempts = refl; status = inl refl }

Kept-trans : {r s t : Job} → Kept r s → Kept s t → Kept r t
Kept-trans h k = ground arith

-- One row is there, and stands in a relation to the row before.
abbrev pub Row : (Job → Type 0) → ℕ → Jobs → Type 0
Row P id jobs = (r : Job) × (get id jobs ≡ some r) × P r

pub get-with_progress :
    (id n : ℕ) (r : Job) (jobs : Jobs)
    → get id jobs ≡ some r
    → get id (with_progress id n jobs) ≡ some (record r { progress = n })
unfolding with_progress
get-with_progress id n r jobs h = rw get-update (rw h (ground arith))

cancel_now-Row :
    (id now : ℕ) (r : Job) (jobs : Jobs)
    → get id jobs ≡ some r
    → Row (Kept r) id (cancel_now id now jobs)
unfolding cancel_now cancel
cancel_now-Row id now r jobs h = elim (Bool-cases (cancellable r.status)) [
  | inl open_job ↦ (
    record r { status = cancelled; finished = some now },
    rw (h, cancel_now) (rw open_job (rw get-update (rw h (ground arith)))),
    record { attempts = refl; status = inr refl },
  )
  | inr closed ↦ (r, rw (h, cancel_now) (rw closed h), Kept-refl r)
]

pub play-report_small :
    (id n : ℕ) (events : List Event) (ending : Ending) (jobs : Jobs)
    → leb n 100 ≡ true
    → play id (report (pos n) ∷ events) ending jobs
      ≡ play id events ending (with_progress id n jobs)
unfolding play set_progress
play-report_small id n events ending jobs h = rw (h, play) refl

pub play-report_large :
    (id n : ℕ) (events : List Event) (ending : Ending) (jobs : Jobs)
    → leb n 100 ≡ false
    → play id (report (pos n) ∷ events) ending jobs
      ≡ (raised "percent must be between 0 and 100", jobs)
unfolding play set_progress
play-report_large id n events ending jobs h = rw (h, play) refl

play-Row :
    (id : ℕ) (events : List Event) (ending : Ending) (r : Job) (jobs : Jobs)
    → get id jobs ≡ some r
    → Row (Kept r) id (play id events ending jobs).1
unfolding play set_progress
play-Row id [] ending r jobs h = (r, h, Kept-refl r)
play-Row id (request_cancel now ∷ events) ending r jobs h =
    let (s, at_s, k) = cancel_now-Row id now r jobs h in
    let (t, at_t, l) = play-Row id events ending s (cancel_now id now jobs) at_s in
    (t, at_t, Kept-trans k l)
play-Row id (report (negsuc n) ∷ events) ending r jobs h = (r, h, Kept-refl r)
play-Row id (report (pos n) ∷ events) ending r jobs h =
    let moved : Job = record r { progress = n } in
    let at_moved = get-with_progress id n r jobs h in
    let (t, at_t, l) = play-Row id events ending moved (with_progress id n jobs) at_moved in
    elim (Bool-cases (leb n 100)) [
      | inl small ↦
          rw (play-report_small id n events ending jobs small)
            (t, at_t, record { attempts = l.attempts; status = l.status })
      | inr large ↦ rw (play-report_large id n events ending jobs large) (r, h, Kept-refl r)
    ]

-- An error of `set_progress` is one of the function.
play-unstorable :
    (id : ℕ) (events : List Event) (ending : Ending) (jobs : Jobs)
    → ending ≢ unstorable
    → (play id events ending jobs).0 ≢ unstorable
unfolding play set_progress
play-unstorable id [] ending jobs fits e = fits e
play-unstorable id (request_cancel now ∷ events) ending jobs fits e =
    play-unstorable id events ending (cancel_now id now jobs) fits e
play-unstorable id (report (negsuc n) ∷ events) ending jobs fits e = cc
play-unstorable id (report (pos n) ∷ events) ending jobs fits e = elim (Bool-cases (leb n 100)) [
  | inl small ↦
      play-unstorable id events ending (with_progress id n jobs) fits (
        ap (λ (x : Ending × Jobs). x.0) (sym (play-report_small id n events ending jobs small)) ∙ e)
  | inr large ↦
      (let other : raised "percent must be between 0 and 100" ≡ unstorable =
          ap (λ (x : Ending × Jobs). x.0) (sym (play-report_large id n events ending jobs large))
          ∙ e in
        cc)
]

-- How a try leaves the row: over, with at most one more attempt, or unfinished and handed on.
start-Row :
    (id now : ℕ) (r : Job) (jobs : Jobs)
    → get id jobs ≡ some r
    → alive r ≡ true
    → start_try id now jobs ≡ (
      true,
      put id (record r { status = running; started = some now; attempts = r.attempts + 1 }) jobs,
    )
unfolding start_try
start-Row id now r jobs h a = update-some id alive _ jobs r h a

-- An unconditional ending of a row that is there is terminal, also where it was cancelled.
abbrev Over : ℕ → Job → Type 0
Over bound s = (is_terminal s.status ≡ true) × (s.attempts ≤ bound)

finish_failed-Row :
    (id now : ℕ) (error : String) (r : Job) (jobs : Jobs) (bound : ℕ)
    → get id jobs ≡ some r
    → r.attempts ≤ bound
    → Row (Over bound) id (finish_failed id now error jobs)
unfolding finish_failed
finish_failed-Row id now error r jobs bound h b = elim (Bool-cases (alive r)) [
  | inl a ↦ (
    record r { status = failed; error = error; finished = some now },
    rw get-update (rw h (ground arith)),
    (refl, b),
  )
  | inr c ↦ (r, rw get-update (rw h (ground arith)), (ground arith, b))
]

finish_succeeded-Row :
    (id now : ℕ) (result : String) (r : Job) (jobs : Jobs) (bound : ℕ)
    → get id jobs ≡ some r
    → r.attempts ≤ bound
    → Row (Over bound) id (finish_succeeded id now result jobs)
unfolding finish_succeeded
finish_succeeded-Row id now result r jobs bound h b = elim (Bool-cases (alive r)) [
  | inl a ↦ (
    record r { status = succeeded; progress = 100; result = result; finished = some now },
    rw get-update (rw h (ground arith)),
    (refl, b),
  )
  | inr c ↦ (r, rw get-update (rw h (ground arith)), (ground arith, b))
]

-- What may follow an exception of a try that had left the row with `n` attempts.
abbrev Hands : ℕ → ℕ → ℕ → (String → Jobs → Jobs) → Type 0
Hands id n bound on_error =
    (error : String) (s : Job) (jobs : Jobs)
    → get id jobs ≡ some s
    → s.attempts ≡ n
    → Row (Over bound) id (on_error error jobs)

conclude-Over :
    (id now : ℕ) (on_error : String → Jobs → Jobs) (ending : Ending) (s : Job) (jobs : Jobs)
    (bound : ℕ)
    → get id jobs ≡ some s
    → s.attempts ≤ bound
    → Hands id s.attempts bound on_error
    → ending ≢ unstorable
    → Row (Over bound) id (conclude id now on_error ending jobs)
unfolding conclude
conclude-Over id now on_error (returned result) s jobs bound h b rest fits =
    finish_succeeded-Row id now result s jobs bound h b
conclude-Over id now on_error unstorable s jobs bound h b rest fits = absurd (fits refl)
conclude-Over id now on_error (raised error) s jobs bound h b rest fits = rest error s jobs h refl

-- The row as `start_try` leaves it.
abbrev pub begun : ℕ → Job → Job
begun now r = record r { status = running; started = some now; attempts = r.attempts + 1 }

pub attempt-alive :
    (try : Try) (id : ℕ) (on_error : String → Jobs → Jobs) (r : Job) (jobs : Jobs)
    → get id jobs ≡ some r
    → alive r ≡ true
    → attempt try id on_error jobs ≡ (
        let (ending, jobs2) =
          play id try.events try.ending (put id (begun try.started_at r) jobs) in
        conclude id try.finished_at on_error ending jobs2)
unfolding attempt
attempt-alive try id on_error r jobs h a = rw (start-Row id try.started_at r jobs h a) refl

attempt-Over :
    (try : Try) (id : ℕ) (on_error : String → Jobs → Jobs) (r : Job) (jobs : Jobs) (bound : ℕ)
    → get id jobs ≡ some r
    → r.attempts + 1 ≤ bound
    → Hands id (r.attempts + 1) bound on_error
    → try.ending ≢ unstorable
    → Row (Over bound) id (attempt try id on_error jobs)
attempt-Over try id on_error r jobs bound h b rest fits = elim (Bool-cases (alive r)) [
  | inr dead ↦
      let c : r.status ≡ cancelled = ground arith in
      rw (attempt-cancelled try id on_error r jobs h c) (r, h, (rw c refl, omega arith))
  | inl a ↦
      let jobs1 = put id (begun try.started_at r) jobs in
      let (s, at_s, k) =
        play-Row id try.events try.ending (begun try.started_at r) jobs1 (get-put_self id _ jobs) in
      rw (attempt-alive try id on_error r jobs h a) (
        conclude-Over id try.finished_at on_error (play id try.events try.ending jobs1).0 s
          (play id try.events try.ending jobs1).1 bound at_s (rw k.attempts b)
          (λ e t j g m. rest e t j g (m ∙ k.attempts))
          (play-unstorable id try.events try.ending jobs1 fits))
]

run_tries-Over :
    (tries : ℕ → Try) (id left nth : ℕ) (r : Job) (jobs : Jobs) (bound : ℕ)
    → ((n : ℕ) → (tries n).ending ≢ unstorable)
    → get id jobs ≡ some r
    → r.attempts + left + 1 ≤ bound
    → Row (Over bound) id (run_tries tries id left nth jobs)
unfolding run_tries
run_tries-Over tries id zero nth r jobs bound fits h b =
    attempt-Over (tries nth) id _ r jobs bound h (omega arith)
      (λ e s j g m. finish_failed-Row id (tries nth).finished_at e s j bound g (omega arith))
      (fits nth)
run_tries-Over tries id (suc left) nth r jobs bound fits h b =
    attempt-Over (tries nth) id _ r jobs bound h (omega arith)
      (λ e s j g m. run_tries-Over tries id left (nth + 1) s j bound fits g (omega arith))
      (fits nth)

-- Every result that the function may return can be stored.
abbrev pub Storable : Resolved → Type 0
Storable (lookup_error error now) = Unit
Storable (found tries) = (n : ℕ) → (tries n).ending ≢ unstorable

-- A run of a job that exists, whose function returns only results that can be stored, always ends:
-- its row is then succeeded, failed or cancelled, and the function was started at most once more
-- than the number of retries.
pub run_job-terminal :
    (resolved : Resolved) (id retry : ℕ) (row : Job) (jobs : Jobs)
    → Storable resolved
    → get id jobs ≡ some row
    → (after : Job) × (get id (run_job resolved id retry jobs) ≡ some after)
      × (is_terminal after.status ≡ true)
      × (after.attempts ≤ row.attempts + retry + 1)
unfolding run_job
run_job-terminal (lookup_error e now) id retry row jobs fits h =
    let (a, g, o) =
      finish_failed-Row id now e row jobs (row.attempts + retry + 1) h (omega arith) in
    (a, g, o.0, o.1)
run_job-terminal (found tries) id retry row jobs fits h =
    let (a, g, o) =
      run_tries-Over tries id retry 0 row jobs (row.attempts + retry + 1) fits h (omega arith) in
    (a, g, o.0, o.1)
