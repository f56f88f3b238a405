-- ===== src/Jobs/Verdict.antt =====
-- The result of a run that nobody cancels, against a description of it without the table.
use ninja_devx.Prelude.{
  List, ℕ, suc, ◌≡◌, ◌+◌, ◌∷◌, some, zero, [], String, Bool-cases, if◌then◌else◌, arith, leb, refl,
  inl, inr, ◌⊎◌, true,
}
use ninja_devx.Jobs.Run.{
  Ending, Try, play, returned, Event, raised, unstorable, request_cancel, report, cancel_now,
  conclude, run_tries, attempt, run_job, found,
}
use ninja_devx.Jobs.Defs.{
  Job, set_progress, Jobs, succeeded, failed, running, finish_succeeded, negsuc, finish_failed, pos,
  with_progress, alive,
}
use ninja_devx.Prelude.Table.{get, get-update, put, get-put_self}
use ninja_devx.Jobs.Outcomes.{
  Row, get-with_progress, play-report_small, play-report_large, begun, attempt-alive,
}

-- No event is a cancellation.
abbrev pub Quiet : List Event → Type 0
Quiet [] = Unit
Quiet (request_cancel now ∷ events) = ⊥
Quiet (report percent ∷ events) = Quiet events

-- How a try ends: a progress value out of range is an error of the function.
unfoldable pub effective : List Event → Ending → Ending
effective [] ending = ending
effective (request_cancel now ∷ events) ending = effective events ending
effective (report (negsuc n) ∷ events) ending = raised "percent must be between 0 and 100"
effective (report (pos n) ∷ events) ending =
    let rest = effective events ending in
    if leb n 100 then rest else raised "percent must be between 0 and 100"

unfoldable pub ending_of : Try → Ending
unfolding effective
ending_of try = effective try.events try.ending

-- The number of tries made, and the ending of the last one: the first that does not raise, or the
-- last that the retries allow.
pub verdict : (ℕ → Try) → ℕ → ℕ → ℕ × Ending
verdict tries zero nth = (1, ending_of (tries nth))
verdict tries (suc left) nth =
    let rest = verdict tries left (nth + 1) in
    elim (ending_of (tries nth)) [
      | returned result ↦ (1, returned result)
      | unstorable ↦ (1, unstorable)
      | raised error ↦ (rest.0 + 1, rest.1)
    ]

-- The row of a job that ended so after `n` attempts.
abbrev pub Shows : Ending → ℕ → Job → Type 0
Shows (returned result) n s =
    (s.status ≡ succeeded) × (s.progress ≡ 100) × (s.result ≡ result) × (s.attempts ≡ n)
Shows unstorable n s = (s.status ≡ running) × (s.attempts ≡ n)
Shows (raised error) n s = (s.status ≡ failed) × (s.error ≡ error) × (s.attempts ≡ n)

abbrev Same : Job → Job → Type 0
Same r s = (s.status ≡ r.status) × (s.attempts ≡ r.attempts)

play-Quiet :
    (id : ℕ) (events : List Event) (ending : Ending) (r : Job) (jobs : Jobs)
    → Quiet events
    → get id jobs ≡ some r
    → Row (Same r) id (play id events ending jobs).1
unfolding play set_progress
play-Quiet id [] ending r jobs q h = (r, h, (refl, refl))
play-Quiet id (request_cancel now ∷ events) ending r jobs q h = absurd q
play-Quiet id (report (negsuc n) ∷ events) ending r jobs q h = (r, h, (refl, refl))
play-Quiet id (report (pos n) ∷ events) ending r jobs q h =
    let (t, at_t, l) =
      play-Quiet id events ending (record r { progress = n }) (with_progress id n jobs) q
        (get-with_progress id n r jobs h) in
    elim (Bool-cases (leb n 100)) [
      | inl small ↦ rw (play-report_small id n events ending jobs small) (t, at_t, l)
      | inr large ↦ rw (play-report_large id n events ending jobs large) (r, h, (refl, refl))
    ]

pub play-effective :
    (id : ℕ) (events : List Event) (ending : Ending) (jobs : Jobs)
    → (play id events ending jobs).0 ≡ effective events ending
unfolding play set_progress effective
play-effective id [] ending jobs = refl
play-effective id (request_cancel now ∷ events) ending jobs =
    play-effective id events ending (cancel_now id now jobs)
play-effective id (report (negsuc n) ∷ events) ending jobs = refl
play-effective id (report (pos n) ∷ events) ending jobs = elim (Bool-cases (leb n 100)) [
  | inl small ↦
      rw (play-report_small id n events ending jobs small, small)
        (play-effective id events ending (with_progress id n jobs))
  | inr large ↦ rw (play-report_large id n events ending jobs large, large) refl
]

module _ (id now : ℕ) (s : Job) (jobs : Jobs) (h : get id jobs ≡ some s)
    (live : s.status ≡ running) where
  finish_succeeded-Shows :
      (result : String)
      → Row (Shows (returned result) s.attempts) id (finish_succeeded id now result jobs)
  unfolding finish_succeeded
  finish_succeeded-Shows result = (
    record s { status = succeeded; progress = 100; result = result; finished = some now },
    rw get-update (rw h (ground arith)),
    (refl, refl, refl, refl),
  )

  finish_failed-Shows :
      (error : String) → Row (Shows (raised error) s.attempts) id (finish_failed id now error jobs)
  unfolding finish_failed
  finish_failed-Shows error = (
    record s { status = failed; error = error; finished = some now },
    rw get-update (rw h (ground arith)),
    (refl, refl, refl),
  )

  -- The last try, after which an exception is stored.
  conclude-Shows :
      (ending : Ending)
      → Row (Shows ending s.attempts) id (conclude id now (finish_failed id now) ending jobs)
  unfolding conclude
  conclude-Shows (returned result) = finish_succeeded-Shows result
  conclude-Shows unstorable = (s, h, (live, refl))
  conclude-Shows (raised error) = finish_failed-Shows error

Ending-cases :
    (e : Ending)
    → ((r : String) × (e ≡ returned r)) ⊎ (e ≡ unstorable) ⊎ ((r : String) × (e ≡ raised r))
Ending-cases (returned r) = inl (r, refl)
Ending-cases unstorable = inr (inl refl)
Ending-cases (raised r) = inr (inr (r, refl))

-- A row that is in its try number `n`.
abbrev Busy : ℕ → Job → Type 0
Busy n s = (s.status ≡ running) × (s.attempts ≡ n)

attempt-Quiet :
    (try : Try) (id : ℕ) (on_error : String → Jobs → Jobs) (r : Job) (jobs : Jobs)
    → Quiet try.events
    → get id jobs ≡ some r
    → alive r ≡ true
    → (jobs2 : Jobs) × (attempt try id on_error jobs
        ≡ conclude id try.finished_at on_error (ending_of try) jobs2)
      × Row (Busy (r.attempts + 1)) id jobs2
unfolding ending_of
attempt-Quiet try id on_error r jobs q h a =
    let jobs1 = put id (begun try.started_at r) jobs in
    (
      (play id try.events try.ending jobs1).1,
      rw (attempt-alive try id on_error r jobs h a, play-effective id try.events try.ending jobs1)
          refl,
      play-Quiet id try.events try.ending (begun try.started_at r) jobs1 q (get-put_self id _ jobs),
    )

module _ (tries : ℕ → Try) (left nth : ℕ) where
  verdict-returned :
      (result : String)
      → ending_of (tries nth) ≡ returned result
      → verdict tries (suc left) nth ≡ (1, returned result)
  unfolding verdict
  verdict-returned result h = rw (h, verdict) refl

  verdict-unstorable :
      ending_of (tries nth) ≡ unstorable → verdict tries (suc left) nth ≡ (1, unstorable)
  unfolding verdict
  verdict-unstorable h = rw (h, verdict) refl

  verdict-raised :
      (error : String)
      → ending_of (tries nth) ≡ raised error
      → verdict tries (suc left) nth
        ≡ ((verdict tries left (nth + 1)).0 + 1, (verdict tries left (nth + 1)).1)
  unfolding verdict
  verdict-raised error h = rw (h, verdict) refl

module _ (tries : ℕ → Try) (quiet : (n : ℕ) → Quiet (tries n).events) (id : ℕ) where
  run_tries-Shows :
      (left nth : ℕ) (r : Job) (jobs : Jobs)
      → get id jobs ≡ some r
      → alive r ≡ true
      → Row
          (Shows (verdict tries left nth).1 (r.attempts + (verdict tries left nth).0))
          id
          (run_tries tries id left nth jobs)
  unfolding run_tries
  run_tries-Shows zero nth r jobs h a =
      unfold verdict in
      let (jobs2, e, (s, at_s, busy)) =
        attempt-Quiet (tries nth) id (finish_failed id (tries nth).finished_at) r jobs (quiet nth) h
          a in
      rw e (
        rw (← busy.1)
          (conclude-Shows id (tries nth).finished_at s jobs2 at_s busy.0 (ending_of (tries nth))))
  run_tries-Shows (suc left) nth r jobs h a =
      let again : String → Jobs → Jobs = λ error jobs'. run_tries tries id left (nth + 1) jobs' in
      let (jobs2, e, (s, at_s, busy)) = attempt-Quiet (tries nth) id again r jobs (quiet nth) h a in
      elim (Ending-cases (ending_of (tries nth))) [
        | inl (result, ends) ↦
            rw (e, ends, verdict-returned tries left nth result ends, ← busy.1)
              (unfold conclude in
                finish_succeeded-Shows id (tries nth).finished_at s jobs2 at_s busy.0 result)
        | inr (inl ends) ↦
            rw (e, ends, verdict-unstorable tries left nth ends, ← busy.1)
              (unfold conclude in (s, at_s, (busy.0, refl)))
        | inr (inr (error, fails)) ↦
            let more = verdict tries left (nth + 1) in
            let count : s.attempts + more.0 ≡ r.attempts + (more.0 + 1) = omega (arith, busy.1) in
            let alive_s : alive s ≡ true = rw busy.0 refl in
            rw (e, fails, verdict-raised tries left nth error fails, ← count)
              (unfold conclude in run_tries-Shows left (nth + 1) s jobs2 at_s alive_s)
      ]

-- A job that nobody cancels ends as the tries say: the first try that does not raise decides, and
-- else the last one that the retries allow. The job is succeeded with the result and progress 100
-- if that try returns a result that can be stored, it is failed with the error if that try raises,
-- and it stays running if the result cannot be stored. Each try made counts as one attempt.
pub run_job-Shows :
    (tries : ℕ → Try) (id retry : ℕ) (row : Job) (jobs : Jobs)
    → ((n : ℕ) → Quiet (tries n).events)
    → get id jobs ≡ some row
    → alive row ≡ true
    → (after : Job) × (get id (run_job (found tries) id retry jobs) ≡ some after)
      × Shows (verdict tries retry 0).1 (row.attempts + (verdict tries retry 0).0) after
unfolding run_job
run_job-Shows tries id retry row jobs quiet h a =
    run_tries-Shows tries quiet id retry 0 row jobs h a
