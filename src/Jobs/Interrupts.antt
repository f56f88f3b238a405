-- ===== src/Jobs/Interrupts.antt =====
-- The events of a try in which a cancellation arrives.
use ninja_devx.Prelude.{
  ℕ, List, ◌≡◌, ◌∷◌, some, true, [], refl, leb, arith, Bool-cases, inl, inr, ◌⊎◌,
}
use ninja_devx.Jobs.Run.{Ending, play, Event, request_cancel, report, cancel_now}
use ninja_devx.Jobs.Defs.{
  Job, Jobs, set_progress, running, cancelled, cancel, pos, negsuc, with_progress,
}
use ninja_devx.Prelude.Table.{get, get-update}
use ninja_devx.Jobs.Outcomes.{Row, get-with_progress, play-report_small, play-report_large}

-- A cancellation arrives before the function ends.
pub data Cancels : List Event → Type 0 where
  now_cancelled : {now : ℕ} {events : List Event} → Cancels (request_cancel now ∷ events)
  reported :
      {n : ℕ} {events : List Event}
      → leb n 100 ≡ true
      → Cancels events
      → Cancels (report (pos n) ∷ events)

-- The outcome of the job `r` is not stored in the row `s`.
pub record Unfinished (r s : Job) : Type 0 where
  pub result : s.result ≡ r.result
  pub error : s.error ≡ r.error

-- A row in a try, cancelled or not.
pub record Tried (r s : Job) : Type 0 where
  pub kept : Unfinished r s
  pub status : (s.status ≡ running) ⊎ (s.status ≡ cancelled)

pub record IsStopped (r s : Job) : Type 0 where
  pub status : s.status ≡ cancelled
  pub result : s.result ≡ r.result
  pub error : s.error ≡ r.error

module _ (id : ℕ) (r : Job) where
  cancel_now-running :
      (now : ℕ) (s : Job) (jobs : Jobs)
      → Unfinished r s
      → get id jobs ≡ some s
      → s.status ≡ running
      → Row (IsStopped r) id (cancel_now id now jobs)
  unfolding cancel_now cancel
  cancel_now-running now s jobs k h live = (
    record s { status = cancelled; finished = some now },
    rw (h, cancel_now) (rw live (rw get-update (rw h (ground arith)))),
    record { status = refl; result = k.result; error = k.error },
  )

  cancel_now-cancelled :
      (now : ℕ) (s : Job) (jobs : Jobs)
      → get id jobs ≡ some s
      → s.status ≡ cancelled
      → cancel_now id now jobs ≡ jobs
  unfolding cancel_now cancel
  cancel_now-cancelled now s jobs h c = rw (h, cancel_now) (rw c refl)

  -- A cancelled row stays cancelled to the end of the try.
  play-IsStopped :
      (events : List Event) (ending : Ending) (s : Job) (jobs : Jobs)
      → IsStopped r s
      → get id jobs ≡ some s
      → Row (IsStopped r) id (play id events ending jobs).1
  unfolding play set_progress
  play-IsStopped [] ending s jobs k h = (s, h, k)
  play-IsStopped (request_cancel now ∷ events) ending s jobs k h =
      rw (play, cancel_now-cancelled now s jobs h k.status)
        (play-IsStopped events ending s jobs k h)
  play-IsStopped (report (negsuc n) ∷ events) ending s jobs k h = (s, h, k)
  play-IsStopped (report (pos n) ∷ events) ending s jobs k h = elim (Bool-cases (leb n 100)) [
    | inl small ↦ rw (play-report_small id n events ending jobs small) (
        play-IsStopped events ending (record s { progress = n }) (with_progress id n jobs)
          (record { status = k.status; result = k.result; error = k.error })
          (get-with_progress id n s jobs h))
    | inr large ↦ rw (play-report_large id n events ending jobs large) (s, h, k)
  ]

  pub play-Cancels :
      (events : List Event) (ending : Ending) (s : Job) (jobs : Jobs)
      → Cancels events
      → Unfinished r s
      → get id jobs ≡ some s
      → s.status ≡ running
      → Row (IsStopped r) id (play id events ending jobs).1
  unfolding play
  play-Cancels [] ending s jobs c k h live = elim c [ ]
  play-Cancels (request_cancel now ∷ events) ending s jobs c k h live =
      let (t, at_t, stopped) = cancel_now-running now s jobs k h live in
      play-IsStopped events ending t (cancel_now id now jobs) stopped at_t
  play-Cancels (report (negsuc n) ∷ events) ending s jobs c k h live = elim c [ ]
  play-Cancels (report (pos n) ∷ events) ending s jobs (reported small c) k h live =
      rw (play-report_small id n events ending jobs small) (
        play-Cancels events ending (record s { progress = n }) (with_progress id n jobs) c
          (record { result = k.result; error = k.error }) (get-with_progress id n s jobs h) live)

  -- Until it is cancelled, the row is running.
  pub play-Tried :
      (events : List Event) (ending : Ending) (s : Job) (jobs : Jobs)
      → Unfinished r s
      → get id jobs ≡ some s
      → s.status ≡ running
      → Row (Tried r) id (play id events ending jobs).1
  unfolding play set_progress
  play-Tried [] ending s jobs k h live = (s, h, record { kept = k; status = inl live })
  play-Tried (request_cancel now ∷ events) ending s jobs k h live =
      let (t, at_t, stopped) = cancel_now-running now s jobs k h live in
      let (u, at_u, still) = play-IsStopped events ending t (cancel_now id now jobs) stopped at_t in
      (
        u,
        at_u,
        record {
          kept = record { result = still.result; error = still.error };
          status = inr still.status;
        },
      )
  play-Tried (report (negsuc n) ∷ events) ending s jobs k h live =
      (s, h, record { kept = k; status = inl live })
  play-Tried (report (pos n) ∷ events) ending s jobs k h live = elim (Bool-cases (leb n 100)) [
    | inl small ↦ rw (play-report_small id n events ending jobs small) (
        play-Tried events ending (record s { progress = n }) (with_progress id n jobs)
          (record { result = k.result; error = k.error }) (get-with_progress id n s jobs h) live)
    | inr large ↦
        rw (play-report_large id n events ending jobs large)
          (s, h, record { kept = k; status = inl live })
  ]
