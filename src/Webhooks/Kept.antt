-- ===== src/Webhooks/Kept.antt =====
-- Properties of the deliveries that every step of `deliver_due` keeps.
use ninja_devx.Prelude.{
  ℕ, Option, Outcome, Text, ◌≤◌, ◌≡◌, some, ◌<◌, none, raise, ◌+◌, ok, false, length, if◌then◌else◌,
  leb, ◌&&◌, ltb, Bool-cases, inl, arith, inr, refl, Option-cases, true, ◌-◌, List, ◌∷◌, suc, [],
  zero,
}
use ninja_devx.Prelude.Table.{Every, Every-put, Every-sweep, get, Every-update}
use ninja_devx.Webhooks.Defs.{
  pending, succeeded, failed, Outbox, WebhookDelivery, LastError, OutboxEvent, WebhookEndpoint,
  no_error, os_error, http_status, audience_matches, DeliveryStatus, is_pending,
}
use ninja_devx.Webhooks.Deliver.{
  Settings, track_failure, finish_success, finish_failure, claim, DeliveryReport, counted, is_blank,
  is_due, settle, get_elem?, holds, Stopped, stop,
}
use ninja_devx.Webhooks.Loop.{request, Transport, take}

-- What a property of a delivery and its key has to survive: the changes of `deliver_due`, each on
-- a row that is pending before. `At` holds of the instants at which a request is completed.
pub record Kept (settings : Settings) (At : ℕ → Type 0) (Q : ℕ → WebhookDelivery → Type 0)
    : Type 0 where
  pub leased :
      (k : ℕ) (d : WebhookDelivery) (token at : ℕ)
      → Q k d
      → d.status ≡ pending
      → Q k (record d { lease_token = some token; next_attempt_at = some at })
  pub dropped :
      (k : ℕ) (d : WebhookDelivery)
      → Q k d
      → d.status ≡ pending
      → Q k (record d { status = failed; next_attempt_at = none; lease_token = none })
  pub delivered :
      (k : ℕ) (d : WebhookDelivery) (code now : ℕ)
      → Q k d
      → d.status ≡ pending
      → At now
      → 200 ≤ code
      → code < 300
      → Q k (record (counted (some code) no_error d) {
        status = succeeded;
        delivered_at = some now;
        next_attempt_at = none;
      })
  pub given_up :
      (k : ℕ) (d : WebhookDelivery) (status : Option ℕ) (error : LastError)
      → Q k d
      → d.status ≡ pending
      → Q k (record (counted status error d) { status = failed; next_attempt_at = none })
  pub retried :
      (k : ℕ) (d : WebhookDelivery) (status : Option ℕ) (error : LastError) (at : ℕ)
      → Q k d
      → d.status ≡ pending
      → d.attempts + 1 ≤ length settings.schedule
      → Q k (record (counted status error d) { next_attempt_at = some at })

-- What `request` gives: no error only with a 2xx status.
pub data Answer : Option ℕ × LastError → Type 0 where
  answer : (code : ℕ) → 200 ≤ code → code < 300 → Answer (some code, no_error)
  refusal :
      (status : Option ℕ) (error : LastError) → is_blank error ≡ false → Answer (status, error)

pub request-Answer :
    (str : Option ℕ → Text) (send : Transport) (event : OutboxEvent) (endpoint : WebhookEndpoint)
    → Answer (request str send event endpoint)
unfolding request
request-Answer str send event endpoint = elim (Bool-cases (audience_matches str event endpoint)) [
  | inr h ↦ rw h (refusal none _ refl)
  | inl h ↦ rw h (sent (send endpoint event))
]
  where
    sent :
        (o : Outcome Text ℕ)
        → Answer (elim o [
          | raise error ↦ (none, os_error (take 1000 error))
          | ok code ↦
              (some code, if leb 200 code && ltb code 300 then no_error else http_status code)
        ])
    sent (raise error) = refusal none _ refl
    sent (ok code) = elim (Bool-cases (leb 200 code && ltb code 300)) [
      | inl t ↦ rw t (answer code (ground arith) (ground arith))
      | inr t ↦ rw t (refusal (some code) _ refl)
    ]

-- A property of the outbox after a step, also when an exception ends it.
abbrev pub Leaves : (Outbox → Type 0) → Outcome Stopped (Outbox × DeliveryReport) → Type 0
Leaves P (raise (stop e db)) = P db
Leaves P (ok (db, report)) = P db

ltb-false : {a b : ℕ} → ltb a b ≡ false → b ≤ a
ltb-false h = ground arith

pub get_elem?-some : (xs : List ℕ) (i : ℕ) → i < length xs → (x : ℕ) × (get_elem? xs i ≡ some x)
unfolding get_elem?
get_elem?-some [] i h = ground arith
get_elem?-some (x ∷ xs) zero h = (x, refl)
get_elem?-some (x ∷ xs) (suc i) h = get_elem?-some xs i (omega arith)

pub is_pending_lem : (status : DeliveryStatus) → is_pending status ≡ true → status ≡ pending
is_pending_lem pending h = refl
is_pending_lem succeeded h = cc
is_pending_lem failed h = cc

module _ (settings : Settings) (At : ℕ → Type 0) (Q : ℕ → WebhookDelivery → Type 0)
    (kept : Kept settings At Q) where
  abbrev AllKeep : Outbox → Type 0
  AllKeep db = Every Q db.deliveries

  pub claim-Kept :
      (pk token timeout now : ℕ) (db : Outbox)
      → Every Q db.deliveries
      → Every Q (claim pk token timeout now db).1.deliveries
  unfolding claim
  claim-Kept pk token timeout now db all =
      Every-update Q pk (is_due now db.endpoints) _ db.deliveries
        (λ d q due.
          kept.leased pk d token (now + (timeout + 60)) q (is_pending_lem d.status (ground arith)))
        all

  finish_success-Kept :
      (pk id : ℕ) (endpoint : WebhookEndpoint) (row : WebhookDelivery) (code now : ℕ) (db : Outbox)
      (report : DeliveryReport)
      → Every Q db.deliveries
      → Q pk row
      → row.status ≡ pending
      → At now
      → 200 ≤ code
      → code < 300
      → Leaves AllKeep
          (finish_success pk id endpoint (counted (some code) no_error row) now db report)
  unfolding finish_success
  finish_success-Kept pk id endpoint row code now db report all q p at low high =
      let stored = kept.delivered pk row code now q p at low high in
      elim (Option-cases endpoint.failing_since) [
        | inl e ↦ rw e (Every-put Q pk _ db.deliveries stored all)
        | inr (since, e) ↦ rw e (Every-put Q pk _ db.deliveries stored all)
      ]

  track_failure-Kept :
      (id : ℕ) (endpoint : WebhookEndpoint) (disable_after : Option ℕ) (now : ℕ) (db : Outbox)
      (report : DeliveryReport)
      → Every Q db.deliveries
      → Every Q (track_failure id endpoint disable_after now db report).1.deliveries
  unfolding track_failure
  track_failure-Kept id endpoint disable_after now db report all =
      elim (Option-cases endpoint.failing_since) [
        | inl e ↦ rw (e, track_failure) all
        | inr (since, e) ↦ elim (Option-cases disable_after) [
          | inl f ↦ rw (e, track_failure) (rw (f, track_failure) all)
          | inr (delay, f) ↦ elim (Bool-cases (endpoint.is_active && leb (since + delay) now)) [
            | inl g ↦
                rw (e, track_failure)
                  (rw (f, track_failure)
                    (rw g (
                      Every-sweep Q _ _ db.deliveries
                        (λ k d q t. kept.dropped k d q (is_pending_lem d.status (ground arith)))
                        all)))
            | inr g ↦ rw (e, track_failure) (rw (f, track_failure) (rw g all))
          ]
        ]
      ]

  finish_failure-Kept :
      (pk id : ℕ) (endpoint : WebhookEndpoint) (row : WebhookDelivery) (status : Option ℕ)
      (error : LastError) (now : ℕ) (db : Outbox) (report : DeliveryReport)
      → Every Q db.deliveries
      → Q pk row
      → row.status ≡ pending
      → Leaves AllKeep
          (finish_failure settings pk id endpoint (counted status error row) now db report)
  unfolding finish_failure
  finish_failure-Kept pk id endpoint row status error now db report all q p =
      let given_up = kept.given_up pk row status error q p in
      let tracked = track_failure-Kept id endpoint settings.disable_after now db report all in
      elim (Bool-cases (ltb (length settings.schedule) (row.attempts + 1))) [
        | inl h ↦ rw h (Every-put Q pk _ db.deliveries given_up all)
        | inr h ↦
            elim (Bool-cases (track_failure id endpoint settings.disable_after now db report).0) [
              | inl g ↦ rw h (rw g (Every-put Q pk _ _ given_up tracked))
              | inr g ↦
                  (let (delay, e) =
                      get_elem?-some settings.schedule (row.attempts + 1 - 1)
                        (omega (arith, ltb-false h)) in
                    let stored = kept.retried pk row status error (now + delay) q p (ltb-false h) in
                    rw h (rw g (rw (e, finish_failure) (Every-put Q pk _ _ stored tracked))))
            ]
      ]

  conclude-Kept :
      (pk id : ℕ) (endpoint : WebhookEndpoint) (row : WebhookDelivery)
      (outcome : Option ℕ × LastError) (now : ℕ) (db : Outbox) (report : DeliveryReport)
      → Answer outcome
      → Every Q db.deliveries
      → Q pk row
      → row.status ≡ pending
      → At now
      → Leaves AllKeep (
          if is_blank outcome.1
          then finish_success pk id endpoint (counted outcome.0 outcome.1 row) now db report
          else finish_failure settings pk id endpoint
              (counted outcome.0 outcome.1 row)
              now
              db
              report)
  conclude-Kept pk id endpoint row _ now db report (answer code low high) all q p at =
      finish_success-Kept pk id endpoint row code now db report all q p at low high
  conclude-Kept pk id endpoint row _ now db report (refusal status error b) all q p at =
      rw b (finish_failure-Kept pk id endpoint row status error now db report all q p)

  pub settle-Kept :
      (pk token id : ℕ) (outcome : Option ℕ × LastError) (now : ℕ) (db : Outbox)
      (report : DeliveryReport)
      → Answer outcome
      → Every Q db.deliveries
      → At now
      → Leaves AllKeep (settle settings pk token id outcome now db report)
  unfolding settle
  settle-Kept pk token id outcome now db report a all at =
      elim (Option-cases (get id db.endpoints)) [
        | inl e ↦ rw (e, settle) all
        | inr (endpoint, e) ↦ elim (Option-cases (get pk db.deliveries)) [
          | inl f ↦ rw (e, settle) (rw (f, settle) all)
          | inr (row, f) ↦ elim (Bool-cases (holds token row)) [
            | inr g ↦ rw (e, settle) (rw (f, settle) (rw g all))
            | inl g ↦
                rw (e, settle)
                  (rw (f, settle)
                    (rw g (
                      conclude-Kept pk id endpoint row outcome now db report a all (all pk row f)
                        (is_pending_lem row.status (ground arith)) at)))
          ]
        ]
      ]
