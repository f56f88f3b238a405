-- ===== src/Webhooks/Deliver.antt =====
-- The claim of a delivery, `_track_failure` and the transaction of `_attempt`.
use ninja_devx.Prelude.{
  ℕ, Bool, List, ◌+◌, Option, Outcome, false, [], true, none, ◌∷◌, if◌then◌else◌, suc, ok, some,
  ◌&&◌, raise, zero, is_none, ltb, ◌==◌, leb, length, ◌-◌,
}
use ninja_devx.Prelude.Table.{Table, put, update, get, sweep}
use ninja_devx.Webhooks.Defs.{
  succeeded, failed, Outbox, LastError, WebhookDelivery, WebhookEndpoint, is_pending, no_error,
  failing_from,
}

pub record DeliveryReport : Type 0 where
  pub succeeded : ℕ
  pub retrying : ℕ
  pub failed : ℕ
  pub disabled_endpoints : ℕ
  pub lost_claims : ℕ

abbrev pub lost_claim : DeliveryReport → DeliveryReport
lost_claim report = record report { lost_claims = report.lost_claims + 1 }

-- The arguments of `deliver_due` that a delivery uses.
pub record Settings : Type 0 where
  pub timeout : ℕ
  pub schedule : List ℕ
  pub disable_after : Option ℕ

pub data DeliveryError : Type 0 where
  value_error index_error does_not_exist : DeliveryError

-- An exception that leaves `deliver_due`, and the outbox as it is committed by then.
pub data Stopped : Type 0 where
  stop : DeliveryError → Outbox → Stopped

abbrev pub due_by : ℕ → Option ℕ → Bool
due_by now none = false
due_by now (some t) = leb t now

abbrev pub endpoint_active : Option WebhookEndpoint → Bool
endpoint_active none = false
endpoint_active (some endpoint) = endpoint.is_active

-- `status=PENDING, next_attempt_at__lte=now, endpoint__is_active=True`
abbrev pub is_due : ℕ → Table WebhookEndpoint → WebhookDelivery → Bool
is_due now endpoints d =
    is_pending d.status
    && due_by now d.next_attempt_at
    && endpoint_active (get d.endpoint_id endpoints)

-- The conditional update that takes the lease: whether a row was there to take, and the outbox.
unfoldable pub claim : ℕ → ℕ → ℕ → ℕ → Outbox → Bool × Outbox
claim pk token timeout now db =
    let (claimed, deliveries) =
      update pk (is_due now db.endpoints)
        (λ d. record d { lease_token = some token; next_attempt_at = some (now + (timeout + 60)) })
        db.deliveries in
    (claimed, record db { deliveries = deliveries })

abbrev pub holds : ℕ → WebhookDelivery → Bool
holds token d = is_pending d.status && elim d.lease_token [ none ↦ false | some t ↦ t == token ]

-- `_track_failure`: its result, with what it changed. The endpoint is the locked row.
unfoldable pub track_failure :
    ℕ → WebhookEndpoint → Option ℕ → ℕ → Outbox → DeliveryReport → Bool × Outbox × DeliveryReport
track_failure id endpoint disable_after now db report = elim endpoint.failing_since [
  | none ↦ (
    false,
    record db { endpoints = put id (record endpoint { failing_since = some now }) db.endpoints },
    report,
  )
  | some since ↦ elim disable_after [
    | none ↦ (false, db, report)
    | some delay ↦
        (if endpoint.is_active && leb (since + delay) now
          then (
            true,
            record db {
              endpoints =
                  put id
                    (record endpoint { is_active = false; disabled_reason = failing_from since })
                    db.endpoints;
              deliveries =
                  sweep (λ d. d.endpoint_id == id && is_pending d.status)
                    (λ d. record d { status = failed; next_attempt_at = none; lease_token = none })
                    db.deliveries;
            },
            record report { disabled_endpoints = report.disabled_endpoints + 1 },
          )
          else (false, db, report))
  ]
]

-- `schedule[i]`
unfoldable pub get_elem? : List ℕ → ℕ → Option ℕ
get_elem? [] i = none
get_elem? (x ∷ xs) zero = some x
get_elem? (x ∷ xs) (suc i) = get_elem? xs i

-- `owned` at the end of the transaction, and the report.
abbrev pub save :
    ℕ → WebhookDelivery → Outbox → DeliveryReport → Outcome Stopped (Outbox × DeliveryReport)
save pk owned db report = ok (record db { deliveries = put pk owned db.deliveries }, report)

abbrev pub give_up :
    ℕ → WebhookDelivery → Outbox → DeliveryReport → Outcome Stopped (Outbox × DeliveryReport)
give_up pk owned db report =
    save pk (record owned { status = failed; next_attempt_at = none }) db
      (record report { failed = report.failed + 1 })

unfoldable pub finish_success :
    ℕ
    → ℕ
    → WebhookEndpoint
    → WebhookDelivery
    → ℕ
    → Outbox
    → DeliveryReport
    → Outcome Stopped (Outbox × DeliveryReport)
finish_success pk id endpoint owned now db report =
    save pk (record owned { status = succeeded; delivered_at = some now; next_attempt_at = none })
      (if is_none endpoint.failing_since then db else record db {
        endpoints = put id (record endpoint { failing_since = none }) db.endpoints;
      })
      (record report { succeeded = report.succeeded + 1 })

unfoldable pub finish_failure :
    Settings
    → ℕ
    → ℕ
    → WebhookEndpoint
    → WebhookDelivery
    → ℕ
    → Outbox
    → DeliveryReport
    → Outcome Stopped (Outbox × DeliveryReport)
unfolding track_failure get_elem?
finish_failure settings pk id endpoint owned now db report =
    if ltb (length settings.schedule) owned.attempts
    then give_up pk owned db report
    else (let (disabled, db', report') =
          track_failure id endpoint settings.disable_after now db report in
        if disabled
        then give_up pk owned db' report'
        else elim (get_elem? settings.schedule (owned.attempts - 1)) [
          | none ↦ raise (stop index_error db)
          | some delay ↦
              save pk (record owned { next_attempt_at = some (now + delay) }) db'
                (record report' { retrying = report'.retrying + 1 })
        ])

-- The row with the result of the request, before its next status is decided.
abbrev pub counted : Option ℕ → LastError → WebhookDelivery → WebhookDelivery
counted status error row = record row {
  attempts = row.attempts + 1;
  last_status_code = status;
  last_error = error;
  lease_token = none;
}

abbrev pub is_blank : LastError → Bool
is_blank no_error = true
is_blank _ = false

-- The transaction of `_attempt`; an exception rolls it back.
unfoldable pub settle :
    Settings
    → ℕ
    → ℕ
    → ℕ
    → Option ℕ × LastError
    → ℕ
    → Outbox
    → DeliveryReport
    → Outcome Stopped (Outbox × DeliveryReport)
unfolding finish_success finish_failure
settle settings pk token id (status, error) now db report = elim (get id db.endpoints) [
  | none ↦ raise (stop does_not_exist db)
  | some endpoint ↦ elim (get pk db.deliveries) [
    | none ↦ ok (db, lost_claim report)
    | some row ↦
        (if holds token row
          then (if is_blank error
              then finish_success pk id endpoint (counted status error row) now db report
              else finish_failure settings pk id endpoint (counted status error row) now db report)
          else ok (db, lost_claim report))
  ]
]
