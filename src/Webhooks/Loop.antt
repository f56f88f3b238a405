-- ===== src/Webhooks/Loop.antt =====
-- The request of `_attempt` and the loop of `deliver_due`. Other workers change the database between
-- the statements of a delivery.
use ninja_devx.Prelude.{
  ℕ, Bool, List, ◌+◌, Option, Text, Outcome, false, [], true, none, ◌∷◌, if◌then◌else◌, suc, ok,
  some, ◌&&◌, raise, zero, ◌>>=◌, ltb, ◌==◌, leb, ◌||◌, codes,
}
use ninja_devx.Prelude.Table.{Table, get}
use ninja_devx.Webhooks.Defs.{
  Outbox, LastError, audience_matches, WebhookDelivery, WebhookEndpoint, OutboxEvent, no_error,
  os_error, http_status,
}
use ninja_devx.Webhooks.Deliver.{
  DeliveryReport, lost_claim, Settings, Stopped, is_due, claim, settle, stop, value_error,
  does_not_exist,
}

-- The transport: the status code that an endpoint answers, or the text of an `OSError`. The body
-- and the signed headers are computed from the event and from the endpoint's secret.
abbrev pub Transport : Type 0
Transport = WebhookEndpoint → OutboxEvent → Outcome Text ℕ

unfoldable pub take : ℕ → Text → Text
take zero s = []
take (suc n) [] = []
take (suc n) (c ∷ s) = c ∷ take n s

-- The `try` statement of `_attempt`: the status code and the error.
unfoldable pub request :
    (Option ℕ → Text) → Transport → OutboxEvent → WebhookEndpoint → Option ℕ × LastError
unfolding take audience_matches
request str send event endpoint =
    if audience_matches str event endpoint
    then elim (send endpoint event) [
      | raise error ↦ (none, os_error (take 1000 error))
      | ok code ↦ (some code, if leb 200 code && ltb code 300 then no_error else http_status code)
    ]
    else (none, os_error (codes "OSError: Endpoint no longer belongs to the event audience"))

-- A turn of the loop: the fresh token, the instants, and what other workers change between the
-- claim and the load, and while the request is sent.
pub record Turn : Type 0 where
  pub token : ℕ
  pub claimed_at : ℕ
  pub before_load : Outbox → Outbox
  pub during_send : Outbox → Outbox
  pub completed_at : ℕ

-- The body of the loop for one candidate.
unfoldable pub deliver_one :
    (Option ℕ → Text)
    → Transport
    → Settings
    → Turn
    → ℕ
    → Outbox
    → DeliveryReport
    → Outcome Stopped (Outbox × DeliveryReport)
unfolding claim request settle
deliver_one str send settings turn pk db report =
    let (claimed, db1) = claim pk turn.token settings.timeout turn.claimed_at db in
    let db2 = turn.before_load db1 in
    if claimed
    then elim (get pk db2.deliveries) [
      | none ↦ raise (stop does_not_exist db2)
      | some d ↦
          (if elim d.lease_token [ none ↦ false | some t ↦ t == turn.token ]
            then elim (get d.event_id db2.events) [
              | none ↦ raise (stop does_not_exist db2)
              | some event ↦ elim (get d.endpoint_id db2.endpoints) [
                | none ↦ raise (stop does_not_exist db2)
                | some endpoint ↦
                    settle settings pk turn.token d.endpoint_id (request str send event endpoint)
                      turn.completed_at (turn.during_send db2) report
              ]
            ]
            else ok (db2, lost_claim report))
    ]
    else ok (db1, report)

unfoldable pub deliver_each :
    (Option ℕ → Text)
    → Transport
    → Settings
    → (ℕ → Turn)
    → List ℕ
    → ℕ
    → Outbox
    → DeliveryReport
    → Outcome Stopped (Outbox × DeliveryReport)
unfolding deliver_one
deliver_each str send settings turns [] nth db report = ok (db, report)
deliver_each str send settings turns (pk ∷ pks) nth db report = do
  (db', report') ← deliver_one str send settings (turns nth) pk db report
  deliver_each str send settings turns pks (nth + 1) db' report'

-- `order_by("next_attempt_at", "id")`: insertion into the ordered list of instants and keys.
unfoldable pub insert_due : ℕ × ℕ → List (ℕ × ℕ) → List (ℕ × ℕ)
insert_due a [] = a ∷ []
insert_due a (b ∷ rest) =
    let later = insert_due a rest in
    if ltb a.0 b.0 || (a.0 == b.0 && leb a.1 b.1) then a ∷ b ∷ rest else b ∷ later

abbrev pub of_event : Option ℕ → WebhookDelivery → Bool
of_event none d = true
of_event (some id) d = d.event_id == id

unfoldable pub due_rows : Option ℕ → ℕ → Outbox → Table WebhookDelivery → List (ℕ × ℕ)
unfolding insert_due
due_rows event_id now db [] = []
due_rows event_id now db ((pk, d) ∷ rows) =
    let rest = due_rows event_id now db rows in
    if is_due now db.endpoints d && of_event event_id d
    then elim d.next_attempt_at [ none ↦ rest | some t ↦ insert_due (t, pk) rest ]
    else rest

unfoldable pub first_keys : ℕ → List (ℕ × ℕ) → List ℕ
first_keys zero rows = []
first_keys (suc n) [] = []
first_keys (suc n) ((t, pk) ∷ rows) = pk ∷ first_keys n rows

abbrev pub empty_report : DeliveryReport
empty_report = record {
  succeeded = 0;
  retrying = 0;
  failed = 0;
  disabled_endpoints = 0;
  lost_claims = 0;
}

-- `deliver_due`; a natural number is never negative, so zero is what its check refuses.
unfoldable pub deliver_due :
    (Option ℕ → Text)
    → Transport
    → Settings
    → ℕ
    → Option ℕ
    → ℕ
    → (ℕ → Turn)
    → Outbox
    → Outcome Stopped (Outbox × DeliveryReport)
unfolding deliver_each due_rows first_keys
deliver_due str send settings limit event_id now turns db =
    if limit == 0 || settings.timeout == 0
    then raise (stop value_error db)
    else deliver_each str send settings turns
        (first_keys limit (due_rows event_id now db db.deliveries)) 0 db empty_report
