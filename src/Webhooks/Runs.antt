-- ===== src/Webhooks/Runs.antt =====
-- A property that the changes keep holds after any run of `deliver_due`.
use ninja_devx.Prelude.{
  ℕ, Option, Text, List, Bool-cases, ◌∷◌, [], ◌==◌, ◌||◌, inr, inl, Option-cases, Outcome,
  if◌then◌else◌, none, false, ◌>>=◌, some, ◌+◌, raise, ok,
}
use ninja_devx.Prelude.Table.{Every, get}
use ninja_devx.Webhooks.Defs.{WebhookDelivery, Outbox}
use ninja_devx.Webhooks.Deliver.{
  Settings, DeliveryReport, claim, does_not_exist, settle, lost_claim, stop, Stopped,
}
use ninja_devx.Webhooks.Loop.{
  Turn, Transport, deliver_each, deliver_due, deliver_one, empty_report, request,
}
use ninja_devx.Webhooks.Kept.{Kept, Leaves, claim-Kept, settle-Kept, request-Answer}

-- What other workers do in a turn keeps the property too.
pub record Respects (Q : ℕ → WebhookDelivery → Type 0) (turn : Turn) : Type 0 where
  pub loading : (db : Outbox) → Every Q db.deliveries → Every Q (turn.before_load db).deliveries
  pub sending : (db : Outbox) → Every Q db.deliveries → Every Q (turn.during_send db).deliveries

module _ (str : Option ℕ → Text) (send : Transport) (settings : Settings) (At : ℕ → Type 0)
    (Q : ℕ → WebhookDelivery → Type 0) (kept : Kept settings At Q) where
  abbrev AllHold : Outbox → Type 0
  AllHold db = Every Q db.deliveries

  -- The rest of the body, once the delivery is loaded.
  loaded-Kept :
      (turn : Turn) (pk : ℕ) (db : Outbox) (report : DeliveryReport) (d : WebhookDelivery)
      → Every Q db.deliveries
      → Every Q (turn.during_send db).deliveries
      → At turn.completed_at
      → Leaves AllHold (
          if elim d.lease_token [ none ↦ false | some t ↦ t == turn.token ]
          then elim (get d.event_id db.events) [
            | none ↦ raise (stop does_not_exist db)
            | some event ↦ elim (get d.endpoint_id db.endpoints) [
              | none ↦ raise (stop does_not_exist db)
              | some endpoint ↦
                  settle settings pk turn.token d.endpoint_id
                    (request str send event endpoint)
                    turn.completed_at
                    (turn.during_send db)
                    report
            ]
          ]
          else ok (db, lost_claim report))
  loaded-Kept turn pk db report d all later at =
      elim (Bool-cases (elim d.lease_token [ none ↦ false | some t ↦ t == turn.token ])) [
        | inr h ↦ rw h all
        | inl h ↦ elim (Option-cases (get d.event_id db.events)) [
          | inl e ↦ rw h (rw e all)
          | inr (event, e) ↦ elim (Option-cases (get d.endpoint_id db.endpoints)) [
            | inl f ↦ rw h (rw e (rw f all))
            | inr (endpoint, f) ↦ rw h (
                rw e (
                  rw f (
                    settle-Kept settings At Q kept pk turn.token d.endpoint_id _ turn.completed_at
                      (turn.during_send db) report (request-Answer str send event endpoint) later
                      at)))
          ]
        ]
      ]

  deliver_one-Kept :
      (turn : Turn) (pk : ℕ) (db : Outbox) (report : DeliveryReport)
      → Respects Q turn
      → At turn.completed_at
      → Every Q db.deliveries
      → Leaves AllHold (deliver_one str send settings turn pk db report)
  unfolding deliver_one
  deliver_one-Kept turn pk db report fair at all =
      let all1 =
        claim-Kept settings At Q kept pk turn.token settings.timeout turn.claimed_at db all in
      let db1 = (claim pk turn.token settings.timeout turn.claimed_at db).1 in
      let all2 = fair.loading db1 all1 in
      let db2 = turn.before_load db1 in
      let all3 = fair.sending db2 all2 in
      elim (Bool-cases (claim pk turn.token settings.timeout turn.claimed_at db).0) [
        | inr h ↦ rw h all1
        | inl h ↦ elim (Option-cases (get pk db2.deliveries)) [
          | inl e ↦ rw h (rw (e, deliver_one) all2)
          | inr (d, e) ↦ rw h (rw (e, deliver_one) (loaded-Kept turn pk db2 report d all2 all3 at))
        ]
      ]

  Leaves-then :
      (o : Outcome Stopped (Outbox × DeliveryReport))
      (k : Outbox × DeliveryReport → Outcome Stopped (Outbox × DeliveryReport))
      → Leaves AllHold o
      → ((db : Outbox) (report : DeliveryReport)
          → Every Q db.deliveries
          → Leaves AllHold (k (db, report)))
      → Leaves AllHold (o >>= k)
  Leaves-then (raise (stop e db)) k h step = h
  Leaves-then (ok (db, report)) k h step = step db report h

  deliver_each-Kept :
      (turns : ℕ → Turn) (pks : List ℕ) (nth : ℕ) (db : Outbox) (report : DeliveryReport)
      → ((n : ℕ) → Respects Q (turns n))
      → ((n : ℕ) → At (turns n).completed_at)
      → Every Q db.deliveries
      → Leaves AllHold (deliver_each str send settings turns pks nth db report)
  unfolding deliver_each
  deliver_each-Kept turns [] nth db report fair at all = all
  deliver_each-Kept turns (pk ∷ pks) nth db report fair at all =
      Leaves-then (deliver_one str send settings (turns nth) pk db report) _
        (deliver_one-Kept (turns nth) pk db report (fair nth) (at nth) all)
        (λ db' report' h. deliver_each-Kept turns pks (nth + 1) db' report' fair at h)

  pub deliver_due-Kept :
      (limit : ℕ) (event_id : Option ℕ) (now : ℕ) (turns : ℕ → Turn) (db : Outbox)
      → ((n : ℕ) → Respects Q (turns n))
      → ((n : ℕ) → At (turns n).completed_at)
      → Every Q db.deliveries
      → Leaves AllHold (deliver_due str send settings limit event_id now turns db)
  unfolding deliver_due
  deliver_due-Kept limit event_id now turns db fair at all =
      elim (Bool-cases (limit == 0 || settings.timeout == 0)) [
        | inl h ↦ rw h all
        | inr h ↦ rw h (deliver_each-Kept turns _ 0 db empty_report fair at all)
      ]
