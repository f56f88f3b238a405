-- ===== src/Webhooks/Settle.antt =====
-- The transaction that stores the result of a request: its branches, and what it leaves alone.
use ninja_devx.Prelude.{
  ℕ, Option, ◌≡◌, some, true, ◌+◌, ◌≢◌, ok, ◌≤◌, ◌⊎◌, false, length, none, refl, arith, Bool, inl,
  ◌==◌, ◌&&◌, Bool-cases, inr, ap, Outcome, leb, sym, ◌∙◌,
}
use ninja_devx.Prelude.Table.{get, get-sweep, sweep, amend}
use ninja_devx.Webhooks.Defs.{
  pending, succeeded, failed, WebhookEndpoint, Outbox, LastError, WebhookDelivery, DeliveryStatus,
  is_pending,
}
use ninja_devx.Webhooks.Deliver.{
  settle, track_failure, Settings, DeliveryReport, lost_claim, holds, Stopped,
}

open_lem : (status : DeliveryStatus) → status ≢ pending → is_pending status ≡ false
open_lem pending h = elim (h refl) [ ]
open_lem succeeded h = refl
open_lem failed h = refl

lease_differs :
    (token : ℕ) (lease : Option ℕ)
    → lease ≢ some token
    → elim lease [ none ↦ false | some t ↦ t == token ] ≡ false
lease_differs token none h = refl
lease_differs token (some t) h = elim (Bool-cases (t == token)) [
  | inr e ↦ e
  | inl e ↦ elim (h (ap some (ground arith))) [ ]
]

not_held :
    (token : ℕ) (row : WebhookDelivery)
    → (row.status ≢ pending) ⊎ (row.lease_token ≢ some token)
    → holds token row ≡ false
not_held token row (inl h) = rw (open_lem row.status h) refl
not_held token row (inr h) = rw (lease_differs token row.lease_token h) (ground arith)

-- A worker whose lease was taken over, or whose delivery is no longer pending, changes nothing but
-- its count of lost claims.
pub settle-lost :
    (settings : Settings) (pk token id : ℕ) (outcome : Option ℕ × LastError) (now : ℕ)
    (endpoint : WebhookEndpoint) (row : WebhookDelivery) (db : Outbox) (report : DeliveryReport)
    → get id db.endpoints ≡ some endpoint
    → get pk db.deliveries ≡ some row
    → (row.status ≢ pending) ⊎ (row.lease_token ≢ some token)
    → settle settings pk token id outcome now db report ≡ ok (db, lost_claim report)
unfolding settle
settle-lost settings pk token id outcome now endpoint row db report e f lost =
    rw (e, settle) (rw (f, settle) (rw (not_held token row lost) refl))

-- One more try is counted, the lease is given back, and a delivery that stays pending has a delay
-- of the schedule for its next try.
pub record IsCounted (settings : Settings) (pk : ℕ) (row : WebhookDelivery)
    (after : Outbox × DeliveryReport) : Type 0 where
  pub stored : WebhookDelivery
  pub found : get pk after.0.deliveries ≡ some stored
  pub counted_once : stored.attempts ≡ row.attempts + 1
  pub released : stored.lease_token ≡ none
  pub left : stored.status ≡ pending → stored.attempts ≤ length settings.schedule

-- A step that returns, with the row counted.
abbrev Counts : Settings → ℕ → WebhookDelivery → Outcome Stopped (Outbox × DeliveryReport) → Type 0
Counts settings pk row o =
    (after : Outbox × DeliveryReport) × (o ≡ ok after) × IsCounted settings pk row after

abbrev drop : WebhookDelivery → WebhookDelivery
drop d = record d { status = failed; next_attempt_at = none; lease_token = none }

abbrev drops : ℕ → WebhookDelivery → Bool
drops id d = d.endpoint_id == id && is_pending d.status

dropped_row :
    (id : ℕ) (o : Option WebhookDelivery) (d : WebhookDelivery)
    → amend (drops id) drop o ≡ some d
    → d.endpoint_id ≡ id
    → d.status ≢ pending
dropped_row id none d h same p = cc
dropped_row id (some v) d h same p = elim (Bool-cases (drops id v)) [
  | inl t ↦
      (let value : drop v ≡ d = ground arith in
        let status : failed ≡ d.status = ap (λ (x : WebhookDelivery). x.status) value in cc)
  | inr t ↦
      (let value : v ≡ d = ground arith in
        let id_of : v.endpoint_id ≡ id = ap (λ (x : WebhookDelivery). x.endpoint_id) value ∙ same in
        let status : v.status ≡ pending = ap (λ (x : WebhookDelivery). x.status) value ∙ p in
        let both : drops id v ≡ true = rw id_of (rw status (ground arith)) in cc)
]

-- A failure that finds the endpoint failing for `disable_after` disables it and leaves it no
-- pending delivery.
pub track_failure-disables :
    (id : ℕ) (endpoint : WebhookEndpoint) (delay since now : ℕ) (db : Outbox)
    (report : DeliveryReport)
    → endpoint.is_active ≡ true
    → endpoint.failing_since ≡ some since
    → since + delay ≤ now
    → (k : ℕ) (d : WebhookDelivery)
    → get k (track_failure id endpoint (some delay) now db report).1.deliveries ≡ some d
    → d.endpoint_id ≡ id
    → d.status ≢ pending
unfolding track_failure
track_failure-disables id endpoint delay since now db report a s h k d g same p =
    let late : leb (since + delay) now ≡ true = ground arith in
    let swept : (track_failure id endpoint (some delay) now db report).1.deliveries
        ≡ sweep (drops id) drop db.deliveries =
      rw (s, track_failure) (rw a (rw late refl)) in
    let g' : get k (sweep (drops id) drop db.deliveries) ≡ some d = rw (sym swept) g in
    let g'' : amend (drops id) drop (get k db.deliveries) ≡ some d =
      rw (sym (get-sweep k (drops id) drop db.deliveries)) g' in
    dropped_row id (get k db.deliveries) d g'' same p
