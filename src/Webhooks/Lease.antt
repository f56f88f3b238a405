-- ===== src/Webhooks/Lease.antt =====
-- The lease of a delivery: one worker at a time, and none after it was taken over.
use ninja_devx.Prelude.{
  ℕ, Option, ◌≡◌, true, ◌<◌, ◌+◌, some, false, Option-cases, ◌≢◌, inl, ok, arith, inr, Bool-cases,
  ap, Bool,
}
use ninja_devx.Prelude.Table.{get, update, get-put_self, hit, Table, update-miss}
use ninja_devx.Webhooks.Defs.{Outbox, LastError, WebhookDelivery, WebhookEndpoint}
use ninja_devx.Webhooks.Deliver.{claim, Settings, DeliveryReport, is_due, settle, lost_claim}
use ninja_devx.Webhooks.Settle.{settle-lost}

-- What a claim found, and what it left.
claim-taken :
    (pk token timeout now : ℕ) (db : Outbox)
    → (claim pk token timeout now db).0 ≡ true
    → (d : WebhookDelivery) × (is_due now db.endpoints d ≡ true)
      × (get pk (claim pk token timeout now db).1.deliveries
          ≡ some (record d {
            lease_token = some token;
            next_attempt_at = some (now + (timeout + 60));
          }))
unfolding claim update
claim-taken pk token timeout now db h = elim (Option-cases (get pk db.deliveries)) [
  | inl e ↦ ground arith
  | inr (d, e) ↦ elim (Bool-cases (is_due now db.endpoints d)) [
    | inr f ↦ ground arith
    | inl f ↦ (d, f, rw (e, update) (rw f (get-put_self pk _ db.deliveries)))
  ]
]

-- As long as the row of a claimed delivery is as the claim left it, every other claim of it fails
-- and changes nothing, until a minute after the timeout of the request: whatever else has changed.
pub claim-exclusive :
    (pk token other timeout timeout' now later : ℕ) (db db' : Outbox)
    → (claim pk token timeout now db).0 ≡ true
    → get pk db'.deliveries ≡ get pk (claim pk token timeout now db).1.deliveries
    → later < now + (timeout + 60)
    → claim pk other timeout' later db' ≡ (false, db')
unfolding claim
claim-exclusive pk token other timeout timeout' now later db db' h same early =
    let (d, due, e) = claim-taken pk token timeout now db h in
    let held : hit (is_due later db'.endpoints) (get pk db'.deliveries) ≡ false =
      rw (same, e) (ground arith) in
    ap (λ (u : Bool × Table WebhookDelivery). (u.0, record db' { deliveries = u.1 }))
      (update-miss pk (is_due later db'.endpoints) _ db'.deliveries held)

-- Once another worker has taken a delivery over, the result of the first one is dropped: its
-- transaction changes nothing but its count of lost claims.
pub settle-taken_over :
    (settings : Settings) (pk token other id timeout later : ℕ) (outcome : Option ℕ × LastError)
    (now : ℕ) (endpoint : WebhookEndpoint) (db : Outbox) (report : DeliveryReport)
    → get id db.endpoints ≡ some endpoint
    → (claim pk other timeout later db).0 ≡ true
    → other ≢ token
    → settle settings pk token id outcome now (claim pk other timeout later db).1 report
      ≡ ok ((claim pk other timeout later db).1, lost_claim report)
unfolding claim
settle-taken_over settings pk token other id timeout later outcome now endpoint db report e h
      differs =
    let (d, due, f) = claim-taken pk other timeout later db h in
    settle-lost settings pk token id outcome now endpoint _ _ report e f
      (inr (λ same. differs (ground arith)))
