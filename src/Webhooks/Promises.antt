-- ===== src/Webhooks/Promises.antt =====
-- What holds of the deliveries whatever the endpoints answer and other workers do.
use ninja_devx.Prelude.{ℕ, Option, Text, ◌≡◌, ◌≢◌, ◌≤◌, sym, ◌<◌, arith, some, refl}
use ninja_devx.Prelude.Table.{Every, get}
use ninja_devx.Webhooks.Defs.{pending, succeeded, WebhookDelivery, Outbox, no_error}
use ninja_devx.Webhooks.Deliver.{Settings}
use ninja_devx.Webhooks.Loop.{Transport, Turn, deliver_due}
use ninja_devx.Webhooks.Kept.{Kept, Leaves}
use ninja_devx.Webhooks.Runs.{Respects, deliver_due-Kept}

-- A delivery counts as succeeded only with a 2xx status, an instant at which a request was completed
-- and no error.
pub data IsHonest (At : ℕ → Type 0) (k : ℕ) (d : WebhookDelivery) : Type 0 where
  open_or_failed : d.status ≢ succeeded → IsHonest At k d
  was_delivered :
      (code now : ℕ)
      → At now
      → 200 ≤ code
      → code < 300
      → d.last_status_code ≡ some code
      → d.last_error ≡ no_error
      → d.delivered_at ≡ some now
      → IsHonest At k d

-- The delivery of a key is the one that is given.
abbrev pub IsStill : ℕ → WebhookDelivery → ℕ → WebhookDelivery → Type 0
IsStill pk row k d = k ≡ pk → d ≡ row

IsHonest-Kept : (settings : Settings) (At : ℕ → Type 0) → Kept settings At (IsHonest At)
IsHonest-Kept settings At = record {
  leased = λ k d token at q p. open_or_failed (λ h. cc);
  dropped = λ k d q p. open_or_failed (λ h. cc);
  delivered = λ k d code now q p at low high. was_delivered code now at low high refl refl refl;
  given_up = λ k d status error q p. open_or_failed (λ h. cc);
  retried = λ k d status error at q p h. open_or_failed (λ h. cc);
}

IsStill-Kept :
    (settings : Settings) (pk : ℕ) (row : WebhookDelivery)
    → row.status ≢ pending
    → Kept settings (λ _. Unit) (IsStill pk row)
IsStill-Kept settings pk row final = record {
  leased = λ k d token at q p same. never k d q p same;
  dropped = λ k d q p same. never k d q p same;
  delivered = λ k d code now q p at low high same. never k d q p same;
  given_up = λ k d status error q p same. never k d q p same;
  retried = λ k d status error at q p h same. never k d q p same;
}
  where
    never :
        {A : Type 0} (k : ℕ) (d : WebhookDelivery)
        → IsStill pk row k d
        → d.status ≡ pending
        → k ≡ pk
        → A
    never k d q p same = elim (final (rw (sym (q same)) p)) [ ]

module _ (str : Option ℕ → Text) (send : Transport) (settings : Settings) (limit : ℕ)
    (event_id : Option ℕ) (now : ℕ) (turns : ℕ → Turn) (db : Outbox) where
  -- Every delivery that is succeeded after a run records a 2xx status, no error and an instant at
  -- which a request was completed, if this holds before the run and other workers keep it. `At`
  -- tells these instants, those of the run among them.
  pub deliver_due-IsHonest :
      (At : ℕ → Type 0)
      → ((n : ℕ) → At (turns n).completed_at)
      → ((n : ℕ) → Respects (IsHonest At) (turns n))
      → Every (IsHonest At) db.deliveries
      → Leaves
          (λ after. Every (IsHonest At) after.deliveries)
          (deliver_due str send settings limit event_id now turns db)
  deliver_due-IsHonest At at fair =
      deliver_due-Kept str send settings At (IsHonest At) (IsHonest-Kept settings At) limit event_id
        now turns db fair at

  -- A delivery that is succeeded or failed is final: a run leaves its row as it is, if other
  -- workers do.
  pub deliver_due-IsStill :
      (pk : ℕ) (row : WebhookDelivery)
      → row.status ≢ pending
      → ((n : ℕ) → Respects (IsStill pk row) (turns n))
      → get pk db.deliveries ≡ some row
      → Leaves
          (λ after. Every (IsStill pk row) after.deliveries)
          (deliver_due str send settings limit event_id now turns db)
  deliver_due-IsStill pk row final fair h =
      deliver_due-Kept str send settings (λ _. Unit) (IsStill pk row)
        (IsStill-Kept settings pk row final) limit event_id now turns db fair (λ _. tt)
        (λ k d e same. ground arith)
