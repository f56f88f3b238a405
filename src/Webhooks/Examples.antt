-- ===== src/Webhooks/Examples.antt =====
-- Concrete endpoints, deliveries and runs.
use ninja_devx.Prelude.{
  ℕ, Option, [], ◌≡◌, ok, Text, false, none, ◌+◌, some, ◌∷◌, codes, true, ap, arith, ◌↔◌, refl,
  text_eq,
}
use ninja_devx.Prelude.Table.{get, put, Every, Every-put, update}
use ninja_devx.Webhooks.Defs.{
  pending, succeeded, WebhookEndpoint, OutboxEvent, Outbox, event_matches, WebhookDelivery,
  no_error, http_status, no_reason, pattern_matches, ends_with, starts_with, but_last,
  audience_matches,
}
use ninja_devx.Webhooks.Deliver.{settle, claim, Settings, lost_claim}
use ninja_devx.Webhooks.Loop.{Transport, Turn, deliver_due, empty_report}
use ninja_devx.Webhooks.Publish.{
  in_audience, audience_of, new_delivery, publish, check_target, bulk_create, publish_rows,
  visit_endpoint, flush, collect,
}
use ninja_devx.Webhooks.Kept.{Leaves}
use ninja_devx.Webhooks.Promises.{IsHonest, deliver_due-IsHonest, open_or_failed}
use ninja_devx.Webhooks.Runs.{Respects}
use ninja_devx.Webhooks.Lease.{claim-exclusive, settle-taken_over}
use ninja_devx.Webhooks.Patterns.{AnyCovers, event_matches_iff}
use ninja_devx.Webhooks.Targets.{publish-delivers, first}
use ninja_devx.Webhooks.Audience.{in_audience_iff}

abbrev shop : WebhookEndpoint
shop = record {
  url = codes "https://shop.example/hook";
  events = codes "order.*" ∷ [];
  owner_id = some 7;
  tenant_key = [];
  is_active = true;
  failing_since = some 100;
  disabled_reason = no_reason;
}

abbrev order_created : OutboxEvent
order_created = record {
  event_type = codes "order.created";
  payload = codes "{}";
  audience = some (record { owner = some (7 ∷ []); tenant_key = []; broadcast = false });
  created = 900;
}

abbrev delivery : WebhookDelivery
delivery = record {
  event_id = 4;
  endpoint_id = 2;
  status = pending;
  attempts = 1;
  lease_token = none;
  next_attempt_at = some 1000;
  last_status_code = some 503;
  last_error = http_status 503;
  delivered_at = none;
}

abbrev delivered : WebhookDelivery
delivered = record delivery {
  status = succeeded;
  next_attempt_at = none;
  last_status_code = some 200;
  last_error = no_error;
  delivered_at = some 950;
}

abbrev outbox_with : WebhookDelivery → Outbox
outbox_with d = record {
  events = (4, order_created) ∷ [];
  endpoints = (2, shop) ∷ [];
  deliveries = put 9 d [];
}

abbrev two_delays : Settings
two_delays = record { timeout = 10; schedule = 5 ∷ 300 ∷ []; disable_after = some 500 }

-- The text of a key.
tag : Option ℕ → Text
tag none = []
tag (some n) = n ∷ []

tag_injective : (a b : Option ℕ) → tag a ≡ tag b → a ≡ b
unfolding tag
tag_injective none none h = refl
tag_injective none (some b) h = cc
tag_injective (some a) none h = cc
tag_injective (some a) (some b) h = ap some (ground arith)

answers : ℕ → Transport
answers code endpoint event = ok code

turns : ℕ → Turn
turns n = record {
  token = 50 + n;
  claimed_at = 1001;
  before_load = λ db. db;
  during_send = λ db. db;
  completed_at = 1003;
}

alone : {Q : ℕ → WebhookDelivery → Type 0} (n : ℕ) → Respects Q (turns n)
unfolding turns
alone n = record { loading = λ db h. h; sending = λ db h. h }

one_row :
    (Q : ℕ → WebhookDelivery → Type 0) (d : WebhookDelivery)
    → Q 9 d
    → Every Q (outbox_with d).deliveries
unfolding get
one_row Q d q = Every-put Q 9 d [] q (λ k v h. cc)

deliver_due-IsHonest_example :
    Leaves
      (λ after. Every (IsHonest (λ t. t ≡ 1003)) after.deliveries)
      (deliver_due tag (answers 200) two_delays 100 none 1001 turns (outbox_with delivery))
unfolding turns
deliver_due-IsHonest_example =
    deliver_due-IsHonest tag (answers 200) two_delays 100 none 1001 turns (outbox_with delivery)
      (λ t. t ≡ 1003) (λ n. refl) alone
      (one_row (IsHonest (λ t. t ≡ 1003)) delivery (open_or_failed (λ h. cc)))

-- Another worker has deleted the endpoint since the claim.
abbrev endpoint_gone : Outbox
endpoint_gone = record (claim 9 50 10 1001 (outbox_with delivery)).1 { endpoints = [] }

claim-exclusive_example : claim 9 51 10 1030 endpoint_gone ≡ (false, endpoint_gone)
unfolding claim update get put
claim-exclusive_example =
    claim-exclusive 9 50 51 10 10 1001 1030 (outbox_with delivery) endpoint_gone refl refl
      (omega arith)

-- The first worker's lease, with the token 50, has run out.
abbrev leased : WebhookDelivery
leased = record delivery { lease_token = some 50; next_attempt_at = some 1071 }

settle-taken_over_example :
    settle two_delays 9 50 2
      (some 200, no_error)
      1080
      (claim 9 51 10 1075 (outbox_with leased)).1
      empty_report
    ≡ ok ((claim 9 51 10 1075 (outbox_with leased)).1, lost_claim empty_report)
unfolding claim update get put
settle-taken_over_example =
    settle-taken_over two_delays 9 50 51 2 10 1075 (some 200, no_error) 1080 shop
      (outbox_with leased) empty_report refl refl (omega arith)

abbrev worn : WebhookDelivery
worn = record leased { attempts = 2 }

event_matches_iff_example :
    (event_matches (codes "user.*" ∷ codes "order.*" ∷ []) (codes "order.created") ≡ true)
    ↔ AnyCovers (codes "user.*" ∷ codes "order.*" ∷ []) (codes "order.created")
event_matches_iff_example =
    event_matches_iff (codes "user.*" ∷ codes "order.*" ∷ []) (codes "order.created")

in_audience_iff_example : (in_audience false (some 7) [] shop ≡ true) ↔ (
    (shop.is_active ≡ true)
    × (audience_matches tag
          (record {
            event_type = codes "order.paid";
            payload = codes "{}";
            audience = some (audience_of tag (some 7) [] false);
            created = 2000;
          })
          shop
        ≡ true))
in_audience_iff_example =
    in_audience_iff tag tag_injective (codes "order.paid") (codes "{}") 2000 (some 7) [] false shop

abbrev order_paid : Text
order_paid = codes "order.paid"

-- The outbox after an event for the owner of the shop.
abbrev published_outbox : Outbox
published_outbox = record (outbox_with delivered) {
  events =
      put 5
        (record {
          event_type = order_paid;
          payload = codes "{}";
          audience = some (audience_of tag (some 7) [] false);
          created = 2000;
        })
        (outbox_with delivered).events;
  deliveries = put 10 (new_delivery 5 2 2000) (outbox_with delivered).deliveries;
}

published_lem :
    publish tag order_paid (codes "{}") (some (some 7)) [] false 5 10 2000 (outbox_with delivered)
    ≡ ok published_outbox
unfolding publish check_target in_audience publish_rows visit_endpoint flush collect bulk_create
    event_matches pattern_matches text_eq ends_with starts_with but_last put tag
published_lem = refl

publish-delivers_example :
    (k : ℕ) × (get k published_outbox.deliveries ≡ some (new_delivery 5 2 2000))
unfolding in_audience event_matches pattern_matches text_eq ends_with starts_with but_last
publish-delivers_example =
    publish-delivers tag order_paid (codes "{}") (some (some 7)) [] false 5 10 2000
      (outbox_with delivered) published_outbox published_lem 2 shop first refl refl
