-- ===== src/Webhooks/Publish.antt =====
-- `publish`: the checks of its arguments, the event and a delivery for each endpoint. One database;
-- enqueueing the delivery after the commit is left out.
use ninja_devx.Prelude.{
  ℕ, Bool, Text, List, Option, String, ◌∷◌, Outcome, some, ◌&&◌, if◌then◌else◌, none, ◌+◌, ◌||◌,
  ◌>>◌, false, ok, require, [], true, text_eq, not, ◌==◌, is_none, ltb, length, leb, ◌++◌,
}
use ninja_devx.Prelude.Table.{Table, put}
use ninja_devx.Webhooks.Defs.{
  WebhookDelivery, WebhookEndpoint, Audience, Outbox, pending, event_matches, no_error,
}

pub data PublishError : Type 0 where
  value_error : String → PublishError

-- `WebhookEndpoint.objects.filter(...)`, the owner by primary key.
unfoldable pub in_audience : Bool → Option ℕ → Text → WebhookEndpoint → Bool
in_audience broadcast owner tenant_key endpoint =
    endpoint.is_active
    && (broadcast
        || (text_eq endpoint.tenant_key tenant_key && elim owner [
          | none ↦ true
          | some pk ↦ elim endpoint.owner_id [ none ↦ false | some id ↦ id == pk ]
        ]))

abbrev pub new_delivery : ℕ → ℕ → ℕ → WebhookDelivery
new_delivery event_id endpoint_id now = record {
  event_id = event_id;
  endpoint_id = endpoint_id;
  status = pending;
  attempts = 0;
  lease_token = none;
  next_attempt_at = some now;
  last_status_code = none;
  last_error = no_error;
  delivered_at = none;
}

-- The rows get the next primary keys.
unfoldable pub bulk_create :
    ℕ → List WebhookDelivery → Table WebhookDelivery → Table WebhookDelivery
bulk_create next [] deliveries = deliveries
bulk_create next (d ∷ ds) deliveries = bulk_create (next + 1) ds (put next d deliveries)

-- The loop over the endpoints: the deliveries collected so far, the next primary key and the rows.
pub record Loop : Type 0 where
  pub batch : List WebhookDelivery
  pub next : ℕ
  pub deliveries : Table WebhookDelivery

-- `WebhookDelivery.objects.bulk_create(batch)` and `batch.clear()`
unfoldable pub flush : Loop → Loop
unfolding bulk_create
flush s = record {
  batch = [];
  next = s.next + length s.batch;
  deliveries = bulk_create s.next s.batch s.deliveries;
}

-- `if len(batch) == 500`
abbrev pub flush_full : ℕ → Loop → Loop
flush_full size s = if length s.batch == size then flush s else s

-- `if event_matches(...)`
unfoldable pub collect : Text → ℕ → ℕ → ℕ → WebhookEndpoint → Loop → Loop
collect event_type event_id now id endpoint s =
    if event_matches endpoint.events event_type
    then record s { batch = s.batch ++ new_delivery event_id id now ∷ [] }
    else s

-- One row: an endpoint that the query does not select is not a round of the loop.
unfoldable pub visit_endpoint :
    ℕ → (WebhookEndpoint → Bool) → Text → ℕ → ℕ → ℕ → WebhookEndpoint → Loop → Loop
unfolding flush collect
visit_endpoint size selected event_type event_id now id endpoint s =
    if selected endpoint then flush_full size (collect event_type event_id now id endpoint s) else s

-- The loop, and the last batch.
unfoldable pub publish_rows :
    ℕ
    → (WebhookEndpoint → Bool)
    → Text
    → ℕ
    → ℕ
    → Table WebhookEndpoint
    → Loop
    → Table WebhookDelivery
unfolding visit_endpoint
publish_rows size selected event_type event_id now [] s =
    if ltb 0 (length s.batch) then bulk_create s.next s.batch s.deliveries else s.deliveries
publish_rows size selected event_type event_id now ((id, endpoint) ∷ rows) s =
    publish_rows size selected event_type event_id now rows
      (visit_endpoint size selected event_type event_id now id endpoint s)

abbrev pub batch_size : ℕ
batch_size = 500

-- `audience = {...}`
abbrev pub audience_of : (Option ℕ → Text) → Option ℕ → Text → Bool → Audience
audience_of str owner tenant_key broadcast = record {
  owner = elim owner [ none ↦ none | some pk ↦ some (str (some pk)) ];
  tenant_key = tenant_key;
  broadcast = broadcast;
}

-- An owner is a model instance, whose primary key is missing until it is saved.
abbrev pub saved : Option (Option ℕ) → Bool
saved (some none) = false
saved _ = true

abbrev pub saved_pk : Option (Option ℕ) → Option ℕ
saved_pk none = none
saved_pk (some pk) = pk

-- The checks at the top of `publish`.
unfoldable pub check_target :
    Text → Option (Option ℕ) → Text → Bool → Outcome PublishError (Unit {0})
check_target event_type owner tenant_key broadcast = do
  require (not (broadcast && (not (is_none owner) || ltb 0 (length tenant_key))))
      (value_error "broadcast cannot be combined with owner or tenant_key")
  require (broadcast || not (is_none owner) || ltb 0 (length tenant_key))
      (value_error "publish requires owner, tenant_key or explicit broadcast=True")
  require (saved owner) (value_error "publish owner must be saved")
  require (leb (length tenant_key) 200) (value_error "tenant_key exceeds 200 characters")
  require (ltb 0 (length event_type) && leb (length event_type) 100)
      (value_error "event_type must contain 1 to 100 characters")

unfoldable pub publish :
    (Option ℕ → Text)
    → Text
    → Text
    → Option (Option ℕ)
    → Text
    → Bool
    → ℕ
    → ℕ
    → ℕ
    → Outbox
    → Outcome PublishError Outbox
unfolding check_target publish_rows in_audience
publish str event_type payload owner tenant_key broadcast event_id next now db = do
  check_target event_type owner tenant_key broadcast
  ok (record db {
    events =
        put event_id
          (record {
            event_type = event_type;
            payload = payload;
            audience = some (audience_of str (saved_pk owner) tenant_key broadcast);
            created = now;
          })
          db.events;
    deliveries =
        publish_rows batch_size (in_audience broadcast (saved_pk owner) tenant_key) event_type
          event_id now db.endpoints
          (record { batch = []; next = next; deliveries = db.deliveries });
  })
