-- ===== src/Webhooks/Targets.antt =====
-- The deliveries that `publish` stores.
use ninja_devx.Prelude.{
  ℕ, Option, List, Text, ◌∷◌, Bool, ◌<◌, ◌≡◌, true, ◌+◌, some, ok, arith, ◌⊎◌, inl, ◌∙◌, inr, [],
  Bool-cases, refl, sym, ◌==◌, ◌&&◌, Outcome, ap, if◌then◌else◌, false, ◌>>◌, raise,
}
use ninja_devx.Prelude.Table.{Table, get, put, get-put_self, get-put}
use ninja_devx.Webhooks.Defs.{WebhookEndpoint, WebhookDelivery, Outbox, event_matches}
use ninja_devx.Webhooks.Publish.{
  bulk_create, publish, batch_size, new_delivery, in_audience, saved_pk, check_target, PublishError,
}
use ninja_devx.Webhooks.Batches.{wanted, publish_rows-bulk_create}

-- A row of a table, also one that an earlier row of the same key hides.
pub data Entry (id : ℕ) (endpoint : WebhookEndpoint) : Table WebhookEndpoint → Type 0 where
  first : {rows : Table WebhookEndpoint} → Entry id endpoint ((id, endpoint) ∷ rows)
  after :
      {row : ℕ × WebhookEndpoint} {rows : Table WebhookEndpoint}
      → Entry id endpoint rows
      → Entry id endpoint (row ∷ rows)

-- A delivery of the event to an endpoint that is selected and subscribed.
pub record Target (selected : WebhookEndpoint → Bool) (event_type : Text) (event_id now : ℕ)
    (endpoints : Table WebhookEndpoint) (d : WebhookDelivery) : Type 0 where
  pub id : ℕ
  pub endpoint : WebhookEndpoint
  pub entry : Entry id endpoint endpoints
  pub chosen : selected endpoint ≡ true
  pub subscribed : event_matches endpoint.events event_type ≡ true
  pub stored : d ≡ new_delivery event_id id now

pub data Listed (d : WebhookDelivery) : List WebhookDelivery → Type 0 where
  head : {ds : List WebhookDelivery} → Listed d (d ∷ ds)
  tail : {e : WebhookDelivery} {ds : List WebhookDelivery} → Listed d ds → Listed d (e ∷ ds)

get-bulk_create_before :
    (k next : ℕ) (ds : List WebhookDelivery) (rows : Table WebhookDelivery)
    → k < next
    → get k (bulk_create next ds rows) ≡ get k rows
unfolding bulk_create
get-bulk_create_before k next [] rows h = refl
get-bulk_create_before k next (d ∷ ds) rows h =
    get-bulk_create_before k (next + 1) ds (put next d rows) (omega arith)
    ∙ ground (arith, get-put next k d rows)

-- What is found after an insertion was there before or is one of the inserted rows.
get-bulk_create-some :
    (k next : ℕ) (ds : List WebhookDelivery) (rows : Table WebhookDelivery) (d : WebhookDelivery)
    → get k (bulk_create next ds rows) ≡ some d
    → (get k rows ≡ some d) ⊎ Listed d ds
unfolding bulk_create
get-bulk_create-some k next [] rows d h = inl h
get-bulk_create-some k next (e ∷ ds) rows d h =
    elim (get-bulk_create-some k (next + 1) ds (put next e rows) d h) [
      | inr l ↦ inr (tail l)
      | inl f ↦ elim (Bool-cases (next == k)) [
        | inr g ↦ inl (ground (arith, get-put next k e rows))
        | inl g ↦
            (let same : e ≡ d = ground (arith, get-put next k e rows) in inr (rw (sym same) head))
      ]
    ]

get-bulk_create-Listed :
    (next : ℕ) (ds : List WebhookDelivery) (rows : Table WebhookDelivery) (d : WebhookDelivery)
    → Listed d ds
    → (k : ℕ) × (get k (bulk_create next ds rows) ≡ some d)
unfolding bulk_create
get-bulk_create-Listed next [] rows d l = elim l [ ]
get-bulk_create-Listed next (d ∷ ds) rows _ head = (
  next,
  get-bulk_create_before next (next + 1) ds (put next d rows) (omega arith)
      ∙ get-put_self next d rows,
)
get-bulk_create-Listed next (e ∷ ds) rows d (tail l) =
    get-bulk_create-Listed (next + 1) ds (put next e rows) d l

module _ (selected : WebhookEndpoint → Bool) (event_type : Text) (event_id now : ℕ) where
  widen :
      {rows : Table WebhookEndpoint} {d : WebhookDelivery} (row : ℕ × WebhookEndpoint)
      → Target selected event_type event_id now rows d
      → Target selected event_type event_id now (row ∷ rows) d
  widen row t = record {
    id = t.id;
    endpoint = t.endpoint;
    entry = after t.entry;
    chosen = t.chosen;
    subscribed = t.subscribed;
    stored = t.stored;
  }

  -- The row at the head of the endpoints, by the outcome of its test.
  wanted-Target_step :
      (id : ℕ) (endpoint : WebhookEndpoint) (rows : Table WebhookEndpoint)
      (others : List WebhookDelivery) (d : WebhookDelivery) (test : Bool)
      → (selected endpoint && event_matches endpoint.events event_type) ≡ test
      → Listed d (if test then new_delivery event_id id now ∷ others else others)
      → (Listed d others → Target selected event_type event_id now rows d)
      → Target selected event_type event_id now ((id, endpoint) ∷ rows) d
  wanted-Target_step id endpoint rows others d false h l next = widen (id, endpoint) (next l)
  wanted-Target_step id endpoint rows others d true h (tail l) next = widen (id, endpoint) (next l)
  wanted-Target_step id endpoint rows others d true h head next = record {
    id = id;
    endpoint = endpoint;
    entry = first;
    chosen = ground arith;
    subscribed = ground arith;
    stored = refl;
  }

  wanted-Target :
      (rows : Table WebhookEndpoint) (d : WebhookDelivery)
      → Listed d (wanted selected event_type event_id now rows)
      → Target selected event_type event_id now rows d
  unfolding wanted
  wanted-Target [] d l = elim l [ ]
  wanted-Target ((id, endpoint) ∷ rows) d l =
      wanted-Target_step id endpoint rows (wanted selected event_type event_id now rows) d _ refl l
        (wanted-Target rows d)

  wanted-Listed :
      (rows : Table WebhookEndpoint) (id : ℕ) (endpoint : WebhookEndpoint)
      → Entry id endpoint rows
      → selected endpoint ≡ true
      → event_matches endpoint.events event_type ≡ true
      → Listed (new_delivery event_id id now) (wanted selected event_type event_id now rows)
  unfolding wanted
  wanted-Listed [] id endpoint e s m = elim e [ ]
  wanted-Listed (_ ∷ rows) id endpoint first s m = rw s (rw m head)
  wanted-Listed ((j, other) ∷ rows) id endpoint (after e) s m =
      elim (Bool-cases (selected other && event_matches other.events event_type)) [
        | inl h ↦ rw h (tail (wanted-Listed rows id endpoint e s m))
        | inr h ↦ rw h (wanted-Listed rows id endpoint e s m)
      ]

-- What a call that returned after its checks gave.
then_ok :
    {A : Type 0} (checks : Outcome PublishError (Unit {0})) (value result : A)
    → (checks >> ok value) ≡ ok result
    → value ≡ result
then_ok (ok u) value result h = ground arith
then_ok (raise e) value result h = cc

module _ (str : Option ℕ → Text) (event_type payload : Text) (owner : Option (Option ℕ))
    (tenant_key : Text) (broadcast : Bool) (event_id next now : ℕ) (db after_db : Outbox)
    (published : publish str event_type payload owner tenant_key broadcast event_id next now db
      ≡ ok after_db) where
  published_rows :
      after_db.deliveries
      ≡ bulk_create next
          (wanted
            (in_audience broadcast (saved_pk owner) tenant_key)
            event_type
            event_id
            now
            db.endpoints)
          db.deliveries
  unfolding publish
  published_rows =
      sym (
        ap (λ (x : Outbox). x.deliveries)
          (then_ok (check_target event_type owner tenant_key broadcast) _ after_db published))
      ∙ publish_rows-bulk_create batch_size (in_audience broadcast (saved_pk owner) tenant_key)
          event_type event_id now db.endpoints
          (record { batch = []; next = next; deliveries = db.deliveries })

  -- After `publish` returns, each delivery was there before or is a new pending one of this event,
  -- to an endpoint that the query selects and that is subscribed.
  pub publish-Target :
      (k : ℕ) (d : WebhookDelivery)
      → get k after_db.deliveries ≡ some d
      → (get k db.deliveries ≡ some d)
        ⊎ Target
            (in_audience broadcast (saved_pk owner) tenant_key)
            event_type
            event_id
            now
            db.endpoints
            d
  publish-Target k d h =
      elim (get-bulk_create-some k next _ db.deliveries d (rw (sym published_rows) h)) [
        | inl old ↦ inl old
        | inr l ↦ inr (wanted-Target _ event_type event_id now db.endpoints d l)
      ]

  -- After `publish` returns, every endpoint that the query selects and that is subscribed has a
  -- pending delivery of this event.
  pub publish-delivers :
      (id : ℕ) (endpoint : WebhookEndpoint)
      → Entry id endpoint db.endpoints
      → in_audience broadcast (saved_pk owner) tenant_key endpoint ≡ true
      → event_matches endpoint.events event_type ≡ true
      → (k : ℕ) × (get k after_db.deliveries ≡ some (new_delivery event_id id now))
  publish-delivers id endpoint e s m =
      let (k, h) = get-bulk_create-Listed next _ db.deliveries _ (
        wanted-Listed (in_audience broadcast (saved_pk owner) tenant_key) event_type event_id now
          db.endpoints id endpoint e s m) in
      (k, rw published_rows h)
