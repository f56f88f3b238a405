-- ===== src/Webhooks/Defs.antt =====
-- The rows of the outbox, and the subscriptions of an endpoint. Instants and delays are numbers of
-- seconds.
use ninja_devx.Prelude.{
  ℕ, Bool, List, Text, true, Option, false, ◌∷◌, text_eq, none, ◌||◌, ◌==◌, some, [], codes, ◌&&◌,
}
use ninja_devx.Prelude.Table.{Table}

pub data DeliveryStatus : Type 0 where
  pending succeeded failed : DeliveryStatus

-- `disabled_reason`: blank, or the text "Failing since" with an instant.
pub data DisabledReason : Type 0 where
  no_reason : DisabledReason
  failing_from : ℕ → DisabledReason

-- `last_error`: blank, the text "HTTP" with a status, or the text of an `OSError`.
pub data LastError : Type 0 where
  no_error : LastError
  http_status : ℕ → LastError
  os_error : Text → LastError

pub record WebhookEndpoint : Type 0 where
  pub url : Text
  pub events : List Text
  pub owner_id : Option ℕ
  pub tenant_key : Text
  pub is_active : Bool
  pub failing_since : Option ℕ
  pub disabled_reason : DisabledReason

-- The JSON object that `publish` stores.
pub record Audience : Type 0 where
  pub owner : Option Text
  pub tenant_key : Text
  pub broadcast : Bool

-- `audience` is `none` for another JSON value, as the empty object of rows from before the column.
pub record OutboxEvent : Type 0 where
  pub event_type : Text
  pub payload : Text
  pub audience : Option Audience
  pub created : ℕ

pub record WebhookDelivery : Type 0 where
  pub event_id : ℕ
  pub endpoint_id : ℕ
  pub status : DeliveryStatus
  pub attempts : ℕ
  pub lease_token : Option ℕ
  pub next_attempt_at : Option ℕ
  pub last_status_code : Option ℕ
  pub last_error : LastError
  pub delivered_at : Option ℕ

pub record Outbox : Type 0 where
  pub events : Table OutboxEvent
  pub endpoints : Table WebhookEndpoint
  pub deliveries : Table WebhookDelivery

abbrev pub is_pending : DeliveryStatus → Bool
is_pending pending = true
is_pending _ = false

-- `str.endswith`
unfoldable pub ends_with : Text → Text → Bool
ends_with suffix [] = text_eq [] suffix
ends_with suffix (c ∷ s) = text_eq (c ∷ s) suffix || ends_with suffix s

-- `event_type.startswith(prefix)`
unfoldable pub starts_with : Text → Text → Bool
starts_with [] s = true
starts_with (c ∷ prefix) [] = false
starts_with (c ∷ prefix) (d ∷ s) = c == d && starts_with prefix s

-- `pattern[:-1]`
unfoldable pub but_last : Text → Text
but_last [] = []
but_last (c ∷ []) = []
but_last (c ∷ d ∷ s) = c ∷ but_last (d ∷ s)

unfoldable pub pattern_matches : Text → Text → Bool
unfolding ends_with starts_with but_last
pattern_matches pattern event_type =
    text_eq pattern (codes "*")
    || text_eq pattern event_type
    || (ends_with (codes ".*") pattern && starts_with (but_last pattern) event_type)

unfoldable pub event_matches : List Text → Text → Bool
unfolding pattern_matches
event_matches [] event_type = false
event_matches (pattern ∷ patterns) event_type =
    pattern_matches pattern event_type || event_matches patterns event_type

-- `_audience_matches`, where `str` prints a primary key or `None`.
unfoldable pub audience_matches : (Option ℕ → Text) → OutboxEvent → WebhookEndpoint → Bool
audience_matches str event endpoint = elim event.audience [
  | none ↦ false
  | some audience ↦
      audience.broadcast
      || (text_eq audience.tenant_key endpoint.tenant_key && elim audience.owner [
        | none ↦ true
        | some owner ↦ text_eq owner (str endpoint.owner_id)
      ])
]
