-- ===== src/Idempotency/Store.antt =====
-- `Claim.finish` and `acquire`, over the table of `IdempotencyRecord` rows. A key is the SHA-256
-- digest, a token a UUID and an instant a number of seconds.
use mathlib.Core.List.{reverse}
use ninja_devx.Prelude.{
  ℕ, Option, Bool, String, none, Text, List, ◌++◌, if◌then◌else◌, map, [], codes, false, ◌∷◌, not,
  Outcome, some, true, ◌==◌, ◌&&◌, ◌||◌, text_in, raise, leb, text_eq, lower, ◌+◌, split_on, ok,
}
use ninja_devx.Prelude.Table.{Table, update, get, put}

-- A body: the bytes of a stored response, or the JSON object with one `detail` message.
pub data Body : Type 0 where
  content : Text → Body
  detail : String → Body

-- A response; `buffered` is `isinstance(response, HttpResponse)`, which streaming responses are not.
pub record Response : Type 0 where
  pub status : ℕ
  pub body : Body
  pub headers : List (Text × Text)
  pub buffered : Bool

pub data State : Type 0 where
  running complete : State

pub record IdempotencyRecord : Type 0 where
  pub token : ℕ
  pub fingerprint : ℕ
  pub state : State
  pub status : Option ℕ
  pub body : Body
  pub headers : List (Text × Text)
  pub created_at : ℕ
  pub expires_at : Option ℕ

pub record Claim : Type 0 where
  pub key : ℕ
  pub token : ℕ
  pub ttl : ℕ

abbrev pub Db : Type 0
Db = Table IdempotencyRecord

-- `response.get("Connection", "")`: field names are case-insensitive.
header_or_empty : Text → List (Text × Text) → Text
header_or_empty name [] = []
header_or_empty name ((n, v) ∷ rest) =
    if text_eq (lower n) (lower name) then v else header_or_empty name rest

-- Characters that `str.strip` removes, up to U+00A0.
is_space : ℕ → Bool
is_space c = c == 32 || (leb 9 c && leb c 13) || (leb 28 c && leb c 31) || c == 133 || c == 160

drop_spaces : Text → Text
unfolding is_space
drop_spaces [] = []
drop_spaces (c ∷ s) = let rest = drop_spaces s in if is_space c then rest else c ∷ s

-- `part.strip().lower()` for a part of a header value
strip : Text → Text
unfolding drop_spaces
strip s = reverse (drop_spaces (reverse (drop_spaces s)))

abbrev pub hop_headers : List Text
hop_headers = map codes (
    "set-cookie" ∷ "connection" ∷ "keep-alive" ∷ "proxy-authenticate" ∷ "proxy-authorization" ∷ "te"
    ∷ "trailer" ∷ "transfer-encoding" ∷ "upgrade" ∷ "x-request-id" ∷ "traceparent" ∷ "tracestate"
    ∷ "idempotent-replayed" ∷ [])

unfoldable pub omitted : List (Text × Text) → List Text
unfolding header_or_empty strip
omitted headers =
    hop_headers
    ++ map (λ part. lower (strip part))
        (split_on b',' (header_or_empty (codes "connection") headers))

-- `[(name, value) for name, value in response.items() if name.lower() not in omitted]`
unfoldable pub kept : List Text → List (Text × Text) → List (Text × Text)
kept names [] = []
kept names ((n, v) ∷ rest) =
    let others = kept names rest in if text_in (lower n) names then others else (n, v) ∷ others

abbrev pub is_running : State → Bool
is_running running = true
is_running complete = false

-- `filter(pk=self.key, token=self.token, state="running")`
abbrev pub owned_by : Claim → IdempotencyRecord → Bool
owned_by claim row = row.token == claim.token && is_running row.state

-- A response that is not buffered keeps the claim: its outcome is uncertain.
unfoldable pub finish : Claim → Response → ℕ → Db → Db
finish claim response now db =
    if response.buffered
    then (update claim.key (owned_by claim)
        (λ row. record row {
          state = complete;
          status = some response.status;
          body = response.body;
          headers = kept (omitted response.headers) response.headers;
          expires_at = some (now + claim.ttl);
        })
        db).1
    else db

-- `JsonResponse({"detail": text}, status=status)`
abbrev pub json_detail : String → ℕ → Response
json_detail text status = record {
  status = status;
  body = detail text;
  headers = (codes "Content-Type", codes "application/json") ∷ [];
  buffered = true;
}

pub data Acquired : Type 0 where
  claimed : Claim → Acquired
  answered : Response → Acquired

-- The row that `get_or_create` inserts, with the model's defaults.
abbrev pub new_record : ℕ → ℕ → ℕ → IdempotencyRecord
new_record token fingerprint now = record {
  token = token;
  fingerprint = fingerprint;
  state = running;
  status = none;
  body = content [];
  headers = [];
  created_at = now;
  expires_at = none;
}

-- The row, whether it was created, and the table.
unfoldable pub get_or_create : ℕ → ℕ → ℕ → ℕ → Db → (IdempotencyRecord × Bool) × Db
get_or_create key token fingerprint now db = elim (get key db) [
  | some row ↦ ((row, false), db)
  | none ↦ let row = new_record token fingerprint now in ((row, true), put key row db)
]

abbrev pub past : Option ℕ → ℕ → Bool
past none now = false
past (some t) now = leb t now

-- `state == "complete" and expires_at is not None and expires_at <= now`
abbrev pub is_expired : IdempotencyRecord → ℕ → Bool
is_expired row now = not (is_running row.state) && past row.expires_at now

-- The status of a stored row is never missing once it is complete; `HttpResponse(status=None)` is
-- a 200.
abbrev pub status_of : Option ℕ → ℕ
status_of none = 200
status_of (some n) = n

-- `response[name] = value`: a header of this name, in any case, keeps its place and gets the new
-- name and value.
unfoldable pub set_header : Text → Text → List (Text × Text) → List (Text × Text)
set_header name v [] = (name, v) ∷ []
set_header name v ((n, w) ∷ rest) =
    let others = set_header name v rest in
    if text_eq (lower n) (lower name) then (name, v) ∷ rest else (n, w) ∷ others

unfoldable pub set_headers : List (Text × Text) → List (Text × Text) → List (Text × Text)
unfolding set_header
set_headers [] headers = headers
set_headers ((n, v) ∷ stored) headers = set_headers stored (set_header n v headers)

-- `HttpResponse(content, status=...)` has a `Content-Type`, at Django's default settings this one.
abbrev pub default_content_type : Text
default_content_type = codes "text/html; charset=utf-8"

unfoldable pub replayed : IdempotencyRecord → Response
unfolding set_headers
replayed row = record {
  status = status_of row.status;
  body = row.body;
  headers =
      set_header (codes "Idempotent-Replayed") (codes "true")
        (set_headers row.headers ((codes "Content-Type", default_content_type) ∷ []));
  buffered = true;
}

-- What `acquire` does with a row that another request had created. `row` was read earlier: the
-- table may have changed since, so an expired row is taken over by compare and set.
unfoldable pub contend : IdempotencyRecord → ℕ → ℕ → ℕ → ℕ → ℕ → Db → Acquired × Db
contend row key token fingerprint ttl now db =
    if is_expired row now
    then (let (won, db') =
          update key (λ r. r.token == row.token && is_expired r now)
            (λ r. new_record token fingerprint now) db in
        if won
        then (claimed (record { key = key; token = token; ttl = ttl }), db')
        else (answered (json_detail "An idempotent request is already in progress" 409), db'))
    else if not (row.fingerprint == fingerprint)
    then (answered (json_detail "Idempotency key was used for a different request" 422), db)
    else if is_running row.state
    then (answered (json_detail "Request is in progress or requires reconciliation" 409), db)
    else (answered (replayed row), db)

pub data StoreError : Type 0 where
  improperly_configured : String → StoreError

-- `acquire`, where no other request changes the table between its two statements.
unfoldable pub acquire : Bool → ℕ → ℕ → ℕ → ℕ → ℕ → Db → Outcome StoreError (Acquired × Db)
unfolding get_or_create
acquire in_atomic_block key token fingerprint ttl now db =
    if in_atomic_block
    then raise (improperly_configured "Idempotency ownership requires autocommit")
    else (let ((row, created), db') = get_or_create key token fingerprint now db in
        if created
        then ok (claimed (record { key = key; token = token; ttl = ttl }), db')
        else ok (contend row key token fingerprint ttl now db'))
