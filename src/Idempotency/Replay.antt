-- ===== src/Idempotency/Replay.antt =====
-- What a retry gets: the stored response, a refusal, or a new claim.
use ninja_devx.Prelude.{
  ℕ, ◌≡◌, true, some, ◌+◌, ◌<◌, false, ok, codes, ◌≢◌, arith, ◌≤◌, ◌==◌, ◌&&◌, if◌then◌else◌, Bool,
  ◌∙◌, refl, ap, none, Text,
}
use ninja_devx.Idempotency.Store.{
  Claim, finish, Response, IdempotencyRecord, Db, complete, acquire, kept, running, contend,
  omitted, answered, json_detail, claimed, new_record, is_expired, get_or_create,
  default_content_type, replayed,
}
use ninja_devx.Idempotency.Headers.{header_of, same_name, stored_header, header_of-replay}
use ninja_devx.Prelude.Table.{get, get-update, put, update-some, get-put_self}

-- The row of a claim that is still held.
pub record IsHeld (claim : Claim) (row : IdempotencyRecord) (db : Db) : Type 0 where
  pub found : get claim.key db ≡ some row
  pub token : row.token ≡ claim.token
  pub running_state : row.state ≡ running

-- The row after the claim's response was stored.
abbrev pub completed : Claim → Response → ℕ → IdempotencyRecord → IdempotencyRecord
completed claim response now row = record row {
  state = complete;
  status = some response.status;
  body = response.body;
  headers = kept (omitted response.headers) response.headers;
  expires_at = some (now + claim.ttl);
}

pub get-finish :
    (claim : Claim) (response : Response) (row : IdempotencyRecord) (now : ℕ) (db : Db)
    → IsHeld claim row db
    → response.buffered ≡ true
    → get claim.key (finish claim response now db) ≡ some (completed claim response now row)
unfolding finish
get-finish claim response row now db held b = rw (b, get-update) (rw held.found (ground arith))

pub acquire-found :
    (key token fingerprint ttl now : ℕ) (row : IdempotencyRecord) (db : Db)
    → get key db ≡ some row
    → acquire false key token fingerprint ttl now db
      ≡ ok (contend row key token fingerprint ttl now db)
unfolding acquire get_or_create
acquire-found key token fingerprint ttl now row db h = rw (h, get_or_create) refl

pub acquire-absent :
    (key token fingerprint ttl now : ℕ) (db : Db)
    → get key db ≡ none
    → acquire false key token fingerprint ttl now db
      ≡ ok (
        claimed (record { key = key; token = token; ttl = ttl }),
        put key (new_record token fingerprint now) db,
      )
unfolding acquire get_or_create
acquire-absent key token fingerprint ttl now db h = rw (h, get_or_create) refl

pub contend-expired :
    (row : IdempotencyRecord) (key token fingerprint ttl now : ℕ) (db : Db)
    → get key db ≡ some row
    → is_expired row now ≡ true
    → contend row key token fingerprint ttl now db ≡ (
      claimed (record { key = key; token = token; ttl = ttl }),
      put key (new_record token fingerprint now) db,
    )
unfolding contend
contend-expired row key token fingerprint ttl now db h e =
    let test : IdempotencyRecord → Bool = λ r. r.token == row.token && is_expired r now in
    let passes : test row ≡ true = ground arith in
    rw e (rw (update-some key test (λ r. new_record token fingerprint now) db row h passes) refl)

-- The answer to a retry: the status and body of the response, and under each name the header that
-- was kept of it, but for the mark and the default of the content type.
pub record IsReplay (response replay : Response) : Type 0 where
  pub status : replay.status ≡ response.status
  pub body : replay.body ≡ response.body
  pub headers :
      (name : Text)
      → header_of name replay.headers ≡ (
          if same_name (codes "Idempotent-Replayed") name
          then some (codes "true")
          else stored_header name
              (kept (omitted response.headers) response.headers)
              (if same_name (codes "Content-Type") name then some default_content_type else none))

module _ (claim : Claim) (response : Response) (row : IdempotencyRecord) (t : ℕ) (db : Db)
    (held : IsHeld claim row db) (buffered : response.buffered ≡ true)
    (token fingerprint ttl now : ℕ) where
  -- Until its retention ends, a finished claim answers each retry of the same request with the
  -- stored status and body, and the table stays as it is. Each header has the value that was kept,
  -- but for the mark of a replay, and for the content type where none was kept: this is then the
  -- default one.
  pub acquire-finish_replays :
      fingerprint ≡ row.fingerprint
      → now < t + claim.ttl
      → (replay : Response) × (acquire false claim.key token fingerprint ttl now
            (finish claim response t db)
          ≡ ok (answered replay, finish claim response t db))
        × IsReplay response replay
  unfolding replayed
  acquire-finish_replays same early = (
    replayed (completed claim response t row),
    rw
        (acquire-found claim.key token fingerprint ttl now (completed claim response t row) _
          (get-finish claim response row t db held buffered))
        (unfold contend in ground arith),
    record {
      status = refl;
      body = refl;
      headers = λ name.
          header_of-replay name (codes "Idempotent-Replayed") (codes "true") (codes "Content-Type")
            default_content_type (kept (omitted response.headers) response.headers);
    },
  )

  -- A retry that differs is refused with a 422 until the retention ends, and changes nothing.
  pub acquire-finish_refuses :
      fingerprint ≢ row.fingerprint
      → now < t + claim.ttl
      → acquire false claim.key token fingerprint ttl now (finish claim response t db)
        ≡ ok (
          answered (json_detail "Idempotency key was used for a different request" 422),
          finish claim response t db,
        )
  acquire-finish_refuses other early =
      rw
        (acquire-found claim.key token fingerprint ttl now (completed claim response t row) _
          (get-finish claim response row t db held buffered))
        (unfold contend in ground arith)

  -- From the end of the retention on, a request with the key claims it again, whatever it asks,
  -- and the new claim is held.
  pub acquire-finish_claims :
      t + claim.ttl ≤ now
      → (db' : Db) × (acquire false claim.key token fingerprint ttl now (finish claim response t db)
          ≡ ok (claimed (record { key = claim.key; token = token; ttl = ttl }), db'))
        × IsHeld
            (record { key = claim.key; token = token; ttl = ttl })
            (new_record token fingerprint now)
            db'
  acquire-finish_claims late =
      let db1 = finish claim response t db in
      let at_end = get-finish claim response row t db held buffered in
      (
        put claim.key (new_record token fingerprint now) db1,
        acquire-found claim.key token fingerprint ttl now (completed claim response t row) db1
              at_end
            ∙ ap ok (
                contend-expired (completed claim response t row) claim.key token fingerprint ttl now
                  db1 at_end (ground arith)),
        record {
          found = get-put_self claim.key (new_record token fingerprint now) db1;
          token = refl;
          running_state = refl;
        },
      )

-- A request that is still running is never taken over: at any later time the same request is
-- answered 409 and another one 422, and the table stays as it is.
pub acquire-held :
    (claim : Claim) (row : IdempotencyRecord) (token fingerprint ttl now : ℕ) (db : Db)
    → IsHeld claim row db
    → acquire false claim.key token fingerprint ttl now db
      ≡ ok (
        answered (
            if row.fingerprint == fingerprint
            then json_detail "Request is in progress or requires reconciliation" 409
            else json_detail "Idempotency key was used for a different request" 422),
        db,
      )
unfolding contend
acquire-held claim row token fingerprint ttl now db held =
    rw (acquire-found claim.key token fingerprint ttl now row db held.found)
      (ground (arith, held.running_state))
