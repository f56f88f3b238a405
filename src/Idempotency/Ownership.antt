-- ===== src/Idempotency/Ownership.antt =====
-- Concurrent requests: each reads or creates the row of its key, may contend for an expired row
-- with what it read, and stores its response later. Other requests run between these steps.
use ninja_devx.Prelude.{
  [], All, List, ℕ, ◌∷◌, ◌≡◌, ◌≢◌, if◌then◌else◌, some, ◌++◌, arith, false, All-zip, inl, ◌⊎◌,
  Option-cases, sym, inr, All-map, refl, Bool-cases, Bool, not, true, ◌==◌, ◌&&◌,
}
use ninja_devx.Idempotency.Store.{
  IdempotencyRecord, Db, Acquired, Claim, contend, claimed, get_or_create, answered, Response,
  is_running, finish, new_record, is_expired, json_detail, replayed,
}
use ninja_devx.Idempotency.Replay.{IsHeld}
use ninja_devx.Prelude.Table.{
  get, put, get-put, get-put_self, get-update, hit, update-miss, update-some,
}

-- The table and the claims that were handed out and whose response is not yet stored.
pub record Config : Type 0 where
  pub db : Db
  pub held : List Claim

abbrev pub start : Config
start = record { db = []; held = [] }

abbrev with_claim : Acquired → Config → Config
with_claim (claimed c) s = record s { held = c ∷ s.held }
with_claim (answered r) s = s

-- The first statement of `acquire`, which hands out a claim if it inserts the row.
pub begin_step : ℕ → ℕ → ℕ → ℕ → ℕ → Config → Config
begin_step key token fingerprint ttl now s =
    let ((row, created), db') = get_or_create key token fingerprint now s.db in
    if created
    then record { db = db'; held = record { key = key; token = token; ttl = ttl } ∷ s.held }
    else record s { db = db' }

-- The second statement, with whatever row was read before.
pub contend_step : IdempotencyRecord → ℕ → ℕ → ℕ → ℕ → ℕ → Config → Config
contend_step row key token fingerprint ttl now s =
    let (outcome, db') = contend row key token fingerprint ttl now s.db in
    with_claim outcome (record s { db = db' })

pub data Step (s t : Config) : Type 0 where
  begin :
      (key token fingerprint ttl now : ℕ)
      → t ≡ begin_step key token fingerprint ttl now s
      → Step s t
  retake :
      (row : IdempotencyRecord) (key token fingerprint ttl now : ℕ)
      → t ≡ contend_step row key token fingerprint ttl now s
      → Step s t
  store :
      (claim : Claim) (before after : List Claim) (response : Response) (now : ℕ)
      → s.held ≡ before ++ claim ∷ after
      → t ≡ record { db = finish claim response now s.db; held = before ++ after }
      → Step s t

pub data Reach : Config → Type 0 where
  here : Reach start
  next : {s t : Config} → Reach s → Step s t → Reach t

-- The row of the claim is running under the claim's token.
abbrev Holds : Db → Claim → Type 0
Holds db c = (row : IdempotencyRecord) × IsHeld c row db

abbrev Distinct : List Claim → Type 0
Distinct [] = Unit
Distinct (c ∷ cs) = All (λ d. d.key ≢ c.key) cs × Distinct cs

-- Every claim is held, and no two claims have the same key.
pub record IsOwned (s : Config) : Type 0 where
  pub rows : All (Holds s.db) s.held
  pub distinct : Distinct s.held

-- A write to a row that no claim holds keeps every claim.
put-Holds :
    (key : ℕ) (row : IdempotencyRecord) (db : Db) (c : Claim)
    → c.key ≢ key
    → Holds db c
    → Holds (put key row db) c
put-Holds key row db c other (r, h) = (
  r,
  record {
    found = ground (arith, get-put key c.key row db, h.found);
    token = h.token;
    running_state = h.running_state;
  },
)

-- A held row is neither missing nor complete, so it is not the row of `key` below.
other_key :
    (key : ℕ) (db : Db) (c : Claim)
    → Holds db c
    → ((row : IdempotencyRecord) → get key db ≡ some row → is_running row.state ≡ false)
    → c.key ≢ key
other_key key db c (r, h) free e =
    let at_key : get key db ≡ some r = rw e at h.found in ground (arith, free r at_key)

-- Handing out a claim on a key that no claim holds.
grant :
    (key token fingerprint ttl now : ℕ) (s : Config)
    → ((row : IdempotencyRecord) → get key s.db ≡ some row → is_running row.state ≡ false)
    → IsOwned s
    → IsOwned (record {
      db = put key (new_record token fingerprint now) s.db;
      held = record { key = key; token = token; ttl = ttl } ∷ s.held;
    })
grant key token fingerprint ttl now s free owned =
    let others : All (λ (c : Claim). c.key ≢ key) s.held =
      All-map (λ c h. other_key key s.db c h free) s.held owned.rows in
    record {
      rows = (
        (
          new_record token fingerprint now,
          record {
            found = get-put_self key (new_record token fingerprint now) s.db;
            token = refl;
            running_state = refl;
          },
        ),
        All-zip (λ c o h. put-Holds key (new_record token fingerprint now) s.db c o h) s.held others
            owned.rows,
      );
      distinct = (others, owned.distinct);
    }

begin-IsOwned :
    (key token fingerprint ttl now : ℕ) (s : Config)
    → IsOwned s
    → IsOwned (begin_step key token fingerprint ttl now s)
unfolding begin_step get_or_create
begin-IsOwned key token fingerprint ttl now s owned = elim (Option-cases (get key s.db)) [
  | inl e ↦ rw (e, get_or_create) (grant key token fingerprint ttl now s (λ row h. cc) owned)
  | inr (row, e) ↦ rw (e, get_or_create) owned
]

-- The answer when a row is not contended for.
abbrev refused : IdempotencyRecord → ℕ → Response
refused row fingerprint =
    if not (row.fingerprint == fingerprint)
    then json_detail "Idempotency key was used for a different request" 422
    else if is_running row.state
    then json_detail "Request is in progress or requires reconciliation" 409
    else replayed row

contend-live :
    (row : IdempotencyRecord) (key token fingerprint ttl now : ℕ) (db : Db)
    → is_expired row now ≡ false
    → contend row key token fingerprint ttl now db ≡ (answered (refused row fingerprint), db)
unfolding contend
contend-live row key token fingerprint ttl now db e = rw e (ground arith)

-- The compare and set finds no row that is as expected.
contend-lost :
    (row : IdempotencyRecord) (key token fingerprint ttl now : ℕ) (db : Db)
    → is_expired row now ≡ true
    → hit (λ r. r.token == row.token && is_expired r now) (get key db) ≡ false
    → contend row key token fingerprint ttl now db
      ≡ (answered (json_detail "An idempotent request is already in progress" 409), db)
unfolding contend
contend-lost row key token fingerprint ttl now db e lost = rw e (
    rw
      (update-miss key (λ r. r.token == row.token && is_expired r now)
        (λ r. new_record token fingerprint now) db lost)
      refl)

contend-won :
    (row old : IdempotencyRecord) (key token fingerprint ttl now : ℕ) (db : Db)
    → is_expired row now ≡ true
    → get key db ≡ some old
    → (old.token == row.token && is_expired old now) ≡ true
    → contend row key token fingerprint ttl now db ≡ (
      claimed (record { key = key; token = token; ttl = ttl }),
      put key (new_record token fingerprint now) db,
    )
unfolding contend
contend-won row old key token fingerprint ttl now db e found passes = rw e (
    rw
      (update-some key (λ r. r.token == row.token && is_expired r now)
        (λ r. new_record token fingerprint now) db old found passes)
      refl)

-- Contending either leaves the table alone, or takes over a complete row.
contend_cases :
    (row : IdempotencyRecord) (key token fingerprint ttl now : ℕ) (db : Db)
    → ((r : Response) × (contend row key token fingerprint ttl now db ≡ (answered r, db)))
      ⊎ ((old : IdempotencyRecord) × (get key db ≡ some old)
          × (is_running old.state ≡ false)
          × (contend row key token fingerprint ttl now db ≡ (
            claimed (record { key = key; token = token; ttl = ttl }),
            put key (new_record token fingerprint now) db,
          )))
contend_cases row key token fingerprint ttl now db =
    let test : IdempotencyRecord → Bool = λ r. r.token == row.token && is_expired r now in
    elim (Bool-cases (is_expired row now)) [
      | inr e ↦ inl (refused row fingerprint, contend-live row key token fingerprint ttl now db e)
      | inl e ↦ elim (Option-cases (get key db)) [
        | inl missing ↦ inl (
          json_detail "An idempotent request is already in progress" 409,
          contend-lost row key token fingerprint ttl now db e (rw missing refl),
        )
        | inr (old, found) ↦ elim (Bool-cases (test old)) [
          | inl passes ↦ inr (
            old,
            found,
            ground arith,
            contend-won row old key token fingerprint ttl now db e found passes,
          )
          | inr fails ↦ inl (
            json_detail "An idempotent request is already in progress" 409,
            contend-lost row key token fingerprint ttl now db e (rw found fails),
          )
        ]
      ]
    ]

contend-IsOwned :
    (row : IdempotencyRecord) (key token fingerprint ttl now : ℕ) (s : Config)
    → IsOwned s
    → IsOwned (contend_step row key token fingerprint ttl now s)
unfolding contend_step
contend-IsOwned row key token fingerprint ttl now s owned =
    elim (contend_cases row key token fingerprint ttl now s.db) [
      | inl (r, e) ↦ rw e owned
      | inr (old, found, done, e) ↦
          rw e (grant key token fingerprint ttl now s (λ r h. ground arith) owned)
    ]

finish-Holds :
    (c d : Claim) (response : Response) (now : ℕ) (db : Db)
    → d.key ≢ c.key
    → Holds db d
    → Holds (finish c response now db) d
unfolding finish
finish-Holds c d response now db other (r, h) = (
  r,
  record {
    found = elim (Bool-cases response.buffered) [
      | inl b ↦ rw (b, get-update) (ground arith)
      | inr b ↦ rw b h.found
    ];
    token = h.token;
    running_state = h.running_state;
  },
)

All-split {ℓ κ} :
    {A : Type ℓ} (P : A → Type κ) (before after : List A) (c : A)
    → All P (before ++ c ∷ after)
    → All P (before ++ after)
All-split P [] after c h = h.1
All-split P (b ∷ before) after c h = (h.0, All-split P before after c h.1)

All-middle {ℓ κ} :
    {A : Type ℓ} (P : A → Type κ) (before after : List A) (c : A)
    → All P (before ++ c ∷ after)
    → P c
All-middle P [] after c h = h.0
All-middle P (b ∷ before) after c h = All-middle P before after c h.1

Distinct-split :
    (before after : List Claim) (c : Claim)
    → Distinct (before ++ c ∷ after)
    → Distinct (before ++ after) × All (λ d. d.key ≢ c.key) (before ++ after)
Distinct-split [] after c h = (h.1, h.0)
Distinct-split (b ∷ before) after c h =
    let (rest, others) = Distinct-split before after c h.1 in
    let apart = All-middle (λ (d : Claim). d.key ≢ b.key) before after c h.0 in
    (
      (All-split (λ (d : Claim). d.key ≢ b.key) before after c h.0, rest),
      ((λ e. apart (sym e)), others),
    )

store-IsOwned :
    (c : Claim) (before after : List Claim) (response : Response) (now : ℕ) (s : Config)
    → s.held ≡ before ++ c ∷ after
    → IsOwned s
    → IsOwned (record { db = finish c response now s.db; held = before ++ after })
store-IsOwned c before after response now s e owned =
    let (distinct, others) = Distinct-split before after c (rw e at owned.distinct) in
    let rows : All (Holds s.db) (before ++ c ∷ after) = rw e at owned.rows in
    record {
      rows =
          All-zip (λ d o h. finish-Holds c d response now s.db o h) (before ++ after) others
            (All-split (Holds s.db) before after c rows);
      distinct = distinct;
    }

Step-IsOwned : {s t : Config} → Step s t → IsOwned s → IsOwned t
Step-IsOwned {s} (begin key token fingerprint ttl now e) owned =
    rw e (begin-IsOwned key token fingerprint ttl now s owned)
Step-IsOwned {s} (retake row key token fingerprint ttl now e) owned =
    rw e (contend-IsOwned row key token fingerprint ttl now s owned)
Step-IsOwned {s} (store c before after response now h e) owned =
    rw e (store-IsOwned c before after response now s h owned)

-- However requests interleave, each claim that was handed out and is not yet stored is the running
-- owner of its row, and no two of them have the same key: an operation never runs twice at once.
pub Reach-IsOwned : {s : Config} → Reach s → IsOwned s
Reach-IsOwned here = record { rows = tt; distinct = tt }
Reach-IsOwned (next r step) = Step-IsOwned step (Reach-IsOwned r)
