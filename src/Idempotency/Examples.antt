-- ===== src/Idempotency/Examples.antt =====
-- Concrete rows, claims and requests.
use ninja_devx.Prelude.{
  String, codes, ◌∷◌, false, ℕ, [], refl, ◌≡◌, none, text_in, some, lower, true, ok, if◌then◌else◌,
  split_on, str_eq, ◌==◌, text_eq, arith, Outcome,
}
use ninja_devx.Idempotency.Store.{
  kept, IdempotencyRecord, acquire, Response, Db, Claim, content, finish, new_record, omitted,
  answered, json_detail, set_header, set_headers, default_content_type,
}
use ninja_devx.Idempotency.Policy.{
  Policy, Parts, Request, principal_and_tenant, custom, instance_of, none_value, PolicyError, Scope,
}
use ninja_devx.Prelude.Table.{get}
use ninja_devx.Idempotency.Ownership.{IsOwned, begin_step, start, Reach-IsOwned, next, here, begin}
use ninja_devx.Idempotency.Replay.{IsReplay, IsHeld, acquire-held, acquire-finish_replays}

abbrev first_claim : Claim
first_claim = record { key = 5; token = 1; ttl = 60 }

abbrev first_row : IdempotencyRecord
first_row = new_record 1 77 100

abbrev one_row : Db
one_row = (5, first_row) ∷ []

abbrev created : Response
created = record {
  status = 201;
  body = content (codes "{}");
  headers = (codes "Set-Cookie", codes "a=b") ∷ (codes "Location", codes "/1") ∷ [];
  buffered = true;
}

first-IsHeld : IsHeld first_claim first_row one_row
unfolding get
first-IsHeld = record { found = refl; token = refl; running_state = refl }

abbrev after_first : Db
after_first = finish first_claim created 110 one_row

acquire-finish_replays_example :
    (replay : Response) × (acquire false 5 2 77 60 150 after_first
      ≡ ok (answered replay, after_first))
    × IsReplay created replay
acquire-finish_replays_example =
    acquire-finish_replays first_claim created first_row 110 one_row first-IsHeld refl 2 77 60 150
      refl (omega arith)

acquire-held_example :
    acquire false 5 2 77 60 99999 one_row
    ≡ ok (
      answered (
          if 77 == 77
          then json_detail "Request is in progress or requires reconciliation" 409
          else json_detail "Idempotency key was used for a different request" 422),
      one_row,
    )
acquire-held_example = acquire-held first_claim first_row 2 77 60 99999 one_row first-IsHeld

cookies_dropped :
    kept (omitted created.headers) created.headers ≡ (codes "Location", codes "/1") ∷ []
unfolding kept omitted text_in lower split_on text_eq
cookies_dropped = refl

Reach-IsOwned_example : IsOwned (begin_step 5 1 77 60 100 start)
Reach-IsOwned_example = Reach-IsOwned (next here (begin 5 1 77 60 100 refl))

abbrev request_of : String → Request
request_of user_pk = record {
  key = some (codes "k");
  method = "POST";
  path = "/orders";
  full_path = "/orders";
  user = instance_of "app.models" "User" (some user_pk);
  auth = none_value;
  resolved_tenant = none_value;
  tenant = none_value;
  authorization = "";
  x_api_key = "";
  session_cookie = "";
  api_key = none_value;
  hashed_secret = "";
  content_type = "";
  accept = "";
  accept_language = "";
  body = [];
}

abbrev policy : Policy
policy = record { header = codes "Idempotency-Key"; ttl = none; required = false; scope = none }

abbrev parts : String → Parts
parts user_pk = record {
  method = "POST";
  path = "/orders";
  scope = principal_and_tenant user_pk "anonymous";
  key = codes "k";
  authorization = "";
  x_api_key = "";
  session_cookie = "";
  api_identity = "anonymous";
  hashed_secret = "";
}

-- A toy hash: it tells the two requests apart by their principal.
toy_digest : Parts → ℕ
toy_digest p = elim p.scope [
  | custom s ↦ 0
  | principal_and_tenant user tenant ↦ if str_eq user "app.models.User:1" then 1 else 2
]

toy_scope : Outcome PolicyError Scope → ℕ
toy_scope (ok (principal_and_tenant user tenant)) = if str_eq user "app.models.User:1" then 1 else 2
toy_scope _ = 0

-- A stored response without a content type gets the default one.
replay_headers :
    set_headers
      ((codes "Location", codes "/1") ∷ [])
      ((codes "Content-Type", default_content_type) ∷ [])
    ≡ (codes "Content-Type", codes "text/html; charset=utf-8") ∷ (codes "Location", codes "/1") ∷ []
unfolding set_headers set_header text_eq lower
replay_headers = refl
