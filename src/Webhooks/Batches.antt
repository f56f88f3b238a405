-- ===== src/Webhooks/Batches.antt =====
-- The batches that `publish` stores, against one list of all its deliveries.
use ninja_devx.Prelude.{
  ℕ, List, Text, ◌∷◌, Bool, ◌≡◌, true, ◌+◌, arith, inl, ◌∙◌, inr, [], Bool-cases, refl, sym, ◌==◌,
  ◌&&◌, ap, if◌then◌else◌, ◌++◌, ltb, length, suc,
}
use mathlib.Core.List.{append-nil, append_assoc}
use ninja_devx.Prelude.Table.{Table, put}
use ninja_devx.Webhooks.Defs.{WebhookEndpoint, WebhookDelivery, event_matches}
use ninja_devx.Webhooks.Publish.{
  bulk_create, Loop, flush, flush_full, visit_endpoint, collect, publish_rows, new_delivery,
}

module _ (selected : WebhookEndpoint → Bool) (event_type : Text) (event_id now : ℕ) where
  -- The deliveries of all endpoints, as one list.
  unfoldable pub wanted : Table WebhookEndpoint → List WebhookDelivery
  wanted [] = []
  wanted ((id, endpoint) ∷ rows) =
      let others = wanted rows in
      if selected endpoint && event_matches endpoint.events event_type
      then new_delivery event_id id now ∷ others
      else others

-- The table that the loop leaves in the end does not depend on how its rows are cut into wantedes.
bulk_create-append :
    (next : ℕ) (xs ys : List WebhookDelivery) (rows : Table WebhookDelivery)
    → bulk_create next (xs ++ ys) rows
      ≡ bulk_create (next + length xs) ys (bulk_create next xs rows)
unfolding bulk_create
bulk_create-append next [] ys rows = ap (λ n. bulk_create n ys rows) (omega arith)
bulk_create-append next (x ∷ xs) ys rows =
    bulk_create-append (next + 1) xs ys (put next x rows)
    ∙ ap (λ n. bulk_create n ys (bulk_create (next + 1) xs (put next x rows))) (omega arith)

-- The table once the wanted and then further deliveries are stored.
abbrev Stored : Loop → List WebhookDelivery → Table WebhookDelivery
Stored s ds = bulk_create s.next (s.batch ++ ds) s.deliveries

Stored-flush_full :
    (size : ℕ) (s : Loop) (ds : List WebhookDelivery) → Stored (flush_full size s) ds ≡ Stored s ds
unfolding flush
Stored-flush_full size s ds = elim (Bool-cases (length s.batch == size)) [
  | inl full ↦ rw full (sym (bulk_create-append s.next s.batch ds s.deliveries))
  | inr open_batch ↦ rw open_batch refl
]

ltb-suc : (n : ℕ) → ltb 0 (suc n) ≡ true
ltb-suc n = ground arith

last_batch :
    (ds : List WebhookDelivery) (next : ℕ) (rows : Table WebhookDelivery)
    → (if ltb 0 (length ds) then bulk_create next ds rows else rows)
      ≡ bulk_create next (ds ++ []) rows
unfolding bulk_create
last_batch [] next rows = refl
last_batch (d ∷ ds) next rows =
    rw (ltb-suc (length ds))
      (ap (λ xs. bulk_create (next + 1) xs (put next d rows)) (sym (append-nil ds)))

last-Stored :
    (s : Loop)
    → (if ltb 0 (length s.batch) then bulk_create s.next s.batch s.deliveries else s.deliveries)
      ≡ Stored s []
last-Stored s = last_batch s.batch s.next s.deliveries

module _ (size : ℕ) (selected : WebhookEndpoint → Bool) (event_type : Text) (event_id now : ℕ) where
  visit_endpoint-Stored :
      (id : ℕ) (endpoint : WebhookEndpoint) (rows : Table WebhookEndpoint) (s : Loop)
      → Stored
          (visit_endpoint size selected event_type event_id now id endpoint s)
          (wanted selected event_type event_id now rows)
        ≡ Stored s (wanted selected event_type event_id now ((id, endpoint) ∷ rows))
  unfolding visit_endpoint collect wanted
  visit_endpoint-Stored id endpoint rows s =
      let ds = wanted selected event_type event_id now rows in
      let one : List WebhookDelivery = new_delivery event_id id now ∷ [] in
      elim (Bool-cases (selected endpoint)) [
        | inr unselected ↦ rw unselected refl
        | inl chosen ↦ elim (Bool-cases (event_matches endpoint.events event_type)) [
          | inr other ↦ rw (chosen, other) (Stored-flush_full size s ds)
          | inl subscribed ↦
              rw (chosen, subscribed)
                (Stored-flush_full size (record s { batch = s.batch ++ one }) ds
                  ∙ ap (λ xs. bulk_create s.next xs s.deliveries) (append_assoc s.batch one ds))
        ]
      ]

  pub publish_rows-bulk_create :
      (rows : Table WebhookEndpoint) (s : Loop)
      → publish_rows size selected event_type event_id now rows s
        ≡ Stored s (wanted selected event_type event_id now rows)
  unfolding publish_rows wanted
  publish_rows-bulk_create [] s = last-Stored s
  publish_rows-bulk_create ((id, endpoint) ∷ rows) s =
      publish_rows-bulk_create rows
        (visit_endpoint size selected event_type event_id now id endpoint s)
      ∙ visit_endpoint-Stored id endpoint rows s
