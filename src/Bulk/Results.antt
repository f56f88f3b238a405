-- ===== src/Bulk/Results.antt =====
-- What a partial operation reports.
use mathlib.Core.Path.{subst}
use ninja_devx.Prelude.{
  refl, ℕ, List, [], ◌≡◌, ok, ◌+◌, ◌∷◌, raise, some, Outcome, inl, ◌⊎◌, inr, Option-cases, true,
  ◌↔◌, length, ◌≤◌, ◌∙◌, none, sym, ap, Bool-cases, ltb, arith, false,
}
use ninja_devx.Bulk.Defs.{Call, Controller, BulkFailure, rolled_back, http404}
use ninja_devx.Bulk.Operations.{
  try_each, Entry, stored, bulk_error, rejected, entered, bulk_create, results, create_one, tally,
  reported, bulk_update, update_lookup, update_one,
}
use ninja_devx.Prelude.Table.{Table}
use ninja_devx.Bulk.Objects.{check_size, reject_duplicates, has_duplicates, first_object}

-- The items of a partial operation, one after another: an item is stored, or it fails with an error
-- that has a status and leaves no trace.
pub data Tried {O A : Type 0} (one : A → Call O (ℕ × O)) (status : ℕ)
    : ℕ → List A → Table O → List (Entry O) → ℕ → Table O → Type 0 where
  finished : (index : ℕ) (rows : Table O) → Tried one status index [] rows [] 0 rows
  kept :
      (index : ℕ) (a : A) (rest : List A) (rows rows' after : Table O) (instance_of : ℕ × O)
      (entries : List (Entry O)) (failed : ℕ)
      → one a rows ≡ (ok instance_of, rows')
      → Tried one status (index + 1) rest rows' entries failed after
      → Tried one status index
          (a ∷ rest)
          rows
          (stored index status instance_of ∷ entries)
          failed
          after
  skipped :
      (index : ℕ) (a : A) (rest : List A) (rows torn after : Table O) (e : BulkFailure) (code : ℕ)
      (entries : List (Entry O)) (failed : ℕ)
      → one a rows ≡ (raise e, torn)
      → bulk_error e ≡ some code
      → Tried one status (index + 1) rest rows entries failed after
      → Tried one status index (a ∷ rest) rows (rejected index code ∷ entries) (failed + 1) after

call_cases :
    {O A : Type 0} (r : Outcome BulkFailure A × Table O)
    → ((a : A) × (rows : Table O) × (r ≡ (ok a, rows)))
      ⊎ ((e : BulkFailure) × (rows : Table O) × (r ≡ (raise e, rows)))
call_cases (ok a, rows) = inl (a, rows, refl)
call_cases (raise e, rows) = inr (e, rows, refl)

entered_ok :
    {O : Type 0} (entry : Entry O) (count : ℕ → ℕ) (failed : ℕ) (entries : List (Entry O))
    (after : Table O) (r : Outcome BulkFailure (List (Entry O) × ℕ) × Table O)
    → entered entry count r ≡ (ok (entries, failed), after)
    → (rest : List (Entry O)) × (few : ℕ) × (r ≡ (ok (rest, few), after))
      × (entry ∷ rest ≡ entries)
      × (count few ≡ failed)
entered_ok entry count failed entries after (ok (rest, few), rows) h = (rest, few, cc, cc, cc)
entered_ok entry count failed entries after (raise e, rows) h = cc

module _ {O A : Type 0} (one : A → Call O (ℕ × O)) (status : ℕ) where
  try_each-kept :
      (index : ℕ) (a : A) (rest : List A) (rows rows' : Table O) (o : ℕ × O)
      → one a rows ≡ (ok o, rows')
      → try_each one status index (a ∷ rest) rows
        ≡ entered (stored index status o) (λ n. n) (try_each one status (index + 1) rest rows')
  unfolding try_each
  try_each-kept index a rest rows rows' o h =
      ap
        (λ r.
          tally status index (rolled_back rows r)
            (λ rows'. try_each one status (index + 1) rest rows'))
        h

  try_each-skipped :
      (index : ℕ) (a : A) (rest : List A) (rows torn : Table O) (e : BulkFailure)
      → one a rows ≡ (raise e, torn)
      → try_each one status index (a ∷ rest) rows ≡ elim (bulk_error e) [
        | none ↦ (raise e, rows)
        | some code ↦
            entered (rejected index code) (λ n. n + 1) (try_each one status (index + 1) rest rows)
      ]
  unfolding try_each
  try_each-skipped index a rest rows torn e h =
      ap
        (λ r.
          tally status index (rolled_back rows r)
            (λ rows'. try_each one status (index + 1) rest rows'))
        h

  Tried-try_each :
      (index : ℕ) (items : List A) (rows after : Table O) (entries : List (Entry O)) (failed : ℕ)
      → Tried one status index items rows entries failed after
      → try_each one status index items rows ≡ (ok (entries, failed), after)
  unfolding try_each
  Tried-try_each index _ rows after _ _ (finished _ _) = refl
  Tried-try_each index _ rows after _ _ (kept _ a rest _ rows' _ o entries failed h t) =
      try_each-kept index a rest rows rows' o h
      ∙ rw (Tried-try_each (index + 1) rest rows' after entries failed t) refl
  Tried-try_each index _ rows after _ _ (skipped _ a rest _ torn _ e code entries failed h s t) =
      try_each-skipped index a rest rows torn e h
      ∙ rw s (rw (Tried-try_each (index + 1) rest rows after entries failed t) refl)

  try_each-Tried :
      (index : ℕ) (items : List A) (rows after : Table O) (entries : List (Entry O)) (failed : ℕ)
      → try_each one status index items rows ≡ (ok (entries, failed), after)
      → Tried one status index items rows entries failed after
  unfolding try_each
  try_each-Tried index [] rows after entries failed h =
      let same_rows : rows ≡ after = cc in
      let same_entries : [] ≡ entries = cc in
      let same_count : 0 ≡ failed = cc in
      subst (λ x. Tried one status index [] rows x failed after) same_entries
        (subst (λ n. Tried one status index [] rows [] n after) same_count
          (subst (λ x. Tried one status index [] rows [] 0 x) same_rows (finished index rows)))
  try_each-Tried index (a ∷ rest) rows after entries failed h = elim (call_cases (one a rows)) [
    | inl (o, rows', e) ↦
        (let (others, few, t, same_entries, same_count) =
            entered_ok (stored index status o) (λ n. n) failed entries after
              (try_each one status (index + 1) rest rows')
              (sym (try_each-kept index a rest rows rows' o e) ∙ h) in
          subst (λ x. Tried one status index (a ∷ rest) rows x failed after) same_entries
            (subst
              (λ n. Tried one status index (a ∷ rest) rows (stored index status o ∷ others) n after)
              same_count
              (kept index a rest rows rows' after o others few e
                (try_each-Tried (index + 1) rest rows' after others few t))))
    | inr (f, torn, e) ↦ elim (Option-cases (bulk_error f)) [
      | inl none_of ↦
          (let aborted = rw none_of at (sym (try_each-skipped index a rest rows torn f e) ∙ h) in
            cc)
      | inr (code, s) ↦
          (let (others, few, t, same_entries, same_count) =
              entered_ok (rejected index code) (λ n. n + 1) failed entries after
                (try_each one status (index + 1) rest rows)
                (rw s at (sym (try_each-skipped index a rest rows torn f e) ∙ h)) in
            subst (λ x. Tried one status index (a ∷ rest) rows x failed after) same_entries
              (subst
                (λ n. Tried one status index (a ∷ rest) rows (rejected index code ∷ others) n after)
                same_count
                (skipped index a rest rows torn after f code others few e s
                  (try_each-Tried (index + 1) rest rows after others few t))))
    ]
  ]

reported_lem :
    {O : Type 0} (rows : Table O) (r : Outcome BulkFailure (List (Entry O) × ℕ) × Table O)
    (after : Table O) (entries : List (Entry O)) (failed : ℕ)
    → rolled_back rows (reported r) ≡ (ok (results entries failed), after)
    → r ≡ (ok (entries, failed), after)
reported_lem rows (ok (es, n), changed) after entries failed h = cc
reported_lem rows (raise e, changed) after entries failed h = cc

module _ {R I D O : Type 0} (c : Controller R I D O) where
  -- A partial creation answers just with one entry for each item, in the order of the items and
  -- under its index: the object of an item that was created, or the status of an error that left
  -- no trace. The rows are those that the created items leave, and the header counts the errors.
  pub bulk_create_iff :
      (limit failed : ℕ) (payload : List I) (rows after : Table O) (entries : List (Entry O))
      → (bulk_create c limit true payload rows ≡ (ok (results entries failed), after))
        ↔ ((length payload ≤ limit) × Tried (create_one c) 201 0 payload rows entries failed after)
  unfolding bulk_create check_size
  bulk_create_iff limit failed payload rows after entries = (
    λ h. elim (Bool-cases (ltb limit (length payload))) [
      | inl over ↦ (let refused = rw over at h in cc)
      | inr under ↦ (
        ground arith,
        try_each-Tried (create_one c) 201 0 payload rows after entries failed (
            reported_lem rows (try_each (create_one c) 201 0 payload rows) after entries failed
              (rw under at h)),
      )
    ],
    λ (small, t).
        (let under : ltb limit (length payload) ≡ false = ground arith in
          rw under (
            ap (λ r. rolled_back rows (reported r))
              (Tried-try_each (create_one c) 201 0 payload rows after entries failed t))),
  )

-- The lookups of a partial update, one after another: a lookup is unknown, or its object is updated,
-- or the update fails with an error that has a status and leaves no trace.
pub data Updated {R I D O : Type 0} (c : Controller R I D O) (d : D)
    : ℕ → List ℕ → Table O → List (Entry O) → ℕ → Table O → Type 0 where
  all_done : (index : ℕ) (rows : Table O) → Updated c d index [] rows [] 0 rows
  unknown :
      (index lookup : ℕ) (rest : List ℕ) (rows after : Table O) (entries : List (Entry O))
      (failed : ℕ)
      → first_object c lookup rows ≡ none
      → Updated c d (index + 1) rest rows entries failed after
      → Updated c d index (lookup ∷ rest) rows (rejected index 404 ∷ entries) (failed + 1) after
  updated :
      (index lookup : ℕ) (rest : List ℕ) (rows rows' after : Table O) (found changed : ℕ × O)
      (entries : List (Entry O)) (failed : ℕ)
      → first_object c lookup rows ≡ some found
      → update_one c d found rows ≡ (ok changed, rows')
      → Updated c d (index + 1) rest rows' entries failed after
      → Updated c d index (lookup ∷ rest) rows (stored index 200 changed ∷ entries) failed after
  refused :
      (index lookup : ℕ) (rest : List ℕ) (rows torn after : Table O) (found : ℕ × O)
      (e : BulkFailure) (code : ℕ) (entries : List (Entry O)) (failed : ℕ)
      → first_object c lookup rows ≡ some found
      → update_one c d found rows ≡ (raise e, torn)
      → bulk_error e ≡ some code
      → Updated c d (index + 1) rest rows entries failed after
      → Updated c d index (lookup ∷ rest) rows (rejected index code ∷ entries) (failed + 1) after

error_of :
    {A O : Type 0} {e f : BulkFailure} {rows rows' : Table O}
    → ◌≡◌ {A = Outcome BulkFailure A × Table O} (raise e, rows) (raise f, rows')
    → e ≡ f
error_of h = cc

some_inj : {m n : ℕ} → some m ≡ some n → m ≡ n
some_inj h = cc

module _ {R I D O : Type 0} (c : Controller R I D O) (d : D) where
  update_lookup-none :
      (lookup : ℕ) (rows : Table O)
      → first_object c lookup rows ≡ none
      → update_lookup c d lookup rows ≡ (raise http404, rows)
  update_lookup-none lookup rows h = rw (h, update_lookup) refl

  update_lookup-some :
      (lookup : ℕ) (rows : Table O) (found : ℕ × O)
      → first_object c lookup rows ≡ some found
      → update_lookup c d lookup rows ≡ update_one c d found rows
  update_lookup-some lookup rows found h = rw (h, update_lookup) refl

  Updated-Tried :
      (index : ℕ) (lookups : List ℕ) (rows after : Table O) (entries : List (Entry O)) (failed : ℕ)
      → Updated c d index lookups rows entries failed after
      → Tried (update_lookup c d) 200 index lookups rows entries failed after
  unfolding bulk_error
  Updated-Tried index _ rows after _ _ (all_done _ _) = finished index rows
  Updated-Tried index _ rows after _ _ (unknown _ lookup rest _ _ entries failed h u) =
      skipped index lookup rest rows rows after http404 404 entries failed
        (update_lookup-none lookup rows h) refl
        (Updated-Tried (index + 1) rest rows after entries failed u)
  Updated-Tried index _ rows after _ _
        (updated _ lookup rest _ rows' _ found changed entries failed h g u) =
      kept index lookup rest rows rows' after changed entries failed
        (update_lookup-some lookup rows found h ∙ g)
        (Updated-Tried (index + 1) rest rows' after entries failed u)
  Updated-Tried index _ rows after _ _
        (refused _ lookup rest _ torn _ found e code entries failed h g s u) =
      skipped index lookup rest rows torn after e code entries failed
        (update_lookup-some lookup rows found h ∙ g) s
        (Updated-Tried (index + 1) rest rows after entries failed u)

  Tried-Updated :
      (index : ℕ) (lookups : List ℕ) (rows after : Table O) (entries : List (Entry O)) (failed : ℕ)
      → Tried (update_lookup c d) 200 index lookups rows entries failed after
      → Updated c d index lookups rows entries failed after
  unfolding bulk_error
  Tried-Updated index _ rows after _ _ (finished _ _) = all_done index rows
  Tried-Updated index _ rows after _ _ (kept _ lookup rest _ rows' _ changed entries failed h t) =
      elim (Option-cases (first_object c lookup rows)) [
        | inl missing ↦ (let wrong = sym (update_lookup-none lookup rows missing) ∙ h in cc)
        | inr (found, e) ↦
            updated index lookup rest rows rows' after found changed entries failed e
              (sym (update_lookup-some lookup rows found e) ∙ h)
              (Tried-Updated (index + 1) rest rows' after entries failed t)
      ]
  Tried-Updated index _ rows after _ _
        (skipped _ lookup rest _ torn _ e code entries failed h s t) =
      elim (Option-cases (first_object c lookup rows)) [
        | inl missing ↦
            (let error : http404 ≡ e =
                error_of (sym (update_lookup-none lookup rows missing) ∙ h) in
              let status : 404 ≡ code = some_inj (ap bulk_error error ∙ s) in
              subst
                (λ n.
                  Updated c d index (lookup ∷ rest) rows (rejected index n ∷ entries) (failed + 1)
                    after)
                status
                (unknown index lookup rest rows after entries failed missing
                  (Tried-Updated (index + 1) rest rows after entries failed t)))
        | inr (found, f) ↦
            refused index lookup rest rows torn after found e code entries failed f
              (sym (update_lookup-some lookup rows found f) ∙ h) s
              (Tried-Updated (index + 1) rest rows after entries failed t)
      ]

  -- A partial update answers just with one entry for each lookup, which are distinct, in their
  -- order and under its index: 404 for an unknown lookup, the object that was updated, or the
  -- status of an error that left no trace. The rows are those that the updates leave, and the
  -- header counts the errors.
  pub bulk_update_iff :
      (failed : ℕ) (lookups : List ℕ) (rows after : Table O) (entries : List (Entry O))
      → (bulk_update c true d lookups rows ≡ (ok (results entries failed), after))
        ↔ ((has_duplicates lookups ≡ false) × Updated c d 0 lookups rows entries failed after)
  unfolding bulk_update reject_duplicates
  bulk_update_iff failed lookups rows after entries = (
    λ h. elim (Bool-cases (has_duplicates lookups)) [
      | inl over ↦ (let refused_all = rw over at h in cc)
      | inr under ↦ (
        under,
        Tried-Updated 0 lookups rows after entries failed (
            try_each-Tried (update_lookup c d) 200 0 lookups rows after entries failed (
              reported_lem rows (try_each (update_lookup c d) 200 0 lookups rows) after entries
                failed (rw under at h))),
      )
    ],
    λ (once, u).
        (rw once (
          ap (λ r. rolled_back rows (reported r))
            (Tried-try_each (update_lookup c d) 200 0 lookups rows after entries failed
              (Updated-Tried 0 lookups rows after entries failed u)))),
  )
