-- ===== src/Imports/Pipeline/Running.antt =====
-- import-parse.service.ts `run`: the batch, its counts and its rows at the end.
use tftsp.Common.{
  ℕ, ◌+◌, ◌≡◌, ◌<◌, refl, ap, ◌∙◌, Option, none, some, List, [], ◌∷◌, ==_refl, arith, Text, Table,
  update_row-at, length, ok, fail, plain_error,
}
use tftsp.Database.{Env}
use tftsp.ChangeRequests.Store.{Store}
use tftsp.Imports.{
  ImportBatch, ImportRow, BatchStatus, RowStatus, Counts, empty_counts, RawRow, RowWork, counts,
  count_rows_from, count_status, row_status,
}
use tftsp.Imports.Parsing.{parse_and_validate}
use tftsp.Imports.Resolving.{
  NameSearch, resolve_rows, resolve_in_file, resolve_against_db, duplicate_check,
}
use tftsp.Imports.Cycles.{flag_rows}
use tftsp.Imports.Cycles.Ends.{check_batch_lineage-ends}
use tftsp.Imports.Pipeline.{
  import_row, persist_row, persist_rows, resolved, checked, update_batch, progress, progress_counts,
  run, run_file, run_failed,
}

abbrev pub classified : Counts → ℕ
classified c = c.valid + c.error + c.duplicate_candidate + c.ambiguous

classified-count_status :
    (r : RowStatus) (c : Counts) → classified (count_status r c) ≡ classified c + 1
classified-count_status RowStatus.valid c = omega arith
classified-count_status RowStatus.error c = omega arith
classified-count_status RowStatus.duplicate_candidate c = omega arith
classified-count_status RowStatus.ambiguous c = omega arith

total-count_status : (r : RowStatus) (c : Counts) → (count_status r c).total ≡ c.total
total-count_status RowStatus.valid c = refl
total-count_status RowStatus.error c = refl
total-count_status RowStatus.duplicate_candidate c = refl
total-count_status RowStatus.ambiguous c = refl

classified-count_rows_from :
    (c : Counts) (works : List RowWork)
    → (classified (count_rows_from c works) ≡ classified c + length works)
      × ((count_rows_from c works).total ≡ c.total)
classified-count_rows_from c [] = (omega arith, refl)
classified-count_rows_from c (w ∷ works) =
    let rest = classified-count_rows_from (count_status (row_status w) c) works in
    let one = classified-count_status (row_status w) c in
    (omega (arith, rest.0, one), rest.1 ∙ total-count_status (row_status w) c)

-- each row is in one of the four classes
pub counts-classified :
    (works : List RowWork)
    → (classified (counts works) ≡ length works) × ((counts works).total ≡ length works)
unfolding counts
counts-classified works =
    let both = classified-count_rows_from (record empty_counts { total = length works }) works in
    (omega (arith, both.0), both.1)

length-resolve_rows :
    (all_rows works : List RowWork) → length (resolve_rows all_rows works) ≡ length works
length-resolve_rows all_rows [] = refl
length-resolve_rows all_rows (w ∷ works) = omega (arith, length-resolve_rows all_rows works)

length-parse :
    (env : Env) (auto : ℕ → Text) (parsed : List (ℕ × RawRow))
    → length (parse_and_validate env auto parsed) ≡ length parsed
unfolding parse_and_validate
length-parse env auto [] = refl
length-parse env auto ((n, raw) ∷ parsed) = omega (arith, length-parse env auto parsed)

length-resolve_against_db :
    (search : NameSearch) (works : List RowWork)
    → length (resolve_against_db search works) ≡ length works
unfolding resolve_against_db
length-resolve_against_db search [] = refl
length-resolve_against_db search (w ∷ works) = omega (arith, length-resolve_against_db search works)

length-duplicate_check :
    (search : NameSearch) (works : List RowWork)
    → length (duplicate_check search works) ≡ length works
unfolding duplicate_check
length-duplicate_check search [] = refl
length-duplicate_check search (w ∷ works) = omega (arith, length-duplicate_check search works)

length-flag_rows :
    (flagged : List Text) (works : List RowWork) → length (flag_rows flagged works) ≡ length works
length-flag_rows flagged [] = refl
length-flag_rows flagged (w ∷ works) = omega (arith, length-flag_rows flagged works)

-- the steps end, with a row for each row of the file
checked_ends :
    (env : Env) (search : NameSearch) (auto : ℕ → Text) (parsed : List (ℕ × RawRow))
    → (works : List RowWork) × (checked env search auto parsed ≡ some works)
      × (length works ≡ length parsed)
unfolding checked resolved resolve_in_file
checked_ends env search auto parsed =
    let first = parse_and_validate env auto parsed in
    let works = duplicate_check search (resolved env search auto parsed) in
    let (flagged, e) = check_batch_lineage-ends works in
    (
      flag_rows flagged works,
      e,
      length-flag_rows flagged works
          ∙ (length-duplicate_check search (resolved env search auto parsed)
              ∙ (length-resolve_against_db search (resolve_rows first first)
                  ∙ (length-resolve_rows first first ∙ length-parse env auto parsed))),
    )

-- the stored rows are those of a list, under identifiers from a number on
abbrev pub Persisted : ℕ → ℕ → List RowWork → (ℕ → Option ImportRow) → Type 0
Persisted batch n [] at = Unit {0}
Persisted batch n (w ∷ works) at =
    (at n ≡ some (import_row batch n w)) × Persisted batch (n + 1) works at

record Stored (batch : ℕ) (works : List RowWork) (s s' : Store) : Type 0 where
  pub rows : Persisted batch s.db.next_id works s'.import_rows.at
  pub older : (x : ℕ) → x < s.db.next_id → s'.import_rows.at x ≡ s.import_rows.at x
  pub tree : s'.db ≡ record (s.db) { next_id = s.db.next_id + length works }
  pub batches : s'.batches ≡ s.batches

persist_rows-Stored :
    (batch : ℕ) (works : List RowWork) (s : Store)
    → Stored batch works s (persist_rows batch works s)
unfolding persist_rows
persist_rows-Stored batch [] s = record {
  rows = tt;
  older = λ x h. refl;
  tree = ap (λ n. record (s.db) { next_id = n }) (omega arith);
  batches = refl;
}
persist_rows-Stored batch (w ∷ works) s =
    let rest = persist_rows-Stored batch works (persist_row batch w s) in
    record {
      rows =
          (rest.older s.db.next_id (omega arith) ∙ ground (arith, ==_refl s.db.next_id), rest.rows);
      older = λ x h. rest.older x (omega arith) ∙ ground (arith, h);
      tree = rest.tree ∙ ap (λ n. record (s.db) { next_id = n }) (omega arith);
      batches = rest.batches;
    }

update_batch-at :
    (id : ℕ) (f : ImportBatch → ImportBatch) (s : Store) {b : ImportBatch}
    → s.batches.at id ≡ some b
    → (update_batch id f s).batches.at id ≡ some (f b)
update_batch-at id f s e = update_row-at f id s.batches id ∙ ground (arith, e, ==_refl id)

module _ (env : Env) (search : NameSearch) (auto : ℕ → Text) (id : ℕ) where
  -- the store after the steps
  ended : List (ℕ × RawRow) → List RowWork → Store → Store
  ended parsed works s = update_batch id (progress_counts BatchStatus.preview 100 (counts works)) (
      update_batch id (λ b. record b { counts = counts works })
        (persist_rows id works (
          update_batch id (progress_counts BatchStatus.resolving 85 (counts works)) (
            update_batch id
              (progress_counts BatchStatus.resolving 65 (counts (resolved env search auto parsed)))
              (update_batch id
                (progress_counts BatchStatus.validating 40
                  (counts (parse_and_validate env auto parsed)))
                (update_batch id (progress BatchStatus.parsing 5) s))))))

  run-ended :
      (parsed : List (ℕ × RawRow)) (works : List RowWork) (s : Store) {b : ImportBatch}
      → s.batches.at id ≡ some b
      → checked env search auto parsed ≡ some works
      → run env search auto id (some parsed) s ≡ (ok tt, ended parsed works s)
  unfolding run run_file ended
  run-ended parsed works s e c = rw e (rw c refl)

  pub record Previewed (parsed : List (ℕ × RawRow)) (b : ImportBatch) (s s' : Store) : Type 0 where
    pub works : List RowWork
    pub steps : checked env search auto parsed ≡ some works
    pub preview :
        s'.batches.at id
        ≡ some (record b { status = BatchStatus.preview; progress = 100; counts = counts works })
    pub classes : classified (counts works) ≡ length parsed
    pub rows : Persisted id s.db.next_id works s'.import_rows.at
    pub tree : s'.db ≡ record (s.db) { next_id = s.db.next_id + length parsed }

  -- A run of the parser on a batch on record whose file can be read ends: the batch is then in preview
  -- with the counts of the checked rows, which are as many as the rows of the file, each in one of the
  -- four classes; the rows are stored under new identifiers, and nothing else of the live data changes.
  pub run-Previewed :
      (parsed : List (ℕ × RawRow)) (s : Store) (b : ImportBatch)
      → s.batches.at id ≡ some b
      → (s' : Store) × (run env search auto id (some parsed) s ≡ (ok tt, s'))
        × Previewed parsed b s s'
  unfolding ended
  run-Previewed parsed s b e =
      let (works, c, same) = checked_ends env search auto parsed in
      let s₁ = update_batch id (progress BatchStatus.parsing 5) s in
      let e₁ = update_batch-at id (progress BatchStatus.parsing 5) s e in
      let f₂ =
        progress_counts BatchStatus.validating 40 (counts (parse_and_validate env auto parsed)) in
      let e₂ = update_batch-at id f₂ s₁ e₁ in
      let f₃ =
        progress_counts BatchStatus.resolving 65 (counts (resolved env search auto parsed)) in
      let e₃ = update_batch-at id f₃ (update_batch id f₂ s₁) e₂ in
      let f₄ = progress_counts BatchStatus.resolving 85 (counts works) in
      let s₄ = update_batch id f₄ (update_batch id f₃ (update_batch id f₂ s₁)) in
      let e₄ = update_batch-at id f₄ (update_batch id f₃ (update_batch id f₂ s₁)) e₃ in
      let stored = persist_rows-Stored id works s₄ in
      let s₅ = persist_rows id works s₄ in
      let f₆ = λ (b : ImportBatch). record b { counts = counts works } in
      let e₆ =
        update_batch-at id f₆ s₅ (ap (λ (t : Table ImportBatch). t.at id) stored.batches ∙ e₄) in
      let e₇ =
        update_batch-at id (progress_counts BatchStatus.preview 100 (counts works))
          (update_batch id f₆ s₅) e₆ in
      (
        ended parsed works s,
        run-ended parsed works s e c,
        record {
          works = works;
          steps = c;
          preview = e₇;
          classes = (counts-classified works).0 ∙ same;
          rows = stored.rows;
          tree = stored.tree ∙ ap (λ n. record (s.db) { next_id = s.db.next_id + n }) same;
        },
      )

  -- Where the file of a batch cannot be read the error is passed on, the batch is marked as failed, and
  -- no row and nothing of the live data is written.
  pub run-unread :
      (s : Store) (b : ImportBatch)
      → s.batches.at id ≡ some b
      → (s' : Store) × (run env search auto id none s ≡ (fail plain_error, s'))
        × (s'.batches.at id ≡ some (record b { status = BatchStatus.failed; progress = 100 }))
        × (s'.db ≡ s.db)
        × (s'.import_rows ≡ s.import_rows)
  unfolding run run_failed
  run-unread s b e =
      let s₁ = update_batch id (progress BatchStatus.parsing 5) s in
      let e₁ = update_batch-at id (progress BatchStatus.parsing 5) s e in
      let f₂ = λ (b : ImportBatch). record b { status = BatchStatus.failed } in
      let e₂ = update_batch-at id f₂ s₁ e₁ in
      (
        update_batch id (progress BatchStatus.failed 100) (update_batch id f₂ s₁),
        rw e refl,
        update_batch-at id (progress BatchStatus.failed 100) (update_batch id f₂ s₁) e₂,
        refl,
        refl,
      )
