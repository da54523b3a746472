-- ===== src/Imports/Pipeline.antt =====
-- import-parse.service.ts `run`: the steps of the parser in their order, with the progress that
-- import-progress.service.ts records, and the rows that it stores.
use tftsp.Common.{
  ℕ, ◌+◌, Bool, true, false, Option, none, some, List, [], ◌∷◌, if◌then◌else◌, Text, insert_row,
  update_row, Table, M, ◌>>=◌, ◌>>◌, get, modify, require, throw, plain_error, length,
}
use tftsp.Database.{Env, Db}
use tftsp.ChangeRequests.Store.{Store}
use tftsp.Imports.{
  ImportBatch, ImportRow, BatchStatus, Decision, Counts, RawRow, RowWork, counts, row_status,
}
use tftsp.Imports.Parsing.{parse_and_validate}
use tftsp.Imports.Resolving.{NameSearch, resolve_in_file, resolve_against_db, duplicate_check}
use tftsp.Imports.Cycles.{check_batch_lineage}
pub mod Running

-- `ownerUpdateBatch`
abbrev pub update_batch : ℕ → (ImportBatch → ImportBatch) → Store → Store
update_batch id f s = record s { batches = update_row f id s.batches }

-- `progress.update` without counts
abbrev pub progress : BatchStatus → ℕ → ImportBatch → ImportBatch
progress status percent b = record b { status = status; progress = percent }

-- `progress.update` with counts
abbrev pub progress_counts : BatchStatus → ℕ → Counts → ImportBatch → ImportBatch
progress_counts status percent c b = record b { status = status; progress = percent; counts = c }

-- a row as it is stored, under the identifier that the database gives
abbrev pub import_row : ℕ → ℕ → RowWork → ImportRow
import_row batch id w = record {
  id = id;
  batch_id = batch;
  row_ref = w.row_ref;
  row_number = w.row_number;
  raw = w.raw;
  status = row_status w;
  errors = w.errors;
  resolved_father = w.resolved_father;
  resolved_mother = w.resolved_mother;
  resolved_spouse = w.resolved_spouse;
  duplicate_of = w.duplicate_of;
  decision = Decision.new;
  merge_target = none;
  created_person = none;
}

abbrev pub persist_row : ℕ → RowWork → Store → Store
persist_row batch w s = record s {
  db = record (s.db) { next_id = s.db.next_id + 1 };
  import_rows = insert_row s.db.next_id (import_row batch s.db.next_id w) s.import_rows;
}

-- `persistRows`
unfoldable pub persist_rows : ℕ → List RowWork → Store → Store
persist_rows batch [] s = s
persist_rows batch (w ∷ works) s = persist_rows batch works (persist_row batch w s)

module _ (env : Env) (search : NameSearch) (auto : ℕ → Text) where
  unfoldable pub resolved : List (ℕ × RawRow) → List RowWork
  unfolding parse_and_validate resolve_in_file resolve_against_db
  resolved parsed = resolve_against_db search (resolve_in_file (parse_and_validate env auto parsed))

  -- the rows as the steps of `run` leave them; the fuel of the cycle check is their number
  unfoldable pub checked : List (ℕ × RawRow) → Option (List RowWork)
  unfolding resolved duplicate_check check_batch_lineage
  checked parsed =
      let works = duplicate_check search (resolved parsed) in
      check_batch_lineage (length works) works

  -- `run` of a batch on record, whose file could be read
  unfoldable pub run_file : ℕ → List (ℕ × RawRow) → M Store (Unit {0})
  unfolding checked persist_rows
  run_file id parsed = do
    modify (update_batch id (progress BatchStatus.parsing 5))
    modify (
        update_batch id
          (progress_counts BatchStatus.validating 40 (counts (parse_and_validate env auto parsed))))
    modify (update_batch id (progress_counts BatchStatus.resolving 65 (counts (resolved parsed))))
    works ← require (checked parsed) plain_error
    modify (update_batch id (progress_counts BatchStatus.resolving 85 (counts works)))
    modify (persist_rows id works)
    modify (update_batch id (λ b. record b { counts = counts works }))
    modify (update_batch id (progress_counts BatchStatus.preview 100 (counts works)))

  -- the path of an error of the reader
  unfoldable pub run_failed : ℕ → M Store (Unit {0})
  run_failed id = do
    modify (update_batch id (progress BatchStatus.parsing 5))
    modify (update_batch id (λ b. record b { status = BatchStatus.failed }))
    modify (update_batch id (progress BatchStatus.failed 100))
    throw plain_error

  -- `run`, for the rows that the reader of the file gives, or its error
  unfoldable pub run : ℕ → Option (List (ℕ × RawRow)) → M Store (Unit {0})
  unfolding run_file run_failed
  run id file = do
    s ← get
    batch ← require (s.batches.at id) plain_error
    elim file [ none ↦ run_failed id | some parsed ↦ run_file id parsed ]
