-- ===== src/Imports/Applying.antt =====
-- import-apply.service.ts: an approved batch enters the tree in chunks, each in a transaction of its
-- own, from its rows in their order.
use tftsp.Common.{
  ℕ, zero, suc, ◌+◌, ◌*◌, ◌/◌, ◌-◌, Bool, true, false, Option, none, some, List, [], ◌∷◌, ◌++◌,
  ◌||◌, ◌&&◌, not, is_some, is_empty, if◌then◌else◌, ◌==◌, Text, set_row, update_row, select_rows,
  ok, fail, Result, M, ◌>>=◌, ◌>>◌, return, get, modify, throw, require, plain_error, or_else,
  length,
}
use tftsp.Database.{Env, Db, Person, find_live, import_publish}
use tftsp.Persons.Writes.{create_in_tx, update_in_tx}
use tftsp.ChangeRequests.Requests.{ChangeRequest}
use tftsp.ChangeRequests.Store.{Store, on_db, record_store_audit}
use tftsp.Imports.{RawRow, ImportRow, ImportBatch, Counts, Decision, RowStatus, BatchStatus}
use tftsp.Imports.Ordering.{topological_order, queue_fuel}
use tftsp.Imports.Transfer.{unit_named, resolve_parent, create_dto, merge_dto}
pub mod Counting
pub mod Effects
pub mod Frames
pub mod Keeping

-- what the loop over the rows works on: the store, `refToPersonId` and `counts`
pub record Applying : Type 0 where
  pub store : Store
  pub people : List (Text × ℕ)
  pub counts : Counts

abbrev pub put_store : {A : Type 0} → Applying → Result A × Store → Result A × Applying
put_store w (r, s) = (r, record w { store = s })

abbrev pub on_store : {A : Type 0} → M Store A → M Applying A
on_store m w = put_store w (m w.store)

abbrev pub on_tree : {A : Type 0} → M Db A → M Applying A
on_tree m = on_store (on_db m)

abbrev pub count : (Counts → Counts) → M Applying (Unit {0})
count f = modify (λ w. record w { counts = f w.counts })

abbrev pub add_person : Text → ℕ → M Applying (Unit {0})
add_person ref id = modify (λ w. record w { people = (ref, id) ∷ w.people })

-- `ownerUpdateRow`, which is no part of the transaction
abbrev pub mark_created : ℕ → ℕ → M Applying (Unit {0})
mark_created row id = modify (λ w. record w {
  store = record (w.store) {
    import_rows =
        update_row (λ (r : ImportRow). record r { created_person = some id }) row
          w.store.import_rows;
  };
})

abbrev is_ignored : Decision → Bool
is_ignored Decision.ignore = true
is_ignored _ = false

abbrev is_merge : Decision → Bool
is_merge Decision.merge = true
is_merge _ = false

abbrev is_appliable_status : RowStatus → Bool
is_appliable_status RowStatus.valid = true
is_appliable_status RowStatus.duplicate_candidate = true
is_appliable_status _ = false

-- `appliable`
abbrev pub is_appliable : ImportRow → Bool
is_appliable row = not (is_ignored row.decision) && is_appliable_status row.status

-- the target of a merge, where the row is one and has one
abbrev pub merge_target : ImportRow → Option ℕ
merge_target row =
    if is_merge row.decision
    then elim row.merge_target [ some t ↦ some t | none ↦ row.duplicate_of ]
    else none

-- the rows in chunks of a size, the first with less room
abbrev pub chunks_from : ℕ → ℕ → List ImportRow → List ImportRow → List (List ImportRow)
chunks_from size room [] [] = []
chunks_from size room (c ∷ chunk) [] = (c ∷ chunk) ∷ []
chunks_from size zero chunk (r ∷ rows) = chunk ∷ chunks_from size (size - 1) (r ∷ []) rows
chunks_from size (suc room) chunk (r ∷ rows) = chunks_from size room (chunk ++ r ∷ []) rows

abbrev pub father_for : List (Text × ℕ) → ImportRow → Option ℕ
father_for people row = resolve_parent people row.raw.father_ref row.resolved_father

abbrev pub mother_for : List (Text × ℕ) → ImportRow → Option ℕ
mother_for people row = resolve_parent people row.raw.mother_ref row.resolved_mother

module _ (env : Env) (batch_id : ℕ) (created_by : ℕ) (unit_by_name : Text → Option ℕ) where
  -- `mergeInto`: nothing where the target is not live
  unfoldable pub merge_into : ℕ → RawRow → Option ℕ → Option ℕ → M Db (Unit {0})
  merge_into target raw father mother db = elim (find_live db target) [
    | none ↦ (ok tt, db)
    | some current ↦
        update_in_tx env target (merge_dto unit_by_name current.version raw father mother) db
  ]

  unfoldable pub apply_merge : ImportRow → ℕ → M Applying (Unit {0})
  unfolding merge_into resolve_parent
  apply_merge row target = do
    w ← get
    on_tree (merge_into target row.raw (father_for w.people row) (mother_for w.people row))
    count (λ c. record c { merged = c.merged + 1 })
    add_person row.row_ref target

  unfoldable pub apply_create : ImportRow → M Applying (Unit {0})
  unfolding create_dto resolve_parent
  apply_create row = do
    w ← get
    id ← on_tree (
        create_in_tx env
          (create_dto unit_by_name row.raw (father_for w.people row) (mother_for w.people row))
          (some created_by) (some batch_id))
    count (λ c. record c { created = c.created + 1 })
    add_person row.row_ref id
    mark_created row.id id

  -- `applyRow`
  unfoldable pub apply_row : ImportRow → M Applying (Unit {0})
  unfolding apply_merge apply_create
  apply_row row =
      if is_appliable row
      then elim (merge_target row) [
        | some target ↦ apply_merge row target
        | none ↦ apply_create row
      ]
      else count (λ c. record c { ignored = c.ignored + 1 })

  unfoldable pub apply_rows : List ImportRow → M Applying (Unit {0})
  unfolding apply_row
  apply_rows [] w = (ok tt, w)
  apply_rows (row ∷ rows) w = (do apply_row row; apply_rows rows) w

  -- a `tenantTransaction`: where it throws, the tree is as before, and the rest is not undone
  abbrev pub keep_tree : {A : Type 0} → Db → Result A × Applying → Result A × Applying
  keep_tree old (ok a, w) = (ok a, w)
  keep_tree old (fail e, w) = (fail e, record w { store = record (w.store) { db = old } })

  abbrev pub tree_transaction : {A : Type 0} → M Applying A → M Applying A
  tree_transaction m w = keep_tree w.store.db (m w)

  -- `ownerUpdateBatch`
  abbrev pub update_batch : (ImportBatch → ImportBatch) → M Applying (Unit {0})
  update_batch f = modify (λ w. record w {
    store = record (w.store) { batches = update_row f batch_id w.store.batches };
  })

  -- `progress.update` after a chunk, the percentage rounded
  abbrev pub report : BatchStatus → ℕ → M Applying (Unit {0})
  report status progress = do
    w ← get
    update_batch (λ b. record b { status = status; progress = progress; counts = w.counts })

  -- a round of the loop over the chunks, with the number of rows and of those done
  unfoldable pub apply_chunk : ℕ → ℕ → List ImportRow → M Applying (Unit {0})
  unfolding apply_rows
  apply_chunk total done chunk = do
    tree_transaction (apply_rows chunk)
    report BatchStatus.submitted ((200 * (done + length chunk) + total) / (2 * total))

  unfoldable pub apply_chunks : ℕ → ℕ → List (List ImportRow) → M Applying (Unit {0})
  unfolding apply_chunk
  apply_chunks total done [] w = (ok tt, w)
  apply_chunks total done (chunk ∷ chunks) w =
      (do apply_chunk total done chunk; apply_chunks total (done + length chunk) chunks) w

-- `APPLY_CHUNK_SIZE`
abbrev pub chunk_size : ℕ
chunk_size = 1000

-- `ownerListRows`: the rows of a batch, which are stored in the order of their numbers
abbrev pub rows_of_batch : Store → ℕ → List ImportRow
rows_of_batch s id = select_rows (λ (r : ImportRow). r.batch_id == id) s.import_rows

abbrev pub kept_store : {A : Type 0} → Result A × Applying → Result A × Store
kept_store (r, w) = (r, w.store)

abbrev pub start_counts : Counts → Counts
start_counts c = record c { created = 0; merged = 0; ignored = 0 }

-- the rows of `publishBatch`, in their order
unfoldable pub apply_all : Env → ℕ → ℕ → (Text → Option ℕ) → List ImportRow → M Applying (Unit {0})
unfolding apply_chunks
apply_all env id created_by unit_by_name ordered = do
  apply_chunks env id created_by unit_by_name (length ordered) 0
      (chunks_from chunk_size chunk_size [] ordered)
  report env id created_by unit_by_name BatchStatus.published 100
  on_store (record_store_audit import_publish id)

abbrev pub apply_batch : Env → ℕ → ImportBatch → List ImportRow → M Store (Unit {0})
apply_batch env id batch ordered s = kept_store (
    apply_all env id batch.created_by (unit_named s.db.units.at s.db.units.ids) ordered
      (record { store = s; people = []; counts = start_counts batch.counts }))

-- `publishBatch`
unfoldable pub publish_batch : Env → ChangeRequest → M Store (Unit {0})
unfolding apply_all topological_order
publish_batch env cr = do
  id ← require cr.target_id plain_error
  s ← get
  batch ← require (s.batches.at id) plain_error
  ordered ←
      require (topological_order (queue_fuel (rows_of_batch s id)) (rows_of_batch s id)) plain_error
  apply_batch env id batch ordered

abbrev is_submitted : BatchStatus → Bool
is_submitted BatchStatus.submitted = true
is_submitted _ = false

-- `onBatchRejected`
unfoldable pub on_batch_rejected : ChangeRequest → M Store (Unit {0})
on_batch_rejected cr = elim cr.target_id [
  | none ↦ return tt
  | some id ↦ modify (λ s. record s {
    batches =
        update_row
          (λ (b : ImportBatch).
            if is_submitted b.status then record b { status = BatchStatus.rejected } else b)
          id s.batches;
  })
]
