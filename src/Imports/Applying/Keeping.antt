-- ===== src/Imports/Applying/Keeping.antt =====
-- import-apply.service.ts: the live data in the course of a publication.
use tftsp.Common.{
  ℕ, ◌+◌, ◌*◌, ◌/◌, ◌≡◌, refl, Option, List, [], ◌∷◌, ok, fail, Result, M, bind-Keeps, Keeps,
  require-Keeps, length, ◌>>◌, ◌>>=◌, Text, plain_error, require,
}
use tftsp.Database.{Env, import_publish}
use tftsp.Persons.Consistency.{IsConsistent}
use tftsp.ChangeRequests.Requests.{ChangeRequest}
use tftsp.ChangeRequests.Store.{Store, record_store_audit}
use tftsp.Imports.{ImportRow, BatchStatus}
use tftsp.Imports.Ordering.{topological_order, queue_fuel}
use tftsp.Imports.Transfer.{unit_named}
use tftsp.Imports.Applying.{
  Applying, on_store, apply_rows, keep_tree, tree_transaction, report, apply_chunk, apply_chunks,
  apply_all, apply_batch, publish_batch, chunk_size, chunks_from, rows_of_batch, start_counts,
}
use tftsp.Imports.Applying.Effects.{tree, Succeeds, apply_rows-Succeeds}

abbrev IsTree : Applying → Type 0
IsTree w = IsConsistent (tree w)

tree_transaction-Keeps :
    (env : Env) (id created_by : ℕ) (unit_by_name : Text → Option ℕ) {A : Type 0} (m : M Applying A)
    → Succeeds m
    → Keeps IsTree (tree_transaction env id created_by unit_by_name m)
tree_transaction-Keeps env id created_by unit_by_name {A} m done w c = go (m w) refl
  where
    go :
        (r : Result A × Applying)
        → m w ≡ r
        → IsTree (keep_tree env id created_by unit_by_name w.store.db r).1
    go (ok a, v) e = done a w v c e
    go (fail x, v) e = c

module _ (env : Env) (id created_by : ℕ) (unit_by_name : Text → Option ℕ) where
  apply_chunk-Keeps :
      (total done : ℕ) (chunk : List ImportRow)
      → Keeps IsTree (apply_chunk env id created_by unit_by_name total done chunk)
  unfolding apply_chunk
  apply_chunk-Keeps total done chunk =
      bind-Keeps IsTree
        (tree_transaction env id created_by unit_by_name
          (apply_rows env id created_by unit_by_name chunk))
        (λ _.
          report env id created_by unit_by_name BatchStatus.submitted
            ((200 * (done + length chunk) + total) / (2 * total)))
        (tree_transaction-Keeps env id created_by unit_by_name _
          (apply_rows-Succeeds env id created_by unit_by_name chunk))
        (λ _ v k. k)

  apply_chunks-Keeps :
      (total done : ℕ) (chunks : List (List ImportRow))
      → Keeps IsTree (apply_chunks env id created_by unit_by_name total done chunks)
  unfolding apply_chunks
  apply_chunks-Keeps total done [] w c = c
  apply_chunks-Keeps total done (chunk ∷ chunks) w c =
      bind-Keeps IsTree (apply_chunk env id created_by unit_by_name total done chunk)
        (λ _. apply_chunks env id created_by unit_by_name total (done + length chunk) chunks)
        (apply_chunk-Keeps total done chunk)
        (λ _. apply_chunks-Keeps total (done + length chunk) chunks) w c

  apply_all-Keeps :
      (ordered : List ImportRow) → Keeps IsTree (apply_all env id created_by unit_by_name ordered)
  unfolding apply_all
  apply_all-Keeps ordered =
      bind-Keeps IsTree
        (apply_chunks env id created_by unit_by_name (length ordered) 0
          (chunks_from chunk_size chunk_size [] ordered))
        (λ _.
          report env id created_by unit_by_name BatchStatus.published 100
          >> on_store (record_store_audit import_publish id))
        (apply_chunks-Keeps (length ordered) 0 (chunks_from chunk_size chunk_size [] ordered))
        (λ _ v k. record {
          closure = k.closure;
          fathers = k.fathers;
          listed = k.listed;
          fresh = k.fresh;
        })

-- Whatever the rows of a batch are and wherever its publication throws, it leaves consistent live data
-- consistent.
pub publish_batch-IsConsistent :
    (env : Env) (cr : ChangeRequest) (s : Store)
    → IsConsistent s.db
    → IsConsistent (publish_batch env cr s).1.db
unfolding publish_batch
publish_batch-IsConsistent env cr =
    let P = λ (s : Store). IsConsistent s.db in
    bind-Keeps P (require cr.target_id plain_error) _ (require-Keeps P cr.target_id plain_error)
      (λ id s c.
        bind-Keeps P (require (s.batches.at id) plain_error)
          (λ batch.
            require (topological_order (queue_fuel (rows_of_batch s id)) (rows_of_batch s id))
              plain_error
            >>= apply_batch env id batch)
          (require-Keeps P (s.batches.at id) plain_error)
          (λ batch.
            bind-Keeps P
              (require (topological_order (queue_fuel (rows_of_batch s id)) (rows_of_batch s id))
                plain_error)
              (apply_batch env id batch)
              (require-Keeps P
                (topological_order (queue_fuel (rows_of_batch s id)) (rows_of_batch s id))
                plain_error)
              (λ ordered t k.
                apply_all-Keeps env id batch.created_by (unit_named t.db.units.at t.db.units.ids)
                  ordered (record { store = t; people = []; counts = start_counts batch.counts })
                  k))
          s c)
