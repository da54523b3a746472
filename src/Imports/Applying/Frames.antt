-- ===== src/Imports/Applying/Frames.antt =====
-- import-apply.service.ts: what a publication of a batch leaves alone in the store.
use tftsp.Common.{
  is_some, is_some-witness, ◌==◌, update_row-at, ℕ, ◌+◌, ◌*◌, ◌/◌, ◌≡◌, sym, subst, true, Option,
  none, some, List, [], ◌∷◌, ok, fail, Result, M, bind-Keeps, Keeps, require-Keeps, Bool-cases,
  Option-cases, inl, inr, arith, length, ◌>>◌, ◌>>=◌, Text, Table, plain_error, require, update_row,
}
use tftsp.Database.{Env, Db, import_publish, record_audit}
use tftsp.ChangeRequests.Requests.{ChangeRequest}
use tftsp.ChangeRequests.Store.{Store, record_store_audit}
use tftsp.Persons.Writes.{create_in_tx}
use tftsp.Imports.{ImportRow, ImportBatch, BatchStatus}
use tftsp.Imports.Ordering.{topological_order, queue_fuel}
use tftsp.Imports.Transfer.{unit_named, create_dto}
use tftsp.Imports.Applying.{
  Applying, on_store, on_tree, count, add_person, mark_created, is_appliable, merge_target,
  merge_into, father_for, mother_for, apply_merge, apply_create, apply_row, apply_rows, keep_tree,
  tree_transaction, report, apply_chunk, apply_chunks, apply_all, apply_batch, publish_batch,
  chunk_size, chunks_from, rows_of_batch, start_counts, on_batch_rejected,
}
use tftsp.Imports.Applying.Effects.{apply_row-ignored, apply_row-applied}

-- a property of the store that does not depend on the tree, the rows of imports and their batches
pub record Closed (P : Store → Type 0) : Type 0 where
  pub under_db : (s : Store) (d : Db) → P s → P (record s { db = d })
  pub under_rows : (s : Store) (t : Table ImportRow) → P s → P (record s { import_rows = t })
  pub under_batches :
      (s : Store) (f : ImportBatch → ImportBatch) (id : ℕ)
      → P s
      → P (record s { batches = update_row f id s.batches })

module _ (P : Store → Type 0) (closed : Closed P) (env : Env) (id created_by : ℕ)
    (unit_by_name : Text → Option ℕ) where
  abbrev Q : Applying → Type 0
  Q w = P w.store

  on_tree-Keeps : {A : Type 0} (m : M Db A) → Keeps Q (on_tree m)
  on_tree-Keeps m w p = closed.under_db w.store (m w.store.db).1 p

  apply_merge-Keeps :
      (row : ImportRow) (target : ℕ)
      → Keeps Q (apply_merge env id created_by unit_by_name row target)
  unfolding apply_merge
  apply_merge-Keeps row target w p =
      let m =
        merge_into env id created_by unit_by_name target row.raw (father_for w.people row)
          (mother_for w.people row) in
      bind-Keeps Q (on_tree m)
        (λ _. count (λ n. record n { merged = n.merged + 1 }) >> add_person row.row_ref target)
        (on_tree-Keeps m) (λ _ v q. q) w p

  apply_create-Keeps : (row : ImportRow) → Keeps Q (apply_create env id created_by unit_by_name row)
  unfolding apply_create
  apply_create-Keeps row w p =
      let dto =
        create_dto unit_by_name row.raw (father_for w.people row) (mother_for w.people row) in
      let m = create_in_tx env dto (some created_by) (some id) in
      bind-Keeps Q (on_tree m)
        (λ person.
          count (λ n. record n { created = n.created + 1 })
          >> (add_person row.row_ref person >> mark_created row.id person))
        (on_tree-Keeps m)
        (λ person v q.
          closed.under_rows v.store
            (update_row (λ (r : ImportRow). record r { created_person = some person }) row.id
              v.store.import_rows)
            q)
        w p

  apply_row-Keeps : (row : ImportRow) → Keeps Q (apply_row env id created_by unit_by_name row)
  apply_row-Keeps row w p = elim (Bool-cases (is_appliable row)) [
    | inr e ↦
        subst (λ (r : Result (Unit {0}) × Applying). Q r.1)
          (sym (apply_row-ignored env id created_by unit_by_name row w e)) p
    | inl e ↦ elim (Option-cases (merge_target row)) [
      | inl t ↦
          subst (λ (r : Result (Unit {0}) × Applying). Q r.1)
            (sym (apply_row-applied env id created_by unit_by_name row w none e t))
            (apply_create-Keeps row w p)
      | inr (target, t) ↦
          subst (λ (r : Result (Unit {0}) × Applying). Q r.1)
            (sym (apply_row-applied env id created_by unit_by_name row w (some target) e t))
            (apply_merge-Keeps row target w p)
    ]
  ]

  apply_rows-Keeps :
      (rows : List ImportRow) → Keeps Q (apply_rows env id created_by unit_by_name rows)
  unfolding apply_rows
  apply_rows-Keeps [] w p = p
  apply_rows-Keeps (row ∷ rows) w p =
      bind-Keeps Q (apply_row env id created_by unit_by_name row)
        (λ _. apply_rows env id created_by unit_by_name rows) (apply_row-Keeps row)
        (λ _. apply_rows-Keeps rows) w p

  transaction-Keeps :
      (m : M Applying (Unit {0}))
      → Keeps Q m
      → Keeps Q (tree_transaction env id created_by unit_by_name m)
  transaction-Keeps m kept w p = go (m w) (kept w p)
    where
      go :
          (r : Result (Unit {0}) × Applying)
          → Q r.1
          → Q (keep_tree env id created_by unit_by_name w.store.db r).1
      go (ok a, v) q = q
      go (fail x, v) q = closed.under_db v.store w.store.db q

  report-Keeps :
      (status : BatchStatus) (progress : ℕ)
      → Keeps Q (report env id created_by unit_by_name status progress)
  report-Keeps status progress w p =
      closed.under_batches w.store
        (λ (b : ImportBatch). record b { status = status; progress = progress; counts = w.counts })
        id p

  apply_chunk-Keeps :
      (total done : ℕ) (chunk : List ImportRow)
      → Keeps Q (apply_chunk env id created_by unit_by_name total done chunk)
  unfolding apply_chunk
  apply_chunk-Keeps total done chunk =
      bind-Keeps Q
        (tree_transaction env id created_by unit_by_name
          (apply_rows env id created_by unit_by_name chunk))
        (λ _.
          report env id created_by unit_by_name BatchStatus.submitted
            ((200 * (done + length chunk) + total) / (2 * total)))
        (transaction-Keeps _ (apply_rows-Keeps chunk)) (λ _. report-Keeps BatchStatus.submitted _)

  pub apply_chunks-Keeps :
      (total done : ℕ) (chunks : List (List ImportRow))
      → Keeps Q (apply_chunks env id created_by unit_by_name total done chunks)
  unfolding apply_chunks
  apply_chunks-Keeps total done [] w p = p
  apply_chunks-Keeps total done (chunk ∷ chunks) w p =
      bind-Keeps Q (apply_chunk env id created_by unit_by_name total done chunk)
        (λ _. apply_chunks env id created_by unit_by_name total (done + length chunk) chunks)
        (apply_chunk-Keeps total done chunk)
        (λ _. apply_chunks-Keeps total (done + length chunk) chunks) w p

  apply_all-Keeps :
      (ordered : List ImportRow) → Keeps Q (apply_all env id created_by unit_by_name ordered)
  unfolding apply_all
  apply_all-Keeps ordered =
      bind-Keeps Q
        (apply_chunks env id created_by unit_by_name (length ordered) 0
          (chunks_from chunk_size chunk_size [] ordered))
        (λ _.
          report env id created_by unit_by_name BatchStatus.published 100
          >> on_store (record_store_audit import_publish id))
        (apply_chunks-Keeps (length ordered) 0 (chunks_from chunk_size chunk_size [] ordered))
        (λ _ w p.
          on_tree-Keeps (record_audit import_publish id)
            (report env id created_by unit_by_name BatchStatus.published 100 w).1
            (report-Keeps BatchStatus.published 100 w p))

-- a publication keeps whatever does not depend on what it writes
pub publish_batch-Keeps :
    (P : Store → Type 0)
    → Closed P
    → (env : Env) (cr : ChangeRequest) → Keeps P (publish_batch env cr)
unfolding publish_batch
publish_batch-Keeps P closed env cr =
    bind-Keeps P (require cr.target_id plain_error) _ (require-Keeps P cr.target_id plain_error)
      (λ id s c.
        bind-Keeps P (require (s.batches.at id) plain_error)
          (λ batch.
            require (topological_order (queue_fuel (rows_of_batch s id)) (rows_of_batch s id))
              plain_error
            >>= apply_batch env id batch)
          (require-Keeps P (s.batches.at id) plain_error)
          (λ batch.
            bind-Keeps P
              (require (topological_order (queue_fuel (rows_of_batch s id)) (rows_of_batch s id))
                plain_error)
              (apply_batch env id batch)
              (require-Keeps P
                (topological_order (queue_fuel (rows_of_batch s id)) (rows_of_batch s id))
                plain_error)
              (λ ordered t k.
                apply_all-Keeps P closed env id batch.created_by
                  (unit_named t.db.units.at t.db.units.ids) ordered
                  (record { store = t; people = []; counts = start_counts batch.counts }) k))
          s c)

pub on_batch_rejected-Keeps :
    (P : Store → Type 0) → Closed P → (cr : ChangeRequest) → Keeps P (on_batch_rejected cr)
unfolding on_batch_rejected
on_batch_rejected-Keeps P closed cr s p = elim (Option-cases cr.target_id) [
  | inl e ↦ rw (e, on_batch_rejected) p
  | inr (id, e) ↦ rw (e, on_batch_rejected) (closed.under_batches s _ id p)
]

-- a batch on record stays on record
pub batch-Closed : (id : ℕ) → Closed (λ s. is_some (s.batches.at id) ≡ true)
batch-Closed id = record {
  under_db = λ s d p. p;
  under_rows = λ s t p. p;
  under_batches = λ s f x p.
      let (b, e) = is_some-witness (s.batches.at id) p in
      elim (Bool-cases (x == id)) [
        | inl q ↦ ground (arith, update_row-at f x s.batches id, q, e)
        | inr q ↦ ground (arith, update_row-at f x s.batches id, q, e)
      ];
}
