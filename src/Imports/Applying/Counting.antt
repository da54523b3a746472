-- ===== src/Imports/Applying/Counting.antt =====
-- import-apply.service.ts: after a publication the counts of the batch add up to its rows.
use tftsp.Common.{
  is_some, is_some-witness, ℕ, zero, suc, ◌+◌, ◌*◌, ◌/◌, ◌-◌, ◌≡◌, refl, sym, ap, subst, ◌∙◌, true,
  Option, none, some, List, [], ◌∷◌, ◌++◌, ok, fail, Result, M, bind_result, bind-ok, Bool-cases,
  Option-cases, inl, inr, arith, length, length-append, ◌>>◌, Text, plain_error, update_row,
  update_row-at, ==_refl,
}
use tftsp.Database.{Env, import_publish}
use tftsp.ChangeRequests.Requests.{ChangeRequest}
use tftsp.ChangeRequests.Store.{Store, record_store_audit}
use tftsp.Persons.Writes.{create_in_tx}
use tftsp.Imports.{ImportRow, ImportBatch, BatchStatus, Counts}
use tftsp.Imports.Ordering.{topological_order, queue_fuel}
use tftsp.Imports.Ordering.Lengths.{NoRepeat, topological_order-length}
use tftsp.Imports.Transfer.{unit_named, create_dto}
use tftsp.Imports.Applying.{
  Applying, on_store, on_tree, count, add_person, mark_created, is_appliable, merge_target,
  merge_into, father_for, mother_for, apply_merge, apply_create, apply_row, apply_rows, keep_tree,
  tree_transaction, report, apply_chunk, apply_chunks, apply_all, apply_batch, publish_batch,
  chunk_size, chunks_from, rows_of_batch, start_counts, kept_store,
}
use tftsp.Imports.Applying.Frames.{apply_chunks-Keeps, batch-Closed}
use tftsp.Imports.Applying.Effects.{apply_row-ignored, apply_row-applied}

abbrev handled : Counts → ℕ
handled c = c.created + c.merged + c.ignored

abbrev total_length : List (List ImportRow) → ℕ
total_length [] = 0
total_length (chunk ∷ chunks) = length chunk + total_length chunks

-- the chunks have all the rows
total_length-chunks_from :
    (size room : ℕ) (chunk rows : List ImportRow)
    → total_length (chunks_from size room chunk rows) ≡ length chunk + length rows
total_length-chunks_from size room [] [] = refl
total_length-chunks_from size room (c ∷ chunk) [] = omega arith
total_length-chunks_from size zero [] (r ∷ rows) =
    omega (arith, total_length-chunks_from size (size - 1) (r ∷ []) rows)
total_length-chunks_from size zero (c ∷ chunk) (r ∷ rows) =
    omega (arith, total_length-chunks_from size (size - 1) (r ∷ []) rows)
total_length-chunks_from size (suc room) [] (r ∷ rows) =
    omega (arith, total_length-chunks_from size room (r ∷ []) rows)
total_length-chunks_from size (suc room) (c ∷ chunk) (r ∷ rows) = omega (
  arith,
  total_length-chunks_from size room (c ∷ (chunk ++ r ∷ [])) rows,
  length-append chunk (r ∷ []),
)

-- a call that, where it succeeds, counts that many rows more
abbrev Adds : ℕ → {A : Type 0} → M Applying A → Type 0
Adds n {A} m =
    (a : A) (w w' : Applying) → m w ≡ (ok a, w') → handled w'.counts ≡ handled w.counts + n

bind-Adds :
    {A B : Type 0} (n k : ℕ) (m : M Applying A) (f : A → M Applying B)
    → Adds n m
    → ((a : A) → Adds k (f a))
    → Adds (n + k) (λ s. bind_result (m s) f)
bind-Adds n k m f first next b w w' h =
    let (a, w₁, e, rest) = bind-ok (m w) f h in omega (arith, first a w w₁ e, next a b w₁ w' rest)

same-Adds :
    {A : Type 0} (n : ℕ) (m : M Applying A)
    → ((w : Applying) → handled (m w).1.counts ≡ handled w.counts + n)
    → Adds n m
same-Adds n m same a w w' h = sym (ap (λ (r : Result _ × Applying). handled r.1.counts) h) ∙ same w

module _ (env : Env) (id created_by : ℕ) (unit_by_name : Text → Option ℕ) where
  apply_merge-Adds :
      (row : ImportRow) (target : ℕ)
      → Adds 1 (apply_merge env id created_by unit_by_name row target)
  unfolding apply_merge
  apply_merge-Adds row target a w w' h =
      let m =
        merge_into env id created_by unit_by_name target row.raw (father_for w.people row)
          (mother_for w.people row) in
      bind-Adds 0 1 (on_tree m)
        (λ _. count (λ n. record n { merged = n.merged + 1 }) >> add_person row.row_ref target)
        (same-Adds 0 (on_tree m) (λ v. omega arith))
        (λ _.
          same-Adds 1
            (count (λ n. record n { merged = n.merged + 1 }) >> add_person row.row_ref target)
            (λ v. omega arith))
        a w w' h

  apply_create-Adds : (row : ImportRow) → Adds 1 (apply_create env id created_by unit_by_name row)
  unfolding apply_create
  apply_create-Adds row a w w' h =
      let dto =
        create_dto unit_by_name row.raw (father_for w.people row) (mother_for w.people row) in
      let m = create_in_tx env dto (some created_by) (some id) in
      bind-Adds 0 1 (on_tree m)
        (λ person.
          count (λ n. record n { created = n.created + 1 })
          >> (add_person row.row_ref person >> mark_created row.id person))
        (same-Adds 0 (on_tree m) (λ v. omega arith))
        (λ person.
          same-Adds 1
            (count (λ n. record n { created = n.created + 1 })
              >> (add_person row.row_ref person >> mark_created row.id person))
            (λ v. omega arith))
        a w w' h

  apply_row-Adds : (row : ImportRow) → Adds 1 (apply_row env id created_by unit_by_name row)
  apply_row-Adds row a w w' h = elim (Bool-cases (is_appliable row)) [
    | inr e ↦
        same-Adds 1 (count (λ n. record n { ignored = n.ignored + 1 })) (λ v. omega arith) a w w'
          (sym (apply_row-ignored env id created_by unit_by_name row w e) ∙ h)
    | inl e ↦ elim (Option-cases (merge_target row)) [
      | inl t ↦
          apply_create-Adds row a w w'
            (sym (apply_row-applied env id created_by unit_by_name row w none e t) ∙ h)
      | inr (target, t) ↦
          apply_merge-Adds row target a w w'
            (sym (apply_row-applied env id created_by unit_by_name row w (some target) e t) ∙ h)
    ]
  ]

  apply_rows-Adds :
      (rows : List ImportRow) → Adds (length rows) (apply_rows env id created_by unit_by_name rows)
  unfolding apply_rows
  apply_rows-Adds [] a w w' h = same-Adds 0 (λ v. (ok tt, v)) (λ v. omega arith) a w w' h
  apply_rows-Adds (row ∷ rows) a w w' h =
      let both =
        bind-Adds 1 (length rows) (apply_row env id created_by unit_by_name row)
          (λ _. apply_rows env id created_by unit_by_name rows) (apply_row-Adds row)
          (λ _. apply_rows-Adds rows) a w w' h in
      omega (arith, both)

  tree_transaction-Adds :
      {A : Type 0} (n : ℕ) (m : M Applying A)
      → Adds n m
      → Adds n (tree_transaction env id created_by unit_by_name m)
  tree_transaction-Adds {A} n m adds a w w' h = go (m w) refl h
    where
      go :
          (r : Result A × Applying)
          → m w ≡ r
          → keep_tree env id created_by unit_by_name w.store.db r ≡ (ok a, w')
          → handled w'.counts ≡ handled w.counts + n
      go (ok b, v) e q = adds a w w' (e ∙ q)
      go (fail x, v) e q = cc

  apply_chunk-Adds :
      (total done : ℕ) (chunk : List ImportRow)
      → Adds (length chunk) (apply_chunk env id created_by unit_by_name total done chunk)
  unfolding apply_chunk
  apply_chunk-Adds total done chunk a w w' h =
      let progress = (200 * (done + length chunk) + total) / (2 * total) in
      let both =
        bind-Adds (length chunk) 0
          (tree_transaction env id created_by unit_by_name
            (apply_rows env id created_by unit_by_name chunk))
          (λ _. report env id created_by unit_by_name BatchStatus.submitted progress)
          (tree_transaction-Adds (length chunk) (apply_rows env id created_by unit_by_name chunk)
            (apply_rows-Adds chunk))
          (λ _.
            same-Adds 0 (report env id created_by unit_by_name BatchStatus.submitted progress)
              (λ v. omega arith))
          a w w' h in
      omega (arith, both)

  apply_chunks-Adds :
      (total done : ℕ) (chunks : List (List ImportRow))
      → Adds (total_length chunks) (apply_chunks env id created_by unit_by_name total done chunks)
  unfolding apply_chunks
  apply_chunks-Adds total done [] a w w' h =
      same-Adds 0 (λ v. (ok tt, v)) (λ v. omega arith) a w w' h
  apply_chunks-Adds total done (chunk ∷ chunks) a w w' h =
      bind-Adds (length chunk) (total_length chunks)
        (apply_chunk env id created_by unit_by_name total done chunk)
        (λ _. apply_chunks env id created_by unit_by_name total (done + length chunk) chunks)
        (apply_chunk-Adds total done chunk)
        (λ _. apply_chunks-Adds total (done + length chunk) chunks) a w w' h

  -- the end of a publication that succeeds
  apply_all-ok :
      (ordered : List ImportRow) (w w' : Applying) {u : Unit {0}} {b : ImportBatch}
      → w.store.batches.at id ≡ some b
      → apply_all env id created_by unit_by_name ordered w ≡ (ok u, w')
      → (b' : ImportBatch) × (w'.store.batches.at id ≡ some b')
        × (b'.status ≡ BatchStatus.published)
        × (handled b'.counts ≡ handled w.counts + length ordered)
  unfolding apply_all
  apply_all-ok ordered w w' {u} {b} e h =
      let (a, w₁, run, rest) =
        bind-ok
          (apply_chunks env id created_by unit_by_name (length ordered) 0
            (chunks_from chunk_size chunk_size [] ordered) w)
          (λ _.
            report env id created_by unit_by_name BatchStatus.published 100
            >> on_store (record_store_audit import_publish id))
          h in
      let there =
        apply_chunks-Keeps (λ s. is_some (s.batches.at id) ≡ true) (batch-Closed id) env id
          created_by unit_by_name (length ordered) 0 (chunks_from chunk_size chunk_size [] ordered)
          w (ground (arith, e)) in
      let (b₁, e₁) = is_some-witness (w₁.store.batches.at id) (
        subst (λ (r : Result (Unit {0}) × Applying). is_some (r.1.store.batches.at id) ≡ true) run
          there) in
      let f = λ (x : ImportBatch). record x {
        status = BatchStatus.published;
        progress = 100;
        counts = w₁.counts;
      } in
      let updated : (update_row f id w₁.store.batches).at id ≡ some (f b₁) =
        update_row-at f id w₁.store.batches id ∙ ground (arith, ==_refl id, e₁) in
      (
        f b₁,
        sym (ap (λ (r : Result (Unit {0}) × Applying). r.1.store.batches.at id) rest) ∙ updated,
        refl,
        apply_chunks-Adds (length ordered) 0 (chunks_from chunk_size chunk_size [] ordered) a w w₁
              run
            ∙ ap (λ n. handled w.counts + n)
                (total_length-chunks_from chunk_size chunk_size [] ordered ∙ omega arith),
      )

apply_batch-ok :
    (env : Env) (id : ℕ) (batch : ImportBatch) (ordered : List ImportRow) (s : Store) {u : Unit {0}}
    {s' : Store}
    → s.batches.at id ≡ some batch
    → apply_batch env id batch ordered s ≡ (ok u, s')
    → (b : ImportBatch) × (s'.batches.at id ≡ some b)
      × (b.status ≡ BatchStatus.published)
      × (b.counts.created + b.counts.merged + b.counts.ignored ≡ length ordered)
apply_batch-ok env id batch ordered s {u} {s'} e h =
    go (apply_all env id batch.created_by (unit_named s.db.units.at s.db.units.ids) ordered first)
      refl h
  where
    first : Applying
    first = record { store = s; people = []; counts = start_counts batch.counts }

    go :
        (r : Result (Unit {0}) × Applying)
        → apply_all env id batch.created_by (unit_named s.db.units.at s.db.units.ids) ordered first
          ≡ r
        → kept_store r ≡ (ok u, s')
        → (b : ImportBatch) × (s'.batches.at id ≡ some b)
          × (b.status ≡ BatchStatus.published)
          × (b.counts.created + b.counts.merged + b.counts.ignored ≡ length ordered)
    go (ok a, w) run k =
        let (b, at, status, sum) =
          apply_all-ok env id batch.created_by (unit_named s.db.units.at s.db.units.ids) ordered
            first w e run in
        (
          b,
          sym (ap (λ (r : Result (Unit {0}) × Store). r.1.batches.at id) k) ∙ at,
          status,
          omega (arith, sum),
        )
    go (fail x, w) run k = cc

publish-run :
    (env : Env) (cr : ChangeRequest) (s : Store) (id : ℕ) {batch : ImportBatch}
    {ordered : List ImportRow}
    → cr.target_id ≡ some id
    → s.batches.at id ≡ some batch
    → topological_order (queue_fuel (rows_of_batch s id)) (rows_of_batch s id) ≡ some ordered
    → publish_batch env cr s ≡ apply_batch env id batch ordered s
unfolding publish_batch
publish-run env cr s id e f t = rw e (rw f (rw t refl))

publish-missing :
    (env : Env) (cr : ChangeRequest) (s : Store) (id : ℕ)
    → cr.target_id ≡ some id
    → s.batches.at id ≡ none
    → publish_batch env cr s ≡ (fail plain_error, s)
unfolding publish_batch
publish-missing env cr s id e f = rw e (rw f refl)

-- After a publication of a batch no two rows of which have the same reference, where it succeeds, the batch
-- is published, and its counts of created, merged and ignored rows add up to the rows of the batch.
pub publish_batch-counts :
    (env : Env) (cr : ChangeRequest) (s : Store) (id : ℕ) {u : Unit {0}} {s' : Store}
    → cr.target_id ≡ some id
    → NoRepeat (rows_of_batch s id)
    → publish_batch env cr s ≡ (ok u, s')
    → (b : ImportBatch) × (s'.batches.at id ≡ some b)
      × (b.status ≡ BatchStatus.published)
      × (b.counts.created + b.counts.merged + b.counts.ignored ≡ length (rows_of_batch s id))
publish_batch-counts env cr s id {u} {s'} e d h =
    let (ordered, t, same) = topological_order-length (rows_of_batch s id) d in
    elim (Option-cases (s.batches.at id)) [
      | inl f ↦ let missing = publish-missing env cr s id e f in cc
      | inr (batch, f) ↦
          let run = sym (publish-run env cr s id e f t) ∙ h in
          let (b, at, status, sum) = apply_batch-ok env id batch ordered s f run in
          (b, at, status, sum ∙ same)
    ]
