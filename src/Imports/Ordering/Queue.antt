-- ===== src/Imports/Ordering/Queue.antt =====
-- import-apply.service.ts `topologicalOrder`: the order that the queue leaves.
use mathlib.Core.List.{append-nil}
use tftsp.Common.{
  length-filter_le, ℕ, zero, suc, ◌+◌, ◌≤◌, ◌<◌, ◌≡◌, ◌≢◌, inl, inr, refl, sym, ap, ◌∙◌, true,
  false, not, Option, none, some, List, [], ◌∷◌, ◌++◌, arith, Text, Bool-cases, is_some, length,
  ◌==◌, filter,
}
use tftsp.Imports.{ImportRow}
use tftsp.Imports.Cycles.{mem_text}
use tftsp.Imports.Cycles.Paths.{text_eq_refl}
use tftsp.Imports.Ordering.{
  row_of, refs, edges, Kahn, start_queue, queue_fuel, topological_order, indegree,
}
use tftsp.Imports.Ordering.Edges.{pending_all, has_edge, pending-unseen}
use tftsp.Imports.Ordering.Parents.{ParentsFirst, find_ref-there, mem-refs, has_edge-there}
use tftsp.Imports.Ordering.Emptying.{Inv, work, run_queue-Runs, start-Inv}

pending_all-length : (es : List (Text × Text)) → pending_all es [] ≡ length es
pending_all-length [] = refl
pending_all-length ((p, c) ∷ es) = omega (arith, pending_all-length es)

length-refs : (rows : List ImportRow) → length (refs rows) ≡ length rows
length-refs [] = refl
length-refs (w ∷ rows) = omega (arith, length-refs rows)

pub start-work : (rows : List ImportRow) → work rows (start_queue rows) < queue_fuel rows
unfolding start_queue work
start-work rows = omega (
  arith,
  pending_all-length (edges rows rows),
  length-refs rows,
  length-filter_le (λ r. indegree (edges rows rows) r == 0) (refs rows),
)

none_left :
    (seen : List Text) (rows : List ImportRow)
    → ((r : Text) → is_some (row_of rows r) ≡ true → mem_text r seen ≡ true)
    → filter (λ (w : ImportRow). not (mem_text w.row_ref seen)) rows ≡ []
none_left seen [] all_there = refl
none_left seen (w ∷ rows) all_there =
    let here = all_there w.row_ref (find_ref-there rows w w.row_ref (text_eq_refl w.row_ref)) in
    ground (arith, here, none_left seen rows (λ r t. all_there r (ground (arith, t))))

both_none : {A : Type 0} (o o' : Option A) → is_some o ≡ false → ¬ (is_some o' ≡ true) → o ≡ o'
both_none none none e f = refl
both_none none (some a) e f = absurd (f refl)
both_none (some a) o' e f = cc

module _ (rows : List ImportRow) (depth : Text → ℕ)
    (falls : (q r : Text) → has_edge q r (edges rows rows) ≡ true → depth q < depth r) where
  -- at the end every row was seen
  all_seen :
      (k : Kahn)
      → Inv rows k
      → k.queue ≡ []
      → (n : ℕ) (r : Text) → depth r < n
      → is_some (row_of rows r) ≡ true
      → mem_text r k.seen ≡ true
  all_seen k i e zero r h t = absurd (omega arith)
  all_seen k i e (suc n) r h t = elim (Bool-cases (mem_text r k.seen)) [
    | inl m ↦ m
    | inr m ↦
        let (q, edge, unseen) =
          pending-unseen (edges rows rows) k.seen r (λ z. still r m t (i.counted r ∙ z)) in
        let seen =
          all_seen k i e n q (omega (arith, h, falls q r edge))
            (has_edge-there rows rows q r edge) in
        cc
  ]
    where
      still :
          (u : Text) → mem_text u k.seen ≡ false → is_some (row_of rows u) ≡ true → k.degree u ≢ 0
      still u m t' z = let on_queue = i.waits u t' m z in cc (e, on_queue)

  -- With the fuel of `queue_fuel`, where the parents in the file have no cycle, the order has each row
  -- after its parents, and under each reference the row that the file has under it, once.
  pub topological_order-ParentsFirst :
      (fuel : ℕ)
      → queue_fuel rows ≤ fuel
      → (ordered : List ImportRow) × (topological_order fuel rows ≡ some ordered)
        × ParentsFirst rows [] ordered
        × ((r : Text) → row_of ordered r ≡ row_of rows r)
  unfolding topological_order
  topological_order-ParentsFirst fuel enough =
      let run =
        run_queue-Runs rows fuel (start_queue rows) (start-Inv rows)
          (omega (arith, enough, start-work rows)) in
      let seen = λ (r : Text) (t : is_some (row_of rows r) ≡ true).
        all_seen run.last run.inv run.empty (depth r + 1) r (omega arith) t in
      (
        run.last.ordered,
        rw run.ends (
            ap some (
              ap (λ l. run.last.ordered ++ l) (none_left run.last.seen rows seen)
              ∙ append-nil run.last.ordered)),
        run.inv.first,
        λ r. elim (Bool-cases (mem_text r (refs run.last.ordered))) [
          | inl m ↦ run.inv.same_rows r m
          | inr m ↦
              both_none (row_of run.last.ordered r) (row_of rows r)
                (sym (mem-refs run.last.ordered r) ∙ m)
                (λ t. let late = run.inv.seen_rows r in let early = seen r t in cc)
        ],
      )
