-- ===== src/Imports/Ordering.antt =====
-- import-apply.service.ts `topologicalOrder`: the order in which the rows of a batch are applied, after
-- Kahn, so that parents in the file come before their children.
use tftsp.Common.{
  length, ℕ, zero, suc, ◌+◌, ◌-◌, Bool, true, false, Option, none, some, List, [], ◌∷◌, ◌++◌, any,
  not, is_some, if◌then◌else◌, Text, text_eq, ◌==◌, filter, map,
}
use tftsp.Imports.{ImportRow, find_ref}
use tftsp.Imports.Parsing.{cell, ref_target}
use tftsp.Imports.Cycles.{mem_text, bind_option}
pub mod Edges
pub mod Emptying
pub mod Lengths
pub mod Queue
pub mod Parents

-- `byRef.get(ref)`
abbrev pub row_of : List ImportRow → Text → Option ImportRow
row_of rows r = find_ref (λ (w : ImportRow). w.row_ref) r rows

-- the reference in a cell, where its row is in the file
abbrev pub ref_in_file : List ImportRow → Option Text → List Text
ref_in_file rows value = elim (bind_option (cell value) ref_target) [
  | none ↦ []
  | some target ↦ if is_some (row_of rows target) then target ∷ [] else []
]

-- `parentRefs`
unfoldable pub parent_refs : List ImportRow → ImportRow → List Text
unfolding ref_target
parent_refs rows r = ref_in_file rows r.raw.father_ref ++ ref_in_file rows r.raw.mother_ref

abbrev pub edges_to : Text → List Text → List (Text × Text)
edges_to child [] = []
edges_to child (parent ∷ parents) = (parent, child) ∷ edges_to child parents

-- the rounds of the loop over the rows and their parents, of which `indegree` and `children` are views
unfoldable pub edges : List ImportRow → List ImportRow → List (Text × Text)
unfolding parent_refs
edges all_rows [] = []
edges all_rows (r ∷ rows) = edges_to r.row_ref (parent_refs all_rows r) ++ edges all_rows rows

-- `indegree.get(ref)` after the loop
unfoldable pub indegree : List (Text × Text) → Text → ℕ
indegree [] r = 0
indegree ((p, c) ∷ es) r = (if text_eq c r then 1 else 0) + indegree es r

-- `children.get(ref) ?? []`
unfoldable pub children : List (Text × Text) → Text → List Text
children [] r = []
children ((p, c) ∷ es) r = let rest = children es r in if text_eq p r then c ∷ rest else rest

-- the state of the loop over the queue
pub record Kahn : Type 0 where
  pub degree : Text → ℕ
  pub queue : List Text
  pub seen : List Text
  pub ordered : List ImportRow

abbrev pub lower : Text → (Text → ℕ) → Text → ℕ
lower c degree r = if text_eq c r then degree r - 1 else degree r

-- the loop over the children of a row; a degree is not zero where it is lowered
unfoldable pub release : List Text → (Text → ℕ) → List Text → (Text → ℕ) × List Text
release [] degree queue = (degree, queue)
release (c ∷ cs) degree queue =
    release cs (lower c degree) (if lower c degree c == 0 then queue ++ c ∷ [] else queue)

abbrev pub append_row : Option ImportRow → List ImportRow → List ImportRow
append_row none rows = rows
append_row (some r) rows = rows ++ r ∷ []

-- a reference that was not seen before
unfoldable pub take_ref : List ImportRow → List (Text × Text) → Text → List Text → Kahn → Kahn
unfolding release children
take_ref rows es ref queue k =
    let (degree, queue') = release (children es ref) k.degree queue in
    record {
      degree = degree;
      queue = queue';
      seen = ref ∷ k.seen;
      ordered = append_row (row_of rows ref) k.ordered;
    }

-- the loop over the queue; `none` where the fuel runs out
unfoldable pub run_queue : List ImportRow → List (Text × Text) → ℕ → Kahn → Option Kahn
unfolding take_ref
run_queue rows es zero k = none
run_queue rows es (suc fuel) k = elim k.queue [
  | [] ↦ some k
  | ref ∷ queue ↦
      if mem_text ref k.seen
      then run_queue rows es fuel (record k { queue = queue })
      else run_queue rows es fuel (take_ref rows es ref queue k)
]

abbrev refs : List ImportRow → List Text
refs [] = []
refs (r ∷ rows) = r.row_ref ∷ refs rows

unfoldable pub start_queue : List ImportRow → Kahn
unfolding edges indegree
start_queue rows = record {
  degree = indegree (edges rows rows);
  queue = filter (λ r. indegree (edges rows rows) r == 0) (refs rows);
  seen = [];
  ordered = [];
}

-- steps that are enough for the queue: one for each row and one for each edge
abbrev pub queue_fuel : List ImportRow → ℕ
queue_fuel rows = length rows + length (edges rows rows) + 1

-- `topologicalOrder`, with the rows that the queue left out at the end
unfoldable pub topological_order : ℕ → List ImportRow → Option (List ImportRow)
unfolding run_queue start_queue edges
topological_order fuel rows =
    bind_option (run_queue rows (edges rows rows) fuel (start_queue rows))
      (λ k. some (k.ordered ++ filter (λ r. not (mem_text r.row_ref k.seen)) rows))
