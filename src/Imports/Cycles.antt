-- ===== src/Imports/Cycles.antt =====
-- import-parse.service.ts `checkBatchLineage`: a depth-first search in three colours over the parents
-- in the file, which flags the rows of each cycle that it closes.
use tftsp.Common.{
  ℕ, zero, suc, Bool, true, false, Option, none, some, List, [], ◌∷◌, ◌++◌, any, if◌then◌else◌,
  Text, text_eq, length,
}
use tftsp.Imports.{RowWork, RowError, Column, RowErrorKey, find_ref}
use tftsp.Imports.Resolving.{push_error}
pub mod Ends
pub mod Following
pub mod Invariant
pub mod Paths
pub mod Visits

pub data Colour : Type 0 where
  white grey black : Colour

-- the `colour` and the `inCycle` of the search
pub record Search : Type 0 where
  pub colour : Text → Colour
  pub in_cycle : List Text

abbrev pub mem_text : Text → List Text → Bool
mem_text r refs = any (λ s. text_eq s r) refs

abbrev pub set_colour : Text → Colour → Search → Search
set_colour r c s = record s { colour = λ r'. if text_eq r r' then c else s.colour r' }

-- `path.slice(path.indexOf(ref))`, of a reference that is on the path
abbrev pub path_from : Text → List Text → List Text
path_from r [] = []
path_from r (x ∷ path) = let rest = path_from r path in if text_eq x r then x ∷ path else rest

-- the row under a reference, `byRef.get(ref)` for a reference that may be missing
abbrev pub parent_row : List RowWork → Option Text → Option RowWork
parent_row works none = none
parent_row works (some r) = find_ref (λ (w : RowWork). w.row_ref) r works

-- one round of the loop over the parents of a row
unfoldable pub follow :
    (RowWork → List Text → Search → Option Search)
    → List RowWork
    → List Text
    → Option Text
    → Search
    → Option Search
follow go works path ref s = elim (parent_row works ref) [
  | none ↦ some s
  | some parent ↦ elim (s.colour parent.row_ref) [
    | white ↦ go parent path s
    | grey ↦ some (record s { in_cycle = path_from parent.row_ref path ++ s.in_cycle })
    | black ↦ some s
  ]
]

abbrev pub bind_option : {A B : Type 0} → Option A → (A → Option B) → Option B
bind_option none f = none
bind_option (some a) f = f a

-- `visit`; `none` where the fuel runs out
unfoldable pub visit : List RowWork → ℕ → RowWork → List Text → Search → Option Search
unfolding follow
visit works zero node path s = none
visit works (suc fuel) node path s =
    let path' = path ++ node.row_ref ∷ [] in
    let go = visit works fuel in
    bind_option (follow go works path' node.father_in_file (set_colour node.row_ref grey s)) λ s₁.
      bind_option (follow go works path' node.mother_in_file s₁)
        λ s₂. some (set_colour node.row_ref black s₂)

-- the loop over the rows
unfoldable pub visit_all : List RowWork → ℕ → List RowWork → Search → Option Search
unfolding visit
visit_all works fuel [] s = some s
visit_all works fuel (w ∷ rest) s = elim (s.colour w.row_ref) [
  | white ↦ bind_option (visit works fuel w [] s) (visit_all works fuel rest)
  | grey ↦ visit_all works fuel rest s
  | black ↦ visit_all works fuel rest s
]

abbrev pub start : Search
start = record { colour = λ r. white; in_cycle = [] }

abbrev pub flag_rows : List Text → List RowWork → List RowWork
flag_rows in_cycle [] = []
flag_rows in_cycle (w ∷ works) =
    (if mem_text w.row_ref in_cycle then push_error Column.father_column RowErrorKey.cycle w else w)
    ∷ flag_rows in_cycle works

-- `checkBatchLineage`
unfoldable pub check_batch_lineage : ℕ → List RowWork → Option (List RowWork)
unfolding visit_all
check_batch_lineage fuel works =
    bind_option (visit_all works fuel works start) (λ s. some (flag_rows s.in_cycle works))
