-- ===== src/Imports/Examples.antt =====
-- Runs of the import of a file with two rows, a son above his father.
use tftsp.Common.{ℕ, ◌≡◌, ◌<◌, true, none, some, List, [], ◌∷◌, arith, Text, text_eq, if◌then◌else◌}
use tftsp.Imports.{RowWork, ImportRow}
use tftsp.Imports.Samples.{son_ref, father_ref, raw_row, son_row, father_row}
use tftsp.Imports.Parsing.{ref_target}
use tftsp.Imports.Ordering.{topological_order, queue_fuel, row_of, edges, parent_refs}
use tftsp.Imports.Ordering.Edges.{has_edge}
use tftsp.Imports.Ordering.Parents.{ParentsFirst}
use tftsp.Imports.Ordering.Queue.{topological_order-ParentsFirst}

abbrev file_rows : List ImportRow
file_rows = son_row ∷ father_row ∷ []

abbrev generation : Text → ℕ
generation r = if text_eq r father_ref then 0 else 1

-- the only edge leads from the father to the son
falls : (q r : Text) → has_edge q r (edges file_rows file_rows) ≡ true → generation q < generation r
unfolding edges parent_refs ref_target
falls q r h = ground arith

topological_order-ParentsFirst_example :
    (ordered : List ImportRow) × (topological_order (queue_fuel file_rows) file_rows ≡ some ordered)
    × ParentsFirst file_rows [] ordered
    × ((r : Text) → row_of ordered r ≡ row_of file_rows r)
topological_order-ParentsFirst_example =
    topological_order-ParentsFirst file_rows generation falls (queue_fuel file_rows) (omega arith)

abbrev work : Text → Text → RowWork
work name father = record {
  row_number = 1;
  row_ref = name;
  raw = raw_row name none;
  errors = [];
  gender = none;
  clan = none;
  father_in_file = some father;
  mother_in_file = none;
  spouse_in_file = none;
  resolved_father = none;
  resolved_mother = none;
  resolved_spouse = none;
  duplicate_of = none;
}

-- two rows that are the father of each other
abbrev looped : List RowWork
looped = work son_ref father_ref ∷ work father_ref son_ref ∷ []
