-- ===== src/Imports/Cycles/Visits.antt =====
-- import-parse.service.ts `checkBatchLineage`: the visit of a row, the loop over the rows, and the
-- whole check.
use tftsp.Common.{ℕ, suc, some, List, [], ◌∷◌, ◌++◌, ◌≡◌, refl, arith, Text, length}
use tftsp.Imports.{RowWork}
use tftsp.Imports.Cycles.{Search, grey, black, set_colour, follow, visit, start}
use tftsp.Imports.Cycles.Paths.{row_under}
use tftsp.Imports.Cycles.Invariant.{whites}

module _ (works : List RowWork) where
  pub run-visit :
      (fuel : ℕ) (node : RowWork) (path : List Text) (s : Search) {s' s'' : Search}
      → follow
          (visit works fuel)
          works
          (path ++ node.row_ref ∷ [])
          node.father_in_file
          (set_colour node.row_ref grey s)
        ≡ some s'
      → follow (visit works fuel) works (path ++ node.row_ref ∷ []) node.mother_in_file s'
        ≡ some s''
      → visit works (suc fuel) node path s ≡ some (set_colour node.row_ref black s'')
  unfolding visit
  run-visit fuel node path s e f = rw e (rw f refl)

  abbrev pub AllThere : List RowWork → Type 0
  AllThere [] = Unit {0}
  AllThere (w ∷ rest) = (row_under works w.row_ref ≡ some w) × AllThere rest

  pub whites-start : (rows : List RowWork) → whites start rows ≡ length rows
  whites-start [] = refl
  whites-start (w ∷ rows) = omega (arith, whites-start rows)
