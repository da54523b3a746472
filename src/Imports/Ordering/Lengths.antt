-- ===== src/Imports/Ordering/Lengths.antt =====
-- import-apply.service.ts `topologicalOrder`: the order against the number of rows.
use tftsp.Common.{
  ℕ, ◌+◌, ◌≡◌, inl, inr, refl, sym, subst, ap, ◌∙◌, true, false, not, some, List, [], ◌∷◌, ◌++◌,
  ◌||◌, arith, Text, text_eq, text_eq_iff, is_some, length, length-append, filter, Bool-cases,
}
use tftsp.Imports.{ImportRow}
use tftsp.Imports.Cycles.{mem_text}
use tftsp.Imports.Cycles.Paths.{Text-cases}
use tftsp.Imports.Ordering.{refs, start_queue, queue_fuel, topological_order}
use tftsp.Imports.Ordering.Parents.{ParentsFirst, mem-refs}
use tftsp.Imports.Ordering.Emptying.{run_queue-Runs, start-Inv}
use tftsp.Imports.Ordering.Queue.{start-work}

-- no two rows have the same reference
abbrev pub NoRepeat : List ImportRow → Type 0
NoRepeat [] = Unit {0}
NoRepeat (w ∷ ws) = (mem_text w.row_ref (refs ws) ≡ false) × NoRepeat ws

-- the rows with one of the references
abbrev among : List Text → List ImportRow → ℕ
among rs rows = length (filter (λ (w : ImportRow). mem_text w.row_ref rs) rows)

among-absent :
    (r : Text) (rs : List Text) (rows : List ImportRow)
    → mem_text r (refs rows) ≡ false
    → among (r ∷ rs) rows ≡ among rs rows
among-absent r rs [] m = refl
among-absent r rs (w ∷ rows) m = elim (Text-cases r w.row_ref) [
  | inl e ↦ let same = (text_eq_iff w.row_ref r).1 (sym e) in ground (arith, m, same)
  | inr e ↦
      let rest : mem_text r (refs rows) ≡ false = ground (arith, m) in
      ground (arith, e, among-absent r rs rows rest)
]

among-new :
    (r : Text) (rs : List Text) (rows : List ImportRow)
    → NoRepeat rows
    → mem_text r rs ≡ false
    → mem_text r (refs rows) ≡ true
    → among (r ∷ rs) rows ≡ among rs rows + 1
among-new r rs [] d n m = cc
among-new r rs (w ∷ rows) (fresh, d) n m = elim (Text-cases r w.row_ref) [
  | inl e ↦
      let absent : mem_text r (refs rows) ≡ false =
        subst (λ v. mem_text v (refs rows) ≡ false) (sym e) fresh in
      let old : mem_text w.row_ref rs ≡ false = subst (λ v. mem_text v rs ≡ false) e n in
      let here = (text_eq_iff r w.row_ref).1 e in
      ground (arith, old, here, among-absent r rs rows absent)
  | inr e ↦
      let other : text_eq w.row_ref r ≡ false = elim (Bool-cases (text_eq w.row_ref r)) [
        | inl f ↦ let back = (text_eq_iff r w.row_ref).1 (sym ((text_eq_iff w.row_ref r).0 f)) in cc
        | inr f ↦ f
      ] in
      let rest : mem_text r (refs rows) ≡ true = ground (arith, m, other) in
      ground (arith, e, among-new r rs rows d n rest)
]

-- the references of a list of rows, put before others one by one
abbrev gathered : List Text → List ImportRow → List Text
gathered rs [] = rs
gathered rs (w ∷ ws) = gathered (w.row_ref ∷ rs) ws

mem-gathered :
    (r : Text) (rs : List Text) (ws : List ImportRow)
    → mem_text r (gathered rs ws) ≡ (mem_text r rs || mem_text r (refs ws))
mem-gathered r rs [] = ground arith
mem-gathered r rs (w ∷ ws) = ground (arith, mem-gathered r (w.row_ref ∷ rs) ws)

among-gathered :
    (rows : List ImportRow)
    → NoRepeat rows
    → (rs : List Text) (ws : List ImportRow) → ParentsFirst rows rs ws
    → ((r : Text) → mem_text r (refs ws) ≡ true → mem_text r (refs rows) ≡ true)
    → among (gathered rs ws) rows ≡ among rs rows + length ws
among-gathered rows d rs [] p known = omega arith
among-gathered rows d rs (w ∷ ws) (new, early, p) known =
    let here = known w.row_ref (ground (arith, (text_eq_iff w.row_ref w.row_ref).1 refl)) in
    omega (
      arith,
      among-gathered rows d (w.row_ref ∷ rs) ws p (λ r m. known r (ground (arith, m))),
      among-new w.row_ref rs rows d new here,
    )

among-same :
    (rs qs : List Text) (rows : List ImportRow)
    → ((r : Text) → mem_text r rs ≡ mem_text r qs)
    → among rs rows ≡ among qs rows
among-same rs qs [] h = refl
among-same rs qs (w ∷ rows) h = ground (arith, h w.row_ref, among-same rs qs rows h)

among-rest :
    (rs : List Text) (rows : List ImportRow)
    → among rs rows + length (filter (λ (w : ImportRow). not (mem_text w.row_ref rs)) rows)
      ≡ length rows
among-rest rs [] = refl
among-rest rs (w ∷ rows) = ground (arith, among-rest rs rows)

-- an order is always found, and where no two rows have the same reference it is as long as the rows
pub topological_order-length :
    (rows : List ImportRow)
    → NoRepeat rows
    → (ordered : List ImportRow) × (topological_order (queue_fuel rows) rows ≡ some ordered)
      × (length ordered ≡ length rows)
unfolding topological_order
topological_order-length rows d =
    let run =
      run_queue-Runs rows (queue_fuel rows) (start_queue rows) (start-Inv rows) (start-work rows) in
    let k = run.last in
    let rest = filter (λ (w : ImportRow). not (mem_text w.row_ref k.seen)) rows in
    let known = λ (r : Text) (m : mem_text r (refs k.ordered) ≡ true).
      mem-refs rows r
      ∙ (ap is_some (sym (run.inv.same_rows r m)) ∙ (sym (mem-refs k.ordered r) ∙ m)) in
    let all = among-gathered rows d [] k.ordered run.inv.first known in
    let same =
      among-same k.seen (gathered [] k.ordered) rows
        (λ r. run.inv.seen_rows r ∙ sym (mem-gathered r [] k.ordered)) in
    (
      k.ordered ++ rest,
      rw run.ends refl,
      omega
          (arith, length-append k.ordered rest, all, same, among-rest k.seen rows, none_among rows),
    )
  where
    none_among : (rows : List ImportRow) → among [] rows ≡ 0
    none_among [] = refl
    none_among (w ∷ rows) = none_among rows
