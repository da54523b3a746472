-- ===== src/Imports/Ordering/Parents.antt =====
-- import-apply.service.ts `topologicalOrder`: lists of rows in which parents come first.
use tftsp.Common.{
  filter, ◌∙◌, ◌≡◌, inl, inr, refl, sym, subst, ap, Bool, true, false, Option, none, some, List, [],
  ◌∷◌, ◌++◌, ◌||◌, ◌&&◌, any-append, arith, Text, text_eq, text_eq_iff, Bool-cases, Option-cases,
  is_some, if◌then◌else◌,
}
use tftsp.Imports.{ImportRow}
use tftsp.Imports.Parsing.{cell, ref_target}
use tftsp.Imports.Cycles.{mem_text, bind_option}
use tftsp.Imports.Cycles.Paths.{Text-cases, text_eq_refl}
use tftsp.Imports.Ordering.{children, ref_in_file, row_of, refs, edges, edges_to, parent_refs}
use tftsp.Imports.Ordering.Edges.{has_edge}

-- each row stands after its parents in the file, and no reference stands twice
abbrev pub ParentsFirst : List ImportRow → List Text → List ImportRow → Type 0
ParentsFirst rows before [] = Unit {0}
ParentsFirst rows before (w ∷ ws) =
    (mem_text w.row_ref before ≡ false)
    × ((q : Text) → mem_text q (parent_refs rows w) ≡ true → mem_text q before ≡ true)
    × ParentsFirst rows (w.row_ref ∷ before) ws

pub ParentsFirst-push :
    (rows : List ImportRow) (before : List Text) (ws : List ImportRow) (w : ImportRow)
    → mem_text w.row_ref before ≡ false
    → mem_text w.row_ref (refs ws) ≡ false
    → ((q : Text)
        → mem_text q (parent_refs rows w) ≡ true
        → (mem_text q before || mem_text q (refs ws)) ≡ true)
    → ParentsFirst rows before ws
    → ParentsFirst rows before (ws ++ w ∷ [])
ParentsFirst-push rows before [] w new new' parents p =
    (new, (λ q m. ground (arith, parents q m)), tt)
ParentsFirst-push rows before (v ∷ ws) w new new' parents (fresh, early, p) = (
  fresh,
  early,
  ParentsFirst-push rows (v.row_ref ∷ before) ws w (ground (arith, new, new'))
      (ground (arith, new')) (λ q m. ground (arith, parents q m)) p,
)

pub has_edge-edges_to :
    (c q : Text) (parents : List Text)
    → mem_text q parents ≡ true
    → has_edge q c (edges_to c parents) ≡ true
has_edge-edges_to c q [] m = cc
has_edge-edges_to c q (p ∷ parents) m =
    ground (arith, text_eq_refl c, has_edge-edges_to c q parents)

if_some :
    {A : Type 0} (b : Bool) (x : A) {y : A}
    → (if b then some x else none) ≡ some y
    → (b ≡ true) × (x ≡ y)
if_some true x e = (refl, cc)
if_some false x e = cc

-- an edge from each parent of a row
pub has_edge-edges :
    (all_rows rows : List ImportRow) (r : Text) {w : ImportRow} (q : Text)
    → row_of rows r ≡ some w
    → mem_text q (parent_refs all_rows w) ≡ true
    → has_edge q r (edges all_rows rows) ≡ true
unfolding edges
has_edge-edges all_rows [] r q e m = cc
has_edge-edges all_rows (v ∷ rows) r {w} q e m = elim (Option-cases (row_of rows r)) [
  | inl none_later ↦
      let found : (if text_eq v.row_ref r then some v else none) ≡ some w =
        ground (arith, none_later, e) in
      let (named, same) = if_some (text_eq v.row_ref r) v found in
      let mine : mem_text q (parent_refs all_rows v) ≡ true =
        subst (λ (u : ImportRow). mem_text q (parent_refs all_rows u) ≡ true) (sym same) m in
      let edge = has_edge-edges_to v.row_ref q (parent_refs all_rows v) mine in
      let edge' =
        subst (λ u. has_edge q u (edges_to v.row_ref (parent_refs all_rows v)) ≡ true)
          ((text_eq_iff v.row_ref r).0 named) edge in
      ground (
        arith,
        edge',
        any-append (λ e. text_eq e.0 q && text_eq e.1 r)
            (edges_to v.row_ref (parent_refs all_rows v)) (edges all_rows rows),
      )
  | inr (later, f) ↦ ground (
    arith,
    any-append (λ e. text_eq e.0 q && text_eq e.1 r) (edges_to v.row_ref (parent_refs all_rows v))
        (edges all_rows rows),
    has_edge-edges all_rows rows r {w = w} q (ground (arith, e, f)) m,
  )
]

mem-ref_in_file :
    (rows : List ImportRow) (value : Option Text) (q : Text)
    → mem_text q (ref_in_file rows value) ≡ true
    → is_some (row_of rows q) ≡ true
mem-ref_in_file rows value q m = go (bind_option (cell value) ref_target) m
  where
    go :
        (o : Option Text)
        → mem_text q (elim o [
          | none ↦ []
          | some target ↦ if is_some (row_of rows target) then target ∷ [] else []
        ])
          ≡ true
        → is_some (row_of rows q) ≡ true
    go none h = cc
    go (some target) h = elim (Bool-cases (is_some (row_of rows target))) [
      | inl e ↦
          let same : target ≡ q = (text_eq_iff target q).0 (ground (arith, e, h)) in
          subst (λ u. is_some (row_of rows u) ≡ true) same e
      | inr e ↦ ground (arith, e, h)
    ]

mem-parent_refs :
    (rows : List ImportRow) (w : ImportRow) (q : Text)
    → mem_text q (parent_refs rows w) ≡ true
    → is_some (row_of rows q) ≡ true
unfolding parent_refs
mem-parent_refs rows w q m = elim (Bool-cases (mem_text q (ref_in_file rows w.raw.father_ref))) [
  | inl e ↦ mem-ref_in_file rows w.raw.father_ref q e
  | inr e ↦ mem-ref_in_file rows w.raw.mother_ref q (
      ground (
        arith,
        e,
        m,
        any-append (λ s. text_eq s q) (ref_in_file rows w.raw.father_ref)
            (ref_in_file rows w.raw.mother_ref),
      ))
]

edges_to-mem :
    (c q r : Text) (parents : List Text)
    → has_edge q r (edges_to c parents) ≡ true
    → mem_text q parents ≡ true
edges_to-mem c q r [] h = cc
edges_to-mem c q r (p ∷ parents) h = ground (arith, h, edges_to-mem c q r parents)

-- an edge comes from a row of the file
pub has_edge-there :
    (all_rows rows : List ImportRow) (q r : Text)
    → has_edge q r (edges all_rows rows) ≡ true
    → is_some (row_of all_rows q) ≡ true
unfolding edges
has_edge-there all_rows [] q r h = cc
has_edge-there all_rows (v ∷ rows) q r h =
    elim (Bool-cases (has_edge q r (edges_to v.row_ref (parent_refs all_rows v)))) [
      | inl e ↦ mem-parent_refs all_rows v q (edges_to-mem v.row_ref q r (parent_refs all_rows v) e)
      | inr e ↦ has_edge-there all_rows rows q r (
          ground (
            arith,
            h,
            e,
            any-append (λ e. text_eq e.0 q && text_eq e.1 r)
                (edges_to v.row_ref (parent_refs all_rows v)) (edges all_rows rows),
          ))
    ]

edges_to-child :
    (c p r : Text) (parents : List Text)
    → mem_text r (children (edges_to c parents) p) ≡ true
    → text_eq c r ≡ true
unfolding children
edges_to-child c p r [] m = cc
edges_to-child c p r (q ∷ parents) m = ground (arith, m, edges_to-child c p r parents)

children-append :
    (es fs : List (Text × Text)) (p : Text) → children (es ++ fs) p ≡ children es p ++ children fs p
unfolding children
children-append [] fs p = refl
children-append ((q, c) ∷ es) fs p = ground (arith, children-append es fs p)

pub find_ref-there :
    (rows : List ImportRow) (v : ImportRow) (r : Text)
    → text_eq v.row_ref r ≡ true
    → is_some (row_of (v ∷ rows) r) ≡ true
find_ref-there rows v r e = ground (arith, e)

-- a child is a row of the file
pub children-there :
    (all_rows rows : List ImportRow) (p r : Text)
    → mem_text r (children (edges all_rows rows) p) ≡ true
    → is_some (row_of rows r) ≡ true
unfolding edges children
children-there all_rows [] p r m = cc
children-there all_rows (v ∷ rows) p r m =
    let own = edges_to v.row_ref (parent_refs all_rows v) in
    elim (Bool-cases (mem_text r (children own p))) [
      | inl e ↦ find_ref-there rows v r (edges_to-child v.row_ref p r (parent_refs all_rows v) e)
      | inr e ↦
          let later : mem_text r (children (edges all_rows rows) p) ≡ true = ground (
            arith,
            m,
            e,
            ap (λ l. mem_text r l) (children-append own (edges all_rows rows) p),
            any-append (λ s. text_eq s r) (children own p) (children (edges all_rows rows) p),
          ) in
          ground (arith, children-there all_rows rows p r later)
    ]

pub refs-push :
    (ws : List ImportRow) (w : ImportRow) (r : Text)
    → mem_text r (refs (ws ++ w ∷ [])) ≡ (mem_text r (refs ws) || text_eq w.row_ref r)
refs-push [] w r = ground arith
refs-push (v ∷ ws) w r = ground (arith, refs-push ws w r)

pub row_of-push :
    (ws : List ImportRow) (w : ImportRow) (r : Text)
    → text_eq w.row_ref r ≡ false
    → row_of (ws ++ w ∷ []) r ≡ row_of ws r
row_of-push [] w r e = ground (arith, e)
row_of-push (v ∷ ws) w r e = ground (arith, row_of-push ws w r e)

pub row_of-push_self :
    (ws : List ImportRow) (w : ImportRow) → row_of (ws ++ w ∷ []) w.row_ref ≡ some w
row_of-push_self [] w = ground (arith, text_eq_refl w.row_ref)
row_of-push_self (v ∷ ws) w = ground (arith, row_of-push_self ws w)

pub row_of-ref :
    (rows : List ImportRow) (r : Text) {w : ImportRow} → row_of rows r ≡ some w → w.row_ref ≡ r
row_of-ref [] r e = cc
row_of-ref (v ∷ rows) r {w} e = elim (Option-cases (row_of rows r)) [
  | inl f ↦
      let found : (if text_eq v.row_ref r then some v else none) ≡ some w = ground (arith, f, e) in
      let (named, same) = if_some (text_eq v.row_ref r) v found in
      sym (ap (λ (u : ImportRow). u.row_ref) same) ∙ (text_eq_iff v.row_ref r).0 named
  | inr (later, f) ↦ row_of-ref rows r {w = w} (ground (arith, e, f))
]

pub mem-refs : (ws : List ImportRow) (r : Text) → mem_text r (refs ws) ≡ is_some (row_of ws r)
mem-refs [] r = refl
mem-refs (v ∷ ws) r = ground (arith, mem-refs ws r)

pub mem-filter :
    (p : Text → Bool) (xs : List Text) (r : Text)
    → mem_text r (filter p xs) ≡ (p r && mem_text r xs)
mem-filter p [] r = ground arith
mem-filter p (x ∷ xs) r = elim (Text-cases x r) [
  | inl e ↦ ground (arith, mem-filter p xs r, ap p e, (text_eq_iff x r).1 e)
  | inr e ↦ ground (arith, mem-filter p xs r, e)
]
