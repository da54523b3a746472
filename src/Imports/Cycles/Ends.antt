-- ===== src/Imports/Cycles/Ends.antt =====
-- import-parse.service.ts `checkBatchLineage`: the fuel of the search, for rows of any references.
use tftsp.Common.{
  ℕ, zero, suc, ◌≤◌, true, Option, none, some, List, [], ◌∷◌, ◌++◌, ◌≡◌, inl, inr, refl, sym, subst,
  ap, arith, Text, text_eq, Bool-cases, is_some, Option-cases, length,
}
use tftsp.Imports.{RowWork}
use tftsp.Imports.Cycles.{
  Search, Colour, white, grey, black, set_colour, path_from, follow, visit, visit_all, start,
  check_batch_lineage, flag_rows,
}
use tftsp.Imports.Cycles.Paths.{row_under, find_ref-ref, text_eq_refl}
use tftsp.Imports.Cycles.Invariant.{whites, whites-le, whites-set_colour, set_colour_fall}
use tftsp.Imports.Cycles.Following.{Colour-cases, follow-by_colour}
use tftsp.Imports.Cycles.Visits.{run-visit, whites-start}

module _ (works : List RowWork) where
  -- a part of the search ends and makes no row white
  record Ends (r : Option Search) (s : Search) : Type 0 where
    pub after : Search
    pub ends : r ≡ some after
    pub fall : (u : Text) → after.colour u ≡ white → s.colour u ≡ white

  abbrev VisitEnds : ℕ → Type 0
  VisitEnds fuel =
      (node : RowWork)
      → is_some (row_under works node.row_ref) ≡ true
      → (path : List Text) (s : Search) → s.colour node.row_ref ≡ white
      → whites s works ≤ fuel
      → Ends (visit works fuel node path s) s

  stays : (s t : Search) → t.colour ≡ s.colour → Ends (some t) s
  stays s t same = record {
    after = t;
    ends = refl;
    fall = λ u e. subst (λ (f : Text → Colour). f u ≡ white) same e;
  }

  follow-Ends :
      (fuel : ℕ)
      → VisitEnds fuel
      → (ref : Option Text) (path : List Text) (s : Search) → whites s works ≤ fuel
      → Ends (follow (visit works fuel) works path ref s) s
  unfolding follow
  follow-Ends fuel go none path s w = stays s s refl
  follow-Ends fuel go (some y) path s w = elim (Option-cases (row_under works y)) [
    | inl e ↦ rw (e, follow) (stays s s refl)
    | inr (parent, e) ↦
        let same = find_ref-ref y works e in
        let there : is_some (row_under works parent.row_ref) ≡ true =
          subst (λ v. is_some (row_under works v) ≡ true) (sym same) (ap is_some e) in
        elim (Colour-cases (s.colour parent.row_ref)) [
          | inl c ↦
              subst (λ r. Ends r s) (sym (follow-by_colour works fuel y path s parent white e c))
                (go parent there path s c w)
          | inr (inl c) ↦
              subst (λ r. Ends r s) (sym (follow-by_colour works fuel y path s parent grey e c))
                (stays s (record s { in_cycle = path_from parent.row_ref path ++ s.in_cycle }) refl)
          | inr (inr c) ↦
              subst (λ r. Ends r s) (sym (follow-by_colour works fuel y path s parent black e c))
                (stays s s refl)
        ]
  ]

  black_fall :
      (s : Search) (r u : Text) → (set_colour r black s).colour u ≡ white → s.colour u ≡ white
  black_fall s r u e = elim (Bool-cases (text_eq r u)) [
    | inl q ↦ ground (arith, q, e)
    | inr q ↦ ground (arith, q, e)
  ]

  visit-Ends : (fuel : ℕ) → VisitEnds fuel
  visit-Ends zero node there path s c w =
      absurd (omega (arith, whites-set_colour s node.row_ref works c there))
  visit-Ends (suc fuel) node there path s c w =
      let fewer = whites-set_colour s node.row_ref works c there in
      let s₀ = set_colour node.row_ref grey s in
      let f =
        follow-Ends fuel (visit-Ends fuel) node.father_in_file (path ++ node.row_ref ∷ []) s₀
          (omega arith) in
      let falls = whites-le s₀ f.after works f.fall in
      let m =
        follow-Ends fuel (visit-Ends fuel) node.mother_in_file (path ++ node.row_ref ∷ []) f.after
          (omega arith) in
      record {
        after = set_colour node.row_ref black m.after;
        ends = run-visit works fuel node path s f.ends m.ends;
        fall = λ u e.
            set_colour_fall s node.row_ref u
              (f.fall u (m.fall u (black_fall m.after node.row_ref u e)));
      }

  abbrev AllFound : List RowWork → Type 0
  AllFound [] = Unit {0}
  AllFound (w ∷ rest) = (is_some (row_under works w.row_ref) ≡ true) × AllFound rest

  visit_all-Ends :
      (fuel : ℕ) (rest : List RowWork)
      → AllFound rest
      → (s : Search) → whites s works ≤ fuel
      → Ends (visit_all works fuel rest s) s
  unfolding visit_all
  visit_all-Ends fuel [] found s w = stays s s refl
  visit_all-Ends fuel (v ∷ rest) (there, found) s w = elim (Colour-cases (s.colour v.row_ref)) [
    | inl c ↦
        let first = visit-Ends fuel v there [] s c w in
        let falls = whites-le s first.after works first.fall in
        let later = visit_all-Ends fuel rest found first.after (omega arith) in
        record {
          after = later.after;
          ends = ground (arith, c, first.ends, later.ends);
          fall = λ u e. first.fall u (later.fall u e);
        }
    | inr (inl c) ↦ rw (c, visit_all) (visit_all-Ends fuel rest found s w)
    | inr (inr c) ↦ rw (c, visit_all) (visit_all-Ends fuel rest found s w)
  ]

found_here :
    (w : RowWork) (works : List RowWork) (r : Text)
    → is_some (row_under works r) ≡ true
    → is_some (row_under (w ∷ works) r) ≡ true
found_here w works r h = elim (Option-cases (row_under works r)) [
  | inl e ↦ cc
  | inr (v, e) ↦ ground (arith, e)
]

found_self : (w : RowWork) (works : List RowWork) → is_some (row_under (w ∷ works) w.row_ref) ≡ true
found_self w works = elim (Option-cases (row_under works w.row_ref)) [
  | inl e ↦ ground (arith, e, text_eq_refl w.row_ref)
  | inr (v, e) ↦ ground (arith, e)
]

AllFound-cons :
    (w : RowWork) (works rest : List RowWork) → AllFound works rest → AllFound (w ∷ works) rest
AllFound-cons w works [] f = tt
AllFound-cons w works (v ∷ rest) (h, f) =
    (found_here w works v.row_ref h, AllFound-cons w works rest f)

AllFound-self : (works : List RowWork) → AllFound works works
AllFound-self [] = tt
AllFound-self (w ∷ works) = (found_self w works, AllFound-cons w works works (AllFound-self works))

-- The check ends with the number of the rows as fuel.
pub check_batch_lineage-ends :
    (works : List RowWork)
    → (flagged : List Text) × (check_batch_lineage (length works) works
        ≡ some (flag_rows flagged works))
unfolding check_batch_lineage
check_batch_lineage-ends works =
    let all_white = whites-start works works in
    let v = visit_all-Ends works (length works) works (AllFound-self works) start (omega arith) in
    (v.after.in_cycle, rw v.ends refl)
