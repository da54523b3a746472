-- ===== src/Imports/Cycles/Following.antt =====
-- import-parse.service.ts `checkBatchLineage`: one round of the loop over the parents of a row.
use tftsp.Common.{
  ◌∙◌, ℕ, ◌≤◌, true, false, Option, none, some, List, [], ◌∷◌, ◌++◌, ◌≡◌, ◌⊎◌, inl, inr, refl, sym,
  subst, ap, ◌||◌, any-append, arith, Text, text_eq, is_some, Option-cases,
}
use tftsp.Imports.{RowWork}
use tftsp.Imports.Cycles.{Search, Colour, white, grey, black, mem_text, path_from, follow, visit}
use tftsp.Imports.Cycles.Paths.{
  row_under, find_ref-ref, Climbs-path_from, ParentOf, Linked, Linked-push, Linked-ParentOf,
  path_from-last,
}
use tftsp.Imports.Cycles.Invariant.{whites, Inv, Inv-flag, Grows, Grows-refl}

pub Colour-cases : (c : Colour) → (c ≡ white) ⊎ ((c ≡ grey) ⊎ (c ≡ black))
Colour-cases white = inl refl
Colour-cases grey = inr (inl refl)
Colour-cases black = inr (inr refl)

module _ (works : List RowWork) where
  -- a part of the search ends, keeps the invariant and settles a reference
  pub record Settles (r : Option Search) (path : List Text) (s : Search) (order : List Text)
      (Settled : Search → List Text → Type 0) : Type 0 where
    pub after : Search
    pub later : List Text
    pub ends : r ≡ some after
    pub inv : Inv works path after later
    pub grows : Grows works s order after later
    pub settled : Settled after later

  abbrev pub Visiting : ℕ → Type 0
  Visiting fuel =
      (node : RowWork)
      → row_under works node.row_ref ≡ some node
      → (path : List Text) (s : Search) (order : List Text) → Inv works path s order
      → Linked works (path ++ node.row_ref ∷ [])
      → s.colour node.row_ref ≡ white
      → whites s works ≤ fuel
      → Settles (visit works fuel node path s) path s order
          (λ s' order'. mem_text node.row_ref order' ≡ true)

  -- a parent that is there is done or the row is flagged
  abbrev pub Followed : Text → Option Text → Search → List Text → Type 0
  Followed r ref s order =
      (y : Text)
      → ref ≡ some y
      → is_some (row_under works y) ≡ true
      → (mem_text y order || mem_text r s.in_cycle) ≡ true

  module _ (r y : Text) (path : List Text) (s : Search) (order : List Text)
      (edge : ParentOf works r y) (i : Inv works (path ++ r ∷ []) s order)
      (l : Linked works (path ++ r ∷ [])) where
    -- a parent on the path closes a cycle
    follow_grey :
        s.colour y ≡ grey
        → Settles
            (some (record s { in_cycle = path_from y (path ++ r ∷ []) ++ s.in_cycle }))
            (path ++ r ∷ [])
            s
            order
            (Followed r (some y))
    follow_grey c = record {
      after = record s { in_cycle = path_from y (path ++ r ∷ []) ++ s.in_cycle };
      later = order;
      ends = refl;
      inv =
          Inv-flag works (path_from y (path ++ r ∷ [])) (Climbs-path_from works path r y l edge) i;
      grows = record {
        order_grows = λ u m. m;
        flags_grow = λ u m.
            ground
              (arith, m, any-append (λ t. text_eq t u) (path_from y (path ++ r ∷ [])) s.in_cycle);
        whites_fall = λ u e. e;
      };
      settled = λ z q m. ground (
        arith,
        path_from-last works y r path (i.grey_on y c),
        any-append (λ t. text_eq t r) (path_from y (path ++ r ∷ [])) s.in_cycle,
      );
    }

    follow_black :
        s.colour y ≡ black → Settles (some s) (path ++ r ∷ []) s order (Followed r (some y))
    follow_black c = record {
      after = s;
      later = order;
      ends = refl;
      inv = i;
      grows = Grows-refl works s order;
      settled = λ z q m.
          let same : y ≡ z = cc in
          let done = subst (λ v. mem_text v order ≡ true) same (i.black_done y c) in
          ground (arith, done);
    }

    follow_white :
        (fuel : ℕ)
        → Visiting fuel
        → whites s works ≤ fuel
        → s.colour y ≡ white
        → (parent : RowWork) → row_under works y ≡ some parent
        → parent.row_ref ≡ y
        → Settles
            (visit works fuel parent (path ++ r ∷ []) s)
            (path ++ r ∷ [])
            s
            order
            (Followed r (some y))
    follow_white fuel go w c parent e same =
        let linked : Linked works ((path ++ r ∷ []) ++ parent.row_ref ∷ []) =
          subst (λ v. Linked works ((path ++ r ∷ []) ++ v ∷ [])) (sym same)
            (Linked-push works (path ++ r ∷ []) y l (Linked-ParentOf works path r y l edge)) in
        let there : row_under works parent.row_ref ≡ some parent =
          subst (λ v. row_under works v ≡ some parent) (sym same) e in
        let colour : s.colour parent.row_ref ≡ white =
          subst (λ v. s.colour v ≡ white) (sym same) c in
        let v = go parent there (path ++ r ∷ []) s order i linked colour w in
        record {
          after = v.after;
          later = v.later;
          ends = v.ends;
          inv = v.inv;
          grows = v.grows;
          settled = λ z q m.
              let same' : parent.row_ref ≡ z = same ∙ cc in
              let done = subst (λ u. mem_text u v.later ≡ true) same' v.settled in
              ground (arith, done);
        }

  -- what a parent of each colour leads to
  abbrev pub by_colour : ℕ → List Text → RowWork → Search → Colour → Option Search
  by_colour fuel path parent s white = visit works fuel parent path s
  by_colour fuel path parent s grey =
      some (record s { in_cycle = path_from parent.row_ref path ++ s.in_cycle })
  by_colour fuel path parent s black = some s

  pub follow-by_colour :
      (fuel : ℕ) (y : Text) (path : List Text) (s : Search) (parent : RowWork) (c : Colour)
      → row_under works y ≡ some parent
      → s.colour parent.row_ref ≡ c
      → follow (visit works fuel) works path (some y) s ≡ by_colour fuel path parent s c
  unfolding follow
  follow-by_colour fuel y path s parent white e c = ground (arith, e, c)
  follow-by_colour fuel y path s parent grey e c = ground (arith, e, c)
  follow-by_colour fuel y path s parent black e c = ground (arith, e, c)

  pub follow-Settles :
      (fuel : ℕ)
      → Visiting fuel
      → (r : Text) (ref : Option Text) (path : List Text) (s : Search) (order : List Text)
      → ((y : Text) → ref ≡ some y → is_some (row_under works y) ≡ true → ParentOf works r y)
      → Inv works (path ++ r ∷ []) s order
      → Linked works (path ++ r ∷ [])
      → whites s works ≤ fuel
      → Settles
          (follow (visit works fuel) works (path ++ r ∷ []) ref s)
          (path ++ r ∷ [])
          s
          order
          (Followed r ref)
  unfolding follow
  follow-Settles fuel go r none path s order edge i l w = record {
    after = s;
    later = order;
    ends = refl;
    inv = i;
    grows = Grows-refl works s order;
    settled = λ y e. cc;
  }
  follow-Settles fuel go r (some y) path s order edge i l w =
      elim (Option-cases (row_under works y)) [
        | inl e ↦
            subst (λ o. Settles o (path ++ r ∷ []) s order (Followed r (some y)))
              (sym (ground (arith, e)))
              (record {
                after = s;
                later = order;
                ends = refl;
                inv = i;
                grows = Grows-refl works s order;
                settled = λ z q m. ground (
                  arith,
                  e,
                  ap (λ o. elim o [ none ↦ false | some v ↦ is_some (row_under works v) ]) q,
                  m,
                );
              })
        | inr (parent, e) ↦
            let same = find_ref-ref y works e in
            let up = edge y refl (ground (arith, e)) in
            let step = λ (c : Colour) (h : s.colour y ≡ c).
              sym (follow-by_colour fuel y (path ++ r ∷ []) s parent c e (ap s.colour same ∙ h)) in
            elim (Colour-cases (s.colour y)) [
              | inl c ↦
                  subst (λ o. Settles o (path ++ r ∷ []) s order (Followed r (some y)))
                    (step white c) (follow_white r y path s order up i l fuel go w c parent e same)
              | inr (inl c) ↦
                  subst (λ o. Settles o (path ++ r ∷ []) s order (Followed r (some y)))
                    (step grey c)
                    (subst
                      (λ v.
                        Settles
                          (some
                            (record s { in_cycle = path_from v (path ++ r ∷ []) ++ s.in_cycle }))
                          (path ++ r ∷ []) s order (Followed r (some y)))
                      (sym same) (follow_grey r y path s order up i l c))
              | inr (inr c) ↦
                  subst (λ o. Settles o (path ++ r ∷ []) s order (Followed r (some y)))
                    (step black c) (follow_black r y path s order up i l c)
            ]
      ]
