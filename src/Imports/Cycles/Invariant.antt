-- ===== src/Imports/Cycles/Invariant.antt =====
-- import-parse.service.ts `checkBatchLineage`: what holds between two steps of the search, how many
-- rows are still white, and the two changes of a colour.
use tftsp.Common.{
  ℕ, ◌+◌, ◌≤◌, Bool, true, false, List, [], ◌∷◌, ◌++◌, ◌≡◌, inl, inr, refl, sym, subst, ◌||◌,
  any-append, arith, Text, text_eq, text_eq_iff, Bool-cases, is_some, if◌then◌else◌, Option-cases,
}
use tftsp.Imports.{RowWork}
use tftsp.Imports.Cycles.{Search, Colour, white, grey, black, set_colour, mem_text}
use tftsp.Imports.Cycles.Paths.{row_under, Text-cases, Climbs, ParentOf, Ordered, Ordered-mono}

abbrev is_white : Colour → Bool
is_white white = true
is_white _ = false

-- the rows whose reference is white
abbrev pub whites : Search → List RowWork → ℕ
whites s [] = 0
whites s (w ∷ works) = (if is_white (s.colour w.row_ref) then 1 else 0) + whites s works

pub whites-le :
    (s s' : Search) (works : List RowWork)
    → ((r : Text) → s'.colour r ≡ white → s.colour r ≡ white)
    → whites s' works ≤ whites s works
whites-le s s' [] fall = omega arith
whites-le s s' (w ∷ works) fall =
    elim (s'.colour w.row_ref)
        as (λ c.
          ((s'.colour w.row_ref ≡ c)
            → (if is_white c then 1 else 0) + whites s' works ≤ whites s (w ∷ works))) [
              | white ↦ λ e. ground (arith, fall w.row_ref e, whites-le s s' works fall)
              | grey ↦ λ e. ground (arith, whites-le s s' works fall)
              | black ↦ λ e. ground (arith, whites-le s s' works fall)
            ]
      refl

pub set_colour_fall :
    (s : Search) (r u : Text) → (set_colour r grey s).colour u ≡ white → s.colour u ≡ white
set_colour_fall s r u e = elim (Bool-cases (text_eq r u)) [
  | inl q ↦ ground (arith, q, e)
  | inr q ↦ ground (arith, q, e)
]

pub whites-set_colour :
    (s : Search) (r : Text) (works : List RowWork)
    → s.colour r ≡ white
    → is_some (row_under works r) ≡ true
    → whites (set_colour r grey s) works + 1 ≤ whites s works
whites-set_colour s r [] h m = cc
whites-set_colour s r (w ∷ works) h m = elim (Text-cases r w.row_ref) [
  | inl q ↦
      let here : s.colour w.row_ref ≡ white = subst (λ v. s.colour v ≡ white) q h in
      ground (
        arith,
        here,
        (text_eq_iff r w.row_ref).1 q,
        whites-le s (set_colour r grey s) works (set_colour_fall s r),
      )
  | inr q ↦
      let later : is_some (row_under works r) ≡ true = elim (Option-cases (row_under works r)) [
        | inl e ↦ elim (Text-cases w.row_ref r) [
          | inl f ↦ ground (arith, q, (text_eq_iff r w.row_ref).1 (sym f))
          | inr f ↦ ground (arith, e, f, m)
        ]
        | inr (v, e) ↦ ground (arith, e)
      ] in
      ground (arith, q, whites-set_colour s r works h later)
]

module _ (works : List RowWork) where
  -- what holds of a path, the search and the references in the order in which they became black
  pub record Inv (path : List Text) (s : Search) (order : List Text) : Type 0 where
    pub black_done : (r : Text) → s.colour r ≡ black → mem_text r order ≡ true
    pub done_black : (r : Text) → mem_text r order ≡ true → s.colour r ≡ black
    pub grey_on : (r : Text) → s.colour r ≡ grey → mem_text r path ≡ true
    pub on_grey : (r : Text) → mem_text r path ≡ true → s.colour r ≡ grey
    pub ordered : Ordered works s.in_cycle order
    pub loops : (r : Text) → mem_text r s.in_cycle ≡ true → Climbs works [] r r

  -- a step only adds to what is done and flagged
  pub record Grows (s : Search) (order : List Text) (s' : Search) (order' : List Text)
      : Type 0 where
    pub order_grows : (r : Text) → mem_text r order ≡ true → mem_text r order' ≡ true
    pub flags_grow : (r : Text) → mem_text r s.in_cycle ≡ true → mem_text r s'.in_cycle ≡ true
    pub whites_fall : (r : Text) → s'.colour r ≡ white → s.colour r ≡ white

  pub Grows-refl : (s : Search) (order : List Text) → Grows s order s order
  Grows-refl s order = record {
    order_grows = λ r m. m;
    flags_grow = λ r m. m;
    whites_fall = λ r m. m;
  }

  pub Grows-trans :
      {s s' s'' : Search} {order order' order'' : List Text}
      → Grows s order s' order'
      → Grows s' order' s'' order''
      → Grows s order s'' order''
  Grows-trans g h = record {
    order_grows = λ r m. h.order_grows r (g.order_grows r m);
    flags_grow = λ r m. h.flags_grow r (g.flags_grow r m);
    whites_fall = λ r m. g.whites_fall r (h.whites_fall r m);
  }

  -- `colour.set(ref, GREY); path.push(ref)`
  pub Inv-enter :
      {path : List Text} {s : Search} {order : List Text} (r : Text)
      → s.colour r ≡ white
      → Inv path s order
      → Inv (path ++ r ∷ []) (set_colour r grey s) order
  Inv-enter {path} {s} {order} r h i = record {
    black_done = λ u e. elim (Text-cases r u) [
      | inl q ↦ ground (arith, (text_eq_iff r u).1 q, e)
      | inr q ↦ i.black_done u (ground (arith, q, e))
    ];
    done_black = λ u m. elim (Text-cases r u) [
      | inl q ↦ ground (arith, i.done_black r (subst (λ v. mem_text v order ≡ true) (sym q) m), h)
      | inr q ↦ ground (arith, q, i.done_black u m)
    ];
    grey_on = λ u e. elim (Text-cases r u) [
      | inl q ↦ ground (arith, any-append (λ s. text_eq s u) path (r ∷ []), (text_eq_iff r u).1 q)
      | inr q ↦ ground (
        arith,
        any-append (λ s. text_eq s u) path (r ∷ []),
        q,
        i.grey_on u (ground (arith, q, e)),
      )
    ];
    on_grey = λ u m. elim (Text-cases r u) [
      | inl q ↦ ground (arith, (text_eq_iff r u).1 q)
      | inr q ↦
          let on_path : mem_text u path ≡ true =
            ground (arith, m, q, any-append (λ s. text_eq s u) path (r ∷ [])) in
          ground (arith, q, i.on_grey u on_path)
    ];
    ordered = i.ordered;
    loops = i.loops;
  }

  -- `path.pop(); colour.set(ref, BLACK)`
  pub Inv-leave :
      {path : List Text} {s : Search} {order : List Text} (r : Text)
      → mem_text r path ≡ false
      → ((y : Text) → ParentOf works r y → (mem_text y order || mem_text r s.in_cycle) ≡ true)
      → Inv (path ++ r ∷ []) s order
      → Inv path (set_colour r black s) (r ∷ order)
  Inv-leave {path} {s} {order} r off parents i = record {
    black_done = λ u e. elim (Text-cases r u) [
      | inl q ↦ ground (arith, (text_eq_iff r u).1 q)
      | inr q ↦ ground (arith, q, i.black_done u (ground (arith, q, e)))
    ];
    done_black = λ u m. elim (Text-cases r u) [
      | inl q ↦ ground (arith, (text_eq_iff r u).1 q)
      | inr q ↦ ground (arith, q, i.done_black u (ground (arith, q, m)))
    ];
    grey_on = λ u e. elim (Text-cases r u) [
      | inl q ↦ ground (arith, (text_eq_iff r u).1 q, e)
      | inr q ↦
          let on_path = i.grey_on u (ground (arith, q, e)) in
          ground (arith, on_path, q, any-append (λ s. text_eq s u) path (r ∷ []))
    ];
    on_grey = λ u m. elim (Text-cases r u) [
      | inl q ↦
          let on_path : mem_text r path ≡ true = subst (λ v. mem_text v path ≡ true) (sym q) m in cc
      | inr q ↦
          let longer : mem_text u (path ++ r ∷ []) ≡ true =
            ground (arith, m, any-append (λ s. text_eq s u) path (r ∷ [])) in
          ground (arith, q, i.on_grey u longer)
    ];
    ordered = (parents, i.ordered);
    loops = i.loops;
  }

  -- `path.slice(idx).forEach((ref) => inCycle.add(ref))`
  pub Inv-flag :
      {path : List Text} {s : Search} {order : List Text} (flags : List Text)
      → ((r : Text) → mem_text r flags ≡ true → Climbs works [] r r)
      → Inv path s order
      → Inv path (record s { in_cycle = flags ++ s.in_cycle }) order
  Inv-flag {path} {s} {order} flags looping i = record {
    black_done = i.black_done;
    done_black = i.done_black;
    grey_on = i.grey_on;
    on_grey = i.on_grey;
    ordered =
        Ordered-mono works s.in_cycle (flags ++ s.in_cycle) order
          (λ u m. ground (arith, m, any-append (λ s. text_eq s u) flags s.in_cycle)) i.ordered;
    loops = λ u m. elim (Bool-cases (mem_text u flags)) [
      | inl e ↦ looping u e
      | inr e ↦ i.loops u (ground (arith, m, e, any-append (λ s. text_eq s u) flags s.in_cycle))
    ];
  }
