-- ===== src/Imports/Cycles/Paths.antt =====
-- import-parse.service.ts `checkBatchLineage`: chains of parents in the file, and the paths that the
-- search walks along them.
use tftsp.Common.{
  ◌∙◌, true, false, Option, some, List, [], ◌∷◌, ◌++◌, ◌≡◌, ◌⊎◌, inl, inr, refl, sym, subst, ◌||◌,
  any-append, arith, Text, text_eq, text_eq_iff, Bool-cases, is_some, Option-cases,
}
use tftsp.Imports.{RowWork, find_ref}
use tftsp.Imports.Cycles.{mem_text, path_from}

abbrev pub row_under : List RowWork → Text → Option RowWork
row_under works r = find_ref (λ (w : RowWork). w.row_ref) r works

-- the second is the father or the mother in the file of the first
pub record ParentOf (works : List RowWork) (x y : Text) : Type 0 where
  pub child : RowWork
  pub child_row : row_under works x ≡ some child
  pub parent_named : (child.father_in_file ≡ some y) ⊎ (child.mother_in_file ≡ some y)
  pub parent_there : is_some (row_under works y) ≡ true

-- the second is above the first, along rows that are not among the given ones
pub data Climbs (works : List RowWork) (outside : List Text) : Text → Text → Type 0 where
  one : {x y : Text} → mem_text x outside ≡ false → ParentOf works x y → Climbs works outside x y
  more :
      {x y z : Text}
      → mem_text x outside ≡ false
      → ParentOf works x y
      → Climbs works outside y z
      → Climbs works outside x z

pub Climbs-trans :
    {works : List RowWork} {outside : List Text} {x y z : Text}
    → Climbs works outside x y
    → Climbs works outside y z
    → Climbs works outside x z
Climbs-trans (one h p) d = more h p d
Climbs-trans (more h p c) d = more h p (Climbs-trans c d)

pub Climbs-there :
    {works : List RowWork} {outside : List Text} {x y : Text}
    → Climbs works outside x y
    → is_some (row_under works x) ≡ true
Climbs-there (one h p) = ground (arith, p.child_row)
Climbs-there (more h p c) = ground (arith, p.child_row)

pub Text-cases : (a b : Text) → (a ≡ b) ⊎ (text_eq a b ≡ false)
Text-cases a b = elim (Bool-cases (text_eq a b)) [
  | inl e ↦ inl ((text_eq_iff a b).0 e)
  | inr e ↦ inr e
]

pub text_eq_refl : (a : Text) → text_eq a a ≡ true
text_eq_refl a = (text_eq_iff a a).1 refl

pub find_ref-ref :
    (r : Text) (works : List RowWork) {w : RowWork} → row_under works r ≡ some w → w.row_ref ≡ r
find_ref-ref r [] h = cc
find_ref-ref r (v ∷ works) {w} h = elim (Option-cases (row_under works r)) [
  | inl e ↦ ground (arith, e, h, text_eq_iff v.row_ref r)
  | inr (later, e) ↦ find_ref-ref r works {w = w} (ground (arith, e, h))
]

module _ (works : List RowWork) where
  -- each reference of the path is below the later ones
  abbrev pub Linked : List Text → Type 0
  Linked [] = Unit {0}
  Linked (r ∷ path) = ((u : Text) → mem_text u path ≡ true → Climbs works [] r u) × Linked path

  pub Linked-push :
      (path : List Text) (z : Text)
      → Linked path
      → ((r : Text) → mem_text r path ≡ true → Climbs works [] r z)
      → Linked (path ++ z ∷ [])
  Linked-push [] z l below = (λ u m. cc, tt)
  Linked-push (r ∷ path) z (l, ls) below = (
    λ u m. elim (Bool-cases (mem_text u path)) [
      | inl e ↦ l u e
      | inr e ↦
          let here : text_eq z u ≡ true =
            ground (arith, e, m, any-append (λ s. text_eq s u) path (z ∷ [])) in
          subst (λ v. Climbs works [] r v) ((text_eq_iff z u).0 here)
            (below r (ground (arith, text_eq_refl r)))
    ],
    Linked-push path z ls (λ u m. below u (ground (arith, m))),
  )

  -- each reference of the path is below its last one
  pub Linked-last :
      (path : List Text) (z : Text)
      → Linked (path ++ z ∷ [])
      → (r : Text) → mem_text r path ≡ true
      → Climbs works [] r z
  Linked-last [] z l r m = cc
  Linked-last (x ∷ path) z (l, ls) r m = elim (Text-cases x r) [
    | inl e ↦
        let last : mem_text z (path ++ z ∷ []) ≡ true =
          ground (arith, text_eq_refl z, any-append (λ s. text_eq s z) path (z ∷ [])) in
        subst (λ v. Climbs works [] v z) e (l z last)
    | inr e ↦ Linked-last path z ls r (ground (arith, e, m))
  ]

  -- the part of a path from a reference is that reference and what it is below
  Linked-path_from :
      (y : Text) (path : List Text)
      → Linked path
      → (u : Text) → mem_text u (path_from y path) ≡ true
      → (u ≡ y) ⊎ Climbs works [] y u
  Linked-path_from y [] l u m = cc
  Linked-path_from y (x ∷ path) (l, ls) u m = elim (Text-cases x y) [
    | inl e ↦
        let same = (text_eq_iff x y).1 e in
        elim (Text-cases x u) [
          | inl f ↦ inl (sym f ∙ e)
          | inr f ↦ inr (subst (λ v. Climbs works [] v u) e (l u (ground (arith, same, f, m))))
        ]
    | inr e ↦ Linked-path_from y path ls u (ground (arith, e, m))
  ]

  mem-path_from :
      (y u : Text) (path : List Text)
      → mem_text u (path_from y path) ≡ true
      → mem_text u path ≡ true
  mem-path_from y u [] m = m
  mem-path_from y u (x ∷ path) m = elim (Text-cases x y) [
    | inl e ↦ ground (arith, (text_eq_iff x y).1 e, m)
    | inr e ↦ ground (arith, e, mem-path_from y u path (ground (arith, e, m)))
  ]

  -- a parent of the last reference is above all of them
  pub Linked-ParentOf :
      (path : List Text) (z y : Text)
      → Linked (path ++ z ∷ [])
      → ParentOf works z y
      → (u : Text) → mem_text u (path ++ z ∷ []) ≡ true
      → Climbs works [] u y
  Linked-ParentOf path z y l parent u m = elim (Bool-cases (mem_text u path)) [
    | inl e ↦ Climbs-trans (Linked-last path z l u e) (one refl parent)
    | inr e ↦
        let here : text_eq z u ≡ true =
          ground (arith, e, m, any-append (λ s. text_eq s u) path (z ∷ [])) in
        subst (λ v. Climbs works [] v y) ((text_eq_iff z u).0 here) (one refl parent)
  ]

  -- A last row that is below a row of its path closes a cycle through all rows from there on.
  pub Climbs-path_from :
      (path : List Text) (z y : Text)
      → Linked (path ++ z ∷ [])
      → ParentOf works z y
      → (u : Text) → mem_text u (path_from y (path ++ z ∷ [])) ≡ true
      → Climbs works [] u u
  Climbs-path_from path z y l parent u m =
      let to_y = Linked-ParentOf path z y l parent u (mem-path_from y u (path ++ z ∷ []) m) in
      elim (Linked-path_from y (path ++ z ∷ []) l u m) [
        | inl e ↦ subst (λ v. Climbs works [] u v) (sym e) to_y
        | inr c ↦ Climbs-trans to_y c
      ]

  -- the last reference of a path is in the part from any reference of it
  pub path_from-last :
      (y z : Text) (path : List Text)
      → mem_text y (path ++ z ∷ []) ≡ true
      → mem_text z (path_from y (path ++ z ∷ [])) ≡ true
  path_from-last y z [] m = ground (arith, m, text_eq_refl z)
  path_from-last y z (x ∷ path) m = elim (Bool-cases (text_eq x y)) [
    | inl e ↦ ground (arith, e, text_eq_refl z, any-append (λ s. text_eq s z) path (z ∷ []))
    | inr e ↦ ground (arith, e, path_from-last y z path (ground (arith, e, m)))
  ]

  -- each reference is flagged or all its parents stand behind it
  abbrev pub Ordered : List Text → List Text → Type 0
  Ordered flagged [] = Unit {0}
  Ordered flagged (r ∷ order) =
      ((y : Text) → ParentOf works r y → (mem_text y order || mem_text r flagged) ≡ true)
      × Ordered flagged order

  pub Ordered-mono :
      (flagged flagged' order : List Text)
      → ((r : Text) → mem_text r flagged ≡ true → mem_text r flagged' ≡ true)
      → Ordered flagged order
      → Ordered flagged' order
  Ordered-mono flagged flagged' [] grow o = tt
  Ordered-mono flagged flagged' (r ∷ order) grow (o, os) =
      ((λ y p. ground (arith, o y p, grow r)), Ordered-mono flagged flagged' order grow os)

  Ordered-ParentOf :
      (flagged order : List Text)
      → Ordered flagged order
      → (x y : Text) → mem_text x order ≡ true
      → mem_text x flagged ≡ false
      → ParentOf works x y
      → mem_text y order ≡ true
  Ordered-ParentOf flagged [] o x y m f p = cc
  Ordered-ParentOf flagged (r ∷ order) (o, os) x y m f p = elim (Text-cases r x) [
    | inl e ↦
        let unflagged : mem_text r flagged ≡ false =
          subst (λ v. mem_text v flagged ≡ false) (sym e) f in
        let later = o y (subst (λ v. ParentOf works v y) (sym e) p) in
        ground (arith, later, unflagged)
    | inr e ↦ ground (arith, Ordered-ParentOf flagged order os x y (ground (arith, e, m)) f p)
  ]

  -- from a row of the order, chains along rows that are not flagged stay in the order
  Ordered-Climbs :
      (flagged order : List Text)
      → Ordered flagged order
      → (x y : Text) → mem_text x order ≡ true
      → Climbs works flagged x y
      → mem_text y order ≡ true
  Ordered-Climbs flagged order o x y m (one f p) = Ordered-ParentOf flagged order o x y m f p
  Ordered-Climbs flagged order o x y m (more {y = z} f p c) =
      Ordered-Climbs flagged order o z y (Ordered-ParentOf flagged order o x z m f p) c

  first_step :
      (flagged order : List Text) (r y : Text)
      → ((z : Text) → ParentOf works r z → (mem_text z order || mem_text r flagged) ≡ true)
      → Ordered flagged order
      → Climbs works flagged r y
      → mem_text y order ≡ true
  first_step flagged order r y o os (one f p) = ground (arith, o y p, f)
  first_step flagged order r y o os (more {y = z} f p c) =
      Ordered-Climbs flagged order os z y (ground (arith, o z p, f)) c

  -- an order has no cycle along rows that are not flagged
  pub Ordered-acyclic :
      (flagged order : List Text)
      → Ordered flagged order
      → (x : Text) → mem_text x order ≡ true
      → ¬ Climbs works flagged x x
  Ordered-acyclic flagged [] o x m c = cc
  Ordered-acyclic flagged (r ∷ order) (o, os) x m c = elim (Bool-cases (mem_text x order)) [
    | inl e ↦ Ordered-acyclic flagged order os x e c
    | inr e ↦
        let same : r ≡ x = (text_eq_iff r x).0 (ground (arith, e, m)) in
        let again : mem_text x order ≡ true =
          first_step flagged order r x o os (subst (λ v. Climbs works flagged v x) (sym same) c) in
        cc
  ]
