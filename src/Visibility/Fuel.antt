-- ===== src/Visibility/Fuel.antt =====
-- visibility.resolver.ts `expandSubtrees`: the queue runs empty, also where the units form a cycle.
use tftsp.Common.{
  length-append, Table, filter, row_passes, opt_eq, ◌↔◌, ℕ, zero, suc, ◌+◌, ◌≡◌, ◌≢◌, ◌≤◌, ◌==◌,
  ==_iff, refl, subst, sym, ap, true, false, Option, none, some, List, [], ◌∷◌, ◌++◌, mem, length,
  arith, Bool-cases, Option-cases, inl, inr, if◌then◌else◌,
}
use tftsp.Database.{TribalUnit}
use tftsp.Visibility.Context.{expand, children_of}
use tftsp.Visibility.Subtrees.{Reached, expand_iff}

module _ (children : ℕ → List ℕ) where
  -- the children of the units that were not seen
  unfoldable pub waiting : List ℕ → List ℕ → ℕ
  waiting [] result = 0
  waiting (u ∷ units) result =
      let rest = waiting units result in if mem u result then rest else length (children u) + rest

  waiting-seen :
      (units result : List ℕ) (id : ℕ) → waiting units (id ∷ result) ≤ waiting units result
  unfolding waiting
  waiting-seen [] result id = omega arith
  waiting-seen (u ∷ units) result id = ground (arith, waiting-seen units result id)

  waiting-drops :
      (units result : List ℕ) (id : ℕ)
      → mem id units ≡ true
      → mem id result ≡ false
      → waiting units (id ∷ result) + length (children id) ≤ waiting units result
  unfolding waiting
  waiting-drops [] result id m e = cc
  waiting-drops (u ∷ units) result id m e = elim (Bool-cases (id == u)) [
    | inl q ↦
        let unseen : mem u result ≡ false =
          subst (λ z. mem z result ≡ false) ((==_iff id u).0 q) e in
        let same : length (children u) ≡ length (children id) =
          ap (λ z. length (children z)) (sym ((==_iff id u).0 q)) in
        ground (arith, q, same, unseen, waiting-seen units result id)
    | inr q ↦
        let later : mem id units ≡ true = ground (arith, q, m) in
        ground (arith, q, waiting-drops units result id later e)
  ]

  module _ (units : List ℕ) (known : (x : ℕ) → mem x units ≡ false → children x ≡ []) where
    waiting-step :
        (id : ℕ) (result : List ℕ)
        → mem id result ≡ false
        → waiting units (id ∷ result) + length (children id) ≤ waiting units result
    waiting-step id result e = elim (Bool-cases (mem id units)) [
      | inl m ↦ waiting-drops units result id m e
      | inr m ↦
          let no_children : length (children id) ≡ 0 = ap length (known id m) in
          omega (arith, no_children, waiting-seen units result id)
    ]

    expand_ends :
        (fuel : ℕ) (queue result : List ℕ)
        → length queue + waiting units result ≤ fuel
        → expand children fuel queue result ≢ none
    unfolding expand
    expand_ends zero [] result h e = cc
    expand_ends zero (id ∷ queue) result h e = omega arith
    expand_ends (suc fuel) [] result h e = cc
    expand_ends (suc fuel) (id ∷ queue) result h e = elim (Bool-cases (mem id result)) [
      | inl m ↦ expand_ends fuel queue result (omega arith) (ground (arith, e, m))
      | inr m ↦
          let next = waiting-step id result m in
          let longer = length-append queue (children id) in
          expand_ends fuel (queue ++ children id) (id ∷ result) (omega (arith, next, longer))
            (ground (arith, e, m))
    ]

-- the units that some unit has as its parent, once for each
abbrev pub parents_in : (ℕ → Option TribalUnit) → List ℕ → List ℕ
parents_in at [] = []
parents_in at (x ∷ ids) =
    let rest = parents_in at ids in
    elim (at x) [
      | none ↦ rest
      | some u ↦ elim u.parent_id [ none ↦ rest | some parent ↦ parent ∷ rest ]
    ]

no_children :
    (at : ℕ → Option TribalUnit) (x : ℕ) (ids : List ℕ)
    → mem x (parents_in at ids) ≡ false
    → filter (λ y. row_passes (λ u. opt_eq u.parent_id (some x)) (at y)) ids ≡ []
no_children at x [] m = refl
no_children at x (y ∷ ids) m = elim (Option-cases (at y)) [
  | inl e ↦ ground (arith, e, m, no_children at x ids)
  | inr (u, e) ↦ elim (Option-cases u.parent_id) [
    | inl f ↦
        let rest : mem x (parents_in at ids) ≡ false = ground (arith, e, f, m) in
        ground (arith, e, f, no_children at x ids rest)
    | inr (parent, f) ↦
        let rest : mem x (parents_in at ids) ≡ false = ground (arith, e, f, m) in
        ground (arith, e, f, m, no_children at x ids rest)
  ]
]

-- steps that are enough: one for each anchor and, for each unit with a parent, one for each child of
-- that parent
abbrev pub search_fuel : Table TribalUnit → List ℕ → ℕ
search_fuel units anchors =
    length anchors + waiting (children_of units) (parents_in units.at units.ids) []

-- With as much fuel as `search_fuel` the search ends, on a cycle of units too, and finds exactly the
-- anchors and the units below them.
pub expand-Reached :
    (units : Table TribalUnit) (anchors : List ℕ) (fuel : ℕ)
    → search_fuel units anchors ≤ fuel
    → (found : List ℕ) × (expand (children_of units) fuel anchors [] ≡ some found)
      × ((x : ℕ) → (mem x found ≡ true) ↔ Reached (children_of units) anchors x)
expand-Reached units anchors fuel enough =
    elim (Option-cases (expand (children_of units) fuel anchors [])) [
      | inl e ↦
          elim (expand_ends (children_of units) (parents_in units.at units.ids)
            (λ x. no_children units.at x units.ids) fuel anchors [] enough e) [ ]
      | inr (found, e) ↦ (found, e, expand_iff (children_of units) anchors fuel e)
    ]
