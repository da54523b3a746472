-- ===== src/Lineage/Reading/Trees.antt =====
-- lineage.service.ts `getTree`: the window of the tree that it shows, in terms of chains of fathers.
use tftsp.Common.{
  ℕ, ◌+◌, ◌<◌, ◌≤◌, ◌≡◌, refl, sym, ap, subst, ◌∙◌, Bool, true, false, Option, none, some, List, [],
  ◌∷◌, ◌&&◌, ◌||◌, ◌==◌, ==_iff, ==_refl, leb, ltb, filter, any, any-filter, mem, length, opt_eq,
  Bool-cases, Option-cases, inl, inr, arith,
}
use tftsp.Database.{Db, Person, is_live, find_live}
use tftsp.Persons.Consistency.{live, father_of}
use tftsp.Lineage.{Closure, ClosureRow, row}
use tftsp.Lineage.Chain.{Chain}
use tftsp.Lineage.Rows.{has, is_row, is_row-eq}
use tftsp.Lineage.Moves.{IsClosure}
use tftsp.Visibility.{ViewerContext, is_visible}
use tftsp.Lineage.Reading.{
  insert_by_depth, by_depth, descendants, descendant_ids, shown, ids_of, nodes_of, edges_among,
  TreeNode, TreeEdge,
}

any-insert_by_depth :
    (p : ClosureRow → Bool) (r : ClosureRow) (t : Closure)
    → any p (insert_by_depth r t) ≡ (p r || any p t)
any-insert_by_depth p r [] = refl
any-insert_by_depth p r (s ∷ t) = ground (arith, any-insert_by_depth p r t)

any-by_depth : (p : ClosureRow → Bool) (t : Closure) → any p (by_depth t) ≡ any p t
unfolding by_depth
any-by_depth p [] = refl
any-by_depth p (r ∷ t) =
    any-insert_by_depth p r (by_depth t) ∙ ap (λ b. p r || b) (any-by_depth p t)

length-insert_by_depth :
    (r : ClosureRow) (t : Closure) → length (insert_by_depth r t) ≡ length t + 1
length-insert_by_depth r [] = omega arith
length-insert_by_depth r (s ∷ t) = ground (arith, length-insert_by_depth r t)

length-by_depth : (t : Closure) → length (by_depth t) ≡ length t
unfolding by_depth
length-by_depth [] = refl
length-by_depth (r ∷ t) = omega (arith, length-insert_by_depth r (by_depth t), length-by_depth t)

mem-descendant_ids :
    (x : ℕ) (t : Closure) → mem x (descendant_ids t) ≡ any (λ (r : ClosureRow). r.descendant == x) t
mem-descendant_ids x [] = refl
mem-descendant_ids x (r ∷ t) = ground (arith, mem-descendant_ids x t)

-- a row that passes a test
any-has :
    (p : ClosureRow → Bool) (t : Closure)
    → any p t ≡ true
    → (r : ClosureRow) × (p r ≡ true) × (has t r.ancestor r.descendant r.depth ≡ true)
unfolding has
any-has p [] h = cc
any-has p (r ∷ t) h = elim (Bool-cases (p r)) [
  | inl e ↦ (r, e, ground (arith, ==_refl r.ancestor, ==_refl r.descendant, ==_refl r.depth))
  | inr e ↦ let (s, q, found) = any-has p t (ground (arith, e, h)) in (s, q, ground (arith, found))
]

has-any :
    (p : ClosureRow → Bool) (t : Closure) (a d k : ℕ)
    → has t a d k ≡ true
    → p (row a d k) ≡ true
    → any p t ≡ true
unfolding has
has-any p [] a d k h q = cc
has-any p (r ∷ t) a d k h q = elim (Bool-cases (is_row a d k r)) [
  | inl e ↦
      let same : p r ≡ true = subst (λ s. p s ≡ true) (sym (is_row-eq a d k r e)) q in
      ground (arith, same)
  | inr e ↦ ground (arith, has-any p t a d k (ground (arith, e, h)) q)
]

-- the rows one step deeper
length-deeper :
    (base alive : ClosureRow → Bool) (g : ℕ) (t : Closure)
    → length (filter (λ (r : ClosureRow). base r && (leb r.depth (g + 1) && alive r)) t)
      ≡ length (filter (λ (r : ClosureRow). base r && (leb r.depth g && alive r)) t)
        + length (filter (λ (r : ClosureRow). base r && ((r.depth == g + 1) && alive r)) t)
length-deeper base alive g [] = refl
length-deeper base alive g (r ∷ t) = ground (arith, length-deeper base alive g t)

any-length : (p : ClosureRow → Bool) (t : Closure) → ltb 0 (length (filter p t)) ≡ any p t
any-length p [] = refl
any-length p (r ∷ t) = ground (arith, any-length p t)

pub node_ids : List TreeNode → List ℕ
node_ids [] = []
node_ids (n ∷ nodes) = n.id ∷ node_ids nodes

pub node_ids-nodes_of :
    (db : Db) (rows : List (ℕ × Person)) → node_ids (nodes_of db rows) ≡ ids_of rows
unfolding node_ids
node_ids-nodes_of db [] = refl
node_ids-nodes_of db ((x, p) ∷ rows) = ap (λ l. x ∷ l) (node_ids-nodes_of db rows)

pub find_live-live :
    (db : Db) (x : ℕ) {p : Person}
    → find_live db x ≡ some p
    → (live db.persons.at x ≡ true) × (father_of db.persons.at x ≡ p.father_id)
find_live-live db x {p} h = elim (Option-cases (db.persons.at x)) [
  | inl e ↦ ground (arith, e, h)
  | inr (q, e) ↦ elim (Bool-cases (is_live q)) [
    | inl a ↦
        let same : q ≡ p = ground (arith, e, a, h) in
        (ground (arith, e, a), ground (arith, e, a, same))
    | inr a ↦ ground (arith, e, a, h)
  ]
]

module _ (ctx : ViewerContext) (eighteen : ℕ) (db : Db) where
  -- the person is live and the viewer sees it
  abbrev pub visible : ℕ → Bool
  visible x = elim (find_live db x) [ none ↦ false | some p ↦ is_visible ctx eighteen x p ]

  pub mem-shown :
      (x : ℕ) (ids : List ℕ) → mem x (ids_of (shown ctx eighteen db ids)) ≡ (mem x ids && visible x)
  unfolding shown
  mem-shown x [] = refl
  mem-shown x (y ∷ ids) = elim (Option-cases (find_live db y)) [
    | inl e ↦ elim (Bool-cases (y == x)) [
      | inl q ↦
          let missing : find_live db x ≡ none =
            subst (λ z. find_live db z ≡ none) ((==_iff y x).0 q) e in
          ground (arith, e, q, missing, mem-shown x ids)
      | inr q ↦ ground (arith, e, q, mem-shown x ids)
    ]
    | inr (p, e) ↦ elim (Bool-cases (y == x)) [
      | inl q ↦
          let here : find_live db x ≡ some p =
            subst (λ z. find_live db z ≡ some p) ((==_iff y x).0 q) e in
          let seen : is_visible ctx eighteen y p ≡ is_visible ctx eighteen x p =
            ap (λ z. is_visible ctx eighteen z p) ((==_iff y x).0 q) in
          elim (Bool-cases (is_visible ctx eighteen x p)) [
            | inl v ↦ ground (arith, e, q, here, seen, v, mem-shown x ids)
            | inr v ↦ ground (arith, e, q, here, seen, v, mem-shown x ids)
          ]
      | inr q ↦ elim (Bool-cases (is_visible ctx eighteen y p)) [
        | inl v ↦ ground (arith, e, q, v, mem-shown x ids)
        | inr v ↦ ground (arith, e, q, v, mem-shown x ids)
      ]
    ]
  ]

  abbrev pub FathersKnown : List (ℕ × Person) → Type 0
  FathersKnown [] = Unit {0}
  FathersKnown ((x, p) ∷ rows) = (father_of db.persons.at x ≡ p.father_id) × FathersKnown rows

  pub shown-FathersKnown : (ids : List ℕ) → FathersKnown (shown ctx eighteen db ids)
  unfolding shown
  shown-FathersKnown [] = tt
  shown-FathersKnown (y ∷ ids) = elim (Option-cases (find_live db y)) [
    | inl e ↦ rw (e, FathersKnown) (shown-FathersKnown ids)
    | inr (p, e) ↦ elim (Bool-cases (is_visible ctx eighteen y p)) [
      | inl v ↦
          rw (e, FathersKnown)
            (rw (v, FathersKnown) ((find_live-live db y e).1, shown-FathersKnown ids))
      | inr v ↦ rw (e, FathersKnown) (rw (v, FathersKnown) (shown-FathersKnown ids))
    ]
  ]

abbrev pub has_edge : ℕ → ℕ → List TreeEdge → Bool
has_edge f c edges = any (λ (e : TreeEdge). e.parent_id == f && e.child_id == c) edges

opt_eq-same : (o : Option ℕ) (f : ℕ) → opt_eq o (some f) ≡ true → o ≡ some f
opt_eq-same none f h = cc
opt_eq-same (some x) f h = ap some ((==_iff x f).0 (ground (arith, h)))

module _ (ctx : ViewerContext) (eighteen : ℕ) (db : Db) where
  pub has_edge-edges_among :
      (ids : List ℕ) (f c : ℕ) (rows : List (ℕ × Person))
      → FathersKnown ctx eighteen db rows
      → has_edge f c (edges_among ids rows)
        ≡ (mem c (ids_of rows) && (mem f ids && opt_eq (father_of db.persons.at c) (some f)))
  has_edge-edges_among ids f c [] k = refl
  has_edge-edges_among ids f c ((x, p) ∷ rows) (known, k) =
      let rest = has_edge-edges_among ids f c rows k in
      elim (Bool-cases (x == c)) [
        | inl q ↦
            let father : father_of db.persons.at c ≡ p.father_id =
              ap (father_of db.persons.at) (sym ((==_iff x c).0 q)) ∙ known in
            elim (Option-cases p.father_id) [
              | inl e ↦ ground (arith, q, e, father, rest)
              | inr (g, e) ↦ elim (Bool-cases (g == f)) [
                | inl s ↦
                    let equal = ap (λ z. mem z ids) ((==_iff g f).0 s) in
                    ground (arith, q, e, father, s, equal, rest)
                | inr s ↦ ground (arith, q, e, father, s, rest)
              ]
            ]
        | inr q ↦ elim (Option-cases p.father_id) [
          | inl e ↦ ground (arith, q, e, rest)
          | inr (g, e) ↦ ground (arith, q, e, rest)
        ]
      ]

-- a row of the window below a person
abbrev pub in_window : (ℕ → Bool) → ℕ → ℕ → ℕ → ClosureRow → Bool
in_window alive root g x r =
    ((r.ancestor == root && ltb 0 r.depth) && (leb r.depth g && alive r.descendant))
    && r.descendant == x

pub mem-descendants :
    (alive : ℕ → Bool) (t : Closure) (root g x : ℕ)
    → mem x (descendant_ids (descendants alive t root (some g))) ≡ any (in_window alive root g x) t
unfolding descendants
mem-descendants alive t root g x =
    let picked = λ (r : ClosureRow).
      (r.ancestor == root && ltb 0 r.depth) && (leb r.depth g && alive r.descendant) in
    mem-descendant_ids x (by_depth (filter picked t))
    ∙ (any-by_depth (λ (r : ClosureRow). r.descendant == x) (filter picked t)
        ∙ any-filter (λ (r : ClosureRow). r.descendant == x) picked t)

-- a row of the next generation
abbrev pub one_deeper : (ℕ → Bool) → ℕ → ℕ → ClosureRow → Bool
one_deeper alive root g r =
    (r.ancestor == root && ltb 0 r.depth) && ((r.depth == g + 1) && alive r.descendant)

pub truncated-any :
    (alive : ℕ → Bool) (t : Closure) (root g : ℕ)
    → ltb
        (length (descendants alive t root (some g)))
        (length (descendants alive t root (some (g + 1))))
      ≡ any (one_deeper alive root g) t
unfolding descendants
truncated-any alive t root g =
    let base = λ (r : ClosureRow). r.ancestor == root && ltb 0 r.depth in
    let living = λ (r : ClosureRow). alive r.descendant in
    let within = filter (λ (r : ClosureRow). base r && (leb r.depth g && living r)) t in
    let beyond = filter (λ (r : ClosureRow). base r && (leb r.depth (g + 1) && living r)) t in
    ground (
      arith,
      length-by_depth within,
      length-by_depth beyond,
      length-deeper base living g t,
      any-length (one_deeper alive root g) t,
    )

module _ (live : ℕ → Bool) (father : ℕ → Option ℕ) (t : Closure) (c : IsClosure live father t)
    (root g : ℕ) where
  pub window_sound :
      (x : ℕ) → any (in_window live root g x) t ≡ true → (k : ℕ) × Chain father x root k × (k ≤ g)
  window_sound x h =
      let (r, q, found) = any-has (in_window live root g x) t h in
      let top : r.ancestor ≡ root = ground (arith, q) in
      let bottom : r.descendant ≡ x = ground (arith, q) in
      let chain = (c.sound r.ancestor r.descendant r.depth found).1 in
      (
        r.depth,
        subst (λ d. Chain father d root r.depth) bottom
            (subst (λ a. Chain father r.descendant a r.depth) top chain),
        ground (arith, q),
      )

  pub window_complete :
      (x k : ℕ)
      → live x ≡ true
      → 0 < k
      → k ≤ g
      → Chain father x root k
      → any (in_window live root g x) t ≡ true
  window_complete x k alive pos le chain =
      has-any (in_window live root g x) t root x k (c.complete root x k alive chain)
        (ground (arith, ==_refl root, ==_refl x, alive, pos, le))

  pub deeper_sound :
      any (one_deeper live root g) t ≡ true
      → (x : ℕ) × (live x ≡ true) × Chain father x root (g + 1)
  deeper_sound h =
      let (r, q, found) = any-has (one_deeper live root g) t h in
      let top : r.ancestor ≡ root = ground (arith, q) in
      let deep : r.depth ≡ g + 1 = ground (arith, q) in
      let chain = (c.sound r.ancestor r.descendant r.depth found).1 in
      (
        r.descendant,
        ground (arith, q),
        subst (λ k. Chain father r.descendant root k) deep
            (subst (λ a. Chain father r.descendant a r.depth) top chain),
      )

  pub deeper_complete :
      (x : ℕ) → live x ≡ true → Chain father x root (g + 1) → any (one_deeper live root g) t ≡ true
  deeper_complete x alive chain =
      has-any (one_deeper live root g) t root x (g + 1) (c.complete root x (g + 1) alive chain)
        (ground (arith, ==_refl root, ==_refl (g + 1), alive))
