-- ===== src/Lineage/Reading/Windows.antt =====
-- lineage.service.ts `getTree`: the answer.
use tftsp.Common.{
  ℕ, zero, suc, ◌+◌, ◌≤◌, ◌≡◌, ◌↔◌, refl, sym, ap, subst, ◌∙◌, Bool, true, Option, some, List, ◌∷◌,
  ◌&&◌, ◌==◌, ==_iff, ==_refl, mem, opt_eq, Bool-cases, Option-cases, inl, inr, arith, ok,
}
use tftsp.Database.{Db, find_live}
use tftsp.Persons.Consistency.{IsConsistent, live, father_of}
use tftsp.Lineage.Chain.{Chain, here}
use tftsp.Visibility.{ViewerContext, is_visible}
use tftsp.Lineage.Reading.{
  descendants, descendant_ids, shown, ids_of, tree_of, get_tree, find_visible, TreeResponse,
}
use tftsp.Lineage.Reading.Trees.{
  node_ids, node_ids-nodes_of, find_live-live, visible, mem-shown, shown-FathersKnown, has_edge,
  has_edge-edges_among, mem-descendants, truncated-any, window_sound, window_complete, deeper_sound,
  deeper_complete,
}

-- a chain without a step stays
Chain-zero : {father : ℕ → Option ℕ} {x a : ℕ} → Chain father x a zero → x ≡ a
Chain-zero here = refl

module _ (ctx : ViewerContext) (eighteen : ℕ) (db : Db) where
  visible-live : (x : ℕ) → visible ctx eighteen db x ≡ true → live db.persons.at x ≡ true
  visible-live x h = elim (Option-cases (find_live db x)) [
    | inl e ↦ ground (arith, e, h)
    | inr (p, e) ↦ (find_live-live db x e).0
  ]

  -- what a tree shows below a person, for a number of generations
  pub record Shows (root g : ℕ) (tree : TreeResponse) : Type 0 where
    pub nodes_sound :
        (x : ℕ)
        → mem x (node_ids tree.nodes) ≡ true
        → (visible ctx eighteen db x ≡ true)
          × (k : ℕ) × Chain (father_of db.persons.at) x root k
          × (k ≤ g)
    pub nodes_complete :
        (x k : ℕ)
        → visible ctx eighteen db x ≡ true
        → Chain (father_of db.persons.at) x root k
        → k ≤ g
        → mem x (node_ids tree.nodes) ≡ true
    pub edges :
        (f c : ℕ)
        → has_edge f c tree.edges ≡ (
            mem c (node_ids tree.nodes)
            && (mem f (node_ids tree.nodes) && opt_eq (father_of db.persons.at c) (some f)))
    pub truncated :
        (tree.truncated ≡ true)
        ↔ ((x : ℕ) × (live db.persons.at x ≡ true) × Chain (father_of db.persons.at) x root (g + 1))

  module _ (c : IsConsistent db) (root g : ℕ) where
    alive : ℕ → Bool
    alive = live db.persons.at

    within : List ℕ
    within = root ∷ descendant_ids (descendants alive db.closures root (some g))

    node-mem :
        (x : ℕ)
        → mem x (node_ids (tree_of ctx eighteen db root g).nodes)
          ≡ (mem x within && visible ctx eighteen db x)
    unfolding within alive
    node-mem x =
        ap (mem x) (node_ids-nodes_of db (shown ctx eighteen db within))
        ∙ mem-shown ctx eighteen db x within

    tree_sound :
        (x : ℕ) → mem x within ≡ true → (k : ℕ) × Chain (father_of db.persons.at) x root k × (k ≤ g)
    unfolding within alive
    tree_sound x m = elim (Bool-cases (root == x)) [
      | inl q ↦ (
        0,
        subst (λ y. Chain (father_of db.persons.at) y root 0) ((==_iff root x).0 q) here,
        omega arith,
      )
      | inr q ↦
          window_sound alive (father_of db.persons.at) db.closures c.closure root g x
            (sym (mem-descendants alive db.closures root g x) ∙ ground (arith, q, m))
    ]

    tree_complete :
        (x k : ℕ)
        → alive x ≡ true
        → Chain (father_of db.persons.at) x root k
        → k ≤ g
        → mem x within ≡ true
    unfolding within alive
    tree_complete x zero l chain le = ground (arith, Chain-zero chain, ==_refl x)
    tree_complete x (suc k) l chain le =
        let w =
          window_complete alive (father_of db.persons.at) db.closures c.closure root g x (suc k) l
            (omega arith) le chain in
        ground (arith, mem-descendants alive db.closures root g x, w)

    tree_of-Shows : Shows root g (tree_of ctx eighteen db root g)
    unfolding within alive
    tree_of-Shows = record {
      nodes_sound = λ x m.
          let both = sym (node-mem x) ∙ m in
          let (k, chain, le) = tree_sound x (ground (arith, both)) in
          (ground (arith, both), k, chain, le);
      nodes_complete = λ x k v chain le.
          node-mem x ∙ ground (arith, v, tree_complete x k (visible-live x v) chain le);
      edges = λ f d.
          let e =
            has_edge-edges_among ctx eighteen db (ids_of (shown ctx eighteen db within)) f d
              (shown ctx eighteen db within) (shown-FathersKnown ctx eighteen db within) in
          let ids = node_ids-nodes_of db (shown ctx eighteen db within) in
          e
          ∙ ap (λ (l : List ℕ). mem d l && (mem f l && opt_eq (father_of db.persons.at d) (some f)))
              (sym ids);
      truncated = (
        (λ h.
            deeper_sound alive (father_of db.persons.at) db.closures c.closure root g
              (sym (truncated-any alive db.closures root g) ∙ h)),
        λ (x, l, chain).
            truncated-any alive db.closures root g
            ∙ deeper_complete alive (father_of db.persons.at) db.closures c.closure root g x l
                chain,
      );
    }

  -- The tree that is answered on consistent data shows, below a root that the viewer sees, exactly the
  -- persons that he sees within the generations; its edges are those from fathers to children among
  -- them; it is marked as truncated exactly where there is a living descendant one generation below;
  -- and nothing is written.
  pub get_tree-Shows :
      (root g : ℕ) {tree : TreeResponse} {db' : Db}
      → IsConsistent db
      → get_tree ctx eighteen root g db ≡ (ok tree, db')
      → (db' ≡ db) × (visible ctx eighteen db root ≡ true) × Shows root g tree
  unfolding get_tree find_visible
  get_tree-Shows root g {tree} {db'} c h = elim (Option-cases (find_live db root)) [
    | inl e ↦ ground (arith, e, h)
    | inr (p, e) ↦ elim (Bool-cases (is_visible ctx eighteen root p)) [
      | inr v ↦ ground (arith, e, v, h)
      | inl v ↦
          let same : tree_of ctx eighteen db root g ≡ tree = ground (arith, e, v, h) in
          (
            ground (arith, e, v, h),
            ground (arith, e, v),
            subst (Shows root g) same (tree_of-Shows c root g),
          )
    ]
  ]
