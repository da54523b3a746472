-- ===== src/Lineage/Reading.antt =====
-- lineage.service.ts and lineage.repository.ts: the read paths, for the context of a viewer.
use tftsp.Common.{
  ℕ, ◌+◌, ◌<◌, ◌≤◌, Bool, true, false, not, Option, none, some, List, [], ◌∷◌, ◌&&◌, ◌||◌, ◌==◌,
  leb, ltb, if◌then◌else◌, filter, mem, length, count_rows, opt_eq, Text, M, ◌>>=◌, ◌>>◌, return,
  get, require, throw_if, not_found, person_not_found,
}
use tftsp.Domain.{Gender}
use tftsp.Database.{Db, Person, is_live, find_live}
use tftsp.Persons.Consistency.{live}
use tftsp.Lineage.{Closure, ClosureRow}
use tftsp.Visibility.{ViewerContext, Projection, is_visible, filter_persons}
mod Examples
pub mod Trees
pub mod Windows

-- a row put in the order of the depths
abbrev pub insert_by_depth : ClosureRow → Closure → Closure
insert_by_depth r [] = r ∷ []
insert_by_depth r (s ∷ t) =
    let rest = insert_by_depth r t in if leb r.depth s.depth then r ∷ s ∷ t else s ∷ rest

-- `ORDER BY depth ASC`
unfoldable pub by_depth : Closure → Closure
by_depth [] = []
by_depth (r ∷ t) = insert_by_depth r (by_depth t)

-- `ancestors`
unfoldable pub ancestors : (ℕ → Bool) → Closure → ℕ → Closure
unfolding by_depth
ancestors alive t x =
    by_depth (filter (λ r. r.descendant == x && (ltb 0 r.depth && alive r.ancestor)) t)

abbrev pub no_deeper : Option ℕ → ℕ → Bool
no_deeper none depth = true
no_deeper (some max) depth = leb depth max

-- `descendants`, with a greatest depth or without
unfoldable pub descendants : (ℕ → Bool) → Closure → ℕ → Option ℕ → Closure
unfolding by_depth
descendants alive t x max = by_depth (
    filter
      (λ r. (r.ancestor == x && ltb 0 r.depth) && (no_deeper max r.depth && alive r.descendant)) t)

abbrev pub ancestor_ids : Closure → List ℕ
ancestor_ids [] = []
ancestor_ids (r ∷ t) = r.ancestor ∷ ancestor_ids t

abbrev pub descendant_ids : Closure → List ℕ
descendant_ids [] = []
descendant_ids (r ∷ t) = r.descendant ∷ descendant_ids t

-- `loadPersonsInOrder`
unfoldable pub load_in_order : Db → List ℕ → List (ℕ × Person)
load_in_order db [] = []
load_in_order db (x ∷ ids) =
    let rest = load_in_order db ids in
    elim (find_live db x) [ none ↦ rest | some p ↦ (x, p) ∷ rest ]

-- `TreeNode`
pub record TreeNode : Type 0 where
  pub id : ℕ
  pub name : Text
  pub gender : Gender
  pub is_deceased : Bool
  pub children_count : ℕ

-- `TreeEdge`, via the father
pub record TreeEdge : Type 0 where
  pub parent_id : ℕ
  pub child_id : ℕ

pub record TreeResponse : Type 0 where
  pub nodes : List TreeNode
  pub edges : List TreeEdge
  pub truncated : Bool

abbrev pub ids_of : List (ℕ × Person) → List ℕ
ids_of [] = []
ids_of ((x, p) ∷ rows) = x ∷ ids_of rows

-- a node with the number of the living children on record
abbrev pub nodes_of : Db → List (ℕ × Person) → List TreeNode
nodes_of db [] = []
nodes_of db ((x, p) ∷ rows) =
    record {
      id = x;
      name = p.full_name;
      gender = p.gender;
      is_deceased = p.is_deceased;
      children_count =
          count_rows (λ (c : Person). is_live c && opt_eq c.father_id (some x)) db.persons;
    }
    ∷ nodes_of db rows

-- an edge between two nodes
abbrev pub edges_among : List ℕ → List (ℕ × Person) → List TreeEdge
edges_among ids [] = []
edges_among ids ((x, p) ∷ rows) =
    let rest = edges_among ids rows in
    elim p.father_id [
      | none ↦ rest
      | some f ↦ if mem f ids then record { parent_id = f; child_id = x } ∷ rest else rest
    ]

module _ (ctx : ViewerContext) (eighteen : ℕ) where
  -- `assertPersonExists` and `assertVisible`
  unfoldable pub find_visible : ℕ → M Db Person
  find_visible id = do
    db ← get
    root ← require (find_live db id) (not_found person_not_found)
    throw_if (not (is_visible ctx eighteen id root)) (not_found person_not_found)
    return root

  -- `getAncestors`
  unfoldable pub get_ancestors : ℕ → M Db (List Projection)
  unfolding find_visible ancestors load_in_order
  get_ancestors id = do
    root ← find_visible id
    db ← get
    return (
        filter_persons ctx eighteen
          (load_in_order db (ancestor_ids (ancestors (live db.persons.at) db.closures id))))

  -- `getDescendants`
  unfoldable pub get_descendants : ℕ → M Db (List Projection)
  unfolding find_visible descendants load_in_order
  get_descendants id = do
    root ← find_visible id
    db ← get
    return (
        filter_persons ctx eighteen (
          load_in_order db (descendant_ids (descendants (live db.persons.at) db.closures id none))))

  -- the visible persons of the identifiers
  unfoldable pub shown : Db → List ℕ → List (ℕ × Person)
  shown db [] = []
  shown db (x ∷ ids) =
      let rest = shown db ids in
      elim (find_live db x) [
        | none ↦ rest
        | some p ↦ if is_visible ctx eighteen x p then (x, p) ∷ rest else rest
      ]

  abbrev pub tree_of : Db → ℕ → ℕ → TreeResponse
  tree_of db root generations =
      let within = descendants (live db.persons.at) db.closures root (some generations) in
      let beyond = descendants (live db.persons.at) db.closures root (some (generations + 1)) in
      let rows = shown db (root ∷ descendant_ids within) in
      record {
        nodes = nodes_of db rows;
        edges = edges_among (ids_of rows) rows;
        truncated = ltb (length within) (length beyond);
      }

  -- `getTree`
  unfoldable pub get_tree : ℕ → ℕ → M Db TreeResponse
  unfolding find_visible descendants shown
  get_tree root generations = do
    person ← find_visible root
    db ← get
    return (tree_of db root generations)
