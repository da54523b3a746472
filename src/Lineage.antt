-- ===== src/Lineage.antt =====
-- apps/api/src/modules/lineage: the paternal closure table (lineage.repository.ts) and the write
-- helpers of the lineage service (lineage.service.ts). The table is the list of its rows of one
-- tenant; row-level security confines every statement to the tenant, so its column is left out.
-- `pub mod` children prove; this file defines.
pub mod Chain
pub mod Rows
pub mod Moves
pub mod Writes
pub mod Reading
pub mod Rebuild
mod Examples
use tftsp.Common.{
  ℕ, suc, ◌+◌, ◌≤◌, Bool, true, false, not, ◌&&◌, ◌||◌, Option, none, some, List, [], ◌∷◌, ◌++◌,
  map, if◌then◌else◌, ltb, leb, ◌==◌, filter, any, mem, is_some,
}
use mathlib.Core.List.{flat_map}

-- a row of `person_closures`
pub record ClosureRow : Type 0 where
  pub ancestor : ℕ
  pub descendant : ℕ
  pub depth : ℕ

abbrev pub Closure : Type 0
Closure = List ClosureRow

abbrev pub row : ℕ → ℕ → ℕ → ClosureRow
row a d k = record { ancestor = a; descendant = d; depth = k }

-- the depth-0 row of a new person
unfoldable pub insert_self : ℕ → Closure → Closure
insert_self person t = t ++ row person person 0 ∷ []

-- `x IN (SELECT descendant_id FROM person_closures WHERE ancestor_id = person)`
unfoldable pub in_subtree : Closure → ℕ → ℕ → Bool
in_subtree t person x = any (λ r. r.ancestor == person && r.descendant == x) t

-- `wouldCreateCycle`
unfoldable pub would_create_cycle : Closure → ℕ → ℕ → Bool
unfolding in_subtree
would_create_cycle t person candidate =
    if person == candidate then true else in_subtree t person candidate

-- `moveSubtree`, statement A: links from the subtree to an ancestor outside it are removed
unfoldable pub strip_links : ℕ → Closure → Closure
unfolding in_subtree
strip_links person t =
    filter (λ r. not (in_subtree t person r.descendant && not (in_subtree t person r.ancestor))) t

-- the rows that the cross join adds for one row of the new father's ancestor chain
unfoldable pub graft_under : ClosureRow → ℕ → Closure → Closure
graft_under super person [] = []
graft_under super person (sub ∷ t) =
    let rest = graft_under super person t in
    if sub.ancestor == person
    then row super.ancestor sub.descendant (super.depth + sub.depth + 1) ∷ rest
    else rest

-- `super CROSS JOIN sub` under its two conditions; `t` is scanned for `super`, `all` for `sub`
unfoldable pub cross_join : ℕ → ℕ → Closure → Closure → Closure
unfolding graft_under
cross_join father person all [] = []
cross_join father person all (super ∷ t) =
    let rest = cross_join father person all t in
    if super.descendant == father then graft_under super person all ++ rest else rest

-- `moveSubtree`, statement B
unfoldable pub graft_links : ℕ → ℕ → Closure → Closure
unfolding cross_join
graft_links person father t = t ++ cross_join father person t t

unfoldable pub move_subtree : ℕ → Option ℕ → Closure → Closure
unfolding strip_links graft_links
move_subtree person none t = strip_links person t
move_subtree person (some father) t = graft_links person father (strip_links person t)

-- `removePersonRows`
unfoldable pub remove_person_rows : ℕ → Closure → Closure
remove_person_rows person t = filter (λ r. not (r.ancestor == person || r.descendant == person)) t

-- `LineageService.onCreate`
unfoldable pub on_create : ℕ → Option ℕ → Closure → Closure
unfolding insert_self move_subtree
on_create person none t = insert_self person t
on_create person (some father) t = move_subtree person (some father) (insert_self person t)

-- `LineageService.onFatherChange`: `none` where it throws SELF_ANCESTRY
unfoldable pub on_father_change : ℕ → Option ℕ → Closure → Option Closure
unfolding would_create_cycle move_subtree
on_father_change person none t = some (move_subtree person none t)
on_father_change person (some father) t =
    if would_create_cycle t person father then none else some (move_subtree person (some father) t)

-- the loop of `onSoftDelete` over the direct children, for the closure
unfoldable pub detach_children : List ℕ → Closure → Closure
unfolding move_subtree
detach_children [] t = t
detach_children (child ∷ children) t = detach_children children (move_subtree child none t)

-- `LineageService.onSoftDelete`, for the closure
unfoldable pub on_soft_delete : ℕ → List ℕ → Closure → Closure
unfolding detach_children remove_person_rows
on_soft_delete person children t = remove_person_rows person (detach_children children t)
