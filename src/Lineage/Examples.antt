-- ===== src/Lineage/Examples.antt =====
-- Runs of the closure table on small families: person 1, with sons 2 and 3.
use tftsp.Common.{
  ℕ, ◌≡◌, ◌↔◌, refl, Bool, true, false, Option, none, some, [], ◌∷◌, ◌≤◌, mem, arith,
}
use tftsp.Lineage.{
  in_subtree, strip_links, graft_links, cross_join, graft_under, insert_self, Closure, on_create,
  on_father_change, move_subtree, would_create_cycle,
}
use tftsp.Lineage.Rows.{has}
use tftsp.Lineage.Chain.{Chain, Above, update}
use tftsp.Lineage.Rebuild.{rebuild}
use tftsp.Lineage.Rebuild.Closing.{rebuild-IsClosure}
use tftsp.Lineage.Moves.{deepest, has-deepest, IsClosure, FathersLive, would_create_cycle_iff}
use tftsp.Lineage.Writes.{on_create-IsClosure, on_father_change-IsClosure, FathersLive-create}

abbrev nobody : ℕ → Bool
nobody _ = false

abbrev no_father : ℕ → Option ℕ
no_father _ = none

empty-IsClosure : IsClosure nobody no_father []
unfolding has
empty-IsClosure = record { sound = λ a d k h. cc; complete = λ a d k h c. cc }

empty-FathersLive : FathersLive nobody no_father
empty-FathersLive d m e = cc

abbrev one_live : ℕ → Bool
one_live = update nobody 1 true

abbrev one_father : ℕ → Option ℕ
one_father = update no_father 1 none

one-FathersLive : FathersLive one_live one_father
one-FathersLive =
    FathersLive-create {live = nobody} {father = no_father} 1 none empty-FathersLive (λ m e. cc)

one-IsClosure : IsClosure one_live one_father (on_create 1 none [])
one-IsClosure = on_create-IsClosure empty-IsClosure empty-FathersLive 1 none refl (λ m e. cc)

abbrev two_live : ℕ → Bool
two_live = update one_live 2 true

abbrev two_father : ℕ → Option ℕ
two_father = update one_father 2 (some 1)

only_one : (m : ℕ) → some 1 ≡ some m → one_live m ≡ true
only_one m e = ground arith

-- the closure of father 1 and son 2
abbrev family_of_two : Closure
family_of_two = on_create 2 (some 1) (on_create 1 none [])

two-IsClosure : IsClosure two_live two_father family_of_two
two-IsClosure = on_create-IsClosure one-IsClosure one-FathersLive 2 (some 1) refl only_one

two-FathersLive : FathersLive two_live two_father
two-FathersLive =
    FathersLive-create {live = one_live} {father = one_father} 2 (some 1) one-FathersLive only_one

-- the son becomes a root
on_father_change-IsClosure_example :
    IsClosure two_live (update two_father 2 none) (move_subtree 2 none family_of_two)
unfolding on_father_change
on_father_change-IsClosure_example =
    on_father_change-IsClosure two-IsClosure two-FathersLive 2 none refl (λ m e. cc) refl

-- the son may not become the father of his father
would_create_cycle_iff_example :
    (would_create_cycle family_of_two 1 2 ≡ true) ↔ Above two_father 2 1
would_create_cycle_iff_example = would_create_cycle_iff two-IsClosure 1 2 refl

two-listed : (d : ℕ) → two_live d ≡ true → mem d (2 ∷ 1 ∷ []) ≡ true
two-listed d h = ground arith

two_depth : deepest family_of_two ≡ 1
unfolding on_create move_subtree strip_links graft_links cross_join graft_under insert_self
    in_subtree
two_depth = refl

two-short : (d a k : ℕ) → two_live d ≡ true → Chain two_father d a k → k ≤ 1
two-short d a k alive chain =
    omega
      (arith, has-deepest family_of_two a d k (two-IsClosure.complete a d k alive chain), two_depth)

rebuild-IsClosure_example :
    (t : Closure) × (rebuild two_live two_father 2 (2 ∷ 1 ∷ []) ≡ some t)
    × IsClosure two_live two_father t
rebuild-IsClosure_example =
    rebuild-IsClosure two_live two_father (2 ∷ 1 ∷ []) 1 two-FathersLive two-listed two-short

-- the pre-check refuses it on the table as well
refused : on_father_change 1 (some 2) family_of_two ≡ none
unfolding on_father_change would_create_cycle in_subtree on_create move_subtree strip_links
    graft_links cross_join graft_under insert_self
refused = refl
