-- ===== src/Lineage/Rebuild.antt =====
-- lineage.repository.ts `rebuildForTenant`: the closure table from the fathers on record, by a
-- recursive query.
use tftsp.Common.{
  ◌∙◌, ℕ, zero, suc, ◌+◌, ◌≤◌, ◌<◌, ◌≡◌, refl, sym, ap, subst, Bool, true, Option, none, some, List,
  [], ◌∷◌, ◌++◌, ◌&&◌, ◌||◌, ◌==◌, ==_iff, if◌then◌else◌, filter, mem, arith, Bool-cases,
  Option-cases, inl, inr, or-split,
}
use tftsp.Lineage.{Closure, ClosureRow, row}
use tftsp.Lineage.Chain.{Chain, here, up, Chain-append, Chain-depth}
use tftsp.Lineage.Rows.{is_row, is_row-eq, has, has-append, has-filter}
use tftsp.Lineage.Moves.{IsClosure, FathersLive, Chain-live}
pub mod Rounds
pub mod Closing

-- the self rows of the live persons
abbrev pub self_rows : (ℕ → Bool) → List ℕ → Closure
self_rows live [] = []
self_rows live (x ∷ ids) =
    let rest = self_rows live ids in if live x then row x x 0 ∷ rest else rest

-- the first part of the recursive query; the father function gives the fathers of live persons
abbrev pub first_level : (ℕ → Option ℕ) → List ℕ → Closure
first_level father [] = []
first_level father (x ∷ ids) =
    let rest = first_level father ids in elim (father x) [ none ↦ rest | some f ↦ row f x 1 ∷ rest ]

-- its second part, on the rows of the round before
abbrev pub next_level : (ℕ → Option ℕ) → Closure → Closure
next_level father [] = []
next_level father (r ∷ rows) =
    let rest = next_level father rows in
    elim (father r.ancestor) [ none ↦ rest | some f ↦ row f r.descendant (r.depth + 1) ∷ rest ]

abbrev pub prepend : Closure → Option Closure → Option Closure
prepend rows none = none
prepend rows (some t) = some (rows ++ t)

-- the rounds of the query until one has no rows; `none` where the fuel runs out
unfoldable pub rounds : (ℕ → Option ℕ) → ℕ → Closure → Option Closure
rounds father fuel [] = some []
rounds father zero (r ∷ rows) = none
rounds father (suc fuel) (r ∷ rows) =
    prepend (r ∷ rows) (rounds father fuel (next_level father (r ∷ rows)))

abbrev pub with_self : (ℕ → Bool) → List ℕ → Option Closure → Option Closure
with_self live ids none = none
with_self live ids (some anc) = some (self_rows live ids ++ filter (λ r. live r.ancestor) anc)

-- `rebuildForTenant`, for who is live and the fathers of the live
unfoldable pub rebuild : (ℕ → Bool) → (ℕ → Option ℕ) → ℕ → List ℕ → Option Closure
unfolding rounds
rebuild live father fuel ids = with_self live ids (rounds father fuel (first_level father ids))
