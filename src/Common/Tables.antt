-- ===== src/Common/Tables.antt =====
-- A database table with a primary key: the keys that were issued, and the row under each key.
use Prim.Native.Nat.{ℕ, ◌+◌}
use mathlib.Core.Path.{◌≡◌, ap}
use mathlib.Core.Logic.{inl, inr}
use mathlib.Core.Bool.{Bool, false, ◌&&◌}
use native.Mathlib.Omega.{arith}
use mathlib.Core.Option.{Option, none, some}
use mathlib.Core.List.{List, [], ◌∷◌, ◌++◌}
use tftsp.Common.Tests.{if◌then◌else◌, ◌==◌, ==_iff, ==_refl, Bool-cases}
use tftsp.Common.Lists.{filter, length, mem}

pub record Table (V : Type 0) : Type 0 where
  pub ids : List ℕ
  pub at : ℕ → Option V

abbrev pub row_passes : {V : Type 0} → (V → Bool) → Option V → Bool
row_passes p none = false
row_passes p (some v) = p v

abbrev pub empty_table : {V : Type 0} → Table V
empty_table = record { ids = []; at = λ _. none }

-- `INSERT`
abbrev pub insert_row : {V : Type 0} → ℕ → V → Table V → Table V
insert_row x v t = record { ids = t.ids ++ x ∷ []; at = λ y. if x == y then some v else t.at y }

-- `UPDATE … WHERE id = x`, of a row that is there
abbrev pub set_row : {V : Type 0} → ℕ → V → Table V → Table V
set_row x v t = record t { at = λ y. if x == y then some v else t.at y }

-- `DELETE … WHERE id = x`
abbrev pub delete_row : {V : Type 0} → ℕ → Table V → Table V
delete_row x t = record t { at = λ y. if x == y then none else t.at y }

-- `SELECT id … WHERE …`
abbrev pub select_ids : {V : Type 0} → (V → Bool) → Table V → List ℕ
select_ids p t = filter (λ x. row_passes p (t.at x)) t.ids

-- `SELECT … WHERE …`
abbrev pub rows_at : {V : Type 0} → (V → Bool) → (ℕ → Option V) → List ℕ → List V
rows_at p at [] = []
rows_at p at (x ∷ xs) =
    let rest = rows_at p at xs in
    elim (at x) [ none ↦ rest | some v ↦ if p v then v ∷ rest else rest ]

abbrev pub select_rows : {V : Type 0} → (V → Bool) → Table V → List V
select_rows p t = rows_at p t.at t.ids

abbrev pub count_rows : {V : Type 0} → (V → Bool) → Table V → ℕ
count_rows p t = length (select_ids p t)

pub mem-select_ids :
    {V : Type 0} (p : V → Bool) (at : ℕ → Option V) (x : ℕ) (ids : List ℕ)
    → mem x (filter (λ y. row_passes p (at y)) ids) ≡ (row_passes p (at x) && mem x ids)
mem-select_ids p at x [] = ground arith
mem-select_ids p at x (y ∷ ys) = elim (Bool-cases (y == x)) [
  | inl e ↦
      ground (arith, mem-select_ids p at x ys, ap (λ z. row_passes p (at z)) ((==_iff y x).0 e))
  | inr e ↦ ground (arith, mem-select_ids p at x ys)
]

abbrev pub map_option : {V W : Type 0} → (V → W) → Option V → Option W
map_option f none = none
map_option f (some v) = some (f v)

-- `UPDATE` of every row
abbrev pub map_rows : {V : Type 0} → (V → V) → Table V → Table V
map_rows f t = record t { at = λ y. map_option f (t.at y) }

-- `UPDATE … WHERE id = x`, of a row that may be missing
abbrev pub update_row : {V : Type 0} → (V → V) → ℕ → Table V → Table V
update_row f x t = elim (t.at x) [ none ↦ t | some v ↦ set_row x (f v) t ]

pub update_row-at :
    {V : Type 0} (f : V → V) (x : ℕ) (t : Table V) (y : ℕ)
    → (update_row f x t).at y ≡ (if x == y then map_option f (t.at y) else t.at y)
update_row-at f x t y = elim (Bool-cases (x == y)) [
  | inl e ↦ ground (arith, ap t.at ((==_iff x y).0 e))
  | inr e ↦ ground arith
]

pub update_row-ids : {V : Type 0} (f : V → V) (x : ℕ) (t : Table V) → (update_row f x t).ids ≡ t.ids
update_row-ids f x t = ground arith

length-filter-insert_row :
    {V : Type 0} (p : V → Bool) (at : ℕ → Option V) (x : ℕ) (v : V) (ids : List ℕ)
    → mem x ids ≡ false
    → length (filter (λ y. row_passes p (if x == y then some v else at y)) (ids ++ x ∷ []))
      ≡ length (filter (λ y. row_passes p (at y)) ids) + (if p v then 1 else 0)
length-filter-insert_row p at x v [] h = ground (arith, ==_refl x)
length-filter-insert_row p at x v (y ∷ ys) h =
    ground (arith, length-filter-insert_row p at x v ys, ==_iff x y, ==_refl x)

pub count_rows-insert_row :
    {V : Type 0} (p : V → Bool) (x : ℕ) (v : V) (t : Table V)
    → mem x t.ids ≡ false
    → count_rows p (insert_row x v t) ≡ count_rows p t + (if p v then 1 else 0)
count_rows-insert_row p x v t h = length-filter-insert_row p t.at x v t.ids h
