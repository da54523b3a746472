-- ===== src/Rbac/Scope.antt =====
-- common/guards/policy.guard.ts: the walk up the units, and what the guard grants.
use tftsp.Common.{
  ℕ, zero, suc, ◌+◌, ◌≡◌, ◌≢◌, ◌<◌, refl, true, false, Option, none, some, List, arith, mem,
  Bool-cases, Option-cases, inl, inr,
}
use tftsp.Rbac.Guard.{climbs_to}

-- the unit is the other one or below it
pub data IsUnder (parent : ℕ → Option ℕ) : ℕ → ℕ → Type 0 where
  itself : {x : ℕ} → IsUnder parent x x
  below : {x y z : ℕ} → parent x ≡ some y → IsUnder parent y z → IsUnder parent x z

module _ (parent : ℕ → Option ℕ) (scope : List ℕ) where
  -- Where the walk from a unit answers yes, the unit is a unit of the scope or below one.
  pub climbs_to_sound :
      (fuel x : ℕ)
      → climbs_to parent scope fuel (some x) ≡ some true
      → (y : ℕ) × (mem y scope ≡ true) × IsUnder parent x y
  unfolding climbs_to
  climbs_to_sound zero x h = cc
  climbs_to_sound (suc fuel) x h = elim (Bool-cases (mem x scope)) [
    | inl e ↦ (x, e, itself)
    | inr e ↦ elim (Option-cases (parent x)) [
      | inl p ↦ absurd_end fuel (ground arith)
      | inr (y, p) ↦ let (z, m, u) = climbs_to_sound fuel y (ground arith) in (z, m, below p u)
    ]
  ]
    where
      absurd_end : (fuel : ℕ) {A : Type 0} → climbs_to parent scope fuel none ≡ some true → A
      absurd_end zero e = cc
      absurd_end (suc n) e = cc

  -- Where the walk from a unit answers no, no unit that it is or is below is in the scope.
  pub climbs_to_complete :
      (fuel x : ℕ)
      → climbs_to parent scope fuel (some x) ≡ some false
      → (y : ℕ) → IsUnder parent x y
      → mem y scope ≡ false
  unfolding climbs_to
  climbs_to_complete zero x h y u = cc
  climbs_to_complete (suc fuel) x h y u = elim (Bool-cases (mem x scope)) [
    | inl e ↦ ground arith
    | inr e ↦ go (λ v c w. climbs_to_complete fuel v c y w) u e (ground arith)
  ]
    where
      go :
          ((v : ℕ)
            → climbs_to parent scope fuel (some v) ≡ some false
            → IsUnder parent v y
            → mem y scope ≡ false)
          → {w : ℕ} → IsUnder parent w y
          → mem w scope ≡ false
          → climbs_to parent scope fuel (parent w) ≡ some false
          → mem y scope ≡ false
      go rest itself e c = e
      go rest (below {y = v} p u') e c = rest v (rw p at c) u'

  -- Where a measure falls from each unit to its parent, the walk from a unit ends within two steps more
  -- than its measure.
  pub climbs_to_ends :
      (depth : ℕ → ℕ)
      → ((x y : ℕ) → parent x ≡ some y → depth y < depth x)
      → (fuel x : ℕ) → depth x + 1 < fuel
      → climbs_to parent scope fuel (some x) ≢ none
  unfolding climbs_to
  climbs_to_ends depth falls zero x h e = omega arith
  climbs_to_ends depth falls (suc fuel) x h e = elim (Bool-cases (mem x scope)) [
    | inl m ↦ cc
    | inr m ↦ elim (Option-cases (parent x)) [
      | inl p ↦ end fuel (omega arith) (ground arith)
      | inr (y, p) ↦ climbs_to_ends depth falls fuel y (omega (arith, falls x y p)) (ground arith)
    ]
  ]
    where
      end : (n : ℕ) → 0 < n → climbs_to parent scope n none ≢ none
      end zero h e = omega arith
      end (suc n) h e = cc

  -- From a unit that is its own parent and outside the scope, the walk does not end in any number of steps.
  pub climbs_to_loops :
      (x : ℕ)
      → parent x ≡ some x
      → mem x scope ≡ false
      → (fuel : ℕ) → climbs_to parent scope fuel (some x) ≡ none
  unfolding climbs_to
  climbs_to_loops x p m zero = refl
  climbs_to_loops x p m (suc fuel) = ground (arith, m, p, climbs_to_loops x p m fuel)
