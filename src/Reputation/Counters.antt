-- ===== src/Reputation/Counters.antt =====
-- reputation.service.ts: the counters after any history of decisions.
use tftsp.Common.{◌≡◌, refl, Bool, true, false, List, [], ◌∷◌, arith, length, count_by, not}
use tftsp.Reputation.{ContributorReputation, ReputationThresholds, decided, new_reputation}

-- a new contributor after the decisions of a list, the last one first
abbrev pub after_decisions : ReputationThresholds → List Bool → ContributorReputation
after_decisions thresholds [] = new_reputation
after_decisions thresholds (verdict ∷ earlier) =
    decided verdict thresholds (after_decisions thresholds earlier)

-- After any history of decisions the counters of a contributor are the numbers of all decisions, of
-- acceptances and of rejections.
pub after_decisions-counts :
    (t : ReputationThresholds) (history : List Bool)
    → ((after_decisions t history).total_contributions ≡ length history)
      × ((after_decisions t history).accepted ≡ count_by (λ v. v) history)
      × ((after_decisions t history).rejected ≡ count_by not history)
unfolding decided
after_decisions-counts t [] = (refl, refl, refl)
after_decisions-counts t (true ∷ history) =
    let (total, accepted, rejected) = after_decisions-counts t history in
    (omega (arith, total), omega (arith, accepted), omega (arith, rejected))
after_decisions-counts t (false ∷ history) =
    let (total, accepted, rejected) = after_decisions-counts t history in
    (omega (arith, total), omega (arith, accepted), omega (arith, rejected))
