-- ===== src/Reputation/Examples.antt =====
-- Runs of the reputation counters.
use tftsp.Common.{◌≡◌, [], ◌∷◌, true, false}
use tftsp.Reputation.{ReputationThresholds}
use tftsp.Reputation.Counters.{after_decisions, after_decisions-counts}

abbrev thresholds : ReputationThresholds
thresholds = record {
  silver_min_accepted = 5;
  gold_min_accepted = 20;
  silver_min_accuracy = record { part = 7; whole = 10 };
  gold_min_accuracy = record { part = 9; whole = 10 };
  allow_viewer_contributions = false;
  max_pending = 20;
}

after_decisions-counts_example :
    ((after_decisions thresholds (true ∷ false ∷ true ∷ [])).total_contributions ≡ 3)
    × ((after_decisions thresholds (true ∷ false ∷ true ∷ [])).accepted ≡ 2)
    × ((after_decisions thresholds (true ∷ false ∷ true ∷ [])).rejected ≡ 1)
after_decisions-counts_example = after_decisions-counts thresholds (true ∷ false ∷ true ∷ [])
