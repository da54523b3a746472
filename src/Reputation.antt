-- ===== src/Reputation.antt =====
-- apps/api/src/modules/reputation: the counters of a contributor and the trust that follows from them.
-- A rate is a fraction: the code compares the quotients of two counters, and the thresholds are decimal
-- fractions.
pub mod Counters
mod Examples
use tftsp.Common.{ℕ, ◌+◌, ◌*◌, Bool, true, false, Option, none, some, ◌&&◌, leb, ltb, if◌then◌else◌}

pub data TrustLevel : Type 0 where
  bronze silver gold : TrustLevel

pub record Rate : Type 0 where
  pub part : ℕ
  pub whole : ℕ

-- `a >= b`, of fractions with positive denominators
abbrev pub at_least : Rate → Rate → Bool
at_least a b = leb (b.part * a.whole) (a.part * b.whole)

-- a row of `contributor_reputations`
pub record ContributorReputation : Type 0 where
  pub total_contributions : ℕ
  pub accepted : ℕ
  pub rejected : ℕ
  pub accuracy_rate : Rate
  pub trust_level : TrustLevel

-- the row of `reputation_thresholds`
pub record ReputationThresholds : Type 0 where
  pub silver_min_accepted : ℕ
  pub gold_min_accepted : ℕ
  pub silver_min_accuracy : Rate
  pub gold_min_accuracy : Rate
  pub allow_viewer_contributions : Bool
  pub max_pending : ℕ

-- the row that `getOrCreateReputation` makes, with the defaults of the schema
abbrev pub new_reputation : ContributorReputation
new_reputation = record {
  total_contributions = 0;
  accepted = 0;
  rejected = 0;
  accuracy_rate = record { part = 0; whole = 1 };
  trust_level = bronze;
}

-- `Math.max(1, n)`
abbrev pub at_least_one : ℕ → ℕ
at_least_one n = if ltb n 1 then 1 else n

unfoldable pub derive_trust : ℕ → Rate → ReputationThresholds → TrustLevel
derive_trust accepted accuracy t =
    if leb t.gold_min_accepted accepted && at_least accuracy t.gold_min_accuracy
    then gold
    else if leb t.silver_min_accepted accepted && at_least accuracy t.silver_min_accuracy
    then silver
    else bronze

abbrev pub one_if : Bool → ℕ
one_if true = 1
one_if false = 0

abbrev pub rate_of : ℕ → ℕ → Rate
rate_of accepted rejected = record { part = accepted; whole = at_least_one (accepted + rejected) }

-- the row after `recordDecision`
unfoldable pub decided : Bool → ReputationThresholds → ContributorReputation → ContributorReputation
unfolding derive_trust
decided verdict thresholds rep =
    let accepted = rep.accepted + one_if verdict in
    let rejected = rep.rejected + (if verdict then 0 else 1) in
    record {
      total_contributions = rep.total_contributions + 1;
      accepted = accepted;
      rejected = rejected;
      accuracy_rate = rate_of accepted rejected;
      trust_level = derive_trust accepted (rate_of accepted rejected) thresholds;
    }

abbrev pub or_new : Option ContributorReputation → ContributorReputation
or_new none = new_reputation
or_new (some rep) = rep
