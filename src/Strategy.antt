-- ===== src/Strategy.antt =====
-- The entry rules of apps/engine/src/strategy/mod.rs, on the features that they read of
-- apps/engine/src/features/vector.rs and opt.rs. A rule is known by its id, of which `family` makes six.
pub mod Signal
pub mod Hybrid
pub mod Prospective
mod Tests
use memecoin_bot.Base.{
  ℕ, zero, suc, String, Bool, true, false, ◌&&◌, Option, none, some, ltb, if◌then◌else◌, max,
}
use memecoin_bot.Base.Int.{ℤ, pos, negsuc, ltb_ℤ, max_ℤ}
use memecoin_bot.Security.Verdict.{SecurityVerdict, reject}
use memecoin_bot.Candidate.Machine.{CandidateState, eligible, eq_state}
use memecoin_bot.Sim.Models.{Digest}
use memecoin_bot.Sim.Policy.Gate.{
  EntryPolicyId, first_eligible, EntryDecision, enter, refused, EntryQuery, may_enter,
}

pub data OptU64 : Type 0 where
  value : ℕ → OptU64
  unknown : OptU64
  partial : Option ℕ → OptU64

pub data OptI64 : Type 0 where
  value : ℤ → OptI64
  unknown : OptI64

unfoldable pub as_value_u64 : OptU64 → Option ℕ
as_value_u64 (OptU64.value v) = some v
as_value_u64 (OptU64.partial v) = v
as_value_u64 OptU64.unknown = none

unfoldable pub as_value_i64 : OptI64 → Option ℤ
as_value_i64 (OptI64.value v) = some v
as_value_i64 OptI64.unknown = none

-- The progress of each protocol that has one.
pub data ProtocolFeatures : Type 0 where
  solana_pump : OptU64 → ProtocolFeatures
  robinhood_pons : OptU64 → ProtocolFeatures
  base_clanker no_protocol : ProtocolFeatures

-- The features that the rules read. The signed decimal text of a flow is its sign and its magnitude.
pub record SharedFeatures : Type 0 where
  pub unique_buyers_total : ℕ
  pub net_quote_flow_total : Bool × ℕ
  pub creator_has_sold : Bool
  pub trade_count_imbalance : ℤ
  pub unique_buyer_velocity_15s : OptI64
  pub unique_buyer_acceleration_15s : OptI64
  pub repeat_buyer_ratio_bps : Option ℕ
  pub new_buyer_ratio_30s_bps : Option ℕ
  pub current_progress_to_graduation_bps : OptU64
  pub win30_unique_buyers : ℕ
  pub win30_new_unique_buyers : ℕ
  pub price_change_15s_bps : OptI64
  pub price_change_30s_bps : OptI64
  pub is_graduation_gap : Bool

pub record FeatureVector : Type 0 where
  pub token_age_ms : ℤ
  pub shared : SharedFeatures
  pub protocol : ProtocolFeatures

pub record StrategyContext : Type 0 where
  pub features : Option FeatureVector
  pub candidate : CandidateState
  pub security : Option SecurityVerdict
  pub first_eligible_at : Option ℤ
  pub now : ℤ
  pub token : String
  pub seed : ℕ

pub record StrategyDecision : Type 0 where
  pub enters : Bool
  pub reason : String

pub record StrategyThresholds : Type 0 where
  pub min_buyer_accel_15s : ℤ
  pub min_buyer_velocity_15s : ℤ
  pub min_unique_buyers : ℕ
  pub max_repeat_buyer_ratio_bps : Option ℕ
  pub min_new_buyer_ratio_30s_bps : Option ℕ
  pub min_net_flow_non_negative : Bool
  pub reject_creator_sold : Bool
  pub min_curve_progress_bps : Option ℕ
  pub max_curve_progress_bps : Option ℕ
  pub min_age_ms : ℤ
  pub baseline : Option String

abbrev pub train_defaults : StrategyThresholds
train_defaults = record {
  min_buyer_accel_15s = pos 1;
  min_buyer_velocity_15s = pos 2;
  min_unique_buyers = 3;
  max_repeat_buyer_ratio_bps = some 6_000;
  min_new_buyer_ratio_30s_bps = some 2_000;
  min_net_flow_non_negative = true;
  reject_creator_sold = false;
  min_curve_progress_bps = some 200;
  max_curve_progress_bps = some 8_000;
  min_age_ms = pos 15_000;
  baseline = none;
}

abbrev pub from_train_quantile : ℤ → ℤ → ℕ → StrategyThresholds
from_train_quantile accel_q50 vel_q50 buyers_q50 = record train_defaults {
  min_buyer_accel_15s = max_ℤ accel_q50 (pos 1);
  min_buyer_velocity_15s = max_ℤ vel_q50 (pos 1);
  min_unique_buyers = max buyers_q50 2;
}

pub data RuleId : Type 0 where
  s1_buyer_growth s2_flow_confirmation s3_broad_participation : RuleId
  s4_creator_filtered s5_curve_confirmation s6_hybrid : RuleId

-- A check gives the reason of a refusal, or none.
unfoldable pub gate_security_eligible : Option SecurityVerdict → CandidateState → Option String
gate_security_eligible none candidate = some "SECURITY_UNKNOWN"
gate_security_eligible (some reject) candidate = some "SECURITY_REJECT"
gate_security_eligible (some SecurityVerdict.unknown) candidate = some "SECURITY_UNKNOWN"
gate_security_eligible (some _) candidate =
    if eq_state candidate eligible then none else some "NOT_ELIGIBLE"

abbrev pub net_negative : Bool × ℕ → Bool
net_negative (sign, magnitude) = sign && ltb 0 magnitude

abbrev pub progress_of : ProtocolFeatures → OptU64 → Option ℕ
progress_of (solana_pump p) shared = as_value_u64 p
progress_of (robinhood_pons p) shared = as_value_u64 p
progress_of _ shared = as_value_u64 shared

unfoldable pub curve_bps : FeatureVector → Option ℕ
curve_bps f = progress_of f.protocol f.shared.current_progress_to_graduation_bps

abbrev pub asks_growth : RuleId → Bool
asks_growth s1_buyer_growth = true
asks_growth s2_flow_confirmation = true
asks_growth s6_hybrid = true
asks_growth _ = false

abbrev pub asks_flow : RuleId → Bool
asks_flow s2_flow_confirmation = true
asks_flow s6_hybrid = true
asks_flow _ = false

abbrev pub asks_breadth : RuleId → Bool
asks_breadth s3_broad_participation = true
asks_breadth s6_hybrid = true
asks_breadth _ = false

abbrev pub asks_creator : RuleId → Bool
asks_creator s4_creator_filtered = true
asks_creator s6_hybrid = true
asks_creator _ = false

abbrev pub asks_curve : RuleId → Bool
asks_curve s5_curve_confirmation = true
asks_curve s6_hybrid = true
asks_curve _ = false

-- Whether a curve of unknown progress is refused.
abbrev pub asks_known_curve : RuleId → Bool
asks_known_curve s5_curve_confirmation = true
asks_known_curve _ = false

abbrev pub or_next : Option String → Option String → Option String
or_next none next = next
or_next (some why) next = some why

abbrev pub refuse_if : Bool → Option String
refuse_if b = if b then some "STRATEGY_FILTER" else none

abbrev pub acceleration_refused : ℤ → Option ℤ → Option String
acceleration_refused least none = some "DATA_INCOMPLETE"
acceleration_refused least (some a) = refuse_if (ltb_ℤ a least)

abbrev pub velocity_refused : ℤ → Option ℤ → Option String
velocity_refused least none = some "STRATEGY_FILTER"
velocity_refused least (some v) = refuse_if (ltb_ℤ v least)

-- Two values that are both known, the first above the second.
abbrev pub both_above : Option ℕ → Option ℕ → Bool
both_above (some a) (some b) = ltb b a
both_above (some a) none = false
both_above none b = false

unfoldable pub growth_refused : StrategyThresholds → SharedFeatures → Option String
growth_refused thr s =
    or_next
      (acceleration_refused thr.min_buyer_accel_15s (as_value_i64 s.unique_buyer_acceleration_15s))
      (velocity_refused thr.min_buyer_velocity_15s (as_value_i64 s.unique_buyer_velocity_15s))

unfoldable pub flow_refused : StrategyThresholds → SharedFeatures → Option String
flow_refused thr s =
    or_next (refuse_if (thr.min_net_flow_non_negative && net_negative s.net_quote_flow_total))
      (refuse_if (ltb_ℤ s.trade_count_imbalance (pos 0)))

unfoldable pub breadth_refused : StrategyThresholds → SharedFeatures → Option String
breadth_refused thr s = or_next (refuse_if (ltb s.unique_buyers_total thr.min_unique_buyers)) (
    or_next (refuse_if (both_above s.repeat_buyer_ratio_bps thr.max_repeat_buyer_ratio_bps))
      (refuse_if (both_above thr.min_new_buyer_ratio_30s_bps s.new_buyer_ratio_30s_bps)))

unfoldable pub creator_refused : StrategyThresholds → SharedFeatures → Option String
creator_refused thr s = refuse_if (thr.reject_creator_sold && s.creator_has_sold)

abbrev pub progress_refused : RuleId → StrategyThresholds → Option ℕ → Option String
progress_refused id thr none = if asks_known_curve id then some "DATA_INCOMPLETE" else none
progress_refused id thr (some p) =
    or_next (refuse_if (both_above thr.min_curve_progress_bps (some p)))
      (refuse_if (both_above (some p) thr.max_curve_progress_bps))

unfoldable pub curve_refused : RuleId → StrategyThresholds → FeatureVector → Option String
curve_refused id thr f =
    or_next (progress_refused id thr (curve_bps f))
      (refuse_if (ltb f.shared.unique_buyers_total thr.min_unique_buyers))

abbrev pub when_asked : Bool → Option String → Option String
when_asked asked check = if asked then check else none

-- The checks of the features, of which a rule skips those that it does not ask for.
abbrev pub checks_refused : RuleId → StrategyThresholds → FeatureVector → Option String
checks_refused id thr f = or_next (when_asked (asks_growth id) (growth_refused thr f.shared)) (
    or_next (when_asked (asks_flow id) (flow_refused thr f.shared)) (
      or_next (when_asked (asks_breadth id) (breadth_refused thr f.shared)) (
        or_next (when_asked (asks_creator id) (creator_refused thr f.shared))
          (when_asked (asks_curve id) (curve_refused id thr f)))))

abbrev pub features_refused : RuleId → StrategyThresholds → Option FeatureVector → Option String
features_refused id thr none = some "DATA_INCOMPLETE"
features_refused id thr (some f) =
    if ltb_ℤ f.token_age_ms thr.min_age_ms then some "MIN_AGE" else checks_refused id thr f

abbrev pub decision_of : Option String → StrategyDecision
decision_of none = record { enters = true; reason = "SIGNAL" }
decision_of (some why) = record { enters = false; reason = why }

-- `RuleEntry::decide`.
unfoldable pub rule_decide : RuleId → StrategyThresholds → StrategyContext → StrategyDecision
rule_decide id thr ctx = decision_of (
    or_next (gate_security_eligible ctx.security ctx.candidate)
      (features_refused id thr ctx.features))

abbrev pub baseline_decision : EntryDecision → StrategyDecision
baseline_decision enter = record { enters = true; reason = "BASELINE" }
baseline_decision (refused why) = record { enters = false; reason = why }

-- `BaselineEntry::decide`.
unfoldable pub baseline_decide : Digest → EntryPolicyId → StrategyContext → StrategyDecision
baseline_decide digest policy ctx = baseline_decision (
    may_enter digest (record {
      policy = policy;
      candidate = ctx.candidate;
      security = ctx.security;
      first_eligible_at = ctx.first_eligible_at;
      now = ctx.now;
      token = ctx.token;
      seed = ctx.seed;
    }))

-- What `family` makes of an id: a baseline, or a rule.
pub data FamilyId : Type 0 where
  baseline : EntryPolicyId → FamilyId
  rule : RuleId → FamilyId
  other_id : FamilyId

-- The thresholds of a rule made by `family`.
abbrev pub family_thresholds : RuleId → StrategyThresholds → StrategyThresholds
family_thresholds s4_creator_filtered thr = record thr { reject_creator_sold = true }
family_thresholds s6_hybrid thr = record thr { reject_creator_sold = true }
family_thresholds _ thr = thr

-- `family(id, thr).decide(ctx)`.
unfoldable pub family_decide :
    Digest → FamilyId → StrategyThresholds → StrategyContext → StrategyDecision
family_decide digest (baseline policy) thr ctx = baseline_decide digest policy ctx
family_decide digest (rule id) thr ctx = rule_decide id (family_thresholds id thr) ctx
family_decide digest other_id thr ctx = baseline_decide digest first_eligible ctx
