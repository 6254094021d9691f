-- ===== src/Strategy/Prospective.antt =====
-- The prospective policies of apps/engine/src/strategy/prospective.rs. The id of a policy, which is also
-- the reason that it gives, is a value of `ProspectivePolicy`.
use memecoin_bot.Base.{
  ℕ, ◌≤◌, ◌≡◌, ◌↔◌, String, Bool, true, false, not, ◌&&◌, ◌||◌, Option, none, some, arith, ltb, leb,
  inl, inr, Option-cases, if◌then◌else◌, max,
}
use memecoin_bot.Base.Int.{ℤ, pos, ltb_ℤ, max_ℤ}
use memecoin_bot.Security.Verdict.{SecurityVerdict, reject}
use memecoin_bot.Candidate.Machine.{
  CandidateState, eligible, eq_state, security_rejected, expired, data_incomplete,
}
use memecoin_bot.Sim.Models.{SimConfig}
use memecoin_bot.Strategy.{
  as_value_i64, SharedFeatures, FeatureVector, StrategyContext, StrategyDecision,
}

abbrev refuse : String → StrategyDecision
refuse why = record { enters = false; reason = why }

abbrev verdict_rejects : Option SecurityVerdict → Bool
verdict_rejects (some reject) = true
verdict_rejects _ = false

abbrev not_ready : CandidateState → Bool
not_ready security_rejected = true
not_ready expired = true
not_ready data_incomplete = true
not_ready _ = false

abbrev smoke_enters : StrategyDecision
smoke_enters = record { enters = true; reason = "PIPELINE_SMOKE_POLICY" }

-- The part of `smoke_decide` that reads the features, for a window of `window_ms`.
abbrev smoke_on : ℤ → Option FeatureVector → StrategyDecision
smoke_on window_ms none = smoke_enters
smoke_on window_ms (some f) =
    if ltb_ℤ f.token_age_ms (max_ℤ window_ms (pos 1_000))
    then refuse "PONS_SNIPE_WINDOW"
    else if f.shared.is_graduation_gap
    then refuse "GRADUATION_GAP"
    else smoke_enters

unfoldable smoke_decide : StrategyContext → SimConfig → StrategyDecision
smoke_decide ctx cfg =
    if verdict_rejects ctx.security
    then refuse "SECURITY_REJECT"
    else if not_ready ctx.candidate
    then refuse "NOT_READY"
    else smoke_on cfg.fees.pons_snipe_window_ms ctx.features

data ProspectivePolicy : Type 0 where
  p0_first_eligible_control p1_solana_buyers_3_30s : ProspectivePolicy
  p2_solana_buyers_plus_imbalance p3_price_without_buyers_avoid : ProspectivePolicy
  p4_low_participation_filter : ProspectivePolicy

abbrev policy_text : ProspectivePolicy → String
policy_text p0_first_eligible_control = "P0_FIRST_ELIGIBLE_CONTROL"
policy_text p1_solana_buyers_3_30s = "P1_SOLANA_BUYERS_3_30S"
policy_text p2_solana_buyers_plus_imbalance = "P2_SOLANA_BUYERS_PLUS_IMBALANCE"
policy_text p3_price_without_buyers_avoid = "P3_PRICE_WITHOUT_BUYERS_AVOID"
policy_text p4_low_participation_filter = "P4_LOW_PARTICIPATION_FILTER"

-- Whether the value, 0 where it is unknown, is above 0.
abbrev above_0 : Option ℤ → Bool
above_0 none = false
above_0 (some v) = ltb_ℤ (pos 0) v

abbrev first_known : Option ℤ → Option ℤ → Option ℤ
first_known none b = b
first_known (some a) b = some a

unfoldable price_up : SharedFeatures → Bool
price_up s =
    above_0
      (first_known (as_value_i64 s.price_change_30s_bps) (as_value_i64 s.price_change_15s_bps))

unfoldable buyer_growth : SharedFeatures → Bool
buyer_growth s =
    ltb 0 s.win30_new_unique_buyers || above_0 (as_value_i64 s.unique_buyer_acceleration_15s)

abbrev ub30 : SharedFeatures → ℕ
ub30 s = max s.win30_unique_buyers s.unique_buyers_total

abbrev wants : ProspectivePolicy → SharedFeatures → Bool
wants p0_first_eligible_control s = true
wants p1_solana_buyers_3_30s s = leb 3 (ub30 s)
wants p2_solana_buyers_plus_imbalance s = buyer_growth s && ltb_ℤ (pos 0) s.trade_count_imbalance
wants p3_price_without_buyers_avoid s = not (price_up s) || buyer_growth s
wants p4_low_participation_filter s = leb 3 (ub30 s)

abbrev decide_on : ProspectivePolicy → Option FeatureVector → StrategyDecision
decide_on p none = refuse "DATA_INCOMPLETE"
decide_on p (some f) = record { enters = wants p f.shared; reason = policy_text p }

unfoldable prospective_decide : ProspectivePolicy → StrategyContext → StrategyDecision
prospective_decide p ctx =
    if verdict_rejects ctx.security
    then refuse "SECURITY_REJECT"
    else if eq_state ctx.candidate eligible
    then decide_on p ctx.features
    else refuse "NOT_ELIGIBLE"

-- The buyers of the last 30 seconds are among all of the token's buyers. With this the window plays no
-- part: the policy named for it decides by the total, as the filter of low participation does.
prospective_decide-window :
    (ctx : StrategyContext) (f : FeatureVector)
    → ctx.features ≡ some f
    → f.shared.win30_unique_buyers ≤ f.shared.unique_buyers_total
    → (((prospective_decide p1_solana_buyers_3_30s ctx).enters ≡ true) ↔ (
        (verdict_rejects ctx.security ≡ false)
        × (ctx.candidate ≡ eligible)
        × (3 ≤ f.shared.unique_buyers_total)))
      × ((prospective_decide p4_low_participation_filter ctx).enters
          ≡ (prospective_decide p1_solana_buyers_3_30s ctx).enters)
unfolding prospective_decide
prospective_decide-window ctx f h within =
    rw h ((λ e. ground arith, λ q. ground arith), ground arith)

-- A policy enters only without a reject, on an eligible candidate, and on known features that it wants.
prospective_decide-refused :
    (p : ProspectivePolicy) (ctx : StrategyContext)
    → (prospective_decide p ctx).enters ≡ true
    → (verdict_rejects ctx.security ≡ false)
      × (ctx.candidate ≡ eligible)
      × ((f : FeatureVector) × (ctx.features ≡ some f) × (wants p f.shared ≡ true))
unfolding prospective_decide
prospective_decide-refused p ctx h = elim (Option-cases ctx.features) [
  | inl e ↦ absurd (ground (arith, e))
  | inr (f, e) ↦ (ground arith, ground arith, (f, e, ground (arith, e)))
]
