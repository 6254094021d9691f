-- ===== src/Strategy/Tests.antt =====
-- The rules of apps/engine/src/strategy/mod.rs on a token that grows.
use memecoin_bot.Base.{◌≡◌, ◌↔◌, refl, true, false, none, some}
use memecoin_bot.Base.Int.{pos}
use memecoin_bot.Security.Verdict.{pass}
use memecoin_bot.Candidate.Machine.{eligible}
use memecoin_bot.Sim.Models.{Digest}
use memecoin_bot.Strategy.{
  OptU64, OptI64, FeatureVector, StrategyContext, solana_pump, train_defaults,
  s5_curve_confirmation, s6_hybrid, rule, rule_decide, family_decide, gate_security_eligible,
  growth_refused, flow_refused, breadth_refused, creator_refused, curve_refused, curve_bps,
  as_value_i64, as_value_u64,
}
use memecoin_bot.Strategy.Signal.{IsGated, IsSignalled, rule_decide_iff}
use memecoin_bot.Strategy.Hybrid.{family_decide-hybrid}

-- A digest that is always the same.
abbrev fixed : Digest
fixed seed token time attempt = 1_234

abbrev growing : FeatureVector
growing = record {
  token_age_ms = pos 20_000;
  shared = record {
    unique_buyers_total = 12;
    net_quote_flow_total = (false, 4_000_000_000);
    creator_has_sold = false;
    trade_count_imbalance = pos 5;
    unique_buyer_velocity_15s = OptI64.value (pos 4);
    unique_buyer_acceleration_15s = OptI64.value (pos 2);
    repeat_buyer_ratio_bps = some 1_500;
    new_buyer_ratio_30s_bps = none;
    current_progress_to_graduation_bps = OptU64.unknown;
    win30_unique_buyers = 7;
    win30_new_unique_buyers = 0;
    price_change_15s_bps = OptI64.value (pos 300);
    price_change_30s_bps = OptI64.unknown;
    is_graduation_gap = false;
  };
  protocol = solana_pump (OptU64.value 900);
}

abbrev context : StrategyContext
context = record {
  features = some growing;
  candidate = eligible;
  security = some pass;
  first_eligible_at = some (pos 1_000);
  now = pos 20_000;
  token = "token";
  seed = 1;
}

-- Every rule sees its signal here.
hybrid_run : (family_decide fixed (rule s6_hybrid) train_defaults context).enters ≡ true
unfolding family_decide rule_decide gate_security_eligible growth_refused flow_refused
    breadth_refused creator_refused curve_refused curve_bps as_value_i64 as_value_u64
hybrid_run = refl

progress_known : curve_bps growing ≡ some 900
unfolding curve_bps as_value_u64
progress_known = refl

family_decide-hybrid_example :
    (family_decide fixed (rule s5_curve_confirmation) train_defaults context).enters ≡ true
family_decide-hybrid_example =
    family_decide-hybrid fixed s5_curve_confirmation train_defaults context
      (λ h. cc (progress_known, h)) hybrid_run

rule_decide_iff_example : ((rule_decide s6_hybrid train_defaults context).enters ≡ true) ↔ (
    IsGated context.security context.candidate
    × IsSignalled s6_hybrid train_defaults context.features)
rule_decide_iff_example = rule_decide_iff s6_hybrid train_defaults context
