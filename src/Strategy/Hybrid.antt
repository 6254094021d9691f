-- ===== src/Strategy/Hybrid.antt =====
-- The hybrid rule of apps/engine/src/strategy/mod.rs against the other five.
use memecoin_bot.Base.{◌≡◌, ◌≢◌, refl, true, Option, none, some}
use memecoin_bot.Sim.Models.{Digest}
use memecoin_bot.Strategy.{
  FeatureVector, StrategyContext, StrategyThresholds, RuleId, s1_buyer_growth, s2_flow_confirmation,
  s3_broad_participation, s4_creator_filtered, s5_curve_confirmation, s6_hybrid, OptU64,
  as_value_u64, ProtocolFeatures, solana_pump, robinhood_pons, base_clanker, no_protocol,
  progress_of, curve_bps, rule, family_thresholds, family_decide,
}
use memecoin_bot.Strategy.Signal.{Fits, ProgressFits, IsSignalled, rule_decide_iff}

-- The progress along the curve is known, where the rule refuses an unknown one.
abbrev pub IsKnownFor : RuleId → Option FeatureVector → Type 0
IsKnownFor s5_curve_confirmation (some f) = curve_bps f ≢ none
IsKnownFor s5_curve_confirmation none = Unit
IsKnownFor _ features = Unit

Fits-known :
    (thr : StrategyThresholds) (o : OptU64) → as_value_u64 o ≢ none → Fits Unit thr o → Fits ⊥ thr o
unfolding as_value_u64
Fits-known thr (OptU64.value p) known h = h
Fits-known thr (OptU64.partial (some p)) known h = h
Fits-known thr (OptU64.partial none) known h = known refl
Fits-known thr OptU64.unknown known h = known refl

ProgressFits-known :
    (thr : StrategyThresholds) (p : ProtocolFeatures) (shared : OptU64)
    → progress_of p shared ≢ none
    → ProgressFits Unit thr p shared
    → ProgressFits ⊥ thr p shared
ProgressFits-known thr (solana_pump p) shared known h = Fits-known thr p known h
ProgressFits-known thr (robinhood_pons p) shared known h = Fits-known thr p known h
ProgressFits-known thr base_clanker shared known h = Fits-known thr shared known h
ProgressFits-known thr no_protocol shared known h = Fits-known thr shared known h

hybrid-IsSignalled :
    (id : RuleId) (thr : StrategyThresholds) (features : Option FeatureVector)
    → IsKnownFor id features
    → IsSignalled s6_hybrid (family_thresholds s6_hybrid thr) features
    → IsSignalled id (family_thresholds id thr) features
unfolding curve_bps
hybrid-IsSignalled id thr none known h = elim h [ ]
hybrid-IsSignalled s1_buyer_growth thr (some f) known h = (h.0, h.1.0)
hybrid-IsSignalled s2_flow_confirmation thr (some f) known h = (h.0, (h.1.0, h.1.1))
hybrid-IsSignalled s3_broad_participation thr (some f) known h = (h.0, h.1.2)
hybrid-IsSignalled s4_creator_filtered thr (some f) known h = (h.0, h.1.3)
hybrid-IsSignalled s5_curve_confirmation thr (some f) known h =
    let fits =
      ProgressFits-known thr f.protocol f.shared.current_progress_to_graduation_bps known
        (h.1.4.0) in
    (h.0, (fits, h.1.4.1))
hybrid-IsSignalled s6_hybrid thr (some f) known h = h

-- Where the hybrid rule of the family enters, each of the other rules made with the same thresholds
-- enters too; of the curve rule this holds where the progress along the curve is known.
pub family_decide-hybrid :
    (digest : Digest) (id : RuleId) (thr : StrategyThresholds) (ctx : StrategyContext)
    → IsKnownFor id ctx.features
    → (family_decide digest (rule s6_hybrid) thr ctx).enters ≡ true
    → (family_decide digest (rule id) thr ctx).enters ≡ true
unfolding family_decide
family_decide-hybrid digest id thr ctx known h =
    let q = (rule_decide_iff s6_hybrid (family_thresholds s6_hybrid thr) ctx).0 h in
    (rule_decide_iff id (family_thresholds id thr) ctx).1
      (q.0, hybrid-IsSignalled id thr ctx.features known q.1)
