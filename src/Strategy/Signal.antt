-- ===== src/Strategy/Signal.antt =====
-- When the rules of apps/engine/src/strategy/mod.rs enter.
use memecoin_bot.Base.{
  ℕ, ◌≤◌, ◌≡◌, refl, ◌↔◌, ◌⊎◌, inl, inr, String, true, false, Option, none, some, arith, ltb,
  Bool-cases,
}
use memecoin_bot.Base.Int.{ℤ, pos, ltb_ℤ, ◌≤ℤ◌}
use memecoin_bot.Security.Verdict.{SecurityVerdict, pass, warn, reject}
use memecoin_bot.Candidate.Machine.{CandidateState, eligible}
use memecoin_bot.Strategy.{
  OptI64, as_value_i64, SharedFeatures, FeatureVector, StrategyContext, StrategyThresholds, RuleId,
  s1_buyer_growth, s2_flow_confirmation, s3_broad_participation, s4_creator_filtered,
  s5_curve_confirmation, s6_hybrid, OptU64, as_value_u64, ProtocolFeatures, solana_pump,
  robinhood_pons, base_clanker, no_protocol, progress_of, checks_refused, gate_security_eligible,
  curve_bps, asks_known_curve, or_next, growth_refused, flow_refused, breadth_refused,
  creator_refused, progress_refused, curve_refused, features_refused, decision_of, rule_decide,
  refuse_if,
}

abbrev pub IsGated : Option SecurityVerdict → CandidateState → Type 0
IsGated sec candidate = ((sec ≡ some pass) ⊎ (sec ≡ some warn)) × (candidate ≡ eligible)

abbrev pub AtLeast : ℤ → OptI64 → Type 0
AtLeast least (OptI64.value v) = least ≤ℤ v
AtLeast least OptI64.unknown = ⊥

-- Unless one of the two is unknown.
abbrev pub NotAbove : Option ℕ → Option ℕ → Type 0
NotAbove (some a) (some b) = a ≤ b
NotAbove (some a) none = Unit
NotAbove none b = Unit

abbrev pub IsGrowing : StrategyThresholds → SharedFeatures → Type 0
IsGrowing thr s =
    AtLeast thr.min_buyer_accel_15s s.unique_buyer_acceleration_15s
    × AtLeast thr.min_buyer_velocity_15s s.unique_buyer_velocity_15s

abbrev pub IsInFlow : StrategyThresholds → SharedFeatures → Type 0
IsInFlow thr s =
    ((thr.min_net_flow_non_negative ≡ false)
      ⊎ (s.net_quote_flow_total.0 ≡ false)
      ⊎ (s.net_quote_flow_total.1 ≡ 0))
    × (pos 0 ≤ℤ s.trade_count_imbalance)

abbrev pub IsBroad : StrategyThresholds → SharedFeatures → Type 0
IsBroad thr s =
    (thr.min_unique_buyers ≤ s.unique_buyers_total)
    × NotAbove s.repeat_buyer_ratio_bps thr.max_repeat_buyer_ratio_bps
    × NotAbove thr.min_new_buyer_ratio_30s_bps s.new_buyer_ratio_30s_bps

abbrev pub IsKeptByCreator : StrategyThresholds → SharedFeatures → Type 0
IsKeptByCreator thr s = (thr.reject_creator_sold ≡ false) ⊎ (s.creator_has_sold ≡ false)

abbrev pub IsWithin : StrategyThresholds → ℕ → Type 0
IsWithin thr p =
    NotAbove thr.min_curve_progress_bps (some p) × NotAbove (some p) thr.max_curve_progress_bps

-- A progress within the limits; of an unknown one, what `U` says.
abbrev pub Fits : Type 0 → StrategyThresholds → OptU64 → Type 0
Fits U thr (OptU64.value p) = IsWithin thr p
Fits U thr (OptU64.partial (some p)) = IsWithin thr p
Fits U thr (OptU64.partial none) = U
Fits U thr OptU64.unknown = U

-- The progress that the protocol shows, or the shared one.
abbrev pub ProgressFits : Type 0 → StrategyThresholds → ProtocolFeatures → OptU64 → Type 0
ProgressFits U thr (solana_pump p) shared = Fits U thr p
ProgressFits U thr (robinhood_pons p) shared = Fits U thr p
ProgressFits U thr base_clanker shared = Fits U thr shared
ProgressFits U thr no_protocol shared = Fits U thr shared

abbrev pub IsOnCurve : Type 0 → StrategyThresholds → FeatureVector → Type 0
IsOnCurve U thr f =
    ProgressFits U thr f.protocol f.shared.current_progress_to_graduation_bps
    × (thr.min_unique_buyers ≤ f.shared.unique_buyers_total)

-- What each rule wants to see in the features.
abbrev pub IsWanted : RuleId → StrategyThresholds → FeatureVector → Type 0
IsWanted s1_buyer_growth thr f = IsGrowing thr f.shared
IsWanted s2_flow_confirmation thr f = IsGrowing thr f.shared × IsInFlow thr f.shared
IsWanted s3_broad_participation thr f = IsBroad thr f.shared
IsWanted s4_creator_filtered thr f = IsKeptByCreator thr f.shared
IsWanted s5_curve_confirmation thr f = IsOnCurve ⊥ thr f
IsWanted s6_hybrid thr f =
    IsGrowing thr f.shared
    × IsInFlow thr f.shared
    × IsBroad thr f.shared
    × IsKeptByCreator thr f.shared
    × IsOnCurve Unit thr f

-- What a rule sees in the features when it enters.
abbrev pub IsSignalled : RuleId → StrategyThresholds → Option FeatureVector → Type 0
IsSignalled id thr none = ⊥
IsSignalled id thr (some f) = (thr.min_age_ms ≤ℤ f.token_age_ms) × IsWanted id thr f

gate_lem :
    (sec : Option SecurityVerdict) (candidate : CandidateState)
    → (gate_security_eligible sec candidate ≡ none) ↔ IsGated sec candidate
unfolding gate_security_eligible
gate_lem none candidate = (λ h. cc, λ h. ground arith)
gate_lem (some pass) candidate = (λ h. (inl refl, ground arith), λ h. ground arith)
gate_lem (some warn) candidate = (λ h. (inr refl, ground arith), λ h. ground arith)
gate_lem (some reject) candidate = (λ h. cc, λ h. ground arith)
gate_lem (some SecurityVerdict.unknown) candidate = (λ h. cc, λ h. ground arith)

growth_lem :
    (thr : StrategyThresholds) (s : SharedFeatures)
    → (growth_refused thr s ≡ none) ↔ IsGrowing thr s
unfolding growth_refused as_value_i64
growth_lem thr s = (λ h. ground arith, λ h. ground arith)

flow_lem :
    (thr : StrategyThresholds) (s : SharedFeatures) → (flow_refused thr s ≡ none) ↔ IsInFlow thr s
unfolding flow_refused
flow_lem thr s = (λ h. ground arith, λ h. ground arith)

breadth_lem :
    (thr : StrategyThresholds) (s : SharedFeatures) → (breadth_refused thr s ≡ none) ↔ IsBroad thr s
unfolding breadth_refused
breadth_lem thr s = (λ h. ground arith, λ h. ground arith)

creator_lem :
    (thr : StrategyThresholds) (s : SharedFeatures)
    → (creator_refused thr s ≡ none) ↔ IsKeptByCreator thr s
unfolding creator_refused
creator_lem thr s = (λ h. ground arith, λ h. ground arith)

both_lem :
    {P Q : Type 0} (a b : Option String)
    → (a ≡ none) ↔ P
    → (b ≡ none) ↔ Q
    → (or_next a b ≡ none) ↔ (P × Q)
both_lem none b h k = (λ e. (h.0 refl, k.0 e), λ q. k.1 (q.1))
both_lem (some w) b h k = (λ e. cc, λ q. cc (h.1 (q.0)))

-- What the check of the progress comes to, by the test for a known one.
abbrev HasProgress : RuleId → StrategyThresholds → Option ℕ → Type 0
HasProgress id thr none = asks_known_curve id ≡ false
HasProgress id thr (some p) = IsWithin thr p

progress_lem :
    (id : RuleId) (thr : StrategyThresholds) (p : Option ℕ)
    → (progress_refused id thr p ≡ none) ↔ HasProgress id thr p
progress_lem id thr none = (λ h. ground arith, λ h. ground arith)
progress_lem id thr (some p) = (λ h. ground arith, λ h. ground arith)

fits_lem :
    {U : Type 0} (id : RuleId) (thr : StrategyThresholds) (o : OptU64)
    → (asks_known_curve id ≡ false) ↔ U
    → HasProgress id thr (as_value_u64 o) ↔ Fits U thr o
unfolding as_value_u64
fits_lem id thr (OptU64.value p) u = (λ h. h, λ h. h)
fits_lem id thr (OptU64.partial (some p)) u = (λ h. h, λ h. h)
fits_lem id thr (OptU64.partial none) u = u
fits_lem id thr OptU64.unknown u = u

shown_lem :
    {U : Type 0} (id : RuleId) (thr : StrategyThresholds) (p : ProtocolFeatures) (shared : OptU64)
    → (asks_known_curve id ≡ false) ↔ U
    → HasProgress id thr (progress_of p shared) ↔ ProgressFits U thr p shared
shown_lem id thr (solana_pump p) shared u = fits_lem id thr p u
shown_lem id thr (robinhood_pons p) shared u = fits_lem id thr p u
shown_lem id thr base_clanker shared u = fits_lem id thr shared u
shown_lem id thr no_protocol shared u = fits_lem id thr shared u

curve_lem :
    {U : Type 0} (id : RuleId) (thr : StrategyThresholds) (f : FeatureVector)
    → (asks_known_curve id ≡ false) ↔ U
    → (curve_refused id thr f ≡ none) ↔ IsOnCurve U thr f
unfolding curve_refused curve_bps
curve_lem id thr f u =
    let shared = f.shared.current_progress_to_graduation_bps in
    let (to_spec, from_spec) = shown_lem id thr f.protocol shared u in
    let (there, back) = progress_lem id thr (progress_of f.protocol shared) in
    let enough = ltb f.shared.unique_buyers_total thr.min_unique_buyers in
    both_lem (progress_refused id thr (progress_of f.protocol shared)) (refuse_if enough)
      (λ h. to_spec (there h), λ h. back (from_spec h)) (λ h. ground arith, λ h. ground arith)

alone_lem : {P : Type 0} (a : Option String) → (a ≡ none) ↔ P → (or_next a none ≡ none) ↔ P
alone_lem none h = h
alone_lem (some w) h = h

checks_lem :
    (id : RuleId) (thr : StrategyThresholds) (f : FeatureVector)
    → (checks_refused id thr f ≡ none) ↔ IsWanted id thr f
checks_lem s1_buyer_growth thr f = alone_lem _ (growth_lem thr f.shared)
checks_lem s2_flow_confirmation thr f =
    both_lem _ _ (growth_lem thr f.shared) (alone_lem _ (flow_lem thr f.shared))
checks_lem s3_broad_participation thr f = alone_lem _ (breadth_lem thr f.shared)
checks_lem s4_creator_filtered thr f = alone_lem _ (creator_lem thr f.shared)
checks_lem s5_curve_confirmation thr f =
    curve_lem s5_curve_confirmation thr f (λ h. cc, λ h. elim h [ ])
checks_lem s6_hybrid thr f =
    let curve = curve_lem s6_hybrid thr f (λ h. tt, λ h. refl) in
    let (there, back) = both_lem _ _ (growth_lem thr f.shared) (
      both_lem _ _ (flow_lem thr f.shared) (
        both_lem _ _ (breadth_lem thr f.shared) (both_lem _ _ (creator_lem thr f.shared) curve))) in
    (
      λ h. let c = there h in (c.0, c.1.0, c.1.1.0, c.1.1.1.0, c.1.1.1.1),
      λ q. back (q.0, (q.1, (q.2, (q.3, q.4)))),
    )

features_lem :
    (id : RuleId) (thr : StrategyThresholds) (features : Option FeatureVector)
    → (features_refused id thr features ≡ none) ↔ IsSignalled id thr features
features_lem id thr none = (λ h. cc, λ h. elim h [ ])
features_lem id thr (some f) = elim (Bool-cases (ltb_ℤ f.token_age_ms thr.min_age_ms)) [
  | inl young ↦ rw young (λ h. cc, λ h. ground (arith, h.0))
  | inr old ↦
      let (there, back) = checks_lem id thr f in
      rw old (λ h. (ground arith, there h), λ h. back (h.1))
]

decision_lem : (o : Option String) → ((decision_of o).enters ≡ true) ↔ (o ≡ none)
decision_lem none = (λ _. refl, λ _. refl)
decision_lem (some w) = (λ h. cc, λ h. cc)

-- A rule enters exactly where the verdict is a pass or a warning, the candidate is eligible, and its
-- features are known, old enough, and what the rule wants: S1 buyers that grow by at least the
-- thresholds; S2 that, with a flow that is not negative, unless the thresholds allow one, and no fewer
-- buys than sells; S3 enough buyers with few repeated and enough new ones; S4 only that the creator has not
-- sold, where the thresholds ask for it; S5 a known progress within the limits, with enough buyers; S6 all
-- of these, but the progress may be unknown. A ratio that is unknown meets its limit.
pub rule_decide_iff :
    (id : RuleId) (thr : StrategyThresholds) (ctx : StrategyContext)
    → ((rule_decide id thr ctx).enters ≡ true)
      ↔ (IsGated ctx.security ctx.candidate × IsSignalled id thr ctx.features)
unfolding rule_decide
rule_decide_iff id thr ctx =
    let checks =
      or_next (gate_security_eligible ctx.security ctx.candidate)
        (features_refused id thr ctx.features) in
    let (there, back) = decision_lem checks in
    let (apart, together) =
      both_lem (gate_security_eligible ctx.security ctx.candidate)
        (features_refused id thr ctx.features) (gate_lem ctx.security ctx.candidate)
        (features_lem id thr ctx.features) in
    (λ h. apart (there h), λ q. back (together q))
