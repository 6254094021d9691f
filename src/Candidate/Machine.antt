-- ===== src/Candidate/Machine.antt =====
-- The candidate state machine: apps/engine/src/candidate/state.rs, policy.rs and engine.rs.
-- `CandidateInput` carries the verdict and the ids of the assessment and of the feature vector, which
-- is all that the engine reads of them. `created_at`, the wall clock, is left out of a transition.
use memecoin_bot.Base.{
  ℕ, zero, suc, String, Bool, true, false, not, ◌&&◌, Option, none, some, List, [], ◌∷◌, ltb, leb,
  ◌==◌, if◌then◌else◌, max_by_key, filter_by,
}
use memecoin_bot.Base.Int.{ℤ, pos, ltb_ℤ, leb_ℤ}
use memecoin_bot.Domain.{Chain, Launchpad}
use memecoin_bot.Security.Verdict.{SecurityVerdict, pass, warn, reject}
use memecoin_bot.State.Lifecycle.{TokenLifecycleState, inactive}

pub data CandidateState : Type 0 where
  discovered security_pending security_rejected data_incomplete : CandidateState
  watching confirming eligible expired : CandidateState

abbrev pub state_index : CandidateState → ℕ
state_index discovered = 0
state_index security_pending = 1
state_index security_rejected = 2
state_index data_incomplete = 3
state_index watching = 4
state_index confirming = 5
state_index eligible = 6
state_index expired = 7

abbrev pub eq_state : CandidateState → CandidateState → Bool
eq_state a b = state_index a == state_index b

unfoldable pub is_tradeable_gate : CandidateState → Bool
is_tradeable_gate s = eq_state s eligible

pub record CandidatePolicy : Type 0 where
  pub policy_id : String
  pub policy_version : String
  pub min_confirm_age_ms : ℤ
  pub min_trades_for_confirmation : ℕ
  pub min_unique_buyers_for_confirmation : ℕ
  pub min_eligible_age_ms : ℤ
  pub min_trades_for_eligible : ℕ
  pub min_unique_buyers_for_eligible : ℕ
  pub max_candidate_age_ms : ℤ
  pub expire_no_activity_ms : ℤ
  pub allow_security_warn : Bool

abbrev pub research_default : CandidatePolicy
research_default = record {
  policy_id = "default";
  policy_version = "5.0.0";
  min_confirm_age_ms = pos 5_000;
  min_trades_for_confirmation = 1;
  min_unique_buyers_for_confirmation = 1;
  min_eligible_age_ms = pos 15_000;
  min_trades_for_eligible = 3;
  min_unique_buyers_for_eligible = 2;
  max_candidate_age_ms = pos 3_600_000;
  expire_no_activity_ms = pos 300_000;
  allow_security_warn = true;
}

abbrev pub conservative : CandidatePolicy
conservative = record research_default {
  policy_id = "conservative";
  min_trades_for_eligible = 8;
  min_unique_buyers_for_eligible = 5;
  min_eligible_age_ms = pos 30_000;
}

pub record CandidateInput : Type 0 where
  pub chain : Chain
  pub token : String
  pub launchpad : Launchpad
  pub age_ms : ℤ
  pub as_of_time : ℤ
  pub snapshot_id : Option ℤ
  pub verdict : Option SecurityVerdict
  pub security_id : Option ℤ
  pub features_id : Option ℤ
  pub buy_count : ℕ
  pub unique_buyers : ℕ
  pub trade_count : ℕ
  pub lifecycle : TokenLifecycleState
  pub time_since_last_trade_ms : Option ℤ

pub record CandidateTransition : Type 0 where
  pub id : Option ℤ
  pub chain : Chain
  pub token_address : String
  pub launchpad : Launchpad
  pub policy_id : String
  pub policy_version : String
  pub from_state : CandidateState
  pub to_state : CandidateState
  pub reason : String
  pub as_of_time : ℤ
  pub snapshot_id : Option ℤ
  pub security_assessment_id : Option ℤ
  pub feature_vector_id : Option ℤ

abbrev pub Hop : Type 0
Hop = Option (CandidateState × String)

unfoldable pub confirm_ready : CandidatePolicy → CandidateInput → Bool
confirm_ready p input =
    leb_ℤ p.min_confirm_age_ms input.age_ms
    && leb p.min_trades_for_confirmation input.trade_count
    && leb p.min_unique_buyers_for_confirmation input.unique_buyers

unfoldable pub eligible_ready : CandidatePolicy → CandidateInput → Bool
eligible_ready p input =
    leb_ℤ p.min_eligible_age_ms input.age_ms
    && leb p.min_trades_for_eligible input.trade_count
    && leb p.min_unique_buyers_for_eligible input.unique_buyers

unfoldable pub progress_watch : CandidatePolicy → CandidateState → CandidateInput → Hop
progress_watch p discovered input = some (watching, "SECURITY_PASS_OR_WARN")
progress_watch p security_pending input = some (watching, "SECURITY_PASS_OR_WARN")
progress_watch p data_incomplete input = some (watching, "SECURITY_PASS_OR_WARN")
progress_watch p watching input =
    if confirm_ready p input then some (confirming, "MIN_MARKET_EVIDENCE") else none
progress_watch p confirming input =
    if eligible_ready p input then some (eligible, "MIN_DATA_FOR_STRATEGY_EVAL") else none
progress_watch p _ input = none

abbrev pub await_security : CandidateState → Hop
await_security discovered = some (security_pending, "AWAITING_SECURITY")
await_security _ = none

abbrev pub security_unknown : CandidateState → Hop
security_unknown discovered = some (data_incomplete, "SECURITY_UNKNOWN")
security_unknown security_pending = some (data_incomplete, "SECURITY_UNKNOWN")
security_unknown _ = none

-- The `match verdict` at the end of `next_state`.
unfoldable pub by_verdict :
    CandidatePolicy → Option SecurityVerdict → CandidateState → CandidateInput → Hop
by_verdict p none current input = await_security current
by_verdict p (some SecurityVerdict.unknown) current input = security_unknown current
by_verdict p (some pass) current input = progress_watch p current input
by_verdict p (some warn) current input =
    if p.allow_security_warn
    then progress_watch p current input
    else some (data_incomplete, "SECURITY_WARN_NOT_ALLOWED")
by_verdict p (some reject) current input = none

abbrev pub is_reject : Option SecurityVerdict → Bool
is_reject (some reject) = true
is_reject _ = false

abbrev pub is_inactive : TokenLifecycleState → Bool
is_inactive inactive = true
is_inactive _ = false

-- `if let Some(idle)` and the test inside it.
abbrev pub market_dead : CandidatePolicy → CandidateInput → Option ℤ → Bool
market_dead p input (some idle) = leb_ℤ p.expire_no_activity_ms idle && ltb 0 input.trade_count
market_dead p input none = false

-- The checks of `next_state` on age and activity.
unfoldable pub by_activity : CandidatePolicy → CandidateState → CandidateInput → Hop
by_activity p current input =
    if ltb_ℤ p.max_candidate_age_ms input.age_ms
    then some (
      expired,
      if ltb input.unique_buyers p.min_unique_buyers_for_eligible
          then "INSUFFICIENT_BUYERS"
          else "MAX_WATCH_AGE",
    )
    else if input.trade_count == 0 && leb_ℤ p.expire_no_activity_ms input.age_ms
    then some (expired, "NO_ACTIVITY")
    else if market_dead p input input.time_since_last_trade_ms
    then some (expired, "MARKET_DEAD")
    else by_verdict p input.verdict current input

unfoldable pub next_state : CandidatePolicy → CandidateState → CandidateInput → Hop
next_state p current input =
    if is_reject input.verdict && not (eq_state current security_rejected)
    then some (security_rejected, "SECURITY_REJECT")
    else if eq_state current security_rejected
    then none
    else if eq_state current expired
    then none
    else if is_inactive input.lifecycle && not (eq_state current expired)
    then some (expired, "PROTOCOL_ENDED")
    else by_activity p current input

abbrev pub transition :
    CandidatePolicy
    → CandidateState
    → CandidateState
    → String
    → CandidateInput
    → CandidateTransition
transition p from to reason input = record {
  id = none;
  chain = input.chain;
  token_address = input.token;
  launchpad = input.launchpad;
  policy_id = p.policy_id;
  policy_version = p.policy_version;
  from_state = from;
  to_state = to;
  reason = reason;
  as_of_time = input.as_of_time;
  snapshot_id = input.snapshot_id;
  security_assessment_id = input.security_id;
  feature_vector_id = input.features_id;
}

-- The test after `next_state`: a hop to the state itself is no transition.
abbrev pub keep_moving :
    CandidatePolicy → CandidateState → CandidateInput → Hop → Option CandidateTransition
keep_moving p current input none = none
keep_moving p current input (some (to, reason)) =
    if eq_state to current then none else some (transition p current to reason input)

unfoldable pub step : CandidatePolicy → CandidateState → CandidateInput → Option CandidateTransition
step p current input = keep_moving p current input (next_state p current input)

-- The `for _ in 0..8` loop, over the rounds left; `out` is what the rounds push.
unfoldable pub step_rounds :
    CandidatePolicy → ℕ → CandidateState → CandidateInput → List CandidateTransition
step_rounds p zero current input = []
step_rounds p (suc rounds) current input = elim (step p current input) [
  | some t ↦ t ∷ step_rounds p rounds t.to_state input
  | none ↦ []
]

unfoldable pub step_until_stable :
    CandidatePolicy → CandidateState → CandidateInput → List CandidateTransition
step_until_stable p current input = step_rounds p 8 current input

unfoldable pub get_candidate_at_or_before :
    List CandidateTransition → ℤ → Option CandidateTransition
get_candidate_at_or_before rows time =
    max_by_key (λ t. t.as_of_time) (filter_by (λ t. leb_ℤ t.as_of_time time) rows)
