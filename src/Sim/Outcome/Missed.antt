-- ===== src/Sim/Outcome/Missed.antt =====
-- `missed_winners` of apps/engine/src/sim/outcome.rs: why a run did not take a token that rose. Of the
-- report of the run it reads the positions and the orders. The metric that counts it is left out.
pub mod Sources
pub mod Reasons
use memecoin_bot.Base.{
  ℕ, String, Bool, true, false, not, ◌&&◌, Option, none, some, List, [], ◌∷◌, map, ltb,
  if◌then◌else◌, eq_string, filter_by, max_by_key, ◌<◌, ◌≡◌, ◌≢◌, refl, ◌↔◌, ◌⊎◌, inl, inr, arith,
  All,
}
use memecoin_bot.Base.Int.{ℤ, pos, leb_ℤ}
use memecoin_bot.Domain.{Chain, eq_chain, Launchpad}
use memecoin_bot.Security.Verdict.{SecurityVerdict, reject, pass, warn}
use memecoin_bot.Candidate.Machine.{
  CandidateState, discovered, security_pending, security_rejected, watching, confirming, eligible,
  expired, eq_state,
}
use memecoin_bot.Sim.Types.{
  ExecutionStatus, failed, rejected_liquidity, unavailable_market_state, OrderSide, buy,
}
use memecoin_bot.Sim.Position.Book.{SimulatedPosition}
use memecoin_bot.Sim.Position.Returns.{return_bps}
use memecoin_bot.Sim.Harness.{Row, SimulatedOrder}
use memecoin_bot.Sim.Outcome.{TokenOutcome}

pub data MissReason : Type 0 where
  security_reject security_unknown data_incomplete never_confirming expired_too_early : MissReason
  strategy_filter entry_failed liquidity_too_low entered_exited_too_early : MissReason
  entered_captured never_eligible random_skip : MissReason

pub record MissedWinner : Type 0 where
  pub chain : Chain
  pub token : String
  pub launchpad : Launchpad
  pub max_return_bps : Option ℤ
  pub time_to_5x_ms : Option ℤ
  pub time_to_10x_ms : Option ℤ
  pub security : Option SecurityVerdict
  pub highest_candidate : CandidateState
  pub entered : Bool
  pub realized_return_bps : Option ℤ
  pub mfe_bps : Option ℤ
  pub capture_ratio_bps : Option ℕ
  pub miss_reason : MissReason

unfoldable pub rank_cand : CandidateState → ℕ
rank_cand discovered = 0
rank_cand security_pending = 1
rank_cand CandidateState.data_incomplete = 2
rank_cand security_rejected = 3
rank_cand watching = 4
rank_cand confirming = 5
rank_cand eligible = 6
rank_cand expired = 2

abbrev pub ratio_or : Option ℕ → ℕ
ratio_or none = 0
ratio_or (some n) = n

-- The last `match` of `classify_miss`.
unfoldable pub miss_of_order : Option ExecutionStatus → MissReason
miss_of_order none = strategy_filter
miss_of_order (some failed) = entry_failed
miss_of_order (some rejected_liquidity) = liquidity_too_low
miss_of_order (some unavailable_market_state) = liquidity_too_low
miss_of_order (some _) = entry_failed

unfoldable pub miss_of_verdict :
    Option SecurityVerdict → CandidateState → Option ExecutionStatus → MissReason
miss_of_verdict none hi status = security_unknown
miss_of_verdict (some reject) hi status = security_reject
miss_of_verdict (some SecurityVerdict.unknown) hi status = security_unknown
miss_of_verdict (some _) hi status =
    if not (eq_state hi eligible) then never_eligible else miss_of_order status

unfoldable pub classify_miss :
    Option SimulatedPosition
    → Option ExecutionStatus
    → Option SecurityVerdict
    → CandidateState
    → TokenOutcome
    → MissReason
classify_miss none buy_status sec hi o = miss_of_verdict sec hi buy_status
classify_miss (some p) buy_status sec hi o =
    if o.reached_10x && ltb (ratio_or p.capture_ratio) 2_500
    then entered_exited_too_early
    else entered_captured

abbrev pub find_position : Chain → String → List SimulatedPosition → Option SimulatedPosition
find_position chain token [] = none
find_position chain token (p ∷ ps) =
    if eq_chain p.chain chain && eq_string p.token token
    then some p
    else find_position chain token ps

abbrev pub is_buy : OrderSide → Bool
is_buy buy = true
is_buy _ = false

-- `rfind`: the status of the last order to buy.
abbrev pub last_buy :
    Chain → String → Option ExecutionStatus → List SimulatedOrder → Option ExecutionStatus
last_buy chain token found [] = found
last_buy chain token found (x ∷ xs) =
    last_buy chain token
      (if eq_chain x.chain chain && eq_string x.token token && is_buy x.side
        then some x.status
        else found)
      xs

abbrev pub row_value : {V : Type 0} → Option (Row V) → Option V
row_value none = none
row_value (some r) = some r.value

abbrev pub row_of : {V : Type 0} → Chain → String → Row V → Bool
row_of chain token r = eq_chain r.chain chain && eq_string r.token token

abbrev pub last_verdict : Chain → String → List (Row SecurityVerdict) → Option SecurityVerdict
last_verdict chain token rows =
    row_value (max_by_key (λ r. r.at) (filter_by (row_of chain token) rows))

abbrev pub discovered_unless : Option CandidateState → CandidateState
discovered_unless none = discovered
discovered_unless (some c) = c

abbrev pub highest_candidate_of : Chain → String → List (Row CandidateState) → CandidateState
highest_candidate_of chain token rows =
    discovered_unless (
      max_by_key (λ c. pos (rank_cand c))
        (map (λ r. r.value) (filter_by (row_of chain token) rows)))

abbrev pub realized_return : Option SimulatedPosition → Option ℤ
realized_return none = none
realized_return (some p) = return_bps p.quote_cost p.realized_quote

abbrev pub mfe_of : Option SimulatedPosition → Option ℤ
mfe_of none = none
mfe_of (some p) = p.mfe_bps

abbrev pub capture_of : Option SimulatedPosition → Option ℕ
capture_of none = none
capture_of (some p) = p.capture_ratio

abbrev pub is_entered : Option SimulatedPosition → Bool
is_entered none = false
is_entered (some _) = true

unfoldable pub missed_row :
    List SimulatedPosition
    → List SimulatedOrder
    → List (Row SecurityVerdict)
    → List (Row CandidateState)
    → TokenOutcome
    → MissedWinner
missed_row positions orders security candidate o =
    let p = find_position o.chain o.token positions in
    let sec = last_verdict o.chain o.token security in
    let hi = highest_candidate_of o.chain o.token candidate in
    record {
      chain = o.chain;
      token = o.token;
      launchpad = o.launchpad;
      max_return_bps = o.max_return_bps;
      time_to_5x_ms = o.time_to_5x_ms;
      time_to_10x_ms = o.time_to_10x_ms;
      security = sec;
      highest_candidate = hi;
      entered = is_entered p;
      realized_return_bps = realized_return p;
      mfe_bps = mfe_of p;
      capture_ratio_bps = capture_of p;
      miss_reason = classify_miss p (last_buy o.chain o.token none orders) sec hi o;
    }

abbrev pub return_or : Option ℤ → ℤ
return_or none = pos 0
return_or (some r) = r

unfoldable pub missed_winners :
    List TokenOutcome
    → List SimulatedPosition
    → List SimulatedOrder
    → List (Row SecurityVerdict)
    → List (Row CandidateState)
    → ℤ
    → List MissedWinner
missed_winners outcomes positions orders security candidate min_max_return_bps =
    map (missed_row positions orders security candidate)
      (filter_by (λ o. leb_ℤ min_max_return_bps (return_or o.max_return_bps)) outcomes)
