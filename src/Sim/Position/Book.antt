-- ===== src/Sim/Position/Book.antt =====
-- `SimulatedPosition` of apps/engine/src/sim/position.rs: opening and exits.
use memecoin_bot.Base.{
  ℕ, ◌-◌, ◌/◌, String, Bool, true, false, ◌&&◌, Option, none, some, List, [], ◌∷◌, ◌++◌, leb, ◌==◌,
  if◌then◌else◌, min, sat_add, sat_mul,
}
use memecoin_bot.Base.Int.{ℤ, pos}
use memecoin_bot.Domain.{Chain, Launchpad}
use memecoin_bot.Sim.Types.{
  ExecutionStatus, is_fill, ExitReason, is_emergency, PositionStatus, open_position, closed,
  PositionEventKind, position_opened, partial_exit, emergency_signal, position_closed,
  exit_attempt_failed, Reason, exit_failed, zero_sold, exit_reason,
}
use memecoin_bot.Sim.Result.{ExecutionResult}
use memecoin_bot.Sim.Position.Returns.{capture_ratio_bps}
use memecoin_bot.Sim.Position.Signed.{Signed, plus, minus, signed_add}

pub record PositionEvent : Type 0 where
  pub kind : PositionEventKind
  pub at : ℤ
  pub token_delta : Signed
  pub quote_delta : ℕ
  pub remaining_token : ℕ
  pub reason : Option Reason
  pub execution_status : Option ExecutionStatus

pub record SimulatedPosition : Type 0 where
  pub id : ℤ
  pub simulation_run_id : Option ℤ
  pub chain : Chain
  pub token : String
  pub launchpad : Launchpad
  pub strategy_policy_id : String
  pub opened_at : ℤ
  pub closed_at : Option ℤ
  pub entry_execution_id : Option ℤ
  pub initial_token_amount : ℕ
  pub remaining_token_amount : ℕ
  pub quote_cost : ℕ
  pub realized_quote : ℕ
  pub realized_pnl_quote : Signed
  pub status : PositionStatus
  pub highest_mark_quote : ℕ
  pub lowest_mark_quote : ℕ
  pub mfe_quote : ℕ
  pub mae_quote : ℕ
  pub mfe_bps : Option ℤ
  pub mae_bps : Option ℤ
  pub capture_ratio : Option ℕ
  pub token_max_return_bps : Option ℤ
  pub entry_price_1e18 : ℕ
  pub entry_feature_vector_id : Option ℤ
  pub entry_security_assessment_id : Option ℤ
  pub entry_research_valid : Bool
  pub creator_sell_count_at_entry : ℕ
  pub events : List PositionEvent

abbrev pub time_or : Option ℤ → ℤ → ℤ
time_or none t = t
time_or (some s) t = s

abbrev pub fill_time : ExecutionResult → ℤ
fill_time fill = time_or fill.actual_simulated_fill_time fill.decision_time

unfoldable pub open_from :
    ℤ
    → Chain
    → String
    → Launchpad
    → String
    → ExecutionResult
    → Option ℤ
    → Option ℤ
    → SimulatedPosition
open_from id chain token launchpad policy fill feature_id sec_id = record {
  id = id;
  simulation_run_id = none;
  chain = chain;
  token = token;
  launchpad = launchpad;
  strategy_policy_id = policy;
  opened_at = fill_time fill;
  closed_at = none;
  entry_execution_id = fill.id;
  initial_token_amount = fill.filled_token;
  remaining_token_amount = fill.filled_token;
  quote_cost = fill.filled_quote;
  realized_quote = 0;
  realized_pnl_quote = plus 0;
  status = open_position;
  highest_mark_quote = fill.filled_quote;
  lowest_mark_quote = fill.filled_quote;
  mfe_quote = fill.filled_quote;
  mae_quote = fill.filled_quote;
  mfe_bps = some (pos 0);
  mae_bps = some (pos 0);
  capture_ratio = none;
  token_max_return_bps = some (pos 0);
  entry_price_1e18 = fill.effective_fill_price_1e18;
  entry_feature_vector_id = feature_id;
  entry_security_assessment_id = sec_id;
  entry_research_valid = fill.research_ok;
  creator_sell_count_at_entry = 0;
  events =
      record {
        kind = position_opened;
        at = fill_time fill;
        token_delta = plus fill.filled_token;
        quote_delta = fill.filled_quote;
        remaining_token = fill.filled_token;
        reason = none;
        execution_status = some fill.status;
      }
      ∷ [];
}

abbrev pub log_event : SimulatedPosition → PositionEvent → SimulatedPosition
log_event p e = record p { events = p.events ++ e ∷ [] }

-- An event that moves no tokens.
abbrev pub note :
    SimulatedPosition → PositionEventKind → ℤ → Reason → Option ExecutionStatus → SimulatedPosition
note p kind at reason status = log_event p (record {
  kind = kind;
  at = at;
  token_delta = plus 0;
  quote_delta = 0;
  remaining_token = p.remaining_token_amount;
  reason = some reason;
  execution_status = status;
})

unfoldable pub finalize_capture : SimulatedPosition → SimulatedPosition
finalize_capture p = record p {
  capture_ratio = capture_ratio_bps p.quote_cost p.realized_quote p.mfe_quote;
}

abbrev pub sold_of : SimulatedPosition → ExecutionResult → ℕ
sold_of p fill = min fill.filled_token p.remaining_token_amount

-- The cost of the part that is sold.
unfoldable pub cost_of : SimulatedPosition → ℕ → ℕ
cost_of p sold =
    if p.initial_token_amount == 0 then 0 else sat_mul p.quote_cost sold / p.initial_token_amount

unfoldable pub pnl_of : ℕ → ℕ → Signed
pnl_of recv cost = if leb cost recv then plus (recv - cost) else minus (cost - recv)

-- The books after a sale of `sold` tokens, before the event is logged.
unfoldable pub settle : SimulatedPosition → ExecutionResult → ℕ → SimulatedPosition
settle p fill sold =
    let q = record p {
      remaining_token_amount = p.remaining_token_amount - sold;
      realized_quote = sat_add p.realized_quote fill.filled_quote;
      realized_pnl_quote =
          signed_add p.realized_pnl_quote (pnl_of fill.filled_quote (cost_of p sold));
    } in
    if p.remaining_token_amount - sold == 0
    then finalize_capture (record q { status = closed; closed_at = some (fill_time fill) })
    else q

unfoldable pub book_sale : SimulatedPosition → ExecutionResult → ExitReason → ℕ → SimulatedPosition
book_sale p fill reason sold = log_event (settle p fill sold) (record {
  kind = if p.remaining_token_amount - sold == 0 then position_closed else partial_exit;
  at = fill_time fill;
  token_delta = minus sold;
  quote_delta = fill.filled_quote;
  remaining_token = p.remaining_token_amount - sold;
  reason = some (exit_reason reason);
  execution_status = some fill.status;
})

unfoldable pub apply_exit :
    SimulatedPosition → ExecutionResult → ExitReason → Bool → SimulatedPosition
apply_exit p fill reason full =
    if is_fill fill.status
    then if sold_of p fill == 0
      then note p exit_attempt_failed fill.decision_time (zero_sold reason) (some fill.status)
      else book_sale p fill reason (sold_of p fill)
    else note p (if is_emergency reason then emergency_signal else exit_attempt_failed)
        fill.decision_time (exit_failed reason fill.status) (some fill.status)

unfoldable pub is_closed_flat : SimulatedPosition → Bool
is_closed_flat p = is_closed p.status && p.remaining_token_amount == 0
  where
    is_closed : PositionStatus → Bool
    is_closed closed = true
    is_closed _ = false
