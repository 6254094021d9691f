-- ===== src/Sim/Types.antt =====
-- The statuses and sides of apps/engine/src/sim/types.rs.
use memecoin_bot.Base.{ℕ, Bool, true, false, String}

pub data LatencyScenario : Type 0 where
  fast base slow : LatencyScenario

pub data ExecutionStatus : Type 0 where
  filled partial_fill no_fill failed rejected_liquidity rejected_slippage : ExecutionStatus
  unavailable_market_state temporarily_unavailable : ExecutionStatus
  rejected_security rejected_quality : ExecutionStatus

abbrev pub is_fill : ExecutionStatus → Bool
is_fill filled = true
is_fill partial_fill = true
is_fill _ = false

pub data ExecutionQuality : Type 0 where
  exact modelled partial_state non_research_valid : ExecutionQuality

abbrev pub research_valid : ExecutionQuality → Bool
research_valid exact = true
research_valid modelled = true
research_valid _ = false

pub data OrderSide : Type 0 where
  buy sell : OrderSide

abbrev pub is_sell : OrderSide → Bool
is_sell sell = true
is_sell buy = false

pub data ExitReason : Type 0 where
  stop take_profit trail momentum_decay creator_sell liquidity_danger time_stop : ExitReason
  strategy_exit emergency security_emergency end_of_data partial_scale unrealizable : ExitReason

abbrev pub is_emergency : ExitReason → Bool
is_emergency emergency = true
is_emergency security_emergency = true
is_emergency liquidity_danger = true
is_emergency _ = false

pub data PositionStatus : Type 0 where
  open_position closed forced_end_of_data unrealizable session_ended_open : PositionStatus

abbrev pub is_open : PositionStatus → Bool
is_open open_position = true
is_open _ = false

pub data PositionEventKind : Type 0 where
  position_opened partial_exit trail_updated stop_updated emergency_signal : PositionEventKind
  position_closed forced_end exit_attempt_failed : PositionEventKind

-- The texts that the simulator formats: a constant, or a `format!` with what it is filled with.
pub data Reason : Type 0 where
  text : String → Reason
  impact_gt_max : ℕ → ℕ → Reason
  exit_failed : ExitReason → ExecutionStatus → Reason
  zero_sold : ExitReason → Reason
  exit_reason : ExitReason → Reason
