-- ===== src/Sim/Result.antt =====
-- `ExecutionResult` of apps/engine/src/sim/exec.rs. Instants are in unix milliseconds and amounts are
-- the numbers of their decimal strings; the version label and the three quality labels, which the
-- simulator leaves empty, are left out.
use memecoin_bot.Base.{ℕ, Bool, ◌&&◌, Option, none, some}
use memecoin_bot.Base.Int.{ℤ}
use memecoin_bot.Sim.Types.{
  ExecutionStatus, ExecutionQuality, OrderSide, Reason, is_fill, research_valid,
}

pub record ExecutionResult : Type 0 where
  pub id : Option ℤ
  pub attempt_number : ℕ
  pub status : ExecutionStatus
  pub quality : ExecutionQuality
  pub research_ok : Bool
  pub side : OrderSide
  pub requested_quote : ℕ
  pub requested_token : ℕ
  pub filled_quote : ℕ
  pub filled_token : ℕ
  pub fill_fraction_bps : ℕ
  pub decision_time : ℤ
  pub eligible_execution_time : ℤ
  pub actual_simulated_fill_time : Option ℤ
  pub reference_price_1e18 : ℕ
  pub effective_fill_price_1e18 : ℕ
  pub price_impact_bps : Option ℕ
  pub slippage_bps : ℕ
  pub protocol_fee : ℕ
  pub snipe_tax : ℕ
  pub network_fee : ℕ
  pub priority_fee : ℕ
  pub tip : ℕ
  pub total_cost : ℕ
  pub snapshot_id : Option ℤ
  pub reason : Option Reason

unfoldable pub empty :
    OrderSide
    → ℤ
    → ℤ
    → ℕ
    → ℕ
    → ExecutionStatus
    → ExecutionQuality
    → Bool
    → Reason
    → ℕ
    → ℕ
    → ExecutionResult
empty side decision eligible req_q req_t status quality research_ok reason attempt slip = record {
  id = none;
  attempt_number = attempt;
  status = status;
  quality = quality;
  research_ok = research_ok && research_valid quality && is_fill status;
  side = side;
  requested_quote = req_q;
  requested_token = req_t;
  filled_quote = 0;
  filled_token = 0;
  fill_fraction_bps = 0;
  decision_time = decision;
  eligible_execution_time = eligible;
  actual_simulated_fill_time = none;
  reference_price_1e18 = 0;
  effective_fill_price_1e18 = 0;
  price_impact_bps = none;
  slippage_bps = slip;
  protocol_fee = 0;
  snipe_tax = 0;
  network_fee = 0;
  priority_fee = 0;
  tip = 0;
  total_cost = 0;
  snapshot_id = none;
  reason = some reason;
}
