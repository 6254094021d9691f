-- ===== src/Sim/Samples.antt =====
-- A market, a position and an execution for the tests of apps/engine/src/sim.
use memecoin_bot.Base.{ℕ, true, false, none, some}
use memecoin_bot.Base.Int.{ℤ, pos}
use memecoin_bot.Domain.{solana, pump_fun, live_complete, confirmed}
use memecoin_bot.Domain.Events.{canonical}
use memecoin_bot.State.Lifecycle.{curve_active}
use memecoin_bot.State.Market.{BondingCurveState, bonding_curve, complete}
use memecoin_bot.State.Rolling.Report.{empty_window}
use memecoin_bot.State.Snapshot.{TokenStateSnapshot, periodic, no_wallet}
use memecoin_bot.Sim.Types.{filled, exact, buy, sell}
use memecoin_bot.Sim.Models.{Digest}
use memecoin_bot.Sim.Curve.{SwapTerms}
use memecoin_bot.Sim.Result.{ExecutionResult}
use memecoin_bot.Sim.Position.Book.{SimulatedPosition, open_from}

-- A curve after launch: 30 SOL against 1073 million tokens.
abbrev pub curve : BondingCurveState
curve = record {
  virtual_token_reserves = some 1_073_000_000_000_000;
  virtual_sol_reserves = some 30_000_000_000;
  real_token_reserves = some 793_100_000_000_000;
  real_sol_reserves = some 5_000_000_000;
  token_total_supply = some 1_000_000_000_000_000;
  curve_progress_bps = none;
  last_token_amount_raw = none;
  last_quote_amount_raw = none;
  quality = complete;
}

abbrev pub snapshot_at : ℤ → TokenStateSnapshot
snapshot_at time = record {
  id = some (pos 11);
  chain = solana;
  token_address = "token";
  launchpad = pump_fun;
  snapshot_time = time;
  age_ms = pos 20_000;
  snapshot_kind = periodic;
  lifecycle_trigger = none;
  lifecycle_state = curve_active;
  quote_asset = none;
  buy_count_total = 12;
  sell_count_total = 3;
  unique_buyers_total = 9;
  unique_sellers_total = 2;
  buy_quote_volume_raw_total = 6_000_000_000;
  sell_quote_volume_raw_total = 1_000_000_000;
  buy_token_volume_raw_total = 200_000_000_000_000;
  sell_token_volume_raw_total = 30_000_000_000_000;
  creator_buy_count = 1;
  creator_sell_count = 0;
  creator_buy_quote_raw = 500_000_000;
  creator_sell_quote_raw = 0;
  last_trade_side = none;
  last_trade_token_raw = none;
  last_trade_quote_raw = none;
  last_trade_token_decimals = some 6;
  last_trade_quote_decimals = some 9;
  curve_progress_bps = none;
  graduation_progress_bps = none;
  market_state_type = "BONDING_CURVE";
  market_state = bonding_curve curve;
  rolling_5s = empty_window (pos 5_000);
  rolling_15s = empty_window (pos 15_000);
  rolling_30s = empty_window (pos 30_000);
  rolling_60s = empty_window (pos 60_000);
  rolling_120s = empty_window (pos 120_000);
  rolling_300s = empty_window (pos 300_000);
  rolling_900s = empty_window (pos 900_000);
  as_of_event_id = none;
  as_of_block = none;
  as_of_slot = none;
  as_of_event_order = none;
  data_quality = live_complete;
  source_session_id = none;
  canonical_status = canonical;
  finality = confirmed;
  version = 1;
  superseded = false;
  wallet = no_wallet;
}

abbrev pub terms : SwapTerms
terms = record {
  fee_bps = 100;
  snipe_bps = 0;
  adverse_bps = 0;
  max_slip_bps = 10_000;
  quality = exact;
}

-- A digest that is always the same.
abbrev pub sample_digest : Digest
sample_digest seed token time attempt = 1_234

abbrev pub bought : ExecutionResult
bought = record {
  id = some (pos 1);
  attempt_number = 1;
  status = filled;
  quality = exact;
  research_ok = true;
  side = buy;
  requested_quote = 1_000;
  requested_token = 0;
  filled_quote = 1_000;
  filled_token = 500;
  fill_fraction_bps = 10_000;
  decision_time = pos 5_000;
  eligible_execution_time = pos 7_000;
  actual_simulated_fill_time = some (pos 7_000);
  reference_price_1e18 = 2;
  effective_fill_price_1e18 = 2;
  price_impact_bps = some 10;
  slippage_bps = 0;
  protocol_fee = 10;
  snipe_tax = 0;
  network_fee = 0;
  priority_fee = 0;
  tip = 0;
  total_cost = 10;
  snapshot_id = some (pos 11);
  reason = none;
}

-- A sale of `tokens` for `quote`.
abbrev pub sold_for : ℕ → ℕ → ExecutionResult
sold_for tokens quote = record bought {
  id = some (pos 2);
  side = sell;
  requested_quote = 0;
  requested_token = tokens;
  filled_quote = quote;
  filled_token = tokens;
  actual_simulated_fill_time = some (pos 9_000);
}

abbrev pub held : SimulatedPosition
held = open_from (pos 1) solana "token" pump_fun "first" bought none none
