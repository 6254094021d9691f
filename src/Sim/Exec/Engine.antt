-- ===== src/Sim/Exec/Engine.antt =====
-- The historical execution engine of apps/engine/src/sim/exec.rs: entries, exits and quotes.
use memecoin_bot.Base.{ℕ, String, Bool, true, false, Option, none, some, if◌then◌else◌}
use memecoin_bot.Base.Int.{ℤ, ◌+ℤ◌, min_ℤ}
use memecoin_bot.Domain.{Chain}
use memecoin_bot.State.Snapshot.{TokenStateSnapshot}
use memecoin_bot.Sim.Types.{
  ExecutionStatus, no_fill, unavailable_market_state, ExecutionQuality, modelled,
  non_research_valid, OrderSide, buy, sell, is_sell, ExitReason, is_emergency, Reason, text,
}
use memecoin_bot.Sim.Models.{SimConfig, Digest, delay_ms}
use memecoin_bot.Sim.Venue.{executable_fill}
use memecoin_bot.Sim.Result.{ExecutionResult, empty}
use memecoin_bot.Sim.Exec.{SnapshotBook, at, SideOrder, venue_order, simulate_side}

-- The fields of the requests that the engines read.
pub record EntryRequest : Type 0 where
  pub chain : Chain
  pub token : String
  pub decision_time : ℤ
  pub side : OrderSide
  pub quote_notional : ℕ

pub record ExitRequest : Type 0 where
  pub chain : Chain
  pub token : String
  pub decision_time : ℤ
  pub token_amount_requested : ℕ
  pub reason : ExitReason

unfoldable pub execute_entry : Digest → SnapshotBook → SimConfig → EntryRequest → ExecutionResult
execute_entry digest book cfg r =
    if is_sell r.side
    then empty r.side r.decision_time r.decision_time r.quote_notional 0 no_fill modelled false
        (text "NO_SHORTING") 0 cfg.slippage.adverse_bps
    else simulate_side digest book cfg (record {
      chain = r.chain;
      token = r.token;
      side = buy;
      decision = r.decision_time;
      amount = r.quote_notional;
      is_quote = true;
      is_entry = true;
      emergency = false;
    })

abbrev pub exit_side : ExitRequest → SideOrder
exit_side r = record {
  chain = r.chain;
  token = r.token;
  side = sell;
  decision = r.decision_time;
  amount = r.token_amount_requested;
  is_quote = false;
  is_entry = false;
  emergency = is_emergency r.reason;
}

unfoldable pub execute_exit : Digest → SnapshotBook → SimConfig → ExitRequest → ExecutionResult
execute_exit digest book cfg r = simulate_side digest book cfg (exit_side r)

pub record ExecutionQuote : Type 0 where
  pub status : ExecutionStatus
  pub quality : ExecutionQuality
  pub reference_price_1e18 : ℕ
  pub expected_token : ℕ
  pub expected_quote : ℕ
  pub price_impact_bps : Option ℕ
  pub protocol_fee : ℕ
  pub reason : Option Reason

abbrev pub quote_on : SimConfig → OrderSide → ℕ → Option TokenStateSnapshot → ExecutionQuote
quote_on cfg side amount none = record {
  status = unavailable_market_state;
  quality = non_research_valid;
  reference_price_1e18 = 0;
  expected_token = 0;
  expected_quote = 0;
  price_impact_bps = none;
  protocol_fee = 0;
  reason = some (text "NO_SNAPSHOT");
}
quote_on cfg side amount (some snap) =
    let fill = executable_fill snap (venue_order cfg side amount) in
    record {
      status = fill.status;
      quality = fill.quality;
      reference_price_1e18 = fill.reference_price_1e18;
      expected_token = fill.token_amount;
      expected_quote = fill.quote_amount;
      price_impact_bps = fill.price_impact_bps;
      protocol_fee = fill.protocol_fee;
      reason = fill.reason;
    }

unfoldable pub quote_from :
    SnapshotBook → SimConfig → Chain → String → OrderSide → ℤ → ℕ → Bool → ExecutionQuote
quote_from book cfg chain token side decision amount is_quote =
    quote_on cfg (if is_quote then buy else side) amount
      (at book chain token (min_ℤ (decision +ℤ delay_ms cfg.delay chain) book.as_of))

unfoldable pub quote_entry : SnapshotBook → SimConfig → EntryRequest → ExecutionQuote
quote_entry book cfg r =
    quote_from book cfg r.chain r.token r.side r.decision_time r.quote_notional true

unfoldable pub quote_exit : SnapshotBook → SimConfig → ExitRequest → ExecutionQuote
quote_exit book cfg r =
    quote_from book cfg r.chain r.token sell r.decision_time r.token_amount_requested false
