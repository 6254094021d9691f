-- ===== src/Sim/Exec.antt =====
-- `SnapshotBook`, `simulate_side` and the historical engine of apps/engine/src/sim/exec.rs. The paper
-- engine calls the historical one on the same book. `data_quality` and the launchpad of a request, which
-- feed a test without effect and the metrics, are left out.
pub mod Book
pub mod Attempts
pub mod Engine
use memecoin_bot.Base.{
  ℕ, zero, suc, ◌+◌, String, Bool, true, false, ◌&&◌, Option, none, some, List, if◌then◌else◌,
  filter_by, max_by_key, eq_string, sat_add,
}
use memecoin_bot.Base.Int.{ℤ, pos, ◌+ℤ◌, ltb_ℤ, leb_ℤ, max_ℤ, min_ℤ, div_ℤ, times_ℤ}
use memecoin_bot.Domain.{Chain, eq_chain, is_research_complete}
use memecoin_bot.State.Snapshot.{TokenStateSnapshot}
use memecoin_bot.Sim.Types.{
  ExecutionStatus, no_fill, failed, unavailable_market_state, ExecutionQuality, modelled,
  non_research_valid, OrderSide, buy, sell, is_sell, ExitReason, is_emergency, Reason, text,
  is_fill, research_valid,
}
use memecoin_bot.Sim.Models.{SimConfig, Digest, delay_ms, max_attempts, fails}
use memecoin_bot.Sim.Curve.{VenueFill}
use memecoin_bot.Sim.Venue.{Order, executable_fill}
use memecoin_bot.Sim.Result.{ExecutionResult, empty}

pub record SnapshotBook : Type 0 where
  pub snapshots : List TokenStateSnapshot
  pub as_of : ℤ

-- The test of `filter`.
abbrev pub visible : Chain → String → ℤ → TokenStateSnapshot → Bool
visible chain token cap s =
    eq_chain s.chain chain && eq_string s.token_address token && leb_ℤ s.snapshot_time cap

unfoldable pub at : SnapshotBook → Chain → String → ℤ → Option TokenStateSnapshot
at book chain token time =
    max_by_key (λ s. s.snapshot_time)
      (filter_by (visible chain token (min_ℤ time book.as_of)) book.snapshots)

-- The arguments of `simulate_side` but the book and the configuration.
pub record SideOrder : Type 0 where
  pub chain : Chain
  pub token : String
  pub side : OrderSide
  pub decision : ℤ
  pub amount : ℕ
  pub is_quote : Bool
  pub is_entry : Bool
  pub emergency : Bool

unfoldable pub attempt_delay : SimConfig → SideOrder → ℤ
attempt_delay cfg o =
    if o.emergency
    then max_ℤ (div_ℤ (delay_ms cfg.delay o.chain) 4) (pos 50)
    else delay_ms cfg.delay o.chain

unfoldable pub attempt_time : SimConfig → SideOrder → ℕ → ℤ
attempt_time cfg o attempt =
    o.decision +ℤ (attempt_delay cfg o +ℤ times_ℤ attempt cfg.retry.retry_delay_ms)

abbrev pub requested_quote_of : SideOrder → ℕ
requested_quote_of o = if o.is_quote then o.amount else 0

abbrev pub requested_token_of : SideOrder → ℕ
requested_token_of o = if o.is_quote then 0 else o.amount

unfoldable pub no_attempt : SimConfig → SideOrder → ExecutionResult
no_attempt cfg o =
    empty o.side o.decision (o.decision +ℤ attempt_delay cfg o) (requested_quote_of o)
      (requested_token_of o) no_fill non_research_valid false (text "NO_ATTEMPT") 0
      cfg.slippage.adverse_bps

abbrev pub venue_order : SimConfig → OrderSide → ℕ → Order
venue_order cfg side amount = record {
  side = side;
  amount = amount;
  fees = cfg.fees;
  slip = cfg.slippage;
  max_slippage_bps = cfg.max_slippage_bps;
  force_snipe = cfg.allow_snipe_window;
}

-- `last` after a fill of the venue is written to it.
unfoldable pub record_fill :
    SimConfig → SideOrder → ℤ → TokenStateSnapshot → VenueFill → ExecutionResult → ExecutionResult
record_fill cfg o time snap fill last = record last {
  snapshot_id = snap.id;
  actual_simulated_fill_time = some time;
  status = fill.status;
  quality = fill.quality;
  filled_quote = fill.quote_amount;
  filled_token = fill.token_amount;
  fill_fraction_bps = fill.fill_fraction_bps;
  reference_price_1e18 = fill.reference_price_1e18;
  effective_fill_price_1e18 = fill.effective_price_1e18;
  price_impact_bps = fill.price_impact_bps;
  protocol_fee = fill.protocol_fee;
  snipe_tax = fill.snipe_tax;
  network_fee = cfg.fees.network_fee_quote;
  priority_fee = cfg.fees.priority_fee_quote;
  tip = cfg.fees.tip_quote;
  total_cost = sat_add (sat_add fill.protocol_fee fill.snipe_tax) cfg.fees.network_fee_quote;
  reason = fill.reason;
  research_ok =
      is_research_complete snap.data_quality && research_valid fill.quality && is_fill fill.status;
  requested_quote = requested_quote_of o;
  requested_token = requested_token_of o;
}

-- How a round of the loop goes on: `break`, `continue`, or `return`.
pub data Round : Type 0 where
  halt : ExecutionResult → Round
  retry : ExecutionResult → Round
  done : ExecutionResult → Round

abbrev pub on_snapshot :
    SimConfig → SideOrder → ℤ → ExecutionResult → Option TokenStateSnapshot → Round
on_snapshot cfg o time last none = retry (record last {
  status = unavailable_market_state;
  reason = some (text "NO_SNAPSHOT_AT_FILL_TIME");
  quality = non_research_valid;
})
on_snapshot cfg o time last (some snap) =
    let fill = executable_fill snap (venue_order cfg o.side o.amount) in
    let next = record_fill cfg o time snap fill last in
    if is_fill fill.status then done next else retry next

-- The body of the loop, once the time and the number of the attempt are noted in `last`.
unfoldable pub round_at :
    Digest → SnapshotBook → SimConfig → SideOrder → ℕ → ℤ → ExecutionResult → Round
round_at digest book cfg o attempt time last =
    if ltb_ℤ book.as_of time
    then halt (record last {
      status = no_fill;
      reason = some (text "FILL_TIME_NOT_YET_AVAILABLE");
      quality = modelled;
    })
    else if fails digest cfg.failure o.is_entry o.token time attempt
    then retry (record last {
      status = failed;
      reason = some (text "SEEDED_FAILURE");
      quality = modelled;
      actual_simulated_fill_time = some time;
    })
    else on_snapshot cfg o time last (at book o.chain o.token time)

unfoldable pub round : Digest → SnapshotBook → SimConfig → SideOrder → ℕ → ExecutionResult → Round
round digest book cfg o attempt last =
    round_at digest book cfg o attempt (attempt_time cfg o attempt) (record last {
      eligible_execution_time = attempt_time cfg o attempt;
      attempt_number = attempt + 1;
    })

abbrev pub without_fill : ExecutionResult → ExecutionResult
without_fill last = record last { research_ok = false }

-- What follows a round, from what the later rounds make of `last`.
abbrev pub follow : (ExecutionResult → ExecutionResult) → Round → ExecutionResult
follow rest (halt r) = without_fill r
follow rest (retry r) = rest r
follow rest (done r) = r

-- The loop, over the attempts left and the attempts made.
unfoldable pub attempts :
    Digest → SnapshotBook → SimConfig → SideOrder → ℕ → ℕ → ExecutionResult → ExecutionResult
attempts digest book cfg o zero made last = without_fill last
attempts digest book cfg o (suc left) made last =
    follow (attempts digest book cfg o left (made + 1)) (round digest book cfg o made last)

unfoldable pub simulate_side : Digest → SnapshotBook → SimConfig → SideOrder → ExecutionResult
simulate_side digest book cfg o =
    attempts digest book cfg o (max_attempts cfg.retry o.is_entry o.emergency) 0 (no_attempt cfg o)
