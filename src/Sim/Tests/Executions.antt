-- ===== src/Sim/Tests/Executions.antt =====
-- Executions on concrete books of snapshots: apps/engine/src/sim/exec.rs and impact.rs.
use memecoin_bot.Base.{
  ℕ, ◌+◌, ◌<◌, ◌≤◌, ◌≡◌, ◌⊎◌, refl, true, false, Option, none, some, List, [], ◌∷◌, arith, String,
}
use memecoin_bot.Base.Int.{pos}
use memecoin_bot.Domain.{solana}
use memecoin_bot.Sim.Types.{is_fill, buy, sell}
use memecoin_bot.Sim.Models.{SimConfig, default_config, max_attempts}
use memecoin_bot.Sim.Venue.{
  in_gap, not_sellable, executable_fill, fill_on, fill_on_curve, swap_terms,
}
use memecoin_bot.Sim.Venue.Guards.{IsPriced, executable_fill-IsPriced}
use memecoin_bot.Sim.Venue.Search.{search_top, search_quote, accepts, search_quote-IsEdge}
use memecoin_bot.Sim.Exec.{SnapshotBook, SideOrder, at, simulate_side, venue_order}
use memecoin_bot.Sim.Exec.Book.{IsLatestSeen, at-IsLatestSeen}
use memecoin_bot.Sim.Exec.Attempts.{IsOutcome, simulate_side-IsOutcome, simulate_side-past}
use memecoin_bot.Sim.Samples.{sample_digest, snapshot_at}

abbrev book : SnapshotBook
book = record {
  snapshots = snapshot_at (pos 1_000) ∷ snapshot_at (pos 2_500) ∷ [];
  as_of = pos 10_000;
}

-- The same book with a snapshot from after its end.
abbrev longer_book : SnapshotBook
longer_book = record book {
  snapshots = snapshot_at (pos 20_000) ∷ snapshot_at (pos 1_000) ∷ snapshot_at (pos 2_500) ∷ [];
}

abbrev entry : SideOrder
entry = record {
  chain = solana;
  token = "token";
  side = buy;
  decision = pos 1_000;
  amount = 1_000_000_000;
  is_quote = true;
  is_entry = true;
  emergency = false;
}

shows_latest : at longer_book solana "token" (pos 2_600) ≡ some (snapshot_at (pos 2_500))
unfolding at memecoin_bot.Base.max_by_key memecoin_bot.Base.eq_string
shows_latest = refl

at-IsLatestSeen_example :
    IsLatestSeen longer_book solana "token" (pos 3_000) (at longer_book solana "token" (pos 3_000))
at-IsLatestSeen_example = at-IsLatestSeen longer_book solana "token" (pos 3_000)

simulate_side-past_example :
    simulate_side sample_digest book default_config entry
    ≡ simulate_side sample_digest longer_book default_config entry
simulate_side-past_example =
    simulate_side-past sample_digest default_config entry book longer_book (refl, refl)

simulate_side-IsOutcome_example :
    IsOutcome sample_digest default_config entry book 2
      (simulate_side sample_digest book default_config entry)
unfolding max_attempts
simulate_side-IsOutcome_example = simulate_side-IsOutcome sample_digest default_config entry book

buys :
    is_fill
      (executable_fill
        (snapshot_at (pos 2_500))
        (venue_order default_config buy 1_000_000_000)).status
    ≡ true
unfolding executable_fill fill_on fill_on_curve swap_terms memecoin_bot.Sim.Models.protocol_bps
    memecoin_bot.Sim.Models.snipe_tax_bps memecoin_bot.Sim.Curve.curve_swap
    memecoin_bot.Sim.Curve.buy_swap memecoin_bot.Sim.Curve.finish_buy
    memecoin_bot.Sim.Curve.buy_status memecoin_bot.Sim.Curve.fraction_bps
    memecoin_bot.Sim.Curve.booked_quote memecoin_bot.Sim.Curve.cap_at
    memecoin_bot.Sim.Curve.swap_out memecoin_bot.Sim.Curve.less_bps memecoin_bot.Sim.Curve.share_bps
    memecoin_bot.Sim.Curve.price_1e18 memecoin_bot.Sim.Curve.impact_bps
    memecoin_bot.Sim.Curve.adverse_move memecoin_bot.Sim.Curve.tokens_out
    memecoin_bot.Sim.Curve.net_in memecoin_bot.Sim.Models.apply_adverse_bps
    memecoin_bot.Base.u256_max
buys = refl

executable_fill-IsPriced_example :
    IsPriced (snapshot_at (pos 2_500)).market_state
    × (in_gap (snapshot_at (pos 2_500)).lifecycle_state ≡ false)
    × (buy ≡ sell → not_sellable (snapshot_at (pos 2_500)).lifecycle_state ≡ false)
executable_fill-IsPriced_example =
    executable_fill-IsPriced (snapshot_at (pos 2_500))
      (venue_order default_config buy 1_000_000_000) buys

abbrev vs : ℕ
vs = 30_000_000_000

abbrev vt : ℕ
vt = 1_073_000_000_000_000

search_quote-IsEdge_example :
    ((q : ℕ)
      → search_quote vs vt 500 ≡ some q
      → (accepts vs vt 500 q ≡ true)
        × (q ≤ search_top vs)
        × ((q ≡ search_top vs) ⊎ (accepts vs vt 500 (q + 1) ≡ false)))
    × (search_quote vs vt 500 ≡ none → accepts vs vt 500 1 ≡ false)
unfolding search_top
search_quote-IsEdge_example =
    search_quote-IsEdge vs vt 500 (omega arith) (omega arith) (omega arith)
