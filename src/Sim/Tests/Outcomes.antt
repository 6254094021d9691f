-- ===== src/Sim/Tests/Outcomes.antt =====
-- The labels, the missed winners and the figures of a token that rises: apps/engine/src/sim/outcome.rs.
use memecoin_bot.Base.{
  ◌≡◌, refl, true, false, none, some, List, [], ◌∷◌, arith, u256_max, filter_by, eq_string,
  max_by_key,
}
use memecoin_bot.Base.Int.{pos, ◌+ℤ◌, ◌-ℤ◌}
use memecoin_bot.Domain.{solana}
use memecoin_bot.Security.Verdict.{SecurityVerdict, pass}
use memecoin_bot.Candidate.Machine.{CandidateState, eligible}
use memecoin_bot.State.Market.{bonding_curve}
use memecoin_bot.State.Snapshot.{TokenStateSnapshot}
use memecoin_bot.Sim.Types.{buy, filled}
use memecoin_bot.Sim.Harness.{Row, SimulatedOrder}
use memecoin_bot.Sim.Venue.{spot_price_1e18}
use memecoin_bot.Sim.Curve.{price_1e18}
use memecoin_bot.Sim.Position.Returns.{return_bps}
use memecoin_bot.Sim.Outcome.{
  TokenOutcome, token_outcome, of_token, outcome_of, see_price, crossing,
}
use memecoin_bot.Sim.Outcome.Path.Labels.{IsOutcomeAt, LatestBefore, token_outcome-IsOutcomeAt}
use memecoin_bot.Sim.Outcome.Missed.{missed_winners}
use memecoin_bot.Sim.Outcome.Missed.Reasons.{AreRowsOf, rose, missed_winners-AreRowsOf}
use memecoin_bot.Sim.Outcome.Performance.{policy_performance}
use memecoin_bot.Sim.Outcome.Performance.Consistent.{IsConsistent, policy_performance-IsConsistent}
use memecoin_bot.Sim.Samples.{snapshot_at, curve, bought, held}

-- The market after the price has grown six times.
abbrev risen : TokenStateSnapshot → TokenStateSnapshot
risen s = record s {
  market_state = bonding_curve (record curve { virtual_sol_reserves = some 180_000_000_000 });
}

abbrev rising : List TokenStateSnapshot
rising = snapshot_at (pos 1_000) ∷ snapshot_at (pos 4_000) ∷ risen (snapshot_at (pos 6_000)) ∷ []

abbrev labels : TokenOutcome
labels = record {
  chain = solana;
  token = "token";
  launchpad = (snapshot_at (pos 1_000)).launchpad;
  reference_time = pos 2_000;
  reference_snapshot_id = some (pos 11);
  horizon_ms = pos 60_000;
  reference_price_1e18 = 27_958_993_476_234;
  final_price_1e18 = 167_753_960_857_409;
  max_price_1e18 = 167_753_960_857_409;
  min_price_1e18 = 27_958_993_476_234;
  final_return_bps = some (pos 50_000);
  max_return_bps = some (pos 50_000);
  max_drawdown_bps = some (pos 0);
  reached_2x = true;
  reached_5x = true;
  reached_10x = false;
  reached_20x = false;
  time_to_2x_ms = some (pos 4_000);
  time_to_5x_ms = some (pos 4_000);
  time_to_10x_ms = none;
  time_to_20x_ms = none;
  outcome_quality = (snapshot_at (pos 1_000)).data_quality;
}

token_outcome_run : token_outcome rising solana "token" (pos 2_000) (pos 60_000) ≡ some labels
unfolding token_outcome eq_string max_by_key spot_price_1e18 outcome_of price_1e18 ◌+ℤ◌ return_bps
    u256_max see_price crossing ◌-ℤ◌
token_outcome_run = refl

token_outcome-IsOutcomeAt_example :
    (r : TokenStateSnapshot) × LatestBefore
      (pos 2_000)
      (filter_by (of_token solana "token") rising)
      r
    × IsOutcomeAt
        (filter_by (of_token solana "token") rising)
        (pos 2_000)
        (pos 60_000)
        r
        (spot_price_1e18 r)
        labels
unfolding u256_max
token_outcome-IsOutcomeAt_example =
    token_outcome-IsOutcomeAt rising solana "token" (pos 2_000) (pos 60_000) labels
      token_outcome_run (omega arith)

abbrev order : SimulatedOrder
order = record {
  id = pos 1;
  policy_id = "first";
  chain = solana;
  token = "token";
  side = buy;
  decision_time = pos 1_000;
  requested_amount = 1_000;
  status = filled;
  result = bought;
}

abbrev verdicts : List (Row SecurityVerdict)
verdicts = record { at = pos 500; chain = solana; token = "token"; value = pass } ∷ []

abbrev states : List (Row CandidateState)
states = record { at = pos 900; chain = solana; token = "token"; value = eligible } ∷ []

missed_winners-AreRowsOf_example :
    AreRowsOf
      (held ∷ [])
      (order ∷ [])
      verdicts
      states
      (filter_by (rose (pos 40_000)) (labels ∷ []))
      (missed_winners (labels ∷ []) (held ∷ []) (order ∷ []) verdicts states (pos 40_000))
missed_winners-AreRowsOf_example =
    missed_winners-AreRowsOf (held ∷ []) (order ∷ []) verdicts states (labels ∷ []) (pos 40_000)

policy_performance-IsConsistent_example :
    IsConsistent (policy_performance "first" true (order ∷ []) (held ∷ []))
policy_performance-IsConsistent_example =
    policy_performance-IsConsistent "first" true (order ∷ []) (held ∷ [])
