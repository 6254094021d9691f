-- ===== src/Sim/Tests/Runs.antt =====
-- A whole run over four snapshots of one token: apps/engine/src/sim/harness.rs.
use memecoin_bot.Base.{◌≡◌, false, some, [], ◌∷◌, map, All}
use memecoin_bot.Base.Int.{pos}
use memecoin_bot.Domain.{solana}
use memecoin_bot.Security.Verdict.{pass}
use memecoin_bot.Candidate.Machine.{eligible}
use memecoin_bot.Sim.Types.{is_open}
use memecoin_bot.Sim.Models.{default_config}
use memecoin_bot.Sim.Policy.{time_exit}
use memecoin_bot.Sim.Policy.Gate.{first_eligible}
use memecoin_bot.Sim.Position.Ledger.{IsBooked}
use memecoin_bot.Sim.Harness.{Scenario, run_historical}
use memecoin_bot.Sim.Harness.Positions.{key, IsDistinct}
use memecoin_bot.Sim.Harness.Run.{run_historical-IsBooked}
use memecoin_bot.Sim.Samples.{sample_digest, snapshot_at}

abbrev scenario : Scenario
scenario = record {
  snaps =
      snapshot_at (pos 1_000)
      ∷ snapshot_at (pos 4_000)
      ∷ snapshot_at (pos 70_000)
      ∷ snapshot_at (pos 90_000)
      ∷ [];
  eligible_at = λ chain token. some (pos 1_000);
  security_timeline = record { at = pos 500; chain = solana; token = "token"; value = pass } ∷ [];
  candidate_timeline =
      record { at = pos 900; chain = solana; token = "token"; value = eligible } ∷ [];
  entry = first_eligible;
  exit = time_exit (pos 60_000);
  label = "first";
  cfg = default_config;
  seed = 1;
}

run_historical-IsBooked_example :
    let ps = (run_historical sample_digest (pos 0) scenario).positions in
    All IsBooked ps × All (λ p. is_open p.status ≡ false) ps × IsDistinct (map key ps)
run_historical-IsBooked_example = run_historical-IsBooked sample_digest (pos 0) scenario
