-- ===== src/Sim/Tests/Policies.antt =====
-- Entry and exit policies at concrete positions: apps/engine/src/sim/policy.rs.
use memecoin_bot.Base.{◌≡◌, ◌↔◌, refl, true, false, none, some, arith}
use memecoin_bot.Base.Int.{ℤ, pos, ◌+ℤ◌}
use memecoin_bot.Security.Verdict.{reject, warn}
use memecoin_bot.Candidate.Machine.{eligible}
use memecoin_bot.Sim.Types.{is_open, security_emergency}
use memecoin_bot.Sim.Models.{default_fees}
use memecoin_bot.Sim.Policy.{default_runner, dynamic_runner, exit_all, evaluate}
use memecoin_bot.Sim.Policy.Gate.{
  delay30s, EntryQuery, enter, may_enter, enter_eligible, enter_since, entry_delay_ms,
}
use memecoin_bot.Sim.Policy.Entry.{IsTradable, IsDue, may_enter_iff}
use memecoin_bot.Sim.Policy.Amounts.{FitsHeld, evaluate-FitsHeld}
use memecoin_bot.Sim.Samples.{sample_digest, held, snapshot_at}

abbrev query : EntryQuery
query = record {
  policy = delay30s;
  candidate = eligible;
  security = some warn;
  first_eligible_at = some (pos 1_000);
  now = pos 31_000;
  token = "token";
  seed = 1;
}

allowed : may_enter sample_digest query ≡ enter
unfolding may_enter enter_eligible enter_since entry_delay_ms ◌+ℤ◌
allowed = refl

may_enter_iff_example : (may_enter sample_digest query ≡ enter) ↔ (
    IsTradable (some warn)
    × (eligible ≡ eligible)
    × ((t0 : ℤ) × (some (pos 1_000) ≡ some t0) × IsDue sample_digest query t0))
may_enter_iff_example = may_enter_iff sample_digest query

evaluate-FitsHeld_example :
    let e =
      evaluate
        (dynamic_runner default_runner (pos 60_000))
        default_fees
        held
        (snapshot_at (pos 9_000))
        (some reject)
        none in
    FitsHeld held e
    × (is_open held.status ≡ false → e ≡ none)
    × (is_open held.status ≡ true
        → some reject ≡ some reject
        → e ≡ some (exit_all held security_emergency))
evaluate-FitsHeld_example =
    evaluate-FitsHeld held (snapshot_at (pos 9_000)) none
      (dynamic_runner default_runner (pos 60_000)) default_fees (some reject)
      (omega arith, (omega arith, (omega arith, tt)))
