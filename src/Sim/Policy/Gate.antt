-- ===== src/Sim/Policy/Gate.antt =====
-- The entry policies of apps/engine/src/sim/policy.rs.
use memecoin_bot.Base.{ℕ, String, Bool, true, false, Option, none, some, if◌then◌else◌}
use memecoin_bot.Base.Int.{ℤ, pos, ◌+ℤ◌, ltb_ℤ}
use memecoin_bot.Security.Verdict.{SecurityVerdict, reject}
use memecoin_bot.Candidate.Machine.{CandidateState, eligible, eq_state}
use memecoin_bot.Sim.Models.{Digest, deterministic_hit}

pub data EntryPolicyId : Type 0 where
  first_eligible delay30s delay60s delay120s random_eligible : EntryPolicyId

unfoldable pub entry_delay_ms : EntryPolicyId → ℤ
entry_delay_ms first_eligible = pos 0
entry_delay_ms random_eligible = pos 0
entry_delay_ms delay30s = pos 30_000
entry_delay_ms delay60s = pos 60_000
entry_delay_ms delay120s = pos 120_000

abbrev pub is_random : EntryPolicyId → Bool
is_random random_eligible = true
is_random _ = false

pub data EntryDecision : Type 0 where
  enter : EntryDecision
  refused : String → EntryDecision

pub record EntryQuery : Type 0 where
  pub policy : EntryPolicyId
  pub candidate : CandidateState
  pub security : Option SecurityVerdict
  pub first_eligible_at : Option ℤ
  pub now : ℤ
  pub token : String
  pub seed : ℕ

-- The checks once the time of eligibility is known.
unfoldable pub enter_since : Digest → EntryQuery → ℤ → EntryDecision
enter_since digest q t0 =
    if ltb_ℤ q.now (t0 +ℤ entry_delay_ms q.policy)
    then refused "DELAY_NOT_REACHED"
    else let skip =
        if deterministic_hit digest q.seed q.token t0 0 5_000
        then enter
        else refused "RANDOM_CONTROL_SKIP" in
      if is_random q.policy then skip else enter

abbrev pub enter_cleared : Digest → EntryQuery → Option ℤ → EntryDecision
enter_cleared digest q none = refused "NO_ELIGIBLE_TIME"
enter_cleared digest q (some t0) = enter_since digest q t0

unfoldable pub enter_eligible : Digest → EntryQuery → EntryDecision
enter_eligible digest q =
    if eq_state q.candidate eligible
    then enter_cleared digest q q.first_eligible_at
    else refused "NOT_ELIGIBLE"

abbrev pub enter_with : Digest → EntryQuery → Option SecurityVerdict → EntryDecision
enter_with digest q (some reject) = refused "SECURITY_REJECT"
enter_with digest q (some SecurityVerdict.unknown) = refused "SECURITY_UNKNOWN"
enter_with digest q none = refused "SECURITY_UNKNOWN"
enter_with digest q (some _) = enter_eligible digest q

unfoldable pub may_enter : Digest → EntryQuery → EntryDecision
may_enter digest q = enter_with digest q q.security
