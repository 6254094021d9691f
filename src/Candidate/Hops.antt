-- ===== src/Candidate/Hops.antt =====
-- What one step of the candidate machine may do: apps/engine/src/candidate/engine.rs.
use memecoin_bot.Base.{◌≤◌, ◌≡◌, ◌⊎◌, ◌≢◌, String, true, some, none, arith}
use memecoin_bot.Base.Int.{◌≤ℤ◌}
use memecoin_bot.Security.Verdict.{pass, warn, reject}
use memecoin_bot.State.Lifecycle.{inactive}
use memecoin_bot.Candidate.Machine.{
  CandidateState, confirming, eligible, expired, security_rejected, CandidatePolicy, CandidateInput,
  CandidateTransition, eligible_ready, progress_watch, by_verdict, by_activity, next_state,
  transition, step,
}

abbrev pub IsCleared : CandidatePolicy → CandidateInput → Type 0
IsCleared p i = (i.verdict ≡ some pass) ⊎ ((i.verdict ≡ some warn) × (p.allow_security_warn ≡ true))

-- What the candidate must show before it is eligible.
pub record IsReady (p : CandidatePolicy) (i : CandidateInput) : Type 0 where
  pub cleared : IsCleared p i
  pub alive : i.lifecycle ≢ inactive
  pub old_enough : p.min_eligible_age_ms ≤ℤ i.age_ms
  pub young_enough : i.age_ms ≤ℤ p.max_candidate_age_ms
  pub traded : p.min_trades_for_eligible ≤ i.trade_count
  pub bought : p.min_unique_buyers_for_eligible ≤ i.unique_buyers

module _ (p : CandidatePolicy) (s : CandidateState) (i : CandidateInput) where
  progress_watch-eligible :
      (r : String)
      → progress_watch p s i ≡ some (eligible, r)
      → (s ≡ confirming) × (eligible_ready p i ≡ true)
  unfolding progress_watch
  progress_watch-eligible r h = ground arith

  by_verdict-eligible :
      (r : String)
      → by_verdict p i.verdict s i ≡ some (eligible, r)
      → (s ≡ confirming) × (eligible_ready p i ≡ true) × IsCleared p i
  unfolding by_verdict
  by_verdict-eligible r h = ground (arith, progress_watch-eligible r)

  by_activity-eligible :
      (r : String)
      → by_activity p s i ≡ some (eligible, r)
      → (s ≡ confirming)
        × (eligible_ready p i ≡ true)
        × IsCleared p i
        × (i.age_ms ≤ℤ p.max_candidate_age_ms)
  unfolding by_activity
  by_activity-eligible r h = ground (arith, by_verdict-eligible r)

  next_state-eligible :
      (r : String)
      → next_state p s i ≡ some (eligible, r)
      → (s ≡ confirming)
        × (eligible_ready p i ≡ true)
        × IsCleared p i
        × (i.age_ms ≤ℤ p.max_candidate_age_ms)
        × (i.lifecycle ≢ inactive)
  unfolding next_state
  next_state-eligible r h = ground (arith, by_activity-eligible r)

  eligible_ready_lem :
      eligible_ready p i ≡ true
      → (p.min_eligible_age_ms ≤ℤ i.age_ms)
        × (p.min_trades_for_eligible ≤ i.trade_count)
        × (p.min_unique_buyers_for_eligible ≤ i.unique_buyers)
  unfolding eligible_ready
  eligible_ready_lem h = ground arith

  -- A step names the hop that `next_state` chose.
  pub step-next_state :
      (t : CandidateTransition)
      → step p s i ≡ some t
      → (next_state p s i ≡ some (t.to_state, t.reason)) × (t.from_state ≡ s) × (t.to_state ≢ s)
  unfolding step
  step-next_state t h = ground arith

  -- A step that makes a candidate eligible starts from confirming, with a verdict that the policy
  -- accepts, a token that is not inactive, and age, trades and buyers within the policy's limits.
  pub step-eligible :
      (t : CandidateTransition)
      → step p s i ≡ some t
      → t.to_state ≡ eligible
      → (s ≡ confirming) × IsReady p i
  step-eligible t h e =
      let (hop, _, _) = step-next_state t h in
      ground (arith, next_state-eligible t.reason, eligible_ready_lem)

  -- A candidate that security has rejected takes no step, and an expired one takes a step exactly
  -- on a reject verdict: then always, by the transition to the rejected state, and else none.
  pub step_terminal :
      (s ≡ security_rejected → step p s i ≡ none)
      × (s ≡ expired → i.verdict ≢ some reject → step p s i ≡ none)
      × ((t : CandidateTransition)
          → step p s i ≡ some t
          → s ≡ expired
          → (t.to_state ≡ security_rejected) × (i.verdict ≡ some reject))
      × (s ≡ expired
          → i.verdict ≡ some reject
          → step p s i ≡ some (transition p s security_rejected "SECURITY_REJECT" i))
  unfolding step next_state
  step_terminal =
      (λ e. ground arith, λ e h. ground arith, λ t h e. ground arith, λ e v. ground arith)

  -- A reject verdict moves every candidate that is not yet rejected to the rejected state at once,
  -- whatever its age and activity.
  pub step-reject :
      i.verdict ≡ some reject
      → s ≢ security_rejected
      → step p s i ≡ some (transition p s security_rejected "SECURITY_REJECT" i)
  unfolding step next_state
  step-reject v h = ground arith
