-- ===== src/Candidate/Settle.antt =====
-- `step_until_stable` of apps/engine/src/candidate/engine.rs reaches a state without a step.
use memecoin_bot.Base.{
  ℕ, zero, suc, ◌<◌, ◌≤◌, ◌≡◌, ◌⊎◌, String, Bool, true, false, not, ◌&&◌, Option, none, some, List,
  [], ◌∷◌, arith, if◌then◌else◌, inl, inr, Option-cases,
}
use memecoin_bot.Security.Verdict.{SecurityVerdict, warn}
use memecoin_bot.Candidate.Machine.{
  CandidateState, discovered, security_pending, security_rejected, data_incomplete, watching,
  confirming, eligible, expired, CandidatePolicy, CandidateInput, CandidateTransition,
  progress_watch, by_verdict, by_activity, next_state, step, step_rounds, step_until_stable,
}
use memecoin_bot.Candidate.Hops.{step-next_state}

-- The hops that a candidate may still make, at most.
abbrev height : CandidateState → ℕ
height security_rejected = 0
height expired = 1
height eligible = 2
height confirming = 3
height watching = 4
height data_incomplete = 5
height security_pending = 6
height discovered = 7

-- The same for a warning that the policy refuses: all go to `data_incomplete`.
abbrev height_warned : CandidateState → ℕ
height_warned security_rejected = 0
height_warned expired = 1
height_warned data_incomplete = 2
height_warned _ = 3

abbrev is_warn : Option SecurityVerdict → Bool
is_warn (some warn) = true
is_warn _ = false

abbrev hops_left : CandidatePolicy → CandidateInput → CandidateState → ℕ
hops_left p i s =
    if is_warn i.verdict && not p.allow_security_warn then height_warned s else height s

-- The consecutive hops from `s` lead to a state where no step is left.
abbrev pub Settles :
    CandidatePolicy → CandidateInput → CandidateState → List CandidateTransition → Type 0
Settles p i s [] = step p s i ≡ none
Settles p i s (t ∷ ts) = (t.from_state ≡ s) × (step p s i ≡ some t) × Settles p i t.to_state ts

module _ (p : CandidatePolicy) (i : CandidateInput) where
  progress_watch-height :
      (s to : CandidateState) (r : String)
      → progress_watch p s i ≡ some (to, r)
      → height to < height s
  unfolding progress_watch
  progress_watch-height s to r h = ground arith

  by_verdict-hops_left :
      (s to : CandidateState) (r : String)
      → by_verdict p i.verdict s i ≡ some (to, r)
      → (hops_left p i to < hops_left p i s) ⊎ ((s ≡ expired) ⊎ (s ≡ security_rejected)) ⊎ (s ≡ to)
  unfolding by_verdict
  by_verdict-hops_left s to r h = ground (arith, progress_watch-height s to r)

  by_activity-hops_left :
      (s to : CandidateState) (r : String)
      → by_activity p s i ≡ some (to, r)
      → (hops_left p i to < hops_left p i s) ⊎ ((s ≡ expired) ⊎ (s ≡ security_rejected)) ⊎ (s ≡ to)
  unfolding by_activity
  by_activity-hops_left s to r h = ground (arith, by_verdict-hops_left s to r)

  next_state-hops_left :
      (s to : CandidateState) (r : String)
      → next_state p s i ≡ some (to, r)
      → (hops_left p i to < hops_left p i s) ⊎ (s ≡ to)
  unfolding next_state
  next_state-hops_left s to r h = ground (arith, by_activity-hops_left s to r)

  step-hops_left :
      (s : CandidateState) (t : CandidateTransition)
      → step p s i ≡ some t
      → hops_left p i t.to_state < hops_left p i s
  step-hops_left s t h =
      let (hop, _, moved) = step-next_state p s i t h in
      ground (arith, next_state-hops_left s t.to_state t.reason)

  step_rounds-Settles :
      (n : ℕ) (s : CandidateState) → hops_left p i s < n → Settles p i s (step_rounds p n s i)
  unfolding step_rounds
  step_rounds-Settles zero s h = elim h [ ]
  step_rounds-Settles (suc n) s h = elim (Option-cases (step p s i)) [
    | inl e ↦ rw (e, step_rounds) e
    | inr (t, e) ↦
        rw (e, step_rounds)
          (
            (step-next_state p s i t e).1,
            e,
            step_rounds-Settles n t.to_state (omega (arith, step-hops_left s t e)),
          )
  ]

  hops_left-le : (s : CandidateState) → hops_left p i s ≤ 7
  hops_left-le s = ground arith

  -- The eight rounds are enough: the transitions returned follow one another, each is the step that
  -- the machine takes from the state before it, and from the last state there is no step.
  pub step_until_stable-Settles : (s : CandidateState) → Settles p i s (step_until_stable p s i)
  unfolding step_until_stable
  step_until_stable-Settles s = step_rounds-Settles 8 s (omega (arith, hops_left-le s))
