-- ===== src/Candidate/Tests.antt =====
-- The candidate machine run on concrete tokens.
use mathlib.Core.Bool.{false}
use memecoin_bot.Base.{
  ◌≡◌, ◌≢◌, ◌⊎◌, inl, inr, refl, true, none, some, List, [], ◌∷◌, map, String, arith,
}
use memecoin_bot.Base.Int.{pos}
use memecoin_bot.Domain.{solana, pump_fun}
use memecoin_bot.Security.Verdict.{pass, reject, warn}
use memecoin_bot.State.Lifecycle.{curve_active}
use memecoin_bot.Candidate.Machine.{
  discovered, watching, confirming, eligible, expired, security_rejected, data_incomplete,
  CandidatePolicy, research_default, conservative, CandidateInput, CandidateTransition, transition,
  step, next_state, by_activity, by_verdict, progress_watch, confirm_ready, eligible_ready,
  step_rounds, step_until_stable, get_candidate_at_or_before,
}
use memecoin_bot.Candidate.Hops.{IsReady, step-eligible, step_terminal, step-reject}
use memecoin_bot.Candidate.Settle.{Settles, step_until_stable-Settles}
use memecoin_bot.Candidate.Lookup.{IsLatest, get_candidate_at_or_before-IsLatest}

abbrev traded_input : CandidateInput
traded_input = record {
  chain = solana;
  token = "token";
  launchpad = pump_fun;
  age_ms = pos 20_000;
  as_of_time = pos 1_000_000;
  snapshot_id = some (pos 7);
  verdict = some pass;
  security_id = none;
  features_id = none;
  buy_count = 5;
  unique_buyers = 4;
  trade_count = 6;
  lifecycle = curve_active;
  time_since_last_trade_ms = some (pos 1_000);
}

abbrev rejected_input : CandidateInput
rejected_input = record traded_input { verdict = some reject }

abbrev warned_input : CandidateInput
warned_input = record traded_input { verdict = some warn }

abbrev strict : CandidatePolicy
strict = record research_default { allow_security_warn = false }

abbrev to_eligible : CandidateTransition
to_eligible =
    transition research_default confirming eligible "MIN_DATA_FOR_STRATEGY_EVAL" traded_input

abbrev to_watching : CandidateTransition
to_watching = transition research_default discovered watching "SECURITY_PASS_OR_WARN" traded_input

all_the_way :
    map
      (λ (t : CandidateTransition). t.to_state)
      (step_until_stable research_default discovered traded_input)
    ≡ watching ∷ confirming ∷ eligible ∷ []
unfolding step_until_stable step_rounds step next_state by_activity by_verdict progress_watch
    confirm_ready eligible_ready
all_the_way = refl

conservative_waits :
    map
      (λ (t : CandidateTransition). t.to_state)
      (step_until_stable conservative discovered traded_input)
    ≡ watching ∷ confirming ∷ []
unfolding step_until_stable step_rounds step next_state by_activity by_verdict progress_watch
    confirm_ready eligible_ready
conservative_waits = refl

-- A warning that the policy refuses stops the candidate for lack of data.
warned_stops :
    map (λ (t : CandidateTransition). t.to_state) (step_until_stable strict discovered warned_input)
    ≡ data_incomplete ∷ []
unfolding step_until_stable step_rounds step next_state by_activity by_verdict progress_watch
    confirm_ready eligible_ready
warned_stops = refl

step-eligible_example : (confirming ≡ confirming) × IsReady research_default traded_input
unfolding step next_state by_activity by_verdict progress_watch eligible_ready
step-eligible_example = step-eligible research_default confirming traded_input to_eligible refl refl

step_terminal_example :
    (expired ≡ security_rejected → step research_default expired rejected_input ≡ none)
    × (expired ≡ expired
        → rejected_input.verdict ≢ some reject
        → step research_default expired rejected_input ≡ none)
    × ((t : CandidateTransition)
        → step research_default expired rejected_input ≡ some t
        → expired ≡ expired
        → (t.to_state ≡ security_rejected) × (rejected_input.verdict ≡ some reject))
    × (expired ≡ expired
        → rejected_input.verdict ≡ some reject
        → step research_default expired rejected_input
          ≡ some (
              transition research_default expired security_rejected "SECURITY_REJECT"
                rejected_input))
step_terminal_example = step_terminal research_default expired rejected_input

step-reject_example :
    step research_default eligible rejected_input
    ≡ some (transition research_default eligible security_rejected "SECURITY_REJECT" rejected_input)
step-reject_example = step-reject research_default eligible rejected_input refl (λ e. ground arith)

step_until_stable-Settles_example :
    Settles research_default traded_input discovered
      (step_until_stable research_default discovered traded_input)
step_until_stable-Settles_example =
    step_until_stable-Settles research_default traded_input discovered

abbrev rows : List CandidateTransition
rows = to_watching ∷ record to_eligible { as_of_time = pos 3_000_000 } ∷ []

lookup_skips_later : get_candidate_at_or_before rows (pos 2_000_000) ≡ some to_watching
unfolding get_candidate_at_or_before memecoin_bot.Base.max_by_key
lookup_skips_later = refl

get_candidate_at_or_before-IsLatest_example :
    IsLatest (pos 2_000_000) rows (get_candidate_at_or_before rows (pos 2_000_000))
get_candidate_at_or_before-IsLatest_example =
    get_candidate_at_or_before-IsLatest rows (pos 2_000_000)
