-- ===== src/Sim/Outcome/Missed/Reasons.antt =====
-- The reasons of `missed_winners` of apps/engine/src/sim/outcome.rs, and what they mean.
use memecoin_bot.Base.{
  Bool, true, false, Option, none, some, List, [], ◌∷◌, map, filter_by, ◌<◌, ◌≡◌, ◌≢◌, refl, ◌↔◌,
  ◌⊎◌, inl, inr, arith,
}
use memecoin_bot.Base.Int.{ℤ, leb_ℤ}
use memecoin_bot.Security.Verdict.{SecurityVerdict, reject, pass, warn}
use memecoin_bot.Candidate.Machine.{CandidateState, eligible}
use memecoin_bot.Sim.Types.{ExecutionStatus, rejected_liquidity, unavailable_market_state}
use memecoin_bot.Sim.Position.Book.{SimulatedPosition}
use memecoin_bot.Sim.Harness.{Row, SimulatedOrder}
use memecoin_bot.Sim.Outcome.{TokenOutcome}
use memecoin_bot.Sim.Outcome.Missed.{
  MissReason, security_reject, strategy_filter, entered_captured, MissedWinner, ratio_or,
  miss_of_order, miss_of_verdict, classify_miss, find_position, last_buy, last_verdict,
  highest_candidate_of, capture_of, is_entered, missed_row, return_or, missed_winners,
  security_unknown, liquidity_too_low, entry_failed, entered_exited_too_early, never_eligible,
}
use memecoin_bot.Sim.Outcome.Missed.Sources.{
  IsFirstPosition, IsLastBuy, IsLatestVerdict, IsEverEligible, find_position-IsFirstPosition,
  last_buy-IsLastBuy, last_verdict-IsLatestVerdict, highest_candidate_of-IsEverEligible,
}

-- What the reason says of the entry.
abbrev pub of_entered : MissReason → Bool
of_entered entered_exited_too_early = true
of_entered entered_captured = true
of_entered _ = false

abbrev pub accepted : Option SecurityVerdict → Bool
accepted (some pass) = true
accepted (some warn) = true
accepted _ = false

miss_of_order-entered : (s : Option ExecutionStatus) → of_entered (miss_of_order s) ≡ false
unfolding miss_of_order
miss_of_order-entered none = refl
miss_of_order-entered (some s) = ground arith

-- There was an order to buy, and liquidity was not what it lacked.
abbrev pub IsFailedOrder : Option ExecutionStatus → Type 0
IsFailedOrder status =
    (status ≢ none) × (status ≢ some rejected_liquidity) × (status ≢ some unavailable_market_state)

-- The reasons in the order in which they are asked: entered, by the verdict, by the candidate state, by
-- the order.
pub record IsReason (p : Option SimulatedPosition) (status : Option ExecutionStatus)
    (sec : Option SecurityVerdict) (hi : CandidateState) (o : TokenOutcome) (m : MissReason)
    : Type 0 where
  pub entered_same : of_entered m ≡ is_entered p
  pub early_iff :
      (m ≡ entered_exited_too_early)
      ↔ ((is_entered p ≡ true) × (o.reached_10x ≡ true) × (ratio_or (capture_of p) < 2_500))
  pub reject_iff : (m ≡ security_reject) ↔ ((p ≡ none) × (sec ≡ some reject))
  pub unknown_iff :
      (m ≡ security_unknown) ↔ ((p ≡ none) × (accepted sec ≡ false) × (sec ≢ some reject))
  pub never_iff : (m ≡ never_eligible) ↔ ((p ≡ none) × (accepted sec ≡ true) × (hi ≢ eligible))
  pub filter_iff :
      (m ≡ strategy_filter)
      ↔ ((p ≡ none) × (accepted sec ≡ true) × (hi ≡ eligible) × (status ≡ none))
  pub liquidity_iff : (m ≡ liquidity_too_low) ↔ (
      (p ≡ none)
      × (accepted sec ≡ true)
      × (hi ≡ eligible)
      × ((status ≡ some rejected_liquidity) ⊎ (status ≡ some unavailable_market_state)))
  pub failed_iff :
      (m ≡ entry_failed)
      ↔ ((p ≡ none) × (accepted sec ≡ true) × (hi ≡ eligible) × IsFailedOrder status)

-- Where there is a position the reason is one of two.
classify_miss-held :
    (p : SimulatedPosition) (status : Option ExecutionStatus) (sec : Option SecurityVerdict)
    (hi : CandidateState) (o : TokenOutcome)
    → IsReason (some p) status sec hi o (classify_miss (some p) status sec hi o)
unfolding classify_miss
classify_miss-held p status sec hi o = record {
  entered_same = ground arith;
  early_iff = (λ h. ground arith, λ h. ground arith);
  reject_iff = (λ h. ground arith, λ h. cc (h.0));
  unknown_iff = (λ h. ground arith, λ h. cc (h.0));
  never_iff = (λ h. ground arith, λ h. cc (h.0));
  filter_iff = (λ h. ground arith, λ h. cc (h.0));
  liquidity_iff = (λ h. ground arith, λ h. cc (h.0));
  failed_iff = (λ h. ground arith, λ h. cc (h.0));
}

-- The reasons by which an accepted, eligible candidate is without a position.
record IsOrderReason (status : Option ExecutionStatus) (m : MissReason) : Type 0 where
  no_early : m ≢ entered_exited_too_early
  no_reject : m ≢ security_reject
  no_unknown : m ≢ security_unknown
  no_never : m ≢ never_eligible
  by_filter : (m ≡ strategy_filter) ↔ (status ≡ none)
  by_liquidity :
      (m ≡ liquidity_too_low)
      ↔ ((status ≡ some rejected_liquidity) ⊎ (status ≡ some unavailable_market_state))
  by_failure : (m ≡ entry_failed) ↔ IsFailedOrder status

miss_of_order-IsOrderReason :
    (status : Option ExecutionStatus) → IsOrderReason status (miss_of_order status)
unfolding miss_of_order
miss_of_order-IsOrderReason none = record {
  no_early = λ h. cc;
  no_reject = λ h. cc;
  no_unknown = λ h. cc;
  no_never = λ h. cc;
  by_filter = (λ h. refl, λ h. refl);
  by_liquidity = (λ h. cc, λ h. ground arith);
  by_failure = (λ h. cc, λ h. absurd (h.0 refl));
}
miss_of_order-IsOrderReason (some s) = record {
  no_early = λ h. ground arith;
  no_reject = λ h. ground arith;
  no_unknown = λ h. ground arith;
  no_never = λ h. ground arith;
  by_filter = (λ h. ground arith, λ h. cc);
  by_liquidity = (liquid s, λ h. ground arith);
  by_failure = (λ h. (λ e. cc, λ e. ground arith, λ e. ground arith), failing s);
}
  where
    liquid :
        (s : ExecutionStatus)
        → miss_of_order (some s) ≡ liquidity_too_low
        → (some s ≡ some rejected_liquidity) ⊎ (some s ≡ some unavailable_market_state)
    liquid rejected_liquidity h = inl refl
    liquid unavailable_market_state h = inr refl
    liquid _ h = cc

    failing : (s : ExecutionStatus) → IsFailedOrder (some s) → miss_of_order (some s) ≡ entry_failed
    failing rejected_liquidity h = absurd (h.1 refl)
    failing unavailable_market_state h = absurd (h.2 refl)
    failing _ h = refl

-- The verdict accepted, the candidate eligible or not.
miss_accepted :
    (v : SecurityVerdict) (hi : CandidateState) (status : Option ExecutionStatus) (o : TokenOutcome)
    → accepted (some v) ≡ true
    → IsReason none status (some v) hi o (miss_of_verdict (some v) hi status)
unfolding miss_of_verdict
miss_accepted v hi status o a =
    let q = miss_of_order-IsOrderReason status in
    record {
      entered_same = ground (arith, miss_of_order-entered status);
      early_iff = (λ h. ground (arith, q.no_early), λ h. cc (h.0));
      reject_iff = (λ h. ground (arith, q.no_reject), λ h. ground arith);
      unknown_iff = (λ h. ground (arith, q.no_unknown), λ h. ground arith);
      never_iff = (λ h. ground (arith, q.no_never), λ h. ground arith);
      filter_iff = (λ h. ground (arith, q.by_filter), λ h. ground (arith, q.by_filter));
      liquidity_iff = (λ h. ground (arith, q.by_liquidity), λ h. ground (arith, q.by_liquidity));
      failed_iff = (λ h. ground (arith, q.by_failure), λ h. ground (arith, q.by_failure.1 (h.3)));
    }

miss_open :
    (sec : Option SecurityVerdict) (hi : CandidateState) (status : Option ExecutionStatus)
    (o : TokenOutcome)
    → IsReason none status sec hi o (miss_of_verdict sec hi status)
unfolding miss_of_verdict
miss_open (some pass) hi status o = miss_accepted pass hi status o refl
miss_open (some warn) hi status o = miss_accepted warn hi status o refl
miss_open none hi status o = record {
  entered_same = refl;
  early_iff = (λ h. cc, λ h. cc (h.0));
  reject_iff = (λ h. cc, λ h. cc (h.1));
  unknown_iff = (λ h. (refl, refl, λ e. cc), λ h. refl);
  never_iff = (λ h. cc, λ h. cc (h.1));
  filter_iff = (λ h. cc, λ h. cc (h.1));
  liquidity_iff = (λ h. cc, λ h. cc (h.1));
  failed_iff = (λ h. cc, λ h. cc (h.1));
}
miss_open (some SecurityVerdict.unknown) hi status o = record {
  entered_same = refl;
  early_iff = (λ h. cc, λ h. cc (h.0));
  reject_iff = (λ h. cc, λ h. cc (h.1));
  unknown_iff = (λ h. (refl, refl, λ e. cc), λ h. refl);
  never_iff = (λ h. cc, λ h. cc (h.1));
  filter_iff = (λ h. cc, λ h. cc (h.1));
  liquidity_iff = (λ h. cc, λ h. cc (h.1));
  failed_iff = (λ h. cc, λ h. cc (h.1));
}
miss_open (some reject) hi status o = record {
  entered_same = refl;
  early_iff = (λ h. cc, λ h. cc (h.0));
  reject_iff = (λ h. (refl, refl), λ h. refl);
  unknown_iff = (λ h. cc, λ h. absurd (h.2 refl));
  never_iff = (λ h. cc, λ h. cc (h.1));
  filter_iff = (λ h. cc, λ h. cc (h.1));
  liquidity_iff = (λ h. cc, λ h. cc (h.1));
  failed_iff = (λ h. cc, λ h. cc (h.1));
}

classify_miss-IsReason :
    (p : Option SimulatedPosition) (status : Option ExecutionStatus) (sec : Option SecurityVerdict)
    (hi : CandidateState) (o : TokenOutcome)
    → IsReason p status sec hi o (classify_miss p status sec hi o)
unfolding classify_miss
classify_miss-IsReason none status sec hi o = miss_open sec hi status o
classify_miss-IsReason (some p) status sec hi o = classify_miss-held p status sec hi o

abbrev pub rose : ℤ → TokenOutcome → Bool
rose min_return o = leb_ℤ min_return (return_or o.max_return_bps)

module _ (positions : List SimulatedPosition) (orders : List SimulatedOrder)
    (security : List (Row SecurityVerdict)) (candidate : List (Row CandidateState)) where
  -- A row is about the outcome, and its reason is the one for the token's first position, last order to
  -- buy, latest verdict, and whether it was ever eligible.
  pub record IsRowOf (o : TokenOutcome) (m : MissedWinner) : Type 0 where
    pub same_token : (m.chain ≡ o.chain) × (m.token ≡ o.token)
    pub same_return : m.max_return_bps ≡ o.max_return_bps
    pub position : Option SimulatedPosition
    pub first_position : IsFirstPosition o.chain o.token positions position
    pub same_entry : m.entered ≡ is_entered position
    pub status : Option ExecutionStatus
    pub last_order : IsLastBuy o.chain o.token none orders status
    pub latest_verdict : IsLatestVerdict o.chain o.token security m.security
    pub ever_eligible : IsEverEligible o.chain o.token candidate m.highest_candidate
    pub for_reason : IsReason position status m.security m.highest_candidate o m.miss_reason

  -- Row by row.
  abbrev pub AreRowsOf : List TokenOutcome → List MissedWinner → Type 0
  AreRowsOf [] [] = Unit
  AreRowsOf [] (m ∷ ms) = ⊥
  AreRowsOf (o ∷ os) [] = ⊥
  AreRowsOf (o ∷ os) (m ∷ ms) = IsRowOf o m × AreRowsOf os ms

  missed_row-IsRowOf :
      (o : TokenOutcome) → IsRowOf o (missed_row positions orders security candidate o)
  unfolding missed_row
  missed_row-IsRowOf o = record {
    same_token = (refl, refl);
    same_return = refl;
    position = find_position o.chain o.token positions;
    first_position = find_position-IsFirstPosition o.chain o.token positions;
    same_entry = refl;
    status = last_buy o.chain o.token none orders;
    last_order = last_buy-IsLastBuy o.chain o.token none orders;
    latest_verdict = last_verdict-IsLatestVerdict o.chain o.token security;
    ever_eligible = highest_candidate_of-IsEverEligible o.chain o.token candidate;
    for_reason =
        classify_miss-IsReason (find_position o.chain o.token positions)
          (last_buy o.chain o.token none orders) (last_verdict o.chain o.token security)
          (highest_candidate_of o.chain o.token candidate) o;
  }

  rows_of_outcomes :
      (os : List TokenOutcome)
      → AreRowsOf os (map (missed_row positions orders security candidate) os)
  rows_of_outcomes [] = tt
  rows_of_outcomes (o ∷ os) = (missed_row-IsRowOf o, rows_of_outcomes os)

  -- There is one row for each outcome whose highest return, 0 where it is unknown, is at least the
  -- bound, in order. A row says that the token was entered exactly where the run has a position in it,
  -- and so does its reason, which is an exit too early exactly where the outcome reached ten times and
  -- the captured part of the first position in the token is below a quarter. Its verdict is that of the
  -- latest row of the token, and its state is eligible exactly where one of the token's rows is. Without a
  -- position the reason is a reject or unknown security by the verdict; with an accepted verdict, a
  -- candidate that was never eligible; with that too, by the token's last order to buy: no order, an order
  -- that lacked liquidity or a market, or another order, which counts as a failed entry.
  pub missed_winners-AreRowsOf :
      (outcomes : List TokenOutcome) (min_return : ℤ)
      → AreRowsOf
          (filter_by (rose min_return) outcomes)
          (missed_winners outcomes positions orders security candidate min_return)
  unfolding missed_winners
  missed_winners-AreRowsOf outcomes min_return =
      rows_of_outcomes (filter_by (rose min_return) outcomes)
