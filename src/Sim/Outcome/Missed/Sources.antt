-- ===== src/Sim/Outcome/Missed/Sources.antt =====
-- What `missed_winners` of apps/engine/src/sim/outcome.rs finds of a token: its position, its last order
-- to buy, its latest verdict and its highest state.
use mathlib.Core.List.{Memᴰ}
use mathlib.Core.Path.{subst}
use memecoin_bot.Base.{
  ℕ, ◌≤◌, ◌≡◌, refl, ◌↔◌, ◌⊎◌, inl, inr, String, Bool, true, false, ◌&&◌, Option, none, some, List,
  [], ◌∷◌, map, arith, All, any_of, if◌then◌else◌, eq_string, filter_by, max_by_key,
  max_by_key_greatest, max_by_key-IsGreatest, IsGreatest, Bool-cases, Option-cases,
}
use memecoin_bot.Base.Int.{ℤ, pos, ◌≤ℤ◌}
use memecoin_bot.Domain.{Chain, eq_chain}
use memecoin_bot.Security.Verdict.{SecurityVerdict}
use memecoin_bot.Candidate.Machine.{
  CandidateState, eligible, eq_state, discovered, security_pending, security_rejected,
  data_incomplete, watching, confirming, expired,
}
use memecoin_bot.Sim.Types.{ExecutionStatus, OrderSide, buy, sell}
use memecoin_bot.Sim.Position.Book.{SimulatedPosition}
use memecoin_bot.Sim.Harness.{Row, SimulatedOrder}
use memecoin_bot.Sim.Outcome.Missed.{
  find_position, last_buy, is_buy, last_verdict, highest_candidate_of, row_of, row_value, rank_cand,
  discovered_unless,
}

abbrev pub held_in : Chain → String → SimulatedPosition → Bool
held_in chain token p = eq_chain p.chain chain && eq_string p.token token

abbrev pub ordered_in : Chain → String → SimulatedOrder → Bool
ordered_in chain token x = eq_chain x.chain chain && eq_string x.token token

-- The first position in the token.
abbrev pub IsFirstPosition :
    Chain → String → List SimulatedPosition → Option SimulatedPosition → Type 0
IsFirstPosition chain token ps none = All (λ p. held_in chain token p ≡ false) ps
IsFirstPosition chain token [] (some q) = ⊥
IsFirstPosition chain token (p ∷ ps) (some q) =
    ((held_in chain token p ≡ true) × (q ≡ p))
    ⊎ ((held_in chain token p ≡ false) × IsFirstPosition chain token ps (some q))

-- An order that is not one to buy the token.
abbrev pub IsOther : Chain → String → SimulatedOrder → Type 0
IsOther chain token x = (ordered_in chain token x ≡ false) ⊎ (x.side ≡ sell)

-- The status of the last order to buy the token, or `found` where there is none.
abbrev pub IsLastBuy :
    Chain → String → Option ExecutionStatus → List SimulatedOrder → Option ExecutionStatus → Type 0
IsLastBuy chain token found [] status = status ≡ found
IsLastBuy chain token found (x ∷ xs) status =
    ((ordered_in chain token x ≡ true)
      × (x.side ≡ buy)
      × IsLastBuy chain token (some x.status) xs status)
    ⊎ (IsOther chain token x × IsLastBuy chain token found xs status)

-- The verdict of the latest row of the token.
pub record IsLatestVerdict (chain : Chain) (token : String) (rows : List (Row SecurityVerdict))
    (verdict : Option SecurityVerdict) : Type 0 where
  pub row : Option (Row SecurityVerdict)
  pub latest : IsGreatest (row_of chain token) (λ r. r.at) rows row
  pub its_value : verdict ≡ row_value row

-- The state is eligible exactly where a row of the token says so.
abbrev pub IsEverEligible : Chain → String → List (Row CandidateState) → CandidateState → Type 0
IsEverEligible chain token rows hi =
    (hi ≡ eligible) ↔ (any_of (λ r. row_of chain token r && eq_state r.value eligible) rows ≡ true)

module _ (chain : Chain) (token : String) where
  IsFirstPosition-later :
      (p : SimulatedPosition) (ps : List SimulatedPosition) (q : Option SimulatedPosition)
      → held_in chain token p ≡ false
      → IsFirstPosition chain token ps q
      → IsFirstPosition chain token (p ∷ ps) q
  IsFirstPosition-later p ps none e h = (e, h)
  IsFirstPosition-later p ps (some q) e h = inr (e, h)

  pub find_position-IsFirstPosition :
      (ps : List SimulatedPosition) → IsFirstPosition chain token ps (find_position chain token ps)
  find_position-IsFirstPosition [] = tt
  find_position-IsFirstPosition (p ∷ ps) = elim (Bool-cases (held_in chain token p)) [
    | inl e ↦ rw e (inl (e, refl))
    | inr e ↦
        let later =
          IsFirstPosition-later p ps (find_position chain token ps) e
            (find_position-IsFirstPosition ps) in
        rw e later
  ]

  IsLastBuy-later :
      (found : Option ExecutionStatus) (x : SimulatedOrder) (xs : List SimulatedOrder) (ours : Bool)
      (side : OrderSide) (last : Option ExecutionStatus → Option ExecutionStatus)
      → ((f : Option ExecutionStatus) → IsLastBuy chain token f xs (last f))
      → ordered_in chain token x ≡ ours
      → x.side ≡ side
      → IsLastBuy chain token found
          (x ∷ xs)
          (last (if ours && is_buy side then some x.status else found))
  IsLastBuy-later found x xs true buy last h e f = inl (e, f, h (some x.status))
  IsLastBuy-later found x xs true sell last h e f = inr (inr f, h found)
  IsLastBuy-later found x xs false side last h e f = inr (inl e, h found)

  pub last_buy-IsLastBuy :
      (found : Option ExecutionStatus) (xs : List SimulatedOrder)
      → IsLastBuy chain token found xs (last_buy chain token found xs)
  last_buy-IsLastBuy found [] = refl
  last_buy-IsLastBuy found (x ∷ xs) =
      IsLastBuy-later found x xs (ordered_in chain token x) x.side (λ f. last_buy chain token f xs)
        (λ f. last_buy-IsLastBuy f xs) refl refl

  pub last_verdict-IsLatestVerdict :
      (rows : List (Row SecurityVerdict))
      → IsLatestVerdict chain token rows (last_verdict chain token rows)
  last_verdict-IsLatestVerdict rows = record {
    row = max_by_key (λ r. r.at) (filter_by (row_of chain token) rows);
    latest = max_by_key-IsGreatest (row_of chain token) (λ r. r.at) rows;
    its_value = refl;
  }

rank_cand-eligible : (c : CandidateState) → 6 ≤ rank_cand c → c ≡ eligible
unfolding rank_cand
rank_cand-eligible c h = ground arith

any_of-mem :
    (vs : List CandidateState) → Memᴰ eligible vs → any_of (λ c. eq_state c eligible) vs ≡ true
any_of-mem [] m = elim m [ ]
any_of-mem (c ∷ vs) (Memᴰ.head e) = rw (← e) refl
any_of-mem (c ∷ vs) (Memᴰ.tail m) = ground (arith, any_of-mem vs m)

any_of-rank :
    (k : ℕ) (vs : List CandidateState)
    → any_of (λ c. eq_state c eligible) vs ≡ true
    → All (λ c. pos (rank_cand c) ≤ℤ pos k) vs
    → 6 ≤ k
unfolding rank_cand
any_of-rank k [] h a = cc
any_of-rank k (eligible ∷ vs) h a = omega (arith, a.0)
any_of-rank k (discovered ∷ vs) h a = any_of-rank k vs h a.1
any_of-rank k (security_pending ∷ vs) h a = any_of-rank k vs h a.1
any_of-rank k (security_rejected ∷ vs) h a = any_of-rank k vs h a.1
any_of-rank k (data_incomplete ∷ vs) h a = any_of-rank k vs h a.1
any_of-rank k (watching ∷ vs) h a = any_of-rank k vs h a.1
any_of-rank k (confirming ∷ vs) h a = any_of-rank k vs h a.1
any_of-rank k (expired ∷ vs) h a = any_of-rank k vs h a.1

any_of-values :
    (keep : Row CandidateState → Bool) (rows : List (Row CandidateState))
    → any_of (λ c. eq_state c eligible) (map (λ r. r.value) (filter_by keep rows))
      ≡ any_of (λ r. keep r && eq_state r.value eligible) rows
any_of-values keep [] = refl
any_of-values keep (r ∷ rows) = elim (Bool-cases (keep r)) [
  | inl e ↦ rw (e, any_of-values keep rows) refl
  | inr e ↦ rw (e, any_of-values keep rows) refl
]

max_by_key-empty :
    (key : CandidateState → ℤ) (vs : List CandidateState) → max_by_key key vs ≡ none → vs ≡ []
unfolding max_by_key
max_by_key-empty key [] e = refl
max_by_key-empty key (c ∷ vs) e = cc

highest_of_values :
    (vs : List CandidateState)
    → (discovered_unless (max_by_key (λ c. pos (rank_cand c)) vs) ≡ eligible)
      ↔ (any_of (λ c. eq_state c eligible) vs ≡ true)
unfolding max_by_key
highest_of_values vs = elim (Option-cases (max_by_key (λ c. pos (rank_cand c)) vs)) [
  | inl e ↦ rw (max_by_key-empty (λ c. pos (rank_cand c)) vs e) (λ h. cc, λ h. cc)
  | inr (b, e) ↦
      let (m, up) = max_by_key_greatest (λ c. pos (rank_cand c)) vs b e in
      rw e (
        λ h. any_of-mem vs (subst (λ c. Memᴰ c vs) h m),
        λ h. rank_cand-eligible b (any_of-rank (rank_cand b) vs h up),
      )
]

pub highest_candidate_of-IsEverEligible :
    (chain : Chain) (token : String) (rows : List (Row CandidateState))
    → IsEverEligible chain token rows (highest_candidate_of chain token rows)
highest_candidate_of-IsEverEligible chain token rows =
    let vs = map (λ r. r.value) (filter_by (row_of chain token) rows) in
    let (there, back) = highest_of_values vs in
    rw (← any_of-values (row_of chain token) rows) (there, back)
