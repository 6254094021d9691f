-- ===== src/Candidate/Lookup.antt =====
-- `get_candidate_at_or_before` of apps/engine/src/candidate/engine.rs.
use mathlib.Core.List.{Memᴰ}
use memecoin_bot.Base.{
  Option, none, some, List, arith, All, All-map, IsGreatest, max_by_key-IsGreatest,
}
use memecoin_bot.Base.Int.{ℤ, ◌≤ℤ◌, ◌<ℤ◌, leb_ℤ}
use memecoin_bot.Candidate.Machine.{CandidateTransition, get_candidate_at_or_before}

-- `none` where every row is after `time`, and else a row at or before `time` that is at least as late
-- as every such row.
abbrev pub IsLatest : ℤ → List CandidateTransition → Option CandidateTransition → Type 0
IsLatest time rows none = All (λ t. time <ℤ t.as_of_time) rows
IsLatest time rows (some best) =
    Memᴰ best rows
    × (best.as_of_time ≤ℤ time)
    × All (λ t. t.as_of_time ≤ℤ time → t.as_of_time ≤ℤ best.as_of_time) rows

IsGreatest-IsLatest :
    (time : ℤ) (rows : List CandidateTransition) (r : Option CandidateTransition)
    → IsGreatest (λ t. leb_ℤ t.as_of_time time) (λ t. t.as_of_time) rows r
    → IsLatest time rows r
IsGreatest-IsLatest time rows none g = All-map (λ t later. ground arith) rows g.0
IsGreatest-IsLatest time rows (some best) (m, k, g) =
    (m, ground arith, All-map (λ t above e. ground arith) rows g)

-- The lookup never sees a row after `time`: it gives none exactly where all rows are later, and else
-- a row of the list that is at or before `time` and as late as any such row.
pub get_candidate_at_or_before-IsLatest :
    (rows : List CandidateTransition) (time : ℤ)
    → IsLatest time rows (get_candidate_at_or_before rows time)
unfolding get_candidate_at_or_before
get_candidate_at_or_before-IsLatest rows time =
    IsGreatest-IsLatest time rows _
      (max_by_key-IsGreatest (λ t. leb_ℤ t.as_of_time time) (λ t. t.as_of_time) rows)
