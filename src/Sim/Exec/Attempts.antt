-- ===== src/Sim/Exec/Attempts.antt =====
-- The attempts of `simulate_side` of apps/engine/src/sim/exec.rs.
use mathlib.Core.Bool.{false≢true}
use memecoin_bot.Base.{
  ℕ, zero, suc, ◌+◌, ◌≤◌, ◌<◌, ◌≡◌, true, false, ◌&&◌, Option, none, some, arith, refl, inl, inr,
  sym, ◌∙◌, Bool-cases, ltb→le,
}
use memecoin_bot.Base.Int.{◌≤ℤ◌, ltb_ℤ}
use memecoin_bot.Domain.{is_research_complete}
use memecoin_bot.State.Snapshot.{TokenStateSnapshot}
use memecoin_bot.Sim.Types.{is_fill, research_valid}
use memecoin_bot.Sim.Models.{SimConfig, Digest, max_attempts, fails}
use memecoin_bot.Sim.Venue.{executable_fill}
use memecoin_bot.Sim.Result.{ExecutionResult, empty}
use memecoin_bot.Sim.Exec.{
  SnapshotBook, at, SideOrder, attempt_time, venue_order, record_fill, Round, halt, retry, done,
  follow, on_snapshot, round_at, round, attempts, no_attempt, simulate_side,
}
use memecoin_bot.Sim.Exec.Book.{AgreeOnPast, at-past}

no_attempt-no_fill : (cfg : SimConfig) (o : SideOrder) → is_fill (no_attempt cfg o).status ≡ false
unfolding no_attempt empty
no_attempt-no_fill cfg o = refl

module _ (digest : Digest) (cfg : SimConfig) (o : SideOrder) where
  -- `r` is the fill of the attempt after `n` others: at its time, which may be seen, on the snapshot
  -- that the book shows there, and not on a seeded failure.
  pub record IsFillOf (book : SnapshotBook) (n : ℕ) (r : ExecutionResult) : Type 0 where
    pub snap : TokenStateSnapshot
    pub shown : at book o.chain o.token (attempt_time cfg o n) ≡ some snap
    pub in_time : attempt_time cfg o n ≤ℤ book.as_of
    pub no_failure : fails digest cfg.failure o.is_entry o.token (attempt_time cfg o n) n ≡ false
    pub number : r.attempt_number ≡ n + 1
    pub time : r.actual_simulated_fill_time ≡ some (attempt_time cfg o n)
    pub snapshot : r.snapshot_id ≡ snap.id
    pub status : r.status ≡ (executable_fill snap (venue_order cfg o.side o.amount)).status
    pub tokens :
        r.filled_token ≡ (executable_fill snap (venue_order cfg o.side o.amount)).token_amount
    pub quote :
        r.filled_quote ≡ (executable_fill snap (venue_order cfg o.side o.amount)).quote_amount
    pub research :
        r.research_ok ≡ (is_research_complete snap.data_quality && research_valid r.quality)

  module _ (book : SnapshotBook) where
    abbrev IsRoundOf : ℕ → Round → Type 0
    IsRoundOf n (halt r) = is_fill r.status ≡ false
    IsRoundOf n (retry r) = is_fill r.status ≡ false
    IsRoundOf n (done r) = (is_fill r.status ≡ true) × IsFillOf book n r

    on_snapshot-IsRoundOf :
        (n : ℕ) (last : ExecutionResult) (s : Option TokenStateSnapshot)
        → at book o.chain o.token (attempt_time cfg o n) ≡ s
        → attempt_time cfg o n ≤ℤ book.as_of
        → fails digest cfg.failure o.is_entry o.token (attempt_time cfg o n) n ≡ false
        → last.attempt_number ≡ n + 1
        → IsRoundOf n (on_snapshot cfg o (attempt_time cfg o n) last s)
    unfolding record_fill
    on_snapshot-IsRoundOf n last none e seen ok num = refl
    on_snapshot-IsRoundOf n last (some snap) e seen ok num =
        elim (Bool-cases
          (is_fill (executable_fill snap (venue_order cfg o.side o.amount)).status)) [
            | inl f ↦ rw f (
              f,
              record {
                snap = snap;
                shown = e;
                in_time = seen;
                no_failure = ok;
                number = num;
                time = refl;
                snapshot = refl;
                status = refl;
                tokens = refl;
                quote = refl;
                research = ground (arith, f);
              },
            )
            | inr f ↦ rw f f
          ]

    round-IsRoundOf :
        (n : ℕ) (last : ExecutionResult) → IsRoundOf n (round digest book cfg o n last)
    unfolding round round_at
    round-IsRoundOf n last = elim (Bool-cases (ltb_ℤ book.as_of (attempt_time cfg o n))) [
      | inl late ↦ rw late refl
      | inr seen ↦
          elim (Bool-cases (fails digest cfg.failure o.is_entry o.token (attempt_time cfg o n) n)) [
            | inl hit ↦ rw (seen, hit) refl
            | inr ok ↦ rw (seen, ok) (on_snapshot-IsRoundOf n _ _ refl (ltb→le _ _ seen) ok refl)
          ]
    ]

    -- A fill is that of one of the attempts, and a result without a fill is not valid for research.
    abbrev pub IsOutcome : ℕ → ExecutionResult → Type 0
    IsOutcome bound r =
        (is_fill r.status ≡ true → (n : ℕ) × (n < bound) × IsFillOf book n r)
        × (is_fill r.status ≡ false → r.research_ok ≡ false)

    IsOutcome-no_fill :
        (bound : ℕ) (r : ExecutionResult)
        → is_fill r.status ≡ false
        → r.research_ok ≡ false
        → IsOutcome bound r
    IsOutcome-no_fill bound r f void = (λ t. absurd (false≢true (sym f ∙ t)), λ _. void)

    follow-IsOutcome :
        (bound made : ℕ) (rest : ExecutionResult → ExecutionResult) (r : Round)
        → made < bound
        → ((last : ExecutionResult) → is_fill last.status ≡ false → IsOutcome bound (rest last))
        → IsRoundOf made r
        → IsOutcome bound (follow rest r)
    follow-IsOutcome bound made rest (halt r) le ih e = IsOutcome-no_fill bound _ e refl
    follow-IsOutcome bound made rest (retry r) le ih e = ih r e
    follow-IsOutcome bound made rest (done r) le ih (e, fill) =
        (λ _. (made, le, fill), λ f. absurd (false≢true (sym f ∙ e)))

    attempts-IsOutcome :
        (left made bound : ℕ) (last : ExecutionResult)
        → made + left ≤ bound
        → is_fill last.status ≡ false
        → IsOutcome bound (attempts digest book cfg o left made last)
    unfolding attempts
    attempts-IsOutcome zero made bound last le f = IsOutcome-no_fill bound _ f refl
    attempts-IsOutcome (suc left) made bound last le f =
        follow-IsOutcome bound made _ _ (omega arith)
          (λ r e. attempts-IsOutcome left (made + 1) bound r (omega arith) e)
          (round-IsRoundOf made last)

    -- A fill is the venue's fill of one of the allowed attempts, on the latest snapshot of the token that
    -- may be seen at the time of that attempt, which is not after the end of the book, and not on a
    -- seeded failure; it counts for research exactly where the snapshot is complete and the fill's
    -- quality allows it. A result without a fill never counts for research.
    pub simulate_side-IsOutcome :
        IsOutcome (max_attempts cfg.retry o.is_entry o.emergency) (simulate_side digest book cfg o)
    unfolding simulate_side
    simulate_side-IsOutcome =
        attempts-IsOutcome (max_attempts cfg.retry o.is_entry o.emergency) 0 _ (no_attempt cfg o)
          (omega arith) (no_attempt-no_fill cfg o)

  module _ (a b : SnapshotBook) (past : AgreeOnPast a b) where
    round-past :
        (n : ℕ) (last : ExecutionResult) → round digest a cfg o n last ≡ round digest b cfg o n last
    unfolding round round_at
    round-past n last = rw (at-past a b past o.chain o.token (attempt_time cfg o n), past.0) refl

    follow-past :
        (f g : ExecutionResult → ExecutionResult) (r : Round)
        → ((last : ExecutionResult) → f last ≡ g last)
        → follow f r ≡ follow g r
    follow-past f g (halt r) h = refl
    follow-past f g (retry r) h = h r
    follow-past f g (done r) h = refl

    attempts-past :
        (left made : ℕ) (last : ExecutionResult)
        → attempts digest a cfg o left made last ≡ attempts digest b cfg o left made last
    unfolding attempts
    attempts-past zero made last = refl
    attempts-past (suc left) made last =
        rw (round-past made last)
          (follow-past _ _ (round digest b cfg o made last) (attempts-past left (made + 1)))

    -- An execution does not look ahead: on two books that end at the same time and hold the same
    -- snapshots up to then, whatever they hold after it, the result is the same.
    pub simulate_side-past : simulate_side digest a cfg o ≡ simulate_side digest b cfg o
    unfolding simulate_side
    simulate_side-past =
        attempts-past (max_attempts cfg.retry o.is_entry o.emergency) 0 (no_attempt cfg o)
