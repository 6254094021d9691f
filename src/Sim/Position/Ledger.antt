-- ===== src/Sim/Position/Ledger.antt =====
-- The books of a simulated position over any history: apps/engine/src/sim/position.rs.
use memecoin_bot.Base.{
  ℕ, ◌+◌, ◌≤◌, ◌≡◌, String, Bool, Option, List, [], ◌∷◌, ◌++◌, arith, if◌then◌else◌, Bool-cases,
  inl, inr, ◌==◌,
}
use memecoin_bot.Base.Int.{ℤ}
use memecoin_bot.Domain.{Chain, Launchpad}
use memecoin_bot.State.Snapshot.{TokenStateSnapshot}
use memecoin_bot.Sim.Types.{
  is_fill, ExitReason, closed, is_open, PositionEventKind, Reason, ExecutionStatus,
}
use memecoin_bot.Sim.Models.{FeeModel}
use memecoin_bot.Sim.Result.{ExecutionResult}
use memecoin_bot.Sim.Position.Signed.{Signed}
use memecoin_bot.Sim.Position.Book.{
  PositionEvent, SimulatedPosition, log_event, note, open_from, finalize_capture, sold_of, settle,
  book_sale, apply_exit,
}
use memecoin_bot.Sim.Position.Marks.{mark_at, mark, end_session_open, force_end}

-- The tokens that the event log says were sold.
abbrev sold_in : Signed → ℕ
sold_in d = if d.negative then d.magnitude else 0

abbrev pub sold_total : List PositionEvent → ℕ
sold_total [] = 0
sold_total (e ∷ es) = sold_in e.token_delta + sold_total es

sold_total-append :
    (es fs : List PositionEvent) → sold_total (es ++ fs) ≡ sold_total es + sold_total fs
sold_total-append [] fs = omega arith
sold_total-append (e ∷ es) fs = omega (arith, sold_total-append es fs)

-- The tokens bought are those still held and those sold, a closed position holds none, and the best
-- and the worst mark are recorded twice alike.
pub record IsBooked (p : SimulatedPosition) : Type 0 where
  pub conserved : p.remaining_token_amount + sold_total p.events ≡ p.initial_token_amount
  pub flat_closed : p.status ≡ closed → p.remaining_token_amount ≡ 0
  pub best : p.mfe_quote ≡ p.highest_mark_quote
  pub worst : p.mae_quote ≡ p.lowest_mark_quote

pub open_from-IsBooked :
    (id : ℤ) (c : Chain) (token : String) (l : Launchpad) (policy : String) (fill : ExecutionResult)
    (f s : Option ℤ)
    → IsBooked (open_from id c token l policy fill f s)
unfolding open_from
open_from-IsBooked id c token l policy fill f s = ground arith

logged-IsBooked :
    (p : SimulatedPosition) (e : PositionEvent)
    → p.remaining_token_amount + sold_total p.events + sold_in e.token_delta
      ≡ p.initial_token_amount
    → (p.status ≡ closed → p.remaining_token_amount ≡ 0)
    → p.mfe_quote ≡ p.highest_mark_quote
    → p.mae_quote ≡ p.lowest_mark_quote
    → IsBooked (log_event p e)
logged-IsBooked p e kept flat best worst = record {
  conserved = omega (arith, sold_total-append p.events (e ∷ []));
  flat_closed = flat;
  best = best;
  worst = worst;
}

finalize_capture-IsBooked : (p : SimulatedPosition) → IsBooked p → IsBooked (finalize_capture p)
unfolding finalize_capture
finalize_capture-IsBooked p v = record {
  conserved = v.conserved;
  flat_closed = v.flat_closed;
  best = v.best;
  worst = v.worst;
}

module _ (p : SimulatedPosition) (v : IsBooked p) where
  note-IsBooked :
      (kind : PositionEventKind) (at : ℤ) (reason : Reason) (status : Option ExecutionStatus)
      → IsBooked (note p kind at reason status)
  note-IsBooked kind at reason status =
      logged-IsBooked p _ (omega (arith, v)) v.flat_closed v.best v.worst

  book_sale-IsBooked :
      (fill : ExecutionResult) (reason : ExitReason) (sold : ℕ)
      → sold ≤ p.remaining_token_amount
      → IsBooked (book_sale p fill reason sold)
  unfolding book_sale
  book_sale-IsBooked fill reason sold le =
      logged-IsBooked (settle p fill sold) _ (unfold settle finalize_capture in ground (arith, v))
        (unfold settle finalize_capture in λ e. ground (arith, v))
        (unfold settle finalize_capture in ground (arith, v))
        (unfold settle finalize_capture in ground (arith, v))

  apply_exit-IsBooked :
      (fill : ExecutionResult) (reason : ExitReason) (full : Bool)
      → IsBooked (apply_exit p fill reason full)
  unfolding apply_exit
  apply_exit-IsBooked fill reason full = elim (Bool-cases (is_fill fill.status)) [
    | inl e ↦ rw e (elim (Bool-cases (sold_of p fill == 0)) [
      | inl z ↦ rw z (note-IsBooked _ _ _ _)
      | inr z ↦ rw z (book_sale-IsBooked fill reason (sold_of p fill) (omega arith))
    ])
    | inr e ↦ rw e (note-IsBooked _ _ _ _)
  ]

  mark-IsBooked : (snap : TokenStateSnapshot) (fees : FeeModel) → IsBooked (mark p snap fees)
  unfolding mark mark_at
  mark-IsBooked snap fees = ground (arith, v)

  end_session_open-IsBooked : (at : ℤ) → IsBooked (end_session_open p at)
  unfolding end_session_open
  end_session_open-IsBooked at = elim (Bool-cases (is_open p.status)) [
    | inl e ↦ rw e (logged-IsBooked _ _ (omega (arith, v)) (λ h. cc) v.best v.worst)
    | inr e ↦ rw e v
  ]

  force_end-IsBooked : (at : ℤ) (realizable : Bool) → IsBooked (force_end p at realizable)
  unfolding force_end
  force_end-IsBooked at realizable = elim (Bool-cases (is_open p.status)) [
    | inl e ↦ rw e (
        finalize_capture-IsBooked _
          (logged-IsBooked _ _ (omega (arith, v)) (λ h. ground arith) v.best v.worst))
    | inr e ↦ rw e v
  ]

-- What happens to a position after it is opened.
pub data PositionStep : Type 0 where
  exits : ExecutionResult → ExitReason → Bool → PositionStep
  marks : TokenStateSnapshot → FeeModel → PositionStep
  ends_session : ℤ → PositionStep
  forces_end : ℤ → Bool → PositionStep

abbrev pub after_step : SimulatedPosition → PositionStep → SimulatedPosition
after_step p (exits fill reason full) = apply_exit p fill reason full
after_step p (marks snap fees) = mark p snap fees
after_step p (ends_session at) = end_session_open p at
after_step p (forces_end at realizable) = force_end p at realizable

abbrev pub after_steps : SimulatedPosition → List PositionStep → SimulatedPosition
after_steps p [] = p
after_steps p (s ∷ ss) = after_steps (after_step p s) ss

pub after_step-IsBooked :
    (p : SimulatedPosition) (s : PositionStep) → IsBooked p → IsBooked (after_step p s)
after_step-IsBooked p (exits fill reason full) v = apply_exit-IsBooked p v fill reason full
after_step-IsBooked p (marks snap fees) v = mark-IsBooked p v snap fees
after_step-IsBooked p (ends_session at) v = end_session_open-IsBooked p v at
after_step-IsBooked p (forces_end at realizable) v = force_end-IsBooked p v at realizable

after_steps-IsBooked :
    (p : SimulatedPosition) (ss : List PositionStep) → IsBooked p → IsBooked (after_steps p ss)
after_steps-IsBooked p [] v = v
after_steps-IsBooked p (s ∷ ss) v =
    after_steps-IsBooked (after_step p s) ss (after_step-IsBooked p s v)

-- After any sequence of exits, marks and ends, in any order and with any fills, the tokens bought are
-- those still held and those that the event log says were sold, a closed position holds none, and the
-- two records of the best and of the worst mark agree.
pub open_from-IsBooked_after :
    (id : ℤ) (c : Chain) (token : String) (l : Launchpad) (policy : String) (fill : ExecutionResult)
    (f s : Option ℤ) (ss : List PositionStep)
    → IsBooked (after_steps (open_from id c token l policy fill f s) ss)
open_from-IsBooked_after id c token l policy fill f s ss =
    after_steps-IsBooked _ ss (open_from-IsBooked id c token l policy fill f s)
