-- ===== src/Sim/Policy/Amounts.antt =====
-- How much an exit policy may ask to sell: apps/engine/src/sim/policy.rs.
use native.Mathlib.Nat.{mul-le-mul, le_refl}
use mathlib.Core.Bool.{false≢true}
use memecoin_bot.Base.{
  All-get_elem?, ℕ, ◌≤◌, ◌≡◌, refl, true, false, Option, none, some, arith, All, Bool, sat_mul, ◌*◌,
  ◌/◌, ◌==◌, if◌then◌else◌,
}
use memecoin_bot.Base.Int.{ℤ, leb_ℤ}
use memecoin_bot.State.Snapshot.{TokenStateSnapshot}
use memecoin_bot.Security.Verdict.{SecurityVerdict, reject}
use memecoin_bot.Sim.Types.{
  ExitReason, trail, momentum_decay, creator_sell, time_stop, take_profit, security_emergency,
  is_open,
}
use memecoin_bot.Candidate.Machine.{is_reject}
use memecoin_bot.Sim.Venue.{mark_exit_quote}
use memecoin_bot.Sim.Models.{FeeModel}
use memecoin_bot.Sim.Position.Returns.{return_bps}
use memecoin_bot.Sim.Position.Book.{SimulatedPosition}
use memecoin_bot.Sim.Policy.{
  PartialRunner, ExitPolicy, time_exit, fixed_tp_sl, trailing_exit, partial_runner, flow_decay_exit,
  creator_sell_exit, dynamic_runner, Exit, FlowSignal, exit_all, scale_out, or_else, tp_sl_on,
  trail_on, run_trail, run_stage, run_on, on_time, on_flow, on_creator, on_mark, evaluate,
}

-- The stages of a runner sell at most what is held.
abbrev pub IsSafe : ExitPolicy → Type 0
IsSafe (partial_runner u) = All (λ (s : ℤ × ℕ). s.1 ≤ 10_000) u.stages
IsSafe (dynamic_runner u cap) = All (λ (s : ℤ × ℕ). s.1 ≤ 10_000) u.stages
IsSafe _ = Unit

-- An exit asks for no more than is held, and for all of it where it is meant to close.
abbrev pub FitsHeld : SimulatedPosition → Option Exit → Type 0
FitsHeld p none = Unit
FitsHeld p (some e) =
    (e.amount ≤ p.remaining_token_amount) × (e.full ≡ true → e.amount ≡ p.remaining_token_amount)

-- A stage sells a share of what is held.
share_le : (held bps : ℕ) → bps ≤ 10_000 → sat_mul held bps / 10_000 ≤ held
share_le held bps h =
    let prod : held * bps ≤ held * 10_000 = mul-le-mul (le_refl held) h in omega arith

module _ (p : SimulatedPosition) where
  FitsHeld-all : (why : ExitReason) → FitsHeld p (some (exit_all p why))
  FitsHeld-all why = (omega arith, λ _. refl)

  FitsHeld-if :
      (b : Bool) (x y : Option Exit) → FitsHeld p x → FitsHeld p y → FitsHeld p (if b then x else y)
  FitsHeld-if true x y hx hy = hx
  FitsHeld-if false x y hx hy = hy

  FitsHeld-when :
      (b : Bool) (why : ExitReason) → FitsHeld p (if b then some (exit_all p why) else none)
  FitsHeld-when b why = FitsHeld-if b _ none (FitsHeld-all why) tt

  FitsHeld-or_else : (x y : Option Exit) → FitsHeld p x → FitsHeld p y → FitsHeld p (or_else x y)
  FitsHeld-or_else none y hx hy = hy
  FitsHeld-or_else (some e) y hx hy = hx

  scale_out-FitsHeld : (bps : ℕ) → bps ≤ 10_000 → FitsHeld p (scale_out p bps)
  scale_out-FitsHeld bps h =
      FitsHeld-if (sat_mul p.remaining_token_amount bps / 10_000 == 0) none _ tt
        (share_le p.remaining_token_amount bps h, λ e. absurd (false≢true e))

  run_trail-FitsHeld :
      (u : PartialRunner) (n : ℕ) (peak : Option ℤ) (r : ℤ) → FitsHeld p (run_trail u p n peak r)
  unfolding run_trail
  run_trail-FitsHeld u n none r = tt
  run_trail-FitsHeld u n (some peak) r = FitsHeld-when _ trail

  run_stage-FitsHeld :
      (u : PartialRunner) (n : ℕ) (stage : Option (ℤ × ℕ)) (r : ℤ)
      → ((s : ℤ × ℕ) → stage ≡ some s → s.1 ≤ 10_000)
      → FitsHeld p (run_stage u p n stage r)
  unfolding run_stage
  run_stage-FitsHeld u n none r h = run_trail-FitsHeld u n _ r
  run_stage-FitsHeld u n (some (need, bps)) r h =
      FitsHeld-if (leb_ℤ need r) _ _ (scale_out-FitsHeld bps (h (need, bps) refl))
        (run_trail-FitsHeld u n _ r)

  run_on-FitsHeld :
      (u : PartialRunner) (r : Option ℤ)
      → All (λ (s : ℤ × ℕ). s.1 ≤ 10_000) u.stages
      → FitsHeld p (run_on u p r)
  run_on-FitsHeld u none h = tt
  run_on-FitsHeld u (some r) h =
      run_stage-FitsHeld u _ _ r
        (λ s e. All-get_elem? (λ (s : ℤ × ℕ). s.1 ≤ 10_000) u.stages _ s h e)

  on_flow-FitsHeld : (flow : Option FlowSignal) → FitsHeld p (on_flow p flow)
  on_flow-FitsHeld none = tt
  on_flow-FitsHeld (some f) = FitsHeld-when _ momentum_decay

  on_creator-FitsHeld : (flow : Option FlowSignal) → FitsHeld p (on_creator p flow)
  unfolding on_creator
  on_creator-FitsHeld flow = FitsHeld-when _ creator_sell

  on_time-FitsHeld : (hold_ms : ℤ) (snap : TokenStateSnapshot) → FitsHeld p (on_time hold_ms p snap)
  unfolding on_time
  on_time-FitsHeld hold_ms snap = FitsHeld-when _ time_stop

  tp_sl_on-FitsHeld : (tp sl : ℤ) (r : Option ℤ) → FitsHeld p (tp_sl_on tp sl p r)
  tp_sl_on-FitsHeld tp sl none = tt
  tp_sl_on-FitsHeld tp sl (some r) =
      FitsHeld-if (leb_ℤ tp r) _ _ (FitsHeld-all take_profit) (FitsHeld-when _ ExitReason.stop)

  trail_on-FitsHeld : (bps : ℕ) (peak r : Option ℤ) → FitsHeld p (trail_on bps p peak r)
  trail_on-FitsHeld bps (some peak) (some r) = FitsHeld-when _ trail
  trail_on-FitsHeld bps (some peak) none = tt
  trail_on-FitsHeld bps none r = tt

  module _ (snap : TokenStateSnapshot) (flow : Option FlowSignal) where
    on_mark-FitsHeld :
        (policy : ExitPolicy) (mark : Option ℕ)
        → IsSafe policy
        → FitsHeld p (on_mark policy p snap mark flow)
    unfolding on_mark
    on_mark-FitsHeld (time_exit hold_ms) mark h = on_time-FitsHeld hold_ms snap
    on_mark-FitsHeld (fixed_tp_sl tp sl) mark h = tp_sl_on-FitsHeld tp sl _
    on_mark-FitsHeld (trailing_exit bps) none h = tt
    on_mark-FitsHeld (trailing_exit bps) (some mark) h =
        trail_on-FitsHeld bps (return_bps p.quote_cost p.highest_mark_quote)
          (return_bps p.quote_cost mark)
    on_mark-FitsHeld (partial_runner u) mark h = run_on-FitsHeld u _ h
    on_mark-FitsHeld flow_decay_exit mark h = on_flow-FitsHeld flow
    on_mark-FitsHeld creator_sell_exit mark h = on_creator-FitsHeld flow
    on_mark-FitsHeld (dynamic_runner u cap) mark h = FitsHeld-or_else _ _ (on_flow-FitsHeld flow) (
        FitsHeld-or_else _ _ (on_creator-FitsHeld flow)
          (FitsHeld-or_else _ _ (on_time-FitsHeld cap snap) (run_on-FitsHeld u _ h)))

    -- Whatever the policy, where the stages of a runner sell at most 10,000 basis points: an exit asks
    -- for no more tokens than the position holds, and one meant to close it asks for all of them; a
    -- position that is not open is asked for nothing; and a rejected token is sold whole as a security
    -- emergency, before the policy is asked.
    pub evaluate-FitsHeld :
        (policy : ExitPolicy) (fees : FeeModel) (security : Option SecurityVerdict)
        → IsSafe policy
        → FitsHeld p (evaluate policy fees p snap security flow)
          × (is_open p.status ≡ false → evaluate policy fees p snap security flow ≡ none)
          × (is_open p.status ≡ true
              → security ≡ some reject
              → evaluate policy fees p snap security flow ≡ some (exit_all p security_emergency))
    unfolding evaluate
    evaluate-FitsHeld policy fees security h =
        let mark : Option ℕ = mark_exit_quote snap p.remaining_token_amount fees in
        let emergency_exit : Option Exit = some (exit_all p security_emergency) in
        let marked : Option Exit = on_mark policy p snap mark flow in
        (
          FitsHeld-if (is_open p.status) (if is_reject security then emergency_exit else marked)
              none
              (FitsHeld-if (is_reject security) emergency_exit marked
                (FitsHeld-all security_emergency) (on_mark-FitsHeld policy mark h))
              tt,
          λ e. rw e refl,
          λ e s. rw (e, s) refl,
        )
