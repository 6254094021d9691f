-- ===== src/Sim/Policy.antt =====
-- The exit policies of apps/engine/src/sim/policy.rs, and `PositionManager` of position.rs.
-- An exit policy is a constructor with the fields of its struct.
pub mod Amounts
pub mod Gate
pub mod Entry
use memecoin_bot.Base.{
  ℕ, ◌/◌, String, Bool, true, false, ◌&&◌, ◌||◌, Option, none, some, List, [], ◌∷◌, ltb, leb, ◌==◌,
  suc, if◌then◌else◌, sat_mul, length, get_elem?,
}
use memecoin_bot.Base.Int.{ℤ, pos, neg, ◌+ℤ◌, ◌-ℤ◌, ltb_ℤ, leb_ℤ}
use memecoin_bot.Security.Verdict.{SecurityVerdict, reject}
use memecoin_bot.Candidate.Machine.{CandidateState, eligible, eq_state, is_reject}
use memecoin_bot.State.Snapshot.{TokenStateSnapshot}
use memecoin_bot.Sim.Types.{
  ExitReason, take_profit, trail, momentum_decay, creator_sell, time_stop, security_emergency,
  partial_scale, is_open, PositionEventKind, partial_exit,
}
use memecoin_bot.Sim.Models.{FeeModel, Digest, deterministic_hit}
use memecoin_bot.Sim.Venue.{mark_exit_quote}
use memecoin_bot.Sim.Position.Returns.{return_bps}
use memecoin_bot.Sim.Position.Book.{PositionEvent, SimulatedPosition}

pub record FlowSignal : Type 0 where
  pub unique_buyer_accel_15s : Option ℤ
  pub unique_seller_accel_15s : Option ℤ
  pub net_flow_negative : Bool
  pub creator_sell_count : ℕ

pub record PartialRunner : Type 0 where
  pub stages : List (ℤ × ℕ)
  pub trail_bps : ℕ

abbrev pub default_runner : PartialRunner
default_runner = record {
  stages = (pos 4_000, 2_000) ∷ (pos 8_000, 2_000) ∷ (pos 20_000, 2_000) ∷ [];
  trail_bps = 3_000;
}

pub data ExitPolicy : Type 0 where
  time_exit : ℤ → ExitPolicy
  fixed_tp_sl : ℤ → ℤ → ExitPolicy
  trailing_exit : ℕ → ExitPolicy
  partial_runner : PartialRunner → ExitPolicy
  flow_decay_exit creator_sell_exit : ExitPolicy
  dynamic_runner : PartialRunner → ℤ → ExitPolicy

-- Why to exit, how many tokens, and whether that is meant to close the position.
pub record Exit : Type 0 where
  pub why : ExitReason
  pub amount : ℕ
  pub full : Bool

abbrev pub exit_all : SimulatedPosition → ExitReason → Exit
exit_all p why = record { why = why; amount = p.remaining_token_amount; full = true }

unfoldable pub held_for : SimulatedPosition → TokenStateSnapshot → ℤ
held_for p snap = snap.snapshot_time -ℤ p.opened_at

unfoldable pub on_time : ℤ → SimulatedPosition → TokenStateSnapshot → Option Exit
on_time hold_ms p snap =
    if leb_ℤ hold_ms (held_for p snap) then some (exit_all p time_stop) else none

abbrev pub tp_sl_on : ℤ → ℤ → SimulatedPosition → Option ℤ → Option Exit
tp_sl_on tp sl p none = none
tp_sl_on tp sl p (some r) =
    if leb_ℤ tp r
    then some (exit_all p take_profit)
    else if leb_ℤ r (neg sl)
    then some (exit_all p ExitReason.stop)
    else none

abbrev pub trail_on : ℕ → SimulatedPosition → Option ℤ → Option ℤ → Option Exit
trail_on trail_bps p (some peak) (some r) =
    if ltb_ℤ (pos 0) peak && leb_ℤ (pos trail_bps) (peak -ℤ r)
    then some (exit_all p trail)
    else none
trail_on trail_bps p (some peak) none = none
trail_on trail_bps p none r = none

abbrev pub is_partial : PositionEventKind → Bool
is_partial partial_exit = true
is_partial _ = false

abbrev pub count_partials : List PositionEvent → ℕ
count_partials [] = 0
count_partials (e ∷ es) = let n = count_partials es in if is_partial e.kind then suc n else n

abbrev pub scale_out : SimulatedPosition → ℕ → Option Exit
scale_out p sell_bps =
    let sell = sat_mul p.remaining_token_amount sell_bps / 10_000 in
    if sell == 0 then none else some (record { why = partial_scale; amount = sell; full = false })

-- The trailing stop, once every stage is sold.
unfoldable pub run_trail : PartialRunner → SimulatedPosition → ℕ → Option ℤ → ℤ → Option Exit
run_trail u p partials none r = none
run_trail u p partials (some peak) r =
    if leb (length u.stages) partials && ltb_ℤ (pos 0) peak && leb_ℤ (pos u.trail_bps) (peak -ℤ r)
    then some (exit_all p trail)
    else none

unfoldable pub run_stage : PartialRunner → SimulatedPosition → ℕ → Option (ℤ × ℕ) → ℤ → Option Exit
run_stage u p partials none r =
    run_trail u p partials (return_bps p.quote_cost p.highest_mark_quote) r
run_stage u p partials (some (need, sell_bps)) r =
    if leb_ℤ need r
    then scale_out p sell_bps
    else run_trail u p partials (return_bps p.quote_cost p.highest_mark_quote) r

abbrev pub run_on : PartialRunner → SimulatedPosition → Option ℤ → Option Exit
run_on u p none = none
run_on u p (some r) =
    let partials = count_partials p.events in run_stage u p partials (get_elem? u.stages partials) r

-- `return_bps` of a mark that may be missing.
abbrev pub marked_return : SimulatedPosition → Option ℕ → Option ℤ
marked_return p none = none
marked_return p (some mark) = return_bps p.quote_cost mark

abbrev pub collapses : Option ℤ → Bool
collapses none = false
collapses (some a) = leb_ℤ a (neg (pos 2))

abbrev pub rises : Option ℤ → Bool
rises none = false
rises (some a) = leb_ℤ (pos 2) a

abbrev pub on_flow : SimulatedPosition → Option FlowSignal → Option Exit
on_flow p none = none
on_flow p (some f) =
    if collapses f.unique_buyer_accel_15s
      || (rises f.unique_seller_accel_15s && f.net_flow_negative)
    then some (exit_all p momentum_decay)
    else none

abbrev pub creator_sells : Option FlowSignal → ℕ
creator_sells none = 0
creator_sells (some f) = f.creator_sell_count

unfoldable pub on_creator : SimulatedPosition → Option FlowSignal → Option Exit
on_creator p flow =
    if ltb p.creator_sell_count_at_entry (creator_sells flow)
    then some (exit_all p creator_sell)
    else none

abbrev pub or_else : Option Exit → Option Exit → Option Exit
or_else none e = e
or_else (some x) e = some x

unfoldable pub on_mark :
    ExitPolicy → SimulatedPosition → TokenStateSnapshot → Option ℕ → Option FlowSignal → Option Exit
on_mark (time_exit hold_ms) p snap mark flow = on_time hold_ms p snap
on_mark (fixed_tp_sl tp sl) p snap mark flow = tp_sl_on tp sl p (marked_return p mark)
on_mark (trailing_exit bps) p snap none flow = none
on_mark (trailing_exit bps) p snap (some mark) flow =
    trail_on bps p (return_bps p.quote_cost p.highest_mark_quote) (return_bps p.quote_cost mark)
on_mark (partial_runner u) p snap mark flow = run_on u p (marked_return p mark)
on_mark flow_decay_exit p snap mark flow = on_flow p flow
on_mark creator_sell_exit p snap mark flow = on_creator p flow
on_mark (dynamic_runner u time_cap) p snap mark flow = or_else (on_flow p flow) (
    or_else (on_creator p flow)
      (or_else (on_time time_cap p snap) (run_on u p (marked_return p mark))))

-- `PositionManager::evaluate`.
unfoldable pub evaluate :
    ExitPolicy
    → FeeModel
    → SimulatedPosition
    → TokenStateSnapshot
    → Option SecurityVerdict
    → Option FlowSignal
    → Option Exit
evaluate policy fees p snap security flow =
    if is_open p.status
    then if is_reject security
      then some (exit_all p security_emergency)
      else on_mark policy p snap (mark_exit_quote snap p.remaining_token_amount fees) flow
    else none
