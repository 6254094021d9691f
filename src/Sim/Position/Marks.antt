-- ===== src/Sim/Position/Marks.antt =====
-- The marks of a position and its forced ends: apps/engine/src/sim/position.rs.
use memecoin_bot.Base.{ℕ, Bool, ◌||◌, Option, none, some, ltb, ◌==◌, if◌then◌else◌}
use memecoin_bot.Base.Int.{ℤ, ltb_ℤ}
use memecoin_bot.State.Snapshot.{TokenStateSnapshot}
use memecoin_bot.Sim.Types.{
  forced_end_of_data, unrealizable, session_ended_open, is_open, forced_end, text,
}
use memecoin_bot.Sim.Models.{FeeModel}
use memecoin_bot.Sim.Venue.{mark_exit_quote, spot_price_1e18}
use memecoin_bot.Sim.Position.Returns.{return_bps}
use memecoin_bot.Sim.Position.Book.{SimulatedPosition, note, finalize_capture}

abbrev pub raise_return : Option ℤ → Option ℤ → Option ℤ
raise_return none current = current
raise_return (some ret) none = some ret
raise_return (some ret) (some cur) = if ltb_ℤ cur ret then some ret else some cur

abbrev pub return_on : ℕ → Option ℕ → Option ℤ
return_on entry none = none
return_on entry (some px) = return_bps entry px

-- The second half of `mark`, with the quote that an exit would bring.
unfoldable pub mark_at : SimulatedPosition → ℕ → SimulatedPosition
mark_at p mark =
    let up = ltb p.highest_mark_quote mark in
    let down = p.lowest_mark_quote == 0 || ltb mark p.lowest_mark_quote in
    let high = if up then mark else p.highest_mark_quote in
    let low = if down then mark else p.lowest_mark_quote in
    record p {
      highest_mark_quote = high;
      mfe_quote = if up then mark else p.mfe_quote;
      lowest_mark_quote = low;
      mae_quote = if down then mark else p.mae_quote;
      mfe_bps = return_bps p.quote_cost high;
      mae_bps = return_bps p.quote_cost low;
    }

abbrev pub mark_if : SimulatedPosition → Option ℕ → SimulatedPosition
mark_if p none = p
mark_if p (some mark) = mark_at p mark

unfoldable pub mark : SimulatedPosition → TokenStateSnapshot → FeeModel → SimulatedPosition
mark p snap fees =
    if is_open p.status
    then mark_if
        (record p {
          token_max_return_bps =
              raise_return (return_on p.entry_price_1e18 (spot_price_1e18 snap))
                p.token_max_return_bps;
        })
        (mark_exit_quote snap p.remaining_token_amount fees)
    else p

unfoldable pub end_session_open : SimulatedPosition → ℤ → SimulatedPosition
end_session_open p at =
    if is_open p.status
    then note (record p { status = session_ended_open }) forced_end at (text "SESSION_ENDED_OPEN")
        none
    else p

unfoldable pub force_end : SimulatedPosition → ℤ → Bool → SimulatedPosition
force_end p at realizable =
    if is_open p.status
    then finalize_capture (
        note
          (record p {
            status = if realizable then forced_end_of_data else unrealizable;
            closed_at = some at;
          })
          forced_end at (text (if realizable then "END_OF_DATA" else "UNREALIZABLE_POSITION")) none)
    else p
