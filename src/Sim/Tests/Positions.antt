-- ===== src/Sim/Tests/Positions.antt =====
-- A position bought, sold in two parts and marked: apps/engine/src/sim/position.rs.
use memecoin_bot.Base.{
  ℕ, ◌+◌, ◌≤◌, ◌≡◌, ◌↔◌, refl, true, false, Option, none, some, List, [], ◌∷◌, arith, inl, inr,
}
use memecoin_bot.Base.Int.{ℤ, pos, ◌+ℤ◌, sub_ℕ}
use memecoin_bot.Domain.{solana, pump_fun}
use memecoin_bot.Sim.Types.{take_profit, closed, no_fill, time_stop}
use memecoin_bot.Sim.Models.{default_fees}
use memecoin_bot.Sim.Position.Returns.{
  return_bps, capture_ratio_bps, IsReturnOf, return_bps_range, capture_ratio_bps_range,
}
use memecoin_bot.Sim.Position.Signed.{minus, signed_add, value}
use memecoin_bot.Sim.Position.Book.{
  open_from, cost_of, pnl_of, settle, finalize_capture, book_sale, apply_exit,
}
use memecoin_bot.Sim.Position.Ledger.{
  IsBooked, PositionStep, exits, marks, after_steps, open_from-IsBooked_after,
}
use memecoin_bot.Sim.Position.Exits.{apply_exit-closed, apply_exit-failed, apply_exit-pnl}
use memecoin_bot.Sim.Result.{ExecutionResult}
use memecoin_bot.Sim.Samples.{bought, sold_for, held, snapshot_at}

abbrev unfilled : ExecutionResult
unfilled = record (sold_for 0 0) { status = no_fill }

-- Half of the position is sold for 700, and the rest for 200.
abbrev history : List PositionStep
history =
    exits (sold_for 250 700) take_profit false
    ∷ marks (snapshot_at (pos 8_000)) default_fees
    ∷ exits unfilled time_stop true
    ∷ exits (sold_for 300 200) time_stop true
    ∷ []

abbrev two_sales : List PositionStep
two_sales =
    exits (sold_for 250 700) take_profit false ∷ exits (sold_for 300 200) time_stop true ∷ []

sold_in_two_parts : (after_steps held two_sales).realized_pnl_quote ≡ minus 100
unfolding open_from apply_exit book_sale settle finalize_capture cost_of pnl_of signed_add
    memecoin_bot.Base.u256_max
sold_in_two_parts = refl

open_from-IsBooked_after_example :
    IsBooked
      (after_steps (open_from (pos 1) solana "token" pump_fun "first" bought none none) history)
open_from-IsBooked_after_example =
    open_from-IsBooked_after (pos 1) solana "token" pump_fun "first" bought none none history

apply_exit-closed_example :
    ((apply_exit held (sold_for 500 1_500) take_profit true).status ≡ closed)
    ↔ ((true ≡ true) × (500 ≤ 500))
unfolding open_from
apply_exit-closed_example =
    apply_exit-closed held (sold_for 500 1_500) take_profit true refl (omega arith)

apply_exit-failed_example :
    let q = apply_exit held unfilled time_stop true in
    (q.remaining_token_amount ≡ held.remaining_token_amount)
    × (q.realized_quote ≡ held.realized_quote)
    × (q.realized_pnl_quote ≡ held.realized_pnl_quote)
    × (q.status ≡ held.status)
apply_exit-failed_example = apply_exit-failed held unfilled time_stop true (inl refl)

apply_exit-pnl_example :
    value (apply_exit held (sold_for 250 700) take_profit false).realized_pnl_quote
    ≡ value held.realized_pnl_quote +ℤ sub_ℕ 700 (cost_of held 250)
unfolding open_from cost_of memecoin_bot.Base.u256_max
apply_exit-pnl_example =
    apply_exit-pnl held (sold_for 250 700) take_profit false refl (omega arith) (omega arith)

abbrev cost : ℕ
cost = 1_000

return_bps_range_example :
    (return_bps cost 700 ≡ none ↔ (cost ≡ 0))
    × ((r : ℤ) → return_bps cost 700 ≡ some r → IsReturnOf cost 700 r)
return_bps_range_example = return_bps_range cost 700

capture_ratio_bps_range_example :
    (capture_ratio_bps 1_000 1_500 2_000 ≡ none ↔ (2_000 ≤ 1_000))
    × ((r : ℕ) → capture_ratio_bps 1_000 1_500 2_000 ≡ some r → 1_500 ≤ 2_000 → r ≤ 10_000)
capture_ratio_bps_range_example = capture_ratio_bps_range 1_000 1_500 2_000
