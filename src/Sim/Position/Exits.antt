-- ===== src/Sim/Position/Exits.antt =====
-- What one exit does to a simulated position: apps/engine/src/sim/position.rs.
use memecoin_bot.Base.{ℕ, ◌+◌, ◌≤◌, ◌<◌, ◌≡◌, ◌↔◌, ◌⊎◌, ◌∙◌, ap, Bool, true, false, arith, u256_max}
use memecoin_bot.Base.Int.{sub_ℕ, ◌+ℤ◌}
use memecoin_bot.Sim.Types.{is_fill, ExitReason, closed, is_open}
use memecoin_bot.Sim.Result.{ExecutionResult}
use memecoin_bot.Sim.Position.Signed.{Signed, signed_add, value, value-signed_add}
use memecoin_bot.Sim.Position.Book.{
  SimulatedPosition, finalize_capture, sold_of, cost_of, pnl_of, settle, book_sale, apply_exit,
}

pnl_of_lem :
    (recv cost : ℕ)
    → ((pnl_of recv cost).magnitude ≤ recv + cost) × (value (pnl_of recv cost) ≡ sub_ℕ recv cost)
unfolding pnl_of
pnl_of_lem recv cost = ground arith

module _ (p : SimulatedPosition) (fill : ExecutionResult) (reason : ExitReason) (full : Bool) where
  -- An exit of an open position that holds tokens closes it exactly where it fills with at least the
  -- tokens held; whether the policy meant a full exit plays no part.
  pub apply_exit-closed :
      is_open p.status ≡ true
      → 0 < p.remaining_token_amount
      → ((apply_exit p fill reason full).status ≡ closed)
        ↔ ((is_fill fill.status ≡ true) × (p.remaining_token_amount ≤ fill.filled_token))
  unfolding apply_exit book_sale settle finalize_capture
  apply_exit-closed o held = (λ h. ground arith, λ h. ground arith)

  -- An exit that does not fill, or that sells nothing, leaves the tokens, the realised quote and profit
  -- and the status as they were.
  pub apply_exit-failed :
      (is_fill fill.status ≡ false) ⊎ (sold_of p fill ≡ 0)
      → let q = apply_exit p fill reason full in
        (q.remaining_token_amount ≡ p.remaining_token_amount)
        × (q.realized_quote ≡ p.realized_quote)
        × (q.realized_pnl_quote ≡ p.realized_pnl_quote)
        × (q.status ≡ p.status)
  unfolding apply_exit
  apply_exit-failed h = ground arith

  -- An exit that sells adds to the realised profit the quote received less the cost of the part sold,
  -- as integers, where the amounts fit a `U256`.
  pub apply_exit-pnl :
      is_fill fill.status ≡ true
      → 0 < sold_of p fill
      → p.realized_pnl_quote.magnitude + fill.filled_quote + cost_of p (sold_of p fill) ≤ u256_max
      → value (apply_exit p fill reason full).realized_pnl_quote
        ≡ value p.realized_pnl_quote +ℤ sub_ℕ fill.filled_quote (cost_of p (sold_of p fill))
  unfolding apply_exit book_sale settle finalize_capture
  apply_exit-pnl h sold fits =
      let cost = cost_of p (sold_of p fill) in
      let gain : Signed = pnl_of fill.filled_quote cost in
      let e : (apply_exit p fill reason full).realized_pnl_quote
          ≡ signed_add p.realized_pnl_quote gain =
        ground arith in
      let (small, is_gain) = pnl_of_lem fill.filled_quote cost in
      rw e (
        value-signed_add p.realized_pnl_quote gain (omega arith)
        ∙ ap (λ g. value p.realized_pnl_quote +ℤ g) is_gain)
