-- ===== src/State/Tests.antt =====
-- Rolling windows over a few trades: apps/engine/src/state/rolling.rs.
use memecoin_bot.Base.{
  ℕ, ◌≡◌, refl, true, false, List, [], ◌∷◌, arith, All, String, Bool, u256_max, eq_string,
}
use memecoin_bot.Base.Int.{pos, ◌-ℤ◌}
use memecoin_bot.State.Rolling.{
  TradeTick, Window, new, add, remove, push, expire, new_windows, push_all, expire_all,
}
use memecoin_bot.State.Rolling.Report.{snapshot, by_ms, snapshot_as_of}
use memecoin_bot.State.Rolling.AsOf.{snapshot-expire}
use memecoin_bot.State.Rolling.Tally.{IsTally, new-IsTally, push-IsTally}
use memecoin_bot.State.Rolling.History.{
  RollingStep, ticks, passes, after_steps, new_windows-IsTally,
}

abbrev tick_at : ℕ → String → Bool → ℕ → TradeTick
tick_at time trader is_buy quote = record {
  time_ms = pos time;
  trader = trader;
  is_buy = is_buy;
  is_creator = false;
  quote_raw = quote;
  token_raw = quote;
  first_buy = is_buy;
  first_sell = false;
}

abbrev history : List RollingStep
history =
    ticks (pos 1_000) (tick_at 1_000 "ann" true 10)
    ∷ ticks (pos 4_000) (tick_at 4_000 "bob" true 30)
    ∷ ticks (pos 5_000) (tick_at 5_000 "bob" true 20)
    ∷ ticks (pos 5_500) (tick_at 5_500 "ann" false 5)
    ∷ passes (pos 7_000)
    ∷ []

-- In the window of five seconds the first buy has gone.
five_seconds : (by_ms (after_steps new_windows history) (pos 5_000)).unique_buyers ≡ 1
unfolding by_ms new_windows push_all expire_all push expire add remove snapshot ◌-ℤ◌ eq_string
five_seconds = refl

fifteen_seconds : (by_ms (after_steps new_windows history) (pos 15_000)).unique_buyers ≡ 2
unfolding by_ms new_windows push_all expire_all push expire add remove snapshot ◌-ℤ◌ eq_string
fifteen_seconds = refl

new_windows-IsTally_example : All IsTally (after_steps new_windows history).windows
unfolding u256_max
new_windows-IsTally_example = new_windows-IsTally history (λ m. ground arith)

abbrev two_ticks : Window
two_ticks =
    push (push (new (pos 5_000)) (tick_at 1_000 "ann" true 10)) (tick_at 4_000 "bob" true 30)

two_ticks-IsTally : IsTally two_ticks
unfolding u256_max
two_ticks-IsTally =
    push-IsTally (push (new (pos 5_000)) (tick_at 1_000 "ann" true 10))
      (tick_at 4_000 "bob" true 30)
      (push-IsTally (new (pos 5_000)) (tick_at 1_000 "ann" true 10) (new-IsTally (pos 5_000))
        (λ m. ground arith))
      (unfold push add in λ m. ground arith)

snapshot-expire_example :
    snapshot (expire two_ticks (pos 7_000)) ≡ snapshot_as_of two_ticks (pos 7_000)
unfolding push add u256_max
snapshot-expire_example =
    snapshot-expire two_ticks (pos 7_000) two_ticks-IsTally ((omega arith, tt), (tt, tt))
      (omega arith, (omega arith, tt)) (λ m. ground arith)
