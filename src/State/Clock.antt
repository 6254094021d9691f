-- ===== src/State/Clock.antt =====
-- The logical clocks of apps/engine/src/state/clock.rs. Instants are unix milliseconds; what the
-- operating system's clock reads is an argument `wall`.
use memecoin_bot.Base.{Bool, true, false, if◌then◌else◌}
use memecoin_bot.Base.Int.{ℤ, pos, max_ℤ, ltb_ℤ}

pub data EngineClock : Type 0 where
  replay : ℤ → EngineClock
  live : ℤ → EngineClock

unfoldable pub replay_clock : EngineClock
replay_clock = replay (pos 0)

unfoldable pub live_clock : ℤ → EngineClock
live_clock wall = live wall

abbrev pub is_replay : EngineClock → Bool
is_replay (replay now) = true
is_replay (live last_event) = false

unfoldable pub clock_now : ℤ → EngineClock → ℤ
clock_now wall (replay now) = now
clock_now wall (live last_event) = max_ℤ wall last_event

unfoldable pub advance_to : EngineClock → ℤ → EngineClock
advance_to (replay now) t = replay (if ltb_ℤ now t then t else now)
advance_to (live last_event) t = live (if ltb_ℤ last_event t then t else last_event)
