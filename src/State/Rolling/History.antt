-- ===== src/State/Rolling/History.antt =====
-- The rolling windows after any history of ticks: apps/engine/src/state/rolling.rs.
use memecoin_bot.Base.{
  ◌≡◌, refl, All-over_map, ◌+◌, ◌≤◌, List, [], ◌∷◌, arith, All, All-map, Bool-cases, inl, inr,
  u256_max,
}
use memecoin_bot.Base.Int.{ℤ}
use memecoin_bot.State.Rolling.{
  TradeTick, Window, new, expire, push, RollingWindows, new_windows, window_ms, push_all,
  expire_all,
}
use memecoin_bot.State.Rolling.Traders.{sum_of, sum_of-append}
use memecoin_bot.State.Rolling.Tally.{
  Measure, part, IsTally, new-IsTally, push-IsTally, expire-IsTally, push-events,
}
use memecoin_bot.State.Rolling.Expiry.{expire-kept, sum_of-kept}

-- What happens to the windows: a tick at a time, or the time alone.
pub data RollingStep : Type 0 where
  ticks : ℤ → TradeTick → RollingStep
  passes : ℤ → RollingStep

abbrev pub after_step : RollingWindows → RollingStep → RollingWindows
after_step r (ticks now tick) = push_all r now tick
after_step r (passes now) = expire_all r now

abbrev pub after_steps : RollingWindows → List RollingStep → RollingWindows
after_steps r [] = r
after_steps r (s ∷ ss) = after_steps (after_step r s) ss

-- The ticks of a history.
abbrev pub ticks_of : List RollingStep → List TradeTick
ticks_of [] = []
ticks_of (ticks now tick ∷ ss) = tick ∷ ticks_of ss
ticks_of (passes now ∷ ss) = ticks_of ss

-- The window is a tally, and with the ticks to come its sums still fit a `U256`.
IsSound : List RollingStep → Window → Type 0
IsSound ss w =
    IsTally w
    × ((m : Measure) → sum_of (part m) w.events + sum_of (part m) (ticks_of ss) ≤ u256_max)

expire-IsSound :
    (ss : List RollingStep) (now : ℤ) (w : Window) → IsSound ss w → IsSound ss (expire w now)
unfolding IsSound
expire-IsSound ss now w (v, fits) = (
  expire-IsTally w now v,
  λ m.
      rw (expire-kept w now)
        (omega (arith, fits m, sum_of-kept (part m) w.duration_ms now w.events)),
)

push-IsSound :
    (ss : List RollingStep) (now : ℤ) (tick : TradeTick) (w : Window)
    → IsSound (ticks now tick ∷ ss) w
    → IsSound ss (push w tick)
unfolding IsSound
push-IsSound ss now tick w (v, fits) = (
  push-IsTally w tick v (λ m. omega (arith, fits m)),
  λ m. rw (push-events w tick) (omega (arith, fits m, sum_of-append (part m) w.events (tick ∷ []))),
)

skip-IsSound :
    (ss : List RollingStep) (now : ℤ) (tick : TradeTick) (w : Window)
    → IsSound (ticks now tick ∷ ss) w
    → IsSound ss w
unfolding IsSound
skip-IsSound ss now tick w (v, fits) = (v, λ m. omega (arith, fits m))

sound-IsTally : (w : Window) → IsSound [] w → IsTally w
unfolding IsSound
sound-IsTally w h = h.0

after_step-IsSound :
    (s : RollingStep) (ss : List RollingStep) (r : RollingWindows)
    → All (IsSound (s ∷ ss)) r.windows
    → All (IsSound ss) (after_step r s).windows
unfolding push_all expire_all IsSound
after_step-IsSound (ticks now tick) ss r h = elim (Bool-cases r.enabled) [
  | inl on ↦ rw on (
      All-over_map (IsSound (ticks now tick ∷ ss)) (IsSound ss) (λ w. push (expire w now) tick)
        (λ w v.
          push-IsSound ss now tick (expire w now) (expire-IsSound (ticks now tick ∷ ss) now w v))
        r.windows h)
  | inr off ↦ rw off (All-map (skip-IsSound ss now tick) r.windows h)
]
after_step-IsSound (passes now) ss r h = elim (Bool-cases r.enabled) [
  | inl on ↦ rw on (
      All-over_map (IsSound ss) (IsSound ss) (λ w. expire w now) (expire-IsSound ss now) r.windows
        h)
  | inr off ↦ rw off h
]

new-IsSound :
    (ss : List RollingStep)
    → ((m : Measure) → sum_of (part m) (ticks_of ss) ≤ u256_max)
    → (duration_ms : ℤ) → IsSound ss (new duration_ms)
unfolding IsSound
new-IsSound ss fits duration_ms = (new-IsTally duration_ms, λ m. omega (arith, fits m))

every_length : (ds : List ℤ) → All (λ (d : ℤ). d ≡ d) ds
every_length [] = tt
every_length (d ∷ ds) = (refl, every_length ds)

after_steps-IsSound :
    (ss : List RollingStep) (r : RollingWindows)
    → All (IsSound ss) r.windows
    → All IsTally (after_steps r ss).windows
after_steps-IsSound [] r h = All-map sound-IsTally r.windows h
after_steps-IsSound (s ∷ ss) r h =
    after_steps-IsSound ss (after_step r s) (after_step-IsSound s ss r h)

-- After any history of ticks and of time passing, in which each total fits a `U256`: every window agrees
-- with the events it holds, that is, its counts, volumes, creator volumes and first trades are the sums
-- over these events, and its maps of buyers and sellers give for each trader the number of its trades
-- and have as many entries as there are traders.
pub new_windows-IsTally :
    (ss : List RollingStep)
    → ((m : Measure) → sum_of (part m) (ticks_of ss) ≤ u256_max)
    → All IsTally (after_steps new_windows ss).windows
unfolding new_windows
new_windows-IsTally ss fits = after_steps-IsSound ss new_windows (
    All-over_map (λ (d : ℤ). d ≡ d) (IsSound ss) new (λ d _. new-IsSound ss fits d) window_ms
      (every_length window_ms))
