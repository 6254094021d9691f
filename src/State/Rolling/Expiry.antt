-- ===== src/State/Rolling/Expiry.antt =====
-- What `expire` keeps: apps/engine/src/state/rolling.rs.
use memecoin_bot.Base.{
  ℕ, ◌≤◌, ◌≡◌, refl, ◌∙◌, ap, Bool, true, false, not, List, [], ◌∷◌, arith, if◌then◌else◌, All,
  All-map, filter_by, Bool-cases, inl, inr,
}
use memecoin_bot.Base.Int.{ℤ, ◌≤ℤ◌, -ℤ_parts}
use memecoin_bot.State.Rolling.{TradeTick, Window, remove, is_stale, expire_from, expire}
use memecoin_bot.State.Rolling.Traders.{sum_of}
use memecoin_bot.State.Rolling.Tally.{remove_lem}

-- The events without the stale ones at the front.
abbrev pub kept : ℤ → ℤ → List TradeTick → List TradeTick
kept duration_ms now [] = []
kept duration_ms now (e ∷ es) =
    if is_stale duration_ms now e then kept duration_ms now es else e ∷ es

-- Ticks in the order of their times.
abbrev pub IsOrdered : List TradeTick → Type 0
IsOrdered [] = Unit
IsOrdered (e ∷ es) = All (λ x. e.time_ms ≤ℤ x.time_ms) es × IsOrdered es

abbrev pub is_young : ℤ → ℤ → TradeTick → Bool
is_young duration_ms now e = not (is_stale duration_ms now e)

expire_from-kept :
    (now : ℤ) (es : List TradeTick) (w : Window)
    → w.events ≡ es
    → (expire_from now es w).events ≡ kept w.duration_ms now es
expire_from-kept now [] w same = same
expire_from-kept now (e ∷ es) w same =
    let (rest, _, _, d) = remove_lem (record w { events = es }) e in
    elim (Bool-cases (is_stale w.duration_ms now e)) [
      | inl old ↦
          rw (old, expire_from)
            (expire_from-kept now es (remove (record w { events = es }) e) rest
              ∙ ap (λ x. kept x now es) d)
      | inr young ↦ rw (young, expire_from) same
    ]

pub expire-kept : (w : Window) (now : ℤ) → (expire w now).events ≡ kept w.duration_ms now w.events
unfolding expire
expire-kept w now = expire_from-kept now w.events w refl

expire_from-duration_ms :
    (now : ℤ) (es : List TradeTick) (w : Window)
    → (expire_from now es w).duration_ms ≡ w.duration_ms
expire_from-duration_ms now [] w = refl
expire_from-duration_ms now (e ∷ es) w =
    let (_, _, _, d) = remove_lem (record w { events = es }) e in
    elim (Bool-cases (is_stale w.duration_ms now e)) [
      | inl old ↦
          rw (old, expire_from)
            (expire_from-duration_ms now es (remove (record w { events = es }) e) ∙ d)
      | inr young ↦ rw (young, expire_from) refl
    ]

pub expire-duration_ms : (w : Window) (now : ℤ) → (expire w now).duration_ms ≡ w.duration_ms
unfolding expire
expire-duration_ms w now = expire_from-duration_ms now w.events w

filter_by-All :
    (keep : TradeTick → Bool) (es : List TradeTick)
    → All (λ e. keep e ≡ true) es
    → filter_by keep es ≡ es
filter_by-All keep [] h = refl
filter_by-All keep (e ∷ es) h = rw (h.0, filter_by-All keep es h.1) refl

later_young :
    (duration_ms now : ℤ) (e x : TradeTick)
    → is_stale duration_ms now e ≡ false
    → e.time_ms ≤ℤ x.time_ms
    → is_young duration_ms now x ≡ true
later_young duration_ms now e x h le =
    ground (arith, -ℤ_parts now e.time_ms, -ℤ_parts now x.time_ms)

kept-filter_by :
    (duration_ms now : ℤ) (es : List TradeTick)
    → IsOrdered es
    → kept duration_ms now es ≡ filter_by (is_young duration_ms now) es
kept-filter_by duration_ms now [] h = refl
kept-filter_by duration_ms now (e ∷ es) (later, h) =
    elim (Bool-cases (is_stale duration_ms now e)) [
      | inl old ↦ rw old (kept-filter_by duration_ms now es h)
      | inr young ↦
          let rest =
            filter_by-All (is_young duration_ms now) es
              (All-map (λ x le. later_young duration_ms now e x young le) es later) in
          rw (young, rest) refl
    ]

-- Where the ticks are in the order of their times, an expiry keeps exactly those that are younger than
-- the window's length.
pub expire-filter_by :
    (w : Window) (now : ℤ)
    → IsOrdered w.events
    → (expire w now).events ≡ filter_by (is_young w.duration_ms now) w.events
expire-filter_by w now h = expire-kept w now ∙ kept-filter_by w.duration_ms now w.events h

pub sum_of-kept :
    (f : TradeTick → ℕ) (duration_ms now : ℤ) (es : List TradeTick)
    → sum_of f (kept duration_ms now es) ≤ sum_of f es
sum_of-kept f duration_ms now [] = omega arith
sum_of-kept f duration_ms now (e ∷ es) = ground (arith, sum_of-kept f duration_ms now es)
