-- ===== src/State/Rolling/AsOf.antt =====
-- The incremental snapshot of a window is the recomputed one: apps/engine/src/state/rolling.rs.
use memecoin_bot.Base.{
  ℕ, ◌+◌, ◌≤◌, ◌≡◌, refl, ◌∙◌, ap, sym, Bool, List, [], ◌∷◌, ◌++◌, arith, if◌then◌else◌, length,
  All, filter_by, Bool-cases, inl, inr, u256_max,
}
use memecoin_bot.Base.Int.{ℤ, ◌≤ℤ◌}
use memecoin_bot.State.Rolling.{TradeTick, Window, bump, expire}
use memecoin_bot.State.Rolling.Report.{
  Sums, no_sums, count_tick, count_ticks, in_window, is_first_buy, is_first_sell, snapshot,
  snapshot_of, snapshot_as_of,
}
use memecoin_bot.State.Rolling.Counts.{one_if}
use memecoin_bot.State.Rolling.Traders.{sum_of, sum_of-append}
use memecoin_bot.State.Rolling.Tally.{
  Measure, buys, sells, buy_quotes, sell_quotes, buy_tokens, sell_tokens, creator_buys,
  creator_sells, first_buys, first_sells, part, IsTally, IsCountOf, is_buy_tick, is_sell_tick,
  bumped-IsCountOf, expire-IsTally,
}
use memecoin_bot.State.Rolling.Expiry.{
  expire-kept, expire-duration_ms, sum_of-kept, IsOrdered, is_young, expire-filter_by,
}

-- What the loop has summed of a measure; the first trades are counted outside it.
abbrev summed : Measure → Sums → ℕ
summed buys s = s.buy_count
summed sells s = s.sell_count
summed buy_quotes s = s.buy_quote
summed sell_quotes s = s.sell_quote
summed buy_tokens s = s.buy_token
summed sell_tokens s = s.sell_token
summed creator_buys s = s.creator_buy
summed creator_sells s = s.creator_sell
summed first_buys s = 0
summed first_sells s = 0

abbrev in_loop : Measure → TradeTick → ℕ
in_loop first_buys e = 0
in_loop first_sells e = 0
in_loop m e = part m e

record IsSumsOf (s : Sums) (es : List TradeTick) : Type 0 where
  pub sums : (m : Measure) → summed m s ≡ sum_of (in_loop m) es
  pub buyers_of : IsCountOf is_buy_tick s.buyers es
  pub sellers_of : IsCountOf is_sell_tick s.sellers es

count_tick_lem :
    (s : Sums) (e : TradeTick)
    → ((count_tick s e).buyers ≡ (if is_buy_tick e then bump e.trader s.buyers else s.buyers))
      × ((count_tick s e).sellers ≡ (if is_sell_tick e then bump e.trader s.sellers else s.sellers))
unfolding count_tick
count_tick_lem s e = elim (Bool-cases e.is_buy) [
  | inl b ↦ rw b (refl, refl)
  | inr b ↦ rw b (refl, refl)
]

summed-count_tick :
    (m : Measure) (s : Sums) (e : TradeTick)
    → summed m s + in_loop m e ≤ u256_max
    → summed m (count_tick s e) ≡ summed m s + in_loop m e
unfolding count_tick
summed-count_tick m s e fits = ground arith

count_tick-IsSumsOf :
    (s : Sums) (es : List TradeTick) (e : TradeTick)
    → ((m : Measure) → sum_of (in_loop m) es + in_loop m e ≤ u256_max)
    → IsSumsOf s es
    → IsSumsOf (count_tick s e) (es ++ e ∷ [])
count_tick-IsSumsOf s es e fits v =
    let (bs, ss) = count_tick_lem s e in
    record {
      sums = λ m.
          omega (
            arith,
            v.sums m,
            fits m,
            summed-count_tick m s e,
            sum_of-append (in_loop m) es (e ∷ []),
          );
      buyers_of = rw bs (bumped-IsCountOf is_buy_tick s.buyers e es v.buyers_of);
      sellers_of = rw ss (bumped-IsCountOf is_sell_tick s.sellers e es v.sellers_of);
    }

append_nil : (xs : List TradeTick) → xs ++ [] ≡ xs
append_nil [] = refl
append_nil (x ∷ xs) = ap (λ ys. x ∷ ys) (append_nil xs)

append_next :
    (xs : List TradeTick) (e : TradeTick) (es : List TradeTick)
    → (xs ++ e ∷ []) ++ es ≡ xs ++ e ∷ es
append_next [] e es = refl
append_next (x ∷ xs) e es = ap (λ ys. x ∷ ys) (append_next xs e es)

count_ticks-IsSumsOf :
    (es seen : List TradeTick) (s : Sums)
    → ((m : Measure) → sum_of (in_loop m) (seen ++ es) ≤ u256_max)
    → IsSumsOf s seen
    → IsSumsOf (count_ticks s es) (seen ++ es)
count_ticks-IsSumsOf [] seen s fits v = rw (append_nil seen) v
count_ticks-IsSumsOf (e ∷ es) seen s fits v =
    let next =
      count_tick-IsSumsOf s seen e
        (λ m. omega (arith, fits m, sum_of-append (in_loop m) seen (e ∷ es))) v in
    rw (sym (append_next seen e es)) (
      count_ticks-IsSumsOf es (seen ++ e ∷ []) (count_tick s e)
        (λ m. rw (append_next seen e es) (fits m)) next)

no_sums-IsSumsOf : IsSumsOf no_sums []
no_sums-IsSumsOf = record {
  sums = λ m. ground arith;
  buyers_of = record { sound = tt; counts = λ t. refl; size = refl };
  sellers_of = record { sound = tt; counts = λ t. refl; size = refl };
}

in_loop-le : (m : Measure) (es : List TradeTick) → sum_of (in_loop m) es ≤ sum_of (part m) es
in_loop-le m [] = omega arith
in_loop-le m (e ∷ es) = let ih = in_loop-le m es in ground arith

count_first :
    (test : TradeTick → Bool) (f : TradeTick → ℕ)
    → ((e : TradeTick) → f e ≡ one_if (test e))
    → (es : List TradeTick) → sum_of f es ≡ length (filter_by test es)
count_first test f same [] = refl
count_first test f same (e ∷ es) = ground (arith, same e, count_first test f same es)

filter_by-same :
    (f g : TradeTick → Bool) (P : TradeTick → Type 0)
    → ((e : TradeTick) → P e → f e ≡ g e)
    → (es : List TradeTick) → All P es
    → filter_by f es ≡ filter_by g es
filter_by-same f g P same [] h = refl
filter_by-same f g P same (e ∷ es) h = rw (same e h.0, filter_by-same f g P same es h.1) refl

young_in_window :
    (duration_ms at : ℤ) (e : TradeTick)
    → e.time_ms ≤ℤ at
    → is_young duration_ms at e ≡ in_window duration_ms at e
young_in_window duration_ms at e le = ground arith

-- A window that is a tally reports what its events alone give.
snapshot-snapshot_of :
    (w : Window)
    → IsTally w
    → ((m : Measure) → sum_of (part m) w.events ≤ u256_max)
    → snapshot w ≡ snapshot_of w.duration_ms w.events
unfolding snapshot snapshot_of
snapshot-snapshot_of w v fits =
    let es = w.events in
    let s : Sums = count_ticks no_sums es in
    let c : IsSumsOf s es =
      count_ticks-IsSumsOf es [] no_sums (λ m. omega (arith, fits m, in_loop-le m es))
        no_sums-IsSumsOf in
    let e1 : w.buy_count ≡ s.buy_count = v.sums buys ∙ sym (c.sums buys) in
    let e2 : w.sell_count ≡ s.sell_count = v.sums sells ∙ sym (c.sums sells) in
    let e3 : length w.buyers ≡ length s.buyers = v.buyers_of.size ∙ sym c.buyers_of.size in
    let e4 : length w.sellers ≡ length s.sellers = v.sellers_of.size ∙ sym c.sellers_of.size in
    let e5 : w.buy_quote ≡ s.buy_quote = v.sums buy_quotes ∙ sym (c.sums buy_quotes) in
    let e6 : w.sell_quote ≡ s.sell_quote = v.sums sell_quotes ∙ sym (c.sums sell_quotes) in
    let e7 : w.buy_token ≡ s.buy_token = v.sums buy_tokens ∙ sym (c.sums buy_tokens) in
    let e8 : w.sell_token ≡ s.sell_token = v.sums sell_tokens ∙ sym (c.sums sell_tokens) in
    let e9 : w.creator_buy ≡ s.creator_buy = v.sums creator_buys ∙ sym (c.sums creator_buys) in
    let e10 : w.creator_sell ≡ s.creator_sell = v.sums creator_sells ∙ sym (c.sums creator_sells) in
    let e11 : w.new_buyers ≡ length (filter_by is_first_buy es) =
      v.sums first_buys ∙ count_first is_first_buy (part first_buys) (λ e. refl) es in
    let e12 : w.new_sellers ≡ length (filter_by is_first_sell es) =
      v.sums first_sells ∙ count_first is_first_sell (part first_sells) (λ e. refl) es in
    cc

-- On ticks in the order of their times, none later than the time asked for, and with totals that fit a
-- `U256`: expiring the window and reporting its running fields gives the same snapshot, in every field,
-- as filtering the events and summing them anew.
pub snapshot-expire :
    (w : Window) (at : ℤ)
    → IsTally w
    → IsOrdered w.events
    → All (λ e. e.time_ms ≤ℤ at) w.events
    → ((m : Measure) → sum_of (part m) w.events ≤ u256_max)
    → snapshot (expire w at) ≡ snapshot_as_of w at
unfolding snapshot_as_of
snapshot-expire w at v ordered past fits =
    let same : (expire w at).events ≡ filter_by (in_window w.duration_ms at) w.events =
      expire-filter_by w at ordered
      ∙ filter_by-same (is_young w.duration_ms at) (in_window w.duration_ms at)
          (λ e. e.time_ms ≤ℤ at) (young_in_window w.duration_ms at) w.events past in
    snapshot-snapshot_of (expire w at) (expire-IsTally w at v) (λ m.
      rw (expire-kept w at) (omega (arith, fits m, sum_of-kept (part m) w.duration_ms at w.events)))
    ∙ ap (λ d. snapshot_of d (expire w at).events) (expire-duration_ms w at)
    ∙ ap (snapshot_of w.duration_ms) same
