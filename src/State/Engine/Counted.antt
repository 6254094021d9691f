-- ===== src/State/Engine/Counted.antt =====
-- What the engine of apps/engine/src/state/engine.rs counts of the trades of a token agrees with itself.
pub mod Alike
pub mod Traded
use memecoin_bot.Base.{
  ℕ, zero, suc, ◌+◌, ◌-◌, ◌≤◌, ◌≡◌, refl, ◌∙◌, sym, ap, String, Bool, true, false, not, ◌&&◌, ◌||◌,
  Option, none, some, List, [], ◌∷◌, ◌++◌, arith, if◌then◌else◌, length, length-append, ltb, ◌==◌,
  eq_string, sat_add, Bool-cases, Option-cases, inl, inr, u256_max,
}
use mathlib.Core.Path.{subst}
use memecoin_bot.Base.Int.{ℤ}
use memecoin_bot.Domain.{Launchpad, QualityStatus}
use memecoin_bot.Domain.Events.{
  TradeObserved, LifecycleObserved, LifecycleType, LifecycleMeta, TokenDiscovered,
}
use memecoin_bot.State.Market
use memecoin_bot.State.Market.{MarketState}
use memecoin_bot.State.Clock.{EngineClock}
use memecoin_bot.State.Order.{StateOrder}
use memecoin_bot.State.Rolling.{Counts, count_of, bump, TradeTick}
use memecoin_bot.State.Rolling.Counts.{IsCounts, one_if, bump-IsCounts, count_of-bump, length-bump}
use memecoin_bot.State.Schedule.{SnapshotSchedule}
use memecoin_bot.State.Snapshot.{SnapshotKind}
use memecoin_bot.State.Engine.{
  TokenState, StateEngine, TokenKey, new_engine, contains_text, insert_text,
}
use memecoin_bot.State.Engine.Market.{
  is_some, on_curve_trade, on_v4_trade, on_pool_trade, update_market_from_trade, apply_v4_meta,
}
use memecoin_bot.State.Engine.Emit.{mark_emitted, is_lifecycle}
use memecoin_bot.State.Engine.Trade.{
  is_buy, is_creator, note_times, count_buy, count_sell, note_last, log_tick, tick_of, log_trade,
  count_trade, record_trade, drop,
}
use memecoin_bot.State.Engine.Life.{
  with_pool, pool_on, on_pool_created, on_pool_graduated, on_type, note_life, record_life,
}
use memecoin_bot.State.Engine.Apply.{new_token, note_discovery}

-- One side of the market: how many trades, by whom, how often each, what they moved, and the
-- creator's part.
pub record SideCounts : Type 0 where
  pub trades : ℕ
  pub traders : List String
  pub counts : Counts
  pub quote : ℕ
  pub creator_trades : ℕ
  pub creator_quote : ℕ

abbrev pub buys_of : TokenState → SideCounts
buys_of st = record {
  trades = st.buy_count_total;
  traders = st.unique_buyers;
  counts = st.buyer_trade_counts;
  quote = st.buy_quote_volume_raw_total;
  creator_trades = st.creator_buy_count;
  creator_quote = st.creator_buy_quote_raw;
}

abbrev pub sells_of : TokenState → SideCounts
sells_of st = record {
  trades = st.sell_count_total;
  traders = st.unique_sellers;
  counts = st.seller_trade_counts;
  quote = st.sell_quote_volume_raw_total;
  creator_trades = st.creator_sell_count;
  creator_quote = st.creator_sell_quote_raw;
}

abbrev pub total : Counts → ℕ
total [] = 0
total ((k, n) ∷ m) = n + total m

-- Each trader is counted, once, by the number of its trades, and the creator is one of them.
pub record IsSide (s : SideCounts) : Type 0 where
  pub summed : s.trades ≡ total s.counts
  pub counted : IsCounts s.counts
  pub same_number : length s.traders ≡ length s.counts
  pub same_traders : (t : String) → contains_text t s.traders ≡ ltb 0 (count_of t s.counts)
  pub creator_within : s.creator_trades ≤ s.trades
  pub creator_quote_within : s.creator_quote ≤ s.quote
  pub quote_bound : s.quote ≤ u256_max

-- The first trade has a time exactly where there is a trade, and the log keeps at most 8192.
pub record IsCounted (st : TokenState) : Type 0 where
  pub buys : IsSide (buys_of st)
  pub sells : IsSide (sells_of st)
  pub first : is_some st.first_trade_at ≡ ltb 0 (st.buy_count_total + st.sell_count_total)
  pub logged : length st.trade_log ≤ 8_192

-- The same trades: what an update that is no trade leaves alone.
pub record IsAlike (st st' : TokenState) : Type 0 where
  pub buys_same : buys_of st' ≡ buys_of st
  pub sells_same : sells_of st' ≡ sells_of st
  pub first_same : st'.first_trade_at ≡ st.first_trade_at
  pub log_same : st'.trade_log ≡ st.trade_log

pub IsAlike-refl : (st : TokenState) → IsAlike st st
IsAlike-refl st = record { buys_same = refl; sells_same = refl; first_same = refl; log_same = refl }

-- From the fields.
pub IsAlike-of :
    {st st' : TokenState}
    → buys_of st' ≡ buys_of st
    → sells_of st' ≡ sells_of st
    → st'.first_trade_at ≡ st.first_trade_at
    → st'.trade_log ≡ st.trade_log
    → IsAlike st st'
IsAlike-of b s f l = record { buys_same = b; sells_same = s; first_same = f; log_same = l }

pub IsAlike-trans : {a b c : TokenState} → IsAlike a b → IsAlike b c → IsAlike a c
IsAlike-trans h k = record {
  buys_same = k.buys_same ∙ h.buys_same;
  sells_same = k.sells_same ∙ h.sells_same;
  first_same = k.first_same ∙ h.first_same;
  log_same = k.log_same ∙ h.log_same;
}

pub alike-IsCounted : {st st' : TokenState} → IsAlike st st' → IsCounted st → IsCounted st'
alike-IsCounted {st} {st'} a h = record {
  buys = subst IsSide (sym a.buys_same) h.buys;
  sells = subst IsSide (sym a.sells_same) h.sells;
  first =
      ap is_some a.first_same
      ∙ h.first
      ∙ ap (λ (n : ℕ). ltb 0 n)
          (sym (
            ap (λ (s : SideCounts). s.trades + st'.sell_count_total) a.buys_same
            ∙ ap (λ (s : SideCounts). st.buy_count_total + s.trades) a.sells_same));
  logged = rw (a.log_same) h.logged;
}

pub if-IsAlike :
    (b : Bool) (st x y : TokenState) → IsAlike st x → IsAlike st y → IsAlike st (if b then x else y)
if-IsAlike true st x y h k = h
if-IsAlike false st x y h k = k
