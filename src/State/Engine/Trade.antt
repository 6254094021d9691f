-- ===== src/State/Engine/Trade.antt =====
-- What a trade does to the state of its token: the middle of `apply_trade` of
-- apps/engine/src/state/engine.rs.
use memecoin_bot.Base.{
  ℕ, ◌+◌, ◌-◌, zero, suc, String, Bool, true, false, not, ◌&&◌, some, List, [], ◌∷◌, ◌++◌,
  if◌then◌else◌, eq_string, length, sat_add,
}
use memecoin_bot.Base.Int.{ℤ}
use memecoin_bot.Domain.{Launchpad}
use memecoin_bot.Domain.Events.{TradeObserved, TradeSide, buy, sell}
use memecoin_bot.State.Lifecycle
use memecoin_bot.State.Lifecycle.{TokenLifecycleState}
use memecoin_bot.State.Rolling.{TradeTick, Counts, bump, push_all}
use memecoin_bot.State.Order.{StateOrder}
use memecoin_bot.State.Schedule.{MemoryTier}
use memecoin_bot.State.Engine.{TokenState, is_empty_text, contains_text, insert_text, block_of}
use memecoin_bot.State.Engine.Market.{is_some, update_market_from_trade}

abbrev pub is_buy : TradeSide → Bool
is_buy buy = true
is_buy sell = false

unfoldable pub is_creator : TokenState → TradeObserved → Bool
is_creator st trade = not (is_empty_text st.creator) && eq_string st.creator trade.trader

-- A launch on a curve becomes active at its first trade.
abbrev activated : Launchpad → TokenLifecycleState → TokenLifecycleState
activated Launchpad.pump_fun Lifecycle.discovered = Lifecycle.curve_active
activated Launchpad.pons_v2 Lifecycle.discovered = Lifecycle.curve_active
activated pad life = life

unfoldable pub note_times : TokenState → TradeObserved → ℤ → TokenState
note_times st trade t = record st {
  first_trade_at = if is_some st.first_trade_at then st.first_trade_at else some t;
  lifecycle_state =
      if is_some st.first_trade_at
      then st.lifecycle_state
      else activated st.launchpad st.lifecycle_state;
  last_trade_at = some t;
  last_buy_at = if is_buy trade.side then some t else st.last_buy_at;
  last_sell_at = if is_buy trade.side then st.last_sell_at else some t;
  creator_last_sell_at =
      if not (is_buy trade.side) && is_creator st trade then some t else st.creator_last_sell_at;
  quote_asset = some trade.quote_asset;
  token_decimals = trade.base_decimals;
  quote_decimals = trade.quote_decimals;
}

unfoldable pub count_buy : TokenState → TradeObserved → TokenState
count_buy st trade = record st {
  buy_count_total = st.buy_count_total + 1;
  unique_buyers = insert_text trade.trader st.unique_buyers;
  buyer_trade_counts = bump trade.trader st.buyer_trade_counts;
  buy_quote_volume_raw_total = sat_add st.buy_quote_volume_raw_total trade.quote_amount_raw;
  buy_token_volume_raw_total = sat_add st.buy_token_volume_raw_total trade.base_amount_raw;
  creator_buy_count =
      if is_creator st trade then st.creator_buy_count + 1 else st.creator_buy_count;
  creator_buy_quote_raw =
      if is_creator st trade
      then sat_add st.creator_buy_quote_raw trade.quote_amount_raw
      else st.creator_buy_quote_raw;
}

unfoldable pub count_sell : TokenState → TradeObserved → TokenState
count_sell st trade = record st {
  sell_count_total = st.sell_count_total + 1;
  unique_sellers = insert_text trade.trader st.unique_sellers;
  seller_trade_counts = bump trade.trader st.seller_trade_counts;
  sell_quote_volume_raw_total = sat_add st.sell_quote_volume_raw_total trade.quote_amount_raw;
  sell_token_volume_raw_total = sat_add st.sell_token_volume_raw_total trade.base_amount_raw;
  creator_sell_count =
      if is_creator st trade then st.creator_sell_count + 1 else st.creator_sell_count;
  creator_sell_quote_raw =
      if is_creator st trade
      then sat_add st.creator_sell_quote_raw trade.quote_amount_raw
      else st.creator_sell_quote_raw;
}

-- `add_raw` on the entry of a trader, 0 where there is none.
abbrev pub add_volume : String → ℕ → Counts → Counts
add_volume t v [] = (t, sat_add 0 v) ∷ []
add_volume t v ((k, n) ∷ m) =
    if eq_string k t then (k, sat_add n v) ∷ m else (k, n) ∷ add_volume t v m

unfoldable pub note_last : TokenState → TradeObserved → StateOrder → ℤ → TokenState
note_last st trade order t = record st {
  trader_quote_volume = add_volume trade.trader trade.quote_amount_raw st.trader_quote_volume;
  last_trade_side = some trade.side;
  last_trade_token_raw = some trade.base_amount_raw;
  last_trade_quote_raw = some trade.quote_amount_raw;
  last_event_order = some order;
  last_event_time = some t;
  last_event_id = some trade.event_id;
  last_block = block_of trade.block_number;
  last_slot = block_of trade.slot;
}

abbrev pub drop : ℕ → List TradeTick → List TradeTick
drop zero ts = ts
drop (suc n) [] = []
drop (suc n) (t ∷ ts) = drop n ts

-- The log keeps its last 8192 ticks.
abbrev pub log_tick : List TradeTick → TradeTick → List TradeTick
log_tick log tick = let all = log ++ tick ∷ [] in drop (length all - 8_192) all

abbrev is_amm_active : TokenLifecycleState → Bool
is_amm_active Lifecycle.amm_active = true
is_amm_active _ = false

-- The first trade on an AMM, after the market has been updated.
abbrev pub is_first_amm : TokenState → Bool
is_first_amm st = is_amm_active st.lifecycle_state && not st.first_amm_trade

abbrev is_hot : MemoryTier → Bool
is_hot MemoryTier.hot = true
is_hot MemoryTier.warm = false
is_hot MemoryTier.cold = false

unfoldable pub tick_of : TokenState → TradeObserved → ℤ → TradeTick
tick_of st trade t = record {
  time_ms = t;
  trader = trade.trader;
  is_buy = is_buy trade.side;
  is_creator = is_creator st trade;
  quote_raw = trade.quote_amount_raw;
  token_raw = trade.base_amount_raw;
  first_buy = is_buy trade.side && not (contains_text trade.trader st.unique_buyers);
  first_sell = not (is_buy trade.side) && not (contains_text trade.trader st.unique_sellers);
}

-- `before` is the state before the trade was counted.
unfoldable pub log_trade : TokenState → TokenState → TradeObserved → ℤ → TokenState
log_trade before st trade t =
    let tick = tick_of before trade t in
    record st {
      first_amm_trade = if is_first_amm st then true else st.first_amm_trade;
      trade_log = log_tick st.trade_log tick;
      rolling = if is_hot st.memory_tier then push_all st.rolling t tick else st.rolling;
    }

-- The market as the trade leaves it, before the log.
unfoldable pub count_trade : TokenState → TradeObserved → StateOrder → ℤ → TokenState
count_trade st trade order t =
    let timed = note_times st trade t in
    let counted = if is_buy trade.side then count_buy timed trade else count_sell timed trade in
    update_market_from_trade (note_last counted trade order t) trade

unfoldable pub record_trade : TokenState → TradeObserved → StateOrder → ℤ → TokenState
record_trade st trade order t = log_trade st (count_trade st trade order t) trade t
