-- ===== src/State/Engine/Apply.antt =====
-- How an event is applied to the engine: `apply_discovered`, `apply_trade`, `apply_lifecycle`,
-- `flush_unresolved_trades` and the resolution of addresses, of apps/engine/src/state/engine.rs.
-- These functions call one another through the flush: a call takes the flush that it makes as an
-- argument, and the flush counts how deep it is nested.
use memecoin_bot.Base.{
  ℕ, zero, suc, String, Bool, true, false, not, Option, none, some, List, [], ◌∷◌, ◌++◌,
  if◌then◌else◌, length,
}
use memecoin_bot.Base.Int.{ℤ}
use memecoin_bot.Domain.{Chain, Launchpad}
use memecoin_bot.Domain.Events.{
  TokenDiscovered, TradeObserved, LifecycleObserved, LifecycleType, snipe_tax_charged, canonical,
}
use memecoin_bot.State.Lifecycle
use memecoin_bot.State.Lifecycle.{initial}
use memecoin_bot.State.Market.{MarketState, partial}
use memecoin_bot.State.Rolling.{new_windows}
use memecoin_bot.State.Order.{StateOrder}
use memecoin_bot.State.Schedule.{hot}
use memecoin_bot.State.Engine.{
  TokenKey, TokenState, StateEngine, AddressIndex, new_key, addr_key, is_empty_text, find_token,
  put_token, find_address, put_address, block_of, or_text,
}
use memecoin_bot.State.Engine.Market.{is_some, or_some, default_curve, default_product, default_v4}
use memecoin_bot.State.Engine.Emit.{emit_lifecycle_snapshot}
use memecoin_bot.State.Engine.Trade.{count_trade, record_trade, is_first_amm}
use memecoin_bot.State.Engine.Life.{record_life, trigger_of}

unfoldable pub initial_market : TokenDiscovered → Launchpad → MarketState
initial_market tok Launchpad.pump_fun = MarketState.bonding_curve default_curve
initial_market tok Launchpad.pons_v2 = MarketState.bonding_curve default_curve
initial_market tok Launchpad.clanker_v4 =
    MarketState.uniswap_v4 (record default_v4 { pool_id = tok.pool; quote_asset = tok.quote_asset })
initial_market tok Launchpad.pump_swap = MarketState.constant_product (record default_product {
  pool = tok.pool;
  token = some tok.token_address;
  quote_asset = tok.quote_asset;
  quality = partial;
})
initial_market tok Launchpad.unknown = MarketState.unknown

abbrev pub or_time : Option ℤ → ℤ → ℤ
or_time none t = t
or_time (some d) t = d

-- The state of a token that has just been discovered.
unfoldable pub new_token : StateEngine → TokenKey → TokenDiscovered → StateOrder → ℤ → TokenState
new_token e key tok order t = record {
  key = key;
  launchpad = tok.launchpad;
  creator = tok.creator;
  discovered_at = or_time tok.chain_timestamp t;
  first_trade_at = none;
  last_trade_at = none;
  lifecycle_state = initial tok.launchpad;
  curve = tok.curve;
  pool = tok.pool;
  quote_asset = tok.quote_asset;
  quote_decimals = 9;
  token_decimals = 6;
  buy_count_total = 0;
  sell_count_total = 0;
  unique_buyers = [];
  unique_sellers = [];
  buyer_trade_counts = [];
  seller_trade_counts = [];
  trader_quote_volume = [];
  last_buy_at = none;
  last_sell_at = none;
  creator_last_sell_at = none;
  buy_quote_volume_raw_total = 0;
  sell_quote_volume_raw_total = 0;
  buy_token_volume_raw_total = 0;
  sell_token_volume_raw_total = 0;
  creator_buy_count = 0;
  creator_sell_count = 0;
  creator_buy_quote_raw = 0;
  creator_sell_quote_raw = 0;
  last_trade_side = none;
  last_trade_token_raw = none;
  last_trade_quote_raw = none;
  market_state = initial_market tok tok.launchpad;
  last_event_order = some order;
  last_event_time = some t;
  last_event_id = some tok.raw_event_id;
  last_block = block_of tok.block_number;
  last_slot = block_of tok.slot;
  canonical_status = canonical;
  data_quality = e.source_quality;
  snapshot_version = 1;
  last_emitted_snapshot_ms = or_time tok.chain_timestamp t;
  emitted_milestones = [];
  launch_swept_at = none;
  launch_swept_block = none;
  pool_graduated_at = none;
  pool_graduated_block = none;
  graduation_gap_ms = none;
  graduation_threshold_raw = none;
  snipe_tax_events_total = 0;
  latest_snipe_tax_amount = none;
  baseline_virtual_token = none;
  curve_progress_bps = none;
  graduation_progress_bps = none;
  rolling = new_windows;
  trade_log = [];
  memory_tier = hot;
  late_events = 0;
  first_amm_trade = false;
}

abbrev decimals_18 : Launchpad → Bool
decimals_18 Launchpad.clanker_v4 = true
decimals_18 Launchpad.pons_v2 = true
decimals_18 _ = false

abbrev is_clanker : Launchpad → Bool
is_clanker Launchpad.clanker_v4 = true
is_clanker _ = false

abbrev pub known_state : TokenState → Option TokenState → TokenState
known_state fresh none = fresh
known_state fresh (some old) = old

-- What a discovery adds to the state of its token, new or not.
unfoldable pub note_discovery : TokenState → TokenDiscovered → StateOrder → ℤ → TokenState
note_discovery st tok order t = record st {
  creator = if is_empty_text st.creator then tok.creator else st.creator;
  curve = or_text st.curve tok.curve;
  pool = or_text st.pool tok.pool;
  quote_asset = or_text st.quote_asset tok.quote_asset;
  last_event_order = some order;
  last_event_time = some t;
  last_event_id = some tok.raw_event_id;
  last_block = block_of tok.block_number;
  last_slot = block_of tok.slot;
  lifecycle_state = if is_clanker tok.launchpad then Lifecycle.amm_active else st.lifecycle_state;
  token_decimals = if decimals_18 tok.launchpad then 18 else st.token_decimals;
  quote_decimals = if decimals_18 tok.launchpad then 18 else st.quote_decimals;
}

abbrev index_one : Chain → Option String → TokenKey → AddressIndex → AddressIndex
index_one chain none key index = index
index_one chain (some a) key index = put_address chain (addr_key chain a) key index

-- The state of a token is written back, and its addresses lead to it.
unfoldable pub write_back : StateEngine → TokenState → TokenKey → StateEngine
write_back e st key = record e {
  tokens = put_token st e.tokens;
  by_curve = index_one key.chain st.curve key e.by_curve;
  by_pool = index_one key.chain st.pool key e.by_pool;
}

abbrev lookup_one : Chain → Option String → AddressIndex → Option TokenKey
lookup_one chain none index = none
lookup_one chain (some a) index = find_address chain (addr_key chain a) index

unfoldable pub resolve :
    StateEngine → Chain → String → Option String → Option String → Option TokenKey
resolve e chain token curve pool =
    if not (is_empty_text token)
    then some (new_key chain token)
    else or_some (lookup_one chain curve e.by_curve) (lookup_one chain pool e.by_pool)

abbrev pub resolve_trade : StateEngine → TradeObserved → Option TokenKey
resolve_trade e trade = resolve e trade.chain trade.token_address trade.curve trade.pool

abbrev pub resolve_life : StateEngine → LifecycleObserved → Option TokenKey
resolve_life e life = resolve e life.chain life.token_address life.curve life.pool

-- The discovery that a trade of an unknown token stands for.
unfoldable pub token_of_trade : TradeObserved → TokenKey → TokenDiscovered
token_of_trade trade key = record {
  chain = trade.chain;
  token_address = key.token;
  creator = "";
  launchpad = trade.launchpad;
  pool = trade.pool;
  curve = trade.curve;
  quote_asset = some trade.quote_asset;
  block_number = trade.block_number;
  slot = trade.slot;
  instruction_index = trade.instruction_index;
  inner_instruction_index = trade.inner_instruction_index;
  log_index = trade.log_index;
  chain_timestamp = trade.chain_timestamp;
  observed_at = trade.observed_at;
  raw_event_id = trade.raw_event_id;
}

unfoldable pub token_of_life : LifecycleObserved → TokenKey → TokenDiscovered
token_of_life life key = record {
  chain = life.chain;
  token_address = key.token;
  creator = "";
  launchpad = life.launchpad;
  pool = life.pool;
  curve = life.curve;
  quote_asset = none;
  block_number = life.block_number;
  slot = life.slot;
  instruction_index = life.instruction_index;
  inner_instruction_index = life.inner_instruction_index;
  log_index = life.log_index;
  chain_timestamp = life.chain_timestamp;
  observed_at = life.observed_at;
  raw_event_id = life.raw_event_id;
}

abbrev pub is_snipe_tax : LifecycleType → Bool
is_snipe_tax snipe_tax_charged = true
is_snipe_tax _ = false

module _ (wall : ℤ) where
  -- `flush` is the call of `flush_unresolved_trades` at the end.
  unfoldable pub apply_discovered :
      (StateEngine → StateEngine) → StateEngine → TokenDiscovered → StateOrder → ℤ → StateEngine
  apply_discovered flush e tok order t =
      let key = new_key tok.chain tok.token_address in
      let known = find_token key e.tokens in
      let st = known_state (new_token e key tok order t) known in
      let written = write_back e (note_discovery st tok order t) key in
      if is_empty_text tok.token_address
      then e
      else flush (
          if is_some known
          then written
          else emit_lifecycle_snapshot wall written key "TOKEN_CREATED")

  -- A trade on a token that is there.
  unfoldable pub trade_on :
      StateEngine → TokenKey → TradeObserved → StateOrder → ℤ → Option TokenState → StateEngine
  trade_on e key trade order t none = e
  trade_on e key trade order t (some st) =
      let written = record e { tokens = put_token (record_trade st trade order t) e.tokens } in
      let first =
        if is_some st.first_trade_at
        then written
        else emit_lifecycle_snapshot wall written key "FIRST_TRADE" in
      if is_first_amm (count_trade st trade order t)
      then emit_lifecycle_snapshot wall first key "AMM_FIRST_TRADE"
      else first

  -- The token is made known first where it is not.
  unfoldable pub known_or :
      (StateEngine → StateEngine)
      → StateEngine
      → TokenKey
      → TokenDiscovered
      → StateOrder
      → ℤ
      → StateEngine
  known_or flush e key tok order t =
      if is_some (find_token key e.tokens) then e else apply_discovered flush e tok order t

  unfoldable pub trade_at :
      (StateEngine → StateEngine)
      → StateEngine
      → TradeObserved
      → StateOrder
      → ℤ
      → Option TokenKey
      → StateEngine
  trade_at flush e trade order t none = record e {
    unresolved_trades = e.unresolved_trades ++ (order, trade, t) ∷ [];
  }
  trade_at flush e trade order t (some key) =
      let known = known_or flush e key (token_of_trade trade key) order t in
      trade_on known key trade order t (find_token key known.tokens)

  unfoldable pub apply_trade :
      (StateEngine → StateEngine) → StateEngine → TradeObserved → StateOrder → ℤ → StateEngine
  apply_trade flush e trade order t = trade_at flush e trade order t (resolve_trade e trade)

  -- A trade that resolves is applied, another waits on.
  unfoldable pub flush_one :
      (StateEngine → StateEngine) → StateEngine → StateOrder × TradeObserved × ℤ → StateEngine
  flush_one flush e (order, trade, t) =
      if is_some (resolve_trade e trade)
      then apply_trade flush e trade order t
      else record e { unresolved_trades = e.unresolved_trades ++ (order, trade, t) ∷ [] }

  -- The loop of the flush over the trades taken.
  abbrev pub flush_each :
      (StateEngine → StateEngine)
      → StateEngine
      → List (StateOrder × TradeObserved × ℤ)
      → StateEngine
  flush_each flush e [] = e
  flush_each flush e (x ∷ pending) = flush_each flush (flush_one flush e x) pending

  -- Each nested flush has at least one trade less.
  unfoldable pub flush_nested : ℕ → StateEngine → StateEngine
  flush_nested zero e = e
  flush_nested (suc depth) e =
      flush_each (flush_nested depth) (record e { unresolved_trades = [] }) e.unresolved_trades

  unfoldable pub flush_unresolved_trades : StateEngine → StateEngine
  flush_unresolved_trades e = flush_nested (length e.unresolved_trades) e

  unfoldable pub life_on :
      StateEngine → TokenKey → LifecycleObserved → StateOrder → ℤ → Option TokenState → StateEngine
  life_on e key life order t none = e
  life_on e key life order t (some st) =
      let written = write_back e (record_life st life order t) key in
      flush_unresolved_trades (
        if is_snipe_tax life.lifecycle_type
        then written
        else emit_lifecycle_snapshot wall written key (trigger_of life.lifecycle_type))

  unfoldable pub life_at :
      StateEngine → LifecycleObserved → StateOrder → ℤ → Option TokenKey → StateEngine
  life_at e life order t none = e
  life_at e life order t (some key) =
      let known =
        if is_empty_text life.token_address
        then e
        else known_or flush_unresolved_trades e key (token_of_life life key) order t in
      life_on known key life order t (find_token key known.tokens)

  unfoldable pub apply_lifecycle : StateEngine → LifecycleObserved → StateOrder → ℤ → StateEngine
  apply_lifecycle e life order t = life_at e life order t (resolve_life e life)
