-- ===== src/State/Engine/Tests.antt =====
-- The engine of apps/engine/src/state/engine.rs on a token with a few trades.
use memecoin_bot.Base.{
  ℕ, ◌≤◌, ◌≡◌, refl, String, false, ◌&&◌, none, some, List, [], ◌∷◌, ◌++◌, map, arith, All, length,
  eq_string, u256_max,
}
use memecoin_bot.Base.Int.{ℤ, pos, negsuc, ◌+ℤ◌, ◌-ℤ◌}
use memecoin_bot.Domain.{solana, pump_fun, live_complete}
use memecoin_bot.Domain.Events.{
  TokenDiscovered, TradeMeta, TradeObserved, CanonicalEvent, discovery, trade, TradeSide, buy, sell,
}
use memecoin_bot.State.Clock.{live, clock_now, advance_to}
use memecoin_bot.State.Order.{from_canonical, from_token, from_trade, ltb_order}
use memecoin_bot.State.Schedule.{
  sat_add_ms, band_from, band_start, band_times, all_band_times, milestone_times, due_times,
  default_research, contains_time,
}
use memecoin_bot.State.Schedule.Grid.{is_due_at}
use memecoin_bot.State.Schedule.Due.{FitsInI64, IsIncreasing, on_schedule, due_times_lem}
use memecoin_bot.State.Lifecycle.{initial}
use memecoin_bot.State.Engine.{TokenKey, TokenState, StateEngine, new_engine, new_key, addr_key}
use memecoin_bot.State.Engine.Market.{update_market_from_trade, on_pool_trade}
use memecoin_bot.State.Engine.Emit.{
  mark_emitted, push_snapshot, due_kind, emit_due_snapshots, emit_lifecycle_snapshot,
}
use memecoin_bot.State.Engine.Trade.{
  is_creator, note_times, count_buy, count_sell, note_last, log_trade, count_trade, record_trade,
}
use memecoin_bot.State.Engine.Apply.{
  new_token, note_discovery, write_back, resolve, apply_discovered, trade_on, known_or, trade_at,
  apply_trade, flush_one, flush_each, flush_nested, flush_unresolved_trades,
}
use memecoin_bot.State.Engine.Feed.{
  event_time, token_key_of, due_key, apply_in_order, flush_entries, flush_reorder, push_event,
}
use memecoin_bot.State.Engine.Ordering.{IsHeld, AppliesInOrder}
use memecoin_bot.State.Engine.History.{EngineStep, pushed, after_steps, after_steps-AppliesInOrder}
use memecoin_bot.State.Engine.Flush.{waiting, flush_unresolved_trades_lem}
use memecoin_bot.State.Engine.Counted.{IsCounted}
use memecoin_bot.State.Engine.Counted.Traded.{after_steps-IsCounted}
use memecoin_bot.State.Engine.Emission.{IsEmitted, emit_due_snapshots-IsEmitted}

abbrev no_meta : TradeMeta
no_meta = record {
  virtual_token_reserves = none;
  virtual_sol_reserves = none;
  real_token_reserves = none;
  real_sol_reserves = none;
  sqrt_price_x96 = none;
  liquidity = none;
  tick = none;
  amount0 = none;
  amount1 = none;
}

abbrev launch : TokenDiscovered
launch = record {
  chain = solana;
  token_address = "mint";
  creator = "dev";
  launchpad = pump_fun;
  pool = none;
  curve = some "curve";
  quote_asset = some "sol";
  block_number = none;
  slot = some 100;
  instruction_index = some 0;
  inner_instruction_index = none;
  log_index = none;
  chain_timestamp = some (pos 1_000_000);
  observed_at = pos 1_000_200;
  raw_event_id = "launch";
}

-- A trade in a slot: who, which side, how much, and when.
abbrev deal : String → ℕ → String → TradeSide → ℕ → ℕ → TradeObserved
deal token slot trader side quote time = record {
  event_id = "deal";
  chain = solana;
  launchpad = pump_fun;
  token_address = token;
  trader = trader;
  side = side;
  base_amount_raw = 5_000;
  quote_amount_raw = quote;
  base_decimals = 6;
  quote_decimals = 9;
  quote_asset = "sol";
  pool = none;
  curve = some "curve";
  block_number = none;
  slot = some slot;
  transaction_index = some 1;
  log_index = none;
  instruction_index = some 0;
  inner_instruction_index = none;
  chain_timestamp = some (pos time);
  observed_at = pos time;
  raw_event_id = "deal";
  metadata = no_meta;
}

-- A trade of a slot that has passed comes after a later one.
abbrev steps : List EngineStep
steps =
    pushed (pos 1_000_300) (discovery launch)
    ∷ pushed (pos 1_001_000) (trade (deal "mint" 101 "dev" buy 70 1_001_000))
    ∷ pushed (pos 1_007_000) (trade (deal "mint" 110 "ann" buy 30 1_007_000))
    ∷ pushed (pos 1_007_500) (trade (deal "mint" 105 "bob" buy 20 1_004_000))
    ∷ []

abbrev engine : StateEngine
engine = after_steps (new_engine (live (pos 1_000_000)) live_complete none) steps

abbrev last_deal : CanonicalEvent
last_deal = trade (deal "" 112 "ann" sell 10 1_016_000)

after_steps-AppliesInOrder_example : IsHeld engine × AppliesInOrder (pos 1_016_000) engine last_deal
after_steps-AppliesInOrder_example =
    after_steps-AppliesInOrder (live (pos 1_000_000)) live_complete none steps (pos 1_016_000)
      last_deal

after_steps-IsCounted_example : All IsCounted engine.tokens
after_steps-IsCounted_example =
    after_steps-IsCounted (live (pos 1_000_000)) live_complete none steps

-- Trades that name only a curve wait until the launch is known.
abbrev waiting_engine : StateEngine
waiting_engine = after_steps (new_engine (live (pos 1_000_000)) live_complete none) (
    pushed (pos 1_001_000) (trade (deal "" 101 "ann" buy 70 1_001_000))
    ∷ pushed (pos 1_002_000) (trade (deal "" 102 "bob" buy 30 1_002_000))
    ∷ [])

flush_unresolved_trades_lem_example :
    (flush_unresolved_trades (pos 1_003_000) waiting_engine
      ≡ flush_each
          (pos 1_003_000)
          (flush_unresolved_trades (pos 1_003_000))
          (record waiting_engine { unresolved_trades = [] })
          waiting_engine.unresolved_trades)
    × (waiting (flush_unresolved_trades (pos 1_003_000) waiting_engine) ≤ waiting waiting_engine)
flush_unresolved_trades_lem_example = flush_unresolved_trades_lem (pos 1_003_000) waiting_engine

-- How many events are held, and then of each token its buys, its buyers and what its creator bought for.
abbrev view : StateEngine → List ℕ
view e =
    length e.reorder
    ∷ length e.history
    ∷ flatten (
        map
          (λ (st : TokenState).
            st.buy_count_total ∷ length st.unique_buyers ∷ st.creator_buy_quote_raw ∷ [])
          e.tokens)
  where
    flatten : List (List ℕ) → List ℕ
    flatten [] = []
    flatten (xs ∷ xss) = xs ++ flatten xss

-- Two trades and the launch are in order, and one trade is held.
engine-view : view engine ≡ 1 ∷ 3 ∷ 2 ∷ 2 ∷ 70 ∷ []
unfolding new_engine push_event apply_in_order flush_reorder flush_entries apply_discovered
    apply_trade trade_at known_or trade_on flush_unresolved_trades flush_nested flush_one resolve
    record_trade count_trade log_trade note_times count_buy count_sell note_last
    update_market_from_trade on_pool_trade emit_due_snapshots emit_lifecycle_snapshot push_snapshot
    mark_emitted write_back note_discovery new_token new_key addr_key from_canonical from_token
    from_trade ltb_order event_time due_key token_key_of advance_to clock_now due_times
    all_band_times band_times band_start band_from sat_add_ms ◌+ℤ◌ ◌-ℤ◌ milestone_times due_kind
    eq_string is_creator initial u256_max
engine-view = refl

default_fits :
    (discovered from : ℕ)
    → discovered ≤ 1_000_000
    → from ≤ 2_000_000
    → FitsInI64 default_research discovered from
default_fits discovered from h k = record { milestones_fit = omega arith; bands_fit = omega arith }

due_times_lem_example :
    (ts : List ℤ) × (due_times default_research (pos 1_000_000) (pos 1_007_000) (pos 1_016_000)
      ≡ some ts)
    × IsIncreasing ts
    × ((n : ℕ)
        → contains_time (pos n) ts
          ≡ (is_due_at 1_007_000 1_016_000 n && on_schedule default_research 1_000_000 n))
    × ((n : ℕ) → contains_time (negsuc n) ts ≡ false)
due_times_lem_example =
    due_times_lem default_research 1_000_000 1_007_000 1_016_000
      (default_fits 1_000_000 1_007_000 (omega arith) (omega arith))

due_times_run :
    due_times default_research (pos 1_000_000) (pos 1_007_000) (pos 1_016_000)
    ≡ some (pos 1_010_000 ∷ pos 1_015_000 ∷ [])
unfolding due_times milestone_times all_band_times band_times band_start band_from sat_add_ms ◌+ℤ◌
    ◌-ℤ◌
due_times_run = refl

abbrev mint : TokenKey
mint = record { chain = solana; token = "mint" }

abbrev empty_engine : StateEngine
empty_engine = new_engine (live (pos 1_000_000)) live_complete none

abbrev fresh_token : TokenState
fresh_token = record (new_token empty_engine mint launch (from_token launch 0) (pos 1_000_000)) {
  key = mint;
  discovered_at = pos 1_000_000;
  last_emitted_snapshot_ms = pos 1_007_000;
  emitted_milestones = pos 5_000 ∷ [];
}

abbrev known_engine : StateEngine
known_engine = record empty_engine { tokens = fresh_token ∷ []; schedule = default_research }

emit_due_snapshots-IsEmitted_example :
    (ts : List ℤ) × IsEmitted mint
      (pos 1_000_000)
      (pos 5_000 ∷ [])
      ts
      known_engine
      (emit_due_snapshots known_engine mint (pos 1_016_000))
    × IsIncreasing ts
    × ((n : ℕ)
        → contains_time (pos n) ts
          ≡ (is_due_at 1_007_000 1_016_000 n && on_schedule default_research 1_000_000 n))
    × ((n : ℕ) → contains_time (negsuc n) ts ≡ false)
unfolding eq_string
emit_due_snapshots-IsEmitted_example =
    emit_due_snapshots-IsEmitted known_engine mint fresh_token 1_000_000 1_007_000 1_016_000 refl
      refl refl (default_fits 1_000_000 1_007_000 (omega arith) (omega arith))
