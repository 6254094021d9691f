-- ===== src/Domain/Events.antt =====
-- The canonical events of apps/engine/src/domain (token_discovered.rs, trade.rs, lifecycle.rs): the
-- fields that the state engine reads. Instants are unix milliseconds, an amount is the number that
-- its decimal string stands for, and the JSON metadata is a record of the values read from it.
use memecoin_bot.Base.{ℕ, String, Option}
use memecoin_bot.Base.Int.{ℤ}
use memecoin_bot.Domain.{Chain, Launchpad}

pub data TradeSide : Type 0 where
  buy sell : TradeSide

pub data CanonicalStatus : Type 0 where
  canonical orphaned : CanonicalStatus

pub record TokenDiscovered : Type 0 where
  pub chain : Chain
  pub token_address : String
  pub creator : String
  pub launchpad : Launchpad
  pub pool : Option String
  pub curve : Option String
  pub quote_asset : Option String
  pub block_number : Option ℕ
  pub slot : Option ℕ
  pub instruction_index : Option ℕ
  pub inner_instruction_index : Option ℕ
  pub log_index : Option ℕ
  pub chain_timestamp : Option ℤ
  pub observed_at : ℤ
  pub raw_event_id : String

-- What `update_market_from_trade` reads of the metadata of a trade.
pub record TradeMeta : Type 0 where
  pub virtual_token_reserves : Option ℕ
  pub virtual_sol_reserves : Option ℕ
  pub real_token_reserves : Option ℕ
  pub real_sol_reserves : Option ℕ
  pub sqrt_price_x96 : Option ℕ
  pub liquidity : Option ℕ
  pub tick : Option String
  pub amount0 : Option String
  pub amount1 : Option String

pub record TradeObserved : Type 0 where
  pub event_id : String
  pub chain : Chain
  pub launchpad : Launchpad
  pub token_address : String
  pub trader : String
  pub side : TradeSide
  pub base_amount_raw : ℕ
  pub quote_amount_raw : ℕ
  pub base_decimals : ℕ
  pub quote_decimals : ℕ
  pub quote_asset : String
  pub pool : Option String
  pub curve : Option String
  pub block_number : Option ℕ
  pub slot : Option ℕ
  pub transaction_index : Option ℕ
  pub log_index : Option ℕ
  pub instruction_index : Option ℕ
  pub inner_instruction_index : Option ℕ
  pub chain_timestamp : Option ℤ
  pub observed_at : ℤ
  pub raw_event_id : String
  pub metadata : TradeMeta

pub data LifecycleType : Type 0 where
  token_created migration_started migrated curve_completed : LifecycleType
  launch_swept pool_created pool_graduated snipe_tax_charged : LifecycleType

-- What `apply_lifecycle` and `apply_v4_meta` read of the metadata of a lifecycle event; a currency
-- that is there without being a text is `some none`.
pub record LifecycleMeta : Type 0 where
  pub graduation_threshold : Option ℕ
  pub amount : Option ℕ
  pub sqrt_price_x96 : Option ℕ
  pub tick : Option String
  pub currency0 : Option (Option String)
  pub currency1 : Option String

pub record LifecycleObserved : Type 0 where
  pub event_id : String
  pub chain : Chain
  pub launchpad : Launchpad
  pub token_address : String
  pub lifecycle_type : LifecycleType
  pub pool : Option String
  pub curve : Option String
  pub block_number : Option ℕ
  pub slot : Option ℕ
  pub transaction_index : Option ℕ
  pub log_index : Option ℕ
  pub instruction_index : Option ℕ
  pub inner_instruction_index : Option ℕ
  pub chain_timestamp : Option ℤ
  pub observed_at : ℤ
  pub raw_event_id : String
  pub metadata : LifecycleMeta

pub data CanonicalEvent : Type 0 where
  discovery : TokenDiscovered → CanonicalEvent
  trade : TradeObserved → CanonicalEvent
  lifecycle : LifecycleObserved → CanonicalEvent
