-- ===== src/State/Snapshot.antt =====
-- `TokenStateSnapshot` of apps/engine/src/state/snapshot.rs, without its fingerprint, which is a digest
-- of other fields, and without `created_at`, the wall clock of the write. `snapshot_time` is in unix
-- milliseconds, and `as_of_event_order` is the order that its text encodes.
use memecoin_bot.Base.{ℕ, String, Bool, Option, none}
use memecoin_bot.Base.Int.{ℤ}
use memecoin_bot.Domain.{Chain, Launchpad, QualityStatus, Finality}
use memecoin_bot.Domain.Events.{TradeSide, CanonicalStatus}
use memecoin_bot.State.Lifecycle.{TokenLifecycleState}
use memecoin_bot.State.Market.{MarketState}
use memecoin_bot.State.Order.{StateOrder}
use memecoin_bot.State.Rolling.Report.{RollingWindowSnapshot}

pub data SnapshotKind : Type 0 where
  periodic milestone lifecycle : SnapshotKind

-- What is missing is unknown.
pub record WalletSnapshot : Type 0 where
  pub unique_traders_total : Option ℕ
  pub repeat_buyer_count : Option ℕ
  pub mean_buys_per_buyer_milli : Option ℕ
  pub median_buys_per_buyer : Option ℕ
  pub last_buy_age_ms : Option ℤ
  pub last_sell_age_ms : Option ℤ
  pub last_trade_age_ms : Option ℤ
  pub creator_last_sell_age_ms : Option ℤ
  pub top_trader_trade_share_bps : Option ℕ
  pub top_trader_volume_share_bps : Option ℕ

abbrev pub no_wallet : WalletSnapshot
no_wallet = record {
  unique_traders_total = none;
  repeat_buyer_count = none;
  mean_buys_per_buyer_milli = none;
  median_buys_per_buyer = none;
  last_buy_age_ms = none;
  last_sell_age_ms = none;
  last_trade_age_ms = none;
  creator_last_sell_age_ms = none;
  top_trader_trade_share_bps = none;
  top_trader_volume_share_bps = none;
}

pub record TokenStateSnapshot : Type 0 where
  pub id : Option ℤ
  pub chain : Chain
  pub token_address : String
  pub launchpad : Launchpad
  pub snapshot_time : ℤ
  pub age_ms : ℤ
  pub snapshot_kind : SnapshotKind
  pub lifecycle_trigger : Option String
  pub lifecycle_state : TokenLifecycleState
  pub quote_asset : Option String
  pub buy_count_total : ℕ
  pub sell_count_total : ℕ
  pub unique_buyers_total : ℕ
  pub unique_sellers_total : ℕ
  pub buy_quote_volume_raw_total : ℕ
  pub sell_quote_volume_raw_total : ℕ
  pub buy_token_volume_raw_total : ℕ
  pub sell_token_volume_raw_total : ℕ
  pub creator_buy_count : ℕ
  pub creator_sell_count : ℕ
  pub creator_buy_quote_raw : ℕ
  pub creator_sell_quote_raw : ℕ
  pub last_trade_side : Option TradeSide
  pub last_trade_token_raw : Option ℕ
  pub last_trade_quote_raw : Option ℕ
  pub last_trade_token_decimals : Option ℕ
  pub last_trade_quote_decimals : Option ℕ
  pub curve_progress_bps : Option ℕ
  pub graduation_progress_bps : Option ℕ
  pub market_state_type : String
  pub market_state : MarketState
  pub rolling_5s : RollingWindowSnapshot
  pub rolling_15s : RollingWindowSnapshot
  pub rolling_30s : RollingWindowSnapshot
  pub rolling_60s : RollingWindowSnapshot
  pub rolling_120s : RollingWindowSnapshot
  pub rolling_300s : RollingWindowSnapshot
  pub rolling_900s : RollingWindowSnapshot
  pub as_of_event_id : Option String
  pub as_of_block : Option ℤ
  pub as_of_slot : Option ℤ
  pub as_of_event_order : Option StateOrder
  pub data_quality : QualityStatus
  pub source_session_id : Option ℤ
  pub canonical_status : CanonicalStatus
  pub finality : Finality
  pub version : ℕ
  pub superseded : Bool
  pub wallet : WalletSnapshot
