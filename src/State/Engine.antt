-- ===== src/State/Engine.antt =====
-- The state of apps/engine/src/state/engine.rs: tokens, indices and buffers. A `HashMap` is a list of
-- its entries, each key once, and a `HashSet` a list without repetitions.
pub mod Market
pub mod Wallet
pub mod Emit
pub mod Trade
pub mod Life
pub mod Apply
pub mod Feed
pub mod Frame
pub mod Ordering
pub mod History
pub mod Flush
pub mod Lift
pub mod Counted
pub mod Emission
mod Tests
use memecoin_bot.Base.{
  ℕ, ◌-◌, ◌*◌, ◌/◌, ◌^◌, String, Bool, false, ◌&&◌, ◌||◌, Option, none, some, List, [], ◌∷◌, leb,
  ◌==◌, if◌then◌else◌, eq_string, sat_mul, u32_max, min, i64_max,
}
use memecoin_bot.Base.Int.{ℤ, pos, negsuc}
use memecoin_bot.Domain.{Chain, solana, base, robinhood, eq_chain, Launchpad, QualityStatus}
use memecoin_bot.Domain.Events.{TradeSide, CanonicalStatus, CanonicalEvent, TradeObserved}
use memecoin_bot.Domain.Address.{normalize_address}
use memecoin_bot.State.Lifecycle.{TokenLifecycleState}
use memecoin_bot.State.Market.{MarketState}
use memecoin_bot.State.Rolling.{TradeTick, Counts, RollingWindows}
use memecoin_bot.State.Clock.{EngineClock, replay_clock, live_clock}
use memecoin_bot.State.Order.{StateOrder}
use memecoin_bot.State.Schedule.{
  SnapshotSchedule, MemoryPolicy, MemoryTier, default_research, default_memory,
}
use memecoin_bot.State.Snapshot.{TokenStateSnapshot}

pub record TokenKey : Type 0 where
  pub chain : Chain
  pub token : String

abbrev pub eq_key : TokenKey → TokenKey → Bool
eq_key a b = eq_chain a.chain b.chain && eq_string a.token b.token

-- Addresses are compared as they stand on Solana, and without case elsewhere.
unfoldable pub addr_key : Chain → String → String
addr_key solana value = value
addr_key base value = normalize_address value
addr_key robinhood value = normalize_address value

unfoldable pub new_key : Chain → String → TokenKey
new_key chain token = record { chain = chain; token = addr_key chain token }

abbrev pub is_empty_text : String → Bool
is_empty_text s = eq_string s ""

pub record TokenState : Type 0 where
  pub key : TokenKey
  pub launchpad : Launchpad
  pub creator : String
  pub discovered_at : ℤ
  pub first_trade_at : Option ℤ
  pub last_trade_at : Option ℤ
  pub lifecycle_state : TokenLifecycleState
  pub curve : Option String
  pub pool : Option String
  pub quote_asset : Option String
  pub quote_decimals : ℕ
  pub token_decimals : ℕ
  pub buy_count_total : ℕ
  pub sell_count_total : ℕ
  pub unique_buyers : List String
  pub unique_sellers : List String
  pub buyer_trade_counts : Counts
  pub seller_trade_counts : Counts
  pub trader_quote_volume : Counts
  pub last_buy_at : Option ℤ
  pub last_sell_at : Option ℤ
  pub creator_last_sell_at : Option ℤ
  pub buy_quote_volume_raw_total : ℕ
  pub sell_quote_volume_raw_total : ℕ
  pub buy_token_volume_raw_total : ℕ
  pub sell_token_volume_raw_total : ℕ
  pub creator_buy_count : ℕ
  pub creator_sell_count : ℕ
  pub creator_buy_quote_raw : ℕ
  pub creator_sell_quote_raw : ℕ
  pub last_trade_side : Option TradeSide
  pub last_trade_token_raw : Option ℕ
  pub last_trade_quote_raw : Option ℕ
  pub market_state : MarketState
  pub last_event_order : Option StateOrder
  pub last_event_time : Option ℤ
  pub last_event_id : Option String
  pub last_block : Option ℤ
  pub last_slot : Option ℤ
  pub canonical_status : CanonicalStatus
  pub data_quality : QualityStatus
  pub snapshot_version : ℕ
  pub last_emitted_snapshot_ms : ℤ
  pub emitted_milestones : List ℤ
  pub launch_swept_at : Option ℤ
  pub launch_swept_block : Option ℕ
  pub pool_graduated_at : Option ℤ
  pub pool_graduated_block : Option ℕ
  pub graduation_gap_ms : Option ℤ
  pub graduation_threshold_raw : Option ℕ
  pub snipe_tax_events_total : ℕ
  pub latest_snipe_tax_amount : Option ℕ
  pub baseline_virtual_token : Option ℕ
  pub curve_progress_bps : Option ℕ
  pub graduation_progress_bps : Option ℕ
  pub rolling : RollingWindows
  pub trade_log : List TradeTick
  pub memory_tier : MemoryTier
  pub late_events : ℕ
  pub first_amm_trade : Bool

abbrev pub AddressIndex : Type 0
AddressIndex = List ((Chain × String) × TokenKey)

-- `unresolved_trades` holds the order, the trade and its time.
pub record StateEngine : Type 0 where
  pub clock : EngineClock
  pub schedule : SnapshotSchedule
  pub memory : MemoryPolicy
  pub source_quality : QualityStatus
  pub source_session_id : Option ℤ
  pub tokens : List TokenState
  pub by_curve : AddressIndex
  pub by_pool : AddressIndex
  pub reorder : List (StateOrder × CanonicalEvent)
  pub last_applied : Option StateOrder
  pub late_events : ℕ
  pub rebuilds : ℕ
  pub evictions : ℕ
  pub pending_rebuilds : List TokenKey
  pub snapshot_buffer : List TokenStateSnapshot
  pub history : List TokenStateSnapshot
  pub unresolved_trades : List (StateOrder × TradeObserved × ℤ)

unfoldable pub new_engine : EngineClock → QualityStatus → Option ℤ → StateEngine
new_engine clock quality session_id = record {
  clock = clock;
  schedule = default_research;
  memory = default_memory;
  source_quality = quality;
  source_session_id = session_id;
  tokens = [];
  by_curve = [];
  by_pool = [];
  reorder = [];
  last_applied = none;
  late_events = 0;
  rebuilds = 0;
  evictions = 0;
  pending_rebuilds = [];
  snapshot_buffer = [];
  history = [];
  unresolved_trades = [];
}

unfoldable pub replay_engine : QualityStatus → Option ℤ → StateEngine
replay_engine quality session_id = new_engine replay_clock quality session_id

unfoldable pub live_engine : ℤ → QualityStatus → Option ℤ → StateEngine
live_engine wall quality session_id = new_engine (live_clock wall) quality session_id

abbrev pub find_token : TokenKey → List TokenState → Option TokenState
find_token key [] = none
find_token key (st ∷ rest) = if eq_key st.key key then some st else find_token key rest

-- The entry of a token is written back under its key.
abbrev pub put_token : TokenState → List TokenState → List TokenState
put_token st [] = st ∷ []
put_token st (x ∷ rest) = if eq_key x.key st.key then st ∷ rest else x ∷ put_token st rest

abbrev pub remove_token : TokenKey → List TokenState → List TokenState
remove_token key [] = []
remove_token key (st ∷ rest) = if eq_key st.key key then rest else st ∷ remove_token key rest

abbrev pub find_address : Chain → String → AddressIndex → Option TokenKey
find_address chain address [] = none
find_address chain address (((c, a), key) ∷ rest) =
    if eq_chain c chain && eq_string a address then some key else find_address chain address rest

abbrev pub put_address : Chain → String → TokenKey → AddressIndex → AddressIndex
put_address chain address key [] = ((chain, address), key) ∷ []
put_address chain address key (((c, a), k) ∷ rest) =
    if eq_chain c chain && eq_string a address
    then ((c, a), key) ∷ rest
    else ((c, a), k) ∷ put_address chain address key rest

abbrev pub contains_text : String → List String → Bool
contains_text t [] = false
contains_text t (x ∷ xs) = eq_string x t || contains_text t xs

abbrev pub insert_text : String → List String → List String
insert_text t xs = if contains_text t xs then xs else t ∷ xs

abbrev pub insert_key : TokenKey → List TokenKey → List TokenKey
insert_key key [] = key ∷ []
insert_key key (k ∷ ks) = if eq_key k key then k ∷ ks else k ∷ insert_key key ks

-- `v as i64` of a `u64`.
unfoldable pub as_i64 : ℕ → ℤ
as_i64 v = if leb v i64_max then pos v else negsuc (2 ^ 64 - 1 - v)

abbrev pub block_of : Option ℕ → Option ℤ
block_of none = none
block_of (some v) = some (as_i64 v)

-- `ratio_bps` of state/amt.rs.
unfoldable pub ratio_bps : ℕ → ℕ → Option ℕ
ratio_bps numer denom =
    if denom == 0 then none else some (min (sat_mul numer 10_000 / denom) 10_000)

unfoldable pub ratio_bps_u64 : ℕ → ℕ → Option ℕ
ratio_bps_u64 n d = if d == 0 then none else some (min (n * 10_000 / d) u32_max)

abbrev pub or_text : Option String → Option String → Option String
or_text none b = b
or_text (some a) b = some a
