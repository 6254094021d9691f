-- ===== src/State/Engine/Life.antt =====
-- What a lifecycle event does to the state of its token: the middle of `apply_lifecycle` of
-- apps/engine/src/state/engine.rs.
use memecoin_bot.Base.{◌+◌, String, Bool, true, false, Option, none, some, if◌then◌else◌, ℕ}
use memecoin_bot.Base.Int.{ℤ, ◌-ℤ◌}
use memecoin_bot.Domain.{Launchpad}
use memecoin_bot.Domain.Events.{
  LifecycleObserved, LifecycleType, token_created, migration_started, migrated, curve_completed,
  launch_swept, pool_created, pool_graduated, snipe_tax_charged,
}
use memecoin_bot.State.Lifecycle
use memecoin_bot.State.Lifecycle.{TokenLifecycleState}
use memecoin_bot.State.Market.{MarketState, partial}
use memecoin_bot.State.Order.{StateOrder}
use memecoin_bot.State.Engine.{TokenState, or_text, block_of, ratio_bps}
use memecoin_bot.State.Engine.Market.{or_some, default_product, apply_v4_meta}

abbrev pub trigger_of : LifecycleType → String
trigger_of token_created = "TOKEN_CREATED"
trigger_of migration_started = "MIGRATION_STARTED"
trigger_of migrated = "MIGRATED"
trigger_of curve_completed = "CURVE_COMPLETED"
trigger_of launch_swept = "LAUNCH_SWEPT"
trigger_of pool_created = "POOL_CREATED"
trigger_of pool_graduated = "POOL_GRADUATED"
trigger_of snipe_tax_charged = "SNIPE_TAX_CHARGED"

abbrev is_clanker : Launchpad → Bool
is_clanker Launchpad.clanker_v4 = true
is_clanker _ = false

abbrev pub is_pump : Launchpad → Bool
is_pump Launchpad.pump_fun = true
is_pump Launchpad.pump_swap = true
is_pump _ = false

-- A pool opens a constant product market of partial quality.
unfoldable pub with_pool : TokenState → Option String → TokenState
with_pool st none = st
with_pool st (some pool) = record st {
  pool = some pool;
  market_state = MarketState.constant_product (record default_product {
    pool = some pool;
    token = some st.key.token;
    quote_asset = st.quote_asset;
    quality = partial;
  });
}

-- A Uniswap market stays as it is.
abbrev pub pool_on : TokenState → Option String → MarketState → TokenState
pool_on st pool (MarketState.uniswap_v4 s) = record st { pool = or_text pool st.pool }
pool_on st pool _ = with_pool st pool

unfoldable pub on_pool_created : TokenState → LifecycleObserved → TokenState
on_pool_created st life =
    let opened =
      if is_pump st.launchpad
      then record st { lifecycle_state = Lifecycle.amm_active; launchpad = Launchpad.pump_swap }
      else st in
    apply_v4_meta (pool_on opened life.pool opened.market_state) life.metadata

abbrev gap_between : Option ℤ → ℤ → Option ℤ → Option ℤ
gap_between none t old = old
gap_between (some swept) t old = some (t -ℤ swept)

unfoldable pub on_pool_graduated : TokenState → LifecycleObserved → ℤ → TokenState
on_pool_graduated st life t =
    apply_v4_meta
      (record st {
        lifecycle_state = Lifecycle.amm_active;
        pool_graduated_at = some t;
        pool_graduated_block = life.block_number;
        graduation_gap_ms = gap_between st.launch_swept_at t st.graduation_gap_ms;
      })
      life.metadata

-- The match on the type of the event.
unfoldable pub on_type : LifecycleType → TokenState → LifecycleObserved → ℤ → TokenState
on_type token_created st life t = record st {
  lifecycle_state = if is_clanker st.launchpad then Lifecycle.amm_active else st.lifecycle_state;
  graduation_threshold_raw = or_some life.metadata.graduation_threshold st.graduation_threshold_raw;
}
on_type migration_started st life t = record st { lifecycle_state = Lifecycle.migrating }
on_type migrated st life t =
    with_pool (record st { lifecycle_state = Lifecycle.migrating }) life.pool
on_type curve_completed st life t =
    with_pool (record st { lifecycle_state = Lifecycle.migrating }) life.pool
on_type launch_swept st life t = record st {
  lifecycle_state = Lifecycle.graduation_gap;
  launch_swept_at = some t;
  launch_swept_block = life.block_number;
}
on_type pool_created st life t = on_pool_created st life
on_type pool_graduated st life t = on_pool_graduated st life t
on_type snipe_tax_charged st life t = record st {
  snipe_tax_events_total = st.snipe_tax_events_total + 1;
  latest_snipe_tax_amount = life.metadata.amount;
}

abbrev graduation_progress : Option ℕ → ℕ → Option ℕ → Option ℕ
graduation_progress none volume old = old
graduation_progress (some threshold) volume old = ratio_bps volume threshold

unfoldable pub note_life : TokenState → LifecycleObserved → StateOrder → ℤ → TokenState
note_life st life order t = record st {
  last_event_order = some order;
  last_event_time = some t;
  last_event_id = some life.event_id;
  last_block = block_of life.block_number;
  last_slot = block_of life.slot;
  graduation_progress_bps =
      graduation_progress st.graduation_threshold_raw st.buy_quote_volume_raw_total
        st.graduation_progress_bps;
}

unfoldable pub record_life : TokenState → LifecycleObserved → StateOrder → ℤ → TokenState
record_life st life order t =
    let placed = record st {
      curve = or_text life.curve st.curve;
      pool = or_text life.pool st.pool;
    } in
    note_life (on_type life.lifecycle_type placed life t) life order t
