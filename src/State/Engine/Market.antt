-- ===== src/State/Engine/Market.antt =====
-- How trades and metadata update the market of a token: `update_market_from_trade` and `apply_v4_meta`
-- of apps/engine/src/state/engine.rs.
use memecoin_bot.Base.{
  ℕ, ◌-◌, String, Bool, true, false, not, ◌&&◌, ◌||◌, Option, none, some, if◌then◌else◌,
}
use memecoin_bot.Domain.{Launchpad}
use memecoin_bot.Domain.Events.{TradeObserved, LifecycleMeta}
use memecoin_bot.State.Lifecycle
use memecoin_bot.State.Lifecycle.{TokenLifecycleState}
use memecoin_bot.State.Market.{
  MarketState, BondingCurveState, ConstantProductState, UniswapV4State, complete, partial,
}
use memecoin_bot.State.Engine.{TokenState, ratio_bps, or_text}

abbrev pub is_some {ℓ} : {A : Type ℓ} → Option A → Bool
is_some none = false
is_some (some a) = true

abbrev pub or_some {ℓ} : {A : Type ℓ} → Option A → Option A → Option A
or_some none b = b
or_some (some a) b = some a

-- The default bonding curve of market.rs.
abbrev pub default_curve : BondingCurveState
default_curve = record {
  virtual_token_reserves = none;
  virtual_sol_reserves = none;
  real_token_reserves = none;
  real_sol_reserves = none;
  token_total_supply = none;
  curve_progress_bps = none;
  last_token_amount_raw = none;
  last_quote_amount_raw = none;
  quality = partial;
}

abbrev pub default_product : ConstantProductState
default_product = record {
  pool = none;
  token = none;
  quote_asset = none;
  reserve_token_raw = none;
  reserve_quote_raw = none;
  last_token_amount_raw = none;
  last_quote_amount_raw = none;
  quality = partial;
}

abbrev pub default_v4 : UniswapV4State
default_v4 = record {
  pool_id = none;
  token0 = none;
  token1 = none;
  quote_asset = none;
  sqrt_price_x96 = none;
  liquidity_raw = none;
  tick = none;
  amount0 = none;
  amount1 = none;
}

-- The share of the first known reserve that has been sold.
unfoldable pub progress_of : Option ℕ → Option ℕ → Option ℕ
progress_of (some base) (some cur) = ratio_bps (base - cur) base
progress_of none cur = none
progress_of (some base) none = none

unfoldable pub on_curve_trade : TokenState → TradeObserved → TokenState
on_curve_trade st trade =
    let m = trade.metadata in
    let baseline = or_some st.baseline_virtual_token m.virtual_token_reserves in
    let progress = progress_of baseline m.virtual_token_reserves in
    record st {
      baseline_virtual_token = baseline;
      curve_progress_bps = progress;
      market_state = MarketState.bonding_curve (record {
        virtual_token_reserves = m.virtual_token_reserves;
        virtual_sol_reserves = m.virtual_sol_reserves;
        real_token_reserves = m.real_token_reserves;
        real_sol_reserves = m.real_sol_reserves;
        token_total_supply = none;
        curve_progress_bps = progress;
        last_token_amount_raw = some trade.base_amount_raw;
        last_quote_amount_raw = some trade.quote_amount_raw;
        quality = complete;
      });
    }

-- The Uniswap state that an update starts from.
abbrev pub v4_or : UniswapV4State → MarketState → UniswapV4State
v4_or d (MarketState.uniswap_v4 s) = s
v4_or d (MarketState.bonding_curve s) = d
v4_or d (MarketState.constant_product s) = d
v4_or d MarketState.unknown = d

abbrev pub unless_gap : TokenLifecycleState → TokenLifecycleState
unless_gap Lifecycle.graduation_gap = Lifecycle.graduation_gap
unless_gap _ = Lifecycle.amm_active

unfoldable pub on_v4_trade : TokenState → TradeObserved → ℕ → TokenState
on_v4_trade st trade sqrt =
    let m = trade.metadata in
    let v4 =
      v4_or (record default_v4 { pool_id = trade.pool; quote_asset = some trade.quote_asset })
        st.market_state in
    record st {
      market_state = MarketState.uniswap_v4 (record v4 {
        sqrt_price_x96 = some sqrt;
        liquidity_raw = m.liquidity;
        tick = m.tick;
        amount0 = m.amount0;
        amount1 = m.amount1;
        pool_id = or_text trade.pool v4.pool_id;
      });
      lifecycle_state = unless_gap st.lifecycle_state;
    }

abbrev on_amm : TokenLifecycleState → Bool
on_amm Lifecycle.amm_active = true
on_amm Lifecycle.migrating = true
on_amm _ = false

-- Whether a trade without reserves and price updates a pool.
abbrev pub updates_pool : Launchpad → TokenLifecycleState → Bool
updates_pool Launchpad.pump_swap life = true
updates_pool Launchpad.clanker_v4 life = false
updates_pool Launchpad.pons_v2 life = false
updates_pool Launchpad.pump_fun life = on_amm life
updates_pool Launchpad.unknown life = on_amm life

abbrev pub pool_after : TokenState → TradeObserved → MarketState → MarketState
pool_after st trade (MarketState.constant_product cp) = MarketState.constant_product (record cp {
  last_token_amount_raw = some trade.base_amount_raw;
  last_quote_amount_raw = some trade.quote_amount_raw;
  pool = or_text trade.pool cp.pool;
  quality = partial;
})
pool_after st trade other =
    if is_some trade.pool
    then MarketState.constant_product (record default_product {
      pool = trade.pool;
      token = some st.key.token;
      quote_asset = some trade.quote_asset;
      last_token_amount_raw = some trade.base_amount_raw;
      last_quote_amount_raw = some trade.quote_amount_raw;
      quality = partial;
    })
    else other

unfoldable pub on_pool_trade : TokenState → TradeObserved → TokenState
on_pool_trade st trade =
    if updates_pool trade.launchpad st.lifecycle_state
    then record st { market_state = pool_after st trade st.market_state }
    else st

unfoldable pub update_market_from_trade : TokenState → TradeObserved → TokenState
update_market_from_trade st trade =
    if is_some trade.metadata.virtual_token_reserves || is_some trade.metadata.virtual_sol_reserves
    then on_curve_trade st trade
    else elim (trade.metadata.sqrt_price_x96) [
      | some sqrt ↦ on_v4_trade st trade sqrt
      | none ↦ on_pool_trade st trade
    ]

-- A currency that is a text replaces the one known.
abbrev token0_after : Option (Option String) → Option String → Option String
token0_after none old = old
token0_after (some none) old = old
token0_after (some (some c)) old = some c

unfoldable pub apply_v4_meta : TokenState → LifecycleMeta → TokenState
apply_v4_meta st m =
    if not (is_some m.sqrt_price_x96) && not (is_some m.currency0)
    then st
    else let v4 =
        v4_or (record default_v4 { pool_id = st.pool; quote_asset = st.quote_asset })
          st.market_state in
      record st {
        market_state = MarketState.uniswap_v4 (record v4 {
          sqrt_price_x96 = or_some m.sqrt_price_x96 v4.sqrt_price_x96;
          tick = or_text m.tick v4.tick;
          token0 = token0_after m.currency0 v4.token0;
          token1 = or_text m.currency1 v4.token1;
        });
      }
