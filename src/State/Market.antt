-- ===== src/State/Market.antt =====
-- The market states of apps/engine/src/state/market.rs. An amount is the number that its decimal
-- string stands for.
use memecoin_bot.Base.{ℕ, String, Option, none, some}

pub data MarketStateQuality : Type 0 where
  complete partial unknown : MarketStateQuality

pub record BondingCurveState : Type 0 where
  pub virtual_token_reserves : Option ℕ
  pub virtual_sol_reserves : Option ℕ
  pub real_token_reserves : Option ℕ
  pub real_sol_reserves : Option ℕ
  pub token_total_supply : Option ℕ
  pub curve_progress_bps : Option ℕ
  pub last_token_amount_raw : Option ℕ
  pub last_quote_amount_raw : Option ℕ
  pub quality : MarketStateQuality

pub record ConstantProductState : Type 0 where
  pub pool : Option String
  pub token : Option String
  pub quote_asset : Option String
  pub reserve_token_raw : Option ℕ
  pub reserve_quote_raw : Option ℕ
  pub last_token_amount_raw : Option ℕ
  pub last_quote_amount_raw : Option ℕ
  pub quality : MarketStateQuality

pub record UniswapV4State : Type 0 where
  pub pool_id : Option String
  pub token0 : Option String
  pub token1 : Option String
  pub quote_asset : Option String
  pub sqrt_price_x96 : Option ℕ
  pub liquidity_raw : Option ℕ
  pub tick : Option String
  pub amount0 : Option String
  pub amount1 : Option String

pub data MarketState : Type 0 where
  bonding_curve : BondingCurveState → MarketState
  constant_product : ConstantProductState → MarketState
  uniswap_v4 : UniswapV4State → MarketState
  unknown : MarketState

abbrev uniswap_quality : Option ℕ → MarketStateQuality
uniswap_quality (some p) = complete
uniswap_quality none = partial

unfoldable pub quality : MarketState → MarketStateQuality
quality (bonding_curve s) = s.quality
quality (constant_product s) = s.quality
quality (uniswap_v4 s) = uniswap_quality s.sqrt_price_x96
quality MarketState.unknown = MarketStateQuality.unknown

unfoldable pub type_name : MarketState → String
type_name (bonding_curve s) = "BONDING_CURVE"
type_name (constant_product s) = "CONSTANT_PRODUCT"
type_name (uniswap_v4 s) = "UNISWAP_V4"
type_name MarketState.unknown = "UNKNOWN"
