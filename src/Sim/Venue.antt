-- ===== src/Sim/Venue.antt =====
-- `executable_fill`, `mark_exit_quote` and `spot_price_1e18` of apps/engine/src/sim/impact.rs.
pub mod Guards
pub mod Search
use memecoin_bot.Base.{
  ℕ, String, Bool, true, false, ◌&&◌, Option, none, some, ltb, ◌==◌, if◌then◌else◌, u32_max,
}
use memecoin_bot.Domain.{Launchpad, pump_fun, pump_swap}
use memecoin_bot.State.Lifecycle.{
  TokenLifecycleState, graduation_gap, launch_swept, inactive, migrating,
}
use memecoin_bot.State.Market.{
  MarketState, bonding_curve, constant_product, uniswap_v4, BondingCurveState, ConstantProductState,
  MarketStateQuality, complete, partial,
}
use memecoin_bot.State.Snapshot.{TokenStateSnapshot}
use memecoin_bot.Sim.Types.{
  temporarily_unavailable, rejected_liquidity, unavailable_market_state, ExecutionQuality, exact,
  modelled, partial_state, non_research_valid, OrderSide, sell, is_sell, is_fill, text,
}
use memecoin_bot.Sim.Models.{FeeModel, SlippageModel, no_slippage, protocol_bps, snipe_tax_bps}
use memecoin_bot.Sim.Curve.{VenueFill, SwapTerms, fail, curve_swap, cp_swap, price_1e18}

abbrev pub in_gap : TokenLifecycleState → Bool
in_gap graduation_gap = true
in_gap launch_swept = true
in_gap _ = false

abbrev pub not_sellable : TokenLifecycleState → Bool
not_sellable inactive = true
not_sellable migrating = true
not_sellable _ = false

-- Both reserves, where both are known and not zero.
abbrev pub known_reserves : Option ℕ → Option ℕ → Option (ℕ × ℕ)
known_reserves (some s) (some t) = if ltb 0 s && ltb 0 t then some (s, t) else none
known_reserves (some s) none = none
known_reserves none t = none

abbrev pub curve_quality : MarketStateQuality → ExecutionQuality
curve_quality complete = exact
curve_quality partial = modelled
curve_quality MarketStateQuality.unknown = non_research_valid

abbrev pub cp_quality : MarketStateQuality → ExecutionQuality
cp_quality complete = exact
cp_quality partial = partial_state
cp_quality MarketStateQuality.unknown = non_research_valid

abbrev pub is_unknown : MarketStateQuality → Bool
is_unknown MarketStateQuality.unknown = true
is_unknown _ = false

abbrev pub amm_launchpad : Launchpad → Launchpad
amm_launchpad pump_fun = pump_swap
amm_launchpad l = l

-- The arguments of `executable_fill` but the snapshot.
pub record Order : Type 0 where
  pub side : OrderSide
  pub amount : ℕ
  pub fees : FeeModel
  pub slip : SlippageModel
  pub max_slippage_bps : ℕ
  pub force_snipe : Bool

unfoldable pub swap_terms : TokenStateSnapshot → Order → Launchpad → ExecutionQuality → SwapTerms
swap_terms snap o launchpad q = record {
  fee_bps = protocol_bps o.fees launchpad snap.lifecycle_state;
  snipe_bps = snipe_tax_bps o.fees snap.launchpad snap.age_ms o.force_snipe;
  adverse_bps = o.slip.adverse_bps;
  max_slip_bps = o.max_slippage_bps;
  quality = q;
}

abbrev pub unavailable : ExecutionQuality → String → VenueFill
unavailable q why = fail unavailable_market_state q (text why)

unfoldable pub fill_on_curve :
    TokenStateSnapshot → Order → BondingCurveState → Option (ℕ × ℕ) → VenueFill
fill_on_curve snap o c none = unavailable non_research_valid "UNKNOWN_CURVE_RESERVES"
fill_on_curve snap o c (some (vs, vt)) =
    if is_unknown c.quality
    then unavailable (curve_quality c.quality) "UNKNOWN_CURVE_QUALITY"
    else curve_swap (swap_terms snap o snap.launchpad (curve_quality c.quality)) vs vt
        c.real_token_reserves c.real_sol_reserves o.side o.amount

unfoldable pub fill_on_pool :
    TokenStateSnapshot → Order → ConstantProductState → Option (ℕ × ℕ) → VenueFill
fill_on_pool snap o c none = unavailable non_research_valid "UNKNOWN_CP_RESERVES"
fill_on_pool snap o c (some (rq, rt)) =
    if is_unknown c.quality
    then unavailable non_research_valid "UNKNOWN_CP_QUALITY"
    else cp_swap (swap_terms snap o (amm_launchpad snap.launchpad) (cp_quality c.quality)) rq rt
        o.side o.amount

-- The `match` on the market state.
unfoldable pub fill_on : TokenStateSnapshot → Order → MarketState → VenueFill
fill_on snap o (bonding_curve c) =
    fill_on_curve snap o c (known_reserves c.virtual_sol_reserves c.virtual_token_reserves)
fill_on snap o (constant_product c) =
    fill_on_pool snap o c (known_reserves c.reserve_quote_raw c.reserve_token_raw)
fill_on snap o (uniswap_v4 s) = unavailable partial_state "IMPACT_MODEL_PARTIAL_UNISWAP_V4"
fill_on snap o MarketState.unknown = unavailable non_research_valid "UNKNOWN_LIQUIDITY_NOT_INFINITE"

unfoldable pub executable_fill : TokenStateSnapshot → Order → VenueFill
executable_fill snap o =
    if in_gap snap.lifecycle_state
    then fail temporarily_unavailable modelled (text "PONS_GRADUATION_GAP")
    else if not_sellable snap.lifecycle_state && is_sell o.side
    then fail rejected_liquidity modelled (text "MARKET_NOT_SELLABLE")
    else fill_on snap o snap.market_state

abbrev pub exit_order : ℕ → FeeModel → Order
exit_order token_amount fees = record {
  side = sell;
  amount = token_amount;
  fees = fees;
  slip = no_slippage;
  max_slippage_bps = u32_max;
  force_snipe = false;
}

unfoldable pub mark_exit_quote : TokenStateSnapshot → ℕ → FeeModel → Option ℕ
mark_exit_quote snap token_amount fees =
    let fill = executable_fill snap (exit_order token_amount fees) in
    if is_fill fill.status then some fill.quote_amount else none

abbrev pub price_of : Option ℕ → Option ℕ → Option ℕ
price_of (some q) (some t) = some (price_1e18 q t)
price_of (some q) none = none
price_of none t = none

-- The price of the last trade, where it is known and of some tokens.
abbrev pub last_trade_price : Option ℕ → Option ℕ → Option ℕ
last_trade_price (some q) (some t) = if t == 0 then none else some (price_1e18 q t)
last_trade_price (some q) none = none
last_trade_price none t = none

abbrev pub spot_of : TokenStateSnapshot → MarketState → Option ℕ
spot_of snap (bonding_curve c) = price_of c.virtual_sol_reserves c.virtual_token_reserves
spot_of snap (constant_product c) = price_of c.reserve_quote_raw c.reserve_token_raw
spot_of snap _ = last_trade_price snap.last_trade_quote_raw snap.last_trade_token_raw

unfoldable pub spot_price_1e18 : TokenStateSnapshot → Option ℕ
spot_price_1e18 snap = spot_of snap snap.market_state
