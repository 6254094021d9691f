-- ===== src/Sim/Venue/Guards.antt =====
-- When `executable_fill` of apps/engine/src/sim/impact.rs may fill.
use memecoin_bot.Base.{ℕ, ◌<◌, ◌≡◌, ◌≢◌, true, false, Option, none, some, arith, refl}
use memecoin_bot.Sim.Types.{is_fill, sell}
use memecoin_bot.State.Market.{
  MarketState, bonding_curve, constant_product, uniswap_v4, BondingCurveState, ConstantProductState,
  MarketStateQuality,
}
use memecoin_bot.State.Snapshot.{TokenStateSnapshot}
use memecoin_bot.Sim.Venue.{
  in_gap, not_sellable, known_reserves, Order, fill_on_curve, fill_on_pool, fill_on,
  executable_fill,
}

-- Both reserves are known and positive, and the quality of the state is known.
abbrev pub IsKnown : Option ℕ → Option ℕ → MarketStateQuality → Type 0
IsKnown s t q =
    (a : ℕ) × (b : ℕ) × (s ≡ some a)
    × (t ≡ some b)
    × (0 < a)
    × (0 < b)
    × (q ≢ MarketStateQuality.unknown)

-- A market that the simulator may trade on: never Uniswap v4, and never an unknown state.
abbrev pub IsPriced : MarketState → Type 0
IsPriced (bonding_curve c) = IsKnown c.virtual_sol_reserves c.virtual_token_reserves c.quality
IsPriced (constant_product c) = IsKnown c.reserve_quote_raw c.reserve_token_raw c.quality
IsPriced (uniswap_v4 s) = ⊥
IsPriced MarketState.unknown = ⊥

known_reserves_lem :
    (s t : Option ℕ) (p : ℕ × ℕ)
    → known_reserves s t ≡ some p
    → (s ≡ some p.0) × (t ≡ some p.1) × (0 < p.0) × (0 < p.1)
known_reserves_lem s t p h = ground arith

module _ (snap : TokenStateSnapshot) (o : Order) where
  fill_on_curve-IsKnown :
      (c : BondingCurveState) (r : Option (ℕ × ℕ))
      → known_reserves c.virtual_sol_reserves c.virtual_token_reserves ≡ r
      → is_fill (fill_on_curve snap o c r).status ≡ true
      → IsKnown c.virtual_sol_reserves c.virtual_token_reserves c.quality
  unfolding fill_on_curve
  fill_on_curve-IsKnown c none e h = cc
  fill_on_curve-IsKnown c (some (s, t)) e h =
      let (es, et, ps, pt) = known_reserves_lem _ _ (s, t) e in (s, t, es, et, ps, pt, ground arith)

  fill_on_pool-IsKnown :
      (c : ConstantProductState) (r : Option (ℕ × ℕ))
      → known_reserves c.reserve_quote_raw c.reserve_token_raw ≡ r
      → is_fill (fill_on_pool snap o c r).status ≡ true
      → IsKnown c.reserve_quote_raw c.reserve_token_raw c.quality
  unfolding fill_on_pool
  fill_on_pool-IsKnown c none e h = cc
  fill_on_pool-IsKnown c (some (s, t)) e h =
      let (es, et, ps, pt) = known_reserves_lem _ _ (s, t) e in (s, t, es, et, ps, pt, ground arith)

  fill_on-IsPriced : (m : MarketState) → is_fill (fill_on snap o m).status ≡ true → IsPriced m
  unfolding fill_on
  fill_on-IsPriced (bonding_curve c) h = fill_on_curve-IsKnown c _ refl h
  fill_on-IsPriced (constant_product c) h = fill_on_pool-IsKnown c _ refl h
  fill_on-IsPriced (uniswap_v4 s) h = cc
  fill_on-IsPriced MarketState.unknown h = cc

  -- An order that fills is on a bonding curve or a constant-product pool whose two reserves are known
  -- and positive and whose quality is known, never in the graduation gap, and a sale never on an
  -- inactive or migrating token.
  pub executable_fill-IsPriced :
      is_fill (executable_fill snap o).status ≡ true
      → IsPriced snap.market_state
        × (in_gap snap.lifecycle_state ≡ false)
        × (o.side ≡ sell → not_sellable snap.lifecycle_state ≡ false)
  unfolding executable_fill
  executable_fill-IsPriced h =
      (fill_on-IsPriced snap.market_state (ground arith), ground arith, λ e. ground arith)
