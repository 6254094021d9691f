-- ===== src/Sim/Venue/Search.antt =====
-- `max_quote_at_impact` of apps/engine/src/sim/impact.rs: a binary search of at most 64 rounds.
use native.Mathlib.Nat.{two-pow-succ}
use memecoin_bot.Base.{
  ℕ, zero, suc, ◌+◌, ◌-◌, ◌/◌, ◌^◌, ◌≤◌, ◌<◌, ◌≡◌, ◌⊎◌, inl, refl, Bool, true, false, ◌&&◌, ◌||◌,
  Option, none, some, arith, ltb, leb, ◌==◌, if◌then◌else◌, u32_max,
}
use memecoin_bot.State.Market.{MarketState, bonding_curve, constant_product, uniswap_v4}
use memecoin_bot.State.Snapshot.{TokenStateSnapshot}
use memecoin_bot.Sim.Types.{is_fill, modelled, buy}
use memecoin_bot.Sim.Models.{default_fees}
use memecoin_bot.Sim.Curve.{SwapTerms, curve_swap}

abbrev pub or_max : Option ℕ → ℕ
or_max none = u32_max
or_max (some n) = n

abbrev pub search_terms : SwapTerms
search_terms = record {
  fee_bps = default_fees.pump_curve_protocol_bps;
  snipe_bps = 0;
  adverse_bps = 0;
  max_slip_bps = u32_max;
  quality = modelled;
}

-- `ok`: a buy of `quote` fills with an impact within the limit.
unfoldable pub accepts : ℕ → ℕ → ℕ → ℕ → Bool
accepts vs vt limit quote =
    let fill = curve_swap search_terms vs vt none none buy quote in
    is_fill fill.status && leb (or_max fill.price_impact_bps) limit

-- The loop over the rounds left; both ends of the range are given.
unfoldable pub search_rounds : (ℕ → Bool) → ℕ → ℕ → ℕ → ℕ → ℕ
search_rounds ok zero lo hi best = best
search_rounds ok (suc rounds) lo hi best =
    let mid = lo + (hi - lo) / 2 in
    elim (ltb hi lo) [
      | true ↦ best
      | false ↦ elim (ok mid) [
        | true ↦ search_rounds ok rounds (mid + 1) hi mid
        | false ↦ elim (mid == 0) [
          | true ↦ best
          | false ↦ search_rounds ok rounds lo (mid - 1) best
        ]
      ]
    ]

-- The first upper end.
unfoldable pub search_top : ℕ → ℕ
search_top vs = if vs / 2 == 0 then vs else vs / 2

unfoldable pub search_quote : ℕ → ℕ → ℕ → Option ℕ
search_quote vs vt limit =
    if vs == 0 || vt == 0
    then none
    else let best = search_rounds (accepts vs vt limit) 64 1 (search_top vs) 0 in
      if best == 0 then none else some best

abbrev pub search_reserves : Option ℕ → Option ℕ → ℕ → Option ℕ
search_reserves (some vs) (some vt) limit = search_quote vs vt limit
search_reserves (some vs) none limit = none
search_reserves none t limit = none

abbrev pub search_market : MarketState → ℕ → Option ℕ
search_market (bonding_curve c) limit =
    search_reserves c.virtual_sol_reserves c.virtual_token_reserves limit
search_market (constant_product c) limit =
    search_reserves c.reserve_quote_raw c.reserve_token_raw limit
search_market (uniswap_v4 s) limit = none
search_market MarketState.unknown limit = none

unfoldable pub max_quote_at_impact : TokenStateSnapshot → ℕ → Option ℕ
max_quote_at_impact snap limit = search_market snap.market_state limit

-- `r` passes, or is 0, and nothing passes just above it, unless it is the top of the range.
abbrev IsEdge : (ℕ → Bool) → ℕ → ℕ → Type 0
IsEdge ok top r = (r ≤ top) × ((r ≡ 0) ⊎ (ok r ≡ true)) × ((r ≡ top) ⊎ (ok (r + 1) ≡ false))

module _ (ok : ℕ → Bool) (top : ℕ) where
  search_rounds-IsEdge :
      (n lo hi best : ℕ)
      → best + 1 ≡ lo
      → lo ≤ hi + 1
      → hi + 1 < 2 ^ n + lo
      → hi ≤ top
      → (best ≡ 0) ⊎ (ok best ≡ true)
      → (hi ≡ top) ⊎ (ok (hi + 1) ≡ false)
      → IsEdge ok top (search_rounds ok n lo hi best)
  unfolding search_rounds
  search_rounds-IsEdge zero lo hi best e le few in_top low high =
      let same : best ≡ hi = omega arith in ground arith
  search_rounds-IsEdge (suc n) lo hi best e le few in_top low high =
      let mid : ℕ = lo + (hi - lo) / 2 in
      ground (
        arith,
        two-pow-succ n,
        search_rounds-IsEdge n (mid + 1) hi mid,
        search_rounds-IsEdge n lo (mid - 1) best,
      )

search_top_pos : (vs : ℕ) → 0 < vs → 1 ≤ search_top vs
unfolding search_top
search_top_pos vs h = ground arith

-- For positive reserves whose search range has fewer than 2^64 quotes, the 64 rounds are enough: a
-- quote found is in the range, its buy fills within the impact limit, and the next larger quote does
-- not or is out of the range; where none is found, not even a quote of 1 does.
pub search_quote-IsEdge :
    (vs vt limit : ℕ)
    → 0 < vs
    → 0 < vt
    → search_top vs < 2 ^ 64
    → ((q : ℕ)
        → search_quote vs vt limit ≡ some q
        → (accepts vs vt limit q ≡ true)
          × (q ≤ search_top vs)
          × ((q ≡ search_top vs) ⊎ (accepts vs vt limit (q + 1) ≡ false)))
      × (search_quote vs vt limit ≡ none → accepts vs vt limit 1 ≡ false)
unfolding search_quote
search_quote-IsEdge vs vt limit ps pt fits =
    let ok : ℕ → Bool = accepts vs vt limit in
    let top : ℕ = search_top vs in
    let positive : 1 ≤ top = search_top_pos vs ps in
    let edge =
      search_rounds-IsEdge ok top 64 1 top 0 (omega arith) (omega arith) (omega arith) (omega arith)
        (inl refl) (inl refl) in
    (λ q h. ground arith, λ h. ground arith)
