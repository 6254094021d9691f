-- ===== src/Sim/Curve/Buy.antt =====
-- What a buy on the curve books: apps/engine/src/sim/impact.rs.
use native.Mathlib.Nat.{le-div_iff_mul-le}
use memecoin_bot.Base.{
  ℕ, zero, suc, ◌+◌, ◌/◌, ◌≤◌, ◌<◌, ◌≡◌, ◌≢◌, ◌∙◌, refl, true, false, Option, arith, sat_mul,
  u256_max,
}
use memecoin_bot.Sim.Types.{is_fill, buy}
use memecoin_bot.Sim.Curve.Fees.{
  less_bps-le, less_bps_split, less_bps_mono, apply_adverse_bps-le, apply_adverse_bps_mono,
  cap_at-le, cap_at_mono, swap_out-le, swap_out_mono, booked_quote-le,
}
use memecoin_bot.Sim.Curve.{
  VenueFill, SwapTerms, share_bps, less_bps, swap_out, cap_at, booked_quote, fraction_bps,
  buy_status, finish_buy, or_zero, net_in, tokens_out, buy_swap, curve_swap,
}

-- Shares of at most the whole.
pub record IsShares (c : SwapTerms) : Type 0 where
  pub fee_le : c.fee_bps ≤ 10_000
  pub snipe_le : c.snipe_bps ≤ 10_000

-- The tokens of the whole swap, before the cap and the adverse move.
abbrev pub uncapped_out : SwapTerms → ℕ → ℕ → ℕ → ℕ
uncapped_out c vs vt q = swap_out (sat_mul vs vt) vs vt (net_in c q)

module _ (c : SwapTerms) (vs vt : ℕ) (rt rs : Option ℕ) (q : ℕ) where
  tokens_out-le : tokens_out c vs vt rt q ≤ uncapped_out c vs vt q
  unfolding tokens_out
  tokens_out-le =
      let out = uncapped_out c vs vt q in
      omega (arith, apply_adverse_bps-le (cap_at rt out) c.adverse_bps, cap_at-le rt out)

  tokens_out-le-cap : tokens_out c vs vt rt q ≤ cap_at rt vt
  unfolding tokens_out
  tokens_out-le-cap =
      let out = uncapped_out c vs vt q in
      omega (
        arith,
        apply_adverse_bps-le (cap_at rt out) c.adverse_bps,
        cap_at_mono rt out vt (swap_out-le (sat_mul vs vt) vs vt (net_in c q)),
      )

  fees_lem :
      IsShares c
      → share_bps q c.snipe_bps + share_bps (less_bps q c.snipe_bps) c.fee_bps + net_in c q ≡ q
  unfolding net_in
  fees_lem s = omega (
    arith,
    less_bps_split q c.snipe_bps s.snipe_le,
    less_bps_split (less_bps q c.snipe_bps) c.fee_bps s.fee_le,
  )

  finish_buy_fill :
      (k uncapped tok tax proto net : ℕ)
      → let r = finish_buy k vs vt uncapped tok q tax proto net c.max_slip_bps c.quality in
        is_fill r.status ≡ true
        → (r.token_amount ≡ tok)
          × (r.quote_amount ≡ booked_quote k vs vt uncapped tok q)
          × (r.protocol_fee ≡ proto)
          × (r.snipe_tax ≡ tax)
          × (or_zero r.price_impact_bps ≤ c.max_slip_bps)
          × (r.fill_fraction_bps ≤ 10_000)
  unfolding finish_buy
  finish_buy_fill k uncapped tok tax proto net h = ground arith

  -- What a fill says of the run: the checks passed, and the amounts are those computed.
  curve_swap-buy_fill :
      let r = curve_swap c vs vt rt rs buy q in
      is_fill r.status ≡ true
      → (0 < vs)
        × (0 < tokens_out c vs vt rt q)
        × (r.token_amount ≡ tokens_out c vs vt rt q)
        × (r.quote_amount
            ≡ booked_quote
                (sat_mul vs vt)
                vs
                vt
                (uncapped_out c vs vt q)
                (tokens_out c vs vt rt q)
                q)
        × (r.protocol_fee ≡ share_bps (less_bps q c.snipe_bps) c.fee_bps)
        × (r.snipe_tax ≡ share_bps q c.snipe_bps)
        × (or_zero r.price_impact_bps ≤ c.max_slip_bps)
        × (r.fill_fraction_bps ≤ 10_000)
  unfolding curve_swap buy_swap
  curve_swap-buy_fill h = ground (
    arith,
    finish_buy_fill (sat_mul vs vt) (uncapped_out c vs vt q) (tokens_out c vs vt rt q)
        (share_bps q c.snipe_bps) (share_bps (less_bps q c.snipe_bps) c.fee_bps) (net_in c q),
  )

  booked_quote-le-budget :
      (k uncapped tok net : ℕ)
      → 0 < vs
      → 0 < tok
      → uncapped ≡ swap_out k vs vt net
      → net ≤ q
      → booked_quote k vs vt uncapped tok q ≤ q
  unfolding booked_quote
  booked_quote-le-budget k uncapped tok net pos some_out e le =
      rw e (ground (arith, booked_quote-le k vs vt net tok q pos some_out))

  net_in-le : net_in c q ≤ q
  unfolding net_in
  net_in-le =
      omega (arith, less_bps-le (less_bps q c.snipe_bps) c.fee_bps, less_bps-le q c.snipe_bps)

booked_quote_whole :
    (k vs vt uncapped tok q : ℕ) → uncapped ≤ tok → booked_quote k vs vt uncapped tok q ≡ q
unfolding booked_quote
booked_quote_whole k vs vt uncapped tok q le = ground arith

-- A swap that is taken whole is never a fill of nothing.
fraction_bps_pos :
    (tok uncapped : ℕ) → 0 < tok → uncapped ≤ tok → tok ≤ u256_max → 0 < fraction_bps tok uncapped
unfolding fraction_bps
fraction_bps_pos tok zero pos le fits = omega arith
fraction_bps_pos tok (suc u) pos le fits =
    let one : 1 ≤ sat_mul tok 10_000 / suc u =
      (le-div_iff_mul-le {k = suc u} {x = 1} {y = sat_mul tok 10_000} (omega arith)).1
        (omega arith) in
    ground arith

buy_status-fill :
    (tok uncapped : ℕ) → 0 < tok → tok ≤ u256_max → is_fill (buy_status tok uncapped) ≡ true
unfolding buy_status
buy_status-fill tok uncapped pos fits = ground (arith, fraction_bps_pos tok uncapped pos)

module _ (c : SwapTerms) (vs vt : ℕ) (rt : Option ℕ) (p q : ℕ) where
  net_in_mono : IsShares c → p ≤ q → net_in c p ≤ net_in c q
  unfolding net_in
  net_in_mono s le =
      less_bps_mono (less_bps p c.snipe_bps) (less_bps q c.snipe_bps) c.fee_bps s.fee_le
        (less_bps_mono p q c.snipe_bps s.snipe_le le)

  tokens_out_mono : IsShares c → 0 < vs → p ≤ q → tokens_out c vs vt rt p ≤ tokens_out c vs vt rt q
  unfolding tokens_out
  tokens_out_mono s pos le =
      let k = sat_mul vs vt in
      apply_adverse_bps_mono _ _ c.adverse_bps
        (cap_at_mono rt _ _ (swap_out_mono k vs vt _ _ pos (net_in_mono s le)))

pub record BuyFill (c : SwapTerms) (vt : ℕ) (rt : Option ℕ) (q : ℕ) (r : VenueFill) : Type 0 where
  pub some_tokens : 0 < r.token_amount
  pub in_cap : r.token_amount ≤ cap_at rt vt
  pub in_reserve : r.token_amount ≤ vt
  pub in_budget : r.quote_amount ≤ q
  pub fees_in_budget : r.snipe_tax + r.protocol_fee ≤ q
  pub in_slippage : or_zero r.price_impact_bps ≤ c.max_slip_bps
  pub in_fraction : r.fill_fraction_bps ≤ 10_000

module _ (c : SwapTerms) (vs vt : ℕ) (rt rs : Option ℕ) (q : ℕ) where
  -- With shares of at most the whole, a buy that fills gives some tokens, no more than the virtual
  -- reserve and the real reserve where that is set, books at most the quote offered, charges fees of
  -- at most that quote, and stays within the allowed impact and a whole fill.
  pub curve_swap-BuyFill :
      IsShares c
      → is_fill (curve_swap c vs vt rt rs buy q).status ≡ true
      → BuyFill c vt rt q (curve_swap c vs vt rt rs buy q)
  curve_swap-BuyFill s h =
      let (pos, out, tok, quote, proto, tax, imp, frac) = curve_swap-buy_fill c vs vt rt rs q h in
      let budget =
        booked_quote-le-budget c vs vt rt rs q (sat_mul vs vt) (uncapped_out c vs vt q)
          (tokens_out c vs vt rt q) (net_in c q) pos out refl (net_in-le c vs vt rt rs q) in
      let cap = tokens_out-le-cap c vs vt rt rs q in
      record {
        some_tokens = omega arith;
        in_cap = omega arith;
        in_reserve = omega (arith, cap_at-le rt vt);
        in_budget = omega arith;
        fees_in_budget = omega (arith, fees_lem c vs vt rt rs q s);
        in_slippage = imp;
        in_fraction = frac;
      }

  -- Reserves being a `U256`, a buy that does not fill books no token and no quote, whatever the check
  -- that stopped it.
  pub curve_swap-buy_no_fill :
      vt ≤ u256_max
      → let r = curve_swap c vs vt rt rs buy q in
        is_fill r.status ≡ false → (r.token_amount ≡ 0) × (r.quote_amount ≡ 0)
  unfolding curve_swap buy_swap finish_buy
  curve_swap-buy_no_fill fits h =
      let cap = tokens_out-le-cap c vs vt rt rs q in
      ground
        (arith, cap_at-le rt vt, buy_status-fill (tokens_out c vs vt rt q) (uncapped_out c vs vt q))

  -- A buy that takes all the tokens of its swap books the whole quote offered, and one that takes
  -- fewer books a quote that with both fees is still within the offer: there the fees are not in the
  -- booked quote.
  pub curve_swap-buy_booking :
      IsShares c
      → let r = curve_swap c vs vt rt rs buy q in
        is_fill r.status ≡ true
        → (r.token_amount ≡ uncapped_out c vs vt q → r.quote_amount ≡ q)
          × (r.token_amount ≢ uncapped_out c vs vt q
              → r.quote_amount + r.snipe_tax + r.protocol_fee ≤ q)
  curve_swap-buy_booking s h =
      let (pos, out, tok, quote, proto, tax, imp, frac) = curve_swap-buy_fill c vs vt rt rs q h in
      let below = tokens_out-le c vs vt rt rs q in
      let fees = fees_lem c vs vt rt rs q s in
      let less =
        booked_quote-le (sat_mul vs vt) vs vt (net_in c q) (tokens_out c vs vt rt q) q pos out in
      (
        λ e. quote ∙ booked_quote_whole (sat_mul vs vt) vs vt _ _ q (omega arith),
        λ ne. omega (arith, less (omega arith)),
      )

-- A larger offer never buys fewer tokens: with shares of at most the whole, of two buys on the same
-- terms and reserves that fill, the one with the larger quote gives at least as many tokens.
pub curve_swap-buy_mono :
    (c : SwapTerms) (vs vt : ℕ) (rt rs : Option ℕ) (p q : ℕ)
    → IsShares c
    → p ≤ q
    → is_fill (curve_swap c vs vt rt rs buy p).status ≡ true
    → is_fill (curve_swap c vs vt rt rs buy q).status ≡ true
    → (curve_swap c vs vt rt rs buy p).token_amount ≤ (curve_swap c vs vt rt rs buy q).token_amount
curve_swap-buy_mono c vs vt rt rs p q s le hp hq =
    let (pos, _, tok_p, _, _, _, _, _) = curve_swap-buy_fill c vs vt rt rs p hp in
    let (_, _, tok_q, _, _, _, _, _) = curve_swap-buy_fill c vs vt rt rs q hq in
    omega (arith, tokens_out_mono c vs vt rt p q s pos le)
