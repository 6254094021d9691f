-- ===== src/Sim/Curve/Sell.antt =====
-- What a sale on the curve books: apps/engine/src/sim/impact.rs.
use memecoin_bot.Base.{ℕ, ◌+◌, ◌≤◌, ◌<◌, ◌≡◌, true, false, Option, arith, sat_mul}
use memecoin_bot.Sim.Types.{is_fill, filled, sell}
use memecoin_bot.Sim.Curve.Fees.{
  less_bps_split, less_bps_mono, apply_adverse_bps-le, apply_adverse_bps_mono, cap_at-le,
  cap_at_mono, swap_out-le, swap_out_mono,
}
use memecoin_bot.Sim.Curve.Buy.{IsShares}
use memecoin_bot.Sim.Curve.{
  VenueFill, SwapTerms, share_bps, less_bps, cap_at, or_zero, gross_out, quote_out, sell_swap,
  curve_swap,
}

pub record SellFill (c : SwapTerms) (vs : ℕ) (rs : Option ℕ) (amount : ℕ) (r : VenueFill)
    : Type 0 where
  pub whole : r.status ≡ filled
  pub all_tokens : r.token_amount ≡ amount
  pub some_quote : 0 < r.quote_amount
  pub in_reserve : r.quote_amount + r.protocol_fee + r.snipe_tax ≤ vs
  pub in_cap : r.quote_amount + r.protocol_fee + r.snipe_tax ≤ cap_at rs vs
  pub in_slippage : or_zero r.price_impact_bps ≤ c.max_slip_bps

module _ (c : SwapTerms) (vs vt : ℕ) (rt rs : Option ℕ) (amount : ℕ) where
  curve_swap-sell_fill :
      let r = curve_swap c vs vt rt rs sell amount in
      let gross = gross_out vs vt rs amount in
      is_fill r.status ≡ true
      → (0 < vt)
        × (r.status ≡ filled)
        × (r.token_amount ≡ amount)
        × (0 < r.quote_amount)
        × (r.quote_amount ≡ quote_out c gross)
        × (r.protocol_fee ≡ share_bps gross c.fee_bps)
        × (r.snipe_tax ≡ share_bps (less_bps gross c.fee_bps) c.snipe_bps)
        × (or_zero r.price_impact_bps ≤ c.max_slip_bps)
  unfolding curve_swap sell_swap
  curve_swap-sell_fill h = ground arith

  gross_out-le-cap : gross_out vs vt rs amount ≤ cap_at rs vs
  unfolding gross_out
  gross_out-le-cap = cap_at_mono rs _ vs (swap_out-le (sat_mul vs vt) vt vs amount)

  paid_lem :
      (gross : ℕ)
      → IsShares c
      → quote_out c gross
          + share_bps gross c.fee_bps
          + share_bps (less_bps gross c.fee_bps) c.snipe_bps
        ≤ gross
  unfolding quote_out
  paid_lem gross s =
      let left = less_bps (less_bps gross c.fee_bps) c.snipe_bps in
      omega (
        arith,
        apply_adverse_bps-le left c.adverse_bps,
        less_bps_split gross c.fee_bps s.fee_le,
        less_bps_split (less_bps gross c.fee_bps) c.snipe_bps s.snipe_le,
      )

  -- With shares of at most the whole, a sale that fills sells exactly the tokens offered for some
  -- quote, and the quote with both fees is within the virtual reserve and the real reserve where that
  -- is set; the impact is within the allowed one. It counts as filled whole, also where the real reserve
  -- cuts the quote short.
  pub curve_swap-SellFill :
      IsShares c
      → is_fill (curve_swap c vs vt rt rs sell amount).status ≡ true
      → SellFill c vs rs amount (curve_swap c vs vt rt rs sell amount)
  curve_swap-SellFill s h =
      let (_, whole, all, out, quote, proto, tax, imp) = curve_swap-sell_fill h in
      let paid = paid_lem (gross_out vs vt rs amount) s in
      let cap = gross_out-le-cap in
      record {
        whole = whole;
        all_tokens = all;
        some_quote = out;
        in_reserve = omega (arith, cap_at-le rs vs);
        in_cap = omega arith;
        in_slippage = imp;
      }

  -- A sale that does not fill books nothing.
  pub curve_swap-sell_no_fill :
      let r = curve_swap c vs vt rt rs sell amount in
      is_fill r.status ≡ false → (r.token_amount ≡ 0) × (r.quote_amount ≡ 0)
  unfolding curve_swap sell_swap
  curve_swap-sell_no_fill h = ground arith

quote_out_mono : (c : SwapTerms) (a b : ℕ) → IsShares c → a ≤ b → quote_out c a ≤ quote_out c b
unfolding quote_out
quote_out_mono c a b s le =
    apply_adverse_bps_mono _ _ c.adverse_bps
      (less_bps_mono _ _ c.snipe_bps s.snipe_le (less_bps_mono a b c.fee_bps s.fee_le le))

gross_out_mono :
    (vs vt : ℕ) (rs : Option ℕ) (a b : ℕ)
    → 0 < vt
    → a ≤ b
    → gross_out vs vt rs a ≤ gross_out vs vt rs b
unfolding gross_out
gross_out_mono vs vt rs a b pos le =
    cap_at_mono rs _ _ (swap_out_mono (sat_mul vs vt) vt vs a b pos le)

-- A larger sale never brings less: of two sales on the same terms and reserves that fill, the one of
-- more tokens brings at least as much quote.
pub curve_swap-sell_mono :
    (c : SwapTerms) (vs vt : ℕ) (rt rs : Option ℕ) (a b : ℕ)
    → IsShares c
    → a ≤ b
    → is_fill (curve_swap c vs vt rt rs sell a).status ≡ true
    → is_fill (curve_swap c vs vt rt rs sell b).status ≡ true
    → (curve_swap c vs vt rt rs sell a).quote_amount
      ≤ (curve_swap c vs vt rt rs sell b).quote_amount
curve_swap-sell_mono c vs vt rt rs a b s le ha hb =
    let (pos, _, _, _, qa, _, _, _) = curve_swap-sell_fill c vs vt rt rs a ha in
    let (_, _, _, _, qb, _, _, _) = curve_swap-sell_fill c vs vt rt rs b hb in
    let more = quote_out_mono c _ _ s (gross_out_mono vs vt rs a b pos le) in omega arith
