-- ===== src/Sim/Curve.antt =====
-- The constant-product swap of apps/engine/src/sim/impact.rs: `curve_swap` and what it calls.
-- An amount is the number that its decimal string stands for, at most `u256_max`.
mod Fees
pub mod Buy
pub mod Sell
use memecoin_bot.Base.{
  ℕ, ◌-◌, ◌/◌, ◌^◌, min, max, not, ◌&&◌, ◌||◌, Option, none, some, ltb, leb, ◌==◌, if◌then◌else◌,
  sat_add, sat_mul, u32_max,
}
use memecoin_bot.Sim.Types.{
  ExecutionStatus, filled, partial_fill, no_fill, rejected_liquidity, rejected_slippage,
  ExecutionQuality, OrderSide, buy, sell, Reason, text, impact_gt_max,
}
use memecoin_bot.Sim.Models.{apply_adverse_bps}

pub record VenueFill : Type 0 where
  pub status : ExecutionStatus
  pub quality : ExecutionQuality
  pub token_amount : ℕ
  pub quote_amount : ℕ
  pub protocol_fee : ℕ
  pub snipe_tax : ℕ
  pub reference_price_1e18 : ℕ
  pub effective_price_1e18 : ℕ
  pub price_impact_bps : Option ℕ
  pub fill_fraction_bps : ℕ
  pub reason : Option Reason

abbrev pub fail : ExecutionStatus → ExecutionQuality → Reason → VenueFill
fail status quality reason = record {
  status = status;
  quality = quality;
  token_amount = 0;
  quote_amount = 0;
  protocol_fee = 0;
  snipe_tax = 0;
  reference_price_1e18 = 0;
  effective_price_1e18 = 0;
  price_impact_bps = none;
  fill_fraction_bps = 0;
  reason = some reason;
}

unfoldable pub price_1e18 : ℕ → ℕ → ℕ
price_1e18 quote token = if token == 0 then 0 else sat_mul quote (10 ^ 18) / token

-- `(hi - lo)` of `impact_bps`, in which a move in our favour counts as none.
unfoldable pub adverse_move : OrderSide → ℕ → ℕ → ℕ
adverse_move buy ref_px eff_px = if leb ref_px eff_px then eff_px - ref_px else 0
adverse_move sell ref_px eff_px = if leb eff_px ref_px then ref_px - eff_px else 0

unfoldable pub impact_bps : ℕ → ℕ → OrderSide → Option ℕ
impact_bps ref_px eff_px side =
    if ref_px == 0
    then none
    else some (min (sat_mul (adverse_move side ref_px eff_px) 10_000 / ref_px) u32_max)

abbrev pub or_zero : Option ℕ → ℕ
or_zero none = 0
or_zero (some n) = n

-- A share in basis points, and what is left without it.
unfoldable pub share_bps : ℕ → ℕ → ℕ
share_bps amount bps = sat_mul amount bps / 10_000

unfoldable pub less_bps : ℕ → ℕ → ℕ
less_bps amount bps = amount - share_bps amount bps

-- What leaves the reserve `out` when `amount` enters the reserve `into`, with product `k`.
unfoldable pub swap_out : ℕ → ℕ → ℕ → ℕ → ℕ
swap_out k into out amount = out - k / sat_add into amount

unfoldable pub cap_at : Option ℕ → ℕ → ℕ
cap_at none amount = amount
cap_at (some cap) amount = if not (cap == 0) && ltb cap amount then cap else amount

-- `filled_quote` of a buy.
unfoldable pub booked_quote : ℕ → ℕ → ℕ → ℕ → ℕ → ℕ → ℕ
booked_quote k vs vt uncapped tok_out quote_in =
    if ltb tok_out uncapped && ltb 0 tok_out
    then if vt - tok_out == 0 then quote_in else k / (vt - tok_out) - vs
    else quote_in

unfoldable pub fraction_bps : ℕ → ℕ → ℕ
fraction_bps tok_out uncapped =
    if uncapped == 0
    then 10_000
    else let f = sat_mul tok_out 10_000 / uncapped in if leb f u32_max then f else 10_000

unfoldable pub buy_status : ℕ → ℕ → ExecutionStatus
buy_status tok_out uncapped =
    let frac = fraction_bps tok_out uncapped in
    if ltb tok_out uncapped
    then partial_fill
    else if leb 10_000 frac
    then filled
    else if ltb 0 frac
    then partial_fill
    else no_fill

-- The end of the buy, from the tokens that come out.
unfoldable pub finish_buy : ℕ → ℕ → ℕ → ℕ → ℕ → ℕ → ℕ → ℕ → ℕ → ℕ → ExecutionQuality → VenueFill
finish_buy k vs vt uncapped tok_out quote_in tax proto net max_slip quality =
    let ref_px = price_1e18 vs vt in
    let booked = booked_quote k vs vt uncapped tok_out quote_in in
    let eff = price_1e18 (max booked net) tok_out in
    let imp = or_zero (impact_bps ref_px eff buy) in
    if ltb max_slip imp
    then fail rejected_slippage quality (impact_gt_max imp max_slip)
    else record {
      status = buy_status tok_out uncapped;
      quality = quality;
      token_amount = tok_out;
      quote_amount = booked;
      protocol_fee = proto;
      snipe_tax = tax;
      reference_price_1e18 = ref_px;
      effective_price_1e18 = eff;
      price_impact_bps = some imp;
      fill_fraction_bps = min (fraction_bps tok_out uncapped) 10_000;
      reason = none;
    }

pub record SwapTerms : Type 0 where
  pub fee_bps : ℕ
  pub snipe_bps : ℕ
  pub adverse_bps : ℕ
  pub max_slip_bps : ℕ
  pub quality : ExecutionQuality

unfoldable pub net_in : SwapTerms → ℕ → ℕ
net_in c quote_in = less_bps (less_bps quote_in c.snipe_bps) c.fee_bps

unfoldable pub tokens_out : SwapTerms → ℕ → ℕ → Option ℕ → ℕ → ℕ
tokens_out c vs vt real_tok quote_in =
    apply_adverse_bps (cap_at real_tok (swap_out (sat_mul vs vt) vs vt (net_in c quote_in)))
      c.adverse_bps

unfoldable pub buy_swap : SwapTerms → ℕ → ℕ → Option ℕ → ℕ → VenueFill
buy_swap c vs vt real_tok quote_in =
    let k = sat_mul vs vt in
    let tax = share_bps quote_in c.snipe_bps in
    let proto = share_bps (less_bps quote_in c.snipe_bps) c.fee_bps in
    let net = net_in c quote_in in
    let tok_out = tokens_out c vs vt real_tok quote_in in
    if quote_in == 0
    then fail no_fill c.quality (text "ZERO_QUOTE")
    else if net == 0
    then fail rejected_slippage c.quality (text "FEE_TAX_CONSUMED_QUOTE")
    else if tok_out == 0
    then fail no_fill c.quality (text "ZERO_TOKEN_OUT")
    else finish_buy k vs vt (swap_out k vs vt net) tok_out quote_in tax proto net c.max_slip_bps
        c.quality

-- What a sale brings before fees: the swap, capped by the real reserve.
unfoldable pub gross_out : ℕ → ℕ → Option ℕ → ℕ → ℕ
gross_out vs vt real_sol tok_in = cap_at real_sol (swap_out (sat_mul vs vt) vt vs tok_in)

unfoldable pub quote_out : SwapTerms → ℕ → ℕ
quote_out c gross =
    apply_adverse_bps (less_bps (less_bps gross c.fee_bps) c.snipe_bps) c.adverse_bps

unfoldable pub sell_swap : SwapTerms → ℕ → ℕ → Option ℕ → ℕ → VenueFill
sell_swap c vs vt real_sol tok_in =
    let ref_px = price_1e18 vs vt in
    let gross = gross_out vs vt real_sol tok_in in
    let out = quote_out c gross in
    let eff = price_1e18 out tok_in in
    let imp = or_zero (impact_bps ref_px eff sell) in
    if tok_in == 0
    then fail no_fill c.quality (text "ZERO_TOKEN")
    else if out == 0
    then fail no_fill c.quality (text "ZERO_QUOTE_OUT")
    else if ltb c.max_slip_bps imp
    then fail rejected_slippage c.quality (impact_gt_max imp c.max_slip_bps)
    else record {
      status = filled;
      quality = c.quality;
      token_amount = tok_in;
      quote_amount = out;
      protocol_fee = share_bps gross c.fee_bps;
      snipe_tax = share_bps (less_bps gross c.fee_bps) c.snipe_bps;
      reference_price_1e18 = ref_px;
      effective_price_1e18 = eff;
      price_impact_bps = some imp;
      fill_fraction_bps = 10_000;
      reason = none;
    }

abbrev pub swap_on : OrderSide → SwapTerms → ℕ → ℕ → Option ℕ → Option ℕ → ℕ → VenueFill
swap_on buy c vs vt real_tok real_sol amount = buy_swap c vs vt real_tok amount
swap_on sell c vs vt real_tok real_sol amount = sell_swap c vs vt real_sol amount

unfoldable pub curve_swap : SwapTerms → ℕ → ℕ → Option ℕ → Option ℕ → OrderSide → ℕ → VenueFill
curve_swap c vs vt real_tok real_sol side amount =
    if vs == 0 || vt == 0
    then fail rejected_liquidity c.quality (text "ZERO_VIRTUAL_RESERVE")
    else swap_on side c vs vt real_tok real_sol amount

unfoldable pub cp_swap : SwapTerms → ℕ → ℕ → OrderSide → ℕ → VenueFill
cp_swap c r_quote r_tok side amount =
    curve_swap c r_quote r_tok (some r_tok) (some r_quote) side amount
