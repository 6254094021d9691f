-- ===== src/Sim/Tests/Fills.antt =====
-- Buys, sales and the search on a concrete curve: apps/engine/src/sim/impact.rs.
use memecoin_bot.Base.{ℕ, ◌+◌, ◌≤◌, ◌<◌, ◌≡◌, ◌≢◌, ◌⊎◌, refl, true, false, none, some, arith}
use memecoin_bot.Sim.Types.{is_fill, buy, sell, filled, partial_fill}
use memecoin_bot.Sim.Models.{apply_adverse_bps}
use memecoin_bot.Sim.Curve.{
  curve_swap, buy_swap, sell_swap, finish_buy, buy_status, fraction_bps, booked_quote, cap_at,
  swap_out, less_bps, share_bps, price_1e18, impact_bps, adverse_move, tokens_out, net_in,
  gross_out, quote_out,
}
use memecoin_bot.Sim.Curve.Buy.{
  IsShares, BuyFill, uncapped_out, curve_swap-BuyFill, curve_swap-buy_no_fill,
  curve_swap-buy_booking, curve_swap-buy_mono,
}
use memecoin_bot.Sim.Curve.Sell.{
  SellFill, curve_swap-SellFill, curve_swap-sell_no_fill, curve_swap-sell_mono,
}
use memecoin_bot.Sim.Samples.{terms}

abbrev vs : ℕ
vs = 30_000_000_000

abbrev vt : ℕ
vt = 1_073_000_000_000_000

abbrev terms-IsShares : IsShares terms
terms-IsShares = record { fee_le = omega arith; snipe_le = omega arith }

buys : (curve_swap terms vs vt none none buy 1_000_000_000).status ≡ filled
unfolding curve_swap buy_swap finish_buy buy_status fraction_bps booked_quote cap_at swap_out
    less_bps share_bps price_1e18 impact_bps adverse_move tokens_out net_in apply_adverse_bps
    memecoin_bot.Base.u256_max
buys = refl

capped :
    (curve_swap terms vs vt (some 30_000_000_000_000) none buy 1_000_000_000).status ≡ partial_fill
unfolding curve_swap buy_swap finish_buy buy_status fraction_bps booked_quote cap_at swap_out
    less_bps share_bps price_1e18 impact_bps adverse_move tokens_out net_in apply_adverse_bps
    memecoin_bot.Base.u256_max
capped = refl

buys_two : (curve_swap terms vs vt none none buy 2_000_000_000).status ≡ filled
unfolding curve_swap buy_swap finish_buy buy_status fraction_bps booked_quote cap_at swap_out
    less_bps share_bps price_1e18 impact_bps adverse_move tokens_out net_in apply_adverse_bps
    memecoin_bot.Base.u256_max
buys_two = refl

sells : (curve_swap terms vs vt none none sell 1_000_000_000_000).status ≡ filled
unfolding curve_swap sell_swap gross_out quote_out cap_at swap_out less_bps share_bps price_1e18
    impact_bps adverse_move apply_adverse_bps memecoin_bot.Base.u256_max
sells = refl

refused : is_fill (curve_swap terms vs vt none none buy 0).status ≡ false
unfolding curve_swap buy_swap
refused = refl

refused_sale : is_fill (curve_swap terms vs vt none none sell 0).status ≡ false
unfolding curve_swap sell_swap
refused_sale = refl

curve_swap-BuyFill_example :
    BuyFill terms vt none 1_000_000_000 (curve_swap terms vs vt none none buy 1_000_000_000)
curve_swap-BuyFill_example =
    curve_swap-BuyFill terms vs vt none none 1_000_000_000 terms-IsShares (rw buys refl)

curve_swap-SellFill_example :
    SellFill terms vs none 1_000_000_000_000
      (curve_swap terms vs vt none none sell 1_000_000_000_000)
curve_swap-SellFill_example =
    curve_swap-SellFill terms vs vt none none 1_000_000_000_000 terms-IsShares (rw sells refl)

curve_swap-buy_no_fill_example :
    ((curve_swap terms vs vt none none buy 0).token_amount ≡ 0)
    × ((curve_swap terms vs vt none none buy 0).quote_amount ≡ 0)
unfolding memecoin_bot.Base.u256_max
curve_swap-buy_no_fill_example =
    curve_swap-buy_no_fill terms vs vt none none 0 (omega arith) refused

curve_swap-sell_no_fill_example :
    ((curve_swap terms vs vt none none sell 0).token_amount ≡ 0)
    × ((curve_swap terms vs vt none none sell 0).quote_amount ≡ 0)
curve_swap-sell_no_fill_example = curve_swap-sell_no_fill terms vs vt none none 0 refused_sale

-- A buy that the real reserve cuts short.
curve_swap-buy_booking_example :
    let r = curve_swap terms vs vt (some 30_000_000_000_000) none buy 1_000_000_000 in
    (r.token_amount ≡ uncapped_out terms vs vt 1_000_000_000 → r.quote_amount ≡ 1_000_000_000)
    × (r.token_amount ≢ uncapped_out terms vs vt 1_000_000_000
        → r.quote_amount + r.snipe_tax + r.protocol_fee ≤ 1_000_000_000)
curve_swap-buy_booking_example =
    curve_swap-buy_booking terms vs vt (some 30_000_000_000_000) none 1_000_000_000 terms-IsShares
      (rw capped refl)

curve_swap-buy_mono_example :
    (curve_swap terms vs vt none none buy 1_000_000_000).token_amount
    ≤ (curve_swap terms vs vt none none buy 2_000_000_000).token_amount
curve_swap-buy_mono_example =
    curve_swap-buy_mono terms vs vt none none 1_000_000_000 2_000_000_000 terms-IsShares
      (omega arith) (rw buys refl) (rw buys_two refl)

sells_more : (curve_swap terms vs vt none none sell 2_000_000_000_000).status ≡ filled
unfolding curve_swap sell_swap gross_out quote_out cap_at swap_out less_bps share_bps price_1e18
    impact_bps adverse_move apply_adverse_bps memecoin_bot.Base.u256_max
sells_more = refl

curve_swap-sell_mono_example :
    (curve_swap terms vs vt none none sell 1_000_000_000_000).quote_amount
    ≤ (curve_swap terms vs vt none none sell 2_000_000_000_000).quote_amount
curve_swap-sell_mono_example =
    curve_swap-sell_mono terms vs vt none none 1_000_000_000_000 2_000_000_000_000 terms-IsShares
      (omega arith) (rw sells refl) (rw sells_more refl)
