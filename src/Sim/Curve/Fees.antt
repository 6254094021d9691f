-- ===== src/Sim/Curve/Fees.antt =====
-- Arithmetic of the fees, the swap and the cap of apps/engine/src/sim/impact.rs.
use native.Mathlib.Nat.{
  mul-le-mul, le-div_iff_mul-le, div-mul-le_self, lt-div-mul-add, div-lt_iff_lt-mul, le_refl,
}
use memecoin_bot.Base.{
  ℕ, ◌+◌, ◌-◌, ◌*◌, ◌/◌, ◌≤◌, ◌<◌, ◌≡◌, Option, none, some, arith, sat_add, one-le-u256_max,
}
use memecoin_bot.Sim.Models.{apply_adverse_bps}
use memecoin_bot.Sim.Curve.{share_bps, less_bps, swap_out, cap_at, booked_quote}

pub share_bps-le : (a bps : ℕ) → bps ≤ 10_000 → share_bps a bps ≤ a
unfolding share_bps
share_bps-le a bps h = omega (arith, mul-le-mul (le_refl a) h)

pub less_bps-le : (a bps : ℕ) → less_bps a bps ≤ a
unfolding less_bps
less_bps-le a bps = omega arith

pub less_bps_split : (a bps : ℕ) → bps ≤ 10_000 → share_bps a bps + less_bps a bps ≡ a
unfolding less_bps
less_bps_split a bps h = omega (arith, share_bps-le a bps h)

pub less_bps_mono : (a b bps : ℕ) → bps ≤ 10_000 → a ≤ b → less_bps a bps ≤ less_bps b bps
unfolding less_bps share_bps
less_bps_mono a b bps h le =
    omega (arith, rest, mul-le-mul (le_refl (b - a)) h, mul-le-mul le (le_refl bps))
  where
    rest : b * bps ≡ a * bps + (b - a) * bps
    rest = let e : b ≡ a + (b - a) = omega arith in grind arith

pub apply_adverse_bps-le : (a bps : ℕ) → apply_adverse_bps a bps ≤ a
unfolding apply_adverse_bps
apply_adverse_bps-le a bps =
    let keep : 10_000 - bps ≤ 10_000 = omega arith in ground (arith, mul-le-mul (le_refl a) keep)

pub apply_adverse_bps_mono :
    (a b bps : ℕ) → a ≤ b → apply_adverse_bps a bps ≤ apply_adverse_bps b bps
unfolding apply_adverse_bps
apply_adverse_bps_mono a b bps h = ground (arith, mul-le-mul h (le_refl (10_000 - bps)))

pub cap_at-le : (cap : Option ℕ) (a : ℕ) → cap_at cap a ≤ a
unfolding cap_at
cap_at-le none a = le_refl a
cap_at-le (some c) a = ground arith

pub cap_at_mono : (cap : Option ℕ) (a b : ℕ) → a ≤ b → cap_at cap a ≤ cap_at cap b
unfolding cap_at
cap_at_mono none a b h = h
cap_at_mono (some c) a b h = ground arith

pub cap_at-le-cap : (c a : ℕ) → 0 < c → cap_at (some c) a ≤ c
unfolding cap_at
cap_at-le-cap c a h = ground arith

div-le_div : (k a b : ℕ) → 0 < a → a ≤ b → k / b ≤ k / a
div-le_div k a b pos le =
    (le-div_iff_mul-le pos).1 (omega (arith, div-mul-le_self k b, mul-le-mul (le_refl (k / b)) le))

pub swap_out-le : (k into out a : ℕ) → swap_out k into out a ≤ out
unfolding swap_out
swap_out-le k into out a = omega arith

pub swap_out_mono :
    (k into out a b : ℕ) → 0 < into → a ≤ b → swap_out k into out a ≤ swap_out k into out b
unfolding swap_out
swap_out_mono k into out a b pos le = omega (
  arith,
  div-le_div k (sat_add into a) (sat_add into b) (omega (arith, one-le-u256_max)) (omega arith),
)

-- Taking fewer tokens than the swap gives costs less than what enters the swap.
div-lt_of_less : (k s vt tok : ℕ) → 0 < s → tok < vt - k / s → k / (vt - tok) < s
div-lt_of_less k s vt tok pos less =
    let above : k < (k / s + 1) * s = omega (arith, lt-div-mul-add {a = k} pos) in
    let more : (k / s + 1) * s ≤ (vt - tok) * s = mul-le-mul (omega arith) (le_refl s) in
    (div-lt_iff_lt-mul (omega arith)).1 (omega arith)

-- The quote of a buy that does not take all the tokens of its swap is at most what entered the swap.
pub booked_quote-le :
    (k vs vt net tok quote_in : ℕ)
    → 0 < vs
    → 0 < tok
    → tok < swap_out k vs vt net
    → booked_quote k vs vt (swap_out k vs vt net) tok quote_in ≤ net
unfolding booked_quote swap_out
booked_quote-le k vs vt net tok quote_in pos some_out less =
    let entered : 0 < sat_add vs net = omega (arith, one-le-u256_max) in
    ground (arith, div-lt_of_less k (sat_add vs net) vt tok entered less)
