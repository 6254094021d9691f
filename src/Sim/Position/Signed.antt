-- ===== src/Sim/Position/Signed.antt =====
-- Signed amounts: `signed_add` of apps/engine/src/sim/position.rs.
use memecoin_bot.Base.{
  ℕ, ◌+◌, ◌-◌, ◌≤◌, ◌≡◌, Bool, true, false, arith, leb, if◌then◌else◌, sat_add, u256_max,
}
use memecoin_bot.Base.Int.{ℤ, sub_ℕ, ◌+ℤ◌}

-- A signed decimal string: its sign, and the amount behind it.
pub record Signed : Type 0 where
  pub negative : Bool
  pub magnitude : ℕ

abbrev pub plus : ℕ → Signed
plus n = record { negative = false; magnitude = n }

abbrev pub minus : ℕ → Signed
minus n = record { negative = true; magnitude = n }

abbrev pub add_by_signs : Bool → Bool → ℕ → ℕ → Signed
add_by_signs false false a b = plus (sat_add a b)
add_by_signs true true a b = minus (sat_add a b)
add_by_signs false true a b = if leb b a then plus (a - b) else minus (b - a)
add_by_signs true false a b = if leb a b then plus (b - a) else minus (a - b)

unfoldable pub signed_add : Signed → Signed → Signed
signed_add a b = add_by_signs a.negative b.negative a.magnitude b.magnitude

-- The integer that a sign and a magnitude stand for.
abbrev pub value : Signed → ℤ
value s = if s.negative then sub_ℕ 0 s.magnitude else sub_ℕ s.magnitude 0

-- Where the magnitudes together fit a `U256`, signed addition is the addition of integers.
pub value-signed_add :
    (a b : Signed)
    → a.magnitude + b.magnitude ≤ u256_max
    → value (signed_add a b) ≡ value a +ℤ value b
unfolding signed_add ◌+ℤ◌
value-signed_add a b fits = ground arith
