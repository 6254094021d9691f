-- ===== src/Sim/Position/Returns.antt =====
-- `return_bps` and `capture_ratio_bps` of apps/engine/src/sim/position.rs.
use mathlib.Core.Path.{subst}
use native.Mathlib.Nat.{
  mul-le-mul, le_refl, div-lt_iff_lt-mul, le-div_iff_mul-le, div-mul-le_self, div-le_of_le-mul,
}
use memecoin_bot.Base.{
  ℕ, ◌-◌, ◌/◌, ◌+◌, ◌*◌, ◌≤◌, ◌<◌, ◌⊎◌, inl, inr, Bool-cases, u256_max, ◌≡◌, ◌↔◌, Option, none,
  some, arith, min, leb, ◌==◌, if◌then◌else◌, sat_mul, i64_max, u32_max,
}
use memecoin_bot.Base.Int.{ℤ, pos, negsuc, neg, pos_part, neg_part, ◌≤ℤ◌}

unfoldable pub return_bps : ℕ → ℕ → Option ℤ
return_bps cost value =
    if cost == 0
    then none
    else if leb cost value
    then some (pos (min (sat_mul (value - cost) 10_000 / cost) i64_max))
    else some (neg (pos (min (sat_mul (cost - value) 10_000 / cost) i64_max)))

unfoldable pub capture_ratio_bps : ℕ → ℕ → ℕ → Option ℕ
capture_ratio_bps cost realized mfe =
    if leb mfe cost
    then none
    else let real_pnl = if leb cost realized then realized - cost else 0 in
      some (min (sat_mul real_pnl 10_000 / (mfe - cost)) u32_max)

-- Basis points of a part of `c` grow with the part.
bps_mono : (a b c : ℕ) → 0 < c → a ≤ b → sat_mul a 10_000 / c ≤ sat_mul b 10_000 / c
bps_mono a b c positive le =
    (le-div_iff_mul-le positive).1
      (omega (arith, div-mul-le_self (sat_mul a 10_000) c, mul-le-mul le (le_refl 10_000)))

bps_le : (a c : ℕ) → a ≤ c → sat_mul a 10_000 / c ≤ 10_000
bps_le a c le = div-le_of_le-mul c (omega arith)

-- `q` is the part that `a` is of `c` in basis points, rounded down, unless that is above the greatest `i64`
-- or ten thousand times `a` above the greatest `U256`: then it is not more than the part.
abbrev pub IsBps : ℕ → ℕ → ℕ → Type 0
IsBps a c q =
    (q * c ≤ a * 10_000) × ((a * 10_000 < (q + 1) * c) ⊎ (q ≡ i64_max) ⊎ (u256_max < a * 10_000))

bps_lem : (a c : ℕ) → 0 < c → IsBps a c (min (sat_mul a 10_000 / c) i64_max)
bps_lem a c positive =
    let x : ℕ = sat_mul a 10_000 in
    let q : ℕ = x / c in
    let below : q * c ≤ x = div-mul-le_self x c in
    let above : x < (q + 1) * c = (div-lt_iff_lt-mul positive).0 (omega arith) in
    let capped : min q i64_max * c ≤ q * c = mul-le-mul (omega arith) (le_refl c) in
    (
      omega (arith, below, capped),
      elim (Bool-cases (leb q i64_max)) [
        | inl e ↦ elim (Bool-cases (leb (a * 10_000) u256_max)) [
          | inl f ↦
              let whole : x ≡ a * 10_000 = ground arith in
              let small : min q i64_max ≡ q = ground arith in
              inl (rw small (omega (arith, whole, above)))
          | inr f ↦ inr (inr (ground arith))
        ]
        | inr e ↦ inr (inl (ground arith))
      ],
    )

neg_pos : (q : ℕ) → (neg_part (neg (pos q)) ≡ q) × (pos_part (neg (pos q)) ≡ 0)
unfolding neg
neg_pos q = ground arith

no_bps : (c : ℕ) → sat_mul 0 10_000 / c ≤ 0
no_bps c = div-le_of_le-mul c (omega arith)

-- What a return says of the gain or the loss.
abbrev pub IsReturnOf : ℕ → ℕ → ℤ → Type 0
IsReturnOf cost value r =
    (negsuc 9_999 ≤ℤ r)
    × (cost ≤ value → (pos 0 ≤ℤ r) × IsBps (value - cost) cost (pos_part r))
    × (value ≤ cost → (r ≤ℤ pos 0) × IsBps (cost - value) cost (neg_part r))

gain-IsReturnOf :
    (cost value : ℕ)
    → 0 < cost
    → cost ≤ value
    → IsReturnOf cost value (pos (min (sat_mul (value - cost) 10_000 / cost) i64_max))
gain-IsReturnOf cost value positive le =
    let q = no_bps cost in
    (
      omega arith,
      λ _. (omega arith, bps_lem (value - cost) cost positive),
      λ ge.
          let even : value - cost ≡ 0 = omega arith in
          (rw even (omega (arith, q)), (omega arith, inl (omega arith))),
    )

loss-IsReturnOf :
    (cost value : ℕ)
    → 0 < cost
    → value < cost
    → IsReturnOf cost value (neg (pos (min (sat_mul (cost - value) 10_000 / cost) i64_max)))
loss-IsReturnOf cost value positive lt =
    let q : ℕ = min (sat_mul (cost - value) 10_000 / cost) i64_max in
    let (n, p) = neg_pos q in
    (
      omega (arith, n, p, bps_le (cost - value) cost (omega arith)),
      λ le. absurd (omega arith),
      λ le. (omega (arith, n, p), rw n (bps_lem (cost - value) cost positive)),
    )

-- A return is unknown exactly for a cost of 0; else it is at least -10000, the loss of everything. Of a
-- value of at least the cost it is not negative, and of at most the cost not positive: it is the gain or
-- the loss in basis points of the cost, rounded towards 0, or less where that is past the machine's range.
pub return_bps_range :
    (cost value : ℕ)
    → (return_bps cost value ≡ none ↔ (cost ≡ 0))
      × ((r : ℤ) → return_bps cost value ≡ some r → IsReturnOf cost value r)
unfolding return_bps
return_bps_range cost value = (
  (λ h. ground arith, λ e. ground arith),
  λ r h. elim (Bool-cases (leb cost value)) [
    | inl e ↦
        let same : pos (min (sat_mul (value - cost) 10_000 / cost) i64_max) ≡ r = ground arith in
        subst (λ (r : ℤ). IsReturnOf cost value r) same
          (gain-IsReturnOf cost value (ground arith) (ground arith))
    | inr e ↦
        let same : neg (pos (min (sat_mul (cost - value) 10_000 / cost) i64_max)) ≡ r =
          ground arith in
        subst (λ (r : ℤ). IsReturnOf cost value r) same
          (loss-IsReturnOf cost value (ground arith) (ground arith))
  ],
)

-- A larger value never has a smaller return on the same cost.
pub return_bps_mono :
    (cost v w : ℕ) (r s : ℤ)
    → v ≤ w
    → return_bps cost v ≡ some r
    → return_bps cost w ≡ some s
    → r ≤ℤ s
unfolding return_bps neg
return_bps_mono cost v w r s le hv hw =
    ground (arith, bps_mono (v - cost) (w - cost) cost, bps_mono (cost - w) (cost - v) cost)

-- The capture ratio is known exactly where the best mark was above the cost, and is at most the whole
-- where the realised quote is at most the best mark.
pub capture_ratio_bps_range :
    (cost realized mfe : ℕ)
    → (capture_ratio_bps cost realized mfe ≡ none ↔ (mfe ≤ cost))
      × ((r : ℕ) → capture_ratio_bps cost realized mfe ≡ some r → realized ≤ mfe → r ≤ 10_000)
unfolding capture_ratio_bps
capture_ratio_bps_range cost realized mfe = (
  (λ h. ground arith, λ le. ground arith),
  λ r h le. ground (arith, bps_le (realized - cost) (mfe - cost), bps_le 0 (mfe - cost)),
)
