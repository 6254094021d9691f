-- ===== src/Sim/Outcome/Path.antt =====
-- The walk of `token_outcome` of apps/engine/src/sim/outcome.rs, as folds over the prices that it sees.
pub mod Labels
use memecoin_bot.Base.{
  ℕ, ◌*◌, ◌≤◌, ◌<◌, ◌≡◌, refl, ◌∙◌, ap, sym, ◌⊎◌, inl, inr, String, Bool, true, false, Option, none,
  some, List, [], ◌∷◌, arith, ltb, leb, ◌==◌, if◌then◌else◌, u256_max, sat_mul, All, All-map,
  filter_by, max_by_key, max_by_key-IsGreatest, IsGreatest, Bool-cases, Option-cases, not, ◌&&◌,
}
use mathlib.Core.Option.{some-injective}
use mathlib.Core.Path.{subst}
use memecoin_bot.Base.Int.{ℤ, ◌-ℤ◌, ◌+ℤ◌}
use memecoin_bot.Domain.{Chain, Launchpad}
use memecoin_bot.State.Snapshot.{TokenStateSnapshot}
use memecoin_bot.Sim.Venue.{spot_price_1e18}
use memecoin_bot.Sim.Position.Returns.{return_bps}
use memecoin_bot.Sim.Outcome.{
  TokenOutcome, PriceWalk, crossing, see_price, see_option, walk_prices, walk_from, is_known,
  reached, of_token, within_horizon, empty_outcome, outcome_of, outcome_at, outcome_from,
  by_reference, token_outcome, wrap_mul,
}

abbrev price_cons : ℤ → Option ℕ → List (ℤ × ℕ) → List (ℤ × ℕ)
price_cons time none ps = ps
price_cons time (some px) ps = (time, px) ∷ ps

-- The snapshots with a price.
abbrev pub priced : List TokenStateSnapshot → List (ℤ × ℕ)
priced [] = []
priced (s ∷ ss) = price_cons s.snapshot_time (spot_price_1e18 s) (priced ss)

abbrev pub highest : ℕ → List (ℤ × ℕ) → ℕ
highest m [] = m
highest m (p ∷ ps) = highest (if ltb m p.1 then p.1 else m) ps

abbrev pub lowest : ℕ → List (ℤ × ℕ) → ℕ
lowest m [] = m
lowest m (p ∷ ps) = lowest (if ltb p.1 m then p.1 else m) ps

abbrev pub last_price : ℕ → List (ℤ × ℕ) → ℕ
last_price px [] = px
last_price px (p ∷ ps) = last_price p.1 ps

abbrev crossed : ℕ → ℕ → ℤ → Option ℤ → List (ℤ × ℕ) → Option ℤ
crossed k rp reference t [] = t
crossed k rp reference t (p ∷ ps) =
    crossed k rp reference (crossing k rp (p.0 -ℤ reference) p.1 t) ps

abbrev summary : ℕ → ℤ → PriceWalk → List (ℤ × ℕ) → PriceWalk
summary rp reference w ps = record {
  max_px = highest w.max_px ps;
  min_px = lowest w.min_px ps;
  final_px = last_price w.final_px ps;
  t2 = crossed 2 rp reference w.t2 ps;
  t5 = crossed 5 rp reference w.t5 ps;
  t10 = crossed 10 rp reference w.t10 ps;
  t20 = crossed 20 rp reference w.t20 ps;
}

pub walk_prices_lem :
    (rp : ℕ) (reference : ℤ) (w : PriceWalk) (ss : List TokenStateSnapshot)
    → walk_prices rp reference w ss ≡ summary rp reference w (priced ss)
unfolding see_price
walk_prices_lem rp reference w [] = refl
walk_prices_lem rp reference w (s ∷ ss) = elim (Option-cases (spot_price_1e18 s)) [
  | inl e ↦ rw e (walk_prices_lem rp reference w ss)
  | inr (px, e) ↦
      rw e (walk_prices_lem rp reference (see_price rp reference w s.snapshot_time px) ss)
]

abbrev pub Attained : ℕ → List (ℤ × ℕ) → Type 0
Attained m [] = ⊥
Attained m (p ∷ ps) = (p.1 ≡ m) ⊎ Attained m ps

abbrev pub IsHighest : ℕ → List (ℤ × ℕ) → ℕ → Type 0
IsHighest rp ps m = (rp ≤ m) × All (λ (p : ℤ × ℕ). p.1 ≤ m) ps × ((m ≡ rp) ⊎ Attained m ps)

abbrev pub IsLowest : ℕ → List (ℤ × ℕ) → ℕ → Type 0
IsLowest rp ps m = (m ≤ rp) × All (λ (p : ℤ × ℕ). m ≤ p.1) ps × ((m ≡ rp) ⊎ Attained m ps)

raised :
    (m px : ℕ) → let b = if ltb m px then px else m in (m ≤ b) × (px ≤ b) × ((b ≡ px) ⊎ (b ≡ m))
raised m px = elim (Bool-cases (ltb m px)) [
  | inl e ↦ rw e (ground arith, omega arith, inl refl)
  | inr e ↦ rw e (omega arith, ground arith, inr refl)
]

lowered :
    (m px : ℕ) → let b = if ltb px m then px else m in (b ≤ m) × (b ≤ px) × ((b ≡ px) ⊎ (b ≡ m))
lowered m px = elim (Bool-cases (ltb px m)) [
  | inl e ↦ rw e (ground arith, omega arith, inl refl)
  | inr e ↦ rw e (omega arith, ground arith, inr refl)
]

Attained-later :
    (r b m : ℕ) (p : ℤ × ℕ) (ps : List (ℤ × ℕ))
    → (b ≡ p.1) ⊎ (b ≡ m)
    → (r ≡ b) ⊎ Attained r ps
    → (r ≡ m) ⊎ Attained r (p ∷ ps)
Attained-later r b m p ps c (inr q) = inr (inr q)
Attained-later r b m p ps (inl e) (inl q) = inr (inl (sym (q ∙ e)))
Attained-later r b m p ps (inr e) (inl q) = inl (q ∙ e)

pub highest-IsHighest : (m : ℕ) (ps : List (ℤ × ℕ)) → IsHighest m ps (highest m ps)
highest-IsHighest m [] = (omega arith, tt, inl refl)
highest-IsHighest m (p ∷ ps) =
    let b : ℕ = if ltb m p.1 then p.1 else m in
    let (above, over, one) = raised m p.1 in
    let (le, below, at) = highest-IsHighest b ps in
    (omega arith, (omega arith, below), Attained-later (highest b ps) b m p ps one at)

pub lowest-IsLowest : (m : ℕ) (ps : List (ℤ × ℕ)) → IsLowest m ps (lowest m ps)
lowest-IsLowest m [] = (omega arith, tt, inl refl)
lowest-IsLowest m (p ∷ ps) =
    let b : ℕ = if ltb p.1 m then p.1 else m in
    let (under, over, one) = lowered m p.1 in
    let (le, above, at) = lowest-IsLowest b ps in
    (omega arith, (omega arith, above), Attained-later (lowest b ps) b m p ps one at)

-- The first price of at least `k` times the reference came `t` after the reference, or none has come.
abbrev pub IsFirst : ℕ → ℕ → ℤ → List (ℤ × ℕ) → Option ℤ → Type 0
IsFirst k rp reference ps none = All (λ (p : ℤ × ℕ). p.1 < rp * k) ps
IsFirst k rp reference [] (some t) = ⊥
IsFirst k rp reference (p ∷ ps) (some t) =
    ((rp * k ≤ p.1) × (t ≡ p.0 -ℤ reference))
    ⊎ ((p.1 < rp * k) × IsFirst k rp reference ps (some t))

-- The time of the label: with a reference price of 0 there is none.
abbrev pub TimeIs : ℕ → ℕ → ℤ → List (ℤ × ℕ) → Option ℤ → Type 0
TimeIs k rp reference ps t = ((rp ≡ 0) × (t ≡ none)) ⊎ ((0 < rp) × IsFirst k rp reference ps t)

crossed-some :
    (k rp : ℕ) (reference t : ℤ) (ps : List (ℤ × ℕ)) → crossed k rp reference (some t) ps ≡ some t
unfolding crossing
crossed-some k rp reference t [] = refl
crossed-some k rp reference t (p ∷ ps) = crossed-some k rp reference t ps

IsFirst-later :
    (k rp : ℕ) (reference : ℤ) (p : ℤ × ℕ) (ps : List (ℤ × ℕ)) (t : Option ℤ)
    → p.1 < rp * k
    → IsFirst k rp reference ps t
    → IsFirst k rp reference (p ∷ ps) t
IsFirst-later k rp reference p ps none lt h = (lt, h)
IsFirst-later k rp reference p ps (some t) lt h = inr (lt, h)

module _ (k rp : ℕ) (reference : ℤ) (fits : rp * k ≤ u256_max) where
  wrap_mul-fits : wrap_mul rp k ≡ rp * k
  unfolding u256_max
  wrap_mul-fits = omega arith

  crossing-none :
      (elapsed : ℤ) (px : ℕ)
      → 0 < rp
      → crossing k rp elapsed px none ≡ (if leb (rp * k) px then some elapsed else none)
  unfolding crossing
  crossing-none elapsed px positive = rw wrap_mul-fits (ground arith)

  crossed-IsFirst :
      (ps : List (ℤ × ℕ)) → 0 < rp → IsFirst k rp reference ps (crossed k rp reference none ps)
  crossed-IsFirst [] positive = tt
  crossed-IsFirst (p ∷ ps) positive = elim (Bool-cases (leb (rp * k) p.1)) [
    | inl e ↦
        rw
          (
            crossing-none (p.0 -ℤ reference) p.1 positive,
            e,
            crossed-some k rp reference (p.0 -ℤ reference) ps,
          )
          (inl (ground arith, refl))
    | inr e ↦
        rw (crossing-none (p.0 -ℤ reference) p.1 positive, e)
          (IsFirst-later k rp reference p ps (crossed k rp reference none ps) (ground arith)
            (crossed-IsFirst ps positive))
  ]

  crossing-zero : (elapsed : ℤ) (px : ℕ) → rp ≡ 0 → crossing k rp elapsed px none ≡ none
  unfolding crossing
  crossing-zero elapsed px h = ground arith

  crossed-zero : (ps : List (ℤ × ℕ)) → rp ≡ 0 → crossed k rp reference none ps ≡ none
  crossed-zero [] h = refl
  crossed-zero (p ∷ ps) h = rw (crossing-zero (p.0 -ℤ reference) p.1 h) (crossed-zero ps h)

  -- A first crossing is at most the highest price.
  IsFirst-le :
      (ps : List (ℤ × ℕ)) (m : ℕ) (t : ℤ)
      → All (λ (p : ℤ × ℕ). p.1 ≤ m) ps
      → IsFirst k rp reference ps (some t)
      → rp * k ≤ m
  IsFirst-le [] m t h f = elim f [ ]
  IsFirst-le (p ∷ ps) m t h (inl q) = omega (arith, q.0, h.0)
  IsFirst-le (p ∷ ps) m t h (inr q) = IsFirst-le ps m t h.1 q.1

  pub TimeIs_lem : (ps : List (ℤ × ℕ)) → TimeIs k rp reference ps (crossed k rp reference none ps)
  TimeIs_lem ps = elim (Bool-cases (rp == 0)) [
    | inl e ↦ inl (ground arith, crossed-zero ps (ground arith))
    | inr e ↦ inr (ground arith, crossed-IsFirst ps (ground arith))
  ]

  pub reached_lem :
      (ps : List (ℤ × ℕ)) (m : ℕ) (t : Option ℤ)
      → All (λ (p : ℤ × ℕ). p.1 ≤ m) ps
      → TimeIs k rp reference ps t
      → reached k rp m t ≡ leb (rp * k) m
  reached_lem ps m none h q = ground arith
  reached_lem ps m (some t) h (inl q) = absurd (cc (q.1))
  reached_lem ps m (some t) h (inr q) = ground (arith, IsFirst-le ps m t h q.1)
