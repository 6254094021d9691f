-- ===== src/State/Schedule/Grid.antt =====
-- The walk of a band of apps/engine/src/state/schedule.rs ends, and yields exactly the instants of the
-- band that are due.
use native.Mathlib.Nat.{
  mod-eq-sub-mod, mod-eq_of_lt, add-mul-mod_self_right, lt-div-mul-add, div-mul-le_self, add-mul,
}
use native.Mathlib.Decide.{dec_lt}
use memecoin_bot.Base.{
  ℕ, zero, suc, ◌+◌, ◌-◌, ◌*◌, ◌/◌, ◌%◌, ◌<◌, ◌≤◌, ◌≡◌, refl, ◌∙◌, ap, Bool, true, false, ◌&&◌,
  ◌||◌, some, List, [], ◌∷◌, arith, ltb, leb, ◌==◌, if◌then◌else◌, i64_max, Bool-cases, inl, inr,
}
use memecoin_bot.Base.Int.{ℤ, pos, negsuc, ◌+ℤ◌, ◌-ℤ◌, leb_ℤ, ltb_ℤ}
use memecoin_bot.State.Schedule.{
  PeriodicBand, sat_add_ms, band_from, band_start, band_times, contains_time,
}

-- Whether `n` is one of `first`, `first + every` and so on, up to `last`.
abbrev pub on_grid : ℕ → ℕ → ℕ → ℕ → Bool
on_grid every first last n = leb first n && (n - first) % every == 0 && leb n last

abbrev pub is_due_at : ℕ → ℕ → ℕ → Bool
is_due_at from until n = ltb from n && leb n until

pub sat_add_ms-pos : (a d : ℕ) → a + d ≤ i64_max → sat_add_ms (pos a) d ≡ pos (a + d)
unfolding sat_add_ms ◌+ℤ◌
sat_add_ms-pos a d h = ground arith

-- The first instant of a grid, or the grid that starts at the second.
on_grid-next :
    (every first last n : ℕ)
    → 0 < every
    → first ≤ last
    → on_grid every first last n ≡ ((n == first) || on_grid every (first + every) last n)
on_grid-next every first last n h k = elim (dec_lt n first) [
  | yes p ↦ ground arith
  | no p ↦ elim (dec_lt n (first + every)) [
    | yes q ↦ ground (arith, mod-eq_of_lt {n = n - first} {m = every})
    | no q ↦
        let same : (n - first) % every ≡ (n - (first + every)) % every =
          mod-eq-sub-mod {n = n - first} {m = every} (omega arith)
          ∙ ap (λ (x : ℕ). x % every) (omega arith) in
        ground (arith, same)
  ]
]

-- One round of the loop whose test holds.
band_from_more :
    (fuel : ℕ) (from until last at at' : ℤ) (every : ℕ) (rest : List ℤ)
    → (leb_ℤ at until && leb_ℤ at last) ≡ true
    → sat_add_ms at every ≡ at'
    → band_from fuel from until last every at' ≡ some rest
    → band_from (suc fuel) from until last every at
      ≡ some (if ltb_ℤ from at then at ∷ rest else rest)
unfolding band_from
band_from_more fuel from until last at at' every rest e next runs =
    rw (band_from, e, next, runs) refl

-- Within the fuel, the loop from `at` yields the due instants of the grid.
band_from_lem :
    (fuel from until last every at : ℕ)
    → 0 < every
    → 0 < fuel
    → last + 2 ≤ fuel + at
    → last + every ≤ i64_max
    → (ts : List ℤ) × (band_from fuel (pos from) (pos until) (pos last) every (pos at) ≡ some ts)
      × ((n : ℕ) → contains_time (pos n) ts ≡ (is_due_at from until n && on_grid every at last n))
      × ((n : ℕ) → contains_time (negsuc n) ts ≡ false)
unfolding band_from
band_from_lem zero from until last every at p f h b = absurd (omega arith)
band_from_lem (suc fuel) from until last every at p f h b =
    elim (Bool-cases (leb_ℤ (pos at) (pos until) && leb_ℤ (pos at) (pos last))) [
      | inr e ↦ ([], rw (band_from, e) refl, λ n. ground arith, λ n. refl)
      | inl e ↦
          let next = sat_add_ms-pos at every (ground arith) in
          let (rest, runs, has, has_not) =
            band_from_lem fuel from until last every (at + every) p (ground arith) (omega arith)
              b in
          (
            if ltb_ℤ (pos from) (pos at) then pos at ∷ rest else rest,
            band_from_more fuel (pos from) (pos until) (pos last) (pos at) (pos (at + every)) every
                rest e next runs,
            λ n. ground (arith, has n, on_grid-next every at last n p (ground arith)),
            λ n. ground (arith, has_not n),
          )
    ]

mod_shift : (x k every : ℕ) → k * every ≤ x → x % every ≡ (x - k * every) % every
mod_shift x k every h =
    ap (λ (y : ℕ). y % every) (omega arith) ∙ add-mul-mod_self_right (x - k * every) k every

-- `q` periods fit between `start` and `from`, and `q + 1` do not.
on_grid_skip :
    (from start every q : ℕ)
    → 0 < every
    → start + q * every ≤ from
    → from < start + (q * every + every)
    → (last until n : ℕ)
    → (is_due_at from until n && on_grid every (start + (q * every + every)) last n)
      ≡ (is_due_at from until n && on_grid every start last n)
on_grid_skip from start every q p lo hi last until n = elim (dec_lt from n) [
  | no e ↦ ground arith
  | yes e ↦ elim (dec_lt n (start + (q * every + every))) [
    | yes f ↦
        let rest : (n - start) % every ≡ n - start - q * every =
          mod_shift (n - start) q every (omega arith)
          ∙ mod-eq_of_lt {n = n - start - q * every} {m = every} (omega arith) in
        ground (arith, rest)
    | no f ↦
        let less : (n - start) % every ≡ (n - start - q * every) % every =
          mod_shift (n - start) q every (omega arith) in
        let again : (n - start - q * every) % every ≡ (n - start - q * every - every) % every =
          mod-eq-sub-mod {n = n - start - q * every} {m = every} (omega arith) in
        let same : n - start - q * every - every ≡ n - (start + (q * every + every)) =
          omega arith in
        ground (arith, less, again, ap (λ (x : ℕ). x % every) same)
  ]
]

band_start-skip :
    (from start every : ℕ)
    → start ≤ from
    → from + every ≤ i64_max
    → band_start (pos from) (pos start) every
      ≡ pos (start + ((from - start) / every * every + every))
unfolding band_start ◌-ℤ◌ sat_add_ms ◌+ℤ◌
band_start-skip from start every h b =
    let q = (from - start) / every in
    let fits : q * every ≤ from - start = div-mul-le_self (from - start) every in
    let split : (q + 1) * every ≡ q * every + every = omega (arith, add-mul q 1 every) in
    ground (arith, fits, split)

-- The start of the walk skips the instants up to `from`, and no more.
start_lem :
    (from start every : ℕ)
    → 0 < every
    → start ≤ i64_max
    → from + every ≤ i64_max
    → (first : ℕ) × (band_start (pos from) (pos start) every ≡ pos first)
      × (start ≤ first)
      × ((last until n : ℕ)
          → (is_due_at from until n && on_grid every first last n)
            ≡ (is_due_at from until n && on_grid every start last n))
unfolding band_start ◌-ℤ◌
start_lem from start every p s f = elim (Bool-cases (leb_ℤ (pos start) (pos from))) [
  | inr e ↦ (start, rw e refl, omega arith, λ last until n. refl)
  | inl e ↦
      let q = (from - start) / every in
      let le : start ≤ from = ground arith in
      let fits : q * every ≤ from - start = div-mul-le_self (from - start) every in
      let over : from - start < q * every + every =
        lt-div-mul-add {a = from - start} {b = every} p in
      (
        start + (q * every + every),
        band_start-skip from start every le f,
        omega arith,
        on_grid_skip from start every q p (omega arith) (omega arith),
      )
]

-- The instants of a band that are due.
abbrev pub in_band : ℕ → PeriodicBand → ℕ → Bool
in_band discovered b n =
    on_grid b.every_ms (discovered + b.from_age_ms) (discovered + b.to_age_ms) n

pub band_times_lem :
    (discovered from until : ℕ) (b : PeriodicBand)
    → 0 < b.every_ms
    → discovered + b.from_age_ms ≤ i64_max
    → discovered + b.to_age_ms + b.every_ms ≤ i64_max
    → from + b.every_ms ≤ i64_max
    → (ts : List ℤ) × (band_times (pos discovered) (pos from) (pos until) b ≡ some ts)
      × ((n : ℕ) → contains_time (pos n) ts ≡ (is_due_at from until n && in_band discovered b n))
      × ((n : ℕ) → contains_time (negsuc n) ts ≡ false)
unfolding band_times
band_times_lem discovered from until b p s l f =
    let (first, starts, after, same) =
      start_lem from (discovered + b.from_age_ms) b.every_ms p s f in
    let (ts, runs, has, has_not) =
      band_from_lem (b.to_age_ms + 2) from until (discovered + b.to_age_ms) b.every_ms first p
        (omega arith) (omega arith) l in
    let start = sat_add_ms-pos discovered b.from_age_ms s in
    let end = sat_add_ms-pos discovered b.to_age_ms (omega arith) in
    (
      ts,
      rw (start, end, starts, runs) refl,
      λ n. has n ∙ same (discovered + b.to_age_ms) until n,
      has_not,
    )
