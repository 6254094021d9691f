-- ===== src/State/Schedule/Due.antt =====
-- The due times of apps/engine/src/state/schedule.rs: sorted, each once, and exactly those of the
-- milestones and bands.
use memecoin_bot.Base.{
  ℕ, ◌+◌, ◌<◌, ◌≤◌, ◌≡◌, refl, ◌∙◌, ap, Bool, true, false, ◌&&◌, ◌||◌, some, List, [], ◌∷◌, ◌++◌,
  map, arith, ◌==◌, i64_max, All, filter_by, any_of, Bool-cases, inl, inr,
}
use memecoin_bot.Base.Int.{ℤ, pos, negsuc, leb_ℤ, eq_ℤ, ◌<ℤ◌, ◌≤ℤ◌}
use memecoin_bot.State.Schedule.{
  PeriodicBand, SnapshotSchedule, sat_add_ms, is_due, all_band_times, insert_time, sort_times,
  dedup_after, dedup, contains_time, milestone_times, due_times, band_times,
}
use memecoin_bot.State.Schedule.Grid.{is_due_at, in_band, band_times_lem, sat_add_ms-pos}

contains_time-append :
    (t : ℤ) (xs ys : List ℤ)
    → contains_time t (xs ++ ys) ≡ (contains_time t xs || contains_time t ys)
contains_time-append t [] ys = refl
contains_time-append t (x ∷ xs) ys = ground (arith, contains_time-append t xs ys)

contains_time-insert_time :
    (t x : ℤ) (xs : List ℤ) → contains_time t (insert_time x xs) ≡ (eq_ℤ t x || contains_time t xs)
contains_time-insert_time t x [] = refl
contains_time-insert_time t x (y ∷ ys) = elim (Bool-cases (leb_ℤ x y)) [
  | inl e ↦ rw e refl
  | inr e ↦ rw e (ground (arith, contains_time-insert_time t x ys))
]

contains_time-sort_times :
    (t : ℤ) (xs : List ℤ) → contains_time t (sort_times xs) ≡ contains_time t xs
contains_time-sort_times t [] = refl
contains_time-sort_times t (x ∷ xs) =
    contains_time-insert_time t x (sort_times xs)
    ∙ ap (λ (b : Bool). eq_ℤ t x || b) (contains_time-sort_times t xs)

eq_ℤ_same : (t x y : ℤ) → eq_ℤ y x ≡ true → eq_ℤ t y ≡ eq_ℤ t x
eq_ℤ_same t x y h = ground arith

contains_time-dedup_after :
    (t x : ℤ) (ys : List ℤ)
    → (eq_ℤ t x || contains_time t (dedup_after x ys)) ≡ (eq_ℤ t x || contains_time t ys)
contains_time-dedup_after t x [] = refl
contains_time-dedup_after t x (y ∷ ys) = elim (Bool-cases (eq_ℤ y x)) [
  | inl e ↦ rw e (
      contains_time-dedup_after t x ys
      ∙ or_again (eq_ℤ t x) (eq_ℤ t y) (contains_time t ys) (eq_ℤ_same t x y e))
  | inr e ↦ rw e (ap (λ (b : Bool). eq_ℤ t x || b) (contains_time-dedup_after t y ys))
]
  where
    or_again : (a b c : Bool) → b ≡ a → (a || c) ≡ (a || (b || c))
    or_again a b c h = ground arith

contains_time-dedup : (t : ℤ) (xs : List ℤ) → contains_time t (dedup xs) ≡ contains_time t xs
contains_time-dedup t [] = refl
contains_time-dedup t (x ∷ xs) = contains_time-dedup_after t x xs

-- In order, each instant once.
abbrev pub IsIncreasing : List ℤ → Type 0
IsIncreasing [] = Unit
IsIncreasing (x ∷ xs) = All (λ y. x <ℤ y) xs × IsIncreasing xs

abbrev IsSorted : List ℤ → Type 0
IsSorted [] = Unit
IsSorted (x ∷ xs) = All (λ y. x ≤ℤ y) xs × IsSorted xs

All-le : (x y : ℤ) (xs : List ℤ) → x ≤ℤ y → All (λ z. y ≤ℤ z) xs → All (λ z. x ≤ℤ z) xs
All-le x y [] h k = tt
All-le x y (z ∷ xs) h k = (omega (arith, k.0), All-le x y xs h k.1)

All-insert_time :
    (a x : ℤ) (xs : List ℤ) → a ≤ℤ x → All (λ y. a ≤ℤ y) xs → All (λ y. a ≤ℤ y) (insert_time x xs)
All-insert_time a x [] h k = (h, tt)
All-insert_time a x (y ∷ ys) h k = elim (Bool-cases (leb_ℤ x y)) [
  | inl e ↦ rw e (h, k)
  | inr e ↦ rw e (k.0, All-insert_time a x ys h k.1)
]

insert_time-IsSorted : (x : ℤ) (xs : List ℤ) → IsSorted xs → IsSorted (insert_time x xs)
insert_time-IsSorted x [] h = (tt, tt)
insert_time-IsSorted x (y ∷ ys) h = elim (Bool-cases (leb_ℤ x y)) [
  | inl e ↦ rw e ((ground arith, All-le x y ys (ground arith) h.0), h)
  | inr e ↦ rw e (All-insert_time y x ys (ground arith) h.0, insert_time-IsSorted x ys h.1)
]

sort_times-IsSorted : (xs : List ℤ) → IsSorted (sort_times xs)
sort_times-IsSorted [] = tt
sort_times-IsSorted (x ∷ xs) = insert_time-IsSorted x (sort_times xs) (sort_times-IsSorted xs)

All-lt : (x y : ℤ) (xs : List ℤ) → x <ℤ y → All (λ z. y <ℤ z) xs → All (λ z. x <ℤ z) xs
All-lt x y [] h k = tt
All-lt x y (z ∷ xs) h k = (omega (arith, k.0), All-lt x y xs h k.1)

dedup_after-IsIncreasing :
    (x : ℤ) (ys : List ℤ) → All (λ y. x ≤ℤ y) ys → IsSorted ys → IsIncreasing (x ∷ dedup_after x ys)
dedup_after-IsIncreasing x [] h s = (tt, tt)
dedup_after-IsIncreasing x (y ∷ ys) h s = elim (Bool-cases (eq_ℤ y x)) [
  | inl e ↦ rw e (dedup_after-IsIncreasing x ys h.1 s.1)
  | inr e ↦
      let lt : x <ℤ y = ground (arith, h.0) in
      let rest = dedup_after-IsIncreasing y ys s.0 s.1 in
      rw e ((lt, All-lt x y (dedup_after y ys) lt rest.0), rest)
]

dedup-IsIncreasing : (xs : List ℤ) → IsSorted xs → IsIncreasing (dedup xs)
dedup-IsIncreasing [] h = tt
dedup-IsIncreasing (x ∷ xs) h = dedup_after-IsIncreasing x xs h.0 h.1

-- The age of an instant is a milestone, or one of the ages of a band.
abbrev at_milestone : ℕ → List ℕ → ℕ → Bool
at_milestone discovered ms n = any_of (λ m. n == discovered + m) ms

abbrev in_bands : ℕ → List PeriodicBand → ℕ → Bool
in_bands discovered bs n = any_of (λ b. in_band discovered b n) bs

abbrev pub on_schedule : SnapshotSchedule → ℕ → ℕ → Bool
on_schedule s discovered n =
    at_milestone discovered s.milestones_ms n || in_bands discovered s.bands n

abbrev BandFits : ℕ → ℕ → PeriodicBand → Type 0
BandFits discovered from b =
    (0 < b.every_ms)
    × (discovered + b.from_age_ms ≤ i64_max)
    × (discovered + b.to_age_ms + b.every_ms ≤ i64_max)
    × (from + b.every_ms ≤ i64_max)

-- Every band has a period, and no instant that is computed passes the greatest `i64`.
pub record FitsInI64 (s : SnapshotSchedule) (discovered from : ℕ) : Type 0 where
  pub milestones_fit : All (λ m. discovered + m ≤ i64_max) s.milestones_ms
  pub bands_fit : All (BandFits discovered from) s.bands

milestones_lem :
    (discovered from until n : ℕ) (ms : List ℕ)
    → All (λ m. discovered + m ≤ i64_max) ms
    → contains_time
        (pos n)
        (filter_by (is_due (pos from) (pos until)) (map (sat_add_ms (pos discovered)) ms))
      ≡ (is_due_at from until n && at_milestone discovered ms n)
milestones_lem discovered from until n [] h = ground arith
milestones_lem discovered from until n (m ∷ ms) h =
    rw (sat_add_ms-pos discovered m h.0)
      (ground (arith, milestones_lem discovered from until n ms h.1))

milestones_none :
    (discovered from until n : ℕ) (ms : List ℕ)
    → All (λ m. discovered + m ≤ i64_max) ms
    → contains_time
        (negsuc n)
        (filter_by (is_due (pos from) (pos until)) (map (sat_add_ms (pos discovered)) ms))
      ≡ false
milestones_none discovered from until n [] h = refl
milestones_none discovered from until n (m ∷ ms) h =
    rw (sat_add_ms-pos discovered m h.0)
      (ground (arith, milestones_none discovered from until n ms h.1))

all_band_times_more :
    (discovered from until : ℤ) (b : PeriodicBand) (bs : List PeriodicBand) (ts rest : List ℤ)
    → band_times discovered from until b ≡ some ts
    → all_band_times discovered from until bs ≡ some rest
    → all_band_times discovered from until (b ∷ bs) ≡ some (ts ++ rest)
unfolding all_band_times
all_band_times_more discovered from until b bs ts rest e f = rw (all_band_times, e, f) refl

all_band_times_lem :
    (discovered from until : ℕ) (bs : List PeriodicBand)
    → All (BandFits discovered from) bs
    → (ts : List ℤ) × (all_band_times (pos discovered) (pos from) (pos until) bs ≡ some ts)
      × ((n : ℕ) → contains_time (pos n) ts ≡ (is_due_at from until n && in_bands discovered bs n))
      × ((n : ℕ) → contains_time (negsuc n) ts ≡ false)
unfolding all_band_times
all_band_times_lem discovered from until [] h = ([], refl, λ n. ground arith, λ n. refl)
all_band_times_lem discovered from until (b ∷ bs) h =
    let (p, s, l, f) = h.0 in
    let (ts, runs, has, has_not) = band_times_lem discovered from until b p s l f in
    let (rest, more, with, without) = all_band_times_lem discovered from until bs h.1 in
    (
      ts ++ rest,
      all_band_times_more (pos discovered) (pos from) (pos until) b bs ts rest runs more,
      λ n. ground (arith, contains_time-append (pos n) ts rest, has n, with n),
      λ n. ground (arith, contains_time-append (negsuc n) ts rest, has_not n, without n),
    )

-- Where every band has a period and no instant passes the greatest `i64`, the walk of the schedule ends.
-- The due times are in order and each once, and an instant is among them exactly where it is after
-- `from`, not after `until`, and its age is a milestone or on the grid of a band.
pub due_times_lem :
    (s : SnapshotSchedule) (discovered from until : ℕ)
    → FitsInI64 s discovered from
    → (ts : List ℤ) × (due_times s (pos discovered) (pos from) (pos until) ≡ some ts)
      × IsIncreasing ts
      × ((n : ℕ)
          → contains_time (pos n) ts ≡ (is_due_at from until n && on_schedule s discovered n))
      × ((n : ℕ) → contains_time (negsuc n) ts ≡ false)
unfolding due_times milestone_times
due_times_lem s discovered from until h =
    let (ts, runs, has, has_not) = all_band_times_lem discovered from until s.bands h.bands_fit in
    let ms = milestone_times s (pos discovered) (pos from) (pos until) in
    let same = λ (t : ℤ).
      contains_time-dedup t (sort_times (ms ++ ts))
      ∙ contains_time-sort_times t (ms ++ ts)
      ∙ contains_time-append t ms ts in
    (
      dedup (sort_times (ms ++ ts)),
      rw runs refl,
      dedup-IsIncreasing (sort_times (ms ++ ts)) (sort_times-IsSorted (ms ++ ts)),
      λ n. ground (
        arith,
        same (pos n),
        has n,
        milestones_lem discovered from until n s.milestones_ms h.milestones_fit,
      ),
      λ n. ground (
        arith,
        same (negsuc n),
        has_not n,
        milestones_none discovered from until n s.milestones_ms h.milestones_fit,
      ),
    )
