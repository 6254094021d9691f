-- ===== src/State/Schedule.antt =====
-- The snapshot schedule of apps/engine/src/state/schedule.rs. An instant is an integer of
-- milliseconds, an age and a period are natural numbers.
pub mod Grid
pub mod Due
use mathlib.Core.Option
use memecoin_bot.Base.{
  ℕ, zero, suc, ◌+◌, ◌*◌, ◌/◌, Bool, true, false, ◌&&◌, Option, none, some, List, [], ◌∷◌, ◌++◌,
  map, if◌then◌else◌, i64_max, filter_by, any_of, min,
}
use memecoin_bot.Base.Int.{ℤ, pos, pos_part, ◌+ℤ◌, ◌-ℤ◌, min_ℤ, leb_ℤ, ltb_ℤ, eq_ℤ}

pub record PeriodicBand : Type 0 where
  pub from_age_ms : ℕ
  pub to_age_ms : ℕ
  pub every_ms : ℕ

pub record SnapshotSchedule : Type 0 where
  pub milestones_ms : List ℕ
  pub bands : List PeriodicBand

abbrev pub default_research : SnapshotSchedule
default_research = record {
  milestones_ms =
      5_000 ∷ 15_000 ∷ 30_000 ∷ 60_000 ∷ 120_000 ∷ 300_000 ∷ 900_000 ∷ 1_800_000 ∷ 3_600_000 ∷ [];
  bands =
      record { from_age_ms = 0; to_age_ms = 300_000; every_ms = 5_000 }
      ∷ record { from_age_ms = 300_000; to_age_ms = 1_800_000; every_ms = 15_000 }
      ∷ record { from_age_ms = 1_800_000; to_age_ms = 7_200_000; every_ms = 60_000 }
      ∷ [];
}

-- `saturating_add` of a duration.
unfoldable pub sat_add_ms : ℤ → ℕ → ℤ
sat_add_ms t d = min_ℤ (t +ℤ pos d) (pos i64_max)

abbrev pub is_due : ℤ → ℤ → ℤ → Bool
is_due from_exclusive until_inclusive t = ltb_ℤ from_exclusive t && leb_ℤ t until_inclusive

-- The `while` loop over a band: `none` where the fuel runs out.
unfoldable pub band_from : ℕ → ℤ → ℤ → ℤ → ℕ → ℤ → Option (List ℤ)
band_from zero from_exclusive until_inclusive end every t = none
band_from (suc fuel) from_exclusive until_inclusive end every t =
    elim (leb_ℤ t until_inclusive && leb_ℤ t end) [
      | false ↦ some []
      | true ↦ elim (band_from fuel from_exclusive until_inclusive end every (sat_add_ms t every)) [
        | none ↦ none
        | some rest ↦ some (if ltb_ℤ from_exclusive t then t ∷ rest else rest)
      ]
    ]

-- Where the walk of a band begins: the first of its instants after `from_exclusive`.
unfoldable pub band_start : ℤ → ℤ → ℕ → ℤ
band_start from_exclusive start every =
    if leb_ℤ start from_exclusive
    then sat_add_ms start (min ((pos_part (from_exclusive -ℤ start) / every + 1) * every) i64_max)
    else start

unfoldable pub band_times : ℤ → ℤ → ℤ → PeriodicBand → Option (List ℤ)
band_times discovered_ms from_exclusive until_inclusive band =
    let start = sat_add_ms discovered_ms band.from_age_ms in
    let end = sat_add_ms discovered_ms band.to_age_ms in
    band_from (band.to_age_ms + 2) from_exclusive until_inclusive end band.every_ms
      (band_start from_exclusive start band.every_ms)

unfoldable pub all_band_times : ℤ → ℤ → ℤ → List PeriodicBand → Option (List ℤ)
all_band_times discovered_ms from_exclusive until_inclusive [] = some []
all_band_times discovered_ms from_exclusive until_inclusive (b ∷ bs) =
    elim (band_times discovered_ms from_exclusive until_inclusive b) [
      | none ↦ none
      | some times ↦
          Option.map (λ rest. times ++ rest)
            (all_band_times discovered_ms from_exclusive until_inclusive bs)
    ]

abbrev pub contains_time : ℤ → List ℤ → Bool
contains_time t times = any_of (eq_ℤ t) times

abbrev pub insert_time : ℤ → List ℤ → List ℤ
insert_time t [] = t ∷ []
insert_time t (x ∷ xs) = if leb_ℤ t x then t ∷ x ∷ xs else x ∷ insert_time t xs

abbrev pub sort_times : List ℤ → List ℤ
sort_times [] = []
sort_times (x ∷ xs) = insert_time x (sort_times xs)

-- What `dedup` keeps after an entry `x`.
abbrev pub dedup_after : ℤ → List ℤ → List ℤ
dedup_after x [] = []
dedup_after x (y ∷ ys) = if eq_ℤ y x then dedup_after x ys else y ∷ dedup_after y ys

abbrev pub dedup : List ℤ → List ℤ
dedup [] = []
dedup (x ∷ xs) = x ∷ dedup_after x xs

unfoldable pub milestone_times : SnapshotSchedule → ℤ → ℤ → ℤ → List ℤ
milestone_times s discovered_ms from_exclusive until_inclusive =
    filter_by (is_due from_exclusive until_inclusive)
      (map (sat_add_ms discovered_ms) s.milestones_ms)

unfoldable pub due_times : SnapshotSchedule → ℤ → ℤ → ℤ → Option (List ℤ)
due_times s discovered_ms from_exclusive until_inclusive =
    Option.map
      (λ times.
        dedup
          (sort_times (milestone_times s discovered_ms from_exclusive until_inclusive ++ times)))
      (all_band_times discovered_ms from_exclusive until_inclusive s.bands)

abbrev last_or_zero : List ℕ → ℕ
last_or_zero [] = 0
last_or_zero (x ∷ []) = x
last_or_zero (x ∷ y ∷ ys) = last_or_zero (y ∷ ys)

unfoldable pub last_milestone_ms : SnapshotSchedule → ℕ
last_milestone_ms s = last_or_zero s.milestones_ms

pub record MemoryPolicy : Type 0 where
  pub hot_ms : ℤ
  pub warm_ms : ℤ
  pub cold_ms : ℤ

abbrev pub default_memory : MemoryPolicy
default_memory = record {
  hot_ms = pos (30 * 60 * 1_000);
  warm_ms = pos (2 * 60 * 60 * 1_000);
  cold_ms = pos (2 * 60 * 60 * 1_000);
}

pub data MemoryTier : Type 0 where
  hot warm cold : MemoryTier
