-- ===== src/Lab/Tests.antt =====
-- Splits of concrete spans: apps/engine/src/lab/split.rs.
use memecoin_bot.Base.{◌*◌, ◌/◌, ◌≤◌, ◌≡◌, refl}
use memecoin_bot.Base.Int.{pos, ◌+ℤ◌, ◌-ℤ◌, ◌≤ℤ◌, ◌<ℤ◌, times_ℤ, pos_part}
use memecoin_bot.Lab.Split.{
  validation, chronological_split, cut_at, span_of, assign_split, stage, IsAssigned,
  assign_split_mono,
}

in_validation : assign_split (pos 700) (chronological_split (pos 0) (pos 1_000)) ≡ validation
unfolding chronological_split cut_at span_of assign_split ◌+ℤ◌ ◌-ℤ◌ times_ℤ
in_validation = refl

assign_split_mono_example :
    let b = chronological_split (pos 0) (pos 1_000) in
    (pos 300 ≤ℤ pos 900 → stage (assign_split (pos 300) b) ≤ stage (assign_split (pos 900) b))
    × IsAssigned b (pos 300) (assign_split (pos 300) b)
    × (pos 0 <ℤ pos 1_000
        → (b.train_start ≤ℤ b.train_end)
          × (b.train_end ≡ b.validation_start)
          × (b.validation_start ≤ℤ b.validation_end)
          × (b.validation_end ≡ b.test_start)
          × (b.test_start ≤ℤ b.test_end)
          × (b.train_start ≡ pos 0)
          × (b.train_end ≡ pos 0 +ℤ pos (60 * pos_part (pos 1_000 -ℤ pos 0) / 100))
          × (b.validation_end ≡ pos 0 +ℤ pos (80 * pos_part (pos 1_000 -ℤ pos 0) / 100))
          × (b.test_end ≡ pos 1_000))
assign_split_mono_example = assign_split_mono (pos 0) (pos 1_000) (pos 300) (pos 900)
