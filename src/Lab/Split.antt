-- ===== src/Lab/Split.antt =====
-- The chronological split of apps/engine/src/lab/split.rs. Instants are in unix milliseconds.
use memecoin_bot.Base.{◌↔◌, ap, ◌∙◌, refl, ◌*◌, ◌/◌, ℕ, ◌≤◌, ◌≡◌, arith, if◌then◌else◌}
use memecoin_bot.Base.Int.{
  ℤ, pos, negsuc, ◌+ℤ◌, ◌-ℤ◌, ◌≤ℤ◌, ◌<ℤ◌, ltb_ℤ, max_ℤ, div_ℤ, times_ℤ, pos_part, neg_part,
  +ℤ_parts, -ℤ_parts, eq_of_parts,
}

pub data SplitKind : Type 0 where
  train validation test : SplitKind

pub record SplitBounds : Type 0 where
  pub train_start : ℤ
  pub train_end : ℤ
  pub validation_start : ℤ
  pub validation_end : ℤ
  pub test_start : ℤ
  pub test_end : ℤ

unfoldable pub span_of : ℤ → ℤ → ℤ
span_of min_t max_t = max_ℤ (max_t -ℤ min_t) (pos 1)

-- `percent` of the span after the start.
unfoldable pub cut_at : ℕ → ℤ → ℤ → ℤ
cut_at percent min_t max_t = min_t +ℤ div_ℤ (times_ℤ percent (span_of min_t max_t)) 100

unfoldable pub chronological_split : ℤ → ℤ → SplitBounds
chronological_split min_t max_t = record {
  train_start = min_t;
  train_end = cut_at 60 min_t max_t;
  validation_start = cut_at 60 min_t max_t;
  validation_end = cut_at 80 min_t max_t;
  test_start = cut_at 80 min_t max_t;
  test_end = max_t;
}

unfoldable pub assign_split : ℤ → SplitBounds → SplitKind
assign_split t b =
    if ltb_ℤ t b.validation_start then train else if ltb_ℤ t b.test_start then validation else test

-- The order of the splits in time.
abbrev pub stage : SplitKind → ℕ
stage train = 0
stage validation = 1
stage test = 2

span_of_pos : (min_t max_t : ℤ) → pos 1 ≤ℤ span_of min_t max_t
unfolding span_of
span_of_pos min_t max_t = ground arith

span_of_lem : (min_t max_t : ℤ) → min_t <ℤ max_t → span_of min_t max_t ≡ (max_t -ℤ min_t)
unfolding span_of
span_of_lem min_t max_t h = ground (arith, -ℤ_parts max_t min_t)

span_of_le : (min_t max_t : ℤ) → min_t <ℤ max_t → span_of min_t max_t ≤ℤ (max_t -ℤ min_t)
unfolding span_of
span_of_le min_t max_t h = ground (arith, -ℤ_parts max_t min_t)

-- A part of a span that is not negative.
part_lem :
    (percent : ℕ) (s : ℤ)
    → pos 1 ≤ℤ s
    → (neg_part (div_ℤ (times_ℤ percent s) 100) ≡ 0)
      × (pos_part (div_ℤ (times_ℤ percent s) 100) ≡ percent * pos_part s / 100)
      × (neg_part s ≡ 0)
unfolding times_ℤ
part_lem percent (pos n) h = ground arith
part_lem percent (negsuc n) h = ground arith

cut_at_lem :
    (min_t max_t : ℤ)
    → (min_t ≤ℤ cut_at 60 min_t max_t)
      × (cut_at 60 min_t max_t ≤ℤ cut_at 80 min_t max_t)
      × (min_t <ℤ max_t → cut_at 80 min_t max_t ≤ℤ max_t)
unfolding cut_at
cut_at_lem min_t max_t =
    let s : ℤ = span_of min_t max_t in
    let (n6, p6, n) = part_lem 60 s (span_of_pos min_t max_t) in
    let (n8, p8, _) = part_lem 80 s (span_of_pos min_t max_t) in
    let c6 = +ℤ_parts min_t (div_ℤ (times_ℤ 60 s) 100) in
    let c8 = +ℤ_parts min_t (div_ℤ (times_ℤ 80 s) 100) in
    (
      omega (arith, n6, p6, c6),
      omega (arith, n6, p6, c6, n8, p8, c8),
      λ h. omega (arith, n8, p8, c8, n, span_of_le min_t max_t h, -ℤ_parts max_t min_t),
    )

-- Each split takes the instants between its bounds, the first one all before and the last all after.
abbrev pub IsAssigned : SplitBounds → ℤ → SplitKind → Type 0
IsAssigned b t k =
    ((k ≡ train) ↔ (t <ℤ b.train_end))
    × ((k ≡ validation) ↔ ((b.validation_start ≤ℤ t) × (t <ℤ b.validation_end)))
    × ((k ≡ test) ↔ (b.test_start ≤ℤ t))

assign_split-IsAssigned :
    (min_t max_t t : ℤ)
    → IsAssigned
        (chronological_split min_t max_t)
        t
        (assign_split t (chronological_split min_t max_t))
unfolding chronological_split assign_split
assign_split-IsAssigned min_t max_t t =
    let (one, two, three) = cut_at_lem min_t max_t in
    (
      (λ h. ground arith, λ h. ground arith),
      (λ h. ground arith, λ h. ground arith),
      (λ h. ground arith, λ h. ground (arith, two)),
    )

-- The instant after `percent` of the time from the first to the last.
cut_at-share :
    (percent : ℕ) (min_t max_t : ℤ)
    → min_t <ℤ max_t
    → cut_at percent min_t max_t ≡ min_t +ℤ pos (percent * pos_part (max_t -ℤ min_t) / 100)
unfolding cut_at
cut_at-share percent min_t max_t h =
    let s : ℤ = span_of min_t max_t in
    let (n, p, _) = part_lem percent s (span_of_pos min_t max_t) in
    let whole = span_of_lem min_t max_t h in
    ap (λ (x : ℤ). min_t +ℤ x)
      (eq_of_parts (div_ℤ (times_ℤ percent s) 100) (pos (percent * pos_part s / 100))
          (omega (arith, n, p))
        ∙ ap (λ (x : ℤ). pos (percent * pos_part x / 100)) whole)

-- Time never runs back into an earlier split: of two instants the later one is in the same split or in
-- a later one. An instant is in train before the end of train, in validation from its start to before its
-- end, and in test from the start of test, and only there. Over a span in which time passes, the bounds
-- of train, validation and test follow one another without a gap from the first instant to the last, and
-- train ends after 60 and validation after 80 hundredths of the time between those, rounded down.
pub assign_split_mono :
    (min_t max_t t u : ℤ)
    → let b = chronological_split min_t max_t in
      (t ≤ℤ u → stage (assign_split t b) ≤ stage (assign_split u b))
      × IsAssigned b t (assign_split t b)
      × (min_t <ℤ max_t
          → (b.train_start ≤ℤ b.train_end)
            × (b.train_end ≡ b.validation_start)
            × (b.validation_start ≤ℤ b.validation_end)
            × (b.validation_end ≡ b.test_start)
            × (b.test_start ≤ℤ b.test_end)
            × (b.train_start ≡ min_t)
            × (b.train_end ≡ min_t +ℤ pos (60 * pos_part (max_t -ℤ min_t) / 100))
            × (b.validation_end ≡ min_t +ℤ pos (80 * pos_part (max_t -ℤ min_t) / 100))
            × (b.test_end ≡ max_t))
unfolding chronological_split assign_split
assign_split_mono min_t max_t t u =
    let (one, two, three) = cut_at_lem min_t max_t in
    (
      λ le. ground (arith, two),
      assign_split-IsAssigned min_t max_t t,
      λ h. (
        one,
        refl,
        two,
        refl,
        three h,
        refl,
        cut_at-share 60 min_t max_t h,
        cut_at-share 80 min_t max_t h,
        refl,
      ),
    )
