-- ===== src/Sim/Exec/Book.antt =====
-- The snapshot that an execution may see: `SnapshotBook::at` of apps/engine/src/sim/exec.rs.
use mathlib.Core.List.{Memᴰ}
use memecoin_bot.Base.{
  ◌≡◌, true, Bool, Option, none, some, List, String, arith, All, All-map, filter_by,
  max_by_key-IsGreatest, filter_by-filter_by, ap, sym, refl, IsGreatest, ◌∙◌, eq_string,
}
use memecoin_bot.Base.Int.{ℤ, ◌≤ℤ◌, leb_ℤ, min_ℤ}
use memecoin_bot.Domain.{Chain}
use memecoin_bot.State.Snapshot.{TokenStateSnapshot}
use memecoin_bot.Sim.Exec.{SnapshotBook, visible, at}

-- A snapshot of the token that is at or before `time` and at or before the end of what may be seen.
abbrev pub IsSeen : SnapshotBook → Chain → String → ℤ → TokenStateSnapshot → Type 0
IsSeen book chain token time s =
    (s.chain ≡ chain)
    × (eq_string s.token_address token ≡ true)
    × (s.snapshot_time ≤ℤ time)
    × (s.snapshot_time ≤ℤ book.as_of)

visible-IsSeen :
    (book : SnapshotBook) (chain : Chain) (token : String) (time : ℤ) (s : TokenStateSnapshot)
    → visible chain token (min_ℤ time book.as_of) s ≡ true
    → IsSeen book chain token time s
visible-IsSeen book chain token time s h = ground arith

IsSeen-visible :
    (book : SnapshotBook) (chain : Chain) (token : String) (time : ℤ) (s : TokenStateSnapshot)
    → IsSeen book chain token time s
    → visible chain token (min_ℤ time book.as_of) s ≡ true
IsSeen-visible book chain token time s h = ground arith

-- `none` where no snapshot of the book may be seen, and else the latest of those that may.
abbrev pub IsLatestSeen : SnapshotBook → Chain → String → ℤ → Option TokenStateSnapshot → Type 0
IsLatestSeen book chain token time none =
    All (λ s. IsSeen book chain token time s → ⊥) book.snapshots
IsLatestSeen book chain token time (some best) =
    Memᴰ best book.snapshots
    × IsSeen book chain token time best
    × All (λ s. IsSeen book chain token time s → s.snapshot_time ≤ℤ best.snapshot_time)
        book.snapshots

IsGreatest-IsLatestSeen :
    (book : SnapshotBook) (chain : Chain) (token : String) (time : ℤ)
    (r : Option TokenStateSnapshot)
    → IsGreatest
        (visible chain token (min_ℤ time book.as_of))
        (λ s. s.snapshot_time)
        book.snapshots
        r
    → IsLatestSeen book chain token time r
IsGreatest-IsLatestSeen book chain token time none g =
    All-map (λ s no seen. no (IsSeen-visible book chain token time s seen)) book.snapshots g.0
IsGreatest-IsLatestSeen book chain token time (some best) (m, k, g) = (
  m,
  visible-IsSeen book chain token time best k,
  All-map (λ s above seen. above (IsSeen-visible book chain token time s seen)) book.snapshots g,
)

-- The book never shows a snapshot of another token or chain, one after the time asked for, or one
-- after the end of what may be seen; of those that remain it shows the latest, and none exactly where
-- none remains.
pub at-IsLatestSeen :
    (book : SnapshotBook) (chain : Chain) (token : String) (time : ℤ)
    → IsLatestSeen book chain token time (at book chain token time)
unfolding at
at-IsLatestSeen book chain token time = IsGreatest-IsLatestSeen book chain token time _ (
    max_by_key-IsGreatest (visible chain token (min_ℤ time book.as_of)) (λ s. s.snapshot_time)
      book.snapshots)

-- Two books that end at the same time and hold the same snapshots up to then.
abbrev pub seen_by : ℤ → TokenStateSnapshot → Bool
seen_by as_of s = leb_ℤ s.snapshot_time as_of

abbrev pub AgreeOnPast : SnapshotBook → SnapshotBook → Type 0
AgreeOnPast a b =
    (a.as_of ≡ b.as_of)
    × (filter_by (seen_by a.as_of) a.snapshots ≡ filter_by (seen_by a.as_of) b.snapshots)

visible-seen :
    (chain : Chain) (token : String) (time as_of : ℤ) (s : TokenStateSnapshot)
    → visible chain token (min_ℤ time as_of) s ≡ true
    → seen_by as_of s ≡ true
visible-seen chain token time as_of s h = ground arith

pub at-past :
    (a b : SnapshotBook)
    → AgreeOnPast a b
    → (chain : Chain) (token : String) (time : ℤ) → at a chain token time ≡ at b chain token time
unfolding at
at-past a b (ends, same) chain token time =
    let keep : TokenStateSnapshot → Bool = visible chain token (min_ℤ time a.as_of) in
    let through : (xs : List TokenStateSnapshot)
        → filter_by keep (filter_by (seen_by a.as_of) xs) ≡ filter_by keep xs =
      filter_by-filter_by keep (seen_by a.as_of) (visible-seen chain token time a.as_of) in
    let kept : filter_by keep a.snapshots ≡ filter_by keep b.snapshots =
      sym (through a.snapshots) ∙ ap (filter_by keep) same ∙ through b.snapshots in
    rw (sym ends, kept) refl
