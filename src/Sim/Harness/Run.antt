-- ===== src/Sim/Harness/Run.antt =====
-- The positions at the end of a run: apps/engine/src/sim/harness.rs.
use mathlib.Core.Path.{subst}
use memecoin_bot.Base.{
  ◌≡◌, refl, ◌∙◌, sym, none, false, List, [], ◌∷◌, map, All, All-over_map, Bool-cases, inl, inr,
}
use memecoin_bot.Base.Int.{ℤ}
use memecoin_bot.State.Snapshot.{TokenStateSnapshot}
use memecoin_bot.Sim.Types.{is_open}
use memecoin_bot.Sim.Models.{Digest}
use memecoin_bot.Sim.Exec.{SnapshotBook}
use memecoin_bot.Sim.Position.Book.{SimulatedPosition}
use memecoin_bot.Sim.Position.Ledger.{IsBooked, after_step-IsBooked, marks, forces_end}
use memecoin_bot.Sim.Harness.{
  Scenario, Walk, start, concerns, mark_on, exits_from, visit, visit_all, end_on, realizable_on,
  last_of, run_historical, try_entry, latest, last_time,
}
use memecoin_bot.Sim.Harness.Positions.{
  key, IsDistinct, key-mark, key-force_end, ended_not_open, map-map, IsWalk, try_entry-IsWalk,
  run_exits-IsWalk,
}

mark_on_lem :
    (c : Scenario) (s : TokenStateSnapshot) (p : SimulatedPosition)
    → (IsBooked p → IsBooked (mark_on c s p)) × (key (mark_on c s p) ≡ key p)
unfolding mark_on
mark_on_lem c s p = elim (Bool-cases (concerns s p)) [
  | inl y ↦ rw y (λ v. after_step-IsBooked p (marks s c.cfg.fees) v, key-mark p s c.cfg.fees)
  | inr n ↦ rw n (λ v. v, refl)
]

end_on_lem :
    (c : Scenario) (end : ℤ) (p : SimulatedPosition)
    → (IsBooked p → IsBooked (end_on c end p))
      × (key (end_on c end p) ≡ key p)
      × (is_open (end_on c end p).status ≡ false)
unfolding end_on
end_on_lem c end p =
    let r = realizable_on c.cfg p (last_of p none c.snaps) in
    elim (Bool-cases (is_open p.status)) [
      | inl y ↦ rw y (
        λ v. after_step-IsBooked p (forces_end end r) v,
        key-force_end p end r,
        ended_not_open p end r,
      )
      | inr n ↦ rw n (λ v. v, refl, n)
    ]

module _ (digest : Digest) (c : Scenario) (book : SnapshotBook) where
  visit-IsWalk : (w : Walk) (s : TokenStateSnapshot) → IsWalk w → IsWalk (visit digest c book w s)
  unfolding visit
  visit-IsWalk w s v =
      let sec = latest c.security_timeline s.chain s.token_address s.snapshot_time in
      let after = try_entry digest c book s sec w in
      let a : IsWalk after = try_entry-IsWalk digest c book s sec w v in
      run_exits-IsWalk digest c book s (exits_from c s sec 0 after.positions)
        (record after { positions = map (mark_on c s) after.positions })
        (record {
          booked =
              All-over_map IsBooked IsBooked (mark_on c s) (λ p. (mark_on_lem c s p).0)
                after.positions a.booked;
          keyed =
              a.keyed ∙ sym (map-map (mark_on c s) (λ p. (mark_on_lem c s p).1) after.positions);
          distinct = a.distinct;
        })

  visit_all-IsWalk :
      (ss : List TokenStateSnapshot) (w : Walk) → IsWalk w → IsWalk (visit_all digest c book w ss)
  visit_all-IsWalk [] w v = v
  visit_all-IsWalk (s ∷ ss) w v = visit_all-IsWalk ss (visit digest c book w s) (visit-IsWalk w s v)

start-IsWalk : IsWalk start
start-IsWalk = record { booked = tt; keyed = refl; distinct = tt }

-- At the end of a run, whatever the snapshots, timelines, policies and configuration: every position
-- accounts for its tokens, none is left open, and no token of a chain was entered twice.
pub run_historical-IsBooked :
    (digest : Digest) (wall_clock : ℤ) (c : Scenario)
    → let ps = (run_historical digest wall_clock c).positions in
      All IsBooked ps × All (λ p. is_open p.status ≡ false) ps × IsDistinct (map key ps)
unfolding run_historical
run_historical-IsBooked digest wall_clock c =
    let end = last_time wall_clock c.snaps in
    let book : SnapshotBook = record { snapshots = c.snaps; as_of = end } in
    let w = visit_all digest c book start c.snaps in
    let v : IsWalk w = visit_all-IsWalk digest c book c.snaps start start-IsWalk in
    (
      All-over_map IsBooked IsBooked (end_on c end) (λ p. (end_on_lem c end p).0) w.positions
          v.booked,
      All-over_map IsBooked (λ p. is_open p.status ≡ false) (end_on c end)
          (λ p _. (end_on_lem c end p).2) w.positions v.booked,
      subst IsDistinct
          (v.keyed ∙ sym (map-map (end_on c end) (λ p. (end_on_lem c end p).1) w.positions))
          v.distinct,
    )
