-- ===== src/Sim/Harness/Positions.antt =====
-- The positions on the way through a run: apps/engine/src/sim/harness.rs.
use mathlib.Core.Option.{some-injective}
use memecoin_bot.Base.{
  ℕ, zero, suc, ◌≡◌, refl, ◌∙◌, ap, sym, String, Bool, false, ◌||◌, Option, none, some, List, [],
  ◌∷◌, ◌++◌, map, arith, All, All-append, Bool-cases, inl, inr, get_elem?, All-get_elem?,
  Option-cases, eq_string_sym,
}
use memecoin_bot.Base.Int.{ℤ}
use memecoin_bot.Domain.{Chain}
use memecoin_bot.Security.Verdict.{SecurityVerdict}
use memecoin_bot.State.Snapshot.{TokenStateSnapshot}
use memecoin_bot.Sim.Types.{is_fill, is_open, ExitReason}
use memecoin_bot.Sim.Models.{Digest, FeeModel}
use memecoin_bot.Sim.Result.{ExecutionResult}
use memecoin_bot.Sim.Exec.{SnapshotBook, simulate_side}
use memecoin_bot.Sim.Policy.{Exit}
use memecoin_bot.Sim.Policy.Gate.{may_enter}
use memecoin_bot.Sim.Position.Book.{
  SimulatedPosition, open_from, apply_exit, book_sale, settle, finalize_capture,
}
use memecoin_bot.Sim.Position.Marks.{mark, mark_at, force_end}
use memecoin_bot.Sim.Position.Ledger.{IsBooked, open_from-IsBooked, after_step-IsBooked, exits}
use memecoin_bot.Sim.Harness.{
  Scenario, Walk, is_key, has_key, open_on, book_entry, is_enter, entry_query, try_entry, set_at,
  exit_order_of, exit_at, run_exits,
}

abbrev pub key : SimulatedPosition → Chain × String
key p = (p.chain, p.token)

-- No key stands twice in the list.
abbrev pub IsDistinct : List (Chain × String) → Type 0
IsDistinct [] = Unit
IsDistinct (k ∷ ks) = (has_key k.0 k.1 ks ≡ false) × IsDistinct ks

has_key-append :
    (c : Chain) (t : String) (ks : List (Chain × String)) (k : Chain × String)
    → has_key c t (ks ++ k ∷ []) ≡ (has_key c t ks || is_key c t k)
has_key-append c t [] k = ground arith
has_key-append c t (x ∷ ks) k = ground (arith, has_key-append c t ks k)

is_key_sym : (a b : Chain × String) → is_key a.0 a.1 b ≡ is_key b.0 b.1 a
is_key_sym a b = let turn = eq_string_sym b.1 a.1 in ground arith

append-IsDistinct :
    (ks : List (Chain × String)) (k : Chain × String)
    → IsDistinct ks
    → has_key k.0 k.1 ks ≡ false
    → IsDistinct (ks ++ k ∷ [])
append-IsDistinct [] k h fresh = (refl, tt)
append-IsDistinct (x ∷ ks) k h fresh = (
  ground (arith, has_key-append x.0 x.1 ks k, is_key_sym x k),
  append-IsDistinct ks k h.1 (ground arith),
)

-- A position's key never changes.
key-apply_exit :
    (p : SimulatedPosition) (fill : ExecutionResult) (why : ExitReason) (full : Bool)
    → key (apply_exit p fill why full) ≡ key p
unfolding apply_exit book_sale settle finalize_capture
key-apply_exit p fill why full = ground arith

pub key-mark :
    (p : SimulatedPosition) (s : TokenStateSnapshot) (fees : FeeModel) → key (mark p s fees) ≡ key p
unfolding mark mark_at
key-mark p s fees = ground arith

pub key-force_end :
    (p : SimulatedPosition) (end : ℤ) (realizable : Bool) → key (force_end p end realizable) ≡ key p
unfolding force_end finalize_capture
key-force_end p end realizable = ground arith

pub ended_not_open :
    (p : SimulatedPosition) (end : ℤ) (realizable : Bool)
    → is_open (force_end p end realizable).status ≡ false
unfolding force_end finalize_capture
ended_not_open p end realizable = ground arith

map-append : (xs ys : List SimulatedPosition) → map key (xs ++ ys) ≡ map key xs ++ map key ys
map-append [] ys = refl
map-append (x ∷ xs) ys = ap (λ ks. key x ∷ ks) (map-append xs ys)

pub map-map :
    (f : SimulatedPosition → SimulatedPosition)
    → ((p : SimulatedPosition) → key (f p) ≡ key p)
    → (ps : List SimulatedPosition) → map key (map f ps) ≡ map key ps
map-map f same [] = refl
map-map f same (p ∷ ps) = rw (same p, map-map f same ps) refl

All-set_at :
    (i : ℕ) (q : SimulatedPosition) (ps : List SimulatedPosition)
    → IsBooked q
    → All IsBooked ps
    → All IsBooked (set_at i q ps)
All-set_at i q [] b h = tt
All-set_at zero q (p ∷ ps) b h = (b, h.1)
All-set_at (suc i) q (p ∷ ps) b h = (h.0, All-set_at i q ps b h.1)

map-set_at :
    (i : ℕ) (q p : SimulatedPosition) (ps : List SimulatedPosition)
    → get_elem? ps i ≡ some p
    → key q ≡ key p
    → map key (set_at i q ps) ≡ map key ps
map-set_at i q p [] e same = refl
map-set_at zero q p (x ∷ ps) e same =
    ap (λ k. k ∷ map key ps) (same ∙ ap key (sym (some-injective _ _ e)))
map-set_at (suc i) q p (x ∷ ps) e same = ap (λ ks. key x ∷ ks) (map-set_at i q p ps e same)

pub record IsWalk (w : Walk) : Type 0 where
  pub booked : All IsBooked w.positions
  pub keyed : w.entered ≡ map key w.positions
  pub distinct : IsDistinct w.entered

open_on-IsBooked :
    (c : Scenario) (s : TokenStateSnapshot) (id : ℤ) (fill : ExecutionResult)
    → IsBooked (open_on c s id fill)
open_on-IsBooked c s id fill =
    let v = open_from-IsBooked id s.chain s.token_address s.launchpad c.label fill none none in
    record { conserved = v.conserved; flat_closed = v.flat_closed; best = v.best; worst = v.worst }

module _ (digest : Digest) (c : Scenario) where
  book_entry-IsWalk :
      (s : TokenStateSnapshot) (fill : ExecutionResult) (w : Walk)
      → has_key s.chain s.token_address w.entered ≡ false
      → IsWalk w
      → IsWalk (book_entry c s fill w)
  unfolding book_entry open_from
  book_entry-IsWalk s fill w fresh v = elim (Bool-cases (is_fill fill.status)) [
    | inl f ↦ rw f (record {
      booked =
          All-append IsBooked w.positions (open_on c s w.next_pos fill ∷ []) v.booked
            (open_on-IsBooked c s w.next_pos fill, tt);
      keyed = rw v.keyed (sym (map-append w.positions (open_on c s w.next_pos fill ∷ [])));
      distinct = append-IsDistinct w.entered (s.chain, s.token_address) v.distinct fresh;
    })
    | inr f ↦ rw f (record { booked = v.booked; keyed = v.keyed; distinct = v.distinct })
  ]

  module _ (book : SnapshotBook) (s : TokenStateSnapshot) where
    pub try_entry-IsWalk :
        (sec : Option SecurityVerdict) (w : Walk)
        → IsWalk w
        → IsWalk (try_entry digest c book s sec w)
    unfolding try_entry
    try_entry-IsWalk sec w v = elim (Bool-cases (has_key s.chain s.token_address w.entered)) [
      | inl old ↦ rw old v
      | inr fresh ↦
          rw fresh (elim (Bool-cases (is_enter (may_enter digest (entry_query c s sec)))) [
            | inl y ↦ rw y (book_entry-IsWalk s _ w fresh v)
            | inr n ↦ rw n v
          ])
    ]

    exit_at-IsWalk :
        (i : ℕ) (e : Exit) (w : Walk)
        → IsWalk w
        → IsWalk (exit_at digest c book s i e (get_elem? w.positions i) w)
    exit_at-IsWalk i e w v = elim (Option-cases (get_elem? w.positions i)) [
      | inl n ↦ rw n v
      | inr (p, y) ↦
          let fill = simulate_side digest book c.cfg (exit_order_of s p e) in
          let q = apply_exit p fill e.why e.full in
          let good : IsBooked q =
            after_step-IsBooked p (exits fill e.why e.full)
              (All-get_elem? IsBooked w.positions i p v.booked y) in
          rw y (record {
            booked = All-set_at i q w.positions good v.booked;
            keyed =
                v.keyed ∙ sym (map-set_at i q p w.positions y (key-apply_exit p fill e.why e.full));
            distinct = v.distinct;
          })
    ]

    pub run_exits-IsWalk :
        (es : List (ℕ × Exit)) (w : Walk) → IsWalk w → IsWalk (run_exits digest c book s es w)
    run_exits-IsWalk [] w v = v
    run_exits-IsWalk ((i, e) ∷ es) w v = run_exits-IsWalk es _ (exit_at-IsWalk i e w v)
