-- ===== src/State/Engine/Ordering.antt =====
-- The order in which the engine of apps/engine/src/state/engine.rs applies events: late events, the
-- reorder buffer, and every sequence of operations on an engine.
use mathlib.Core.Path.{subst}
use mathlib.Core.Bool.{false≢true}
use memecoin_bot.Base.{
  ℕ, suc, ◌+◌, ◌≡◌, refl, ◌∙◌, sym, ap, Bool, true, false, Option, none, some, List, [], ◌∷◌, arith,
  if◌then◌else◌, length, ltb, Bool-cases, inl, inr, All,
}
use memecoin_bot.Base.Int.{ℤ}
use memecoin_bot.Domain.Events.{CanonicalEvent}
use memecoin_bot.State.Clock.{EngineClock, is_replay, replay, live, advance_to}
use memecoin_bot.State.Order.{StateOrder, from_canonical, ltb_order, ltb_order_between}
use memecoin_bot.State.Engine.{TokenKey, StateEngine}
use memecoin_bot.State.Engine.Frame.{
  IsFramed, IsFramed-refl, IsFramed-trans, emit_due_snapshots-IsFramed, apply_event-IsFramed,
}
use memecoin_bot.State.Engine.Feed.{
  event_time, due_key, emit_for, note_late, insert_event, is_late, apply_in_order, flush_entries,
  flush_reorder, push_event,
}

abbrev pub Entry : Type 0
Entry = StateOrder × CanonicalEvent

abbrev pub AllLate : Option StateOrder → List Entry → Type 0
AllLate last entries = All (λ (p : Entry). is_late p.0 last ≡ true) entries

abbrev IsEmptyList : List Entry → Type 0
IsEmptyList [] = Unit
IsEmptyList (x ∷ xs) = ⊥

-- What the buffer holds is before the last order applied, and a replay holds nothing.
pub record IsHeld (e : StateEngine) : Type 0 where
  pub held : AllLate e.last_applied e.reorder
  pub none_in_replay : is_replay e.clock ≡ true → e.reorder ≡ []

-- `e'` is `e` with `n` more late events: nothing has been applied.
pub record IsDropped (n : ℕ) (e e' : StateEngine) : Type 0 where
  pub tokens_same : e'.tokens ≡ e.tokens
  pub history_same : e'.history ≡ e.history
  pub buffer_same : e'.snapshot_buffer ≡ e.snapshot_buffer
  pub clock_same : e'.clock ≡ e.clock
  pub last_same : e'.last_applied ≡ e.last_applied
  pub emptied : e'.reorder ≡ []
  pub late_more : e'.late_events ≡ e.late_events + n

emit_for-IsFramed : (e : StateEngine) (t : ℤ) (o : Option TokenKey) → IsFramed e (emit_for e t o)
emit_for-IsFramed e t none = IsFramed-refl e
emit_for-IsFramed e t (some key) = emit_due_snapshots-IsFramed e key t

pub is_replay-advance_to : (c : EngineClock) (t : ℤ) → is_replay (advance_to c t) ≡ is_replay c
unfolding advance_to
is_replay-advance_to (replay now) t = refl
is_replay-advance_to (live last) t = refl

is_late-after :
    (o order : StateOrder) (last : Option StateOrder)
    → is_late o last ≡ true
    → is_late order last ≡ false
    → is_late o (some order) ≡ true
is_late-after o order none h k = cc
is_late-after o order (some l) h k = elim (ltb_order_between o order l h) [ inl e ↦ e | inr e ↦ cc ]

AllLate-after :
    (order : StateOrder) (last : Option StateOrder) (entries : List Entry)
    → is_late order last ≡ false
    → AllLate last entries
    → AllLate (some order) entries
AllLate-after order last [] k h = tt
AllLate-after order last (x ∷ xs) k h =
    (is_late-after x.0 order last h.0 k, AllLate-after order last xs k h.1)

AllLate-insert_event :
    (last : Option StateOrder) (order : StateOrder) (event : CanonicalEvent) (entries : List Entry)
    → is_late order last ≡ true
    → AllLate last entries
    → AllLate last (insert_event order event entries)
AllLate-insert_event last order event [] k h = (k, tt)
AllLate-insert_event last order event (x ∷ xs) k h = elim (Bool-cases (ltb_order order x.0)) [
  | inl e ↦ rw e (k, h)
  | inr e ↦ elim (Bool-cases (ltb_order x.0 order)) [
    | inl f ↦ rw (e, f) (h.0, AllLate-insert_event last order event xs k h.1)
    | inr f ↦ rw (e, f) h
  ]
]

-- A late note changes the counter and the marks for a rebuild.
pub record IsNoted (e e' : StateEngine) : Type 0 where
  pub tokens_same : e'.tokens ≡ e.tokens
  pub history_same : e'.history ≡ e.history
  pub buffer_same : e'.snapshot_buffer ≡ e.snapshot_buffer
  pub clock_same : e'.clock ≡ e.clock
  pub last_same : e'.last_applied ≡ e.last_applied
  pub reorder_same : e'.reorder ≡ e.reorder
  pub late_more : e'.late_events ≡ e.late_events + 1

note_late_lem : (e : StateEngine) (ev : CanonicalEvent) → IsNoted e (note_late e ev)
unfolding note_late
note_late_lem e ev = record {
  tokens_same = refl;
  history_same = refl;
  buffer_same = refl;
  clock_same = refl;
  last_same = refl;
  reorder_same = refl;
  late_more = refl;
}

note_late-AllLate :
    (e : StateEngine) (ev : CanonicalEvent) (entries : List Entry)
    → AllLate e.last_applied entries
    → AllLate (note_late (record e { reorder = entries }) ev).last_applied entries
unfolding note_late
note_late-AllLate e ev entries h = h

IsDropped-next :
    (e : StateEngine) (ev : CanonicalEvent) (entries : List Entry) (n : ℕ) (e' : StateEngine)
    → IsDropped n (note_late (record e { reorder = entries }) ev) e'
    → IsDropped (suc n) e e'
unfolding note_late
IsDropped-next e ev entries n e' d = record {
  tokens_same = d.tokens_same;
  history_same = d.history_same;
  buffer_same = d.buffer_same;
  clock_same = d.clock_same;
  last_same = d.last_same;
  emptied = d.emptied;
  late_more = omega (arith, d.late_more);
}

-- `e'` has applied nothing that `e` has not.
pub record IsUnapplied (e e' : StateEngine) : Type 0 where
  pub tokens_same : e'.tokens ≡ e.tokens
  pub history_same : e'.history ≡ e.history
  pub clock_same : e'.clock ≡ e.clock
  pub last_same : e'.last_applied ≡ e.last_applied

IsDropped-as : (n m : ℕ) (e e' : StateEngine) → n ≡ m → IsDropped n e e' → IsDropped m e e'
IsDropped-as n m e e' p d = subst (λ k. IsDropped k e e') p d

dropped-IsHeld : (n : ℕ) (e e' : StateEngine) → IsDropped n e e' → IsHeld e'
dropped-IsHeld n e e' d = record { held = rw (d.emptied) tt; none_in_replay = λ r. d.emptied }

IsUnapplied-if :
    (b : Bool) (e x y : StateEngine)
    → IsUnapplied e x × IsHeld x
    → IsUnapplied e y × IsHeld y
    → IsUnapplied e (if b then x else y) × IsHeld (if b then x else y)
IsUnapplied-if true e x y h k = h
IsUnapplied-if false e x y h k = k

-- An event before the last one applied is not applied, now or later; any other is applied at once,
-- and all that the buffer holds is counted as late.
abbrev pub AppliesInOrder : ℤ → StateEngine → CanonicalEvent → Type 0
AppliesInOrder wall e event =
    (is_late (from_canonical event 0) e.last_applied ≡ true
      → IsUnapplied e (push_event wall e event))
    × (is_late (from_canonical event 0) e.last_applied ≡ false
        → IsDropped (length e.reorder) (apply_in_order wall e event (from_canonical event 0))
            (push_event wall e event)
          × ((push_event wall e event).last_applied ≡ some (from_canonical event 0))
          × ((push_event wall e event).late_events ≡ e.late_events + length e.reorder))

module _ (wall : ℤ) where
  pub apply_in_order_frame :
      (e : StateEngine) (event : CanonicalEvent) (order : StateOrder)
      → ((apply_in_order wall e event order).last_applied ≡ some order)
        × ((apply_in_order wall e event order).reorder ≡ e.reorder)
        × ((apply_in_order wall e event order).late_events ≡ e.late_events)
        × ((apply_in_order wall e event order).clock ≡ advance_to e.clock (event_time event))
  unfolding apply_in_order
  apply_in_order_frame e event order =
      let t = event_time event in
      let at = record e { clock = advance_to e.clock t } in
      let emitted = emit_for-IsFramed at t (due_key at event) in
      let all =
        IsFramed-trans emitted
          (apply_event-IsFramed wall (emit_for at t (due_key at event)) event order t) in
      (refl, all.reorders, all.lates, all.clocks)

  -- A flush of late entries applies none of them.
  flush_entries-IsDropped :
      (entries : List Entry) (e : StateEngine)
      → e.reorder ≡ entries
      → AllLate e.last_applied entries
      → IsDropped (length entries) e (flush_entries wall e entries)
  unfolding flush_entries
  flush_entries-IsDropped [] e r h = record {
    tokens_same = refl;
    history_same = refl;
    buffer_same = refl;
    clock_same = refl;
    last_same = refl;
    emptied = r;
    late_more = omega arith;
  }
  flush_entries-IsDropped ((o, ev) ∷ entries) e r h = rw (h.0) (
      IsDropped-next e ev entries (length entries) _ (
        flush_entries-IsDropped entries (note_late (record e { reorder = entries }) ev)
          (note_late_lem (record e { reorder = entries }) ev).reorder_same
          (note_late-AllLate e ev entries h.1)))

  flush_reorder-IsDropped :
      (e : StateEngine)
      → AllLate e.last_applied e.reorder
      → IsDropped (length e.reorder) e (flush_reorder wall e)
  unfolding flush_reorder
  flush_reorder-IsDropped e h = flush_entries-IsDropped e.reorder e refl h

  -- What a push does with an event that comes too late, on an engine `e` with the result `e'`.
  push_late :
      (e : StateEngine) (event : CanonicalEvent)
      → IsHeld e
      → is_late (from_canonical event 0) e.last_applied ≡ true
      → IsUnapplied e (push_event wall e event) × IsHeld (push_event wall e event)
  unfolding push_event note_late
  push_late e event h k = elim (Bool-cases (is_replay e.clock)) [
    | inl r ↦
        rw (k, r)
          (
            record { tokens_same = refl; history_same = refl; clock_same = refl; last_same = refl },
            record { held = h.held; none_in_replay = h.none_in_replay },
          )
    | inr r ↦
        let inserted = insert_event (from_canonical event 0) event e.reorder in
        let all =
          AllLate-insert_event e.last_applied (from_canonical event 0) event e.reorder k h.held in
        let flushed = flush_reorder-IsDropped (record e { reorder = inserted }) all in
        rw (k, r)
          (IsUnapplied-if (ltb 64 (length inserted)) e
            (flush_reorder wall (record e { reorder = inserted })) (record e { reorder = inserted })
            (
              record {
                tokens_same = flushed.tokens_same;
                history_same = flushed.history_same;
                clock_same = flushed.clock_same;
                last_same = flushed.last_same;
              },
              dropped-IsHeld _ _ _ flushed,
            )
            (
              record {
                tokens_same = refl;
                history_same = refl;
                clock_same = refl;
                last_same = refl;
              },
              record { held = all; none_in_replay = λ t. absurd (false≢true (sym r ∙ t)) },
            ))
  ]

  -- A timely event is applied, and what the buffer holds is counted as late.
  push_timely :
      (e : StateEngine) (event : CanonicalEvent)
      → IsHeld e
      → is_late (from_canonical event 0) e.last_applied ≡ false
      → IsDropped
          (length e.reorder)
          (apply_in_order wall e event (from_canonical event 0))
          (push_event wall e event)
  unfolding push_event
  push_timely e event h k =
      let order = from_canonical event 0 in
      let frame = apply_in_order_frame e event order in
      rw k (
        IsDropped-as (length (apply_in_order wall e event order).reorder) (length e.reorder) _ _
          (ap length frame.1)
          (flush_reorder-IsDropped (apply_in_order wall e event order)
            (rw (frame.0, frame.1) (AllLate-after order e.last_applied e.reorder k h.held))))

  pub push_event-applies :
      (e : StateEngine) (event : CanonicalEvent)
      → IsHeld e
      → IsHeld (push_event wall e event) × AppliesInOrder wall e event
  push_event-applies e event h =
      let order = from_canonical event 0 in
      let frame = apply_in_order_frame e event order in
      elim (Bool-cases (is_late order e.last_applied)) [
        | inl k ↦
            let late = push_late e event h k in
            (late.1, (λ _. late.0, λ f. absurd (false≢true (sym f ∙ k))))
        | inr k ↦
            let d = push_timely e event h k in
            (
              dropped-IsHeld _ _ _ d,
              (
                λ t. absurd (false≢true (sym k ∙ t)),
                λ _. (d, d.last_same ∙ frame.0, omega (arith, d.late_more, frame.2)),
              ),
            )
      ]
