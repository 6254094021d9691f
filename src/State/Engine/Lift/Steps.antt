-- ===== src/State/Engine/Lift/Steps.antt =====
-- Every operation on the engine of apps/engine/src/state/engine.rs keeps an invariant of tokens.
use memecoin_bot.Base.{
  ◌+◌, Option, none, some, List, [], ◌∷◌, All, length, Bool-cases, inl, inr, ltb,
}
use memecoin_bot.Base.Int.{ℤ}
use memecoin_bot.Domain.Events.{CanonicalEvent, discovery, trade, lifecycle}
use memecoin_bot.State.Clock.{clock_now, advance_to, is_replay}
use memecoin_bot.State.Order.{StateOrder, from_canonical}
use memecoin_bot.State.Snapshot.{TokenStateSnapshot}
use memecoin_bot.State.Engine.{TokenKey, TokenState, StateEngine, find_token, eq_key}
use memecoin_bot.State.Engine.Emit.{emit_due_snapshots, maybe_evict}
use memecoin_bot.State.Engine.Apply.{flush_unresolved_trades}
use memecoin_bot.State.Engine.Feed.{
  event_time, due_key, emit_for, note_late, insert_event, is_late, apply_event, apply_in_order,
  flush_entries, flush_reorder, push_event, apply, apply_all, apply_sorted, sort_by_order,
  finish_each, finish_until, tick_live, rebuild_token, raise_version, note_orphan,
  take_pending_rebuilds, mark_already_emitted, mark_on, mark_from,
}
use memecoin_bot.State.Engine.History.{
  EngineStep, engine_step, after_steps, pushed, taken, finished, ticked, rebuilt, orphaned,
  rebuilds_taken, marked,
}
use memecoin_bot.State.Engine.Lift
use memecoin_bot.State.Engine.Lift.{TokenInvariant}
use memecoin_bot.State.Engine.Lift.Applied.{
  Holds, HoldsOn, apply_discovered-Holds, apply_trade-Holds, apply_lifecycle-Holds,
  flush_unresolved_trades-Holds,
}

module _ (P : TokenState → Type 0) (inv : TokenInvariant P) where
  emit_for-Holds :
      (e : StateEngine) (t : ℤ) (o : Option TokenKey) → Holds P inv e → Holds P inv (emit_for e t o)
  emit_for-Holds e t none h = h
  emit_for-Holds e t (some key) h = Lift.emit_due_snapshots-Holds P inv e key t h

  raise_version-Holds :
      (key : TokenKey) (tokens : List TokenState) → All P tokens → All P (raise_version key tokens)
  raise_version-Holds key [] h = tt
  raise_version-Holds key (st ∷ rest) h = elim (Bool-cases (eq_key st.key key)) [
    | inl e ↦ rw e (inv.versioned st (st.snapshot_version + 1) h.0, h.1)
    | inr e ↦ rw e (h.0, raise_version-Holds key rest h.1)
  ]

  finish_each-Holds :
      (until : ℤ) (sts : List TokenState) (e : StateEngine)
      → Holds P inv e
      → Holds P inv (finish_each until e sts)
  finish_each-Holds until [] e h = h
  finish_each-Holds until (st ∷ rest) e h =
      finish_each-Holds until rest (maybe_evict (emit_due_snapshots e st.key until) st.key until) (
        Lift.maybe_evict-Holds P inv (emit_due_snapshots e st.key until) st.key until
          (Lift.emit_due_snapshots-Holds P inv e st.key until h))

  finish_until-Holds :
      (e : StateEngine) (until : ℤ) → Holds P inv e → Holds P inv (finish_until e until).0
  unfolding finish_until
  finish_until-Holds e until h =
      finish_each-Holds until e.tokens (record e { clock = advance_to e.clock until }) h

  mark_from-Holds :
      (snaps : List TokenStateSnapshot) (st : TokenState) → P st → P (mark_from st snaps)
  mark_from-Holds [] st h = h
  mark_from-Holds (s ∷ snaps) st h = mark_from-Holds snaps _ (inv.marked st _ _ h)

  mark_on-Holds :
      (e : StateEngine) (snaps : List TokenStateSnapshot) (o : Option TokenState)
      → HoldsOn P inv o
      → Holds P inv e
      → Holds P inv (mark_on e snaps o)
  mark_on-Holds e snaps none p h = h
  mark_on-Holds e snaps (some st) p h =
      Lift.put_token-Holds P inv _ e.tokens
        (mark_from-Holds snaps
          (record st { emitted_milestones = []; last_emitted_snapshot_ms = st.discovered_at })
          (inv.marked st [] st.discovered_at p))
        h

  module _ (wall : ℤ) where
    apply_event-Holds :
        (e : StateEngine) (event : CanonicalEvent) (order : StateOrder) (t : ℤ)
        → Holds P inv e
        → Holds P inv (apply_event wall e event order t)
    apply_event-Holds e (discovery tok) order t h =
        apply_discovered-Holds P inv wall (flush_unresolved_trades wall)
          (flush_unresolved_trades-Holds P inv wall) e tok order t h
    apply_event-Holds e (trade deal) order t h =
        apply_trade-Holds P inv wall (flush_unresolved_trades wall)
          (flush_unresolved_trades-Holds P inv wall) e deal order t h
    apply_event-Holds e (lifecycle life) order t h =
        apply_lifecycle-Holds P inv wall e life order t h

    apply_in_order-Holds :
        (e : StateEngine) (event : CanonicalEvent) (order : StateOrder)
        → Holds P inv e
        → Holds P inv (apply_in_order wall e event order)
    unfolding apply_in_order
    apply_in_order-Holds e event order h =
        let t = event_time event in
        let at = record e { clock = advance_to e.clock t } in
        apply_event-Holds (emit_for at t (due_key at event)) event order t
          (emit_for-Holds at t (due_key at event) h)

    flush_entries-Holds :
        (entries : List (StateOrder × CanonicalEvent)) (e : StateEngine)
        → Holds P inv e
        → Holds P inv (flush_entries wall e entries)
    unfolding flush_entries note_late
    flush_entries-Holds [] e h = h
    flush_entries-Holds ((o, ev) ∷ entries) e h = flush_entries-Holds entries _ (
        Lift.if-Holds P inv (is_late o e.last_applied) _ _ h
          (apply_in_order-Holds (record e { reorder = entries }) ev o h))

    push_event-Holds :
        (e : StateEngine) (event : CanonicalEvent)
        → Holds P inv e
        → Holds P inv (push_event wall e event)
    unfolding push_event flush_reorder note_late
    push_event-Holds e event h =
        let order = from_canonical event 0 in
        let inserted = insert_event order event e.reorder in
        let held = record e { reorder = inserted } in
        let applied = apply_in_order wall e event order in
        Lift.if-Holds P inv (is_late order e.last_applied) _ _
          (Lift.if-Holds P inv (is_replay e.clock) _ _ h (
            Lift.if-Holds P inv (ltb 64 (length inserted)) _ _ (flush_entries-Holds inserted held h)
              h))
          (flush_entries-Holds applied.reorder applied (apply_in_order-Holds e event order h))

    apply_all-Holds :
        (events : List CanonicalEvent) (e : StateEngine)
        → Holds P inv e
        → Holds P inv (apply_all wall e events).0
    unfolding apply_all apply
    apply_all-Holds [] e h = h
    apply_all-Holds (ev ∷ evs) e h =
        apply_all-Holds evs (record (push_event wall e ev) { snapshot_buffer = [] })
          (push_event-Holds e ev h)

    rebuild_token-Holds :
        (e : StateEngine) (key : TokenKey) (events : List CanonicalEvent)
        → Holds P inv e
        → Holds P inv (rebuild_token wall e key events).0
    unfolding rebuild_token apply_sorted
    rebuild_token-Holds e key events h =
        raise_version-Holds key _
          (apply_all-Holds (sort_by_order events) _ (Lift.remove_token-Holds P inv key e.tokens h))

  engine_step-Holds :
      (e : StateEngine) (s : EngineStep) → Holds P inv e → Holds P inv (engine_step e s)
  unfolding note_orphan take_pending_rebuilds tick_live mark_already_emitted
  engine_step-Holds e (pushed wall event) h = push_event-Holds wall e event h
  engine_step-Holds e taken h = h
  engine_step-Holds e (finished until) h = finish_until-Holds e until h
  engine_step-Holds e (ticked wall) h = finish_until-Holds e (clock_now wall e.clock) h
  engine_step-Holds e (rebuilt wall key events) h = rebuild_token-Holds wall e key events h
  engine_step-Holds e (orphaned chain token) h = h
  engine_step-Holds e rebuilds_taken h = h
  engine_step-Holds e (marked key snaps) h =
      mark_on-Holds e snaps (find_token key e.tokens) (Lift.find_token-Holds P inv key e.tokens h) h

  pub after_steps-Holds :
      (steps : List EngineStep) (e : StateEngine)
      → Holds P inv e
      → Holds P inv (after_steps e steps)
  after_steps-Holds [] e h = h
  after_steps-Holds (s ∷ steps) e h =
      after_steps-Holds steps (engine_step e s) (engine_step-Holds e s h)
