-- ===== src/State/Engine/History.antt =====
-- Any sequence of operations on the engine of apps/engine/src/state/engine.rs.
use memecoin_bot.Base.{
  ◌+◌, ◌&&◌, Bool-cases, inl, inr, ◌≡◌, refl, ◌∙◌, sym, ap, String, Option, none, some, List, [],
  ◌∷◌,
}
use memecoin_bot.Base.Int.{ℤ, ◌-ℤ◌, leb_ℤ}
use memecoin_bot.Domain.{Chain, QualityStatus}
use memecoin_bot.Domain.Events.{CanonicalEvent}
use memecoin_bot.State.Clock.{EngineClock, is_replay, advance_to, clock_now}
use memecoin_bot.State.Snapshot.{TokenStateSnapshot}
use memecoin_bot.State.Engine.{
  TokenKey, TokenState, StateEngine, new_engine, find_token, remove_token,
}
use memecoin_bot.State.Engine.Frame.{IsFramed, emit_due_snapshots-IsFramed}
use memecoin_bot.State.Engine.Emit.{maybe_evict, evict_on, emit_due_snapshots, is_hot}
use memecoin_bot.State.Engine.Feed.{
  push_event, apply, apply_all, apply_sorted, sort_by_order, finish_each, finish_until, tick_live,
  rebuild_token, without_key, note_orphan, take_pending_rebuilds, mark_already_emitted, mark_on,
}
use memecoin_bot.State.Engine.Ordering.{
  IsHeld, AppliesInOrder, push_event-applies, is_replay-advance_to,
}

pub data EngineStep : Type 0 where
  pushed : ℤ → CanonicalEvent → EngineStep
  taken : EngineStep
  finished : ℤ → EngineStep
  ticked : ℤ → EngineStep
  rebuilt : ℤ → TokenKey → List CanonicalEvent → EngineStep
  orphaned : Chain → String → EngineStep
  rebuilds_taken : EngineStep
  marked : TokenKey → List TokenStateSnapshot → EngineStep

abbrev pub engine_step : StateEngine → EngineStep → StateEngine
engine_step e (pushed wall event) = push_event wall e event
engine_step e taken = record e { snapshot_buffer = [] }
engine_step e (finished until) = (finish_until e until).0
engine_step e (ticked wall) = (tick_live wall e).0
engine_step e (rebuilt wall key events) = (rebuild_token wall e key events).0
engine_step e (orphaned chain token) = note_orphan e chain token
engine_step e rebuilds_taken = (take_pending_rebuilds e).0
engine_step e (marked key snaps) = mark_already_emitted e key snaps

abbrev pub after_steps : StateEngine → List EngineStep → StateEngine
after_steps e [] = e
after_steps e (s ∷ steps) = after_steps (engine_step e s) steps

-- What an operation that applies no event leaves alone.
record IsQuiet (e e' : StateEngine) : Type 0 where
  pub orders : e'.last_applied ≡ e.last_applied
  pub reorders : e'.reorder ≡ e.reorder
  pub modes : is_replay e'.clock ≡ is_replay e.clock

quiet-IsHeld : (e e' : StateEngine) → IsQuiet e e' → IsHeld e → IsHeld e'
quiet-IsHeld e e' q h = record {
  held = rw (q.orders, q.reorders) h.held;
  none_in_replay = λ r. q.reorders ∙ h.none_in_replay (sym q.modes ∙ r);
}

IsQuiet-trans : {a b c : StateEngine} → IsQuiet a b → IsQuiet b c → IsQuiet a c
IsQuiet-trans h k = record {
  orders = k.orders ∙ h.orders;
  reorders = k.reorders ∙ h.reorders;
  modes = k.modes ∙ h.modes;
}

framed-IsQuiet : (e e' : StateEngine) → IsFramed e e' → IsQuiet e e'
framed-IsQuiet e e' f = record {
  orders = f.orders;
  reorders = f.reorders;
  modes = ap is_replay f.clocks;
}

evict_on-IsQuiet :
    (e : StateEngine) (key : TokenKey) (now : ℤ) (o : Option TokenState)
    → IsQuiet e (evict_on e key now o)
evict_on-IsQuiet e key now none = record { orders = refl; reorders = refl; modes = refl }
evict_on-IsQuiet e key now (some st) =
    let age = now -ℤ st.discovered_at in
    elim (Bool-cases (leb_ℤ e.memory.cold_ms age)) [
      | inl c ↦ rw c (record { orders = refl; reorders = refl; modes = refl })
      | inr c ↦ elim (Bool-cases (leb_ℤ e.memory.hot_ms age && is_hot st.memory_tier)) [
        | inl d ↦ rw (c, d) (record { orders = refl; reorders = refl; modes = refl })
        | inr d ↦ rw (c, d) (record { orders = refl; reorders = refl; modes = refl })
      ]
    ]

maybe_evict-IsQuiet :
    (e : StateEngine) (key : TokenKey) (now : ℤ) → IsQuiet e (maybe_evict e key now)
unfolding maybe_evict
maybe_evict-IsQuiet e key now = evict_on-IsQuiet e key now (find_token key e.tokens)

finish_each-IsQuiet :
    (until : ℤ) (sts : List TokenState) (e : StateEngine) → IsQuiet e (finish_each until e sts)
finish_each-IsQuiet until [] e = record { orders = refl; reorders = refl; modes = refl }
finish_each-IsQuiet until (st ∷ rest) e =
    IsQuiet-trans
      (framed-IsQuiet e (emit_due_snapshots e st.key until)
        (emit_due_snapshots-IsFramed e st.key until))
      (IsQuiet-trans (maybe_evict-IsQuiet (emit_due_snapshots e st.key until) st.key until) (
        finish_each-IsQuiet until rest
          (maybe_evict (emit_due_snapshots e st.key until) st.key until)))

finish_until-IsQuiet : (e : StateEngine) (until : ℤ) → IsQuiet e (finish_until e until).0
unfolding finish_until
finish_until-IsQuiet e until =
    let at = record e { clock = advance_to e.clock until } in
    let q = finish_each-IsQuiet until e.tokens at in
    record {
      orders = q.orders;
      reorders = q.reorders;
      modes = q.modes ∙ is_replay-advance_to e.clock until;
    }

mark_on-IsQuiet :
    (e : StateEngine) (snaps : List TokenStateSnapshot) (o : Option TokenState)
    → IsQuiet e (mark_on e snaps o)
mark_on-IsQuiet e snaps none = record { orders = refl; reorders = refl; modes = refl }
mark_on-IsQuiet e snaps (some st) = record { orders = refl; reorders = refl; modes = refl }

apply_all-IsHeld :
    (wall : ℤ) (events : List CanonicalEvent) (e : StateEngine)
    → IsHeld e
    → IsHeld (apply_all wall e events).0
unfolding apply_all apply
apply_all-IsHeld wall [] e h = h
apply_all-IsHeld wall (ev ∷ evs) e h =
    let next = push_event wall e ev in
    apply_all-IsHeld wall evs (record next { snapshot_buffer = [] })
      (quiet-IsHeld next (record next { snapshot_buffer = [] })
        (record { orders = refl; reorders = refl; modes = refl })
        (push_event-applies wall e ev h).0)

rebuild_token-IsHeld :
    (wall : ℤ) (e : StateEngine) (key : TokenKey) (events : List CanonicalEvent)
    → IsHeld (rebuild_token wall e key events).0
unfolding rebuild_token apply_sorted
rebuild_token-IsHeld wall e key events =
    let cleared = record e {
      rebuilds = e.rebuilds + 1;
      tokens = remove_token key e.tokens;
      by_curve = without_key key e.by_curve;
      by_pool = without_key key e.by_pool;
      last_applied = none;
      reorder = [];
    } in
    let next = (apply_all wall cleared (sort_by_order events)).0 in
    quiet-IsHeld next _ (record { orders = refl; reorders = refl; modes = refl })
      (apply_all-IsHeld wall (sort_by_order events) cleared
        (record { held = tt; none_in_replay = λ r. refl }))

engine_step-IsHeld : (e : StateEngine) (s : EngineStep) → IsHeld e → IsHeld (engine_step e s)
unfolding note_orphan take_pending_rebuilds tick_live mark_already_emitted
engine_step-IsHeld e (pushed wall event) h = (push_event-applies wall e event h).0
engine_step-IsHeld e taken h = record { held = h.held; none_in_replay = h.none_in_replay }
engine_step-IsHeld e (finished until) h = quiet-IsHeld e _ (finish_until-IsQuiet e until) h
engine_step-IsHeld e (ticked wall) h =
    quiet-IsHeld e _ (finish_until-IsQuiet e (clock_now wall e.clock)) h
engine_step-IsHeld e (rebuilt wall key events) h = rebuild_token-IsHeld wall e key events
engine_step-IsHeld e (orphaned chain token) h = record {
  held = h.held;
  none_in_replay = h.none_in_replay;
}
engine_step-IsHeld e rebuilds_taken h = record { held = h.held; none_in_replay = h.none_in_replay }
engine_step-IsHeld e (marked key snaps) h =
    quiet-IsHeld e _ (mark_on-IsQuiet e snaps (find_token key e.tokens)) h

pub after_steps-IsHeld :
    (steps : List EngineStep) (e : StateEngine) → IsHeld e → IsHeld (after_steps e steps)
after_steps-IsHeld [] e h = h
after_steps-IsHeld (s ∷ steps) e h =
    after_steps-IsHeld steps (engine_step e s) (engine_step-IsHeld e s h)

pub new_engine-IsHeld :
    (clock : EngineClock) (quality : QualityStatus) (session : Option ℤ)
    → IsHeld (new_engine clock quality session)
unfolding new_engine
new_engine-IsHeld clock quality session = record { held = tt; none_in_replay = λ r. refl }

-- After any sequence of operations on a new engine, every event that the reorder buffer holds is
-- before the last one applied, and a replay holds none. An event before the last one applied is not
-- applied, and the tokens, the history and the clock stay as they are; any other is applied at once,
-- it becomes the last one applied, and all that the buffer holds is counted as late without being
-- applied.
pub after_steps-AppliesInOrder :
    (clock : EngineClock) (quality : QualityStatus) (session : Option ℤ) (steps : List EngineStep)
    (wall : ℤ) (event : CanonicalEvent)
    → IsHeld (after_steps (new_engine clock quality session) steps)
      × AppliesInOrder wall (after_steps (new_engine clock quality session) steps) event
after_steps-AppliesInOrder clock quality session steps wall event =
    let e = after_steps (new_engine clock quality session) steps in
    let h =
      after_steps-IsHeld steps (new_engine clock quality session)
        (new_engine-IsHeld clock quality session) in
    (h, (push_event-applies wall e event h).1)
