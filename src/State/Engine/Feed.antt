-- ===== src/State/Engine/Feed.antt =====
-- How events reach the engine, in order: `push_event`, the reorder buffer, the clock ticks and the
-- rebuild of a token, of apps/engine/src/state/engine.rs.
use memecoin_bot.Base.{
  ◌+◌, ℕ, String, Bool, false, Option, none, some, List, [], ◌∷◌, ◌++◌, map, if◌then◌else◌, length,
  ltb,
}
use memecoin_bot.Base.Int.{ℤ, max_ℤ}
use memecoin_bot.Domain.{Chain}
use memecoin_bot.Domain.Events.{CanonicalEvent, discovery, trade, lifecycle}
use memecoin_bot.State.Clock.{clock_now, advance_to, is_replay}
use memecoin_bot.State.Order.{StateOrder, from_canonical, ltb_order}
use memecoin_bot.State.Schedule.{sat_add_ms, last_milestone_ms}
use memecoin_bot.State.Snapshot.{TokenStateSnapshot, milestone}
use memecoin_bot.State.Engine.{
  TokenKey, TokenState, StateEngine, AddressIndex, new_key, eq_key, is_empty_text, find_token,
  put_token, remove_token, insert_key,
}
use memecoin_bot.State.Engine.Emit.{emit_due_snapshots, maybe_evict, insert_time_set}
use memecoin_bot.State.Engine.Apply.{
  resolve_trade, resolve_life, apply_discovered, apply_trade, apply_lifecycle, or_time,
  flush_unresolved_trades,
}

-- `event_time`.
unfoldable pub event_time : CanonicalEvent → ℤ
event_time (discovery t) = or_time t.chain_timestamp t.observed_at
event_time (trade t) = or_time t.chain_timestamp t.observed_at
event_time (lifecycle t) = or_time t.chain_timestamp t.observed_at

abbrev key_unless_empty : Chain → String → Option TokenKey
key_unless_empty chain token = if is_empty_text token then none else some (new_key chain token)

unfoldable pub token_key_of : CanonicalEvent → Option TokenKey
token_key_of (discovery t) = key_unless_empty t.chain t.token_address
token_key_of (trade t) = key_unless_empty t.chain t.token_address
token_key_of (lifecycle t) = key_unless_empty t.chain t.token_address

-- The token whose due snapshots are emitted before the event is applied.
unfoldable pub due_key : StateEngine → CanonicalEvent → Option TokenKey
due_key e (discovery t) = token_key_of (discovery t)
due_key e (trade t) = resolve_trade e t
due_key e (lifecycle t) = resolve_life e t

abbrev pub emit_for : StateEngine → ℤ → Option TokenKey → StateEngine
emit_for e t none = e
emit_for e t (some key) = emit_due_snapshots e key t

abbrev add_pending : Option TokenKey → List TokenKey → List TokenKey
add_pending none keys = keys
add_pending (some key) keys = insert_key key keys

-- An event that comes too late is counted, and its token marked for a rebuild.
unfoldable pub note_late : StateEngine → CanonicalEvent → StateEngine
note_late e event = record e {
  late_events = e.late_events + 1;
  pending_rebuilds = add_pending (token_key_of event) e.pending_rebuilds;
}

-- `BTreeMap::insert`: in order, the entry of an equal key replaced.
abbrev pub insert_event :
    StateOrder
    → CanonicalEvent
    → List (StateOrder × CanonicalEvent)
    → List (StateOrder × CanonicalEvent)
insert_event order event [] = (order, event) ∷ []
insert_event order event ((o, ev) ∷ rest) =
    if ltb_order order o
    then (order, event) ∷ (o, ev) ∷ rest
    else if ltb_order o order
    then (o, ev) ∷ insert_event order event rest
    else (o, event) ∷ rest

-- Whether an order is before the last one applied.
abbrev pub is_late : StateOrder → Option StateOrder → Bool
is_late order none = false
is_late order (some last) = ltb_order order last

-- A stable sort by order: an event goes before the first that is not below it.
abbrev pub insert_by_order : CanonicalEvent → List CanonicalEvent → List CanonicalEvent
insert_by_order ev [] = ev ∷ []
insert_by_order ev (x ∷ xs) =
    if ltb_order (from_canonical x 0) (from_canonical ev 0)
    then x ∷ insert_by_order ev xs
    else ev ∷ x ∷ xs

abbrev pub sort_by_order : List CanonicalEvent → List CanonicalEvent
sort_by_order [] = []
sort_by_order (x ∷ xs) = insert_by_order x (sort_by_order xs)

abbrev pub finish_each : ℤ → StateEngine → List TokenState → StateEngine
finish_each until e [] = e
finish_each until e (st ∷ rest) =
    finish_each until (maybe_evict (emit_due_snapshots e st.key until) st.key until) rest

unfoldable pub finish_until : StateEngine → ℤ → StateEngine × List TokenStateSnapshot
finish_until e until =
    let at = record e { clock = advance_to e.clock until } in
    let next = finish_each until at at.tokens in
    (record next { snapshot_buffer = [] }, next.snapshot_buffer)

abbrev latest_milestone : ℕ → ℤ → List TokenState → ℤ
latest_milestone last until [] = until
latest_milestone last until (st ∷ rest) =
    latest_milestone last (max_ℤ until (sat_add_ms st.discovered_at last)) rest

abbrev pub without_key : TokenKey → AddressIndex → AddressIndex
without_key key [] = []
without_key key ((a, k) ∷ rest) =
    if eq_key k key then without_key key rest else (a, k) ∷ without_key key rest

abbrev pub raise_version : TokenKey → List TokenState → List TokenState
raise_version key [] = []
raise_version key (st ∷ rest) =
    if eq_key st.key key
    then record st { snapshot_version = st.snapshot_version + 1 } ∷ rest
    else st ∷ raise_version key rest

abbrev version_of : Option TokenState → TokenStateSnapshot → TokenStateSnapshot
version_of none s = s
version_of (some st) s = record s { version = st.snapshot_version }

module _ (wall : ℤ) where
  abbrev pub apply_event : StateEngine → CanonicalEvent → StateOrder → ℤ → StateEngine
  apply_event e (discovery tok) order t =
      apply_discovered wall (flush_unresolved_trades wall) e tok order t
  apply_event e (trade tr) order t = apply_trade wall (flush_unresolved_trades wall) e tr order t
  apply_event e (lifecycle life) order t = apply_lifecycle wall e life order t

  unfoldable pub apply_in_order : StateEngine → CanonicalEvent → StateOrder → StateEngine
  apply_in_order e event order =
      let t = event_time event in
      let at = record e { clock = advance_to e.clock t } in
      let emitted = emit_for at t (due_key at event) in
      let applied = apply_event emitted event order t in
      record applied { last_applied = some order }

  -- The loop of the flush, over the entries of the buffer in order.
  unfoldable pub flush_entries : StateEngine → List (StateOrder × CanonicalEvent) → StateEngine
  flush_entries e [] = e
  flush_entries e ((order, event) ∷ rest) =
      flush_entries
        (let taken = record e { reorder = rest } in
          if is_late order e.last_applied
          then note_late taken event
          else apply_in_order taken event order)
        rest

  unfoldable pub flush_reorder : StateEngine → StateEngine
  flush_reorder e = flush_entries e e.reorder

  unfoldable pub push_event : StateEngine → CanonicalEvent → StateEngine
  push_event e event =
      let order = from_canonical event 0 in
      let held = record e { reorder = insert_event order event e.reorder } in
      if is_late order e.last_applied
      then if is_replay e.clock
        then note_late e event
        else if ltb 64 (length held.reorder)
        then flush_reorder held
        else held
      else flush_reorder (apply_in_order e event order)

  -- `take_snapshots`: the buffer is handed over.
  unfoldable pub apply : StateEngine → CanonicalEvent → StateEngine × List TokenStateSnapshot
  apply e event =
      let next = push_event e event in (record next { snapshot_buffer = [] }, next.snapshot_buffer)

  unfoldable pub apply_all :
      StateEngine → List CanonicalEvent → StateEngine × List TokenStateSnapshot
  apply_all e [] = (e, [])
  apply_all e (ev ∷ evs) =
      let (next, out) = apply e ev in let (last, more) = apply_all next evs in (last, out ++ more)

  unfoldable pub apply_sorted :
      StateEngine → List CanonicalEvent → StateEngine × List TokenStateSnapshot
  apply_sorted e events = apply_all e (sort_by_order events)

  unfoldable pub finish_all_milestones : StateEngine → StateEngine × List TokenStateSnapshot
  finish_all_milestones e =
      finish_until e
        (latest_milestone (last_milestone_ms e.schedule) (clock_now wall e.clock) e.tokens)

  unfoldable pub tick_live : StateEngine → StateEngine × List TokenStateSnapshot
  tick_live e = finish_until e (clock_now wall e.clock)

  unfoldable pub rebuild_token :
      StateEngine → TokenKey → List CanonicalEvent → StateEngine × List TokenStateSnapshot
  rebuild_token e key events =
      let cleared = record e {
        rebuilds = e.rebuilds + 1;
        tokens = remove_token key e.tokens;
        by_curve = without_key key e.by_curve;
        by_pool = without_key key e.by_pool;
        last_applied = none;
        reorder = [];
      } in
      let (next, out) = apply_sorted cleared events in
      let raised = record next { tokens = raise_version key next.tokens } in
      (
        raised,
        map
            (λ (s : TokenStateSnapshot).
              if eq_key (new_key s.chain s.token_address) key
              then version_of (find_token key raised.tokens) s
              else s)
            out,
      )

unfoldable pub note_orphan : StateEngine → Chain → String → StateEngine
note_orphan e chain token = record e {
  pending_rebuilds = insert_key (new_key chain token) e.pending_rebuilds;
  late_events = e.late_events + 1;
}

unfoldable pub take_pending_rebuilds : StateEngine → StateEngine × List TokenKey
take_pending_rebuilds e = (record e { pending_rebuilds = [] }, e.pending_rebuilds)

abbrev pub mark_from : TokenState → List TokenStateSnapshot → TokenState
mark_from st [] = st
mark_from st (s ∷ snaps) =
    mark_from
      (record st {
        emitted_milestones = elim (s.snapshot_kind) [
          | milestone ↦ insert_time_set s.age_ms st.emitted_milestones
          | _ ↦ st.emitted_milestones
        ];
        last_emitted_snapshot_ms = max_ℤ st.last_emitted_snapshot_ms s.snapshot_time;
      })
      snaps

abbrev pub mark_on : StateEngine → List TokenStateSnapshot → Option TokenState → StateEngine
mark_on e snaps none = e
mark_on e snaps (some st) = record e {
  tokens =
      put_token
        (mark_from
          (record st { emitted_milestones = []; last_emitted_snapshot_ms = st.discovered_at })
          snaps)
        e.tokens;
}

unfoldable pub mark_already_emitted : StateEngine → TokenKey → List TokenStateSnapshot → StateEngine
mark_already_emitted e key snaps = mark_on e snaps (find_token key e.tokens)
