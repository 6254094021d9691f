-- ===== src/State/Engine/Frame.antt =====
-- What applying an event leaves alone: the clock, the schedule, the buffers of events and the counters of
-- apps/engine/src/state/engine.rs.
use memecoin_bot.Base.{
  ℕ, zero, suc, ◌≡◌, refl, ◌∙◌, String, Bool, true, false, Option, none, some, List, [], ◌∷◌, ◌++◌,
  arith, if◌then◌else◌, length,
}
use memecoin_bot.Base.Int.{ℤ, ◌-ℤ◌}
use memecoin_bot.Domain.Events.{
  CanonicalEvent, TokenDiscovered, TradeObserved, LifecycleObserved, discovery, trade, lifecycle,
}
use memecoin_bot.State.Order.{StateOrder}
use memecoin_bot.State.Schedule.{due_times}
use memecoin_bot.State.Snapshot.{SnapshotKind}
use memecoin_bot.State.Engine.{
  TokenKey, TokenState, StateEngine, find_token, put_token, is_empty_text,
}
use memecoin_bot.State.Engine.Market.{is_some}
use memecoin_bot.State.Engine.Emit.{
  push_snapshot_on, push_snapshot, is_overdue, due_kind, push_due, emit_due_on, emit_due_snapshots,
  times_or_none, emit_lifecycle_snapshot,
}
use memecoin_bot.State.Engine.Trade.{is_first_amm, count_trade, record_trade}
use memecoin_bot.State.Engine.Life.{record_life}
use memecoin_bot.State.Engine.Feed.{apply_event}
use memecoin_bot.State.Engine.Apply.{
  write_back, apply_discovered, trade_on, known_or, trade_at, apply_trade, flush_one, flush_each,
  flush_nested, flush_unresolved_trades, life_on, life_at, apply_lifecycle, resolve_trade,
  resolve_life, is_snipe_tax,
}

pub record IsFramed (e e' : StateEngine) : Type 0 where
  pub clocks : e'.clock ≡ e.clock
  pub schedules : e'.schedule ≡ e.schedule
  pub memories : e'.memory ≡ e.memory
  pub orders : e'.last_applied ≡ e.last_applied
  pub reorders : e'.reorder ≡ e.reorder
  pub lates : e'.late_events ≡ e.late_events
  pub pendings : e'.pending_rebuilds ≡ e.pending_rebuilds

pub IsFramed-refl : (e : StateEngine) → IsFramed e e
IsFramed-refl e = ground arith

pub IsFramed-trans : {a b c : StateEngine} → IsFramed a b → IsFramed b c → IsFramed a c
IsFramed-trans {a} {b} {c} h k = record {
  clocks = k.clocks ∙ h.clocks;
  schedules = k.schedules ∙ h.schedules;
  memories = k.memories ∙ h.memories;
  orders = k.orders ∙ h.orders;
  reorders = k.reorders ∙ h.reorders;
  lates = k.lates ∙ h.lates;
  pendings = k.pendings ∙ h.pendings;
}

-- What holds of both branches holds of the conditional.
pub if-IsFramed :
    (b : Bool) (e x y : StateEngine) → IsFramed e x → IsFramed e y → IsFramed e (if b then x else y)
if-IsFramed true e x y h k = h
if-IsFramed false e x y h k = k

push_snapshot_on-IsFramed :
    (e : StateEngine) (key : TokenKey) (at : ℤ) (kind : SnapshotKind) (trigger : Option String)
    (o : Option TokenState)
    → IsFramed e (push_snapshot_on e key at kind trigger o)
push_snapshot_on-IsFramed e key at kind trigger none = IsFramed-refl e
push_snapshot_on-IsFramed e key at kind trigger (some st) =
    if-IsFramed (is_overdue kind at st) e e _ (IsFramed-refl e) (record {
      clocks = refl;
      schedules = refl;
      memories = refl;
      orders = refl;
      reorders = refl;
      lates = refl;
      pendings = refl;
    })

pub push_snapshot-IsFramed :
    (e : StateEngine) (key : TokenKey) (at : ℤ) (kind : SnapshotKind) (trigger : Option String)
    → IsFramed e (push_snapshot e key at kind trigger)
unfolding push_snapshot
push_snapshot-IsFramed e key at kind trigger =
    push_snapshot_on-IsFramed e key at kind trigger (find_token key e.tokens)

pub push_due-IsFramed :
    (key : TokenKey) (discovered : ℤ) (already : List ℤ) (e : StateEngine) (ts : List ℤ)
    → IsFramed e (push_due key discovered already e ts)
push_due-IsFramed key discovered already e [] = IsFramed-refl e
push_due-IsFramed key discovered already e (t ∷ ts) =
    IsFramed-trans (push_snapshot-IsFramed e key t _ none) (
      push_due-IsFramed key discovered already
        (push_snapshot e key t (due_kind e.schedule already (t -ℤ discovered)) none) ts)

emit_due_on-IsFramed :
    (e : StateEngine) (key : TokenKey) (until : ℤ) (o : Option TokenState)
    → IsFramed e (emit_due_on e key until o)
emit_due_on-IsFramed e key until none = IsFramed-refl e
emit_due_on-IsFramed e key until (some st) =
    push_due-IsFramed key st.discovered_at st.emitted_milestones e
      (times_or_none (due_times e.schedule st.discovered_at st.last_emitted_snapshot_ms until))

pub emit_due_snapshots-IsFramed :
    (e : StateEngine) (key : TokenKey) (until : ℤ) → IsFramed e (emit_due_snapshots e key until)
unfolding emit_due_snapshots
emit_due_snapshots-IsFramed e key until = emit_due_on-IsFramed e key until (find_token key e.tokens)

tokens-IsFramed :
    (e : StateEngine) (tokens : List TokenState) → IsFramed e (record e { tokens = tokens })
tokens-IsFramed e tokens = record {
  clocks = refl;
  schedules = refl;
  memories = refl;
  orders = refl;
  reorders = refl;
  lates = refl;
  pendings = refl;
}

unresolved-IsFramed :
    (e : StateEngine) (trades : List (StateOrder × TradeObserved × ℤ))
    → IsFramed e (record e { unresolved_trades = trades })
unresolved-IsFramed e trades = record {
  clocks = refl;
  schedules = refl;
  memories = refl;
  orders = refl;
  reorders = refl;
  lates = refl;
  pendings = refl;
}

write_back-IsFramed :
    (e : StateEngine) (st : TokenState) (key : TokenKey) → IsFramed e (write_back e st key)
unfolding write_back
write_back-IsFramed e st key = record {
  clocks = refl;
  schedules = refl;
  memories = refl;
  orders = refl;
  reorders = refl;
  lates = refl;
  pendings = refl;
}

module _ (wall : ℤ) where
  emit_lifecycle_snapshot-IsFramed :
      (e : StateEngine) (key : TokenKey) (trigger : String)
      → IsFramed e (emit_lifecycle_snapshot wall e key trigger)
  unfolding emit_lifecycle_snapshot
  emit_lifecycle_snapshot-IsFramed e key trigger = push_snapshot-IsFramed e key _ _ _

  trade_on-IsFramed :
      (e : StateEngine) (key : TokenKey) (tr : TradeObserved) (order : StateOrder) (t : ℤ)
      (o : Option TokenState)
      → IsFramed e (trade_on wall e key tr order t o)
  unfolding trade_on
  trade_on-IsFramed e key tr order t none = IsFramed-refl e
  trade_on-IsFramed e key tr order t (some st) =
      let written = tokens-IsFramed e (put_token (record_trade st tr order t) e.tokens) in
      let first =
        if-IsFramed (is_some st.first_trade_at) e _ _ written
          (IsFramed-trans written (emit_lifecycle_snapshot-IsFramed _ key "FIRST_TRADE")) in
      if-IsFramed (is_first_amm (count_trade st tr order t)) e _ _
        (IsFramed-trans first (emit_lifecycle_snapshot-IsFramed _ key "AMM_FIRST_TRADE")) first

  module _ (flush : StateEngine → StateEngine)
      (framed : (e : StateEngine) → IsFramed e (flush e)) where
    apply_discovered-IsFramed :
        (e : StateEngine) (tok : TokenDiscovered) (order : StateOrder) (t : ℤ)
        → IsFramed e (apply_discovered wall flush e tok order t)
    unfolding apply_discovered
    apply_discovered-IsFramed e tok order t =
        if-IsFramed (is_empty_text tok.token_address) e e _ (IsFramed-refl e) (
          IsFramed-trans
            (if-IsFramed _ e _ _ (write_back-IsFramed e _ _)
              (IsFramed-trans (write_back-IsFramed e _ _) (emit_lifecycle_snapshot-IsFramed _ _ _)))
            (framed _))

    known_or-IsFramed :
        (e : StateEngine) (key : TokenKey) (tok : TokenDiscovered) (order : StateOrder) (t : ℤ)
        → IsFramed e (known_or wall flush e key tok order t)
    unfolding known_or
    known_or-IsFramed e key tok order t =
        if-IsFramed _ e _ _ (IsFramed-refl e) (apply_discovered-IsFramed e tok order t)

    trade_at-IsFramed :
        (e : StateEngine) (tr : TradeObserved) (order : StateOrder) (t : ℤ) (o : Option TokenKey)
        → IsFramed e (trade_at wall flush e tr order t o)
    unfolding trade_at
    trade_at-IsFramed e tr order t none = unresolved-IsFramed e _
    trade_at-IsFramed e tr order t (some key) =
        IsFramed-trans (known_or-IsFramed e key _ order t) (trade_on-IsFramed _ key tr order t _)

    apply_trade-IsFramed :
        (e : StateEngine) (tr : TradeObserved) (order : StateOrder) (t : ℤ)
        → IsFramed e (apply_trade wall flush e tr order t)
    unfolding apply_trade
    apply_trade-IsFramed e tr order t = trade_at-IsFramed e tr order t (resolve_trade e tr)

    flush_one-IsFramed :
        (e : StateEngine) (x : StateOrder × TradeObserved × ℤ)
        → IsFramed e (flush_one wall flush e x)
    unfolding flush_one
    flush_one-IsFramed e (order, deal, t) =
        let kept = unresolved-IsFramed e (e.unresolved_trades ++ (order, deal, t) ∷ []) in
        if-IsFramed (is_some (resolve_trade e deal)) e _ _ (apply_trade-IsFramed e deal order t)
          kept

    flush_each-IsFramed :
        (pending : List (StateOrder × TradeObserved × ℤ)) (e : StateEngine)
        → IsFramed e (flush_each wall flush e pending)
    flush_each-IsFramed [] e = IsFramed-refl e
    flush_each-IsFramed (x ∷ pending) e =
        IsFramed-trans (flush_one-IsFramed e x)
          (flush_each-IsFramed pending (flush_one wall flush e x))

  flush_nested-IsFramed : (n : ℕ) (e : StateEngine) → IsFramed e (flush_nested wall n e)
  unfolding flush_nested
  flush_nested-IsFramed zero e = IsFramed-refl e
  flush_nested-IsFramed (suc n) e = IsFramed-trans (unresolved-IsFramed e []) (
      flush_each-IsFramed (flush_nested wall n) (flush_nested-IsFramed n) e.unresolved_trades
        (record e { unresolved_trades = [] }))

  flush_unresolved_trades-IsFramed : (e : StateEngine) → IsFramed e (flush_unresolved_trades wall e)
  unfolding flush_unresolved_trades
  flush_unresolved_trades-IsFramed e = flush_nested-IsFramed (length e.unresolved_trades) e

  life_on-IsFramed :
      (e : StateEngine) (key : TokenKey) (life : LifecycleObserved) (order : StateOrder) (t : ℤ)
      (o : Option TokenState)
      → IsFramed e (life_on wall e key life order t o)
  unfolding life_on
  life_on-IsFramed e key life order t none = IsFramed-refl e
  life_on-IsFramed e key life order t (some st) =
      let written = write_back-IsFramed e (record_life st life order t) key in
      IsFramed-trans
        (if-IsFramed (is_snipe_tax life.lifecycle_type) e _ _ written
          (IsFramed-trans written (emit_lifecycle_snapshot-IsFramed _ key _)))
        (flush_unresolved_trades-IsFramed _)

  life_at-IsFramed :
      (e : StateEngine) (life : LifecycleObserved) (order : StateOrder) (t : ℤ)
      (o : Option TokenKey)
      → IsFramed e (life_at wall e life order t o)
  unfolding life_at
  life_at-IsFramed e life order t none = IsFramed-refl e
  life_at-IsFramed e life order t (some key) =
      IsFramed-trans
        (if-IsFramed (is_empty_text life.token_address) e _ _ (IsFramed-refl e) (
          known_or-IsFramed (flush_unresolved_trades wall) flush_unresolved_trades-IsFramed e key _
            order t))
        (life_on-IsFramed _ key life order t _)

  apply_lifecycle-IsFramed :
      (e : StateEngine) (life : LifecycleObserved) (order : StateOrder) (t : ℤ)
      → IsFramed e (apply_lifecycle wall e life order t)
  unfolding apply_lifecycle
  apply_lifecycle-IsFramed e life order t = life_at-IsFramed e life order t (resolve_life e life)

  pub apply_event-IsFramed :
      (e : StateEngine) (event : CanonicalEvent) (order : StateOrder) (t : ℤ)
      → IsFramed e (apply_event wall e event order t)
  apply_event-IsFramed e (discovery tok) order t =
      apply_discovered-IsFramed (flush_unresolved_trades wall) flush_unresolved_trades-IsFramed e
        tok order t
  apply_event-IsFramed e (trade tr) order t =
      apply_trade-IsFramed (flush_unresolved_trades wall) flush_unresolved_trades-IsFramed e tr
        order t
  apply_event-IsFramed e (lifecycle life) order t = apply_lifecycle-IsFramed e life order t
