-- ===== src/State/Engine/Lift.antt =====
-- An invariant of the state of a token is one of every token of the engine: the operations of
-- apps/engine/src/state/engine.rs reach a token only through a few updates.
pub mod Applied
pub mod Steps
use memecoin_bot.Base.{
  ℕ, zero, suc, ◌+◌, ◌≡◌, refl, String, Bool, true, false, ◌&&◌, Option, none, some, List, [], ◌∷◌,
  ◌++◌, if◌then◌else◌, length, All, Bool-cases, inl, inr,
}
use memecoin_bot.Base.Int.{ℤ, ◌-ℤ◌, leb_ℤ}
use memecoin_bot.Domain.{Chain}
use memecoin_bot.Domain.Events.{
  CanonicalEvent, TokenDiscovered, TradeObserved, LifecycleObserved, discovery, trade, lifecycle,
}
use memecoin_bot.State.Rolling.{drop_ticks}
use memecoin_bot.State.Clock.{clock_now, advance_to}
use memecoin_bot.State.Order.{StateOrder, from_canonical}
use memecoin_bot.State.Schedule.{SnapshotSchedule, due_times, warm}
use memecoin_bot.State.Snapshot.{SnapshotKind, TokenStateSnapshot}
use memecoin_bot.State.Engine.{
  TokenKey, TokenState, StateEngine, find_token, put_token, remove_token, new_key, is_empty_text,
  eq_key,
}
use memecoin_bot.State.Engine.Market.{is_some}
use memecoin_bot.State.Engine.Emit.{
  mark_emitted, push_snapshot_on, push_snapshot, is_overdue, due_kind, push_due, emit_due_on,
  emit_due_snapshots, times_or_none, emit_lifecycle_snapshot, maybe_evict, evict_on, is_hot,
}
use memecoin_bot.State.Engine.Trade.{record_trade, is_first_amm, count_trade}
use memecoin_bot.State.Engine.Life.{record_life}
use memecoin_bot.State.Engine.Apply.{
  new_token, note_discovery, known_state, write_back, apply_discovered, trade_on, known_or,
  trade_at, apply_trade, flush_one, flush_each, flush_nested, flush_unresolved_trades, life_on,
  life_at, apply_lifecycle, resolve_trade, resolve_life, is_snipe_tax,
}

pub record TokenInvariant (P : TokenState → Type 0) : Type 0 where
  pub fresh :
      (e : StateEngine) (key : TokenKey) (tok : TokenDiscovered) (order : StateOrder) (t : ℤ)
      → P (new_token e key tok order t)
  pub discovered :
      (st : TokenState) (tok : TokenDiscovered) (order : StateOrder) (t : ℤ)
      → P st
      → P (note_discovery st tok order t)
  pub traded :
      (st : TokenState) (deal : TradeObserved) (order : StateOrder) (t : ℤ)
      → P st
      → P (record_trade st deal order t)
  pub lived :
      (st : TokenState) (life : LifecycleObserved) (order : StateOrder) (t : ℤ)
      → P st
      → P (record_life st life order t)
  pub emitted :
      (s : SnapshotSchedule) (kind : SnapshotKind) (at : ℤ) (st : TokenState)
      → P st
      → P (mark_emitted s kind at st)
  pub cooled :
      (st : TokenState)
      → P st
      → P (record st { rolling = drop_ticks st.rolling; memory_tier = warm })
  pub versioned :
      (st : TokenState) (version : ℕ) → P st → P (record st { snapshot_version = version })
  pub marked :
      (st : TokenState) (times : List ℤ) (last : ℤ)
      → P st
      → P (record st { emitted_milestones = times; last_emitted_snapshot_ms = last })

module _ (P : TokenState → Type 0) (inv : TokenInvariant P) where
  abbrev pub Holds : StateEngine → Type 0
  Holds e = All P e.tokens

  abbrev pub HoldsOn : Option TokenState → Type 0
  HoldsOn none = Unit
  HoldsOn (some st) = P st

  pub find_token-Holds :
      (key : TokenKey) (tokens : List TokenState) → All P tokens → HoldsOn (find_token key tokens)
  find_token-Holds key [] h = tt
  find_token-Holds key (st ∷ rest) h = elim (Bool-cases (eq_key st.key key)) [
    | inl e ↦ rw e h.0
    | inr e ↦ rw e (find_token-Holds key rest h.1)
  ]

  pub put_token-Holds :
      (st : TokenState) (tokens : List TokenState)
      → P st
      → All P tokens
      → All P (put_token st tokens)
  put_token-Holds st [] p h = (p, tt)
  put_token-Holds st (x ∷ rest) p h = elim (Bool-cases (eq_key x.key st.key)) [
    | inl e ↦ rw e (p, h.1)
    | inr e ↦ rw e (h.0, put_token-Holds st rest p h.1)
  ]

  pub remove_token-Holds :
      (key : TokenKey) (tokens : List TokenState) → All P tokens → All P (remove_token key tokens)
  remove_token-Holds key [] h = tt
  remove_token-Holds key (x ∷ rest) h = elim (Bool-cases (eq_key x.key key)) [
    | inl e ↦ rw e h.1
    | inr e ↦ rw e (h.0, remove_token-Holds key rest h.1)
  ]

  pub if-Holds : (b : Bool) (x y : StateEngine) → Holds x → Holds y → Holds (if b then x else y)
  if-Holds true x y h k = h
  if-Holds false x y h k = k

  push_snapshot_on-Holds :
      (e : StateEngine) (key : TokenKey) (at : ℤ) (kind : SnapshotKind) (trigger : Option String)
      (o : Option TokenState)
      → HoldsOn o
      → Holds e
      → Holds (push_snapshot_on e key at kind trigger o)
  push_snapshot_on-Holds e key at kind trigger none p h = h
  push_snapshot_on-Holds e key at kind trigger (some st) p h =
      if-Holds (is_overdue kind at st) e _ h (
        put_token-Holds (mark_emitted e.schedule kind at st) e.tokens
          (inv.emitted e.schedule kind at st p) h)

  pub push_snapshot-Holds :
      (e : StateEngine) (key : TokenKey) (at : ℤ) (kind : SnapshotKind) (trigger : Option String)
      → Holds e
      → Holds (push_snapshot e key at kind trigger)
  unfolding push_snapshot
  push_snapshot-Holds e key at kind trigger h =
      push_snapshot_on-Holds e key at kind trigger (find_token key e.tokens)
        (find_token-Holds key e.tokens h) h

  push_due-Holds :
      (key : TokenKey) (discovered : ℤ) (already : List ℤ) (ts : List ℤ) (e : StateEngine)
      → Holds e
      → Holds (push_due key discovered already e ts)
  push_due-Holds key discovered already [] e h = h
  push_due-Holds key discovered already (t ∷ ts) e h =
      push_due-Holds key discovered already ts
        (push_snapshot e key t (due_kind e.schedule already (t -ℤ discovered)) none)
        (push_snapshot-Holds e key t (due_kind e.schedule already (t -ℤ discovered)) none h)

  emit_due_on-Holds :
      (e : StateEngine) (key : TokenKey) (until : ℤ) (o : Option TokenState)
      → Holds e
      → Holds (emit_due_on e key until o)
  emit_due_on-Holds e key until none h = h
  emit_due_on-Holds e key until (some st) h =
      push_due-Holds key st.discovered_at st.emitted_milestones
        (times_or_none (due_times e.schedule st.discovered_at st.last_emitted_snapshot_ms until)) e
        h

  pub emit_due_snapshots-Holds :
      (e : StateEngine) (key : TokenKey) (until : ℤ)
      → Holds e
      → Holds (emit_due_snapshots e key until)
  unfolding emit_due_snapshots
  emit_due_snapshots-Holds e key until h = emit_due_on-Holds e key until (find_token key e.tokens) h

  evict_on-Holds :
      (e : StateEngine) (key : TokenKey) (now : ℤ) (o : Option TokenState)
      → HoldsOn o
      → Holds e
      → Holds (evict_on e key now o)
  evict_on-Holds e key now none p h = h
  evict_on-Holds e key now (some st) p h =
      let age = now -ℤ st.discovered_at in
      elim (Bool-cases (leb_ℤ e.memory.cold_ms age)) [
        | inl c ↦ rw c (remove_token-Holds key e.tokens h)
        | inr c ↦ elim (Bool-cases (leb_ℤ e.memory.hot_ms age && is_hot st.memory_tier)) [
          | inl d ↦ rw (c, d) (put_token-Holds _ e.tokens (inv.cooled st p) h)
          | inr d ↦ rw (c, d) h
        ]
      ]

  pub maybe_evict-Holds :
      (e : StateEngine) (key : TokenKey) (now : ℤ) → Holds e → Holds (maybe_evict e key now)
  unfolding maybe_evict
  maybe_evict-Holds e key now h =
      evict_on-Holds e key now (find_token key e.tokens) (find_token-Holds key e.tokens h) h

  pub write_back-Holds :
      (e : StateEngine) (st : TokenState) (key : TokenKey)
      → P st
      → Holds e
      → Holds (write_back e st key)
  unfolding write_back
  write_back-Holds e st key p h = put_token-Holds st e.tokens p h

  pub known_state-Holds :
      (fresh : TokenState) (o : Option TokenState) → P fresh → HoldsOn o → P (known_state fresh o)
  known_state-Holds fresh none p q = p
  known_state-Holds fresh (some st) p q = q
