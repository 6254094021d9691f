-- ===== src/State/Engine/Emit.antt =====
-- How the engine emits snapshots and evicts tokens: `push_snapshot`, `emit_due_snapshots`,
-- `emit_lifecycle_snapshot` and `maybe_evict` of apps/engine/src/state/engine.rs.
use memecoin_bot.Base.{
  ◌+◌, String, Bool, true, false, not, ◌&&◌, Option, none, some, List, [], ◌∷◌, ◌++◌, map,
  if◌then◌else◌,
}
use memecoin_bot.Base.Int.{ℤ, pos, ◌-ℤ◌, leb_ℤ, eq_ℤ, max_ℤ}
use memecoin_bot.Domain.{confirmed}
use memecoin_bot.State.Market.{type_name}
use memecoin_bot.State.Rolling.{drop_ticks}
use memecoin_bot.State.Rolling.Report.{RollingWindowSnapshot, empty_window, snapshots_as_of}
use memecoin_bot.State.Clock.{clock_now}
use memecoin_bot.State.Schedule.{
  SnapshotSchedule, contains_time, due_times, hot, warm, cold, MemoryTier,
}
use memecoin_bot.State.Snapshot.{TokenStateSnapshot, SnapshotKind, periodic, milestone, lifecycle}
use memecoin_bot.State.Engine.{
  TokenKey, TokenState, StateEngine, find_token, put_token, remove_token,
}
use memecoin_bot.State.Engine.Wallet.{counts_as_of, wallet_snapshot}

abbrev pick : ℤ → List RollingWindowSnapshot → RollingWindowSnapshot
pick ms [] = empty_window ms
pick ms (r ∷ rs) = if eq_ℤ r.duration_ms ms then r else pick ms rs

abbrev pub is_lifecycle : SnapshotKind → Bool
is_lifecycle lifecycle = true
is_lifecycle periodic = false
is_lifecycle milestone = false

abbrev pub insert_time_set : ℤ → List ℤ → List ℤ
insert_time_set t times = if contains_time t times then times else t ∷ times

abbrev pub is_milestone : SnapshotSchedule → ℤ → Bool
is_milestone s age = contains_time age (map pos s.milestones_ms)

-- The snapshot of a token at an instant.
unfoldable pub snapshot_of :
    StateEngine → TokenKey → TokenState → ℤ → SnapshotKind → Option String → TokenStateSnapshot
snapshot_of e key st at kind trigger =
    let rolls = snapshots_as_of st.rolling at in
    let (buy_n, sell_n, ub, us) = counts_as_of st at in
    record {
      id = none;
      chain = key.chain;
      token_address = key.token;
      launchpad = st.launchpad;
      snapshot_time = at;
      age_ms = at -ℤ st.discovered_at;
      snapshot_kind = kind;
      lifecycle_trigger = trigger;
      lifecycle_state = st.lifecycle_state;
      quote_asset = st.quote_asset;
      buy_count_total = buy_n;
      sell_count_total = sell_n;
      unique_buyers_total = ub;
      unique_sellers_total = us;
      buy_quote_volume_raw_total = st.buy_quote_volume_raw_total;
      sell_quote_volume_raw_total = st.sell_quote_volume_raw_total;
      buy_token_volume_raw_total = st.buy_token_volume_raw_total;
      sell_token_volume_raw_total = st.sell_token_volume_raw_total;
      creator_buy_count = st.creator_buy_count;
      creator_sell_count = st.creator_sell_count;
      creator_buy_quote_raw = st.creator_buy_quote_raw;
      creator_sell_quote_raw = st.creator_sell_quote_raw;
      last_trade_side = st.last_trade_side;
      last_trade_token_raw = st.last_trade_token_raw;
      last_trade_quote_raw = st.last_trade_quote_raw;
      last_trade_token_decimals = some st.token_decimals;
      last_trade_quote_decimals = some st.quote_decimals;
      curve_progress_bps = st.curve_progress_bps;
      graduation_progress_bps = st.graduation_progress_bps;
      market_state_type = type_name st.market_state;
      market_state = st.market_state;
      rolling_5s = pick (pos 5_000) rolls;
      rolling_15s = pick (pos 15_000) rolls;
      rolling_30s = pick (pos 30_000) rolls;
      rolling_60s = pick (pos 60_000) rolls;
      rolling_120s = pick (pos 120_000) rolls;
      rolling_300s = pick (pos 300_000) rolls;
      rolling_900s = pick (pos 900_000) rolls;
      as_of_event_id = st.last_event_id;
      as_of_block = st.last_block;
      as_of_slot = st.last_slot;
      as_of_event_order = st.last_event_order;
      data_quality = st.data_quality;
      source_session_id = e.source_session_id;
      canonical_status = st.canonical_status;
      finality = confirmed;
      version = st.snapshot_version;
      superseded = false;
      wallet = wallet_snapshot st at;
    }

-- The marks that a snapshot leaves on its token: none where it is of the lifecycle.
unfoldable pub mark_emitted : SnapshotSchedule → SnapshotKind → ℤ → TokenState → TokenState
mark_emitted s kind at st =
    let age = at -ℤ st.discovered_at in
    if is_lifecycle kind then st else record st {
      last_emitted_snapshot_ms = max_ℤ at st.last_emitted_snapshot_ms;
      emitted_milestones =
          if is_milestone s age
          then insert_time_set age st.emitted_milestones
          else st.emitted_milestones;
    }

-- A token that has emitted one at or after the instant emits no more, but for its lifecycle.
abbrev pub is_overdue : SnapshotKind → ℤ → TokenState → Bool
is_overdue kind at st = not (is_lifecycle kind) && leb_ℤ at st.last_emitted_snapshot_ms

abbrev pub push_snapshot_on :
    StateEngine → TokenKey → ℤ → SnapshotKind → Option String → Option TokenState → StateEngine
push_snapshot_on e key at kind trigger none = e
push_snapshot_on e key at kind trigger (some st) =
    if is_overdue kind at st
    then e
    else let snap = snapshot_of e key st at kind trigger in
      record e {
        tokens = put_token (mark_emitted e.schedule kind at st) e.tokens;
        history = e.history ++ snap ∷ [];
        snapshot_buffer = e.snapshot_buffer ++ snap ∷ [];
      }

unfoldable pub push_snapshot :
    StateEngine → TokenKey → ℤ → SnapshotKind → Option String → StateEngine
push_snapshot e key at kind trigger =
    push_snapshot_on e key at kind trigger (find_token key e.tokens)

-- The kind of the snapshot that is due at an age.
unfoldable pub due_kind : SnapshotSchedule → List ℤ → ℤ → SnapshotKind
due_kind s already age =
    if is_milestone s age && not (contains_time age already) then milestone else periodic

abbrev pub push_due : TokenKey → ℤ → List ℤ → StateEngine → List ℤ → StateEngine
push_due key discovered already e [] = e
push_due key discovered already e (t ∷ ts) =
    push_due key discovered already
      (push_snapshot e key t (due_kind e.schedule already (t -ℤ discovered)) none) ts

-- The due times, or none where the walk of the schedule does not end.
abbrev pub times_or_none : Option (List ℤ) → List ℤ
times_or_none none = []
times_or_none (some times) = times

abbrev pub emit_due_on : StateEngine → TokenKey → ℤ → Option TokenState → StateEngine
emit_due_on e key until none = e
emit_due_on e key until (some st) =
    push_due key st.discovered_at st.emitted_milestones e
      (times_or_none (due_times e.schedule st.discovered_at st.last_emitted_snapshot_ms until))

unfoldable pub emit_due_snapshots : StateEngine → TokenKey → ℤ → StateEngine
emit_due_snapshots e key until = emit_due_on e key until (find_token key e.tokens)

-- `wall` is what the clock of the operating system reads.
unfoldable pub emit_lifecycle_snapshot : ℤ → StateEngine → TokenKey → String → StateEngine
emit_lifecycle_snapshot wall e key trigger =
    push_snapshot e key (clock_now wall e.clock) lifecycle (some trigger)

abbrev pub is_hot : MemoryTier → Bool
is_hot hot = true
is_hot warm = false
is_hot cold = false

abbrev pub evict_on : StateEngine → TokenKey → ℤ → Option TokenState → StateEngine
evict_on e key now none = e
evict_on e key now (some st) =
    let age = now -ℤ st.discovered_at in
    if leb_ℤ e.memory.cold_ms age
    then record e { tokens = remove_token key e.tokens; evictions = e.evictions + 1 }
    else if leb_ℤ e.memory.hot_ms age && is_hot st.memory_tier
    then record e {
      tokens =
          put_token (record st { rolling = drop_ticks st.rolling; memory_tier = warm }) e.tokens;
    }
    else e

unfoldable pub maybe_evict : StateEngine → TokenKey → ℤ → StateEngine
maybe_evict e key now = evict_on e key now (find_token key e.tokens)
