-- ===== src/Sim/Harness.antt =====
-- `run_historical` of apps/engine/src/sim/harness.rs: the walk over the snapshots. The record of the run
-- itself, its labels but the policy's, and the metrics are left out, and the ids of a run that has none.
pub mod Positions
pub mod Run
use memecoin_bot.Base.{
  ℕ, zero, suc, ◌+◌, String, Bool, true, false, not, ◌&&◌, ◌||◌, Option, none, some, List, [], ◌∷◌,
  ◌++◌, map, if◌then◌else◌, eq_string, filter_by, max_by_key, get_elem?,
}
use memecoin_bot.Base.Int.{ℤ, pos, ◌+ℤ◌, leb_ℤ}
use memecoin_bot.Domain.{Chain, eq_chain}
use memecoin_bot.Security.Verdict.{SecurityVerdict}
use memecoin_bot.Candidate.Machine.{CandidateState, discovered}
use memecoin_bot.State.Snapshot.{TokenStateSnapshot}
use memecoin_bot.Sim.Types.{ExecutionStatus, OrderSide, buy, sell, is_fill, is_open, is_emergency}
use memecoin_bot.Sim.Models.{SimConfig, Digest}
use memecoin_bot.Sim.Venue.{mark_exit_quote}
use memecoin_bot.Sim.Result.{ExecutionResult}
use memecoin_bot.Sim.Exec.{SnapshotBook, SideOrder, simulate_side}
use memecoin_bot.Sim.Position.Book.{SimulatedPosition, open_from, apply_exit}
use memecoin_bot.Sim.Position.Marks.{mark, force_end}
use memecoin_bot.Sim.Policy.{ExitPolicy, Exit, FlowSignal, evaluate}
use memecoin_bot.Sim.Policy.Gate.{EntryPolicyId, EntryQuery, EntryDecision, enter, may_enter}

-- A row of a timeline.
pub record Row (V : Type 0) : Type 0 where
  pub at : ℤ
  pub chain : Chain
  pub token : String
  pub value : V

abbrev pub value_of : {V : Type 0} → Option (Row V) → Option V
value_of none = none
value_of (some r) = some r.value

-- `latest_sec` and `latest_cand`.
unfoldable pub latest : {V : Type 0} → List (Row V) → Chain → String → ℤ → Option V
latest rows chain token t = value_of (
    max_by_key (λ r. r.at)
      (filter_by (λ r. eq_chain r.chain chain && eq_string r.token token && leb_ℤ r.at t) rows))

pub record SimulatedOrder : Type 0 where
  pub id : ℤ
  pub policy_id : String
  pub chain : Chain
  pub token : String
  pub side : OrderSide
  pub decision_time : ℤ
  pub requested_amount : ℕ
  pub status : ExecutionStatus
  pub result : ExecutionResult

-- The arguments that do not change; a map of times is a function.
pub record Scenario : Type 0 where
  pub snaps : List TokenStateSnapshot
  pub eligible_at : Chain → String → Option ℤ
  pub security_timeline : List (Row SecurityVerdict)
  pub candidate_timeline : List (Row CandidateState)
  pub entry : EntryPolicyId
  pub exit : ExitPolicy
  pub label : String
  pub cfg : SimConfig
  pub seed : ℕ

-- The variables of the walk. `entered` has the keys that its map holds.
pub record Walk : Type 0 where
  pub next_pos : ℤ
  pub next_ord : ℤ
  pub orders : List SimulatedOrder
  pub positions : List SimulatedPosition
  pub attempts : List ExecutionResult
  pub entered : List (Chain × String)

abbrev pub start : Walk
start = record {
  next_pos = pos 1;
  next_ord = pos 1;
  orders = [];
  positions = [];
  attempts = [];
  entered = [];
}

abbrev pub is_key : Chain → String → Chain × String → Bool
is_key chain token k = eq_chain k.0 chain && eq_string k.1 token

abbrev pub has_key : Chain → String → List (Chain × String) → Bool
has_key chain token [] = false
has_key chain token (k ∷ ks) = is_key chain token k || has_key chain token ks

abbrev pub state_or : Option CandidateState → CandidateState
state_or none = discovered
state_or (some s) = s

abbrev pub entry_query : Scenario → TokenStateSnapshot → Option SecurityVerdict → EntryQuery
entry_query c s sec = record {
  policy = c.entry;
  candidate = state_or (latest c.candidate_timeline s.chain s.token_address s.snapshot_time);
  security = sec;
  first_eligible_at = c.eligible_at s.chain s.token_address;
  now = s.snapshot_time;
  token = s.token_address;
  seed = c.seed;
}

abbrev pub entry_order : Scenario → TokenStateSnapshot → SideOrder
entry_order c s = record {
  chain = s.chain;
  token = s.token_address;
  side = buy;
  decision = s.snapshot_time;
  amount = c.cfg.quote_notional;
  is_quote = true;
  is_entry = true;
  emergency = false;
}

abbrev pub open_on : Scenario → TokenStateSnapshot → ℤ → ExecutionResult → SimulatedPosition
open_on c s id fill =
    record (open_from id s.chain s.token_address s.launchpad c.label fill none none) {
      creator_sell_count_at_entry = s.creator_sell_count;
    }

-- The order is logged whether it fills or not.
abbrev pub log_order : Walk → String → Chain → String → OrderSide → ℤ → ℕ → ExecutionResult → Walk
log_order w label chain token side time amount fill = record w {
  next_ord = w.next_ord +ℤ pos 1;
  attempts = w.attempts ++ fill ∷ [];
  orders =
      w.orders
      ++ record {
        id = w.next_ord;
        policy_id = label;
        chain = chain;
        token = token;
        side = side;
        decision_time = time;
        requested_amount = amount;
        status = fill.status;
        result = fill;
      }
        ∷ [];
}

unfoldable pub book_entry : Scenario → TokenStateSnapshot → ExecutionResult → Walk → Walk
book_entry c s fill w =
    let logged =
      log_order w c.label s.chain s.token_address buy s.snapshot_time c.cfg.quote_notional fill in
    if is_fill fill.status
    then record logged {
      next_pos = w.next_pos +ℤ pos 1;
      entered = w.entered ++ (s.chain, s.token_address) ∷ [];
      positions = w.positions ++ open_on c s w.next_pos fill ∷ [];
    }
    else logged

abbrev pub is_enter : EntryDecision → Bool
is_enter enter = true
is_enter _ = false

unfoldable pub try_entry :
    Digest → Scenario → SnapshotBook → TokenStateSnapshot → Option SecurityVerdict → Walk → Walk
try_entry digest c book s sec w =
    if not (has_key s.chain s.token_address w.entered)
      && is_enter (may_enter digest (entry_query c s sec))
    then book_entry c s (simulate_side digest book c.cfg (entry_order c s)) w
    else w

abbrev pub flow_of : TokenStateSnapshot → FlowSignal
flow_of s = record {
  unique_buyer_accel_15s = none;
  unique_seller_accel_15s = none;
  net_flow_negative = s.rolling_15s.net_quote_flow.0;
  creator_sell_count = s.creator_sell_count;
}

-- An open position of the snapshot's token.
unfoldable pub concerns : TokenStateSnapshot → SimulatedPosition → Bool
concerns s p = is_key s.chain s.token_address (p.chain, p.token) && is_open p.status

unfoldable pub mark_on : Scenario → TokenStateSnapshot → SimulatedPosition → SimulatedPosition
mark_on c s p = if concerns s p then mark p s c.cfg.fees else p

unfoldable pub ask_exit :
    Scenario → TokenStateSnapshot → Option SecurityVerdict → SimulatedPosition → Option Exit
ask_exit c s sec p =
    if concerns s p
    then evaluate c.exit c.cfg.fees (mark p s c.cfg.fees) s sec (some (flow_of s))
    else none

-- The exits asked for, with the index of the position.
abbrev pub exits_from :
    Scenario
    → TokenStateSnapshot
    → Option SecurityVerdict
    → ℕ
    → List SimulatedPosition
    → List (ℕ × Exit)
exits_from c s sec i [] = []
exits_from c s sec i (p ∷ ps) = asked_at (ask_exit c s sec p) (exits_from c s sec (suc i) ps)
  where
    asked_at : Option Exit → List (ℕ × Exit) → List (ℕ × Exit)
    asked_at none rest = rest
    asked_at (some e) rest = (i, e) ∷ rest

abbrev pub set_at : ℕ → SimulatedPosition → List SimulatedPosition → List SimulatedPosition
set_at i q [] = []
set_at zero q (p ∷ ps) = q ∷ ps
set_at (suc i) q (p ∷ ps) = p ∷ set_at i q ps

abbrev pub exit_order_of : TokenStateSnapshot → SimulatedPosition → Exit → SideOrder
exit_order_of s p e = record {
  chain = p.chain;
  token = p.token;
  side = sell;
  decision = s.snapshot_time;
  amount = e.amount;
  is_quote = false;
  is_entry = false;
  emergency = is_emergency e.why;
}

abbrev pub exit_at :
    Digest
    → Scenario
    → SnapshotBook
    → TokenStateSnapshot
    → ℕ
    → Exit
    → Option SimulatedPosition
    → Walk
    → Walk
exit_at digest c book s i e none w = w
exit_at digest c book s i e (some p) w =
    let fill = simulate_side digest book c.cfg (exit_order_of s p e) in
    let logged =
      log_order w p.strategy_policy_id p.chain p.token sell s.snapshot_time e.amount fill in
    record logged { positions = set_at i (apply_exit p fill e.why e.full) w.positions }

abbrev pub run_exits :
    Digest → Scenario → SnapshotBook → TokenStateSnapshot → List (ℕ × Exit) → Walk → Walk
run_exits digest c book s [] w = w
run_exits digest c book s ((i, e) ∷ es) w =
    run_exits digest c book s es (exit_at digest c book s i e (get_elem? w.positions i) w)

-- One snapshot of the walk: the entry, the marks, then the exits.
unfoldable pub visit : Digest → Scenario → SnapshotBook → Walk → TokenStateSnapshot → Walk
visit digest c book w s =
    let sec = latest c.security_timeline s.chain s.token_address s.snapshot_time in
    let after_entry = try_entry digest c book s sec w in
    run_exits digest c book s (exits_from c s sec 0 after_entry.positions)
      (record after_entry { positions = map (mark_on c s) after_entry.positions })

abbrev pub visit_all : Digest → Scenario → SnapshotBook → Walk → List TokenStateSnapshot → Walk
visit_all digest c book w [] = w
visit_all digest c book w (s ∷ ss) = visit_all digest c book (visit digest c book w s) ss

-- `iter().rev().find(…)`.
abbrev pub last_of :
    SimulatedPosition
    → Option TokenStateSnapshot
    → List TokenStateSnapshot
    → Option TokenStateSnapshot
last_of p found [] = found
last_of p found (s ∷ ss) =
    last_of p (if is_key p.chain p.token (s.chain, s.token_address) then some s else found) ss

abbrev pub is_some : Option ℕ → Bool
is_some none = false
is_some (some _) = true

abbrev pub realizable_on : SimConfig → SimulatedPosition → Option TokenStateSnapshot → Bool
realizable_on cfg p none = false
realizable_on cfg p (some s) = is_some (mark_exit_quote s p.remaining_token_amount cfg.fees)

unfoldable pub end_on : Scenario → ℤ → SimulatedPosition → SimulatedPosition
end_on c end p =
    if is_open p.status then force_end p end (realizable_on c.cfg p (last_of p none c.snaps)) else p

abbrev pub last_time : ℤ → List TokenStateSnapshot → ℤ
last_time t [] = t
last_time t (s ∷ ss) = last_time s.snapshot_time ss

-- `wall_clock` is the end where there is no snapshot.
unfoldable pub run_historical : Digest → ℤ → Scenario → Walk
run_historical digest wall_clock c =
    let end = last_time wall_clock c.snaps in
    let w = visit_all digest c (record { snapshots = c.snaps; as_of = end }) start c.snaps in
    record w { positions = map (end_on c end) w.positions }
