-- ===== src/Lib.antt =====
-- The memecoin bot's research engine (apps/engine): a state engine that turns chain events into
-- snapshots of tokens, a candidate machine that decides which tokens may be evaluated, and a simulator
-- that prices, executes and books entries and exits on past snapshots.
--
-- How the parts interact. The state engine applies discoveries, trades and lifecycle events in order to
-- the state of their tokens, and emits a snapshot whenever its schedule has one due. Evidence on a token
-- is gathered into an assessment with a verdict, and its trades into rolling windows. Snapshots of a token (state/snapshot.rs) carry its market state. The candidate
-- machine moves a token through its states on each new verdict and activity. An entry policy asks for an
-- eligible candidate with a tradable verdict; the execution engine then picks the snapshot that may be
-- seen after the delay, prices the order on it, and returns a result; a position is opened from it, is
-- marked on later snapshots, and is sold by what its exit policy asks for. An entry strategy decides on the
-- features of a candidate beside its verdict and state. The outcomes, which may look ahead, label a token by
-- its later prices and explain what a run missed.
--
-- Files, and the code that they model:
--   Base        shared: Boolean tests, integers over the native numbers, saturating `U256` arithmetic,
--               lists, and the iterator chain `filter` and `max_by_key`
--   Domain      domain/chain.rs, launchpad.rs, quality.rs; Events the records of token_discovered.rs,
--               trade.rs, lifecycle.rs and canonical.rs, Address `normalize_address` of raw_event.rs
--   State       state/lifecycle.rs, market.rs, snapshot.rs; Rolling is rolling.rs and its child
--               Report the snapshots, with what they use of amt.rs; Counts, Traders, Tally, Expiry,
--               History and AsOf prove
--   State.Clock, State.Order     state/clock.rs and order.rs
--   State.Schedule  state/schedule.rs; Grid and Due prove
--   State.Engine    state/engine.rs: the state and its tables; Market, Trade and Life what an event does
--               to a token, Wallet and Emit the snapshots, Apply the application of an event, Feed the
--               order of events; Frame, Ordering, History, Flush, Lift, Counted and Emission prove
--   Security    security/evidence.rs and assessment.rs; Outcome and Bands prove
--   Candidate   candidate/: Machine is the code, Hops one step, Settle the loop, Lookup the query
--   Sim.Types, Sim.Models     sim/types.rs and models.rs
--   Sim.Curve   `curve_swap` and `cp_swap` of sim/impact.rs; Fees, Buy and Sell prove
--   Sim.Venue   the rest of impact.rs; Guards proves, Search is `max_quote_at_impact`
--   Sim.Result, Sim.Exec      sim/exec.rs, its engine in the child Engine; Book and Attempts prove
--   Sim.Position              sim/position.rs: Book and Marks are the code, Returns and Signed its
--               arithmetic, Ledger and Exits prove
--   Sim.Policy  sim/policy.rs, the entry policies in Gate, and the position manager; Entry and
--               Amounts prove
--   Sim.Harness sim/harness.rs: the walk that composes all of these; Positions and Run prove
--   Sim.Outcome sim/outcome.rs: the labels of a token, with the children Missed and Performance; Path, its
--               child Labels, Missed.Sources and Missed.Reasons, and
--               Performance.Consistent prove
--   Strategy    strategy/mod.rs, with what it reads of features/vector.rs and opt.rs, and Prospective
--               strategy/prospective.rs; Signal and Hybrid prove
--   Lab.Split   lab/split.rs
--   Samples and Tests hold the concrete runs of each part
--
-- Conventions. An amount is the number that its decimal string stands for; where the source saturates at
-- the greatest `U256` the model does too. An instant is an integer of unix milliseconds, a duration one of
-- milliseconds; their overflow, which panics or wraps only past the range of 64 bits, is not modelled. A
-- method that changes an object returns the changed record. A text that the code formats is a value of
-- `Reason`. SHA-256 is a parameter, `Digest`: the first eight bytes of the digest of the seed, the token,
-- the time and the attempt, as one number.
--
-- The state engine's tables are lists of their entries. Where a `HashMap` is walked the model takes the
-- order of the list. What the wall clock reads is an argument of each operation, read once. The metadata
-- of an event is a record of the values that the engine reads of it.
--
-- Bounds. The walk of a band has one round for each millisecond of the band and two more, and the nested
-- flush of unresolved trades is as deep as there are trades waiting; both are proved to be enough. The
-- candidate loop has the source's 8 rounds, the search its 64, and the execution its
-- `max_attempts`, as structural recursion on the rounds left; the theorems on the first two show that the
-- rounds are enough.
--
-- Not modelled: labels and version strings, storage, network and asynchronous loops, byte decoders,
-- metrics, floating-point features and statistics, and the digest of a snapshot.
pub mod Base
pub mod Domain
pub mod State
pub mod Strategy
pub mod Security
pub mod Candidate
pub mod Sim
pub mod Lab
