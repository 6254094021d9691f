-- ===== src/Domain.antt =====
-- The shared vocabulary of apps/engine/src/domain: chains, launchpads and the quality of a source.
pub mod Events
pub mod Address
use memecoin_bot.Base.{ℕ, Bool, true, false, ◌==◌}

pub data Chain : Type 0 where
  solana base robinhood : Chain

abbrev pub chain_index : Chain → ℕ
chain_index solana = 0
chain_index base = 1
chain_index robinhood = 2

-- The derived `PartialEq`.
abbrev pub eq_chain : Chain → Chain → Bool
eq_chain a b = chain_index a == chain_index b

pub data Launchpad : Type 0 where
  pump_fun pump_swap pons_v2 clanker_v4 unknown : Launchpad

pub data Finality : Type 0 where
  processed confirmed finalized unknown : Finality

pub data QualityStatus : Type 0 where
  historical_replay historical_partial rpc_dev_incomplete : QualityStatus
  live_complete development_incomplete partial_market_state : QualityStatus

unfoldable pub is_research_complete : QualityStatus → Bool
is_research_complete historical_replay = true
is_research_complete live_complete = true
is_research_complete _ = false
