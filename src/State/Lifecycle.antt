-- ===== src/State/Lifecycle.antt =====
-- `TokenLifecycleState` of apps/engine/src/state/lifecycle.rs.
use memecoin_bot.Domain.{Launchpad}

pub data TokenLifecycleState : Type 0 where
  discovered curve_active migration_pending migrating launch_swept : TokenLifecycleState
  graduation_gap amm_active inactive rejected_security : TokenLifecycleState

unfoldable pub initial : Launchpad → TokenLifecycleState
initial Launchpad.clanker_v4 = amm_active
initial Launchpad.pump_fun = discovered
initial Launchpad.pons_v2 = discovered
initial Launchpad.pump_swap = amm_active
initial Launchpad.unknown = discovered
