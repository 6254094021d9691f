-- ===== src/Sim/Models.antt =====
-- The delay, fee, slippage, failure and retry models of apps/engine/src/sim/models.rs. Amounts are the
-- numbers that the decimal strings stand for; version and provenance labels are left out.
use memecoin_bot.Base.{
  ℕ, ◌+◌, ◌-◌, ◌/◌, ◌%◌, ◌^◌, min, String, Bool, true, false, ◌||◌, ltb, ◌==◌, if◌then◌else◌,
  sat_mul, u32_max,
}
use memecoin_bot.Base.Int.{ℤ, pos, ltb_ℤ}
use memecoin_bot.Domain.{
  Chain, Launchpad, solana, robinhood, pump_fun, pump_swap, pons_v2, clanker_v4,
}
use memecoin_bot.State.Lifecycle.{TokenLifecycleState, amm_active}
use memecoin_bot.Sim.Types.{LatencyScenario, fast, slow}

pub record DelayModel : Type 0 where
  pub scenario : LatencyScenario
  pub solana_fast_ms : ℤ
  pub solana_base_ms : ℤ
  pub solana_slow_ms : ℤ
  pub base_fast_ms : ℤ
  pub base_base_ms : ℤ
  pub base_slow_ms : ℤ
  pub rh_fast_ms : ℤ
  pub rh_base_ms : ℤ
  pub rh_slow_ms : ℤ

abbrev pub default_delay : LatencyScenario → DelayModel
default_delay scenario = record {
  scenario = scenario;
  solana_fast_ms = pos 500;
  solana_base_ms = pos 2_000;
  solana_slow_ms = pos 5_000;
  base_fast_ms = pos 2_000;
  base_base_ms = pos 4_000;
  base_slow_ms = pos 8_000;
  rh_fast_ms = pos 500;
  rh_base_ms = pos 1_000;
  rh_slow_ms = pos 2_000;
}

abbrev pub delay_in : LatencyScenario → Chain → DelayModel → ℤ
delay_in fast solana d = d.solana_fast_ms
delay_in LatencyScenario.base solana d = d.solana_base_ms
delay_in slow solana d = d.solana_slow_ms
delay_in fast Chain.base d = d.base_fast_ms
delay_in LatencyScenario.base Chain.base d = d.base_base_ms
delay_in slow Chain.base d = d.base_slow_ms
delay_in fast robinhood d = d.rh_fast_ms
delay_in LatencyScenario.base robinhood d = d.rh_base_ms
delay_in slow robinhood d = d.rh_slow_ms

unfoldable pub delay_ms : DelayModel → Chain → ℤ
delay_ms d chain = delay_in d.scenario chain d

pub record FeeModel : Type 0 where
  pub pump_curve_protocol_bps : ℕ
  pub pump_curve_creator_bps : ℕ
  pub pumpswap_lp_bps : ℕ
  pub pons_curve_bps : ℕ
  pub pons_snipe_tax_bps : ℕ
  pub pons_snipe_window_ms : ℤ
  pub clanker_unknown : Bool
  pub network_fee_quote : ℕ
  pub priority_fee_quote : ℕ
  pub tip_quote : ℕ

abbrev pub default_fees : FeeModel
default_fees = record {
  pump_curve_protocol_bps = 100;
  pump_curve_creator_bps = 0;
  pumpswap_lp_bps = 25;
  pons_curve_bps = 100;
  pons_snipe_tax_bps = 9900;
  pons_snipe_window_ms = pos 1_000;
  clanker_unknown = true;
  network_fee_quote = 0;
  priority_fee_quote = 0;
  tip_quote = 0;
}

abbrev pub pons_bps : FeeModel → TokenLifecycleState → ℕ
pons_bps f amm_active = f.pumpswap_lp_bps
pons_bps f _ = f.pons_curve_bps

-- The sum of two `u32` wraps.
unfoldable pub protocol_bps : FeeModel → Launchpad → TokenLifecycleState → ℕ
protocol_bps f pump_fun life = (f.pump_curve_protocol_bps + f.pump_curve_creator_bps) % 2 ^ 32
protocol_bps f pump_swap life = f.pumpswap_lp_bps
protocol_bps f pons_v2 life = pons_bps f life
protocol_bps f clanker_v4 life = 0
protocol_bps f Launchpad.unknown life = 0

unfoldable pub snipe_tax_bps : FeeModel → Launchpad → ℤ → Bool → ℕ
snipe_tax_bps f pons_v2 age_ms force_snipe =
    if force_snipe || ltb_ℤ age_ms f.pons_snipe_window_ms then f.pons_snipe_tax_bps else 0
snipe_tax_bps f _ age_ms force_snipe = 0

pub record SlippageModel : Type 0 where
  pub adverse_bps : ℕ

abbrev pub no_slippage : SlippageModel
no_slippage = record { adverse_bps = 0 }

unfoldable pub apply_adverse_bps : ℕ → ℕ → ℕ
apply_adverse_bps amount bps = if bps == 0 then amount else sat_mul amount (10_000 - bps) / 10_000

pub record FailureModel : Type 0 where
  pub entry_failure_bps : ℕ
  pub exit_failure_bps : ℕ
  pub seed : ℕ

-- `digest seed token time attempt` stands for the first eight bytes of the SHA-256 of the four.
abbrev pub Digest : Type 0
Digest = ℕ → String → ℤ → ℕ → ℕ

unfoldable pub deterministic_hit : Digest → ℕ → String → ℤ → ℕ → ℕ → Bool
deterministic_hit digest seed token time attempt rate_bps =
    ltb (digest seed token time attempt % 10_000) rate_bps

unfoldable pub fails : Digest → FailureModel → Bool → String → ℤ → ℕ → Bool
fails digest m is_entry token time attempt =
    let rate = if is_entry then m.entry_failure_bps else m.exit_failure_bps in
    if rate == 0 then false else deterministic_hit digest m.seed token time attempt rate

pub record RetryModel : Type 0 where
  pub max_entry_retries : ℕ
  pub max_exit_retries : ℕ
  pub max_emergency_retries : ℕ
  pub retry_delay_ms : ℤ

abbrev pub default_retry : RetryModel
default_retry = record {
  max_entry_retries = 1;
  max_exit_retries = 2;
  max_emergency_retries = 3;
  retry_delay_ms = pos 400;
}

unfoldable pub max_attempts : RetryModel → Bool → Bool → ℕ
max_attempts r is_entry is_emergency =
    let extra =
      if is_entry
      then r.max_entry_retries
      else if is_emergency
      then r.max_emergency_retries
      else r.max_exit_retries in
    min (extra + 1) u32_max

pub record SimConfig : Type 0 where
  pub delay : DelayModel
  pub fees : FeeModel
  pub slippage : SlippageModel
  pub failure : FailureModel
  pub retry : RetryModel
  pub quote_notional : ℕ
  pub max_slippage_bps : ℕ
  pub allow_snipe_window : Bool

abbrev pub default_config : SimConfig
default_config = record {
  delay = default_delay LatencyScenario.base;
  fees = default_fees;
  slippage = no_slippage;
  failure = record { entry_failure_bps = 0; exit_failure_bps = 0; seed = 1 };
  retry = default_retry;
  quote_notional = 1_000_000_000;
  max_slippage_bps = 10_000;
  allow_snipe_window = false;
}
