-- ===== src/Sim/Outcome.antt =====
-- `OutcomeEngine` of apps/engine/src/sim/outcome.rs: the labels of a token after a reference time. An
-- amount that the program keeps as decimal text is a number, and the version of the model is left out.
pub mod Path
pub mod Missed
pub mod Performance
use memecoin_bot.Base.{
  ℕ, ◌*◌, ◌%◌, ◌^◌, String, Bool, true, false, not, ◌&&◌, ◌||◌, Option, none, some, List, [], ◌∷◌,
  ◌++◌, ltb, leb, ◌==◌, if◌then◌else◌, eq_string, filter_by, max_by_key, any_of, sat_mul,
}
use memecoin_bot.Base.Int.{ℤ, ◌+ℤ◌, ◌-ℤ◌, ltb_ℤ, leb_ℤ}
use memecoin_bot.Domain.{Chain, eq_chain, Launchpad, QualityStatus}
use memecoin_bot.State.Snapshot.{TokenStateSnapshot}
use memecoin_bot.Sim.Venue.{spot_price_1e18}
use memecoin_bot.Sim.Position.Returns.{return_bps}

pub record TokenOutcome : Type 0 where
  pub chain : Chain
  pub token : String
  pub launchpad : Launchpad
  pub reference_time : ℤ
  pub reference_snapshot_id : Option ℤ
  pub horizon_ms : ℤ
  pub reference_price_1e18 : ℕ
  pub final_price_1e18 : ℕ
  pub max_price_1e18 : ℕ
  pub min_price_1e18 : ℕ
  pub final_return_bps : Option ℤ
  pub max_return_bps : Option ℤ
  pub max_drawdown_bps : Option ℤ
  pub reached_2x : Bool
  pub reached_5x : Bool
  pub reached_10x : Bool
  pub reached_20x : Bool
  pub time_to_2x_ms : Option ℤ
  pub time_to_5x_ms : Option ℤ
  pub time_to_10x_ms : Option ℤ
  pub time_to_20x_ms : Option ℤ
  pub outcome_quality : QualityStatus

-- The variables of the walk over the prices.
pub record PriceWalk : Type 0 where
  pub max_px : ℕ
  pub min_px : ℕ
  pub final_px : ℕ
  pub t2 : Option ℤ
  pub t5 : Option ℤ
  pub t10 : Option ℤ
  pub t20 : Option ℤ

-- `*` of `U256` wraps around.
abbrev pub wrap_mul : ℕ → ℕ → ℕ
wrap_mul a b = a * b % 2 ^ 256

-- The time of the first price of at least `k` times the reference.
unfoldable pub crossing : ℕ → ℕ → ℤ → ℕ → Option ℤ → Option ℤ
crossing k rp elapsed px (some t) = some t
crossing k rp elapsed px none =
    if not (rp == 0) && leb (wrap_mul rp k) px then some elapsed else none

unfoldable pub see_price : ℕ → ℤ → PriceWalk → ℤ → ℕ → PriceWalk
see_price rp reference w time px =
    let elapsed = time -ℤ reference in
    record {
      max_px = if ltb w.max_px px then px else w.max_px;
      min_px = if ltb px w.min_px then px else w.min_px;
      final_px = px;
      t2 = crossing 2 rp elapsed px w.t2;
      t5 = crossing 5 rp elapsed px w.t5;
      t10 = crossing 10 rp elapsed px w.t10;
      t20 = crossing 20 rp elapsed px w.t20;
    }

abbrev pub see_option : ℕ → ℤ → PriceWalk → ℤ → Option ℕ → PriceWalk
see_option rp reference w time none = w
see_option rp reference w time (some px) = see_price rp reference w time px

abbrev pub walk_prices : ℕ → ℤ → PriceWalk → List TokenStateSnapshot → PriceWalk
walk_prices rp reference w [] = w
walk_prices rp reference w (s ∷ ss) =
    walk_prices rp reference (see_option rp reference w s.snapshot_time (spot_price_1e18 s)) ss

abbrev pub walk_from : ℕ → PriceWalk
walk_from rp = record {
  max_px = rp;
  min_px = rp;
  final_px = rp;
  t2 = none;
  t5 = none;
  t10 = none;
  t20 = none;
}

abbrev pub is_known : Option ℤ → Bool
is_known none = false
is_known (some _) = true

abbrev pub reached : ℕ → ℕ → ℕ → Option ℤ → Bool
reached k rp max_px t = is_known t || leb (sat_mul rp k) max_px

abbrev pub of_token : Chain → String → TokenStateSnapshot → Bool
of_token chain token s = eq_chain s.chain chain && eq_string s.token_address token

abbrev pub within_horizon : ℤ → ℤ → TokenStateSnapshot → Bool
within_horizon reference end s = ltb_ℤ reference s.snapshot_time && leb_ℤ s.snapshot_time end

unfoldable pub empty_outcome : TokenStateSnapshot → ℤ → ℤ → TokenOutcome
empty_outcome r reference horizon_ms = record {
  chain = r.chain;
  token = r.token_address;
  launchpad = r.launchpad;
  reference_time = reference;
  reference_snapshot_id = r.id;
  horizon_ms = horizon_ms;
  reference_price_1e18 = 0;
  final_price_1e18 = 0;
  max_price_1e18 = 0;
  min_price_1e18 = 0;
  final_return_bps = none;
  max_return_bps = none;
  max_drawdown_bps = none;
  reached_2x = false;
  reached_5x = false;
  reached_10x = false;
  reached_20x = false;
  time_to_2x_ms = none;
  time_to_5x_ms = none;
  time_to_10x_ms = none;
  time_to_20x_ms = none;
  outcome_quality = r.data_quality;
}

-- The labels, where the reference snapshot `r` has the price `rp`.
unfoldable pub outcome_of :
    List TokenStateSnapshot
    → Chain
    → String
    → Launchpad
    → ℤ
    → ℤ
    → TokenStateSnapshot
    → ℕ
    → TokenOutcome
outcome_of series chain token launchpad reference horizon_ms r rp =
    let end = reference +ℤ horizon_ms in
    let w =
      walk_prices rp reference (walk_from rp) (filter_by (within_horizon reference end) series) in
    record {
      chain = chain;
      token = token;
      launchpad = launchpad;
      reference_time = reference;
      reference_snapshot_id = r.id;
      horizon_ms = horizon_ms;
      reference_price_1e18 = rp;
      final_price_1e18 = w.final_px;
      max_price_1e18 = w.max_px;
      min_price_1e18 = w.min_px;
      final_return_bps = return_bps rp w.final_px;
      max_return_bps = return_bps rp w.max_px;
      max_drawdown_bps = return_bps rp w.min_px;
      reached_2x = reached 2 rp w.max_px w.t2;
      reached_5x = reached 5 rp w.max_px w.t5;
      reached_10x = reached 10 rp w.max_px w.t10;
      reached_20x = reached 20 rp w.max_px w.t20;
      time_to_2x_ms = w.t2;
      time_to_5x_ms = w.t5;
      time_to_10x_ms = w.t10;
      time_to_20x_ms = w.t20;
      outcome_quality = r.data_quality;
    }

abbrev pub outcome_at :
    List TokenStateSnapshot
    → Chain
    → String
    → Launchpad
    → ℤ
    → ℤ
    → TokenStateSnapshot
    → Option ℕ
    → TokenOutcome
outcome_at series chain token launchpad reference horizon_ms r none =
    empty_outcome r reference horizon_ms
outcome_at series chain token launchpad reference horizon_ms r (some rp) =
    outcome_of series chain token launchpad reference horizon_ms r rp

abbrev pub outcome_from :
    List TokenStateSnapshot
    → Chain
    → String
    → ℤ
    → ℤ
    → Option TokenStateSnapshot
    → Option TokenOutcome
outcome_from [] chain token reference horizon_ms r = none
outcome_from (first ∷ rest) chain token reference horizon_ms none = none
outcome_from (first ∷ rest) chain token reference horizon_ms (some r) = some (
    outcome_at (first ∷ rest) chain token first.launchpad reference horizon_ms r
      (spot_price_1e18 r))

abbrev pub by_reference : ℤ → TokenStateSnapshot → Bool
by_reference reference s = leb_ℤ s.snapshot_time reference

unfoldable pub token_outcome :
    List TokenStateSnapshot → Chain → String → ℤ → ℤ → Option TokenOutcome
token_outcome snaps chain token reference horizon_ms =
    let series = filter_by (of_token chain token) snaps in
    outcome_from series chain token reference horizon_ms
      (max_by_key (λ s. s.snapshot_time) (filter_by (by_reference reference) series))

abbrev pub has_pair : Chain → String → List (Chain × String) → Bool
has_pair chain token ks = any_of (λ k. eq_chain k.0 chain && eq_string k.1 token) ks

-- The keys, each once, by their first snapshot.
abbrev pub keys_after : List (Chain × String) → List TokenStateSnapshot → List (Chain × String)
keys_after ks [] = ks
keys_after ks (s ∷ ss) =
    keys_after
      (if has_pair s.chain s.token_address ks then ks else ks ++ (s.chain, s.token_address) ∷ []) ss

abbrev pub first_time : Chain → String → List TokenStateSnapshot → Option ℤ
first_time chain token [] = none
first_time chain token (s ∷ ss) =
    if of_token chain token s then some s.snapshot_time else first_time chain token ss

abbrev pub and_then : Option TokenOutcome → List TokenOutcome → List TokenOutcome
and_then none os = os
and_then (some o) os = o ∷ os

abbrev pub outcome_after :
    List TokenStateSnapshot → ℤ → ℤ → Chain → String → Option ℤ → Option TokenOutcome
outcome_after snaps offset horizon_ms chain token none = none
outcome_after snaps offset horizon_ms chain token (some t0) =
    token_outcome snaps chain token (t0 +ℤ offset) horizon_ms

abbrev pub outcomes_of_keys :
    List TokenStateSnapshot → ℤ → ℤ → List (Chain × String) → List TokenOutcome
outcomes_of_keys snaps offset horizon_ms [] = []
outcomes_of_keys snaps offset horizon_ms ((chain, token) ∷ ks) =
    and_then (outcome_after snaps offset horizon_ms chain token (first_time chain token snaps))
      (outcomes_of_keys snaps offset horizon_ms ks)

unfoldable pub outcomes_for_all : List TokenStateSnapshot → ℤ → ℤ → List TokenOutcome
outcomes_for_all snaps reference_offset_ms horizon_ms =
    outcomes_of_keys snaps reference_offset_ms horizon_ms (keys_after [] snaps)
