-- ===== src/Sim/Outcome/Path/Labels.antt =====
-- `token_outcome` of apps/engine/src/sim/outcome.rs against the prices seen within the horizon.
use memecoin_bot.Base.{
  ℕ, ◌*◌, ◌≤◌, ◌≡◌, refl, sym, String, Option, none, some, List, [], ◌∷◌, arith, leb, u256_max,
  filter_by, max_by_key-IsGreatest, IsGreatest,
}
use mathlib.Core.Option.{some-injective}
use mathlib.Core.Path.{subst}
use memecoin_bot.Base.Int.{ℤ, ◌+ℤ◌}
use memecoin_bot.Domain.{Chain, Launchpad}
use memecoin_bot.State.Snapshot.{TokenStateSnapshot}
use memecoin_bot.Sim.Venue.{spot_price_1e18}
use memecoin_bot.Sim.Outcome.{
  TokenOutcome, walk_from, of_token, within_horizon, empty_outcome, outcome_of, outcome_at,
  outcome_from, by_reference, token_outcome,
}
use memecoin_bot.Sim.Outcome.Path.{
  TimeIs_lem, reached_lem, priced, highest, last_price, walk_prices_lem, IsHighest, IsLowest,
  highest-IsHighest, lowest-IsLowest, TimeIs,
}

-- What the labels with the reference price `rp` say of the prices seen within the horizon.
pub record IsPathOf (reference : ℤ) (rp : ℕ) (ps : List (ℤ × ℕ)) (o : TokenOutcome) : Type 0 where
  pub reference_known : o.reference_price_1e18 ≡ rp
  pub highest_seen : IsHighest rp ps o.max_price_1e18
  pub lowest_seen : IsLowest rp ps o.min_price_1e18
  pub last_seen : o.final_price_1e18 ≡ last_price rp ps
  pub first_2x : TimeIs 2 rp reference ps o.time_to_2x_ms
  pub first_5x : TimeIs 5 rp reference ps o.time_to_5x_ms
  pub first_10x : TimeIs 10 rp reference ps o.time_to_10x_ms
  pub first_20x : TimeIs 20 rp reference ps o.time_to_20x_ms
  pub rose_2x : o.reached_2x ≡ leb (rp * 2) o.max_price_1e18
  pub rose_5x : o.reached_5x ≡ leb (rp * 5) o.max_price_1e18
  pub rose_10x : o.reached_10x ≡ leb (rp * 10) o.max_price_1e18
  pub rose_20x : o.reached_20x ≡ leb (rp * 20) o.max_price_1e18

abbrev seen_within : List TokenStateSnapshot → ℤ → ℤ → List (ℤ × ℕ)
seen_within series reference horizon_ms =
    priced (filter_by (within_horizon reference (reference +ℤ horizon_ms)) series)

outcome_of-IsPathOf :
    (series : List TokenStateSnapshot) (chain : Chain) (token : String) (launchpad : Launchpad)
    (reference horizon_ms : ℤ) (r : TokenStateSnapshot) (rp : ℕ)
    → rp * 20 ≤ u256_max
    → IsPathOf reference rp
        (seen_within series reference horizon_ms)
        (outcome_of series chain token launchpad reference horizon_ms r rp)
unfolding outcome_of
outcome_of-IsPathOf series chain token launchpad reference horizon_ms r rp fits =
    let ps = seen_within series reference horizon_ms in
    let (le, below, at) = highest-IsHighest rp ps in
    let x2 = TimeIs_lem 2 rp reference (omega arith) ps in
    let x5 = TimeIs_lem 5 rp reference (omega arith) ps in
    let x10 = TimeIs_lem 10 rp reference (omega arith) ps in
    let x20 = TimeIs_lem 20 rp reference fits ps in
    let m = highest rp ps in
    rw
      (walk_prices_lem rp reference (walk_from rp)
        (filter_by (within_horizon reference (reference +ℤ horizon_ms)) series))
      (record {
        reference_known = refl;
        highest_seen = (le, below, at);
        lowest_seen = lowest-IsLowest rp ps;
        last_seen = refl;
        first_2x = x2;
        first_5x = x5;
        first_10x = x10;
        first_20x = x20;
        rose_2x = reached_lem 2 rp reference (omega arith) ps m _ below x2;
        rose_5x = reached_lem 5 rp reference (omega arith) ps m _ below x5;
        rose_10x = reached_lem 10 rp reference (omega arith) ps m _ below x10;
        rose_20x = reached_lem 20 rp reference fits ps m _ below x20;
      })

-- The labels from the reference snapshot `r`, by its price.
abbrev pub IsOutcomeAt :
    List TokenStateSnapshot → ℤ → ℤ → TokenStateSnapshot → Option ℕ → TokenOutcome → Type 0
IsOutcomeAt series reference horizon_ms r none o = o ≡ empty_outcome r reference horizon_ms
IsOutcomeAt series reference horizon_ms r (some rp) o =
    IsPathOf reference rp (seen_within series reference horizon_ms) o

abbrev pub LatestBefore : ℤ → List TokenStateSnapshot → TokenStateSnapshot → Type 0
LatestBefore reference series r =
    IsGreatest (by_reference reference) (λ s. s.snapshot_time) series (some r)

outcome_at-IsOutcomeAt :
    (series : List TokenStateSnapshot) (chain : Chain) (token : String) (launchpad : Launchpad)
    (reference horizon_ms : ℤ) (r : TokenStateSnapshot) (price : Option ℕ)
    → (outcome_at series chain token launchpad reference horizon_ms r price).reference_price_1e18
        * 20
      ≤ u256_max
    → IsOutcomeAt series reference horizon_ms r price
        (outcome_at series chain token launchpad reference horizon_ms r price)
unfolding outcome_of
outcome_at-IsOutcomeAt series chain token launchpad reference horizon_ms r none fits = refl
outcome_at-IsOutcomeAt series chain token launchpad reference horizon_ms r (some rp) fits =
    outcome_of-IsPathOf series chain token launchpad reference horizon_ms r rp fits

outcome_from-IsOutcomeAt :
    (series : List TokenStateSnapshot) (chain : Chain) (token : String) (reference horizon_ms : ℤ)
    (latest : Option TokenStateSnapshot) (o : TokenOutcome)
    → outcome_from series chain token reference horizon_ms latest ≡ some o
    → o.reference_price_1e18 * 20 ≤ u256_max
    → IsGreatest (by_reference reference) (λ s. s.snapshot_time) series latest
    → (r : TokenStateSnapshot) × LatestBefore reference series r
      × IsOutcomeAt series reference horizon_ms r (spot_price_1e18 r) o
outcome_from-IsOutcomeAt [] chain token reference horizon_ms latest o h fits g = cc
outcome_from-IsOutcomeAt (f ∷ fs) chain token reference horizon_ms none o h fits g = cc
outcome_from-IsOutcomeAt (f ∷ fs) chain token reference horizon_ms (some r) o h fits g =
    let price = spot_price_1e18 r in
    let e = some-injective _ _ h in
    (
      r,
      g,
      subst (λ o. IsOutcomeAt (f ∷ fs) reference horizon_ms r price o) e
          (outcome_at-IsOutcomeAt (f ∷ fs) chain token f.launchpad reference horizon_ms r price
            (subst (λ o. o.reference_price_1e18 * 20 ≤ u256_max) (sym e) fits)),
    )

-- An outcome is labelled from the latest snapshot of the token at or before the reference time. Where
-- that has no price, the outcome is the empty one. Where it has one, and twenty times it fits in a
-- `U256`: the highest and the lowest price are the greatest and the least of it and of the prices of the
-- token's snapshots after the reference and within the horizon, the final one is the last of those; each
-- time to a multiple is that of the first price of at least the multiple, and unknown where none is or
-- the reference price is 0; and a multiple counts as reached exactly where the highest price is at least
-- that multiple of the reference price.
pub token_outcome-IsOutcomeAt :
    (snaps : List TokenStateSnapshot) (chain : Chain) (token : String) (reference horizon_ms : ℤ)
    (o : TokenOutcome)
    → token_outcome snaps chain token reference horizon_ms ≡ some o
    → o.reference_price_1e18 * 20 ≤ u256_max
    → (r : TokenStateSnapshot) × LatestBefore reference (filter_by (of_token chain token) snaps) r
      × IsOutcomeAt
          (filter_by (of_token chain token) snaps)
          reference
          horizon_ms
          r
          (spot_price_1e18 r)
          o
unfolding token_outcome
token_outcome-IsOutcomeAt snaps chain token reference horizon_ms o h fits =
    let series = filter_by (of_token chain token) snaps in
    outcome_from-IsOutcomeAt series chain token reference horizon_ms _ o h fits
      (max_by_key-IsGreatest (by_reference reference) (λ s. s.snapshot_time) series)
