-- ===== src/Sim/Policy/Entry.antt =====
-- When an entry is allowed: `may_enter` of apps/engine/src/sim/policy.rs.
use mathlib.Core.Path.{subst, sym}
use mathlib.Core.Option.{some-injective}
use memecoin_bot.Base.{◌≡◌, ◌≢◌, ◌↔◌, true, Option, none, some, arith, refl}
use memecoin_bot.Base.Int.{ℤ, ◌≤ℤ◌, ◌+ℤ◌}
use memecoin_bot.Security.Verdict.{SecurityVerdict, reject}
use memecoin_bot.Candidate.Machine.{eligible}
use memecoin_bot.Sim.Models.{Digest, deterministic_hit}
use memecoin_bot.Sim.Policy.Gate.{
  random_eligible, entry_delay_ms, enter, EntryQuery, enter_since, enter_cleared, enter_eligible,
  enter_with, may_enter,
}

-- A verdict is there, and it neither rejects nor leaves the token unknown.
abbrev pub IsTradable : Option SecurityVerdict → Type 0
IsTradable none = ⊥
IsTradable (some v) = (v ≢ reject) × (v ≢ SecurityVerdict.unknown)

-- The waiting time of the policy is over since `t0`, and the random control lets the token in.
abbrev pub IsDue : Digest → EntryQuery → ℤ → Type 0
IsDue digest q t0 =
    (t0 +ℤ entry_delay_ms q.policy ≤ℤ q.now)
    × (q.policy ≡ random_eligible → deterministic_hit digest q.seed q.token t0 0 5_000 ≡ true)

module _ (digest : Digest) (q : EntryQuery) where
  enter_since-IsDue : (t0 : ℤ) → (enter_since digest q t0 ≡ enter) ↔ IsDue digest q t0
  unfolding enter_since
  enter_since-IsDue t0 = ground arith

  enter_cleared-IsDue :
      (t : Option ℤ)
      → (enter_cleared digest q t ≡ enter) ↔ ((t0 : ℤ) × (t ≡ some t0) × IsDue digest q t0)
  enter_cleared-IsDue none = ground arith
  enter_cleared-IsDue (some t0) = (
    λ h. (t0, refl, (enter_since-IsDue t0).0 h),
    λ d. (enter_since-IsDue t0).1 (subst (IsDue digest q) (sym (some-injective _ _ d.1)) d.2),
  )

  enter_eligible-IsDue :
      (enter_eligible digest q ≡ enter)
      ↔ ((q.candidate ≡ eligible) × (enter_cleared digest q q.first_eligible_at ≡ enter))
  unfolding enter_eligible
  enter_eligible-IsDue = ground arith

  enter_with-IsTradable :
      (v : Option SecurityVerdict)
      → (enter_with digest q v ≡ enter) ↔ (IsTradable v × (enter_eligible digest q ≡ enter))
  enter_with-IsTradable v = ground arith

  -- An entry is allowed exactly when the security verdict is there and neither rejects the token nor
  -- leaves it unknown, the candidate is eligible, the time at which it became so is known, the delay of
  -- the policy is over since then, and, for the random control alone, the seeded draw lets it in.
  pub may_enter_iff : (may_enter digest q ≡ enter) ↔ (
      IsTradable q.security
      × (q.candidate ≡ eligible)
      × ((t0 : ℤ) × (q.first_eligible_at ≡ some t0) × IsDue digest q t0))
  unfolding may_enter
  may_enter_iff = (
    λ h.
        let (ok, e) = (enter_with-IsTradable q.security).0 h in
        let (c, f) = enter_eligible-IsDue.0 e in
        (ok, c, (enter_cleared-IsDue q.first_eligible_at).0 f),
    λ (ok, c, due).
        (enter_with-IsTradable q.security).1
          (ok, enter_eligible-IsDue.1 (c, (enter_cleared-IsDue q.first_eligible_at).1 due)),
  )
