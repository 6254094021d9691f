-- ===== src/Security/Tests.antt =====
-- Assessments of concrete evidence: apps/engine/src/security/assessment.rs.
use memecoin_bot.Base.{◌≡◌, ◌↔◌, refl, true, false, List, [], ◌∷◌, any_of, String}
use memecoin_bot.Security.Verdict.{SecurityVerdict, pass, warn, reject}
use memecoin_bot.Security.Evidence.{EvidenceStatus, Severity, SecurityEvidence}
use memecoin_bot.Security.Assessment.{
  from_evidence, gather_all, gather, verdict_of, raise_in, raise, hard_after, warnings_after,
  band_of, area_of, contract_area, mechanics_area, privilege_area, sell_area, liq_area,
}
use memecoin_bot.Security.Assessment.Outcome.{
  rejects, leaves_unknown, warns, IsClear, from_evidence-verdict,
}
use memecoin_bot.Security.Assessment.Bands.{Covers, from_evidence-Covers}

abbrev seen : String → EvidenceStatus → Severity → SecurityEvidence
seen check status severity = record {
  check = check;
  status = status;
  severity = severity;
  hard_reject = false;
  details = "as observed";
}

abbrev owner_high : SecurityEvidence
owner_high = seen "OWNER_ACTIVE" EvidenceStatus.found Severity.high

abbrev owner_critical : SecurityEvidence
owner_critical = seen "OWNER_ACTIVE" EvidenceStatus.found Severity.critical

-- A high band warns, and a critical one passes.
high_warns : (from_evidence (owner_high ∷ [])).verdict ≡ warn
unfolding from_evidence gather_all gather verdict_of raise_in raise hard_after warnings_after
    band_of area_of
high_warns = refl

critical_passes : (from_evidence (owner_high ∷ owner_critical ∷ [])).verdict ≡ pass
unfolding from_evidence gather_all gather verdict_of raise_in raise hard_after warnings_after
    band_of area_of
critical_passes = refl

nothing_passes : (from_evidence []).verdict ≡ pass
unfolding from_evidence gather_all verdict_of
nothing_passes = refl

abbrev mixed : List SecurityEvidence
mixed = owner_high ∷ seen "SELL_TAX" EvidenceStatus.provider_limited Severity.low ∷ []

from_evidence-verdict_example :
    let a = from_evidence mixed in
    ((a.verdict ≡ reject) ↔ (any_of rejects mixed ≡ true))
    × ((a.verdict ≡ SecurityVerdict.unknown) ↔ (
        (any_of rejects mixed ≡ false)
        × (any_of leaves_unknown mixed ≡ true)
        × (any_of warns mixed ≡ false)))
    × ((a.verdict ≡ pass) ↔ IsClear mixed a)
from_evidence-verdict_example = from_evidence-verdict mixed

from_evidence-Covers_example :
    let a = from_evidence mixed in
    Covers contract_area a.contract_risk mixed
    × Covers mechanics_area a.token_mechanics_risk mixed
    × Covers privilege_area a.privilege_risk mixed
    × Covers sell_area a.sellability_risk mixed
    × Covers liq_area a.liquidity_structure_risk mixed
from_evidence-Covers_example = from_evidence-Covers mixed
