-- ===== src/Security/Assessment.antt =====
-- `SecurityAssessment::from_evidence` of apps/engine/src/security/assessment.rs: what the loop over the
-- evidence gathers, and the verdict. The fields that are copied or left empty are left out.
pub mod Outcome
pub mod Bands
use Prim.Native.String.{◌++◌ as ◌+s◌}
use memecoin_bot.Base.{
  ℕ, String, Bool, true, false, not, ◌&&◌, ◌||◌, List, [], ◌∷◌, ◌++◌, ltb, ◌==◌, if◌then◌else◌,
  contains, eq_string, is_empty,
}
use memecoin_bot.Security.Verdict.{SecurityVerdict, pass, warn, reject}
use memecoin_bot.Security.Evidence.{
  EvidenceStatus, Severity, SecurityEvidence, is_warn_status, is_unknown_status,
}

pub data RiskBand : Type 0 where
  none low medium high critical unknown : RiskBand

abbrev pub band_index : RiskBand → ℕ
band_index RiskBand.none = 0
band_index RiskBand.low = 1
band_index RiskBand.medium = 2
band_index RiskBand.high = 3
band_index RiskBand.critical = 4
band_index RiskBand.unknown = 5

-- The derived `PartialEq`.
abbrev pub eq_band : RiskBand → RiskBand → Bool
eq_band a b = band_index a == band_index b

abbrev pub rank : RiskBand → ℕ
rank RiskBand.none = 0
rank RiskBand.low = 1
rank RiskBand.medium = 2
rank RiskBand.high = 3
rank RiskBand.critical = 4
rank RiskBand.unknown = 2

unfoldable pub raise : RiskBand → RiskBand → RiskBand
raise a b = if ltb (rank a) (rank b) then b else a

pub data Sellability : Type 0 where
  sellable not_sellable unknown provider_limited not_applicable : Sellability

pub data HoneypotResult : Type 0 where
  not_honeypot honeypot conditional unknown simulation_failed : HoneypotResult

-- The variables of the loop.
pub record Findings : Type 0 where
  pub hard : List String
  pub warnings : List String
  pub contract : RiskBand
  pub mechanics : RiskBand
  pub privilege : RiskBand
  pub sell : RiskBand
  pub liq : RiskBand
  pub unknown : Bool
  pub honeypot : HoneypotResult
  pub sellability : Sellability

abbrev pub no_findings : Findings
no_findings = record {
  hard = [];
  warnings = [];
  contract = RiskBand.none;
  mechanics = RiskBand.none;
  privilege = RiskBand.none;
  sell = RiskBand.none;
  liq = RiskBand.none;
  unknown = false;
  honeypot = HoneypotResult.unknown;
  sellability = Sellability.unknown;
}

unfoldable pub band_of : Severity → RiskBand
band_of Severity.critical = RiskBand.critical
band_of Severity.high = RiskBand.high
band_of Severity.medium = RiskBand.medium
band_of Severity.low = RiskBand.low
band_of Severity.info = RiskBand.none

-- The five bands that a check may raise, and none.
pub data Area : Type 0 where
  contract_area mechanics_area privilege_area sell_area liq_area no_area : Area

unfoldable pub area_of : String → Area
area_of check =
    if contains check "PROXY"
      || contains check "BYTECODE"
      || contains check "DELEGATE"
      || contains check "TEMPLATE"
    then contract_area
    else if contains check "TAX"
        || contains check "MINT"
        || contains check "BLACKLIST"
        || contains check "MAX_"
        || contains check "HOOK"
        || contains check "TOKEN2022"
        || contains check "NON_TRANSFERABLE"
    then mechanics_area
    else if contains check "OWNER"
        || contains check "ROLE"
        || contains check "AUTHORITY"
        || contains check "PRIVILEGE"
        || contains check "UPGRADE"
        || contains check "ADMIN"
    then privilege_area
    else if contains check "SELL" || contains check "HONEYPOT"
    then sell_area
    else if contains check "LIQ" || contains check "POOL" || contains check "GAP"
    then liq_area
    else no_area

abbrev pub area_index : Area → ℕ
area_index contract_area = 0
area_index mechanics_area = 1
area_index privilege_area = 2
area_index sell_area = 3
area_index liq_area = 4
area_index no_area = 5

-- The band of an area after `e`.
unfoldable pub raise_in : Area → SecurityEvidence → RiskBand → RiskBand
raise_in area e band =
    if area_index (area_of e.check) == area_index area
    then raise band (band_of e.severity)
    else band

abbrev pub told : SecurityEvidence → String
told e = e.check +s (": " +s e.details)

unfoldable pub hard_after : SecurityEvidence → List String → List String
hard_after e hard = if e.hard_reject then hard ++ told e ∷ [] else hard

unfoldable pub warnings_after : SecurityEvidence → List String → List String
warnings_after e warnings =
    if not e.hard_reject && is_warn_status e.status then warnings ++ told e ∷ [] else warnings

abbrev pub honeypot_on : EvidenceStatus → HoneypotResult → HoneypotResult
honeypot_on EvidenceStatus.fail h = HoneypotResult.honeypot
honeypot_on EvidenceStatus.pass h = HoneypotResult.not_honeypot
honeypot_on EvidenceStatus.warn h = HoneypotResult.conditional
honeypot_on EvidenceStatus.unknown h = HoneypotResult.simulation_failed
honeypot_on EvidenceStatus.provider_limited h = HoneypotResult.simulation_failed
honeypot_on _ h = h

abbrev pub sellability_on : EvidenceStatus → Sellability
sellability_on EvidenceStatus.pass = Sellability.sellable
sellability_on EvidenceStatus.fail = Sellability.not_sellable
sellability_on EvidenceStatus.not_applicable = Sellability.not_applicable
sellability_on EvidenceStatus.provider_limited = Sellability.provider_limited
sellability_on _ = Sellability.unknown

-- The body of the loop.
unfoldable pub gather : Findings → SecurityEvidence → Findings
gather f e = record {
  hard = hard_after e f.hard;
  warnings = warnings_after e f.warnings;
  contract = raise_in contract_area e f.contract;
  mechanics = raise_in mechanics_area e f.mechanics;
  privilege = raise_in privilege_area e f.privilege;
  sell = raise_in sell_area e f.sell;
  liq = raise_in liq_area e f.liq;
  unknown = f.unknown || is_unknown_status e.status;
  honeypot =
      if eq_string e.check "HONEYPOT_SIM" then honeypot_on e.status f.honeypot else f.honeypot;
  sellability = if eq_string e.check "SELLABILITY" then sellability_on e.status else f.sellability;
}

unfoldable pub gather_all : Findings → List SecurityEvidence → Findings
gather_all f [] = f
gather_all f (e ∷ es) = gather_all (gather f e) es

unfoldable pub verdict_of : Findings → SecurityVerdict
verdict_of f =
    if not (is_empty f.hard)
    then reject
    else if f.unknown && is_empty f.hard && is_empty f.warnings && eq_band f.contract RiskBand.none
    then SecurityVerdict.unknown
    else if f.unknown && is_empty f.hard
    then if is_empty f.warnings then SecurityVerdict.unknown else warn
    else if not (is_empty f.warnings)
        || eq_band f.mechanics RiskBand.high
        || eq_band f.privilege RiskBand.high
        || eq_band f.contract RiskBand.high
    then warn
    else pass

pub record SecurityAssessment : Type 0 where
  pub verdict : SecurityVerdict
  pub contract_risk : RiskBand
  pub token_mechanics_risk : RiskBand
  pub privilege_risk : RiskBand
  pub sellability_risk : RiskBand
  pub liquidity_structure_risk : RiskBand
  pub hard_reject_reasons : List String
  pub warnings : List String
  pub evidence : List SecurityEvidence
  pub sellability : Sellability
  pub honeypot : HoneypotResult

unfoldable pub from_evidence : List SecurityEvidence → SecurityAssessment
from_evidence evidence =
    let f = gather_all no_findings evidence in
    record {
      verdict = verdict_of f;
      contract_risk = f.contract;
      token_mechanics_risk = f.mechanics;
      privilege_risk = f.privilege;
      sellability_risk = f.sell;
      liquidity_structure_risk = f.liq;
      hard_reject_reasons = f.hard;
      warnings = f.warnings;
      evidence = evidence;
      sellability = f.sellability;
      honeypot = f.honeypot;
    }
