-- ===== src/Security/Evidence.antt =====
-- `SecurityEvidence` of apps/engine/src/security/evidence.rs, without its source and its time.
use memecoin_bot.Base.{String, Bool, true, false}

pub data EvidenceStatus : Type 0 where
  found not_found pass warn fail unknown unknown_historical_state : EvidenceStatus
  provider_limited not_applicable : EvidenceStatus

pub data Severity : Type 0 where
  info low medium high critical : Severity

pub record SecurityEvidence : Type 0 where
  pub check : String
  pub status : EvidenceStatus
  pub severity : Severity
  pub hard_reject : Bool
  pub details : String

abbrev pub is_warn_status : EvidenceStatus → Bool
is_warn_status EvidenceStatus.warn = true
is_warn_status _ = false

abbrev pub is_unknown_status : EvidenceStatus → Bool
is_unknown_status EvidenceStatus.unknown = true
is_unknown_status EvidenceStatus.unknown_historical_state = true
is_unknown_status EvidenceStatus.provider_limited = true
is_unknown_status _ = false
