-- ===== src/Security/Assessment/Outcome.antt =====
-- What the evidence says of the verdict: `from_evidence` of apps/engine/src/security/assessment.rs.
use memecoin_bot.Base.{
  ◌≡◌, ◌≢◌, ◌↔◌, refl, Bool, true, false, not, ◌&&◌, ◌||◌, List, [], ◌∷◌, ◌++◌, String, arith,
  is_empty, any_of,
}
use memecoin_bot.Security.Verdict.{SecurityVerdict, pass, reject}
use memecoin_bot.Security.Evidence.{SecurityEvidence, is_warn_status, is_unknown_status}
use memecoin_bot.Security.Assessment.{
  RiskBand, Findings, no_findings, told, hard_after, warnings_after, gather, gather_all, verdict_of,
  SecurityAssessment, from_evidence,
}

abbrev pub rejects : SecurityEvidence → Bool
rejects e = e.hard_reject

-- A warning counts only where the evidence does not reject.
abbrev pub warns : SecurityEvidence → Bool
warns e = not e.hard_reject && is_warn_status e.status

abbrev pub leaves_unknown : SecurityEvidence → Bool
leaves_unknown e = is_unknown_status e.status

is_empty-append : (xs : List String) (x : String) → is_empty (xs ++ x ∷ []) ≡ false
is_empty-append [] x = refl
is_empty-append (y ∷ xs) x = refl

is_empty-hard_after :
    (e : SecurityEvidence) (xs : List String)
    → is_empty (hard_after e xs) ≡ (is_empty xs && not (rejects e))
unfolding hard_after
is_empty-hard_after e xs = ground (arith, is_empty-append xs (told e))

is_empty-warnings_after :
    (e : SecurityEvidence) (xs : List String)
    → is_empty (warnings_after e xs) ≡ (is_empty xs && not (warns e))
unfolding warnings_after
is_empty-warnings_after e xs = ground (arith, is_empty-append xs (told e))

gather_all_lem :
    (es : List SecurityEvidence) (f : Findings)
    → (is_empty (gather_all f es).hard ≡ (is_empty f.hard && not (any_of rejects es)))
      × (is_empty (gather_all f es).warnings ≡ (is_empty f.warnings && not (any_of warns es)))
      × ((gather_all f es).unknown ≡ (f.unknown || any_of leaves_unknown es))
unfolding gather_all gather
gather_all_lem [] f = ground arith
gather_all_lem (e ∷ es) f =
    let (h, w, u) = gather_all_lem es (gather f e) in
    ground (arith, is_empty-hard_after e f.hard, is_empty-warnings_after e f.warnings)

-- No evidence rejects, leaves something unknown, or warns, and none of the three bands that count is
-- exactly high.
abbrev pub IsClear : List SecurityEvidence → SecurityAssessment → Type 0
IsClear es a =
    (any_of rejects es ≡ false)
    × (any_of leaves_unknown es ≡ false)
    × (any_of warns es ≡ false)
    × (a.token_mechanics_risk ≢ RiskBand.high)
    × (a.privilege_risk ≢ RiskBand.high)
    × (a.contract_risk ≢ RiskBand.high)

verdict_of-reject : (f : Findings) → (verdict_of f ≡ reject) ↔ (is_empty f.hard ≡ false)
unfolding verdict_of
verdict_of-reject f = ground arith

verdict_of-unknown :
    (f : Findings)
    → (verdict_of f ≡ SecurityVerdict.unknown)
      ↔ ((is_empty f.hard ≡ true) × (f.unknown ≡ true) × (is_empty f.warnings ≡ true))
unfolding verdict_of
verdict_of-unknown f = ground arith

verdict_of-pass :
    (f : Findings)
    → (verdict_of f ≡ pass) ↔ (
        (is_empty f.hard ≡ true)
        × (f.unknown ≡ false)
        × (is_empty f.warnings ≡ true)
        × (f.mechanics ≢ RiskBand.high)
        × (f.privilege ≢ RiskBand.high)
        × (f.contract ≢ RiskBand.high))
unfolding verdict_of
verdict_of-pass f = ground arith

-- The verdict of an assessment, whatever the evidence: it rejects exactly where some evidence rejects;
-- it is unknown exactly where none rejects or warns and some leaves a check unknown; and it passes
-- exactly where none rejects, warns or leaves a check unknown, and the bands of mechanics, privilege
-- and contract are not high. A critical band that no evidence rejects for, and no evidence at all, pass.
pub from_evidence-verdict :
    (es : List SecurityEvidence)
    → let a = from_evidence es in
      ((a.verdict ≡ reject) ↔ (any_of rejects es ≡ true))
      × ((a.verdict ≡ SecurityVerdict.unknown) ↔ (
          (any_of rejects es ≡ false)
          × (any_of leaves_unknown es ≡ true)
          × (any_of warns es ≡ false)))
      × ((a.verdict ≡ pass) ↔ IsClear es a)
unfolding from_evidence
from_evidence-verdict es =
    let f = gather_all no_findings es in
    let (h, w, u) = gather_all_lem es no_findings in
    (
      ground (arith, verdict_of-reject f),
      ground (arith, verdict_of-unknown f),
      ground (arith, verdict_of-pass f),
    )
