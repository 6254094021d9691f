-- ===== src/Security/Assessment/Bands.antt =====
-- The risk bands of `from_evidence` of apps/engine/src/security/assessment.rs.
use memecoin_bot.Base.{◌≤◌, ◌≡◌, refl, true, List, [], ◌∷◌, arith, ◌==◌, All}
use memecoin_bot.Security.Evidence.{SecurityEvidence}
use memecoin_bot.Security.Assessment.{
  RiskBand, rank, raise, band_of, Area, contract_area, mechanics_area, privilege_area, sell_area,
  liq_area, area_of, area_index, raise_in, Findings, no_findings, gather, gather_all, from_evidence,
}

-- The band of an area after all the evidence.
abbrev raise_all : Area → List SecurityEvidence → RiskBand → RiskBand
raise_all area [] band = band
raise_all area (e ∷ es) band = raise_all area es (raise_in area e band)

gather_all-raise_all :
    (es : List SecurityEvidence) (f : Findings)
    → ((gather_all f es).contract ≡ raise_all contract_area es f.contract)
      × ((gather_all f es).mechanics ≡ raise_all mechanics_area es f.mechanics)
      × ((gather_all f es).privilege ≡ raise_all privilege_area es f.privilege)
      × ((gather_all f es).sell ≡ raise_all sell_area es f.sell)
      × ((gather_all f es).liq ≡ raise_all liq_area es f.liq)
unfolding gather_all gather
gather_all-raise_all [] f = (refl, refl, refl, refl, refl)
gather_all-raise_all (e ∷ es) f = gather_all-raise_all es (gather f e)

module _ (area : Area) where
  -- `band` is at least as severe as every piece of evidence on a check of the area.
  abbrev pub Covers : RiskBand → List SecurityEvidence → Type 0
  Covers band es =
      All
        (λ e.
          (area_index (area_of e.check) == area_index area) ≡ true
          → rank (band_of e.severity) ≤ rank band)
        es

  raise_in_le :
      (e : SecurityEvidence) (band : RiskBand)
      → (rank band ≤ rank (raise_in area e band))
        × ((area_index (area_of e.check) == area_index area) ≡ true
            → rank (band_of e.severity) ≤ rank (raise_in area e band))
  unfolding raise_in raise
  raise_in_le e band = (ground arith, λ h. ground arith)

  raise_all-Covers :
      (es : List SecurityEvidence) (band : RiskBand)
      → (rank band ≤ rank (raise_all area es band)) × Covers (raise_all area es band) es
  raise_all-Covers [] band = (omega arith, tt)
  raise_all-Covers (e ∷ es) band =
      let (up, own) = raise_in_le e band in
      let (more, rest) = raise_all-Covers es (raise_in area e band) in
      (omega arith, (λ h. omega (arith, own h), rest))

-- Each of the five bands of an assessment is at least as severe as every piece of evidence on a check
-- of its area, in whatever order the evidence came.
pub from_evidence-Covers :
    (es : List SecurityEvidence)
    → let a = from_evidence es in
      Covers contract_area a.contract_risk es
      × Covers mechanics_area a.token_mechanics_risk es
      × Covers privilege_area a.privilege_risk es
      × Covers sell_area a.sellability_risk es
      × Covers liq_area a.liquidity_structure_risk es
unfolding from_evidence
from_evidence-Covers es =
    let (c, m, p, s, l) = gather_all-raise_all es no_findings in
    rw (c, m, p, s, l)
      (
        (raise_all-Covers contract_area es RiskBand.none).1,
        (raise_all-Covers mechanics_area es RiskBand.none).1,
        (raise_all-Covers privilege_area es RiskBand.none).1,
        (raise_all-Covers sell_area es RiskBand.none).1,
        (raise_all-Covers liq_area es RiskBand.none).1,
      )
