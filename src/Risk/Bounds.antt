-- ===== src/Risk/Bounds.antt =====
-- What the score of app/analysis/risk.py promises.
use iam_sentinel_ese.Domain.Enums.{Severity, base_weight, rank}
use iam_sentinel_ese.Prelude.{Option, arith, min, none, refl, some, true, ℕ, ◌≡◌, ◌≤◌}
use iam_sentinel_ese.Records.{AnalysisFinding, PrincipalRecord}
use iam_sentinel_ese.Risk.{
  clamp, impact_of, is_privileged, likelihood_of, privilege_bonus, raw_score, round_twentieths,
  score_finding,
}

round_mono : (n m : ℕ) → n ≤ m → round_twentieths n ≤ round_twentieths m
unfolding round_twentieths
round_mono n m h = ground arith

clamp_mono : (n m : ℕ) → n ≤ m → clamp n ≤ clamp m
unfolding clamp
clamp_mono n m h = round_mono (min 2000 n) (min 2000 m) (omega arith)

impact_bounds :
    (f : AnalysisFinding) (p : Option PrincipalRecord) → (3 ≤ impact_of f p) × (impact_of f p ≤ 5)
unfolding impact_of
impact_bounds f none = (ground arith, ground arith)
impact_bounds f (some p) = (ground arith, ground arith)

likelihood_bounds :
    (f : AnalysisFinding) (p : Option PrincipalRecord)
    → (2 ≤ likelihood_of f p) × (likelihood_of f p ≤ 5)
unfolding likelihood_of
likelihood_bounds f none = (ground arith, ground arith)
likelihood_bounds f (some p) = (ground arith, ground arith)

weight_bounds : (v : Severity) → (20 ≤ base_weight v) × (base_weight v ≤ 90)
unfolding base_weight
weight_bounds v = (ground arith, ground arith)

clamp_top : (n : ℕ) → clamp n ≤ 100
unfolding clamp round_twentieths
clamp_top n = ground arith

clamp_bottom : (n : ℕ) → 680 ≤ n → 34 ≤ clamp n
unfolding clamp round_twentieths
clamp_bottom n h = clamp_mono 680 n h

-- A scored finding has an impact from 3 to 5, a likelihood from 2 to 5, and a risk score from 34 to
-- 100.
pub score_finding_bounds :
    (f : AnalysisFinding) (p : Option PrincipalRecord)
    → let g = score_finding f p in
      (3 ≤ g.impact)
      × (g.impact ≤ 5)
      × (2 ≤ g.likelihood)
      × (g.likelihood ≤ 5)
      × (34 ≤ g.risk_score)
      × (g.risk_score ≤ 100)
unfolding score_finding raw_score
score_finding_bounds f p =
    let (i3, i5) = impact_bounds f p in
    let (l2, l5) = likelihood_bounds f p in
    let (w, _) = weight_bounds f.severity in
    (i3, i5, l2, l5, clamp_bottom (raw_score f p) (omega arith), clamp_top (raw_score f p))

weight_mono : (a b : Severity) → rank a ≤ rank b → base_weight a ≤ base_weight b
unfolding base_weight rank
weight_mono a b h = ground arith

impact_mono :
    (f : AnalysisFinding) (v : Severity) (p : Option PrincipalRecord)
    → rank f.severity ≤ rank v
    → impact_of f p ≤ impact_of (record f { severity = v }) p
unfolding impact_of rank
impact_mono f v none h = ground arith
impact_mono f v (some p) h = ground arith

bonus_same :
    (f : AnalysisFinding) (v : Severity) (p : Option PrincipalRecord)
    → privilege_bonus p (record f { severity = v }) ≡ privilege_bonus p f
unfolding privilege_bonus is_privileged
bonus_same f v none = refl
bonus_same f v (some p) = refl

-- Of two findings that differ in severity alone, the more severe one does not score lower.
pub score_finding_mono :
    (f : AnalysisFinding) (v : Severity) (p : Option PrincipalRecord)
    → rank f.severity ≤ rank v
    → (score_finding f p).risk_score ≤ (score_finding (record f { severity = v }) p).risk_score
unfolding score_finding raw_score likelihood_of
score_finding_mono f v p h =
    let i = impact_mono f v p h in
    let w = weight_mono f.severity v h in
    clamp_mono (raw_score f p) (raw_score (record f { severity = v }) p)
      (rw (bonus_same f v p) (omega arith))

mfa_unlikely :
    (f : AnalysisFinding) (p : PrincipalRecord)
    → likelihood_of f (some (record p { mfa_enabled = true })) ≤ likelihood_of f (some p)
unfolding likelihood_of
mfa_unlikely f p = ground arith

-- Giving a principal MFA does not raise the score of its findings.
pub mfa_lowers :
    (f : AnalysisFinding) (p : PrincipalRecord)
    → (score_finding f (some (record p { mfa_enabled = true }))).risk_score
      ≤ (score_finding f (some p)).risk_score
unfolding score_finding raw_score privilege_bonus is_privileged impact_of
mfa_lowers f p = let l = mfa_unlikely f p in clamp_mono _ _ (omega arith)
