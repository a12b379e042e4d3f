-- ===== src/Risk.antt =====
-- app/analysis/risk.py: the composite risk score of a finding. The score before rounding is kept
-- times twenty, which makes 0.55, 0.25 and 0.20 whole numbers; rounding is Python's, half to even.
pub mod Bounds
use iam_sentinel_ese.Domain.Enums.{Category, Severity, base_weight, severity_eq}
use iam_sentinel_ese.Json.{Value, get_field, number}
use iam_sentinel_ese.Prelude.{
  Bool, List, Option, String, [], contains, false, if◌then◌else◌, leb, ltb, max, min, nat_eq, none,
  not, option_eq, some, string_eq, true, ℕ, ◌%◌, ◌&&◌, ◌*◌, ◌+◌, ◌-◌, ◌/◌, ◌==◌, ◌||◌, ◌∷◌,
}
use iam_sentinel_ese.Prelude.Text.{lower}
use iam_sentinel_ese.Rbac.{role_eq}
use iam_sentinel_ese.Records.{AnalysisFinding, PrincipalRecord}
use iam_sentinel_ese.Scan.{or_empty}

abbrev pub is_privilege : Category → Bool
is_privilege Category.privilege = true
is_privilege _ = false

-- `max(1, min(5, score))`
abbrev pub five_step : ℕ → ℕ
five_step score = max 1 (min 5 score)

abbrev pub blast_impact : Option PrincipalRecord → ℕ
blast_impact none = 3
blast_impact (some p) =
    if leb 75 p.blast_radius_score then 5 else if leb 50 p.blast_radius_score then 4 else 3

-- `_impact`
unfoldable pub impact_of : AnalysisFinding → Option PrincipalRecord → ℕ
impact_of f p =
    let by_blast = blast_impact p in
    let by_category = if is_privilege f.category then max by_blast 4 else by_blast in
    five_step (if f.severity == Severity.critical then 5 else by_category)

-- `finding.evidence.get("failure_count")` where it is an `int`
abbrev pub failure_count : Value → Option ℕ
failure_count (number n) = some n
failure_count _ = none

abbrev pub many_failures : Option ℕ → Bool
many_failures none = false
many_failures (some n) = leb 10 n

abbrev pub exposure : ℕ → Option PrincipalRecord → ℕ
exposure score none = score
exposure score (some p) =
    let exposed = if p.active && p.console_access && not p.mfa_enabled then score + 1 else score in
    if not p.active then exposed - 1 else exposed

-- `_likelihood`
unfoldable pub likelihood_of : AnalysisFinding → Option PrincipalRecord → ℕ
likelihood_of f p = five_step (
    exposure (if many_failures (failure_count (get_field "failure_count" f.evidence)) then 4 else 3)
      p)

abbrev pub admin_roles : List String
admin_roles = "admin" ∷ "administrator" ∷ "root" ∷ []

-- `_is_privileged`
unfoldable pub is_privileged : PrincipalRecord → AnalysisFinding → Bool
is_privileged p f = is_privilege f.category || contains (lower (or_empty p.role)) admin_roles

abbrev pub blast_bonus : Option PrincipalRecord → ℕ
blast_bonus none = 0
blast_bonus (some p) = if leb 75 p.blast_radius_score then 8 else 0

unfoldable pub privilege_bonus : Option PrincipalRecord → AnalysisFinding → ℕ
privilege_bonus none f = 0
privilege_bonus (some p) f = if is_privileged p f then 5 else 0

-- twenty times `raw`
unfoldable pub raw_score : AnalysisFinding → Option PrincipalRecord → ℕ
raw_score f p =
    11 * base_weight f.severity
    + 100 * impact_of f p
    + 80 * likelihood_of f p
    + 20 * blast_bonus p
    + 20 * privilege_bonus p f

-- `int(round(n / 20))`
unfoldable pub round_twentieths : ℕ → ℕ
round_twentieths n =
    let q = n / 20 in let r = n % 20 in if ltb 10 r || ((r == 10) && (q % 2 == 1)) then q + 1 else q

-- `_clamp`
unfoldable pub clamp : ℕ → ℕ
clamp n = round_twentieths (min 2000 n)

unfoldable pub score_finding : AnalysisFinding → Option PrincipalRecord → AnalysisFinding
score_finding f p = record f {
  risk_score = clamp (raw_score f p);
  likelihood = likelihood_of f p;
  impact = impact_of f p;
}

-- `posture_grade`
unfoldable pub posture_grade : ℕ → String
posture_grade score =
    if leb 90 score
    then "A"
    else if leb 80 score
    then "B"
    else if leb 70 score
    then "C"
    else if leb 60 score
    then "D"
    else "F"
