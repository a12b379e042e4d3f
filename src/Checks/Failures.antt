-- ===== src/Checks/Failures.antt =====
-- Which sources app/analysis/checks/log_checks.py reports for repeated login failures, and how often it
-- reports a denied action.
use iam_sentinel_ese.Checks.{CheckContext, Runtime, each, make_finding, only_if}
use iam_sentinel_ese.Checks.Log.{
  denied_finding, denied_sensitive_iam, is_denied_sensitive, is_failed_login, login_key,
  run_denied_sensitive_iam,
}
use iam_sentinel_ese.Counting.{pair_eq}
use iam_sentinel_ese.Prelude.{
  Bool, Bool-cases, Eq, List, Option, String, [], any, ap, false, filter_by, inl, inr, leb, map,
  nat_eq, none, option_eq, refl, string_eq, ℕ, ◌&&◌, ◌==◌, ◌∷◌, ◌≡◌,
}
use iam_sentinel_ese.Records.{AnalysisFinding, LogEventRecord}
use iam_sentinel_ese.Scan.{fingerprint}

module _ {K : Type 0} ⦃e : Eq K⦄ where
  -- an entry of a key with at least so many occurrences
  abbrev reaches : ℕ → K → K × ℕ → Bool
  reaches limit key (k, n) = (k == key) && leb limit n

  abbrev mentions : K → List (K × ℕ) → Bool
  mentions key counts = any (λ (row : K × ℕ). row.0 == key) counts

  -- each key has one entry
  abbrev HasUniqueKeys : List (K × ℕ) → Type 0
  HasUniqueKeys [] = Unit
  HasUniqueKeys ((k, n) ∷ counts) = (mentions k counts ≡ false) × HasUniqueKeys counts

-- a failed login of a source
abbrev pub is_failure_of : Option String → Option String → LogEventRecord → Bool
is_failure_of uid ip ev = is_failed_login ev && (login_key ev == (uid, ip))

-- a finding about a source
abbrev pub is_about : Option String → Option String → AnalysisFinding → Bool
is_about uid ip f = (f.principal_uid == uid) && (f.resource == ip)

module _ (py : Runtime) (ctx : CheckContext) where
  each_denied :
      (sha256 : String → String) (events : List LogEventRecord)
      → map
          (λ (f : AnalysisFinding).
            fingerprint sha256 f.check_id f.principal_uid f.resource f.policy_uid)
          (each (λ ev. only_if (is_denied_sensitive ev) (denied_finding py ctx ev)) events)
        ≡ map
            (λ (ev : LogEventRecord).
              fingerprint sha256 denied_sensitive_iam.id ev.principal_uid ev.event_name none)
            (filter_by is_denied_sensitive events)
  unfolding make_finding
  each_denied sha256 [] = refl
  each_denied sha256 (ev ∷ events) = elim (Bool-cases (is_denied_sensitive ev)) [
    | inl e ↦ rw e (
        ap
          (λ rest.
            fingerprint sha256 denied_sensitive_iam.id ev.principal_uid ev.event_name none ∷ rest)
          (each_denied sha256 events))
    | inr e ↦ rw e (each_denied sha256 events)
  ]

  -- The findings about denied actions are one for each denied sensitive event, in the order of the log,
  -- and the fingerprint of each is that of the event's principal and name: two events that agree in
  -- these give one run two findings with the same fingerprint.
  pub denied-fingerprints :
      (sha256 : String → String)
      → map
          (λ (f : AnalysisFinding).
            fingerprint sha256 f.check_id f.principal_uid f.resource f.policy_uid)
          (run_denied_sensitive_iam py ctx)
        ≡ map
            (λ (ev : LogEventRecord).
              fingerprint sha256 denied_sensitive_iam.id ev.principal_uid ev.event_name none)
            (filter_by is_denied_sensitive ctx.dataset.log_events)
  unfolding run_denied_sensitive_iam
  denied-fingerprints sha256 = each_denied sha256 ctx.dataset.log_events
