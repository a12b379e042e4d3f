-- ===== src/Runs/Phases.antt =====
-- The order in which a poller sees the states of a run that `execute_scan` of
-- app/services/scan_service.py executes.
use iam_sentinel_ese.Checks.Registry.{AnalysisResult}
use iam_sentinel_ese.Domain.Enums.{RunStatus, is_terminal}
use iam_sentinel_ese.Prelude.{
  All, All-append, All-mono, List, String, [], arith, false, min, refl, some, true, ℕ, ◌++◌, ◌∷◌,
  ◌≡◌, ◌≤◌,
}
use iam_sentinel_ese.Records.{NormalizedDataset, Thresholds, thresholds_from}
use iam_sentinel_ese.Runs.{Account, Database, Run, get_account, get_run}
use iam_sentinel_ese.Runs.Execute.{
  Ending, Job, Surroundings, after_analysis, after_ingest, commit, complete, drift_level, ended,
  execute_job, execute_scan, persist_results, record_failure, report_all, report_progress, started,
  threw,
}

unfoldable pub phase : RunStatus → ℕ
phase RunStatus.queued = 0
phase RunStatus.ingesting = 1
phase RunStatus.analyzing = 2
phase RunStatus.completed = 3
phase RunStatus.failed = 3
phase RunStatus.canceled = 3

-- a committed row from which the run is still going on
abbrev pub IsGoing : Run → Type 0
IsGoing r = is_terminal r.status ≡ false

-- no row is in a later phase than the row after it
abbrev pub IsAscending : List Run → Type 0
IsAscending [] = Unit
IsAscending (r ∷ rs) = All (λ q. phase r.status ≤ phase q.status) rs × IsAscending rs

append-IsAscending :
    (rs : List Run) (q : Run)
    → IsAscending rs
    → All (λ r. phase r.status ≤ phase q.status) rs
    → IsAscending (rs ++ q ∷ [])
append-IsAscending [] q h k = (tt, tt)
append-IsAscending (r ∷ rs) q h k = (
  All-append (λ p. phase r.status ≤ phase p.status) rs (q ∷ []) h.0 (k.0, tt),
  append-IsAscending rs q h.1 k.1,
)

-- The commits of a job that is still going on, none in a later phase than the job.
pub record IsRunning (j : Job) : Type 0 where
  pub going : IsGoing j.run
  pub earlier : All (λ r. IsGoing r × (phase r.status ≤ phase j.run.status)) j.published
  pub ascending : IsAscending j.published

-- the rows that were committed: all but the last are going on, the last is terminal
abbrev pub IsStory : List Run → Type 0
IsStory rows =
    (before : List Run) × (r : Run) × (rows ≡ before ++ r ∷ [])
    × All IsGoing before
    × (is_terminal r.status ≡ true)
    × IsAscending rows

going-le-terminal : (p q : RunStatus) → is_terminal q ≡ true → phase p ≤ phase q
unfolding phase is_terminal
going-le-terminal p q e = ground arith

commit-IsRunning : (j : Job) → IsRunning j → IsRunning (commit j)
commit-IsRunning j h = record {
  going = h.going;
  earlier = All-append _ j.published (j.run ∷ []) h.earlier ((h.going, omega arith), tt);
  ascending =
      append-IsAscending j.published j.run h.ascending
        (All-mono _ _ j.published (λ r k. k.1) h.earlier);
}

report_progress-IsRunning :
    (pct : ℕ) (stage : String) (j : Job) → IsRunning j → IsRunning (report_progress pct stage j)
unfolding report_progress
report_progress-IsRunning pct stage j h =
    commit-IsRunning
      (record j { run = record j.run { progress_pct = min 100 pct; progress_stage = some stage } })
      (record { going = h.going; earlier = h.earlier; ascending = h.ascending })

report_all-IsRunning :
    (updates : List (ℕ × String)) (j : Job) → IsRunning j → IsRunning (report_all updates j)
report_all-IsRunning [] j h = h
report_all-IsRunning ((pct, stage) ∷ updates) j h =
    report_all-IsRunning updates (report_progress pct stage j)
      (report_progress-IsRunning pct stage j h)

-- The last commit, of a run that is terminal now.
last-IsStory :
    (j : Job) (r : Run)
    → IsRunning j
    → is_terminal r.status ≡ true
    → IsStory (j.published ++ r ∷ [])
last-IsStory j r h e = (
  j.published,
  r,
  refl,
  All-mono _ _ j.published (λ q k. k.0) h.earlier,
  e,
  append-IsAscending j.published r h.ascending
      (All-mono _ _ j.published (λ q k. going-le-terminal q.status r.status e) h.earlier),
)

-- A progress report changes no status.
report_all-status :
    (updates : List (ℕ × String)) (j : Job) → (report_all updates j).run.status ≡ j.run.status
unfolding report_progress
report_all-status [] j = refl
report_all-status ((pct, stage) ∷ updates) j =
    report_all-status updates (report_progress pct stage j)

-- The job goes on when it turns from ingesting to analyzing.
still-IsRunning :
    (j : Job)
    → IsRunning j
    → j.run.status ≡ RunStatus.ingesting
    → IsRunning (record j { run = record j.run { status = RunStatus.analyzing } })
unfolding is_terminal phase
still-IsRunning j h e = record {
  going = refl;
  earlier =
      All-mono _ _ j.published (λ r k. (k.0, ingesting_below r.status j.run.status e k.1))
        h.earlier;
  ascending = h.ascending;
}
  where
    ingesting_below : (p q : RunStatus) → q ≡ RunStatus.ingesting → phase p ≤ phase q → phase p ≤ 2
    ingesting_below p q e k = ground arith

module _ (env : Surroundings) where
  analysis-IsStory :
      (account : Account) (ending : Ending (NormalizedDataset × AnalysisResult)) (j : Job)
      → IsRunning j
      → IsStory (after_analysis env account ending j).1.published
  unfolding after_analysis complete persist_results record_failure is_terminal
  analysis-IsStory account (threw reason) j h = last-IsStory j _ h refl
  analysis-IsStory account (ended (dataset, result)) j h =
      last-IsStory (report_progress 85 "Persisting results" j) _
        (report_progress-IsRunning 85 "Persisting results" j h) refl

  ingest-IsStory :
      (account : Account) (thresholds : Thresholds) (ending : Ending NormalizedDataset) (j : Job)
      → IsRunning j
      → j.run.status ≡ RunStatus.ingesting
      → IsStory (after_ingest env account thresholds ending j).1.published
  unfolding after_ingest record_failure is_terminal
  ingest-IsStory account thresholds (threw reason) j h e = last-IsStory j _ h refl
  ingest-IsStory account thresholds (ended dataset) j h e =
      let analyzing_job = record j { run = record j.run { status = RunStatus.analyzing } } in
      analysis-IsStory account (env.analyze dataset thresholds)
        (report_progress 55 "Running checks" analyzing_job)
        (report_progress-IsRunning 55 "Running checks" analyzing_job (still-IsRunning j h e))

  -- What a concurrent poller reads of a run while it is executed: states that go on, in the order
  -- ingesting, analyzing, and one terminal state, which is the last.
  pub execute_scan-IsStory :
      (run_id : ℕ) (db : Database) (run : Run) (account : Account) (thresholds : Thresholds)
      → get_run run_id db.runs ≡ some run
      → get_account run.account_id db.accounts ≡ some account
      → thresholds_from env.parse run.thresholds ≡ some thresholds
      → IsStory (execute_scan env run_id db).2
  unfolding execute_scan execute_job is_terminal
  execute_scan-IsStory run_id db run account thresholds found owner read =
      let reported = env.ingest account (drift_level account run.id db.runs) in
      rw found (
        rw owner (
          rw read (
            ingest-IsStory account thresholds reported.1
              (report_all reported.0 (started env db run))
              (report_all-IsRunning reported.0 (started env db run)
                (record { going = refl; earlier = tt; ascending = tt }))
              (report_all-status reported.0 (started env db run)))))
