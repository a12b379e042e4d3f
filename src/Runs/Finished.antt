-- ===== src/Runs/Finished.antt =====
-- How `execute_scan` of app/services/scan_service.py leaves the run.
use mathlib.Core.Path.{subst}
use iam_sentinel_ese.Checks.Registry.{AnalysisResult}
use iam_sentinel_ese.Domain.Enums.{RunStatus, is_terminal}
use iam_sentinel_ese.Prelude.{
  List, String, [], ap, false, min, none, refl, some, true, ℕ, ◌∙◌, ◌∷◌, ◌≡◌, ◌≢◌,
}
use iam_sentinel_ese.Records.{NormalizedDataset, Thresholds, thresholds_from}
use iam_sentinel_ese.Runs.{Account, Database, Run, get_account, get_run}
use iam_sentinel_ese.Runs.Execute.{
  Ending, Job, ScanOutcome, Surroundings, account_missing, after_analysis, after_ingest,
  bad_thresholds, commit, complete, drift_level, ended, execute_job, execute_scan, persist_results,
  record_failure, report_all, report_progress, run_missing, scan_error, scanned, started, threw,
}
use iam_sentinel_ese.Runs.Persist.{persist_graph_edges, persist_snapshot, persist_summary}
use iam_sentinel_ese.Table.Laws.{get-key, get-update_self, key-get}

-- the run's row is in its table
abbrev pub HasRow : Job → Type 0
HasRow j = (q : Run) × (get_run j.run.id j.db.runs ≡ some q)

-- A commit writes the object's columns to the row.
pub get-commit : (j : Job) → HasRow j → get_run j.run.id (commit j).db.runs ≡ some j.run
get-commit j (q, found) =
    get-update_self (λ (r : Run). r.id) j.run.id (λ r. record j.run { id = r.id }) j.db.runs q
      (λ r. refl) found
    ∙ ap (λ i. some (record j.run { id = i }))
        (key-get (λ (r : Run). r.id) j.run.id j.db.runs q found)

commit-HasRow : (j : Job) → HasRow j → HasRow (commit j)
commit-HasRow j h = (j.run, get-commit j h)

-- a job of the given run whose row is there
abbrev pub IsJobOf : ℕ → Job → Type 0
IsJobOf run_id j = (j.run.id ≡ run_id) × HasRow j

report_progress-IsJobOf :
    (run_id pct : ℕ) (stage : String) (j : Job)
    → IsJobOf run_id j
    → IsJobOf run_id (report_progress pct stage j)
unfolding report_progress
report_progress-IsJobOf run_id pct stage j h = (
  h.0,
  commit-HasRow
      (record j { run = record j.run { progress_pct = min 100 pct; progress_stage = some stage } })
      h.1,
)

report_all-IsJobOf :
    (run_id : ℕ) (updates : List (ℕ × String)) (j : Job)
    → IsJobOf run_id j
    → IsJobOf run_id (report_all updates j)
report_all-IsJobOf run_id [] j h = h
report_all-IsJobOf run_id ((pct, stage) ∷ updates) j h =
    report_all-IsJobOf run_id updates (report_progress pct stage j)
      (report_progress-IsJobOf run_id pct stage j h)

-- what an outcome says of the run's row
abbrev pub IsFinal : ScanOutcome → Run → Type 0
IsFinal (scanned id) r =
    (r.status ≡ RunStatus.completed) × (r.progress_pct ≡ 100) × (r.composite_score ≢ none)
IsFinal (scan_error text) r = (r.status ≡ RunStatus.failed) × (r.error_message ≡ some text)
IsFinal (run_missing id) r = false ≡ true
IsFinal (account_missing id) r = false ≡ true
IsFinal bad_thresholds r = false ≡ true

-- the row is there, in a terminal state that agrees with the outcome
abbrev pub IsFinishedAs : ℕ → ScanOutcome → Database → Type 0
IsFinishedAs run_id outcome db =
    (r : Run) × (get_run run_id db.runs ≡ some r)
    × (is_terminal r.status ≡ true)
    × (r.finished_at ≡ some db.tables.now)
    × IsFinal outcome r

record_failure-IsFinishedAs :
    (run_id : ℕ) (text : String) (j : Job)
    → IsJobOf run_id j
    → IsFinishedAs run_id (scan_error text) (record_failure text j).db
unfolding record_failure is_terminal
record_failure-IsFinishedAs run_id text j h = (
  failed_run,
  subst (λ i. get_run i (record_failure text j).db.runs ≡ some failed_run) h.0
      (get-commit (record j { run = failed_run }) h.1),
  refl,
  refl,
  (refl, refl),
)
  where
    failed_run : Run
    failed_run = (record j.run {
      status = RunStatus.failed;
      error_message = some text;
      finished_at = some j.db.tables.now;
    })

complete-IsFinishedAs :
    (run_id elapsed_ms : ℕ) (result : AnalysisResult) (j : Job)
    → IsJobOf run_id j
    → IsFinishedAs run_id (scanned j.run.id) (complete elapsed_ms result j).db
unfolding complete is_terminal
complete-IsFinishedAs run_id elapsed_ms result j h = (
  done,
  subst (λ i. get_run i (complete elapsed_ms result j).db.runs ≡ some done) h.0
      (get-commit (record j { run = done }) h.1),
  refl,
  refl,
  (refl, refl, λ e. cc),
)
  where
    done : Run
    done = (record j.run {
      composite_score = some result.composite_score;
      status = RunStatus.completed;
      progress_pct = 100;
      progress_stage = some "completed";
      finished_at = some j.db.tables.now;
      duration_ms = some elapsed_ms;
    })

module _ (env : Surroundings) where
  persist_results-IsJobOf :
      (run_id : ℕ) (account : Account) (dataset : NormalizedDataset) (result : AnalysisResult)
      (j : Job)
      → IsJobOf run_id j
      → IsJobOf run_id (persist_results env account dataset result j)
  unfolding persist_results persist_snapshot persist_graph_edges persist_summary
  persist_results-IsJobOf run_id account dataset result j h = (h.0, h.1)

  analysis-IsFinishedAs :
      (run_id : ℕ) (account : Account) (ending : Ending (NormalizedDataset × AnalysisResult))
      (j : Job)
      → IsJobOf run_id j
      → IsFinishedAs run_id
          (after_analysis env account ending j).0
          (after_analysis env account ending j).1.db
  unfolding after_analysis
  analysis-IsFinishedAs run_id account (threw reason) j h =
      record_failure-IsFinishedAs run_id reason j h
  analysis-IsFinishedAs run_id account (ended (dataset, result)) j h =
      complete-IsFinishedAs run_id env.elapsed_ms result
        (persist_results env account dataset result (report_progress 85 "Persisting results" j))
        (persist_results-IsJobOf run_id account dataset result
          (report_progress 85 "Persisting results" j)
          (report_progress-IsJobOf run_id 85 "Persisting results" j h))

  ingest-IsFinishedAs :
      (run_id : ℕ) (account : Account) (thresholds : Thresholds) (ending : Ending NormalizedDataset)
      (j : Job)
      → IsJobOf run_id j
      → IsFinishedAs run_id
          (after_ingest env account thresholds ending j).0
          (after_ingest env account thresholds ending j).1.db
  unfolding after_ingest
  ingest-IsFinishedAs run_id account thresholds (threw reason) j h =
      record_failure-IsFinishedAs run_id reason j h
  ingest-IsFinishedAs run_id account thresholds (ended dataset) j h =
      let analyzing_job = record j { run = record j.run { status = RunStatus.analyzing } } in
      analysis-IsFinishedAs run_id account (env.analyze dataset thresholds)
        (report_progress 55 "Running checks" analyzing_job)
        (report_progress-IsJobOf run_id 55 "Running checks" analyzing_job (h.0, h.1))

  -- Whatever the adapter reports and however the adapter and the analysis end, executing a run whose
  -- account and thresholds can be read ends, and leaves the run in a terminal state with the time at
  -- which it ended: completed with a score if `execute_scan` returns the run, and failed with the
  -- exception's text if it raises a `ScanError`; it does one of these two.
  pub execute_scan-IsFinished :
      (run_id : ℕ) (db : Database) (run : Run) (account : Account) (thresholds : Thresholds)
      → get_run run_id db.runs ≡ some run
      → get_account run.account_id db.accounts ≡ some account
      → thresholds_from env.parse run.thresholds ≡ some thresholds
      → IsFinishedAs run_id (execute_scan env run_id db).0 (execute_scan env run_id db).1
  unfolding execute_scan execute_job
  execute_scan-IsFinished run_id db run account thresholds found owner read =
      let reported = env.ingest account (drift_level account run.id db.runs) in
      rw found (
        rw owner (
          rw read (
            ingest-IsFinishedAs run_id account thresholds reported.1
              (report_all reported.0 (started env db run))
              (report_all-IsJobOf run_id reported.0 (started env db run) (
                key-get (λ (r : Run). r.id) run_id db.runs run found,
                (run, get-key (λ (r : Run). r.id) run_id db.runs run found),
              )))))
