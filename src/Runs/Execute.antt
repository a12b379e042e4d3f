-- ===== src/Runs/Execute.antt =====
-- app/services/scan_service.py: how a scan is created, queued and executed. The adapters, the checks and
-- the job queue are parameters: what an adapter reports and how it ends, how the analysis ends, and
-- whether the queue takes a job. `published` lists the run's columns at each commit, which is what a
-- concurrent poller can read.
use iam_sentinel_ese.Checks.Registry.{AnalysisResult}
use iam_sentinel_ese.Domain.Enums.{RunStatus}
use iam_sentinel_ese.Json.{Value, get_field, truth}
use iam_sentinel_ese.Prelude.{
  Bool, List, Option, String, [], count_by, false, if◌then◌else◌, min, none, not, some, ℕ, ◌++◌,
  ◌∷◌,
}
use iam_sentinel_ese.Records.{NormalizedDataset, Thresholds, thresholds_from}
use iam_sentinel_ese.Runs.{Account, Database, Run, get_account, get_run, update_run}
use iam_sentinel_ese.Runs.Persist.{
  is_other_completed, persist_graph_edges, persist_snapshot, persist_summary,
}
use iam_sentinel_ese.Scan.{persist_findings}

-- how a step of the scan ends: with a value, or with an exception of this text
pub data Ending (A : Type 0) : Type 0 where
  ended : A → Ending A
  threw : String → Ending A

-- what `execute_scan` and its callers return or raise
pub data ScanOutcome : Type 0 where
  scanned : ℕ → ScanOutcome
  run_missing account_missing : ℕ → ScanOutcome
  bad_thresholds : ScanOutcome
  scan_error : String → ScanOutcome

-- the run as the session's object, the other tables, and the commits so far
pub record Job : Type 0 where
  pub run : Run
  pub db : Database
  pub published : List Run

abbrev pub commit : Job → Job
commit j = record j {
  db = record j.db { runs = update_run j.run.id (λ r. record j.run { id = r.id }) j.db.runs };
  published = j.published ++ j.run ∷ [];
}

-- `reporter.update(pct, stage)`, and the callback that it runs
unfoldable pub report_progress : ℕ → String → Job → Job
report_progress pct stage j =
    commit
      (record j { run = record j.run { progress_pct = min 100 pct; progress_stage = some stage } })

abbrev pub report_all : List (ℕ × String) → Job → Job
report_all [] j = j
report_all ((pct, stage) ∷ updates) j = report_all updates (report_progress pct stage j)

-- the handler of `execute_scan`
unfoldable pub record_failure : String → Job → Job
record_failure text j = commit (record j {
  run = record j.run {
    status = RunStatus.failed;
    error_message = some text;
    finished_at = some j.db.tables.now;
  };
})

-- `_drift_level`
abbrev pub is_false : Value → Bool
is_false (truth b) = not b
is_false _ = false

unfoldable pub drift_level : Account → ℕ → List Run → ℕ
drift_level account run_id runs =
    if is_false (get_field "drift" account.source_config)
    then 0
    else count_by (is_other_completed account.id run_id) runs

unfoldable pub complete : ℕ → AnalysisResult → Job → Job
complete elapsed_ms result j = commit (record j {
  run = record j.run {
    composite_score = some result.composite_score;
    status = RunStatus.completed;
    progress_pct = 100;
    progress_stage = some "completed";
    finished_at = some j.db.tables.now;
    duration_ms = some elapsed_ms;
  };
})

-- what a scan reads from outside: `hashlib`, what `str` and `to_iso` print, how `int` reads a text, the
-- time that passes, how the account's adapter reports and ends, and how the analysis ends
pub record Surroundings : Type 0 where
  pub sha256 : String → String
  pub repr : Value → String
  pub show_time : ℕ → String
  pub parse : String → Option ℕ
  pub elapsed_ms : ℕ
  pub ingest : Account → ℕ → List (ℕ × String) × Ending NormalizedDataset
  pub analyze : NormalizedDataset → Thresholds → Ending (NormalizedDataset × AnalysisResult)

module _ (env : Surroundings) where
  -- from the persistence of the results to the end
  unfoldable pub persist_results : Account → NormalizedDataset → AnalysisResult → Job → Job
  persist_results account dataset result j =
      let snapshot = persist_snapshot env.repr env.show_time j.run.id dataset j.db in
      let graph = persist_graph_edges j.run.id result.graph_edges snapshot in
      let filed = record graph {
        tables = persist_findings env.sha256 account.id j.run.id result.findings graph.tables;
      } in
      record j { db = persist_summary env.sha256 account j.run.id result filed }

  unfoldable pub after_analysis :
      Account → Ending (NormalizedDataset × AnalysisResult) → Job → ScanOutcome × Job
  after_analysis account (threw text) j = (scan_error text, record_failure text j)
  after_analysis account (ended (dataset, result)) j = (
    scanned j.run.id,
    complete env.elapsed_ms result
        (persist_results account dataset result (report_progress 85 "Persisting results" j)),
  )

  unfoldable pub after_ingest :
      Account → Thresholds → Ending NormalizedDataset → Job → ScanOutcome × Job
  after_ingest account thresholds (threw text) j = (scan_error text, record_failure text j)
  after_ingest account thresholds (ended dataset) j =
      after_analysis account (env.analyze dataset thresholds) (
        report_progress 55 "Running checks"
          (record j { run = record j.run { status = RunStatus.analyzing } }))

  abbrev pub started : Database → Run → Job
  started db run = record {
    run = record run { started_at = some db.tables.now; status = RunStatus.ingesting };
    db = db;
    published = [];
  }

  -- `execute_scan`, once the run, its account and its thresholds are there
  unfoldable pub execute_job : Account → Thresholds → Database → Run → ScanOutcome × Job
  execute_job account thresholds db run =
      let reported = env.ingest account (drift_level account run.id db.runs) in
      after_ingest account thresholds reported.1 (report_all reported.0 (started db run))

  abbrev pub outcome_of : ScanOutcome × Job → ScanOutcome × Database × List Run
  outcome_of (outcome, j) = (outcome, j.db, j.published)

  abbrev pub with_thresholds :
      Account → Option Thresholds → Database → Run → ScanOutcome × Database × List Run
  with_thresholds account none db run = (bad_thresholds, db, [])
  with_thresholds account (some thresholds) db run =
      outcome_of (execute_job account thresholds db run)

  abbrev pub with_account : Option Account → Database → Run → ScanOutcome × Database × List Run
  with_account none db run = (account_missing run.account_id, db, [])
  with_account (some account) db run =
      with_thresholds account (thresholds_from env.parse run.thresholds) db run

  abbrev pub with_run : ℕ → Option Run → Database → ScanOutcome × Database × List Run
  with_run run_id none db = (run_missing run_id, db, [])
  with_run run_id (some run) db = with_account (get_account run.account_id db.accounts) db run

  unfoldable pub execute_scan : ℕ → Database → ScanOutcome × Database × List Run
  execute_scan run_id db = with_run run_id (get_run run_id db.runs) db
