-- ===== src/Tests/Runs.antt =====
-- An account with one queued run, an adapter that reports twice, and an analysis that throws.
use iam_sentinel_ese.Checks.Registry.{AnalysisResult}
use iam_sentinel_ese.Domain.Enums.{RunStatus}
use iam_sentinel_ese.Json.{no_fields}
use iam_sentinel_ese.Prelude.{List, [], map, none, refl, some, ℕ, ◌∷◌, ◌≡◌}
use iam_sentinel_ese.Records.{thresholds_from, thresholds_from-to_dict, to_dict}
use iam_sentinel_ese.Runs.{Account, Database, Run, fresh_run_id}
use iam_sentinel_ese.Runs.Enqueued.{IsQueued, enqueue_scan-IsFinished}
use iam_sentinel_ese.Runs.Execute.{
  Surroundings, after_analysis, after_ingest, complete, drift_level, ended, execute_job,
  execute_scan, persist_results, record_failure, report_progress, scanned, threw,
}
use iam_sentinel_ese.Runs.Finished.{IsFinishedAs, execute_scan-IsFinished}
use iam_sentinel_ese.Runs.Phases.{IsStory, execute_scan-IsStory}
use iam_sentinel_ese.Runs.Queue.{enqueue_scan, execute_created, new_run}
use iam_sentinel_ese.Tests.Checks.{limits, observed}
use iam_sentinel_ese.Tests.Data.{tables}

abbrev demo : Account
demo = record { id = 1; source_type = "file"; source_config = no_fields }

abbrev queued_run : Run
queued_run = new_run 7 1 limits "manual" none

abbrev stored : Database
stored = record {
  tables = tables;
  accounts = demo ∷ [];
  runs = queued_run ∷ [];
  summaries = [];
  principals = [];
  policies = [];
  log_events = [];
  edges = [];
}

abbrev outside : Surroundings
outside = record {
  sha256 = λ t. t;
  repr = λ v. "";
  show_time = λ t. "";
  parse = λ t. none;
  elapsed_ms = 5;
  ingest = λ a drift. ((10, "Fetching") ∷ (40, "Normalizing") ∷ [], ended observed);
  analyze = λ dataset thresholds. threw "boom";
}

-- what the analysis finds in a run that ends well
abbrev scored_result : AnalysisResult
scored_result = record {
  findings = [];
  composite_score = 100;
  counts_by_severity = [];
  counts_by_category = [];
  compliance_summary = [];
  graph_edges = [];
}

abbrev outside_ok : Surroundings
outside_ok = record outside { analyze = λ dataset thresholds. ended (dataset, scored_result) }

abbrev story : Surroundings → List (RunStatus × ℕ)
story env = map (λ (r : Run). (r.status, r.progress_pct)) (execute_scan env 7 stored).2

failed-story :
    story outside
    ≡ (RunStatus.ingesting, 10)
      ∷ (RunStatus.ingesting, 40)
      ∷ (RunStatus.analyzing, 55)
      ∷ (RunStatus.failed, 55)
      ∷ []
unfolding execute_scan execute_job after_ingest after_analysis report_progress record_failure
    thresholds_from to_dict drift_level
failed-story = refl

completed-story :
    story outside_ok
    ≡ (RunStatus.ingesting, 10)
      ∷ (RunStatus.ingesting, 40)
      ∷ (RunStatus.analyzing, 55)
      ∷ (RunStatus.analyzing, 85)
      ∷ (RunStatus.completed, 100)
      ∷ []
unfolding execute_scan execute_job after_ingest after_analysis report_progress record_failure
    thresholds_from to_dict drift_level complete persist_results
completed-story = refl

readable : thresholds_from outside.parse queued_run.thresholds ≡ some limits
readable = thresholds_from-to_dict outside.parse limits

execute_scan-IsFinished_example :
    IsFinishedAs 7 (execute_scan outside 7 stored).0 (execute_scan outside 7 stored).1
execute_scan-IsFinished_example =
    execute_scan-IsFinished outside 7 stored queued_run demo limits refl refl readable

execute_scan-IsStory_example : IsStory (execute_scan outside_ok 7 stored).2
execute_scan-IsStory_example =
    execute_scan-IsStory outside_ok 7 stored queued_run demo limits refl refl readable

enqueue_scan-IsFinished_example :
    let rejected =
      enqueue_scan outside.parse (some "pool is shut down") 1 (some limits) "manual" none stored in
    let queued = enqueue_scan outside.parse none 1 (some limits) "manual" none stored in
    let executed = execute_created outside queued in
    IsFinishedAs (fresh_run_id stored.runs) rejected.0 rejected.1
    × (queued.0 ≡ scanned (fresh_run_id stored.runs))
    × IsQueued (fresh_run_id stored.runs) queued.1
    × IsFinishedAs (fresh_run_id stored.runs) executed.0 executed.1
enqueue_scan-IsFinished_example =
    enqueue_scan-IsFinished outside 1 limits "manual" none "pool is shut down" stored demo refl
