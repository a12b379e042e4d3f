-- ===== src/Runs/Queue.antt =====
-- app/services/scan_service.py: how a run is created, executed at once, or handed to the job queue of
-- app/jobs.py. What the queue's `submit` raises is a parameter. `scanned` carries the id of the run
-- that is returned.
use iam_sentinel_ese.Domain.Enums.{RunStatus}
use iam_sentinel_ese.Prelude.{List, Option, String, [], none, some, ℕ, ◌++◌, ◌∷◌}
use iam_sentinel_ese.Prelude.Text.{concat_text}
use iam_sentinel_ese.Records.{Thresholds, or_else, thresholds_from, to_dict}
use iam_sentinel_ese.Runs.{Account, Database, Run, fresh_run_id, get_account, update_run}
use iam_sentinel_ese.Runs.Execute.{
  ScanOutcome, Surroundings, account_missing, bad_thresholds, execute_scan, scan_error, scanned,
}

abbrev pub new_run : ℕ → ℕ → Thresholds → String → Option ℕ → Run
new_run id account_id thresholds trigger triggered_by = record {
  id = id;
  account_id = account_id;
  status = RunStatus.queued;
  trigger = trigger;
  triggered_by = triggered_by;
  thresholds = to_dict thresholds;
  started_at = none;
  finished_at = none;
  duration_ms = none;
  error_message = none;
  progress_pct = 0;
  progress_stage = none;
  composite_score = none;
}

abbrev pub add_run :
    Account → Option Thresholds → String → Option ℕ → Database → ScanOutcome × Database
add_run account none trigger triggered_by db = (bad_thresholds, db)
add_run account (some thresholds) trigger triggered_by db =
    let id = fresh_run_id db.runs in
    (
      scanned id,
      record db { runs = db.runs ++ new_run id account.id thresholds trigger triggered_by ∷ [] },
    )

abbrev pub add_run_for :
    (String → Option ℕ)
    → ℕ
    → Option Account
    → Option Thresholds
    → String
    → Option ℕ
    → Database
    → ScanOutcome × Database
add_run_for parse account_id none thresholds trigger triggered_by db =
    (account_missing account_id, db)
add_run_for parse account_id (some account) thresholds trigger triggered_by db =
    add_run account (or_else thresholds (thresholds_from parse account.source_config)) trigger
      triggered_by db

-- `_create_run`
unfoldable pub create_run :
    (String → Option ℕ)
    → ℕ
    → Option Thresholds
    → String
    → Option ℕ
    → Database
    → ScanOutcome × Database
create_run parse account_id thresholds trigger triggered_by db =
    add_run_for parse account_id (get_account account_id db.accounts) thresholds trigger
      triggered_by db

abbrev pub execute_created :
    Surroundings → ScanOutcome × Database → ScanOutcome × Database × List Run
execute_created env (scanned run_id, db) = execute_scan env run_id db
execute_created env (outcome, db) = (outcome, db, [])

unfoldable pub run_scan :
    Surroundings
    → ℕ
    → Option Thresholds
    → String
    → Option ℕ
    → Database
    → ScanOutcome × Database × List Run
run_scan env account_id thresholds trigger triggered_by db =
    execute_created env (create_run env.parse account_id thresholds trigger triggered_by db)

-- the handler of a rejected job: the run fails, if its row is there
abbrev pub rejected_run : String → String → Run → Run
rejected_run now text r = record r {
  status = RunStatus.failed;
  error_message = some text;
  finished_at = some now;
}

abbrev pub submit_created : Option String → ScanOutcome × Database → ScanOutcome × Database
submit_created (some refusal) (scanned run_id, db) =
    let text = concat_text ("Failed to enqueue scan: " ∷ refusal ∷ []) in
    (
      scan_error text,
      record db { runs = update_run run_id (rejected_run db.tables.now text) db.runs },
    )
submit_created refusal result = result

unfoldable pub enqueue_scan :
    (String → Option ℕ)
    → Option String
    → ℕ
    → Option Thresholds
    → String
    → Option ℕ
    → Database
    → ScanOutcome × Database
enqueue_scan parse refusal account_id thresholds trigger triggered_by db =
    submit_created refusal (create_run parse account_id thresholds trigger triggered_by db)
