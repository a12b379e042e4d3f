-- ===== src/Runs/Enqueued.antt =====
-- What becomes of a run that `enqueue_scan` of app/services/scan_service.py hands to the job queue.
use mathlib.Core.Path.{subst}
use iam_sentinel_ese.Domain.Enums.{RunStatus, is_terminal}
use iam_sentinel_ese.Prelude.{
  List, Option, String, [], arith, none, refl, some, sym, ℕ, ◌++◌, ◌∷◌, ◌≡◌, ◌≤◌,
}
use iam_sentinel_ese.Prelude.Text.{concat_text}
use iam_sentinel_ese.Records.{Thresholds, thresholds_from-to_dict}
use iam_sentinel_ese.Runs.{Account, Database, Run, fresh_run_id, get_account, get_run}
use iam_sentinel_ese.Runs.Execute.{Surroundings, scanned}
use iam_sentinel_ese.Runs.Finished.{IsFinishedAs, execute_scan-IsFinished}
use iam_sentinel_ese.Runs.Queue.{create_run, enqueue_scan, execute_created, new_run, rejected_run}
use iam_sentinel_ese.Table.Laws.{get-update_self, key-get}

get-append_above :
    (runs : List Run) (r : Run) → fresh_run_id runs ≤ r.id → get_run r.id (runs ++ r ∷ []) ≡ some r
get-append_above [] r h = ground arith
get-append_above (q ∷ runs) r h = ground (arith, get-append_above runs r)

-- the stored run is queued and has not ended
abbrev pub IsQueued : ℕ → Database → Type 0
IsQueued run_id db =
    (r : Run) × (get_run run_id db.runs ≡ some r)
    × (r.status ≡ RunStatus.queued)
    × (r.finished_at ≡ none)

-- A run that is enqueued does not stay queued. If the queue rejects the job, the run is failed at
-- once, with the text of the `ScanError` that is raised. If the queue takes the job, the run that is
-- returned is stored as queued, and the job's execution leaves it in a terminal state that agrees
-- with the outcome. This is for an account that exists and thresholds that are given.
pub enqueue_scan-IsFinished :
    (env : Surroundings) (account_id : ℕ) (thresholds : Thresholds) (trigger : String)
    (triggered_by : Option ℕ) (refusal : String) (db : Database) (account : Account)
    → get_account account_id db.accounts ≡ some account
    → let rejected =
        enqueue_scan env.parse
          (some refusal)
          account_id
          (some thresholds)
          trigger
          triggered_by
          db in
      let queued =
        enqueue_scan env.parse none account_id (some thresholds) trigger triggered_by db in
      let executed = execute_created env queued in
      IsFinishedAs (fresh_run_id db.runs) rejected.0 rejected.1
      × (queued.0 ≡ scanned (fresh_run_id db.runs))
      × IsQueued (fresh_run_id db.runs) queued.1
      × IsFinishedAs (fresh_run_id db.runs) executed.0 executed.1
unfolding enqueue_scan create_run is_terminal
enqueue_scan-IsFinished env account_id thresholds trigger triggered_by refusal db account owner =
    let run = new_run (fresh_run_id db.runs) account.id thresholds trigger triggered_by in
    let text = concat_text ("Failed to enqueue scan: " ∷ refusal ∷ []) in
    let row = get-append_above db.runs run (omega arith) in
    let owned =
      subst (λ i. get_account i db.accounts ≡ some account)
        (sym (key-get (λ (a : Account). a.id) account_id db.accounts account owner)) owner in
    rw owner (
      (
        rejected_run db.tables.now text run,
        get-update_self (λ (r : Run). r.id) (fresh_run_id db.runs) (rejected_run db.tables.now text)
            (db.runs ++ run ∷ []) run (λ r. refl) row,
        refl,
        refl,
        (refl, refl),
      ),
      refl,
      (run, row, refl, refl),
      execute_scan-IsFinished env (fresh_run_id db.runs) (record db { runs = db.runs ++ run ∷ [] })
          run account thresholds row owned (thresholds_from-to_dict env.parse thresholds),
    )
