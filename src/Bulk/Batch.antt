-- ===== src/Bulk/Batch.antt =====
-- What a batch of app/services/bulk_service.py does, whatever the service of its items.
use iam_sentinel_ese.Bulk.{
  BulkResult, Failure, bulk_assign, bulk_each, bulk_exception, bulk_found, bulk_item,
  bulk_transition, empty_result, kind_action, not_found, raised, record_batch_event, tally,
  unknown_item,
}
use iam_sentinel_ese.Collaboration.{assign}
use iam_sentinel_ese.Domain.Enums.{Status, status_eq}
use iam_sentinel_ese.Exceptions.{create_exception}
use iam_sentinel_ese.Models.{AuditEvent, BatchMeta, Group, Session, get_group}
use iam_sentinel_ese.Prelude.{
  List, Option, String, [], arith, count_by, count_by-append, if◌then◌else◌, nat_eq, none,
  option_eq, some, string_eq, ℕ, ◌+◌, ◌==◌, ◌∙◌, ◌∷◌, ◌≡◌,
}
use iam_sentinel_ese.Rbac.{Role, role_eq}
use iam_sentinel_ese.Service.{Action, Result, err, ok, ⊤}
use iam_sentinel_ese.Workflow.{transition}

-- how often an id is among the items that failed
abbrev pub failed_count : ℕ → List (ℕ × Failure) → ℕ
failed_count gid fs = count_by (λ (f : ℕ × Failure). f.0 == gid) fs

abbrev pub id_count : ℕ → List ℕ → ℕ
id_count gid ids = count_by (λ i. i == gid) ids

-- how often a result accounts for an id
abbrev pub accounted : ℕ → BulkResult → ℕ
accounted gid r = id_count gid r.succeeded + failed_count gid r.failed

accounted-unknown_item :
    (gid i : ℕ) (r : BulkResult)
    → accounted gid (unknown_item i r) ≡ accounted gid r + (if i == gid then 1 else 0)
accounted-unknown_item gid i r =
    ground (arith, count_by-append (λ (f : ℕ × Failure). f.0 == gid) r.failed ((i, not_found) ∷ []))

accounted-tally :
    (gid i : ℕ) (o : Result ⊤) (r : BulkResult)
    → accounted gid (tally i o r) ≡ accounted gid r + (if i == gid then 1 else 0)
accounted-tally gid i (ok _) r =
    ground (arith, count_by-append (λ j. j == gid) r.succeeded (i ∷ []))
accounted-tally gid i (err e) r =
    ground (arith, count_by-append (λ (f : ℕ × Failure). f.0 == gid) r.failed ((i, raised e) ∷ []))

module _ (service : ℕ → Action ⊤) where
  found_accounted :
      (gid i : ℕ) (o : Option Group) (r : BulkResult) (s : Session)
      → accounted gid (bulk_found service i o r s).0 ≡ accounted gid r + (if i == gid then 1 else 0)
  unfolding bulk_found
  found_accounted gid i none r s = accounted-unknown_item gid i r
  found_accounted gid i (some g) r s = accounted-tally gid i (service i s).0 r

  -- Every item of the batch is accounted for exactly once.
  each_accounted :
      (gid : ℕ) (ids : List ℕ) (r : BulkResult) (s : Session)
      → accounted gid (bulk_each service ids (r, s)).0 ≡ accounted gid r + id_count gid ids
  unfolding bulk_each bulk_item
  each_accounted gid [] r s = omega arith
  each_accounted gid (i ∷ ids) r s =
      let (r', s') = bulk_item service i (r, s) in
      each_accounted gid ids r' s'
      ∙ (let e = found_accounted gid i (get_group i s.groups) r s in omega arith)

  found_keeps :
      (P : Session → Type 0)
      → ((gid : ℕ) (s : Session) → P s → P (service gid s).1)
      → (i : ℕ) (o : Option Group) (r : BulkResult) (s : Session) → P s
      → P (bulk_found service i o r s).1
  unfolding bulk_found
  found_keeps P keep i none r s h = h
  found_keeps P keep i (some g) r s h = keep i s h

  -- An invariant that the service keeps, whether it returns or raises, is kept by the batch.
  pub bulk_each-keeps :
      (P : Session → Type 0)
      → ((gid : ℕ) (s : Session) → P s → P (service gid s).1)
      → (ids : List ℕ) (r : BulkResult) (s : Session) → P s
      → P (bulk_each service ids (r, s)).1
  unfolding bulk_each bulk_item
  bulk_each-keeps P keep [] r s h = h
  bulk_each-keeps P keep (i ∷ ids) r s h =
      let (r', s') = bulk_item service i (r, s) in
      bulk_each-keeps P keep ids r' s' (found_keeps P keep i (get_group i s.groups) r s h)

module _ (actor : Option ℕ) (action : String) (meta : BatchMeta) where
  pub record-result :
      (acc : BulkResult × Session) → (record_batch_event actor action meta acc).0 ≡ acc.0
  unfolding record_batch_event
  record-result acc = ground arith

  -- What does not look at the audit events outlives the summary.
  pub record-keeps :
      (P : Session → Type 0)
      → ((s : Session) (a : List AuditEvent) → P s → P (record s { audit = a }))
      → (r : BulkResult) (ids : List ℕ) (s : Session) → r.succeeded ≡ ids
      → P s
      → P (record_batch_event actor action meta (r, s)).1
  unfolding record_batch_event
  record-keeps P keep r [] s e h = rw e h
  record-keeps P keep r (i ∷ ids) s e h = rw e (keep s _ h)

-- In each of the three batches every id is accounted for, among those that succeeded or those that
-- failed, exactly as often as it was asked for.
pub bulk_accounts :
    (gid : ℕ) (ids : List ℕ) (st : Status) (actor assignee : Option ℕ) (memo : Option String)
    (reason : String) (author : ℕ) (role : Option Role) (expires_at : Option String) (s : Session)
    → (accounted gid (bulk_transition ids st actor memo s).0 ≡ id_count gid ids)
      × (accounted gid (bulk_assign ids assignee actor s).0 ≡ id_count gid ids)
      × (accounted gid (bulk_exception ids st reason author role expires_at s).0 ≡ id_count gid ids)
unfolding bulk_transition bulk_assign bulk_exception
bulk_accounts gid ids st actor assignee memo reason author role expires_at s = (
  rw record-result (
      each_accounted (λ i. transition i st actor memo) gid ids (empty_result "transition") s
      ∙ omega arith),
  rw record-result (
      each_accounted (λ i. assign i assignee actor) gid ids (empty_result "assign") s
      ∙ omega arith),
  rw record-result (
      each_accounted (λ i. create_exception i st reason author role expires_at) gid ids
        (empty_result (kind_action st)) s
      ∙ omega arith),
)
