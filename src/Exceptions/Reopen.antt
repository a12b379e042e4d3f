-- ===== src/Exceptions/Reopen.antt =====
-- Exceptions and statuses after an exception has been closed and its group reopened, in
-- app/services/exception_service.py.
use iam_sentinel_ese.Table
use iam_sentinel_ese.Domain.Enums.{Status}
use iam_sentinel_ese.Exceptions.{is_active_of, is_exception_status}
use iam_sentinel_ese.Exceptions.Active.{active_count, active_count-revoke, exception_key, revoked}
use iam_sentinel_ese.Exceptions.Coverage.{IsCoveredBy, exception_expects, opened_expects}
use iam_sentinel_ese.Models.{Exception, Group, update_exception, update_group}
use iam_sentinel_ese.Prelude.{
  All, All-both, All-mono, Bool-cases, List, String, arith, false, inl, inr, refl, some, sym, true,
  ℕ, ◌+◌, ◌∙◌, ◌≡◌, ◌≢◌,
}
use iam_sentinel_ese.Table.Laws.{All-update, Distinct}
use iam_sentinel_ese.Workflow.Machine.{Allowed}

abbrev pub group_key : Group → ℕ
group_key g = g.id

abbrev pub reopened : Group → Group
reopened g = record g { current_status = Status.opened }

-- Every exception state may be left for `open`.
pub Allowed-reopen : (st : Status) → is_exception_status st ≡ true → Allowed st Status.opened
unfolding is_exception_status
Allowed-reopen Status.suppressed h = Allowed.reopen_suppressed
Allowed-reopen Status.accepted_risk h = Allowed.reopen_accepted
Allowed-reopen _ h = ground arith

module _ (e : Exception) (now : String) (es : List Exception) (keys : Distinct exception_key es)
    (row : Table.get exception_key e.id es ≡ some e) where
  -- A covered group with an active exception is in an exception state.
  pub active_is_exception :
      (g : Group)
      → IsCoveredBy es g
      → is_active_of g.id e ≡ true
      → is_exception_status g.current_status ≡ true
  active_is_exception g c a = elim (Bool-cases (is_exception_status g.current_status)) [
    | inl h ↦ h
    | inr h ↦
        let n : active_count g.id es ≡ 0 = c ∙ (rw h refl) in
        let m = active_count-revoke g.id e.id now es e keys row in
        absurd (
          let k : active_count g.id (update_exception e.id (revoked now) es) + 1 ≡ 0 =
            rw a at m ∙ n in
          omega arith)
  ]

  -- The groups that the exception does not belong to stay covered.
  pub revoke_other :
      (g : Group)
      → e.group_id ≢ g.id
      → IsCoveredBy es g
      → IsCoveredBy (update_exception e.id (revoked now) es) g
  revoke_other g ne c =
      let m = active_count-revoke g.id e.id now es e keys row in
      let no_match : is_active_of g.id e ≡ false = ground arith in
      (let k : active_count g.id (update_exception e.id (revoked now) es) + 0
            ≡ active_count g.id es =
          rw no_match at m in
        omega arith)
      ∙ c

  -- Its own group is covered once it is open.
  pub revoke_own :
      (g : Group)
      → is_active_of g.id e ≡ true
      → IsCoveredBy es g
      → IsCoveredBy (update_exception e.id (revoked now) es) (reopened g)
  revoke_own g a c =
      let m = active_count-revoke g.id e.id now es e keys row in
      let k : active_count g.id (update_exception e.id (revoked now) es) + 1
          ≡ active_count g.id es =
        rw a at m in
      let n : active_count g.id es ≡ 1 =
        c ∙ exception_expects g.current_status (active_is_exception g c a) in
      (let z : active_count g.id (update_exception e.id (revoked now) es) ≡ 0 = omega arith in z)
      ∙ sym (opened_expects Status.opened refl)

-- Revoking an active exception and reopening its group.
pub reopen_counted :
    (e : Exception) (g : Group) (now : String) (es : List Exception) (gs : List Group)
    → Distinct exception_key es
    → Table.get exception_key e.id es ≡ some e
    → is_active_of g.id e ≡ true
    → All (IsCoveredBy es) gs
    → All (IsCoveredBy (update_exception e.id (revoked now) es)) (update_group g.id reopened gs)
reopen_counted e g now es gs keys row a c =
    let own : e.group_id ≡ g.id = ground arith in
    All-update group_key (IsCoveredBy es) (IsCoveredBy (update_exception e.id (revoked now) es))
      g.id reopened gs
      (λ r same h.
        let b : is_active_of r.id e ≡ true = rw same a in revoke_own e now es keys row r b h)
      (λ r ne h. revoke_other e now es keys row r (λ k. ne (sym k ∙ own)) h) c

-- Revoking an active exception of a group that is not there.
pub revoke_counted :
    (e : Exception) (now : String) (es : List Exception) (gs : List Group)
    → Distinct exception_key es
    → Table.get exception_key e.id es ≡ some e
    → All (λ (r : Group). r.id ≢ e.group_id) gs
    → All (IsCoveredBy es) gs
    → All (IsCoveredBy (update_exception e.id (revoked now) es)) gs
revoke_counted e now es gs keys row absent c =
    All-mono _ _ gs (λ r h. revoke_other e now es keys row r (λ k. h.0 (sym k)) h.1)
      (All-both _ _ gs absent c)
