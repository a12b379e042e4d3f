-- ===== src/Scan/Persist.antt =====
-- What `_persist_findings` of app/services/scan_service.py promises.
use iam_sentinel_ese.Exceptions.Reopen.{group_key}
use iam_sentinel_ese.Models.{Finding, Group, Session, fresh_group_id, get_group}
use iam_sentinel_ese.Prelude.{
  All, All-append, All-both, All-mono, All-of, List, Option, Option-cases, String, [], ap, arith,
  inl, inr, none, refl, some, sym, ℕ, ◌++◌, ◌<◌, ◌∙◌, ◌∷◌, ◌≡◌, ◌≢◌,
}
use iam_sentinel_ese.Records.{AnalysisFinding}
use iam_sentinel_ese.Scan.{
  add_finding, find_group, fingerprint, get_or_create_group, new_group, persist_finding,
  persist_findings, redetected, write_detected, write_redetected,
}
use iam_sentinel_ese.Scan.Detect.{
  IsDetected, IsScanned, get-find_group, write_detected-IsScanned, write_redetected-IsScanned,
}
use iam_sentinel_ese.Table.Laws.{All-get, get-update_self, get_unique, key-lt-fresh}
use iam_sentinel_ese.Trail.{IsConsistent}

get-append_fresh :
    (g : Group) (gs : List Group)
    → All (λ (r : Group). r.id < g.id) gs
    → get_group g.id (gs ++ g ∷ []) ≡ some g
get-append_fresh g [] a = ground arith
get-append_fresh g (q ∷ gs) a = let below = a.0 in ground (arith, get-append_fresh g gs a.1)

-- Either way the finding has a group that the run has seen.
get_or_create-IsDetected :
    (account_id run_id : ℕ) (fp check_id : String) (principal_uid : Option String) (s : Session)
    → IsScanned run_id s
    → let (g, s') = get_or_create_group account_id run_id fp check_id principal_uid s in
      IsDetected run_id g s'
unfolding get_or_create_group write_detected write_redetected
get_or_create-IsDetected account_id run_id fp check_id principal_uid s c =
    elim (Option-cases (find_group account_id fp s.groups)) [
      | inl e ↦
          rw (get_or_create_group, e)
            (record {
              scanned = write_detected-IsScanned run_id (fresh_group e) s refl refl c;
              row = get-append_fresh (fresh_group e) s.groups (key-lt-fresh group_key s.groups);
              current = refl;
            })
      | inr (g, e) ↦
          rw (get_or_create_group, e)
            (record {
              scanned =
                  write_redetected-IsScanned run_id g s
                    (get-find_group account_id fp s.groups g c.consistent.distinct e)
                    c.consistent.distinct c;
              row =
                  get-update_self group_key g.id (redetected run_id) s.groups g (λ r. refl)
                    (get-find_group account_id fp s.groups g c.consistent.distinct e);
              current = refl;
            })
    ]
  where
    fresh_group : find_group account_id fp s.groups ≡ none → Group
    fresh_group e = new_group (fresh_group_id s.groups) account_id run_id fp check_id principal_uid

-- Filing the finding under its group.
add_finding-IsScanned :
    (run_id : ℕ) (f : AnalysisFinding) (g : Group) (s : Session)
    → IsDetected run_id g s
    → IsScanned run_id (add_finding run_id f (g, s))
add_finding-IsScanned run_id f g s d =
    let c = d.scanned in
    let only = get_unique group_key g.id s.groups g c.consistent.distinct d.row in
    record {
      consistent = record {
        distinct = c.consistent.distinct;
        audited = c.consistent.audited;
        mirrored =
            All-mono _ _ s.groups
              (λ r h.
                All-append _ s.findings _ h.1
                  ((λ e k. ap (λ (q : Group). q.current_status) (sym (h.0 (sym e)))), tt))
              (All-both _ _ s.groups only c.consistent.mirrored);
        history_known = c.consistent.history_known;
        findings_known = All-append _ s.findings _ c.consistent.findings_known (
          (All-get group_key (λ q. q.id < fresh_group_id s.groups) g.id s.groups g
              (key-lt-fresh group_key s.groups) d.row),
          tt,
        );
      };
      seen = c.seen;
      own =
          All-mono _ _ s.groups
            (λ r h.
              All-append _ s.findings _ h.1
                ((λ e k. ap (λ (q : Group). q.last_seen_run) (h.0 (sym e)) ∙ d.current), tt))
            (All-both _ _ s.groups only c.own);
    }

module _ (sha256 : String → String) (account_id run_id : ℕ) where
  persist_finding-IsScanned :
      (f : AnalysisFinding) (s : Session)
      → IsScanned run_id s
      → IsScanned run_id (persist_finding sha256 account_id run_id f s)
  unfolding persist_finding
  persist_finding-IsScanned f s c =
      let fp = fingerprint sha256 f.check_id f.principal_uid f.resource f.policy_uid in
      let (g, s') = get_or_create_group account_id run_id fp f.check_id f.principal_uid s in
      add_finding-IsScanned run_id f g s'
        (get_or_create-IsDetected account_id run_id fp f.check_id f.principal_uid s c)

  all-IsScanned :
      (fs : List AnalysisFinding) (s : Session)
      → IsScanned run_id s
      → IsScanned run_id (persist_findings sha256 account_id run_id fs s)
  unfolding persist_findings
  all-IsScanned [] s c = c
  all-IsScanned (f ∷ fs) s c = all-IsScanned fs _ (persist_finding-IsScanned f s c)

  -- Persisting the findings of a run that the tables do not know yet keeps the audit trail and the
  -- mirror.
  pub persist_findings-IsConsistent :
      (fs : List AnalysisFinding) (s : Session)
      → All (λ (f : Finding). f.run_id ≢ run_id) s.findings
      → All (λ (g : Group). g.last_seen_run ≢ some run_id) s.groups
      → IsConsistent s
      → IsConsistent (persist_findings sha256 account_id run_id fs s)
  persist_findings-IsConsistent fs s no_finding no_group c =
      (all-IsScanned fs s (record {
        consistent = c;
        seen = All-mono _ _ s.groups (λ g ne e. absurd (ne e)) no_group;
        own =
            All-of _ s.groups (λ g. All-mono _ _ s.findings (λ f ne e r. absurd (ne r)) no_finding);
      })).consistent
