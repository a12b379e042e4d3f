-- ===== src/Scan/Continuity.antt =====
-- What becomes of known groups across the scans of app/services/scan_service.py, and how many groups
-- a fingerprint has.
use mathlib.Core.Bool.{false≢true}
use iam_sentinel_ese.Domain.Enums.{Status, status_eq}
use iam_sentinel_ese.Exceptions.Reopen.{group_key}
use iam_sentinel_ese.Models.{Group, Session, fresh_group_id, get_group, update_group}
use iam_sentinel_ese.Prelude.{
  Bool, Bool-cases, List, Option, Option-cases, String, [], arith, count_by, count_by-append, false,
  if◌then◌else◌, inl, inr, nat_eq, none, option_eq, refl, some, string_eq, sym, true, ℕ, ◌++◌, ◌+◌,
  ◌==◌, ◌∙◌, ◌∷◌, ◌≡◌, ◌≢◌, ◌≤◌,
}
use iam_sentinel_ese.Records.{AnalysisFinding}
use iam_sentinel_ese.Scan.{
  find_group, fingerprint, get_or_create_group, is_group_of, new_group, persist_finding,
  persist_findings, redetected, write_detected, write_redetected,
}
use iam_sentinel_ese.Scan.Detect.{redetected_same}
use iam_sentinel_ese.Table.Laws.{get-update_ne, get-update_self}

-- What a scan may change of a known group: its last run, and its status if that was resolved.
pub record IsCarried (g g' : Group) : Type 0 where
  pub same_fingerprint : g'.fingerprint ≡ g.fingerprint
  pub same_account : g'.account_id ≡ g.account_id
  pub same_assignee : g'.assignee_id ≡ g.assignee_id
  pub same_status : g.current_status ≢ Status.resolved → g'.current_status ≡ g.current_status

-- the group with this id is still there, carried on from `g`
abbrev pub IsKept : ℕ → Group → Session → Type 0
IsKept gid g s = (g' : Group) × (get_group gid s.groups ≡ some g') × IsCarried g g'

-- a fingerprint has one group in an account
abbrev pub IsSingle : Session → Type 0
IsSingle s = (account_id : ℕ) (fp : String) → count_by (is_group_of account_id fp) s.groups ≤ 1

get-append_old :
    (gid : ℕ) (gs : List Group) (q g : Group)
    → get_group gid gs ≡ some g
    → get_group gid (gs ++ q ∷ []) ≡ some g
get-append_old gid [] q g h = absurd (cc)
get-append_old gid (r ∷ gs) q g h = let later = get-append_old gid gs q g in ground (arith, later)

IsCarried-on : (run_id : ℕ) (g g' : Group) → IsCarried g g' → IsCarried g (redetected run_id g')
IsCarried-on run_id g g' c = record {
  same_fingerprint = c.same_fingerprint;
  same_account = c.same_account;
  same_assignee = c.same_assignee;
  same_status = λ ne.
      let same = c.same_status ne in
      redetected_same g'.current_status (λ e. ne (sym same ∙ e)) ∙ same;
}

-- The update of one row, seen at any id.
updated_kept :
    (run_id gid i : ℕ) (g g' : Group) (gs : List Group)
    → get_group gid gs ≡ some g'
    → IsCarried g g'
    → (g'' : Group) × (get_group gid (update_group i (redetected run_id) gs) ≡ some g'')
      × IsCarried g g''
updated_kept run_id gid i g g' gs found c = elim (Bool-cases (i == gid)) [
  | inl e ↦
      let same : i ≡ gid = (nat_eq.beq_iff i gid).0 e in
      (
        redetected run_id g',
        rw same (get-update_self group_key gid (redetected run_id) gs g' (λ r. refl) found),
        IsCarried-on run_id g g' c,
      )
  | inr e ↦ (
    g',
    get-update_ne group_key i gid (redetected run_id) gs (λ r. refl)
          (λ same. false≢true (sym e ∙ (nat_eq.beq_iff i gid).1 same))
        ∙ found,
    c,
  )
]

count-update_redetected :
    (run_id i account_id : ℕ) (fp : String) (gs : List Group)
    → count_by (is_group_of account_id fp) (update_group i (redetected run_id) gs)
      ≡ count_by (is_group_of account_id fp) gs
count-update_redetected run_id i account_id fp [] = refl
count-update_redetected run_id i account_id fp (g ∷ gs) =
    ground (arith, count-update_redetected run_id i account_id fp gs)

find_group-none :
    (account_id : ℕ) (fp : String) (gs : List Group)
    → find_group account_id fp gs ≡ none
    → count_by (is_group_of account_id fp) gs ≡ 0
find_group-none account_id fp [] h = refl
find_group-none account_id fp (g ∷ gs) h = ground (arith, find_group-none account_id fp gs)

-- A group that no row matched takes the only place of its fingerprint.
new_single :
    (is_new : Bool) (n : ℕ) → n ≤ 1 → (is_new ≡ true → n ≡ 0) → n + (if is_new then 1 else 0) ≤ 1
new_single true n le z = let k = z refl in omega arith
new_single false n le z = omega arith

-- One call of `_get_or_create_group`.
module _ (account_id run_id : ℕ) (fp check_id : String) (principal_uid : Option String)
    (s : Session) where
  abbrev after : Session
  after = (get_or_create_group account_id run_id fp check_id principal_uid s).1

  abbrev fresh_group : Group
  fresh_group = new_group (fresh_group_id s.groups) account_id run_id fp check_id principal_uid

  get_or_create-IsKept : (gid : ℕ) (g : Group) → IsKept gid g s → IsKept gid g after
  unfolding get_or_create_group write_detected write_redetected
  get_or_create-IsKept gid g (g', found, c) =
      elim (Option-cases (find_group account_id fp s.groups)) [
        | inl e ↦
            rw (after, get_or_create_group, e)
              (g', get-append_old gid s.groups fresh_group g' found, c)
        | inr (q, e) ↦
            rw (after, get_or_create_group, e) (updated_kept run_id gid q.id g g' s.groups found c)
      ]

  appended_single :
      find_group account_id fp s.groups ≡ none
      → IsSingle s
      → (a : ℕ) (text : String) → count_by (is_group_of a text) (s.groups ++ fresh_group ∷ []) ≤ 1
  appended_single e u a text =
      rw (count_by-append (is_group_of a text) s.groups (fresh_group ∷ [])) (
        let all_in =
          new_single (is_group_of a text fresh_group) (count_by (is_group_of a text) s.groups)
            (u a text)
            (λ m.
              let same : account_id ≡ a = ground arith in
              let same_text : fp ≡ text = ground (arith, string_eq.beq_iff fp text) in
              rw (sym same, sym same_text) (find_group-none account_id fp s.groups e)) in
        omega arith)

  get_or_create-IsSingle : IsSingle s → IsSingle after
  unfolding get_or_create_group write_detected write_redetected
  get_or_create-IsSingle u = elim (Option-cases (find_group account_id fp s.groups)) [
    | inl e ↦ rw (after, get_or_create_group, e) (λ a text. appended_single e u a text)
    | inr (q, e) ↦
        rw (after, get_or_create_group, e)
          (λ a text. rw (count-update_redetected run_id q.id a text s.groups) (u a text))
  ]

module _ (sha256 : String → String) (account_id run_id : ℕ) where
  each_keeps :
      (gid : ℕ) (g : Group) (fs : List AnalysisFinding) (s : Session)
      → IsKept gid g s
      → IsKept gid g (persist_findings sha256 account_id run_id fs s)
  unfolding persist_findings persist_finding
  each_keeps gid g [] s h = h
  each_keeps gid g (f ∷ fs) s h = each_keeps gid g fs _ (
      get_or_create-IsKept account_id run_id
        (fingerprint sha256 f.check_id f.principal_uid f.resource f.policy_uid) f.check_id
        f.principal_uid s gid g h)

  -- A scan carries every known group on: it stays under its id with its fingerprint, account and
  -- assignee, and with its status unless that was resolved.
  pub persist_findings-IsCarried :
      (gid : ℕ) (g : Group) (fs : List AnalysisFinding) (s : Session)
      → get_group gid s.groups ≡ some g
      → (g' : Group) × (get_group gid (persist_findings sha256 account_id run_id fs s).groups
          ≡ some g')
        × IsCarried g g'
  persist_findings-IsCarried gid g fs s found = each_keeps gid g fs s (
    g,
    found,
    record {
      same_fingerprint = refl;
      same_account = refl;
      same_assignee = refl;
      same_status = λ ne. refl;
    },
  )

  -- Where every fingerprint has at most one group in an account, it still has after a scan.
  pub persist_findings-IsSingle :
      (fs : List AnalysisFinding) (s : Session)
      → IsSingle s
      → IsSingle (persist_findings sha256 account_id run_id fs s)
  unfolding persist_findings persist_finding
  persist_findings-IsSingle [] s u = u
  persist_findings-IsSingle (f ∷ fs) s u = persist_findings-IsSingle fs _ (
      get_or_create-IsSingle account_id run_id
        (fingerprint sha256 f.check_id f.principal_uid f.resource f.policy_uid) f.check_id
        f.principal_uid s u)
