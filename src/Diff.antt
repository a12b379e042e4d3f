-- ===== src/Diff.antt =====
-- app/services/diff_service.py: what changed between two runs of an account, by the fingerprints of
-- their findings. `same` is Python's `==` on evidence values. Where a set is walked the order here is
-- that of the findings; cards that agree in risk and title have no order in the program. The signed
-- differences of risks and scores are left out.
pub mod Partition
use mathlib.Core.Option.{map as option_map}
use iam_sentinel_ese.Checks.Activity.{latest}
use iam_sentinel_ese.Compliance.{set_entry}
use iam_sentinel_ese.Counting.{pair_eq}
use iam_sentinel_ese.Domain.Enums.{Category, Severity, Status, is_completed, severity_eq, status_eq}
use iam_sentinel_ese.Json.{Fields, Value, entry, get_field, no_fields}
use iam_sentinel_ese.LeastPrivilege.{sorted_set}
use iam_sentinel_ese.Models.{Finding, Group, Session, get_group}
use iam_sentinel_ese.Prelude.{
  Bool, List, Option, String, [], contains, count_by, false, filter_by, if◌then◌else◌, leb, ltb,
  map, nat_eq, none, not, option_eq, some, string_eq, true, ℕ, ◌&&◌, ◌++◌, ◌+◌, ◌==◌, ◌||◌, ◌∷◌,
}
use iam_sentinel_ese.Prelude.Text.{string_leb}
use iam_sentinel_ese.Records.{listed}
use iam_sentinel_ese.Runs.{Database, Run, get_run}

pub data DiffError : Type 0 where
  run_not_found : ℕ → DiffError
  different_accounts same_run : DiffError

pub record EvidenceChange : Type 0 where
  pub key : String
  pub old : Value
  pub new : Value

pub record FindingDelta : Type 0 where
  pub severity_before : Severity
  pub severity_after : Severity
  pub risk_before : ℕ
  pub risk_after : ℕ
  pub status_before : Status
  pub status_after : Status
  pub evidence_changes : List EvidenceChange

abbrev pub is_changed : List EvidenceChange → Bool
is_changed [] = false
is_changed (c ∷ cs) = true

unfoldable pub has_changes : FindingDelta → Bool
has_changes d =
    not (d.severity_before == d.severity_after)
    || not (d.risk_before == d.risk_after)
    || not (d.status_before == d.status_after)
    || is_changed d.evidence_changes

pub record DiffCard : Type 0 where
  pub fingerprint : String
  pub group_id : ℕ
  pub check_id : String
  pub title : String
  pub severity : Severity
  pub category : Category
  pub principal_uid : Option String
  pub risk_score : ℕ
  pub delta : Option FindingDelta

pub record RunDiff : Type 0 where
  pub run_a : Run
  pub run_b : Run
  pub new : List DiffCard
  pub changed : List DiffCard
  pub resolved : List DiffCard
  pub unchanged_count : ℕ
  pub risk_before : ℕ
  pub risk_after : ℕ

abbrev pub is_no_card : List DiffCard → Bool
is_no_card [] = true
is_no_card (c ∷ cs) = false

-- `RunDiff.is_empty`
unfoldable pub shows_nothing : RunDiff → Bool
shows_nothing d = is_no_card d.new && is_no_card d.changed && is_no_card d.resolved

abbrev pub field_names : Fields → List String
field_names no_fields = []
field_names (entry name v rest) = name ∷ field_names rest

abbrev pub changes_at : (Value → Value → Bool) → Fields → Fields → List String → List EvidenceChange
changes_at same earlier later [] = []
changes_at same earlier later (key ∷ keys) =
    let rest = changes_at same earlier later keys in
    if same (get_field key earlier) (get_field key later)
    then rest
    else record { key = key; old = get_field key earlier; new = get_field key later } ∷ rest

-- `_evidence_changes`
unfoldable pub evidence_changes : (Value → Value → Bool) → Fields → Fields → List EvidenceChange
evidence_changes same earlier later =
    changes_at same earlier later (sorted_set (field_names earlier ++ field_names later))

-- `_delta`
unfoldable pub delta_of : (Value → Value → Bool) → Finding → Finding → FindingDelta
delta_of same older newer = record {
  severity_before = older.severity;
  severity_after = newer.severity;
  risk_before = older.risk_score;
  risk_after = newer.risk_score;
  status_before = older.status;
  status_after = newer.status;
  evidence_changes = evidence_changes same older.evidence newer.evidence;
}

-- `_card`
unfoldable pub card_of : Finding → String → Option FindingDelta → DiffCard
card_of f fp delta = record {
  fingerprint = fp;
  group_id = f.group_id;
  check_id = f.check_id;
  title = f.title;
  severity = f.severity;
  category = f.category;
  principal_uid = f.principal_uid;
  risk_score = f.risk_score;
  delta = delta;
}

abbrev pub group_fingerprint : ℕ → List Group → Option String
group_fingerprint id groups = option_map (λ (g : Group). g.fingerprint) (get_group id groups)

-- `{fp: finding for finding, fp in rows}`: of several findings with one fingerprint the last stays
abbrev pub put_finding : Finding → Option String → List (String × Finding) → List (String × Finding)
put_finding f none entries = entries
put_finding f (some fp) entries = set_entry fp f entries

abbrev pub collect :
    ℕ → List Group → List Finding → List (String × Finding) → List (String × Finding)
collect run_id groups [] entries = entries
collect run_id groups (f ∷ fs) entries = collect run_id groups fs (
    if f.run_id == run_id
    then put_finding f (group_fingerprint f.group_id groups) entries
    else entries)

-- `_findings_by_fingerprint`
unfoldable pub findings_by_fingerprint : Session → ℕ → List (String × Finding)
findings_by_fingerprint s run_id = collect run_id s.groups s.findings []

abbrev pub keys : List (String × Finding) → List String
keys [] = []
keys ((k, f) ∷ entries) = k ∷ keys entries

-- `xs.keys() - ys.keys()`, as cards
abbrev pub cards_only_in : List (String × Finding) → List (String × Finding) → List DiffCard
cards_only_in xs ys =
    map (λ (e : String × Finding). card_of e.1 e.0 none)
      (filter_by (λ (e : String × Finding). not (contains e.0 (keys ys))) xs)

abbrev pub find_entry : String → List (String × Finding) → Option Finding
find_entry fp [] = none
find_entry fp ((k, f) ∷ entries) = if k == fp then some f else find_entry fp entries

abbrev pub delta_card : (Value → Value → Bool) → String → Finding → Finding → DiffCard
delta_card same fp older newer = card_of newer fp (some (delta_of same older newer))

-- the cards of the fingerprints in both
abbrev pub cards_in_both :
    (Value → Value → Bool) → List (String × Finding) → List (String × Finding) → List DiffCard
cards_in_both same [] newer = []
cards_in_both same ((fp, f) ∷ older) newer =
    listed (option_map (delta_card same fp f) (find_entry fp newer))
      (cards_in_both same older newer)

abbrev pub is_delta_changed : Option FindingDelta → Bool
is_delta_changed none = false
is_delta_changed (some d) = has_changes d

abbrev pub is_changed_card : DiffCard → Bool
is_changed_card c = is_delta_changed c.delta

-- `_by_risk`
abbrev pub goes_before : DiffCard → DiffCard → Bool
goes_before c d =
    ltb d.risk_score c.risk_score || ((c.risk_score == d.risk_score) && string_leb c.title d.title)

abbrev pub insert_card : DiffCard → List DiffCard → List DiffCard
insert_card c [] = c ∷ []
insert_card c (d ∷ ds) =
    let rest = insert_card c ds in if goes_before c d then c ∷ d ∷ ds else d ∷ rest

unfoldable pub by_risk : List DiffCard → List DiffCard
by_risk [] = []
by_risk (c ∷ cs) = insert_card c (by_risk cs)

abbrev pub total_risk : List (String × Finding) → ℕ
total_risk [] = 0
total_risk ((fp, f) ∷ entries) = f.risk_score + total_risk entries

unfoldable pub diff_ordered : (Value → Value → Bool) → Session → Run → Run → RunDiff
diff_ordered same s run_a run_b =
    let older = findings_by_fingerprint s run_a.id in
    let newer = findings_by_fingerprint s run_b.id in
    let both = cards_in_both same older newer in
    record {
      run_a = run_a;
      run_b = run_b;
      new = by_risk (cards_only_in newer older);
      changed = by_risk (filter_by is_changed_card both);
      resolved = by_risk (cards_only_in older newer);
      unchanged_count = count_by (λ c. not (is_changed_card c)) both;
      risk_before = total_risk older;
      risk_after = total_risk newer;
    }

pub data Compared : Type 0 where
  compared : RunDiff → Compared
  refused : DiffError → Compared

abbrev pub diff_runs : (Value → Value → Bool) → Session → ℕ → ℕ → Option Run → Option Run → Compared
diff_runs same s a b none found = refused (run_not_found a)
diff_runs same s a b (some r) none = refused (run_not_found b)
diff_runs same s a b (some r) (some q) =
    if not (r.account_id == q.account_id)
    then refused different_accounts
    else if r.id == q.id
    then refused same_run
    else if ltb q.id r.id
    then compared (diff_ordered same s q r)
    else compared (diff_ordered same s r q)

unfoldable pub diff : (Value → Value → Bool) → ℕ → ℕ → Database → Compared
diff same run_a_id run_b_id db =
    diff_runs same db.tables run_a_id run_b_id (get_run run_a_id db.runs) (get_run run_b_id db.runs)

-- the ids of the completed runs of an account, from the newest on
abbrev pub insert_id : ℕ → List ℕ → List ℕ
insert_id i [] = i ∷ []
insert_id i (j ∷ js) = let rest = insert_id i js in if leb j i then i ∷ j ∷ js else j ∷ rest

abbrev pub completed_ids : ℕ → List Run → List ℕ
completed_ids account_id [] = []
completed_ids account_id (r ∷ runs) =
    let rest = completed_ids account_id runs in
    if (r.account_id == account_id) && is_completed r.status then insert_id r.id rest else rest

abbrev pub first_two : List ℕ → Option (ℕ × ℕ)
first_two (latest ∷ previous ∷ ids) = some (previous, latest)
first_two _ = none

unfoldable pub default_diff_pair : ℕ → Database → Option (ℕ × ℕ)
default_diff_pair account_id db = first_two (completed_ids account_id db.runs)
