-- ===== src/LeastPrivilege.antt =====
-- app/analysis/least_privilege.py: what a principal was granted against what it used, and the policy
-- that is suggested instead. A set is a list of which only membership is asked, until it is sorted.
-- `insufficient_reason` keeps which gate failed; `reason_text` and `summary` are the texts.
pub mod Build
pub mod Listed
pub mod Scoped
pub mod Suggested
use iam_sentinel_ese.Json.{
  Fields, Value, Values, array, entry, has_field, item, no_fields, no_values, object, string,
}
use iam_sentinel_ese.Policy.{
  actions, granted_actions, is_allow, is_listed, not_actions, resources, statements,
}
use iam_sentinel_ese.Policy.Actions.{grants_action, is_sensitive_action, sensitive_actions}
use iam_sentinel_ese.Prelude.{
  Bool, List, Option, String, [], any, false, filter_by, if◌then◌else◌, leb, length, ltb, nat_eq,
  none, not, option_eq, some, string_eq, true, ℕ, ◌&&◌, ◌*◌, ◌++◌, ◌==◌, ◌||◌, ◌∷◌,
}
use iam_sentinel_ese.Prelude.Text.{concat_text, string_leb}
use iam_sentinel_ese.Records.{PolicyRecord}

abbrev pub min_window_days : ℕ
min_window_days = 14

abbrev pub min_principal_events : ℕ
min_principal_events = 3

-- why no policy is suggested
pub data Reason : Type 0 where
  short_window few_events unsupported_forms : Reason

-- `_sensitive`
abbrev pub sensitive_of : List String → List String
sensitive_of actions = filter_by (λ a. is_sensitive_action a sensitive_actions) actions

-- `_is_exercised`
unfoldable pub is_exercised : String → List String → Bool
is_exercised granted_action used = any (λ u. grants_action (granted_action ∷ []) u) used

-- `sorted` on texts, in which an element that is already listed is not listed again
abbrev pub insert_text : String → List String → List String
insert_text a [] = a ∷ []
insert_text a (x ∷ xs) =
    let rest = insert_text a xs in
    if a == x then x ∷ xs else if string_leb a x then a ∷ x ∷ xs else x ∷ rest

unfoldable pub sorted_set : List String → List String
sorted_set [] = []
sorted_set (a ∷ xs) = insert_text a (sorted_set xs)

abbrev pub or_star : List String → List String
or_star [] = "*" ∷ []
or_star (r ∷ rs) = r ∷ rs

-- `pol.actions(st) or (["*"] if pol.not_actions(st) else [])`
abbrev pub acts_or : List String → List String → List String
acts_or (a ∷ acts) excluded = a ∷ acts
acts_or [] excluded = if is_listed excluded then "*" ∷ [] else []

-- `_action_resources`, one row for each action of each statement; the sets of equal actions are
-- joined where they are read
abbrev pub rows_of : List String → List String → List (String × List String)
rows_of [] scope = []
rows_of (a ∷ acts) scope = (a, scope) ∷ rows_of acts scope

abbrev pub statements_of_all : List PolicyRecord → List Fields
statements_of_all [] = []
statements_of_all (q ∷ qs) = statements q.document ++ statements_of_all qs

module _ (repr : Value → String) where
  abbrev pub acts_of : Fields → List String
  acts_of st = acts_or (actions repr st) (not_actions repr st)

  -- `set(pol.resources(st)) or {"*"}`
  abbrev pub scope_of : Fields → List String
  scope_of st = or_star (resources repr st)

  abbrev pub statement_rows : Fields → List (String × List String)
  statement_rows st = if is_allow repr st then rows_of (acts_of st) (scope_of st) else []

  abbrev pub rows_of_all : List Fields → List (String × List String)
  rows_of_all [] = []
  rows_of_all (st ∷ sts) = statement_rows st ++ rows_of_all sts

  unfoldable pub action_resources : List PolicyRecord → List (String × List String)
  action_resources policies = rows_of_all (statements_of_all policies)

  -- a statement of a form that the structural model does not evaluate
  abbrev pub is_unsupported : Fields → Bool
  is_unsupported st =
      not (is_allow repr st)
      || has_field "Condition" st
      || is_listed (not_actions repr st)
      || has_field "NotResource" st

  -- `_has_unsupported_forms`
  unfoldable pub has_unsupported_forms : List PolicyRecord → Bool
  has_unsupported_forms policies = any is_unsupported (statements_of_all policies)

-- the union of the resources of the rows whose action passes a test
abbrev pub resources_where : (String → Bool) → List (String × List String) → List String
resources_where p [] = []
resources_where p ((a, res) ∷ rows) =
    let rest = resources_where p rows in if p a then res ++ rest else rest

-- `_resources_for`
unfoldable pub resources_for : String → List (String × List String) → List String
resources_for action rows =
    if any (λ (row : String × List String). row.0 == action) rows
    then sorted_set (resources_where (λ a. a == action) rows)
    else or_star (sorted_set (resources_where (λ a. grants_action (a ∷ []) action) rows))

-- equality and order of the keys of `by_res`
abbrev pub texts_beq : List String → List String → Bool
texts_beq [] [] = true
texts_beq (a ∷ xs) (b ∷ ys) = (a == b) && texts_beq xs ys
texts_beq _ _ = false

abbrev pub texts_leb : List String → List String → Bool
texts_leb [] bs = true
texts_leb (a ∷ xs) [] = false
texts_leb (a ∷ xs) (b ∷ ys) = let rest = texts_leb xs ys in if a == b then rest else string_leb a b

-- an item of `by_res`: resources with their actions
abbrev pub ResourceGroup : Type 0
ResourceGroup = List String × List String

-- `by_res.setdefault(res, []).append(action)`
abbrev pub add_action : List String → String → List ResourceGroup → List ResourceGroup
add_action res action [] = (res, action ∷ []) ∷ []
add_action res action ((key, acts) ∷ groups) =
    let rest = add_action res action groups in
    if texts_beq key res then (key, acts ++ action ∷ []) ∷ groups else (key, acts) ∷ rest

abbrev pub group_actions :
    List String → List (String × List String) → List ResourceGroup → List ResourceGroup
group_actions [] rows groups = groups
group_actions (a ∷ acts) rows groups =
    group_actions acts rows (add_action (resources_for a rows) a groups)

-- `sorted(by_res.items())`
abbrev pub insert_group : ResourceGroup → List ResourceGroup → List ResourceGroup
insert_group g [] = g ∷ []
insert_group g (h ∷ hs) =
    let rest = insert_group g hs in if texts_leb g.0 h.0 then g ∷ h ∷ hs else h ∷ rest

abbrev pub sort_groups : List ResourceGroup → List ResourceGroup
sort_groups [] = []
sort_groups (g ∷ gs) = insert_group g (sort_groups gs)

abbrev pub strings : List String → Values
strings [] = no_values
strings (s ∷ ss) = item (string s) (strings ss)

-- `list(res) if len(res) > 1 else res[0]`
abbrev pub resource_value : List String → Value
resource_value (r ∷ []) = string r
resource_value rs = array (strings rs)

abbrev pub statement_of : ResourceGroup → Fields
statement_of (res, acts) =
    entry "Effect" (string "Allow")
      (entry "Action" (array (strings acts)) (entry "Resource" (resource_value res) no_fields))

abbrev pub statement_values : List ResourceGroup → Values
statement_values [] = no_values
statement_values (g ∷ gs) = item (object (statement_of g)) (statement_values gs)

module _ (repr : Value → String) where
  -- `_build_policy`
  unfoldable pub build_policy : List String → List PolicyRecord → Value
  build_policy used policies = object (
      entry "Version" (string "2012-10-17") (
        entry "Statement"
          (array (
            statement_values
              (sort_groups (group_actions (sorted_set used) (action_resources repr policies) []))))
          no_fields))

pub record LeastPrivilegeRecommendation : Type 0 where
  pub principal_uid : String
  pub granted_sensitive : List String
  pub unused_sensitive : List String
  pub used_actions : List String
  pub window_days : ℕ
  pub event_count : ℕ
  pub confident : Bool
  pub insufficient_reason : Option Reason
  pub suggested_policy : Option Value

unfoldable pub exceeds_threshold : LeastPrivilegeRecommendation → Bool
exceeds_threshold rec =
    is_listed rec.unused_sensitive
    && leb (3 * length rec.granted_sensitive) (5 * length rec.unused_sensitive)

abbrev pub confident_of : Option Reason → Bool
confident_of none = true
confident_of (some r) = false

abbrev pub kept_actions : List String → List String → List String
kept_actions granted used = filter_by (λ u. grants_action granted u) used

module _ (repr : Value → String) where
  abbrev pub reason_of : List PolicyRecord → ℕ → ℕ → Option Reason
  reason_of policies event_count window_days =
      if ltb window_days min_window_days
      then some short_window
      else if ltb event_count min_principal_events
      then some few_events
      else if has_unsupported_forms repr policies
      then some unsupported_forms
      else none

  abbrev pub suggestion : Option Reason → List String → List PolicyRecord → Option Value
  suggestion (some r) used policies = none
  suggestion none used policies = some (build_policy repr used policies)

  unfoldable pub recommend :
      String → List String → List PolicyRecord → List String → ℕ → ℕ → LeastPrivilegeRecommendation
  recommend principal_uid granted policies used event_count window_days =
      let granted_sensitive = filter_by (λ a. not (a == "*")) (sensitive_of granted) in
      let confirmed = kept_actions granted used in
      let reason = reason_of policies event_count window_days in
      record {
        principal_uid = principal_uid;
        granted_sensitive = sorted_set granted_sensitive;
        unused_sensitive =
            sorted_set (filter_by (λ g. not (is_exercised g used)) granted_sensitive);
        used_actions = sorted_set confirmed;
        window_days = window_days;
        event_count = event_count;
        confident = confident_of reason;
        insufficient_reason = reason;
        suggested_policy = suggestion reason confirmed policies;
      }

  -- `principal_granted_actions` of app/analysis/checks/_util.py, for the policies of a principal
  abbrev pub granted_by_policies : List PolicyRecord → List String
  granted_by_policies [] = []
  granted_by_policies (q ∷ qs) = granted_actions repr q.document ++ granted_by_policies qs

-- the texts of the reasons
unfoldable pub reason_text : (ℕ → String) → LeastPrivilegeRecommendation → Reason → String
reason_text show rec short_window = concat_text (
    "insufficient activity history: only "
    ∷ show rec.window_days
    ∷ " day(s) of logs observed (need >= "
    ∷ show min_window_days
    ∷ ")"
    ∷ [])
reason_text show rec few_events = concat_text (
    "insufficient activity for this principal: only "
    ∷ show rec.event_count
    ∷ " event(s) observed (need >= "
    ∷ show min_principal_events
    ∷ ")"
    ∷ [])
reason_text show rec unsupported_forms =
    "the source policy uses Deny, Condition, NotAction, or NotResource, which this tool's structural model does not evaluate"

abbrev pub tail_of : Reason → String
tail_of unsupported_forms =
    "Review the policy manually — a generated policy could silently broaden effective access by dropping the unsupported form."
tail_of _ = "Broaden log coverage before removing grants."

abbrev pub confident_summary : (ℕ → String) → LeastPrivilegeRecommendation → String
confident_summary show rec =
    if is_listed rec.used_actions
    then concat_text (
        "Based on "
        ∷ show rec.window_days
        ∷ " days of activity ("
        ∷ show rec.event_count
        ∷ " events), this principal used "
        ∷ show (length rec.used_actions)
        ∷ " of its granted action(s). Suggested least-privilege policy grants only those."
        ∷ [])
    else concat_text (
        "This principal used none of its "
        ∷ show (length rec.granted_sensitive)
        ∷ " sensitive granted action(s) in the observed "
        ∷ show rec.window_days
        ∷ "-day window ("
        ∷ show rec.event_count
        ∷ " events seen). Suggested policy grants nothing — consider detaching all policies."
        ∷ [])

abbrev pub summary_of : (ℕ → String) → LeastPrivilegeRecommendation → Option Reason → String
summary_of show rec none = confident_summary show rec
summary_of show rec (some why) = concat_text (
    "Cannot generate a confident least-privilege policy — "
    ∷ reason_text show rec why
    ∷ ". "
    ∷ tail_of why
    ∷ [])

-- the `summary` of a recommendation
unfoldable pub summary : (ℕ → String) → LeastPrivilegeRecommendation → String
summary show rec = summary_of show rec rec.insufficient_reason
