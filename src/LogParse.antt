-- ===== src/LogParse.antt =====
-- app/domain/logparse.py: log events from CloudTrail's JSON, and the IAM action of an event; and
-- `parse_dt` of app/domain/timeutil.py, over dateutil's parser. The key=value format is read by regular
-- expressions and is left out.
use iam_sentinel_ese.Json.{Fields, Value, get_field, has_field, is_truthy, no_fields, null, object}
use iam_sentinel_ese.Policy.{to_text}
use iam_sentinel_ese.Prelude.{
  List, Option, String, [], contains, if◌then◌else◌, nat_eq, none, option_eq, some, string_eq, ℕ,
  ◌&&◌, ◌++◌, ◌||◌, ◌∷◌,
}
use iam_sentinel_ese.Prelude.Text.{
  after_last, before, concat_text, has_code, has_part, is_empty, lower, strip, strip_quote_marks,
}
use iam_sentinel_ese.Records.{LogEventRecord, or_else, or_text}
use iam_sentinel_ese.Scan.{or_empty}

-- the surroundings: dateutil's parser as seconds, `json.loads`, and what `str` prints
pub record Readers : Type 0 where
  pub parse_time : String → Option ℕ
  pub loads : String → Option Value
  pub repr : Value → String

abbrev pub sensitive_iam_events : List String
sensitive_iam_events =
    "CreateUser" ∷ "CreateAccessKey" ∷ "CreateLoginProfile" ∷ "UpdateLoginProfile"
    ∷ "AttachUserPolicy" ∷ "AttachRolePolicy" ∷ "PutUserPolicy" ∷ "PutRolePolicy" ∷ "PassRole"
    ∷ "UpdateAssumeRolePolicy" ∷ "DeleteUser" ∷ "CreateRole" ∷ []

abbrev pub privileged_events : List String
privileged_events = sensitive_iam_events ++ "AssumeRole" ∷ "ConsoleLogin" ∷ []

-- the texts that `_normalize_outcome` knows
abbrev pub known_outcome : String → Option String
known_outcome v =
    if is_empty v
    then none
    else if contains v ("denied" ∷ "accessdenied" ∷ "access_denied" ∷ "deny" ∷ "403" ∷ [])
    then some "denied"
    else if contains v ("failure" ∷ "failed" ∷ "fail" ∷ "error" ∷ "false" ∷ "401" ∷ [])
    then some "failure"
    else if contains v ("success" ∷ "succeeded" ∷ "ok" ∷ "true" ∷ "200" ∷ "allow" ∷ "allowed" ∷ [])
    then some "success"
    else some v

unfoldable pub normalize_outcome : Option String → Option String
normalize_outcome none = none
normalize_outcome (some value) = known_outcome (lower (strip_quote_marks (strip value)))

-- the texts that stand for no time
abbrev pub no_times : List String
no_times = "none" ∷ "null" ∷ "never" ∷ "n/a" ∷ "-" ∷ []

-- `a or b` on the values of two keys, and so on
abbrev pub first_truthy : List String → Fields → Value
first_truthy [] obj = null
first_truthy (key ∷ []) obj = get_field key obj
first_truthy (key ∷ keys) obj =
    let rest = first_truthy keys obj in
    if is_truthy (get_field key obj) then get_field key obj else rest

abbrev pub or_value : Value → Value → Value
or_value a b = if is_truthy a then a else b

abbrev pub fields_of : Value → Fields
fields_of (object fs) = fs
fields_of _ = no_fields

module _ (py : Readers) where
  -- `parse_dt` of a JSON value
  unfoldable pub parse_dt : Value → Option ℕ
  parse_dt null = none
  parse_dt v =
      let s = strip (to_text py.repr v) in
      if is_empty s || contains (lower s) no_times then none else py.parse_time s

  -- `str(v) if v else None`
  abbrev pub text_if : Value → Option String
  text_if v = if is_truthy v then some (to_text py.repr v) else none

  unfoldable pub make_event :
      Option ℕ
      → Option String
      → Option String
      → Option String
      → Option String
      → Option String
      → Fields
      → LogEventRecord
  make_event ts principal_uid source_ip event_name event_source outcome raw =
      let bare_event = after_last 58 (or_empty event_name) in
      record {
        ts = ts;
        principal_uid = principal_uid;
        source_ip = source_ip;
        event_name = event_name;
        event_source = event_source;
        outcome = outcome;
        is_privileged = contains bare_event privileged_events;
        is_sensitive_iam =
            (has_part "iam" (lower (or_empty event_source))
              && contains bare_event sensitive_iam_events)
            || contains bare_event sensitive_iam_events;
        raw = raw;
      }

  -- the outcome of a sign-in, from `responseElements`
  abbrev pub login_outcome : Fields → Option String
  login_outcome obj =
      let response = fields_of (get_field "responseElements" obj) in
      if has_field "ConsoleLogin" response
      then normalize_outcome (some (to_text py.repr (get_field "ConsoleLogin" response)))
      else none

  -- the outcome that an error code tells
  abbrev pub error_outcome : Fields → Option String → Option String
  error_outcome obj outcome =
      let code = to_text py.repr (get_field "errorCode" obj) in
      if is_truthy (get_field "errorCode" obj)
      then (if has_part "AccessDenied" code || has_part "Forbidden" code
          then some "denied"
          else some "failure")
      else outcome

  abbrev pub stated_outcome : Value → Option String
  stated_outcome null = normalize_outcome none
  stated_outcome v = normalize_outcome (some (to_text py.repr v))

  unfoldable pub event_outcome : Fields → Option String
  event_outcome obj =
      or_else (error_outcome obj (login_outcome obj))
        (some (or_text (stated_outcome (get_field "outcome" obj)) "success"))

  -- `_from_cloudtrail`
  unfoldable pub from_cloudtrail : Fields → LogEventRecord
  from_cloudtrail obj =
      let identity = fields_of (get_field "userIdentity" obj) in
      make_event (parse_dt (first_truthy ("eventTime" ∷ "ts" ∷ "time" ∷ []) obj))
        (text_if (
          or_value (first_truthy ("userName" ∷ "arn" ∷ "principalId" ∷ []) identity)
            (first_truthy ("principal" ∷ "user" ∷ []) obj)))
        (text_if (first_truthy ("sourceIPAddress" ∷ "ip" ∷ []) obj))
        (text_if (first_truthy ("eventName" ∷ "event" ∷ []) obj))
        (text_if (first_truthy ("eventSource" ∷ "source" ∷ []) obj)) (event_outcome obj) obj

  abbrev pub event_of_json : Option Value → Option LogEventRecord
  event_of_json (some (object fs)) = some (from_cloudtrail fs)
  event_of_json _ = none

  -- `_parse_json_line`
  unfoldable pub parse_json_line : String → Option LogEventRecord
  parse_json_line line = event_of_json (py.loads line)

abbrev pub non_action_events : List String
non_action_events = "ConsoleLogin" ∷ "CheckMfa" ∷ "ExitRole" ∷ "RenewRole" ∷ []

abbrev pub non_action_services : List String
non_action_services = "signin" ∷ "console" ∷ []

abbrev pub qualified : String → String → Option String
qualified service event_name =
    if is_empty service || contains service non_action_services
    then none
    else some (concat_text (service ∷ ":" ∷ event_name ∷ []))

unfoldable pub to_iam_action : Option String → Option String → Option String
to_iam_action event_source event_name =
    let name = or_empty event_name in
    let source = or_empty event_source in
    if is_empty name || contains name non_action_events
    then none
    else if has_code 58 name
    then some name
    else if is_empty source
    then none
    else qualified (lower (strip (before 46 source))) name
