-- ===== src/Records.antt =====
-- app/domain/records.py: what the analysis engine works on. A `datetime` is its number of seconds.
use iam_sentinel_ese.Domain.Enums.{Category, Severity, severity_eq}
use iam_sentinel_ese.Json.{
  Fields, Value, decimal, entry, get_field, has_field, no_fields, number, string, truth,
}
use iam_sentinel_ese.Prelude.{
  Bool, List, Option, String, [], false, if◌then◌else◌, nat_eq, none, option_eq, refl, some,
  string_eq, true, ℕ, ◌==◌, ◌||◌, ◌∷◌, ◌≡◌,
}
use iam_sentinel_ese.Prelude.Text.{is_empty}
use iam_sentinel_ese.Rbac.{role_eq}

pub record Thresholds : Type 0 where
  pub inactivity_days : ℕ
  pub password_age_days : ℕ
  pub key_age_days : ℕ
  pub failed_logins : ℕ

pub record PrincipalRecord : Type 0 where
  pub principal_uid : String
  pub kind : String
  pub username : Option String
  pub email : Option String
  pub arn : Option String
  pub role : Option String
  pub account_type : Option String
  pub active : Bool
  pub console_access : Bool
  pub mfa_enabled : Bool
  pub last_login : Option ℕ
  pub password_last_changed : Option ℕ
  pub access_key_age_days : Option ℕ
  pub attached_policy_uids : List String
  pub raw : Fields
  pub blast_radius_score : ℕ
  pub reachable_actions : ℕ
  pub reachable_sensitive : ℕ

-- `a or b` on texts that may be missing
abbrev pub or_text : Option String → String → String
or_text none other = other
or_text (some text) other = if is_empty text then other else text

unfoldable pub principal_name : PrincipalRecord → String
principal_name p = or_text p.username (or_text p.arn p.principal_uid)

unfoldable pub is_service : PrincipalRecord → Bool
is_service p = (p.account_type == some "service") || (p.kind == "service_account")

pub record PolicyRecord : Type 0 where
  pub policy_uid : String
  pub name : String
  pub document : Value
  pub kind : Option String
  pub attached_to : List String

pub record LogEventRecord : Type 0 where
  pub ts : Option ℕ
  pub principal_uid : Option String
  pub source_ip : Option String
  pub event_name : Option String
  pub event_source : Option String
  pub outcome : Option String
  pub is_privileged : Bool
  pub is_sensitive_iam : Bool
  pub raw : Fields

-- `Finding`, as a check reports it
pub record AnalysisFinding : Type 0 where
  pub check_id : String
  pub title : String
  pub severity : Severity
  pub category : Category
  pub recommendation : String
  pub principal_uid : Option String
  pub resource : Option String
  pub policy_uid : Option String
  pub evidence : Fields
  pub remediation_snippet : Option String
  pub compliance_tags : List String
  pub risk_score : ℕ
  pub likelihood : ℕ
  pub impact : ℕ

pub record NormalizedDataset : Type 0 where
  pub principals : List PrincipalRecord
  pub policies : List PolicyRecord
  pub log_events : List LogEventRecord

abbrev pub or_else {ℓ} : {A : Type ℓ} → Option A → Option A → Option A
or_else none other = other
or_else (some a) other = some a

abbrev pub listed {ℓ} : {A : Type ℓ} → Option A → List A → List A
listed none rest = rest
listed (some a) rest = a ∷ rest

-- `policy_by_uid().get(uid)`: of several policies with this uid the last
abbrev pub policy_with : String → List PolicyRecord → Option PolicyRecord
policy_with uid [] = none
policy_with uid (q ∷ qs) =
    or_else (policy_with uid qs) (if q.policy_uid == uid then some q else none)

-- `principal_by_uid().get(uid)`, likewise
abbrev pub principal_with : String → List PrincipalRecord → Option PrincipalRecord
principal_with uid [] = none
principal_with uid (q ∷ qs) =
    or_else (principal_with uid qs) (if q.principal_uid == uid then some q else none)

abbrev pub policies_of : List String → List PolicyRecord → List PolicyRecord
policies_of [] qs = []
policies_of (uid ∷ uids) qs = listed (policy_with uid qs) (policies_of uids qs)

unfoldable pub policies_for : NormalizedDataset → PrincipalRecord → List PolicyRecord
policies_for dataset principal = policies_of principal.attached_policy_uids dataset.policies

-- `value is not None`
abbrev pub is_given {ℓ} : {A : Type ℓ} → Option A → Bool
is_given none = false
is_given (some a) = true

-- Python's `int(value)`, which raises on other values; `parse` reads a text or a printed number
abbrev pub to_int : (String → Option ℕ) → Value → Option ℕ
to_int parse (number n) = some n
to_int parse (truth b) = some (if b then 1 else 0)
to_int parse (string s) = parse s
to_int parse (decimal printed) = parse printed
to_int parse _ = none

-- `int(data.get(key, default))`
abbrev pub int_or : (String → Option ℕ) → String → ℕ → Fields → Option ℕ
int_or parse key fallback fields =
    if has_field key fields then to_int parse (get_field key fields) else some fallback

abbrev pub make_thresholds : Option ℕ → Option ℕ → Option ℕ → Option ℕ → Option Thresholds
make_thresholds (some inactivity) (some password) (some keys) (some logins) = some (record {
  inactivity_days = inactivity;
  password_age_days = password;
  key_age_days = keys;
  failed_logins = logins;
})
make_thresholds _ _ _ _ = none

-- `Thresholds.from_dict`, which has no value where Python raises
unfoldable pub thresholds_from : (String → Option ℕ) → Fields → Option Thresholds
thresholds_from parse fields =
    make_thresholds (int_or parse "inactivity_days" 90 fields)
      (int_or parse "password_age_days" 90 fields) (int_or parse "key_age_days" 90 fields)
      (int_or parse "failed_logins" 5 fields)

-- `to_dict`
unfoldable pub to_dict : Thresholds → Fields
to_dict t = entry "inactivity_days" (number t.inactivity_days) (
    entry "password_age_days" (number t.password_age_days) (
      entry "key_age_days" (number t.key_age_days)
        (entry "failed_logins" (number t.failed_logins) no_fields)))

-- The thresholds that a run stores are read back as they were.
pub thresholds_from-to_dict :
    (parse : String → Option ℕ) (t : Thresholds) → thresholds_from parse (to_dict t) ≡ some t
unfolding thresholds_from to_dict
thresholds_from-to_dict parse t = refl
