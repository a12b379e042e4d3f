-- ===== src/Policy/Actions.antt =====
-- app/domain/policy.py: which actions a wildcard covers, the curated catalog of sensitive actions, and
-- the principals of trust statements.
use Prim.Native.String.{◌++◌ as text_append}
use iam_sentinel_ese.Json.{
  Fields, Value, Values, array, entry, item, no_fields, no_values, object, string,
}
use iam_sentinel_ese.Prelude.{
  Bool, List, String, [], any, arith, contains, false, if◌then◌else◌, nat_eq, option_eq, refl,
  string_eq, true, ◌==◌, ◌||◌, ◌∷◌, ◌≡◌,
}
use iam_sentinel_ese.Prelude.Text.{before, drop_last, has_prefix, has_suffix}

-- `principal_has_wildcard`
abbrev pub is_star : Value → Bool
is_star (string s) = s == "*"
is_star _ = false

abbrev pub any_star : Values → Bool
any_star no_values = false
any_star (item v rest) = is_star v || any_star rest

abbrev pub star_or_listed : Value → Bool
star_or_listed (array vs) = any_star vs
star_or_listed v = is_star v

abbrev pub any_field_star : Fields → Bool
any_field_star no_fields = false
any_field_star (entry name v rest) = star_or_listed v || any_field_star rest

unfoldable pub principal_has_wildcard : Value → Bool
principal_has_wildcard (object fs) = any_field_star fs
principal_has_wildcard v = is_star v

-- `SENSITIVE_ACTIONS`
abbrev pub sensitive_actions : List String
sensitive_actions =
    "*" ∷ "iam:*" ∷ "iam:CreateUser" ∷ "iam:CreateAccessKey" ∷ "iam:CreateLoginProfile"
    ∷ "iam:UpdateLoginProfile" ∷ "iam:AttachUserPolicy" ∷ "iam:AttachRolePolicy"
    ∷ "iam:PutUserPolicy" ∷ "iam:PutRolePolicy" ∷ "iam:PassRole" ∷ "iam:UpdateAssumeRolePolicy"
    ∷ "sts:AssumeRole" ∷ "kms:Decrypt" ∷ "kms:*" ∷ "s3:*" ∷ "s3:GetObject" ∷ "s3:PutBucketPolicy"
    ∷ "ec2:RunInstances" ∷ "lambda:CreateFunction" ∷ "lambda:UpdateFunctionCode"
    ∷ "secretsmanager:GetSecretValue" ∷ "cloudtrail:StopLogging" ∷ "cloudtrail:DeleteTrail" ∷ []

unfoldable pub is_sensitive_action : String → List String → Bool
is_sensitive_action action catalog =
    if action == "*"
    then true
    else if contains action catalog
    then true
    else if has_suffix ":*" action
    then any (λ s. has_prefix (drop_last action) s || (s == "*")) catalog
    else false

-- `f"{service}:*"` for the service of an action
unfoldable pub service_wildcard : String → String
service_wildcard target = text_append (before 58 target) ":*"

unfoldable pub grants_action : List String → String → Bool
grants_action granted target =
    if contains "*" granted || contains target granted
    then true
    else contains (service_wildcard target) granted

-- A set grants an action exactly if one of its members does.
pub grants_action-any :
    (granted : List String) (target : String)
    → grants_action granted target ≡ any (λ m. grants_action (m ∷ []) target) granted
unfolding grants_action
grants_action-any [] target = refl
grants_action-any (m ∷ ms) target = ground (arith, grants_action-any ms target)
