-- ===== src/Tests/Policy.antt =====
-- A policy with two statements: one grants everything but `iam:*`, one lists an action.
use iam_sentinel_ese.Json.{Value, array, entry, item, no_fields, no_values, object, string}
use iam_sentinel_ese.Policy.{
  granted_actions, has_wildcard_action, has_wildcard_resource, is_allow, statements,
}
use iam_sentinel_ese.Policy.Denied.{denied_ignored}
use iam_sentinel_ese.Policy.Grants.{granted_actions_all, grants_all}
use iam_sentinel_ese.Prelude.{
  String, any, contains, filter_by, nat_eq, option_eq, refl, string_eq, ◌≡◌,
}
use iam_sentinel_ese.Prelude.Text.{lower}

abbrev two_statements : Value
two_statements = object (
    entry "Statement"
      (array (
        item
          (object (entry "Effect" (string "Allow") (entry "NotAction" (string "iam:*") no_fields)))
          (item (object (entry "Action" (array (item (string "s3:GetObject") no_values)) no_fields))
            no_values)))
      no_fields)

abbrev wildcard : Value
wildcard = object (entry "Statement" (object (entry "Action" (string "*") no_fields)) no_fields)

-- the reader asks for no text of a list or an object in these documents
abbrev no_repr : Value → String
no_repr v = ""

granted_actions_all_example :
    contains "*" (granted_actions no_repr two_statements)
    ≡ any (grants_all no_repr) (statements two_statements)
granted_actions_all_example = granted_actions_all no_repr two_statements

abbrev with_deny : Value
with_deny = object (
    entry "Statement"
      (array (
        item (object (entry "Effect" (string "Deny") (entry "Action" (string "*") no_fields)))
          (item (object (entry "Action" (string "*") no_fields)) no_values)))
      no_fields)

same_allowed :
    filter_by (is_allow no_repr) (statements with_deny)
    ≡ filter_by (is_allow no_repr) (statements wildcard)
unfolding statements is_allow lower
same_allowed = refl

denied_ignored_example :
    (granted_actions no_repr with_deny ≡ granted_actions no_repr wildcard)
    × (has_wildcard_action no_repr with_deny ≡ has_wildcard_action no_repr wildcard)
    × (has_wildcard_resource no_repr with_deny ≡ has_wildcard_resource no_repr wildcard)
denied_ignored_example = denied_ignored no_repr with_deny wildcard same_allowed
