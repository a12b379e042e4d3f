-- ===== src/Tests/LeastPrivilege.antt =====
-- A principal with one policy of two statements, which used two of the actions it was granted.
use iam_sentinel_ese.Json.{Value, array, entry, item, no_fields, no_values, object, string}
use iam_sentinel_ese.LeastPrivilege.{
  action_resources, build_policy, granted_by_policies, has_unsupported_forms, recommend,
  resources_for, sorted_set,
}
use iam_sentinel_ese.LeastPrivilege.Suggested.{IsWithin, recommend-gates, suggested-IsWithin}
use iam_sentinel_ese.Policy.{actions, granted_actions, is_allow, statements}
use iam_sentinel_ese.Policy.Actions.{grants_action, service_wildcard}
use iam_sentinel_ese.Prelude.{
  All, List, String, [], leb, map, none, not, refl, some, ◌&&◌, ◌∷◌, ◌≡◌,
}
use iam_sentinel_ese.Prelude.Text.{before, lower, string_leb}
use iam_sentinel_ese.Records.{PolicyRecord, is_given}

abbrev to_print : Value → String
to_print v = ""

abbrev granting : Value
granting = object (
    entry "Statement"
      (array (
        item
          (object (
            entry "Action" (string "s3:*")
              (entry "Resource" (string "arn:aws:s3:::logs") no_fields)))
          (item
            (object (
              entry "Action"
                (array (item (string "kms:Decrypt") (item (string "iam:PassRole") no_values)))
                (entry "Resource" (string "arn:aws:kms:::key/1") no_fields)))
            no_values)))
      no_fields)

abbrev own_policies : List PolicyRecord
own_policies =
    record { policy_uid = "p1"; name = "logs"; document = granting; kind = none; attached_to = [] }
    ∷ []

abbrev exercised : List String
exercised = "s3:GetObject" ∷ "kms:Decrypt" ∷ "ec2:RunInstances" ∷ []

abbrev scoped_policy : Value
scoped_policy = build_policy to_print ("s3:GetObject" ∷ "kms:Decrypt" ∷ []) own_policies

scoped_policy_holds :
    (recommend to_print "u1"
      (granted_by_policies to_print own_policies)
      own_policies
      exercised
      12
      30).suggested_policy
    ≡ some scoped_policy
unfolding recommend has_unsupported_forms statements granted_actions is_allow lower grants_action
    service_wildcard before
scoped_policy_holds = refl

-- two statements are suggested
scoped_policy-statements :
    map (actions to_print) (statements scoped_policy)
    ≡ ("kms:Decrypt" ∷ []) ∷ ("s3:GetObject" ∷ []) ∷ []
unfolding build_policy statements action_resources is_allow lower resources_for grants_action
    service_wildcard sorted_set before string_leb
scoped_policy-statements = refl

suggested-IsWithin_example :
    All (IsWithin to_print own_policies exercised) (statements scoped_policy)
suggested-IsWithin_example =
    suggested-IsWithin to_print "u1" own_policies exercised 12 30 scoped_policy scoped_policy_holds

recommend-gates_example :
    ((recommend to_print "u1" ("s3:*" ∷ []) own_policies exercised 2 30).confident
      ≡ (leb 14 30 && leb 3 2 && not (has_unsupported_forms to_print own_policies)))
    × (is_given (recommend to_print "u1" ("s3:*" ∷ []) own_policies exercised 2 30).suggested_policy
        ≡ (recommend to_print "u1" ("s3:*" ∷ []) own_policies exercised 2 30).confident)
recommend-gates_example = recommend-gates to_print "u1" ("s3:*" ∷ []) own_policies exercised 2 30
