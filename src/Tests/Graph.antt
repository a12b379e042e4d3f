-- ===== src/Tests/Graph.antt =====
-- A user who may assume a role and may also pass it to a service that the user launches.
use iam_sentinel_ese.Checks.{GraphEdge}
use iam_sentinel_ese.Counting.{pair_eq}
use iam_sentinel_ese.Graph.{add_edge, build_graph, node, pairs_of, trust_principal_arns}
use iam_sentinel_ese.Graph.Replaced.{IsReplaced, build_graph-IsReplaced, is_assumption}
use iam_sentinel_ese.Json.{Value, array, entry, item, no_fields, no_values, object, string}
use iam_sentinel_ese.Policy.{granted_actions, is_allow, is_assume_role_statement, statements}
use iam_sentinel_ese.Policy.Actions.{grants_action, is_sensitive_action, service_wildcard}
use iam_sentinel_ese.Prelude.{
  String, [], filter_by, map, nat_eq, none, option_eq, refl, string_eq, ◌==◌, ◌∷◌, ◌≡◌,
}
use iam_sentinel_ese.Prelude.Text.{before, has_prefix, has_suffix, lower}
use iam_sentinel_ese.Rbac.{role_eq}
use iam_sentinel_ese.Records.{NormalizedDataset, PolicyRecord, PrincipalRecord, policies_for}
use iam_sentinel_ese.Tests.Checks.{intern}

abbrev no_print : Value → String
no_print v = ""

abbrev launch : PolicyRecord
launch = record {
  policy_uid = "p1";
  name = "launch";
  document = object (
      entry "Statement"
        (object (
          entry "Action"
            (array (item (string "iam:PassRole") (item (string "ec2:RunInstances") no_values)))
            no_fields))
        no_fields);
  kind = none;
  attached_to = [];
}

abbrev launcher : PrincipalRecord
launcher = record intern { attached_policy_uids = "p1" ∷ [] }

abbrev trusting : PrincipalRecord
trusting = record intern {
  principal_uid = "role/ops";
  kind = "role";
  raw =
      entry "trust_policy"
        (object (
          entry "Statement"
            (object (
              entry "Action" (string "sts:AssumeRole") (
                entry "Principal" (object (entry "AWS" (string "user/intern") no_fields))
                  no_fields)))
            no_fields))
        no_fields;
}

abbrev org : NormalizedDataset
org = record { principals = launcher ∷ trusting ∷ []; policies = launch ∷ []; log_events = [] }

-- both edges are reported, and the graph keeps the second
assume-reported :
    map
      (λ (e : GraphEdge). e.relation)
      (filter_by (λ (e : GraphEdge). e.dst_uid == "role/ops") (build_graph no_print org).edges)
    ≡ "CAN_ASSUME" ∷ "CAN_ESCALATE" ∷ []
unfolding build_graph add_edge node statements is_allow lower is_assume_role_statement
    trust_principal_arns grants_action service_wildcard before policies_for granted_actions
    is_sensitive_action has_suffix has_prefix
assume-reported = refl

no_assumption-left : pairs_of is_assumption (build_graph no_print org).arcs ≡ []
unfolding build_graph add_edge node statements is_allow lower is_assume_role_statement
    trust_principal_arns grants_action service_wildcard before policies_for granted_actions
    is_sensitive_action has_suffix has_prefix
no_assumption-left = refl

build_graph-IsReplaced_example : IsReplaced (build_graph no_print org)
build_graph-IsReplaced_example = build_graph-IsReplaced no_print org
