-- ===== src/Graph.antt =====
-- app/analysis/graph.py: the permission graph, the reach of each principal, and the escalation paths.
-- The graph is networkx's: of its laws the model has that an edge added between two nodes that have
-- one replaces its attributes; `descendants` and `shortest_path` are parameters, and so is the formula
-- of the blast radius on floating-point numbers. A trust field `AWS` that is a number, which Python
-- cannot walk, names nobody here.
pub mod Replaced
pub mod Reach
use iam_sentinel_ese.Checks.{GraphEdge}
use iam_sentinel_ese.Checks.Privilege.{trust_of}
use iam_sentinel_ese.Counting.{pair_eq}
use iam_sentinel_ese.Diff.{field_names}
use iam_sentinel_ese.Json.{
  Fields, Value, Values, array, entry, get_field, item, no_fields, no_values, object, string,
}
use iam_sentinel_ese.LeastPrivilege.{acts_of, granted_by_policies, scope_of}
use iam_sentinel_ese.Policy.{is_allow, is_assume_role_statement, statements}
use iam_sentinel_ese.Policy.Actions.{grants_action, is_sensitive_action, sensitive_actions}
use iam_sentinel_ese.Prelude.{
  Bool, List, Option, String, [], any, contains, false, filter_by, if◌then◌else◌, map, nat_eq, none,
  not, option_eq, some, string_eq, true, ◌&&◌, ◌++◌, ◌==◌, ◌∷◌,
}
use iam_sentinel_ese.Prelude.Text.{concat_text}
use iam_sentinel_ese.Rbac.{role_eq}
use iam_sentinel_ese.Records.{
  NormalizedDataset, PolicyRecord, PrincipalRecord, policies_for, policy_with,
}

abbrev pub compute_launch_actions : List String
compute_launch_actions = "ec2:RunInstances" ∷ "lambda:CreateFunction" ∷ []

abbrev pub create_credential_actions : List String
create_credential_actions =
    "iam:CreateAccessKey" ∷ "iam:CreateLoginProfile" ∷ "iam:UpdateLoginProfile" ∷ []

abbrev pub self_attach_actions : List String
self_attach_actions =
    "iam:AttachUserPolicy" ∷ "iam:AttachRolePolicy" ∷ "iam:PutUserPolicy" ∷ "iam:PutRolePolicy" ∷ []

-- `_node`
unfoldable pub node : String → String → String
node kind uid = concat_text (kind ∷ ":" ∷ uid ∷ [])

-- an edge of the `DiGraph` with the attributes that are read again
pub record Arc : Type 0 where
  pub ends : String × String
  pub relation : String
  pub via : Option String

-- what `build` collects
pub record Building : Type 0 where
  pub edges : List GraphEdge
  pub arcs : List Arc

abbrev pub ends_of : GraphEdge → String × String
ends_of e = (node e.src_type e.src_uid, node e.dst_type e.dst_uid)

abbrev pub is_seen : GraphEdge → List GraphEdge → Bool
is_seen e es = any (λ f. (ends_of f == ends_of e) && (f.relation == e.relation)) es

abbrev pub text_of : Value → Option String
text_of (string s) = some s
text_of _ = none

abbrev pub arc_of : GraphEdge → Arc
arc_of e = record {
  ends = ends_of e;
  relation = e.relation;
  via = text_of (get_field "via" e.metadata);
}

abbrev pub has_arc : String × String → List Arc → Bool
has_arc q arcs = any (λ a. a.ends == q) arcs

-- `g.add_edge(u, v, ...)`
abbrev pub add_arc : Arc → List Arc → List Arc
add_arc a arcs =
    if has_arc a.ends arcs
    then map (λ (b : Arc). if b.ends == a.ends then a else b) arcs
    else arcs ++ a ∷ []

unfoldable pub add_edge : GraphEdge → Building → Building
add_edge e b =
    if is_seen e b.edges
    then b
    else record { edges = b.edges ++ e ∷ []; arcs = add_arc (arc_of e) b.arcs }

abbrev pub add_edges : List GraphEdge → Building → Building
add_edges [] b = b
add_edges (e ∷ es) b = add_edges es (add_edge e b)

abbrev pub plain_edge : String → String → String → String → String → Bool → GraphEdge
plain_edge src_type src_uid dst_type dst_uid relation is_sensitive = record {
  src_type = src_type;
  src_uid = src_uid;
  dst_type = dst_type;
  dst_uid = dst_uid;
  relation = relation;
  effect = none;
  is_sensitive = is_sensitive;
  metadata = no_fields;
}

abbrev pub resource_edges : String → List String → List GraphEdge
resource_edges action [] = []
resource_edges action (r ∷ rs) =
    plain_edge "action" action "resource" r "ON_RESOURCE" false ∷ resource_edges action rs

abbrev pub action_edges : String → List String → List String → List GraphEdge
action_edges policy_uid scope [] = []
action_edges policy_uid scope (action ∷ acts) =
    plain_edge "policy" policy_uid "action" action "GRANTS_ACTION"
        (is_sensitive_action action sensitive_actions)
      ∷ resource_edges action scope
    ++ action_edges policy_uid scope acts

abbrev pub escalate_edge : String → String → String → GraphEdge
escalate_edge src dst via =
    record (plain_edge "principal" src "principal" dst "CAN_ESCALATE" true) {
      metadata = entry "via" (string via) no_fields;
    }

-- an edge to every principal of the list but this one
abbrev pub escalate_to : String → String → List PrincipalRecord → List GraphEdge
escalate_to src via [] = []
escalate_to src via (q ∷ qs) =
    let rest = escalate_to src via qs in
    if q.principal_uid == src then rest else escalate_edge src q.principal_uid via ∷ rest

abbrev pub is_role : PrincipalRecord → Bool
is_role p = p.kind == "role"

-- `next(a for a in actions if grants)`
abbrev pub first_granted : List String → List String → Option String
first_granted granted [] = none
first_granted granted (a ∷ acts) =
    let rest = first_granted granted acts in if grants_action granted a then some a else rest

abbrev pub escalate_by : String → List PrincipalRecord → Option String → List GraphEdge
escalate_by src targets none = []
escalate_by src targets (some via) = escalate_to src via targets

abbrev pub self_edge : String → Option String → List GraphEdge
self_edge src none = []
self_edge src (some via) = escalate_edge src src via ∷ []

abbrev pub strings_in : Values → List String
strings_in no_values = []
strings_in (item (string s) vs) = s ∷ strings_in vs
strings_in (item _ vs) = strings_in vs

abbrev pub arns_of : Value → List String
arns_of (string s) = s ∷ []
arns_of (array vs) = strings_in vs
arns_of (object fs) = field_names fs
arns_of _ = []

-- `_trust_principal_arns`
unfoldable pub trust_principal_arns : Value → List String
trust_principal_arns (object fs) = arns_of (get_field "AWS" fs)
trust_principal_arns _ = []

abbrev pub assume_from : String → List String → List String → List GraphEdge
assume_from role known [] = []
assume_from role known (arn ∷ arns) =
    let rest = assume_from role known arns in
    if contains arn known && not (arn == role)
    then plain_edge "principal" arn "principal" role "CAN_ASSUME" true ∷ rest
    else rest

module _ (repr : Value → String) (dataset : NormalizedDataset) where
  abbrev pub granted_of : PrincipalRecord → List String
  granted_of p = granted_by_policies repr (policies_for dataset p)

  abbrev pub statement_edges : String → List Fields → List GraphEdge
  statement_edges policy_uid [] = []
  statement_edges policy_uid (st ∷ sts) =
      (if is_allow repr st
        then action_edges policy_uid (scope_of repr st) (acts_of repr st)
        else [])
      ++ statement_edges policy_uid sts

  abbrev pub edges_of_policy : String → String → Option PolicyRecord → List GraphEdge
  edges_of_policy uid policy_uid none = []
  edges_of_policy uid policy_uid (some q) =
      plain_edge "principal" uid "policy" policy_uid "HAS_POLICY" false
      ∷ statement_edges q.policy_uid (statements q.document)

  abbrev pub attached_edges : String → List String → List GraphEdge
  attached_edges uid [] = []
  attached_edges uid (policy_uid ∷ uids) =
      edges_of_policy uid policy_uid (policy_with policy_uid dataset.policies)
      ++ attached_edges uid uids

  -- `_add_policy_edges`
  abbrev pub policy_edges : List PrincipalRecord → List GraphEdge
  policy_edges [] = []
  policy_edges (p ∷ ps) = attached_edges p.principal_uid p.attached_policy_uids ++ policy_edges ps

  abbrev pub trust_edges : String → List String → List Fields → List GraphEdge
  trust_edges role known [] = []
  trust_edges role known (st ∷ sts) =
      (if is_assume_role_statement repr st
        then assume_from role known (trust_principal_arns (get_field "Principal" st))
        else [])
      ++ trust_edges role known sts

  -- `_add_assume_edges`
  abbrev pub assume_edges : List String → List PrincipalRecord → List GraphEdge
  assume_edges known [] = []
  assume_edges known (p ∷ ps) =
      (if is_role p then trust_edges p.principal_uid known (statements (trust_of p.raw)) else [])
      ++ assume_edges known ps

  abbrev pub passes_role : List String → Bool
  passes_role granted =
      grants_action granted "iam:PassRole"
      && any (λ a. grants_action granted a) compute_launch_actions

  abbrev pub own_escalations : PrincipalRecord → List GraphEdge
  own_escalations p =
      let granted = granted_of p in
      let uid = p.principal_uid in
      (if passes_role granted
        then escalate_to uid "passrole_compute_launch" (filter_by is_role dataset.principals)
        else [])
      ++ escalate_by uid (filter_by (λ q. not (is_role q)) dataset.principals)
          (first_granted granted create_credential_actions)
      ++ self_edge uid (first_granted granted self_attach_actions)

  -- `_add_escalation_edges`
  abbrev pub escalation_edges : List PrincipalRecord → List GraphEdge
  escalation_edges [] = []
  escalation_edges (p ∷ ps) = own_escalations p ++ escalation_edges ps

  -- the graph that `build` makes
  unfoldable pub build_graph : Building
  build_graph = add_edges (escalation_edges dataset.principals) (
      add_edges
        (assume_edges (map (λ (p : PrincipalRecord). p.principal_uid) dataset.principals)
          dataset.principals)
        (add_edges (policy_edges dataset.principals) (record { edges = []; arcs = [] })))

-- the pairs of nodes of a graph with the given relations only
abbrev pub pairs_of : (String → Bool) → List Arc → List (String × String)
pairs_of p arcs = map (λ (a : Arc). a.ends) (filter_by (λ (a : Arc). p a.relation) arcs)
