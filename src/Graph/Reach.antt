-- ===== src/Graph/Reach.antt =====
-- `_score_principal` and `_shortest_of` of app/analysis/graph.py: what a principal reaches in the
-- graph. A set of texts is a sorted list.
use iam_sentinel_ese.Checks.{EscalationPath, GraphResult}
use iam_sentinel_ese.Compliance.{get_or, set_entry}
use iam_sentinel_ese.Counting.{pair_eq}
use iam_sentinel_ese.Graph.{
  Arc, build_graph, first_granted, granted_of, node, pairs_of, self_attach_actions,
}
use iam_sentinel_ese.Json.{Value}
use iam_sentinel_ese.LeastPrivilege.{sorted_set}
use iam_sentinel_ese.Policy.Actions.{is_sensitive_action, sensitive_actions}
use iam_sentinel_ese.Prelude.{
  Bool, List, Option, String, [], any, contains, count_by, false, filter_by, if◌then◌else◌, length,
  ltb, map, nat_eq, none, not, option_eq, some, string_eq, true, ℕ, ◌&&◌, ◌++◌, ◌==◌, ◌||◌, ◌∷◌,
}
use iam_sentinel_ese.Prelude.Text.{after_first, is_empty}
use iam_sentinel_ese.Query.{join_commas}
use iam_sentinel_ese.Rbac.{role_eq}
use iam_sentinel_ese.Records.{
  NormalizedDataset, PrincipalRecord, is_given, or_else, or_text, principal_with,
}

abbrev pub Pairs : Type 0
Pairs = List (String × String)

-- what networkx answers on a graph of these edges, and the blast-radius formula, which is given the
-- reachable sensitive actions, all reachable ones, whether an admin is reached, and the roles
pub record Networkx : Type 0 where
  pub descendants : Pairs → String → List String
  pub shortest_path : Pairs → String → String → Option (List String)
  pub blast_radius : ℕ → ℕ → Bool → ℕ → ℕ

abbrev pub is_assume : String → Bool
is_assume relation = relation == "CAN_ASSUME"

abbrev pub is_chain : String → Bool
is_chain relation = (relation == "CAN_ASSUME") || (relation == "CAN_ESCALATE")

-- the nodes of a graph that is made from pairs
abbrev pub in_graph : String → Pairs → Bool
in_graph n pairs = any (λ (e : String × String). (e.0 == n) || (e.1 == n)) pairs

abbrev pub descendants_of : Networkx → String → Pairs → List String
descendants_of nx n pairs = if in_graph n pairs then nx.descendants pairs n else []

-- `path` is no longer than the best so far
abbrev pub shorter : Option (List String) → Option (List String) → Option (List String)
shorter none best = best
shorter (some path) none = some path
shorter (some path) (some best) = if ltb (length path) (length best) then some path else some best

-- `_shortest_of`, with the best so far
abbrev pub shortest_of :
    Networkx → Pairs → String → List String → Option (List String) → Option (List String)
shortest_of nx pairs source [] best = best
shortest_of nx pairs source (target ∷ targets) best =
    shortest_of nx pairs source targets (shorter (nx.shortest_path pairs source target) best)

abbrev pub find_arc : String × String → List Arc → Option Arc
find_arc q [] = none
find_arc q (a ∷ arcs) = if a.ends == q then some a else find_arc q arcs

abbrev pub label_of : Option Arc → String
label_of none = ""
label_of (some a) = or_text a.via a.relation

-- the labels of the steps of a path
abbrev pub step_labels : List Arc → String → List String → List String
step_labels arcs u [] = []
step_labels arcs u (v ∷ nodes) = label_of (find_arc (u, v) arcs) ∷ step_labels arcs v nodes

abbrev pub path_labels : List Arc → List String → List String
path_labels arcs [] = []
path_labels arcs (u ∷ nodes) = step_labels arcs u nodes

abbrev pub last_of : String → List String → String
last_of n [] = n
last_of n (m ∷ nodes) = last_of m nodes

abbrev pub uid_of : String → String
uid_of n = after_first 58 n

abbrev pub or_direct : String → String
or_direct via = if is_empty via then "direct" else via

-- the escalation that is recorded for a path of nodes
abbrev pub path_of : List Arc → String → List String → Option EscalationPath
path_of arcs uid [] = none
path_of arcs uid (n ∷ nodes) = some (record {
  principal_uid = uid;
  hops = map uid_of (n ∷ nodes);
  via = or_direct (join_commas (path_labels arcs (n ∷ nodes)));
  target_uid = uid_of (last_of n nodes);
})

abbrev pub self_path : String → Option String → Option EscalationPath
self_path uid none = none
self_path uid (some via) =
    some (record { principal_uid = uid; hops = uid ∷ []; via = via; target_uid = uid })

abbrev pub nodes_of : Option (List String) → List String
nodes_of none = []
nodes_of (some nodes) = nodes

module _ (repr : Value → String) (nx : Networkx) (dataset : NormalizedDataset) where
  abbrev pub granted_by_uid : Option PrincipalRecord → List String
  granted_by_uid none = []
  granted_by_uid (some p) = granted_of repr dataset p

  abbrev pub granted_of_uid : String → List String
  granted_of_uid uid = granted_by_uid (principal_with uid dataset.principals)

  abbrev pub union_of : List String → List String
  union_of [] = []
  union_of (uid ∷ uids) = granted_of_uid uid ++ union_of uids

  -- `self_attach_via.get(uid)`
  abbrev pub last_attach : String → List PrincipalRecord → Option String
  last_attach uid [] = none
  last_attach uid (p ∷ ps) = or_else (last_attach uid ps) (
      if p.principal_uid == uid
      then first_granted (granted_of repr dataset p) self_attach_actions
      else none)

  abbrev pub self_attach_via : String → Option String
  self_attach_via uid = last_attach uid dataset.principals

  abbrev pub is_direct_admin : String → Bool
  is_direct_admin uid = contains "*" (granted_of_uid uid)

  -- membership in `admin_nodes`
  abbrev pub is_admin_node : String → Bool
  is_admin_node n =
      any
        (λ (p : PrincipalRecord).
          (node "principal" p.principal_uid == n)
          && (is_direct_admin p.principal_uid || is_given (self_attach_via p.principal_uid)))
        dataset.principals

  abbrev pub escalation_of : List Arc → PrincipalRecord → Option EscalationPath
  escalation_of arcs p =
      let chain = pairs_of is_chain arcs in
      let here = node "principal" p.principal_uid in
      let targets =
        sorted_set
          (filter_by (λ n. is_admin_node n && not (n == here)) (descendants_of nx here chain)) in
      let nodes = nodes_of (shortest_of nx chain here targets none) in
      if is_direct_admin p.principal_uid
      then none
      else or_else (path_of arcs p.principal_uid nodes)
          (self_path p.principal_uid (self_attach_via p.principal_uid))

  abbrev pub reaches_admin : List Arc → PrincipalRecord → Bool
  reaches_admin arcs p =
      let here = node "principal" p.principal_uid in
      is_admin_node here || any is_admin_node (descendants_of nx here (pairs_of is_chain arcs))

  -- what `_score_principal` writes to the principal
  unfoldable pub score_principal : List Arc → PrincipalRecord → PrincipalRecord
  score_principal arcs p =
      let roles = sorted_set (
        map uid_of
          (descendants_of nx (node "principal" p.principal_uid) (pairs_of is_assume arcs))) in
      let granted = sorted_set (granted_of_uid p.principal_uid ++ union_of roles) in
      let sensitive = count_by (λ a. is_sensitive_action a sensitive_actions) granted in
      record p {
        blast_radius_score =
            nx.blast_radius sensitive (length granted) (reaches_admin arcs p) (length roles);
        reachable_actions = length granted;
        reachable_sensitive = sensitive;
      }

  abbrev pub add_path :
      String
      → Option EscalationPath
      → List (String × List EscalationPath)
      → List (String × List EscalationPath)
  add_path uid none paths = paths
  add_path uid (some path) paths = set_entry uid (get_or [] uid paths ++ path ∷ []) paths

  abbrev pub all_paths :
      List Arc
      → List PrincipalRecord
      → List (String × List EscalationPath)
      → List (String × List EscalationPath)
  all_paths arcs [] paths = paths
  all_paths arcs (p ∷ ps) paths =
      all_paths arcs ps (add_path p.principal_uid (escalation_of arcs p) paths)

  abbrev pub is_no_principal : List PrincipalRecord → Bool
  is_no_principal [] = true
  is_no_principal (p ∷ ps) = false

  -- `build`, with networkx installed: the dataset as it leaves it, and its result
  unfoldable pub build : NormalizedDataset × GraphResult
  build =
      let made = build_graph repr dataset in
      if is_no_principal dataset.principals
      then (dataset, record { edges = []; escalations = [] })
      else (
        record dataset { principals = map (score_principal made.arcs) dataset.principals },
        record { edges = made.edges; escalations = all_paths made.arcs dataset.principals [] },
      )
