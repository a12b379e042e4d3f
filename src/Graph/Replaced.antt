-- ===== src/Graph/Replaced.antt =====
-- What becomes of a role that a principal can both assume and escalate to, in the graph of
-- app/analysis/graph.py.
use mathlib.Core.Path.{subst}
use iam_sentinel_ese.Checks.{GraphEdge}
use iam_sentinel_ese.Checks.Privilege.{trust_of}
use iam_sentinel_ese.Counting.{pair_eq}
use iam_sentinel_ese.Graph.{
  Arc, Building, action_edges, add_arc, add_edge, add_edges, arc_of, assume_edges, assume_from,
  attached_edges, build_graph, create_credential_actions, edges_of_policy, ends_of, escalate_by,
  escalate_to, escalation_edges, first_granted, granted_of, has_arc, is_role, is_seen,
  own_escalations, pairs_of, passes_role, policy_edges, resource_edges, self_attach_actions,
  self_edge, statement_edges, trust_edges, trust_principal_arns,
}
use iam_sentinel_ese.Json.{Fields, Value, get_field}
use iam_sentinel_ese.LeastPrivilege.{acts_of, scope_of}
use iam_sentinel_ese.Policy.{is_allow, is_assume_role_statement, statements}
use iam_sentinel_ese.Prelude.{
  All, All-append, All-mono, Bool, Bool-cases, List, Option, String, [], ap, arith, beq_refl,
  contains, false, filter_by, if_both, if◌then◌else◌, inl, inr, map, nat_eq, none, not, option_eq,
  refl, some, string_eq, sym, true, ◌&&◌, ◌++◌, ◌==◌, ◌↔◌, ◌∙◌, ◌∷◌, ◌≡◌,
}
use iam_sentinel_ese.Rbac.{role_eq}
use iam_sentinel_ese.Records.{NormalizedDataset, PolicyRecord, PrincipalRecord, policy_with}

abbrev pub is_escalation : String → Bool
is_escalation relation = relation == "CAN_ESCALATE"

abbrev pub is_assumption : String → Bool
is_assumption relation = relation == "CAN_ASSUME"

-- the graph has an arc between the nodes that counts as assumable
abbrev pub has_assumption : String × String → List Arc → Bool
has_assumption q arcs = contains q (pairs_of is_assumption arcs)

pair_iff : (p q : String × String) → (p == q ≡ true) ↔ (p ≡ q)
pair_iff = pair_eq.beq_iff

pair_flip : (p q : String × String) → (p == q) ≡ (q == p)
pair_flip p q = ground (arith, pair_iff p q, pair_iff q p)

replace-assumption :
    (a : Arc) (q : String × String) (arcs : List Arc)
    → is_assumption a.relation ≡ false
    → has_assumption q (map (λ (b : Arc). if b.ends == a.ends then a else b) arcs)
      ≡ (not (q == a.ends) && has_assumption q arcs)
replace-assumption a q [] e = ground arith
replace-assumption a q (b ∷ arcs) e = elim (Bool-cases (b.ends == a.ends)) [
  | inl alike ↦
      let eq : (q == b.ends) ≡ (q == a.ends) =
        ap (λ x. q == x) ((pair_iff b.ends a.ends).0 alike) in
      rw alike (ground (arith, replace-assumption a q arcs e))
  | inr ne ↦
      let apart = pair_iff q a.ends in
      let other_ends = pair_iff q b.ends in
      let clash = pair_iff b.ends a.ends in rw ne (ground (arith, replace-assumption a q arcs e))
]

append-assumption :
    (a : Arc) (q : String × String) (arcs : List Arc)
    → is_assumption a.relation ≡ false
    → has_assumption q (arcs ++ a ∷ []) ≡ has_assumption q arcs
append-assumption a q [] e = rw e refl
append-assumption a q (b ∷ arcs) e = ground (arith, append-assumption a q arcs e)

-- no arc between the nodes
absent-assumption :
    (q : String × String) (arcs : List Arc) → has_arc q arcs ≡ false → has_assumption q arcs ≡ false
absent-assumption q [] h = refl
absent-assumption q (b ∷ arcs) h = ground (arith, pair_flip b.ends q, absent-assumption q arcs)

-- A new arc that is no assumption takes the assumption between its nodes away, and no other.
add_arc-assumption :
    (a : Arc) (q : String × String) (arcs : List Arc)
    → is_assumption a.relation ≡ false
    → has_assumption q (add_arc a arcs) ≡ (not (q == a.ends) && has_assumption q arcs)
add_arc-assumption a q arcs e = elim (Bool-cases (has_arc a.ends arcs)) [
  | inl there ↦ rw there (replace-assumption a q arcs e)
  | inr new ↦
      let absent = absent-assumption a.ends arcs new in
      rw new (append-assumption a q arcs e ∙ unless_absent absent)
]
  where
    unless_absent :
        has_assumption a.ends arcs ≡ false
        → has_assumption q arcs ≡ (not (q == a.ends) && has_assumption q arcs)
    unless_absent absent = elim (Bool-cases (q == a.ends)) [
      | inl alike ↦
          let eq : has_assumption q arcs ≡ false =
            subst (λ x. has_assumption x arcs ≡ false) (sym ((pair_iff q a.ends).0 alike)) absent in
          rw alike (ground arith)
      | inr ne ↦ rw ne refl
    ]

-- every escalation edge has taken the assumption between its nodes away
abbrev pub IsReplaced : Building → Type 0
IsReplaced b =
    All (λ (e : GraphEdge). (is_escalation e.relation && has_assumption (ends_of e) b.arcs) ≡ false)
      b.edges

-- An escalation is no assumption.
escalation_only : (t : String) → is_escalation t ≡ true → is_assumption t ≡ false
escalation_only t h = let eq = (string_eq.beq_iff t "CAN_ESCALATE").0 h in rw eq refl

add_edge-IsReplaced :
    (e : GraphEdge) (b : Building)
    → is_assumption e.relation ≡ false
    → IsReplaced b
    → IsReplaced (add_edge e b)
unfolding add_edge
add_edge-IsReplaced e b plain h = elim (Bool-cases (is_seen e b.edges)) [
  | inl seen ↦ rw seen h
  | inr new ↦ rw new (
      All-append _ b.edges (e ∷ [])
        (All-mono _ _ b.edges
          (λ f k. let step = add_arc-assumption (arc_of e) (ends_of f) b.arcs plain in ground arith)
          h)
        (
          (let step = add_arc-assumption (arc_of e) (ends_of e) b.arcs plain in
              let itself = beq_refl (ends_of e) in ground arith),
          tt,
        ))
]

add_edges-IsReplaced :
    (es : List GraphEdge) (b : Building)
    → All (λ (e : GraphEdge). is_assumption e.relation ≡ false) es
    → IsReplaced b
    → IsReplaced (add_edges es b)
add_edges-IsReplaced [] b plain h = h
add_edges-IsReplaced (e ∷ es) b plain h =
    add_edges-IsReplaced es (add_edge e b) plain.1 (add_edge-IsReplaced e b plain.0 h)

-- an edge that is no escalation
abbrev IsCalm : GraphEdge → Type 0
IsCalm e = is_escalation e.relation ≡ false

add_edges-IsCalm :
    (es : List GraphEdge) (b : Building)
    → All IsCalm es
    → All IsCalm b.edges
    → All IsCalm (add_edges es b).edges
unfolding add_edge
add_edges-IsCalm [] b h k = k
add_edges-IsCalm (e ∷ es) b h k =
    add_edges-IsCalm es (add_edge e b) h.1 (elim (Bool-cases (is_seen e b.edges)) [
      | inl seen ↦ rw seen k
      | inr new ↦ rw new (All-append IsCalm b.edges (e ∷ []) k (h.0, tt))
    ])

resource_edges-IsCalm : (action : String) (rs : List String) → All IsCalm (resource_edges action rs)
resource_edges-IsCalm action [] = tt
resource_edges-IsCalm action (r ∷ rs) = (refl, resource_edges-IsCalm action rs)

action_edges-IsCalm :
    (uid : String) (scope acts : List String) → All IsCalm (action_edges uid scope acts)
action_edges-IsCalm uid scope [] = tt
action_edges-IsCalm uid scope (a ∷ acts) = (
  refl,
  All-append IsCalm (resource_edges a scope) (action_edges uid scope acts)
      (resource_edges-IsCalm a scope) (action_edges-IsCalm uid scope acts),
)

assume_from-IsCalm :
    (role : String) (known arns : List String) → All IsCalm (assume_from role known arns)
assume_from-IsCalm role known [] = tt
assume_from-IsCalm role known (arn ∷ arns) =
    let rest = assume_from-IsCalm role known arns in
    if_both (All IsCalm) (contains arn known && not (arn == role)) _ (assume_from role known arns)
      (refl, rest) rest

-- an edge that is no assumption
abbrev IsPlain : GraphEdge → Type 0
IsPlain e = is_assumption e.relation ≡ false

escalate_to-IsPlain :
    (src via : String) (qs : List PrincipalRecord) → All IsPlain (escalate_to src via qs)
escalate_to-IsPlain src via [] = tt
escalate_to-IsPlain src via (q ∷ qs) =
    let rest = escalate_to-IsPlain src via qs in
    if_both (All IsPlain) (q.principal_uid == src) (escalate_to src via qs) _ rest (refl, rest)

escalate_by-IsPlain :
    (src : String) (qs : List PrincipalRecord) (via : Option String)
    → All IsPlain (escalate_by src qs via)
escalate_by-IsPlain src qs none = tt
escalate_by-IsPlain src qs (some via) = escalate_to-IsPlain src via qs

self_edge-IsPlain : (src : String) (via : Option String) → All IsPlain (self_edge src via)
self_edge-IsPlain src none = tt
self_edge-IsPlain src (some via) = (refl, tt)

module _ (repr : Value → String) (dataset : NormalizedDataset) where
  statement_edges-IsCalm :
      (uid : String) (sts : List Fields) → All IsCalm (statement_edges repr dataset uid sts)
  statement_edges-IsCalm uid [] = tt
  statement_edges-IsCalm uid (st ∷ sts) =
      All-append IsCalm _ (statement_edges repr dataset uid sts)
        (if_both (All IsCalm) (is_allow repr st)
          (action_edges uid (scope_of repr st) (acts_of repr st)) []
          (action_edges-IsCalm uid (scope_of repr st) (acts_of repr st)) tt)
        (statement_edges-IsCalm uid sts)

  edges_of_policy-IsCalm :
      (uid policy_uid : String) (q : Option PolicyRecord)
      → All IsCalm (edges_of_policy repr dataset uid policy_uid q)
  edges_of_policy-IsCalm uid policy_uid none = tt
  edges_of_policy-IsCalm uid policy_uid (some q) =
      (refl, statement_edges-IsCalm q.policy_uid (statements q.document))

  attached_edges-IsCalm :
      (uid : String) (uids : List String) → All IsCalm (attached_edges repr dataset uid uids)
  attached_edges-IsCalm uid [] = tt
  attached_edges-IsCalm uid (q ∷ uids) =
      All-append IsCalm (edges_of_policy repr dataset uid q (policy_with q dataset.policies))
        (attached_edges repr dataset uid uids)
        (edges_of_policy-IsCalm uid q (policy_with q dataset.policies))
        (attached_edges-IsCalm uid uids)

  policy_edges-IsCalm : (ps : List PrincipalRecord) → All IsCalm (policy_edges repr dataset ps)
  policy_edges-IsCalm [] = tt
  policy_edges-IsCalm (p ∷ ps) =
      All-append IsCalm (attached_edges repr dataset p.principal_uid p.attached_policy_uids)
        (policy_edges repr dataset ps)
        (attached_edges-IsCalm p.principal_uid p.attached_policy_uids) (policy_edges-IsCalm ps)

  trust_edges-IsCalm :
      (role : String) (known : List String) (sts : List Fields)
      → All IsCalm (trust_edges repr dataset role known sts)
  trust_edges-IsCalm role known [] = tt
  trust_edges-IsCalm role known (st ∷ sts) =
      let arns = trust_principal_arns (get_field "Principal" st) in
      All-append IsCalm _ (trust_edges repr dataset role known sts)
        (if_both (All IsCalm) (is_assume_role_statement repr st) (assume_from role known arns) []
          (assume_from-IsCalm role known arns) tt)
        (trust_edges-IsCalm role known sts)

  assume_edges-IsCalm :
      (known : List String) (ps : List PrincipalRecord)
      → All IsCalm (assume_edges repr dataset known ps)
  assume_edges-IsCalm known [] = tt
  assume_edges-IsCalm known (p ∷ ps) =
      let trusts = trust_edges repr dataset p.principal_uid known (statements (trust_of p.raw)) in
      All-append IsCalm _ (assume_edges repr dataset known ps)
        (if_both (All IsCalm) (is_role p) trusts []
          (trust_edges-IsCalm p.principal_uid known (statements (trust_of p.raw))) tt)
        (assume_edges-IsCalm known ps)

  own_escalations-IsPlain : (p : PrincipalRecord) → All IsPlain (own_escalations repr dataset p)
  own_escalations-IsPlain p =
      let granted = granted_of repr dataset p in
      let uid = p.principal_uid in
      let users = filter_by (λ q. not (is_role q)) dataset.principals in
      let minted = first_granted granted create_credential_actions in
      let attached = first_granted granted self_attach_actions in
      All-append IsPlain _ (self_edge uid attached)
        (All-append IsPlain _ (escalate_by uid users minted)
          (if_both (All IsPlain) (passes_role repr dataset granted)
            (escalate_to uid "passrole_compute_launch" (filter_by is_role dataset.principals)) []
            (escalate_to-IsPlain uid "passrole_compute_launch"
              (filter_by is_role dataset.principals))
            tt)
          (escalate_by-IsPlain uid users minted))
        (self_edge-IsPlain uid attached)

  escalation_edges-IsPlain :
      (ps : List PrincipalRecord) → All IsPlain (escalation_edges repr dataset ps)
  escalation_edges-IsPlain [] = tt
  escalation_edges-IsPlain (p ∷ ps) =
      All-append IsPlain (own_escalations repr dataset p) (escalation_edges repr dataset ps)
        (own_escalations-IsPlain p) (escalation_edges-IsPlain ps)

  -- In the graph of any dataset, for each escalation edge that is reported there is no assumption
  -- between its nodes, also where the assumption is reported as an edge: of two edges between the
  -- same nodes the graph keeps the later one, and escalations come last.
  pub build_graph-IsReplaced : IsReplaced (build_graph repr dataset)
  unfolding build_graph
  build_graph-IsReplaced =
      let known = map (λ (p : PrincipalRecord). p.principal_uid) dataset.principals in
      let first =
        add_edges (policy_edges repr dataset dataset.principals)
          (record { edges = []; arcs = [] }) in
      let second = add_edges (assume_edges repr dataset known dataset.principals) first in
      let calm =
        add_edges-IsCalm (assume_edges repr dataset known dataset.principals) first
          (assume_edges-IsCalm known dataset.principals)
          (add_edges-IsCalm (policy_edges repr dataset dataset.principals)
            (record { edges = []; arcs = [] }) (policy_edges-IsCalm dataset.principals) tt) in
      add_edges-IsReplaced (escalation_edges repr dataset dataset.principals) second
        (escalation_edges-IsPlain dataset.principals)
        (All-mono _ _ second.edges (λ e k. ground arith) calm)
