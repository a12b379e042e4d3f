-- ===== src/LeastPrivilege/Suggested.antt =====
-- The policies that `recommend` of app/analysis/least_privilege.py suggests, as statements.
use mathlib.Core.Path.{subst}
use iam_sentinel_ese.Json.{Fields, Value}
use iam_sentinel_ese.LeastPrivilege.{
  Reason, ResourceGroup, action_resources, build_policy, confident_of, granted_by_policies,
  group_actions, has_unsupported_forms, kept_actions, reason_of, recommend, sort_groups, sorted_set,
  statement_of, statement_values, statements_of_all, strings, suggestion,
}
use iam_sentinel_ese.LeastPrivilege.Build.{All-sort_groups, IsGood, group_actions-IsGood}
use iam_sentinel_ese.LeastPrivilege.Listed.{resources_for-IsScoped}
use iam_sentinel_ese.LeastPrivilege.Scoped.{All-sorted_set, IsScoped, contains_own}
use iam_sentinel_ese.Policy.{actions, is_listed, objects_of, resources, statements, texts_of}
use iam_sentinel_ese.Policy.Actions.{grants_action}
use iam_sentinel_ese.Prelude.{
  All, All-both, All-filter, All-mono, List, Option, String, [], ap, arith, contains, false,
  filter-passes, leb, nat_eq, none, not, option_eq, refl, some, string_eq, true, ℕ, ◌&&◌, ◌∷◌, ◌≡◌,
}
use iam_sentinel_ese.Records.{PolicyRecord, is_given}

texts_of-strings : (repr : Value → String) (xs : List String) → texts_of repr (strings xs) ≡ xs
texts_of-strings repr [] = refl
texts_of-strings repr (x ∷ xs) = ap (λ rest. x ∷ rest) (texts_of-strings repr xs)

module _ (repr : Value → String) where
  statement-resources :
      (res acts : List String)
      → is_listed res ≡ true
      → resources repr (statement_of (res, acts)) ≡ res
  statement-resources [] acts h = cc
  statement-resources (r ∷ []) acts h = refl
  statement-resources (r ∷ q ∷ rest) acts h = ap (λ ts. r ∷ q ∷ ts) (texts_of-strings repr rest)

  -- A statement whose actions were all used, each granted on the statement's resources by some
  -- statement of the policies.
  abbrev pub IsWithin : List PolicyRecord → List String → Fields → Type 0
  IsWithin policies used st =
      All
        (λ a.
          (contains a used ≡ true)
          × All (IsScoped repr a (statements_of_all policies)) (resources repr st))
        (actions repr st)

  statement_of-IsWithin :
      (policies : List PolicyRecord) (used : List String) (g : ResourceGroup)
      → IsGood repr (statements_of_all policies) (λ a. contains a used ≡ true) g
      → IsWithin policies used (statement_of g)
  statement_of-IsWithin policies used (res, acts) h =
      rw (texts_of-strings repr acts) (rw (statement-resources res acts h.0) h.1)

  statements-IsWithin :
      (policies : List PolicyRecord) (used : List String) (gs : List ResourceGroup)
      → All (IsGood repr (statements_of_all policies) (λ a. contains a used ≡ true)) gs
      → All (IsWithin policies used) (objects_of (statement_values gs))
  statements-IsWithin policies used [] h = tt
  statements-IsWithin policies used (g ∷ gs) h =
      (statement_of-IsWithin policies used g h.0, statements-IsWithin policies used gs h.1)

  build_policy-IsWithin :
      (policies : List PolicyRecord) (used confirmed : List String)
      → has_unsupported_forms repr policies ≡ false
      → All
          (λ a.
            (contains a used ≡ true) × (grants_action (granted_by_policies repr policies) a ≡ true))
          confirmed
      → All (IsWithin policies used) (statements (build_policy repr confirmed policies))
  unfolding build_policy statements
  build_policy-IsWithin policies used confirmed supported h =
      let rows = action_resources repr policies in
      statements-IsWithin policies used (sort_groups (group_actions (sorted_set confirmed) rows []))
        (All-sort_groups _ (group_actions (sorted_set confirmed) rows []) (
          group_actions-IsGood repr (statements_of_all policies) (λ a. contains a used ≡ true)
            (sorted_set confirmed) rows []
            (All-mono _ _ (sorted_set confirmed)
              (λ a k.
                let found = resources_for-IsScoped repr policies a supported k.1 in
                (found.0, (k.0, found.1)))
              (All-sorted_set _ confirmed h))
            tt))

  confident-gates :
      (policies : List PolicyRecord) (event_count window_days : ℕ)
      → confident_of (reason_of repr policies event_count window_days)
        ≡ (leb 14 window_days && leb 3 event_count && not (has_unsupported_forms repr policies))
  confident-gates policies event_count window_days = ground arith

  given-confident :
      (why : Option Reason) (confirmed : List String) (policies : List PolicyRecord)
      → is_given (suggestion repr why confirmed policies) ≡ confident_of why
  given-confident none confirmed policies = refl
  given-confident (some r) confirmed policies = refl

  suggested_by :
      (why : Option Reason) (confirmed : List String) (policies : List PolicyRecord)
      (document : Value)
      → suggestion repr why confirmed policies ≡ some document
      → (why ≡ none) × (build_policy repr confirmed policies ≡ document)
  suggested_by none confirmed policies document h = (refl, cc)
  suggested_by (some r) confirmed policies document h = cc

  supported_by :
      (policies : List PolicyRecord) (event_count window_days : ℕ)
      → reason_of repr policies event_count window_days ≡ none
      → has_unsupported_forms repr policies ≡ false
  supported_by policies event_count window_days h = ground arith

  -- A policy is suggested exactly if the recommendation is confident: at least fourteen days and
  -- three events of the principal were observed, and no statement of its policies has an
  -- unsupported form.
  pub recommend-gates :
      (uid : String) (granted : List String) (policies : List PolicyRecord) (used : List String)
      (event_count window_days : ℕ)
      → ((recommend repr uid granted policies used event_count window_days).confident
          ≡ (leb 14 window_days && leb 3 event_count && not (has_unsupported_forms repr policies)))
        × (is_given
              (recommend repr uid granted policies used event_count window_days).suggested_policy
            ≡ (recommend repr uid granted policies used event_count window_days).confident)
  unfolding recommend
  recommend-gates uid granted policies used event_count window_days = (
    confident-gates policies event_count window_days,
    given-confident (reason_of repr policies event_count window_days) (kept_actions granted used)
        policies,
  )

  -- What is suggested for a principal is within what it was granted and used: each action of each
  -- statement of a suggested policy is one that the principal used, and on each resource of that
  -- statement some allow statement of the principal's own policies grants the action.
  pub suggested-IsWithin :
      (uid : String) (policies : List PolicyRecord) (used : List String)
      (event_count window_days : ℕ) (document : Value)
      → (recommend repr uid
          (granted_by_policies repr policies)
          policies
          used
          event_count
          window_days).suggested_policy
        ≡ some document
      → All (IsWithin policies used) (statements document)
  unfolding recommend
  suggested-IsWithin uid policies used event_count window_days document h =
      let granted = granted_by_policies repr policies in
      let why = reason_of repr policies event_count window_days in
      let found = suggested_by why (kept_actions granted used) policies document h in
      subst (λ doc. All (IsWithin policies used) (statements doc)) found.1
        (build_policy-IsWithin policies used (kept_actions granted used)
          (supported_by policies event_count window_days found.0)
          (All-both _ _ (kept_actions granted used)
            (All-filter (λ u. grants_action granted u) _ used (contains_own used))
            (filter-passes (λ u. grants_action granted u) used)))
