-- ===== src/LeastPrivilege/Listed.antt =====
-- The fallback of `_resources_for` in app/analysis/least_privilege.py.
use mathlib.Core.List.{append_assoc}
use iam_sentinel_ese.Json.{Fields, Value}
use iam_sentinel_ese.LeastPrivilege.{
  action_resources, acts_of, acts_or, granted_by_policies, has_unsupported_forms, is_unsupported,
  or_star, resources_for, resources_where, rows_of, rows_of_all, scope_of, statement_rows,
  statements_of_all,
}
use iam_sentinel_ese.LeastPrivilege.Scoped.{
  All-sorted_set, IsScoped, equal-covers, or_star-All, resources_where-IsScoped,
  rows_of_all-IsScoped, sorted_set-listed,
}
use iam_sentinel_ese.Policy.{
  actions, granted_actions, granted_by, grants_of, is_allow, is_listed, not_actions, resources,
  statements,
}
use iam_sentinel_ese.Policy.Actions.{grants_action, grants_action-any}
use iam_sentinel_ese.Prelude.{
  All, All-append, Bool, Bool-cases, List, String, [], any, ap, arith, false, if_both, inl, inr,
  nat_eq, option_eq, refl, string_eq, sym, true, ◌++◌, ◌==◌, ◌||◌, ◌∙◌, ◌∷◌, ◌≡◌,
}
use iam_sentinel_ese.Records.{PolicyRecord}

any-append : (p : String → Bool) (xs ys : List String) → any p (xs ++ ys) ≡ (any p xs || any p ys)
any-append p [] ys = refl
any-append p (x ∷ xs) ys = ground (arith, any-append p xs ys)

abbrev by_action : (String → Bool) → String × List String → Bool
by_action p row = p row.0

abbrev covers_action : String → String → Bool
covers_action a g = grants_action (g ∷ []) a

any-append_rows :
    (p : String → Bool) (xs ys : List (String × List String))
    → any (by_action p) (xs ++ ys) ≡ (any (by_action p) xs || any (by_action p) ys)
any-append_rows p [] ys = refl
any-append_rows p (x ∷ xs) ys = ground (arith, any-append_rows p xs ys)

any-rows_of :
    (p : String → Bool) (acts scope : List String)
    → any (by_action p) (rows_of acts scope) ≡ any p acts
any-rows_of p [] scope = refl
any-rows_of p (a ∷ acts) scope = ground (arith, any-rows_of p acts scope)

abbrev pub RowIsListed : String × List String → Type 0
RowIsListed row = is_listed row.1 ≡ true

rows_of-listed :
    (acts scope : List String) → is_listed scope ≡ true → All RowIsListed (rows_of acts scope)
rows_of-listed [] scope h = tt
rows_of-listed (a ∷ acts) scope h = (h, rows_of-listed acts scope h)

append-listed : (xs ys : List String) → is_listed xs ≡ true → is_listed (xs ++ ys) ≡ true
append-listed [] ys h = cc
append-listed (x ∷ xs) ys h = refl

resources_where-listed :
    (p : String → Bool) (rows : List (String × List String))
    → All RowIsListed rows
    → any (by_action p) rows ≡ true
    → is_listed (resources_where p rows) ≡ true
resources_where-listed p [] h k = k
resources_where-listed p ((a, res) ∷ rows) h k = elim (Bool-cases (p a)) [
  | inl e ↦ rw e (append-listed res (resources_where p rows) h.0)
  | inr e ↦ rw e (resources_where-listed p rows h.1 (ground arith))
]

acts_or-plain :
    (acts excluded : List String) → is_listed excluded ≡ false → acts_or acts excluded ≡ acts
acts_or-plain [] [] h = refl
acts_or-plain [] (x ∷ xs) h = cc
acts_or-plain (a ∷ acts) excluded h = refl

or_star-listed : (xs : List String) → is_listed (or_star xs) ≡ true
or_star-listed [] = refl
or_star-listed (x ∷ xs) = refl

module _ (repr : Value → String) where
  rows_of_all-listed : (sts : List Fields) → All RowIsListed (rows_of_all repr sts)
  rows_of_all-listed [] = tt
  rows_of_all-listed (st ∷ sts) =
      All-append RowIsListed (statement_rows repr st) (rows_of_all repr sts)
        (if_both (All RowIsListed) (is_allow repr st) (rows_of (acts_of repr st) (scope_of repr st))
          []
          (rows_of-listed (acts_of repr st) (scope_of repr st) (or_star-listed (resources repr st)))
          tt)
        (rows_of_all-listed sts)

  grants_of-append :
      (xs ys : List Fields) → grants_of repr (xs ++ ys) ≡ grants_of repr xs ++ grants_of repr ys
  grants_of-append [] ys = refl
  grants_of-append (x ∷ xs) ys =
      ap (λ rest. granted_by repr x ++ rest) (grants_of-append xs ys)
      ∙ sym (append_assoc (granted_by repr x) (grants_of repr xs) (grants_of repr ys))

  granted-statements :
      (policies : List PolicyRecord)
      → granted_by_policies repr policies ≡ grants_of repr (statements_of_all policies)
  unfolding granted_actions
  granted-statements [] = refl
  granted-statements (q ∷ qs) =
      ap (λ rest. grants_of repr (statements q.document) ++ rest) (granted-statements qs)
      ∙ sym (grants_of-append (statements q.document) (statements_of_all qs))

  -- A statement of a supported form grants the actions of its rows.
  supported_statement :
      (p : String → Bool) (st : Fields)
      → is_unsupported repr st ≡ false
      → any p (granted_by repr st) ≡ any (by_action p) (statement_rows repr st)
  supported_statement p st h =
      let allowed : is_allow repr st ≡ true = ground arith in
      let plain : is_listed (not_actions repr st) ≡ false = ground arith in
      let same = acts_or-plain (actions repr st) (not_actions repr st) plain in
      let rows = any-rows_of p (actions repr st) (scope_of repr st) in
      rw allowed (rw plain (rw same (sym rows)))

  rows_of_all-grant :
      (p : String → Bool) (sts : List Fields)
      → any (is_unsupported repr) sts ≡ false
      → any p (grants_of repr sts) ≡ any (by_action p) (rows_of_all repr sts)
  rows_of_all-grant p [] h = refl
  rows_of_all-grant p (st ∷ sts) h =
      let first = supported_statement p st (ground arith) in
      let rest = rows_of_all-grant p sts (ground arith) in
      let left = any-append p (granted_by repr st) (grants_of repr sts) in
      let right = any-append_rows p (statement_rows repr st) (rows_of_all repr sts) in cc

  resources_for-rows :
      (sts : List Fields) (a : String)
      → any (by_action (covers_action a)) (rows_of_all repr sts) ≡ true
      → (is_listed (resources_for a (rows_of_all repr sts)) ≡ true)
        × All (IsScoped repr a sts) (resources_for a (rows_of_all repr sts))
  unfolding resources_for
  resources_for-rows sts a covered =
      let rows = rows_of_all repr sts in
      let scoped = rows_of_all-IsScoped repr a sts in
      let listed = rows_of_all-listed sts in
      elim (Bool-cases (any (by_action (λ g. g == a)) rows)) [
        | inl e ↦ rw e (
          sorted_set-listed _ (resources_where-listed (λ g. g == a) rows listed e),
          All-sorted_set _ _ (
              resources_where-IsScoped repr a (λ g. g == a) sts rows (λ g k. equal-covers g a k)
                scoped),
        )
        | inr e ↦ rw e (
          or_star-listed _,
          or_star-All _ _
              (sorted_set-listed _ (resources_where-listed (covers_action a) rows listed covered))
              (All-sorted_set _ _
                (resources_where-IsScoped repr a (covers_action a) sts rows (λ g k. k) scoped)),
        )
      ]

  -- The resources that are found for an action that the policies grant: there is one, and the
  -- principal's statements grant the action on each.
  pub resources_for-IsScoped :
      (policies : List PolicyRecord) (a : String)
      → has_unsupported_forms repr policies ≡ false
      → grants_action (granted_by_policies repr policies) a ≡ true
      → (is_listed (resources_for a (action_resources repr policies)) ≡ true)
        × All
            (IsScoped repr a (statements_of_all policies))
            (resources_for a (action_resources repr policies))
  unfolding has_unsupported_forms action_resources
  resources_for-IsScoped policies a supported granted =
      resources_for-rows (statements_of_all policies) a (
        sym (rows_of_all-grant (covers_action a) (statements_of_all policies) supported)
        ∙ ap (any (covers_action a)) (sym (granted-statements policies))
        ∙ sym (grants_action-any (granted_by_policies repr policies) a)
        ∙ granted)
