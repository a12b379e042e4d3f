-- ===== src/LeastPrivilege/Build.antt =====
-- What the policy grants that app/analysis/least_privilege.py suggests.
use mathlib.Core.Path.{subst}
use iam_sentinel_ese.Json.{Fields, Value}
use iam_sentinel_ese.LeastPrivilege.{
  ResourceGroup, add_action, group_actions, insert_group, resources_for, sort_groups, texts_beq,
  texts_leb,
}
use iam_sentinel_ese.LeastPrivilege.Scoped.{IsScoped}
use iam_sentinel_ese.Policy.{is_listed}
use iam_sentinel_ese.Prelude.{
  All, All-append, Bool-cases, List, String, [], arith, if_both, inl, inr, nat_eq, option_eq, refl,
  string_eq, sym, true, ◌∷◌, ◌≡◌,
}

texts_beq-eq : (xs ys : List String) → texts_beq xs ys ≡ true → xs ≡ ys
texts_beq-eq [] [] h = refl
texts_beq-eq [] (y ∷ ys) h = cc
texts_beq-eq (x ∷ xs) [] h = cc
texts_beq-eq (x ∷ xs) (y ∷ ys) h =
    let same = (string_eq.beq_iff x y).0 (ground arith) in
    let rest = texts_beq-eq xs ys (ground arith) in cc

-- A list of groups of actions by their resources: what each action was chosen for, and its scope.
module _ (repr : Value → String) (sts : List Fields) (P : String → Type 0) where
  abbrev pub IsKept : List String → String → Type 0
  IsKept res a = P a × All (IsScoped repr a sts) res

  abbrev pub IsGood : ResourceGroup → Type 0
  IsGood g = (is_listed g.0 ≡ true) × All (IsKept g.0) g.1

  add_action-IsGood :
      (res : List String) (a : String) (groups : List ResourceGroup)
      → is_listed res ≡ true
      → IsKept res a
      → All IsGood groups
      → All IsGood (add_action res a groups)
  add_action-IsGood res a [] some_res k h = ((some_res, (k, tt)), tt)
  add_action-IsGood res a ((key, acts) ∷ groups) some_res k h =
      elim (Bool-cases (texts_beq key res)) [
        | inl e ↦ rw e (
          (
            h.0.0,
            All-append (IsKept key) acts (a ∷ []) h.0.1
                (subst (λ r. IsKept r a) (sym (texts_beq-eq key res e)) k, tt),
          ),
          h.1,
        )
        | inr e ↦ rw e (h.0, add_action-IsGood res a groups some_res k h.1)
      ]

  pub group_actions-IsGood :
      (acts : List String) (rows : List (String × List String)) (groups : List ResourceGroup)
      → All (λ a. (is_listed (resources_for a rows) ≡ true) × IsKept (resources_for a rows) a) acts
      → All IsGood groups
      → All IsGood (group_actions acts rows groups)
  group_actions-IsGood [] rows groups h k = k
  group_actions-IsGood (a ∷ acts) rows groups h k =
      group_actions-IsGood acts rows (add_action (resources_for a rows) a groups) h.1
        (add_action-IsGood (resources_for a rows) a groups h.0.0 h.0.1 k)

module _ (P : ResourceGroup → Type 0) where
  insert_group-All :
      (g : ResourceGroup) (gs : List ResourceGroup) → P g → All P gs → All P (insert_group g gs)
  insert_group-All g [] h k = (h, tt)
  insert_group-All g (x ∷ gs) h k =
      if_both (All P) (texts_leb g.0 x.0) (g ∷ x ∷ gs) (x ∷ insert_group g gs) (h, k)
        (k.0, insert_group-All g gs h k.1)

  pub All-sort_groups : (gs : List ResourceGroup) → All P gs → All P (sort_groups gs)
  All-sort_groups [] h = tt
  All-sort_groups (g ∷ gs) h = insert_group-All g (sort_groups gs) h.0 (All-sort_groups gs h.1)
