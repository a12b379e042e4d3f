-- ===== src/LeastPrivilege/Scoped.antt =====
-- The resources that `_resources_for` of app/analysis/least_privilege.py finds for an action, and the
-- statements that grant it.
use iam_sentinel_ese.Json.{Fields, Value}
use iam_sentinel_ese.LeastPrivilege.{
  acts_of, insert_text, or_star, resources_where, rows_of, rows_of_all, scope_of, sorted_set,
  statement_rows,
}
use iam_sentinel_ese.Policy.{is_allow, is_listed}
use iam_sentinel_ese.Policy.Actions.{grants_action}
use iam_sentinel_ese.Prelude.{
  All, All-append, All-mono, Bool, Bool-cases, List, String, [], any, arith, contains, if_both, inl,
  inr, nat_eq, option_eq, refl, string_eq, true, ◌&&◌, ◌==◌, ◌∷◌, ◌≡◌,
}
use iam_sentinel_ese.Prelude.Text.{string_leb}

-- Sorting.
insert_text-All :
    (P : String → Type 0) (a : String) (xs : List String)
    → P a
    → All P xs
    → All P (insert_text a xs)
insert_text-All P a [] h k = (h, tt)
insert_text-All P a (x ∷ xs) h k = if_both (All P) (a == x) (x ∷ xs) _ k (
    if_both (All P) (string_leb a x) (a ∷ x ∷ xs) (x ∷ insert_text a xs) (h, k)
      (k.0, insert_text-All P a xs h k.1))

pub All-sorted_set : (P : String → Type 0) (xs : List String) → All P xs → All P (sorted_set xs)
unfolding sorted_set
All-sorted_set P [] h = tt
All-sorted_set P (x ∷ xs) h = insert_text-All P x (sorted_set xs) h.0 (All-sorted_set P xs h.1)

insert_text-listed : (a : String) (xs : List String) → is_listed (insert_text a xs) ≡ true
insert_text-listed a [] = refl
insert_text-listed a (x ∷ xs) = ground arith

pub sorted_set-listed : (xs : List String) → is_listed xs ≡ true → is_listed (sorted_set xs) ≡ true
unfolding sorted_set
sorted_set-listed [] h = h
sorted_set-listed (x ∷ xs) h = insert_text-listed x (sorted_set xs)

pub or_star-All :
    (P : String → Type 0) (xs : List String) → is_listed xs ≡ true → All P xs → All P (or_star xs)
or_star-All P [] e h = cc
or_star-All P (x ∷ xs) e h = h

pub equal-covers : (g a : String) → (g == a) ≡ true → grants_action (g ∷ []) a ≡ true
unfolding grants_action
equal-covers g a h = ground (arith, string_eq.beq_iff g a, string_eq.beq_iff a g)

any-contains :
    (p : String → Bool) (g : String) (xs : List String)
    → contains g xs ≡ true
    → p g ≡ true
    → any p xs ≡ true
any-contains p g [] h k = cc
any-contains p g (x ∷ xs) h k = elim (Bool-cases (g == x)) [
  | inl e ↦ let same = (string_eq.beq_iff g x).0 e in ground arith
  | inr e ↦ let rest = any-contains p g xs (ground arith) k in ground arith
]

contains_left :
    (r : String) (xs : List String)
    → All (λ x. contains x (xs) ≡ true) xs
    → All (λ x. contains x (r ∷ xs) ≡ true) xs
contains_left r xs h = All-mono _ _ xs (λ x k. ground arith) h

pub contains_own : (xs : List String) → All (λ x. contains x xs ≡ true) xs
contains_own [] = tt
contains_own (x ∷ xs) =
    (ground (arith, string_eq.beq_iff x x), contains_left x xs (contains_own xs))

module _ (repr : Value → String) (action : String) where
  -- a statement that allows an action covering `action`, on the resource
  abbrev pub grants_on : String → Fields → Bool
  grants_on r st =
      is_allow repr st
      && any (λ g. grants_action (g ∷ []) action) (acts_of repr st)
      && contains r (scope_of repr st)

  -- some statement of the list does
  abbrev pub IsScoped : List Fields → String → Type 0
  IsScoped sts r = any (grants_on r) sts ≡ true

  -- a row of an action that covers the given one lists resources that are scoped
  abbrev pub RowIsScoped : List Fields → String × List String → Type 0
  RowIsScoped sts row = grants_action (row.0 ∷ []) action ≡ true → All (IsScoped sts) row.1

  rows-IsScoped :
      (st : Fields) (sts : List Fields) (acts : List String)
      → is_allow repr st ≡ true
      → All (λ g. contains g (acts_of repr st) ≡ true) acts
      → All (RowIsScoped (st ∷ sts)) (rows_of acts (scope_of repr st))
  rows-IsScoped st sts [] allowed h = tt
  rows-IsScoped st sts (g ∷ acts) allowed h = (
    λ covered.
        All-mono _ _ (scope_of repr st) (λ r k. granted covered r k)
          (contains_own (scope_of repr st)),
    rows-IsScoped st sts acts allowed h.1,
  )
    where
      granted :
          grants_action (g ∷ []) action ≡ true
          → (r : String) → contains r (scope_of repr st) ≡ true
          → IsScoped (st ∷ sts) r
      granted covered r k =
          let found =
            any-contains (λ m. grants_action (m ∷ []) action) g (acts_of repr st) h.0 covered in
          ground arith

  later-IsScoped :
      (st : Fields) (sts : List Fields) (row : String × List String)
      → RowIsScoped sts row
      → RowIsScoped (st ∷ sts) row
  later-IsScoped st sts row h covered = All-mono _ _ row.1 (λ r k. ground arith) (h covered)

  pub rows_of_all-IsScoped : (sts : List Fields) → All (RowIsScoped sts) (rows_of_all repr sts)
  rows_of_all-IsScoped [] = tt
  rows_of_all-IsScoped (st ∷ sts) =
      All-append (RowIsScoped (st ∷ sts)) (statement_rows repr st) (rows_of_all repr sts)
        (elim (Bool-cases (is_allow repr st)) [
          | inl e ↦ rw e (rows-IsScoped st sts (acts_of repr st) e (contains_own (acts_of repr st)))
          | inr e ↦ rw e tt
        ])
        (All-mono _ _ (rows_of_all repr sts) (λ row k. later-IsScoped st sts row k)
          (rows_of_all-IsScoped sts))

  -- The union over rows of actions that cover the given one.
  pub resources_where-IsScoped :
      (p : String → Bool) (sts : List Fields) (rows : List (String × List String))
      → ((g : String) → p g ≡ true → grants_action (g ∷ []) action ≡ true)
      → All (RowIsScoped sts) rows
      → All (IsScoped sts) (resources_where p rows)
  resources_where-IsScoped p sts [] h k = tt
  resources_where-IsScoped p sts ((g, res) ∷ rows) h k =
      let rest = resources_where-IsScoped p sts rows h k.1 in
      elim (Bool-cases (p g)) [
        | inl e ↦ rw e (All-append (IsScoped sts) res (resources_where p rows) (k.0 (h g e)) rest)
        | inr e ↦ rw e rest
      ]
