-- ===== src/Policy/Grants.antt =====
-- What the reader of app/domain/policy.py reports as granted.
use iam_sentinel_ese.Json.{Fields, Value}
use iam_sentinel_ese.Policy.{
  actions, granted_actions, granted_by, grants_of, has_wildcard_action, is_allow, is_listed,
  not_actions, statements,
}
use iam_sentinel_ese.Prelude.{
  Bool, List, String, [], any, arith, contains, nat_eq, option_eq, refl, string_eq, true, ◌&&◌,
  ◌++◌, ◌||◌, ◌∙◌, ◌∷◌, ◌≡◌,
}

contains-append :
    (a : String) (xs ys : List String) → contains a (xs ++ ys) ≡ contains a xs || contains a ys
contains-append a [] ys = refl
contains-append a (x ∷ xs) ys = ground (arith, contains-append a xs ys)

module _ (repr : Value → String) where
  -- a statement that grants everything
  abbrev pub grants_all : Fields → Bool
  grants_all st =
      is_allow repr st && (is_listed (not_actions repr st) || contains "*" (actions repr st))

  granted_by_all : (st : Fields) → contains "*" (granted_by repr st) ≡ grants_all st
  granted_by_all st = ground arith

  grants_of_all : (sts : List Fields) → contains "*" (grants_of repr sts) ≡ any grants_all sts
  grants_of_all [] = refl
  grants_of_all (st ∷ sts) =
      contains-append "*" (granted_by repr st) (grants_of repr sts)
      ∙ rw (granted_by_all st, grants_of_all sts) refl

  -- A policy is reported to grant `*` exactly if one of its allow statements uses `NotAction` or
  -- lists `*` among its actions.
  pub granted_actions_all :
      (document : Value)
      → contains "*" (granted_actions repr document) ≡ any grants_all (statements document)
  unfolding granted_actions
  granted_actions_all document = grants_of_all (statements document)

  any_wildcard :
      (sts : List Fields)
      → any (λ st. is_allow repr st && contains "*" (actions repr st)) sts ≡ true
      → any grants_all sts ≡ true
  any_wildcard [] h = h
  any_wildcard (st ∷ sts) h = ground (arith, any_wildcard sts)

  -- A policy with a wildcard action is reported to grant `*`.
  pub wildcard_granted :
      (document : Value)
      → has_wildcard_action repr document ≡ true
      → contains "*" (granted_actions repr document) ≡ true
  unfolding has_wildcard_action
  wildcard_granted document h = granted_actions_all document ∙ any_wildcard (statements document) h
