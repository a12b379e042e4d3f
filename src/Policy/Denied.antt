-- ===== src/Policy/Denied.antt =====
-- Statements that do not allow, in the reader of app/domain/policy.py.
use iam_sentinel_ese.Json.{Fields, Value}
use iam_sentinel_ese.Policy.{
  actions, granted_actions, grants_of, has_wildcard_action, has_wildcard_resource, is_allow,
  resources, statements,
}
use iam_sentinel_ese.Prelude.{
  Bool, List, String, [], any, ap, arith, contains, filter_by, nat_eq, option_eq, refl, string_eq,
  sym, ◌&&◌, ◌∙◌, ◌∷◌, ◌≡◌,
}

module _ (repr : Value → String) where
  any_allowed :
      (p : Fields → Bool) (sts : List Fields)
      → any (λ st. is_allow repr st && p st) (filter_by (is_allow repr) sts)
        ≡ any (λ st. is_allow repr st && p st) sts
  any_allowed p [] = refl
  any_allowed p (st ∷ sts) = ground (arith, any_allowed p sts)

  grants_allowed :
      (sts : List Fields) → grants_of repr (filter_by (is_allow repr) sts) ≡ grants_of repr sts
  grants_allowed [] = refl
  grants_allowed (st ∷ sts) = ground (arith, grants_allowed sts)

  -- Of two documents with the same allow statements, the reader reports the same granted actions
  -- and the same wildcards: what a statement denies adds nothing.
  pub denied_ignored :
      (a b : Value)
      → filter_by (is_allow repr) (statements a) ≡ filter_by (is_allow repr) (statements b)
      → (granted_actions repr a ≡ granted_actions repr b)
        × (has_wildcard_action repr a ≡ has_wildcard_action repr b)
        × (has_wildcard_resource repr a ≡ has_wildcard_resource repr b)
  unfolding granted_actions has_wildcard_action has_wildcard_resource
  denied_ignored a b h = (
    sym (grants_allowed (statements a)) ∙ ap (grants_of repr) h ∙ grants_allowed (statements b),
    by_allowed (λ st. contains "*" (actions repr st)),
    by_allowed (λ st. contains "*" (resources repr st)),
  )
    where
      by_allowed :
          (p : Fields → Bool)
          → any (λ st. is_allow repr st && p st) (statements a)
            ≡ any (λ st. is_allow repr st && p st) (statements b)
      by_allowed p =
          sym (any_allowed p (statements a))
          ∙ ap (any (λ st. is_allow repr st && p st)) h
          ∙ any_allowed p (statements b)
