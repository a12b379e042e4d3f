-- ===== src/Policy.antt =====
-- app/domain/policy.py: the structural reader of IAM policy documents, over JSON values. `repr`
-- is what `str` prints for a number, a list or an object.
pub mod Grants
pub mod Denied
pub mod Actions
use iam_sentinel_ese.Json.{
  Fields, Value, Values, array, decimal, entry, get_field, has_field, item, no_fields, no_values,
  null, number, object, string, truth,
}
use iam_sentinel_ese.Prelude.{
  Bool, List, String, [], any, contains, false, if◌then◌else◌, map, nat_eq, not, option_eq,
  string_eq, true, ◌&&◌, ◌++◌, ◌==◌, ◌||◌, ◌∷◌,
}
use iam_sentinel_ese.Prelude.Text.{lower}
use iam_sentinel_ese.Rbac.{role_eq}

-- `[s for s in raw if isinstance(s, dict)]`
abbrev pub objects_of : Values → List Fields
objects_of no_values = []
objects_of (item (object fs) rest) = fs ∷ objects_of rest
objects_of (item _ rest) = objects_of rest

abbrev pub statements_of : Value → List Fields
statements_of (object fs) = fs ∷ []
statements_of (array vs) = objects_of vs
statements_of _ = []

unfoldable pub statements : Value → List Fields
statements (object document) = statements_of (get_field "Statement" document)
statements _ = []

abbrev pub is_listed : List String → Bool
is_listed [] = false
is_listed (_ ∷ _) = true

module _ (repr : Value → String) where
  -- Python's `str(value)`
  abbrev pub to_text : Value → String
  to_text null = "None"
  to_text (truth true) = "True"
  to_text (truth false) = "False"
  to_text (number n) = repr (number n)
  to_text (decimal printed) = printed
  to_text (string t) = t
  to_text (array vs) = repr (array vs)
  to_text (object fs) = repr (object fs)

  abbrev pub texts_of : Values → List String
  texts_of no_values = []
  texts_of (item v rest) = to_text v ∷ texts_of rest

  abbrev pub keys_of : Fields → List String
  keys_of no_fields = []
  keys_of (entry name v rest) = name ∷ keys_of rest

  -- `_as_list`
  abbrev pub as_list : Value → List String
  as_list null = []
  as_list (array vs) = texts_of vs
  as_list (object fs) = keys_of fs
  as_list v = to_text v ∷ []

  abbrev pub actions : Fields → List String
  actions st = as_list (get_field "Action" st)

  abbrev pub not_actions : Fields → List String
  not_actions st = as_list (get_field "NotAction" st)

  -- `str(statement.get("Effect", "Allow")).lower() == "allow"`
  unfoldable pub is_allow : Fields → Bool
  is_allow st =
      lower (if has_field "Effect" st then to_text (get_field "Effect" st) else "Allow") == "allow"

  -- what one statement adds
  abbrev pub granted_by : Fields → List String
  granted_by st =
      if not (is_allow st) then [] else if is_listed (not_actions st) then "*" ∷ [] else actions st

  -- `granted_actions`, the set as a list of which only membership is asked
  abbrev pub grants_of : List Fields → List String
  grants_of [] = []
  grants_of (st ∷ rest) = granted_by st ++ grants_of rest

  unfoldable pub granted_actions : Value → List String
  granted_actions document = grants_of (statements document)

  unfoldable pub has_wildcard_action : Value → Bool
  has_wildcard_action document =
      any (λ st. is_allow st && contains "*" (actions st)) (statements document)

  -- `resources`: a `NotResource` statement counts as unbounded
  abbrev pub resources_or : List String → Fields → List String
  resources_or (r ∷ rs) st = r ∷ rs
  resources_or [] st = elim (get_field "NotResource" st) [
    | null ↦ []
    | truth b ↦ "*" ∷ []
    | number n ↦ "*" ∷ []
    | decimal d ↦ "*" ∷ []
    | string t ↦ "*" ∷ []
    | array vs ↦ "*" ∷ []
    | object fs ↦ "*" ∷ []
  ]

  abbrev pub resources : Fields → List String
  resources st = resources_or (as_list (get_field "Resource" st)) st

  unfoldable pub has_wildcard_resource : Value → Bool
  has_wildcard_resource document =
      any (λ st. is_allow st && contains "*" (resources st)) (statements document)

  unfoldable pub uses_not_action : Value → Bool
  uses_not_action document = any (λ st. is_listed (not_actions st)) (statements document)

  -- `acts` has `sts:assumerole` or `*`, in lower case
  unfoldable pub is_assume_role_statement : Fields → Bool
  is_assume_role_statement st =
      is_allow st
      && (contains "sts:assumerole" (map lower (actions st))
          || contains "*" (map lower (actions st)))
