-- ===== src/Json.antt =====
-- JSON values as Python's dictionaries and lists hold them: policy documents, the evidence of findings
-- and the configuration of accounts. `decimal` stands for a number that is not a natural one, by the
-- text that `str` prints for it.
use iam_sentinel_ese.Prelude.{
  Bool, String, false, if◌then◌else◌, ltb, nat_eq, not, option_eq, string_eq, true, ℕ, ◌==◌, ◌||◌,
}
use iam_sentinel_ese.Prelude.Text.{is_empty}

mutual
  pub data Value : Type 0 where
    null : Value
    truth : Bool → Value
    number : ℕ → Value
    decimal : String → Value
    string : String → Value
    array : Values → Value
    object : Fields → Value

  pub data Values : Type 0 where
    no_values : Values
    item : Value → Values → Values

  pub data Fields : Type 0 where
    no_fields : Fields
    entry : String → Value → Fields → Fields

-- `fields.get(key)`, where a missing key reads as null
abbrev pub get_field : String → Fields → Value
get_field key no_fields = null
get_field key (entry name v rest) = if name == key then v else get_field key rest

abbrev pub has_field : String → Fields → Bool
has_field key no_fields = false
has_field key (entry name v rest) = (name == key) || has_field key rest

-- Python's truth of a value, as `a or b` asks it
abbrev pub is_truthy : Value → Bool
is_truthy null = false
is_truthy (truth b) = b
is_truthy (number n) = ltb 0 n
is_truthy (decimal printed) = not ((printed == "0.0") || (printed == "-0.0"))
is_truthy (string s) = not (is_empty s)
is_truthy (array no_values) = false
is_truthy (array (item v rest)) = true
is_truthy (object no_fields) = false
is_truthy (object (entry name v rest)) = true
