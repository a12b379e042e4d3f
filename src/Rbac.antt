-- ===== src/Rbac.antt =====
-- app/services/rbac.py: the role ladder and its public-mode clamp. `public_mode` is what
-- `get_settings().public_mode` reads from the environment.
pub mod Ladder
use iam_sentinel_ese.Prelude.{
  ℕ, String, ◌≡◌, ◌↔◌, Bool, true, false, not, ◌&&◌, Option, none, some, List, [], ◌∷◌, arith, Eq,
  ◌==◌, string_eq, leb, if◌then◌else◌,
}

-- the text of a role; `other` is any text that is not on the ladder
pub data Role : Type 0 where
  read_only analyst admin : Role
  other : String → Role

abbrev pub role_beq : Role → Role → Bool
role_beq read_only read_only = true
role_beq analyst analyst = true
role_beq admin admin = true
role_beq (other s) (other t) = string_eq.beq s t
role_beq _ _ = false

pub role_beq_iff : (a b : Role) → (role_beq a b ≡ true) ↔ (a ≡ b)
role_beq_iff (other s) (other t) = ground (arith, string_eq.beq_iff s t)
role_beq_iff (other s) b = ground arith
role_beq_iff read_only b = ground arith
role_beq_iff analyst b = ground arith
role_beq_iff admin b = ground arith

instance abbrev pub role_eq : Eq Role
role_eq = record { beq = role_beq; beq_iff = role_beq_iff }

-- `ROLES`
abbrev pub roles : List Role
roles = read_only ∷ analyst ∷ admin ∷ []

-- `_RANK.get(role or "", 0)`
unfoldable pub rank : Option Role → ℕ
rank none = 0
rank (some read_only) = 1
rank (some analyst) = 2
rank (some admin) = 3
rank (some (other s)) = 0

-- the minimum that a capability names, always a role of the ladder
pub data Minimum : Type 0 where
  read_only analyst admin : Minimum

unfoldable pub minimum_rank : Minimum → ℕ
minimum_rank Minimum.read_only = 1
minimum_rank Minimum.analyst = 2
minimum_rank Minimum.admin = 3

unfoldable pub above_read_only : Minimum → Bool
above_read_only Minimum.read_only = false
above_read_only _ = true

unfoldable pub at_least : Bool → Option Role → Minimum → Bool
unfolding rank minimum_rank above_read_only
at_least public_mode role minimum =
    if above_read_only minimum && public_mode then false else leb (minimum_rank minimum) (rank role)

-- `class Capability`: the approved matrix
pub data Capability : Type 0 where
  view run_scan manage_schedule connect_account delete_account workflow_transition assign :
      Capability
  comment suppress accept_risk_create create_ticket manage_users : Capability
  manage_integrations manage_settings : Capability

unfoldable pub required : Capability → Minimum
required view = Minimum.read_only
required run_scan = Minimum.analyst
required manage_schedule = Minimum.analyst
required connect_account = Minimum.admin
required delete_account = Minimum.admin
required workflow_transition = Minimum.analyst
required assign = Minimum.analyst
required comment = Minimum.analyst
required suppress = Minimum.analyst
required accept_risk_create = Minimum.admin
required create_ticket = Minimum.analyst
required manage_users = Minimum.admin
required manage_integrations = Minimum.admin
required manage_settings = Minimum.admin
