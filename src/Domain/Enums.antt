-- ===== src/Domain/Enums.antt =====
-- app/domain/enums.py. The database stores these as text; `other` stands for a text that names no
-- member, which the columns and the callers' arguments may hold.
use iam_sentinel_ese.Prelude.{
  Bool, Eq, String, arith, false, nat_eq, option_eq, string_eq, true, ℕ, ◌↔◌, ◌≡◌,
}

pub data Severity : Type 0 where
  low medium high critical : Severity

-- `Severity.rank`
unfoldable pub rank : Severity → ℕ
rank low = 0
rank medium = 1
rank high = 2
rank critical = 3

-- `Severity.base_weight`
unfoldable pub base_weight : Severity → ℕ
base_weight low = 20
base_weight medium = 45
base_weight high = 70
base_weight critical = 90

pub data Category : Type 0 where
  identity privilege credential hygiene policy log inventory : Category

-- the workflow status of a finding group, `open` being a reserved word here
pub data Status : Type 0 where
  opened investigating resolved suppressed accepted_risk : Status
  other : String → Status

pub data ExceptionKind : Type 0 where
  suppressed accepted_risk : ExceptionKind

pub data RunStatus : Type 0 where
  queued ingesting analyzing completed failed canceled : RunStatus

-- `RunStatus.is_terminal`
unfoldable pub is_terminal : RunStatus → Bool
is_terminal completed = true
is_terminal failed = true
is_terminal canceled = true
is_terminal _ = false

-- `status == "completed"`
abbrev pub is_completed : RunStatus → Bool
is_completed completed = true
is_completed _ = false

abbrev pub status_beq : Status → Status → Bool
status_beq opened opened = true
status_beq investigating investigating = true
status_beq resolved resolved = true
status_beq Status.suppressed Status.suppressed = true
status_beq Status.accepted_risk Status.accepted_risk = true
status_beq (other s) (other t) = string_eq.beq s t
status_beq _ _ = false

pub status_beq_iff : (a b : Status) → (status_beq a b ≡ true) ↔ (a ≡ b)
status_beq_iff (other s) (other t) = ground (arith, string_eq.beq_iff s t)
status_beq_iff opened b = ground arith
status_beq_iff investigating b = ground arith
status_beq_iff resolved b = ground arith
status_beq_iff Status.suppressed b = ground arith
status_beq_iff Status.accepted_risk b = ground arith
status_beq_iff (other s) b = ground arith

instance abbrev pub status_eq : Eq Status
status_eq = record { beq = status_beq; beq_iff = status_beq_iff }

abbrev pub severity_beq : Severity → Severity → Bool
severity_beq low low = true
severity_beq medium medium = true
severity_beq high high = true
severity_beq critical critical = true
severity_beq _ _ = false

pub severity_beq_iff : (a b : Severity) → (severity_beq a b ≡ true) ↔ (a ≡ b)
severity_beq_iff a b = ground arith

instance abbrev pub severity_eq : Eq Severity
severity_eq = record { beq = severity_beq; beq_iff = severity_beq_iff }
