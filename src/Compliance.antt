-- ===== src/Compliance.antt =====
-- app/compliance/mappings.py: the controls of each framework that a check covers.
use iam_sentinel_ese.Prelude.{
  List, String, [], if◌then◌else◌, map, nat_eq, option_eq, string_eq, ◌++◌, ◌==◌, ◌∷◌,
}
use iam_sentinel_ese.Prelude.Text.{concat_text}

-- `d.get(key)`, where a missing key reads as the given value
abbrev pub get_or {ℓ} : {A : Type ℓ} → A → String → List (String × A) → A
get_or fallback key [] = fallback
get_or fallback key ((k, v) ∷ d) = if k == key then v else get_or fallback key d

abbrev pub set_entry {ℓ} : {A : Type ℓ} → String → A → List (String × A) → List (String × A)
set_entry key v [] = (key, v) ∷ []
set_entry key v ((k, w) ∷ d) =
    let rest = set_entry key v d in if k == key then (k, v) ∷ d else (k, w) ∷ rest

abbrev pub compliance_map : List (String × List (String × String))
compliance_map =
    (
      "iam.user.mfa_disabled",
      ("CIS_AWS_1.4", "1.10") ∷ ("SOC2", "CC6.1") ∷ ("NIST", "IA-2(1)") ∷ [],
    )
    ∷ (
      "iam.credential.old_access_key",
      ("CIS_AWS_1.4", "1.14") ∷ ("SOC2", "CC6.1") ∷ ("NIST", "IA-5(1)") ∷ [],
    )
    ∷ (
      "iam.credential.stale_password",
      ("CIS_AWS_1.4", "1.9") ∷ ("SOC2", "CC6.1") ∷ ("NIST", "IA-5(1)") ∷ [],
    )
    ∷ ("iam.user.inactive", ("CIS_AWS_1.4", "1.12") ∷ ("SOC2", "CC6.2") ∷ ("NIST", "AC-2(3)") ∷ [])
    ∷ ("iam.user.service_console_access", ("SOC2", "CC6.1") ∷ ("NIST", "AC-2") ∷ [])
    ∷ (
      "iam.user.no_recent_login",
      ("CIS_AWS_1.4", "1.12") ∷ ("SOC2", "CC6.2") ∷ ("NIST", "AC-2(3)") ∷ [],
    )
    ∷ (
      "iam.credential.unused_active",
      ("CIS_AWS_1.4", "1.12") ∷ ("SOC2", "CC6.2") ∷ ("NIST", "AC-2(3)") ∷ [],
    )
    ∷ (
      "policy.wildcard_action",
      ("CIS_AWS_1.4", "1.16") ∷ ("SOC2", "CC6.3") ∷ ("NIST", "AC-6") ∷ [],
    )
    ∷ (
      "policy.sensitive_action_on_star",
      ("CIS_AWS_1.4", "1.16") ∷ ("SOC2", "CC6.3") ∷ ("NIST", "AC-6(1)") ∷ [],
    )
    ∷ (
      "policy.risky_not_action",
      ("CIS_AWS_1.4", "1.16") ∷ ("SOC2", "CC6.3") ∷ ("NIST", "AC-6") ∷ [],
    )
    ∷ (
      "policy.overly_broad_resource",
      ("CIS_AWS_1.4", "1.16") ∷ ("SOC2", "CC6.3") ∷ ("NIST", "AC-6") ∷ [],
    )
    ∷ (
      "iam.role.trust_wildcard_principal",
      ("CIS_AWS_1.4", "1.22") ∷ ("SOC2", "CC6.3") ∷ ("NIST", "AC-6(2)") ∷ [],
    )
    ∷ (
      "iam.escalation.passrole_createkey",
      ("CIS_AWS_1.4", "1.16") ∷ ("SOC2", "CC6.3") ∷ ("NIST", "AC-6(9)") ∷ [],
    )
    ∷ (
      "iam.principal.admin_access",
      ("CIS_AWS_1.4", "1.16") ∷ ("SOC2", "CC6.3") ∷ ("NIST", "AC-6(5)") ∷ [],
    )
    ∷ ("iam.least_privilege.unused_grants", ("SOC2", "CC6.3") ∷ ("NIST", "AC-6(1)") ∷ [])
    ∷ (
      "log.repeated_login_failures",
      ("CIS_AWS_1.4", "4.1") ∷ ("SOC2", "CC7.2") ∷ ("NIST", "AC-7") ∷ [],
    )
    ∷ ("log.privileged_login", ("CIS_AWS_1.4", "4.1") ∷ ("SOC2", "CC7.2") ∷ ("NIST", "AU-6") ∷ [])
    ∷ ("log.service_interactive_login", ("SOC2", "CC7.2") ∷ ("NIST", "AU-6") ∷ [])
    ∷ (
      "log.denied_sensitive_iam",
      ("CIS_AWS_1.4", "4.4") ∷ ("SOC2", "CC7.2") ∷ ("NIST", "AU-6") ∷ [],
    )
    ∷ ("inventory.orphaned_principal", ("SOC2", "CC6.2") ∷ ("NIST", "AC-2") ∷ [])
    ∷ []

abbrev pub tags_of : List (String × String) → List String
tags_of [] = []
tags_of ((framework, control) ∷ rest) = concat_text (framework ∷ ":" ∷ control ∷ []) ∷ tags_of rest

unfoldable pub compliance_tags_for : String → List String
compliance_tags_for check_id = tags_of (get_or [] check_id compliance_map)

unfoldable pub frameworks_for : String → List String
frameworks_for check_id = map (λ (row : String × String). row.0) (get_or [] check_id compliance_map)

-- `framework_controls`: the inverse, from frameworks to controls to checks
abbrev pub Controls : Type 0
Controls = List (String × List String)

abbrev pub add_check :
    String → String → String → List (String × Controls) → List (String × Controls)
add_check check_id framework control out =
    let controls = get_or [] framework out in
    set_entry framework (set_entry control (get_or [] control controls ++ check_id ∷ []) controls)
      out

abbrev pub add_controls :
    String → List (String × String) → List (String × Controls) → List (String × Controls)
add_controls check_id [] out = out
add_controls check_id ((framework, control) ∷ rest) out =
    add_controls check_id rest (add_check check_id framework control out)

unfoldable pub invert_map :
    List (String × List (String × String)) → List (String × Controls) → List (String × Controls)
invert_map [] out = out
invert_map ((check_id, mapping) ∷ rows) out = invert_map rows (add_controls check_id mapping out)

unfoldable pub framework_controls : List (String × Controls)
framework_controls = invert_map compliance_map []
