-- ===== src/Rbac/Ladder.antt =====
-- What the role ladder of app/services/rbac.py promises.
use iam_sentinel_ese.Prelude.{
  Bool, Option, arith, false, inl, inr, refl, some, true, ◌↔◌, ◌≡◌, ◌≢◌, ◌≤◌, ◌⊎◌,
}
use iam_sentinel_ese.Rbac.{Minimum, Role, at_least, minimum_rank}

-- The roles that meet each minimum; a text that is no role of the ladder meets none.
pub data Meets : Option Role → Minimum → Type 0 where
  reader_reads : Meets (some Role.read_only) Minimum.read_only
  analyst_reads : Meets (some Role.analyst) Minimum.read_only
  analyst_acts : Meets (some Role.analyst) Minimum.analyst
  admin_reads : Meets (some Role.admin) Minimum.read_only
  admin_acts : Meets (some Role.admin) Minimum.analyst
  admin_rules : Meets (some Role.admin) Minimum.admin

meets :
    (public_mode : Bool) (role : Option Role) (minimum : Minimum)
    → at_least public_mode role minimum ≡ true
    → Meets role minimum
unfolding at_least
meets p (some Role.read_only) Minimum.read_only h = reader_reads
meets p (some Role.analyst) Minimum.read_only h = analyst_reads
meets p (some Role.analyst) Minimum.analyst h = analyst_acts
meets p (some Role.admin) Minimum.read_only h = admin_reads
meets p (some Role.admin) Minimum.analyst h = admin_acts
meets p (some Role.admin) Minimum.admin h = admin_rules
meets p _ _ h = ground arith

clamped :
    (public_mode : Bool) (role : Option Role) (minimum : Minimum)
    → at_least public_mode role minimum ≡ true
    → public_mode ≡ true
    → minimum ≡ Minimum.read_only
unfolding at_least
clamped p r m h k = ground arith

granted :
    (public_mode : Bool) (role : Option Role) (minimum : Minimum)
    → Meets role minimum
    → (public_mode ≡ true → minimum ≡ Minimum.read_only)
    → at_least public_mode role minimum ≡ true
unfolding at_least
granted p _ _ reader_reads k = refl
granted p _ _ analyst_reads k = refl
granted p _ _ analyst_acts k = ground arith
granted p _ _ admin_reads k = refl
granted p _ _ admin_acts k = ground arith
granted p _ _ admin_rules k = ground arith

-- Reading is granted to the three roles of the ladder, what needs an analyst to analysts and admins,
-- what needs an admin to admins, and nothing to a missing or an unknown role; in public mode nothing
-- is granted but reading.
pub at_least_iff :
    (public_mode : Bool) (role : Option Role) (minimum : Minimum)
    → (at_least public_mode role minimum ≡ true)
      ↔ (Meets role minimum × (public_mode ≡ true → minimum ≡ Minimum.read_only))
at_least_iff p r m = ((λ h. (meets p r m h, clamped p r m h)), (λ h. granted p r m h.0 h.1))

-- Whoever is no admin, and in public mode everyone, lacks what needs an admin.
pub admin_only :
    (public_mode : Bool) (role : Role)
    → (role ≢ Role.admin) ⊎ (public_mode ≡ true)
    → at_least public_mode (some role) Minimum.admin ≡ false
unfolding at_least
admin_only p Role.admin (inl ne) = absurd (ne refl)
admin_only p role (inl ne) = ground arith
admin_only p role (inr k) = ground arith

-- A role that is granted a minimum is granted every lower one.
pub at_least_mono :
    (public_mode : Bool) (role : Option Role) (m n : Minimum)
    → minimum_rank m ≤ minimum_rank n
    → at_least public_mode role n ≡ true
    → at_least public_mode role m ≡ true
unfolding at_least
at_least_mono p r m n h k = ground arith
