-- ===== src/Service.antt =====
-- A service call of app/services: it reads and writes the session, and may raise. What was written
-- before a raise stays written, so the session comes back beside the error too.
use iam_sentinel_ese.Domain.Enums.{Status}
use iam_sentinel_ese.Models.{Group, Session, get_group}
use iam_sentinel_ese.Prelude.{
  Bool, Option, String, arith, if◌then◌else◌, inl, inr, none, refl, some, ℕ, ◌≡◌, ◌⊎◌,
}

-- What a service raises. `detached` is the model's own: a call on a row that is not in its table,
-- which the program cannot make, since it gets the row from the session.
pub data Error : Type 0 where
  invalid_transition : Status → Status → Error
  invalid_kind : Status → Error
  permission_denied reason_required comment_empty detached : Error
  invalid_expiry : String → Error
  invalid_role email_required name_required short_password duplicate_email user_not_found : Error
  last_admin : Error

pub data Result (A : Type 0) : Type 0 where
  ok : A → Result A
  err : Error → Result A

abbrev pub Action : Type 0 → Type 0
Action A = Session → Result A × Session

abbrev pub ⊤ : Type 0
⊤ = Unit

module _ {A : Type 0} where
  abbrev pub pure : A → Action A
  pure a s = (ok a, s)

  abbrev pub raise : Error → Action A
  raise e s = (err e, s)

  abbrev pub gets : (Session → A) → Action A
  gets f s = (ok (f s), s)

  abbrev pub lift : Result A → Action A
  lift r s = (r, s)

  abbrev pub or_raise : Option A → Error → Action A
  or_raise none e = raise e
  or_raise (some a) _ = pure a

pub Result-cases :
    {A : Type 0} (r : Result A) → ((e : Error) × (r ≡ err e)) ⊎ ((a : A) × (r ≡ ok a))
Result-cases (ok a) = inr (a, refl)
Result-cases (err e) = inl (e, refl)

infixl 5 ◌>>=◌ ◌>>◌
abbrev pub ◌>>=◌ : {A B : Type 0} → Action A → (A → Action B) → Action B
◌>>=◌ m f s = let (r, s') = m s in elim r [ ok a ↦ f a s' | err e ↦ raise e s' ]

abbrev pub ◌>>◌ : {A B : Type 0} → Action A → Action B → Action B
m >> k = m >>= λ _. k

abbrev pub raise_if : Bool → Error → Action ⊤
raise_if c e s = (if c then err e else ok tt, s)

abbrev pub modify : (Session → Session) → Action ⊤
modify f s = (ok tt, f s)

-- the group that a service was handed, as the session has it now
abbrev pub attached : ℕ → Action Group
attached gid s = or_raise (get_group gid s.groups) detached s

-- A service that begins with its group.
module _ {A : Type 0} (gid : ℕ) (f : Group → Action A) (s : Session) where
  pub attached_missing : get_group gid s.groups ≡ none → (attached gid >>= f) s ≡ (err detached, s)
  attached_missing e = ground arith

  pub attached_found :
      (g : Group) → get_group gid s.groups ≡ some g → (attached gid >>= f) s ≡ f g s
  attached_found g found = ground arith
