-- ===== src/Exceptions/Active.antt =====
-- How many active exceptions a group has, after one more exception and after a revocation.
use iam_sentinel_ese.Table
use mathlib.Core.Path.{subst}
use iam_sentinel_ese.Domain.Dates.{Text}
use iam_sentinel_ese.Domain.Enums.{Status, status_eq}
use iam_sentinel_ese.Exceptions.{first_active, is_active_of, new_row}
use iam_sentinel_ese.Models.{Exception, update_exception}
use iam_sentinel_ese.Prelude.{
  All-mono, List, Option, String, [], arith, count_by, count_by-append, false, if◌then◌else◌, inl,
  inr, nat_eq, none, option_eq, refl, some, string_eq, sym, true, ℕ, ◌++◌, ◌+◌, ◌==◌, ◌∙◌, ◌∷◌, ◌≡◌,
  ◌≢◌, ◌⊎◌,
}
use iam_sentinel_ese.Table.Laws.{All-get, Distinct, get_cases, update_absent}

-- the active exceptions of a group
abbrev pub active_count : ℕ → List Exception → ℕ
active_count gid es = count_by (is_active_of gid) es

abbrev pub revoked : String → Exception → Exception
revoked now e = record e { revoked_at = some now }

abbrev pub exception_key : Exception → ℕ
exception_key e = e.id

-- A revocation takes the row out of its group's count and out of no other.
pub active_count-revoke :
    (gid i : ℕ) (now : String) (es : List Exception) (e : Exception)
    → Distinct exception_key es
    → Table.get exception_key i es ≡ some e
    → active_count gid (update_exception i (revoked now) es) + (if is_active_of gid e then 1 else 0)
      ≡ active_count gid es
active_count-revoke gid i now [] e d h = ground arith
active_count-revoke gid i now (q ∷ es) e d h = elim (get_cases exception_key i q es e h) [
  | inl (k, same) ↦
      rw
        (
          update_absent exception_key i (revoked now) es
              (All-mono _ _ es (λ r ne at. ne (at ∙ sym k)) d.0),
          ← same,
        )
        (ground arith)
  | inr (k, later) ↦ ground (arith, active_count-revoke gid i now es e d.1 later)
]

first_cases :
    (gid : ℕ) (q : Exception) (es : List Exception) (e : Exception)
    → first_active gid (q ∷ es) ≡ some e
    → ((is_active_of gid q ≡ true) × (q ≡ e))
      ⊎ ((is_active_of gid q ≡ false) × (first_active gid es ≡ some e))
first_cases gid q es e h = ground arith

-- The row that `session.scalar` returns is active.
pub first_active-is_active :
    (gid : ℕ) (es : List Exception) (e : Exception)
    → first_active gid es ≡ some e
    → is_active_of gid e ≡ true
first_active-is_active gid [] e h = ground arith
first_active-is_active gid (q ∷ es) e h = elim (first_cases gid q es e h) [
  | inl (a, same) ↦ subst (λ x. is_active_of gid x ≡ true) same a
  | inr (a, later) ↦ first_active-is_active gid es e later
]

-- It is the row that its key names.
pub get-first_active :
    (gid : ℕ) (es : List Exception) (e : Exception)
    → Distinct exception_key es
    → first_active gid es ≡ some e
    → Table.get exception_key e.id es ≡ some e
get-first_active gid [] e d h = ground arith
get-first_active gid (q ∷ es) e d h = elim (first_cases gid q es e h) [
  | inl (a, same) ↦ rw same (ground arith)
  | inr (a, later) ↦ get_later e (get-first_active gid es e d.1 later)
]
  where
    get_later :
        (e : Exception)
        → Table.get exception_key e.id es ≡ some e
        → Table.get exception_key e.id (q ∷ es) ≡ some e
    get_later e found =
        let ne : e.id ≢ q.id = All-get exception_key (λ r. r.id ≢ q.id) e.id es e d.0 found in
        ground arith

-- A group with no active exception has none counted.
pub first_active-none :
    (gid : ℕ) (es : List Exception) → first_active gid es ≡ none → active_count gid es ≡ 0
first_active-none gid [] h = refl
first_active-none gid (q ∷ es) h = ground (arith, first_active-none gid es)

-- A new exception counts for its group only.
pub active_count-append :
    (j gid : ℕ) (kind : Status) (reason : String) (actor_id : ℕ) (expiry : Option Text)
    (keys es : List Exception)
    → active_count j (es ++ new_row gid kind reason actor_id expiry keys ∷ [])
      ≡ active_count j es + (if gid == j then 1 else 0)
active_count-append j gid kind reason actor_id expiry keys es =
    rw (count_by-append (is_active_of j) es (new_row gid kind reason actor_id expiry keys ∷ []))
      (ground arith)
