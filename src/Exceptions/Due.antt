-- ===== src/Exceptions/Due.antt =====
-- Which exceptions `expire_exceptions` of app/services/exception_service.py closes, by the dates of
-- their expiry.
use iam_sentinel_ese.Table
use mathlib.Core.Bool.{false≢true}
use iam_sentinel_ese.Domain.Dates.{Before, Date, IsDate, isoformat, text_leb}
use iam_sentinel_ese.Domain.Dates.Order.{isoformat_order}
use iam_sentinel_ese.Exceptions.{expire_exceptions, has_expired, is_candidate}
use iam_sentinel_ese.Exceptions.Active.{exception_key, revoked}
use iam_sentinel_ese.Exceptions.Cleared.{IsOpen, Loop-clears, Loop-opens}
use iam_sentinel_ese.Exceptions.Expiry.{
  Loop, Round, back, done, expire_exceptions-Loop, gone, kept, more,
}
use iam_sentinel_ese.Models.{Exception, Session, update_exception}
use iam_sentinel_ese.Prelude.{
  All, All-mono, Bool, Bool-cases, List, [], ap, arith, contains, false, filter_by, inl, inr, map,
  nat_eq, none, option_eq, refl, some, string_eq, sym, true, ℕ, ◌∙◌, ◌∷◌, ◌≡◌, ◌≢◌,
}
use iam_sentinel_ese.Service.{ok}
use iam_sentinel_ese.Table.Laws.{Distinct, get-update_ne, get_cases, listed-filter}
use iam_sentinel_ese.Workflow.{write_transition}

-- The expiry of this exception has not come: there is none, or it is later than today.
pub data NotDue (today : Date) (e : Exception) : Type 0 where
  never : e.expires_at ≡ none → NotDue today e
  later :
      (d : Date) → IsDate d → e.expires_at ≡ some (isoformat d) → ¬ Before d today → NotDue today e

-- What the day's expiry leaves: an exception that is due is not active, and one that is not due is
-- as it was.
pub record IsSettled (today : Date) (s s' : Session) : Type 0 where
  pub closed :
      All
        (λ (e : Exception).
          (d : Date)
          → IsDate d
          → e.expires_at ≡ some (isoformat d)
          → Before d today
          → e.revoked_at ≢ none)
        s'.exceptions
  pub left :
      (i : ℕ) (e : Exception)
      → Table.get exception_key i s.exceptions ≡ some e
      → NotDue today e
      → Table.get exception_key i s'.exceptions ≡ some e

due_candidate :
    (today d : Date) (e : Exception)
    → IsDate today
    → IsDate d
    → e.expires_at ≡ some (isoformat d)
    → Before d today
    → e.revoked_at ≡ none
    → is_candidate (isoformat today) e ≡ true
due_candidate today d e h k at due active =
    let shown : has_expired (isoformat today) e.expires_at ≡ true =
      rw at ((isoformat_order d today k h).1 due) in
    rw active shown

NotDue-candidate :
    (today : Date) (e : Exception)
    → IsDate today
    → NotDue today e
    → is_candidate (isoformat today) e ≡ false
NotDue-candidate today e h (never at) =
    let shown : has_expired (isoformat today) e.expires_at ≡ false = rw at refl in ground arith
NotDue-candidate today e h (later d k at not_yet) =
    let shown : has_expired (isoformat today) e.expires_at ≡ false =
      rw at (elim (Bool-cases (text_leb (isoformat d) (isoformat today))) [
        | inl early ↦ absurd (not_yet ((isoformat_order d today k h).0 early))
        | inr past ↦ past
      ]) in
    ground arith

module _ {A : Type 0} (key : A → ℕ) (p : A → Bool) where
  absent_filter :
      (i : ℕ) (rs : List A)
      → All (λ r. key r ≢ i) rs
      → contains i (map key (filter_by p rs)) ≡ false
  absent_filter i [] a = refl
  absent_filter i (r ∷ rs) a = let ne = a.0 in let ih = absent_filter i rs a.1 in ground arith

  -- A row that fails the test is not listed among those that pass.
  unlisted-filter :
      (i : ℕ) (rs : List A) (r : A)
      → Distinct key rs
      → Table.get key i rs ≡ some r
      → p r ≡ false
      → contains i (map key (filter_by p rs)) ≡ false
  unlisted-filter i [] r d found fails = refl
  unlisted-filter i (q ∷ rs) r d found fails = elim (get_cases key i q rs r found) [
    | inl (at, is_row) ↦
        let gone =
          absent_filter i rs (All-mono _ (λ x. key x ≢ i) rs (λ x ne e. ne (e ∙ sym at)) d.0) in
        let dropped : p q ≡ false = rw is_row fails in rw dropped gone
    | inr (ne, after) ↦ let ih = unlisted-filter i rs r d.1 after fails in ground arith
  ]

unlisted_ne :
    (i : ℕ) (exc : Exception) (rest : List Exception)
    → contains i (map exception_key (exc ∷ rest)) ≡ false
    → exc.id ≢ i
unlisted_ne i exc rest h e = ground arith

unlisted_rest :
    (i : ℕ) (exc : Exception) (rest : List Exception)
    → contains i (map exception_key (exc ∷ rest)) ≡ false
    → contains i (map exception_key rest) ≡ false
unlisted_rest i exc rest h = ground arith

pub Round-exceptions :
    {exc : Exception} {s s' : Session} {ids : List ℕ}
    → Round exc s ids s'
    → s'.exceptions ≡ update_exception exc.id (revoked s.now) s.exceptions
unfolding write_transition
Round-exceptions (gone e) = refl
Round-exceptions (kept g found open_already) = refl
Round-exceptions (back g found is_exception) = refl

Loop-leaves :
    (todo : List Exception) {s s' : Session} {ids : List ℕ} (i : ℕ)
    → contains i (map exception_key todo) ≡ false
    → Loop todo s ids s'
    → Table.get exception_key i s'.exceptions ≡ Table.get exception_key i s.exceptions
Loop-leaves [] i h done = refl
Loop-leaves (exc ∷ rest) {s = s} i h (more round rounds e) =
    Loop-leaves rest i (unlisted_rest i exc rest h) rounds
    ∙ ap (Table.get exception_key i) (Round-exceptions round)
    ∙ get-update_ne exception_key exc.id i (revoked s.now) s.exceptions (λ r. refl)
        (unlisted_ne i exc rest h)

-- The daily expiry never raises. Where the ids of the exceptions are distinct, afterwards no
-- exception whose date is today or earlier is active, every exception with no date or a later one
-- is as it was, and every group that is returned is open.
pub expire_exceptions-IsSettled :
    (today : Date) (s : Session)
    → IsDate today
    → Distinct exception_key s.exceptions
    → (ids : List ℕ) × (s' : Session) × (expire_exceptions today s ≡ (ok ids, s'))
      × IsSettled today s s'
      × All (IsOpen s') ids
expire_exceptions-IsSettled today s h d =
    let (ids, s', e, loop) = expire_exceptions-Loop today s in
    (
      ids,
      s',
      e,
      record {
        closed =
            All-mono _ _ s'.exceptions
              (λ x clear k is_date at due active.
                false≢true (sym clear ∙ due_candidate today k x h is_date at due active))
              (Loop-clears (isoformat today)
                (listed-filter exception_key (is_candidate (isoformat today)) s.exceptions) loop);
        left = λ i x found not_yet.
            Loop-leaves (filter_by (is_candidate (isoformat today)) s.exceptions) i
              (unlisted-filter exception_key (is_candidate (isoformat today)) i s.exceptions x d
                found (NotDue-candidate today x h not_yet))
              loop
            ∙ found;
      },
      Loop-opens loop,
    )
