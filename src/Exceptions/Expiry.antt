-- ===== src/Exceptions/Expiry.antt =====
-- What `expire_exceptions` of app/services/exception_service.py promises.
use iam_sentinel_ese.Workflow.Machine
use iam_sentinel_ese.Domain.Dates.{Date, isoformat}
use iam_sentinel_ese.Domain.Enums.{Status, status_eq}
use iam_sentinel_ese.Exceptions.{
  expire_each, expire_exceptions, expire_one, is_candidate, is_exception_status, revoke,
}
use iam_sentinel_ese.Exceptions.Reopen.{Allowed-reopen, group_key}
use iam_sentinel_ese.Models.{Exception, Group, Session, get_group}
use iam_sentinel_ese.Prelude.{
  Bool-cases, List, Option, Option-cases, String, [], arith, false, filter_by, inl, inr, nat_eq,
  none, option_eq, refl, some, string_eq, true, ℕ, ◌++◌, ◌∷◌, ◌≡◌,
}
use iam_sentinel_ese.Service.{ok}
use iam_sentinel_ese.Table.Laws.{get-key}
use iam_sentinel_ese.Workflow.{write_transition}
use iam_sentinel_ese.Workflow.Machine.{moved}

-- the text that the loop writes to the history
abbrev pub auto_note : Option String
auto_note = some "Exception expired, auto-reopened"

-- What one round does: the row is closed, and its group is reopened if it is in an exception state.
pub data Round (exc : Exception) (s : Session) : List ℕ → Session → Type 0 where
  gone : get_group exc.group_id s.groups ≡ none → Round exc s [] (revoke exc.id s)
  kept :
      (g : Group)
      → get_group exc.group_id s.groups ≡ some g
      → is_exception_status g.current_status ≡ false
      → Round exc s [] (revoke exc.id s)
  back :
      (g : Group)
      → get_group exc.group_id s.groups ≡ some g
      → is_exception_status g.current_status ≡ true
      → Round exc s (g.id ∷ []) (write_transition g Status.opened none auto_note (revoke exc.id s))

-- The rounds of the loop.
pub data Loop : List Exception → Session → List ℕ → Session → Type 0 where
  done : {s : Session} → Loop [] s [] s
  more :
      {exc : Exception} {rest : List Exception} {s s' s'' : Session} {ids others all : List ℕ}
      → Round exc s ids s'
      → Loop rest s' others s''
      → all ≡ ids ++ others
      → Loop (exc ∷ rest) s all s''

abbrev RoundOf : Exception → Session → Type 0
RoundOf exc s =
    (ids : List ℕ) × (s' : Session) × (expire_one exc s ≡ (ok ids, s')) × Round exc s ids s'

abbrev pub LoopOf : List Exception → Session → Type 0
LoopOf todo s =
    (ids : List ℕ) × (s' : Session) × (expire_each todo s ≡ (ok ids, s')) × Loop todo s ids s'

module _ (exc : Exception) (s : Session) where
  round_gone : get_group exc.group_id s.groups ≡ none → expire_one exc s ≡ (ok [], revoke exc.id s)
  unfolding expire_one
  round_gone e = ground arith

  round_kept :
      (g : Group)
      → get_group exc.group_id s.groups ≡ some g
      → is_exception_status g.current_status ≡ false
      → expire_one exc s ≡ (ok [], revoke exc.id s)
  unfolding expire_one
  round_kept g found h = ground arith

  -- The transition of a round is never refused.
  round_back :
      (g : Group)
      → get_group exc.group_id s.groups ≡ some g
      → is_exception_status g.current_status ≡ true
      → expire_one exc s
        ≡ (ok (g.id ∷ []), write_transition g Status.opened none auto_note (revoke exc.id s))
  unfolding expire_one
  round_back g found h =
      let moved =
        Machine.transition-moved g.id Status.opened none auto_note (revoke exc.id s) g
          (get-key group_key exc.group_id s.groups g found)
          ((Machine.Allowed-iff g.current_status Status.opened).1
            (Allowed-reopen g.current_status h)) in
      ground arith

  round_found : (g : Group) → get_group exc.group_id s.groups ≡ some g → RoundOf exc s
  round_found g found = elim (Bool-cases (is_exception_status g.current_status)) [
    | inl h ↦ (
      g.id ∷ [],
      write_transition g Status.opened none auto_note (revoke exc.id s),
      round_back g found h,
      back g found h,
    )
    | inr h ↦ ([], revoke exc.id s, round_kept g found h, kept g found h)
  ]

  expire_one-Round : RoundOf exc s
  expire_one-Round = elim (Option-cases (get_group exc.group_id s.groups)) [
    | inl e ↦ ([], revoke exc.id s, round_gone e, gone e)
    | inr (g, found) ↦ round_found g found
  ]

each_step :
    (exc : Exception) (rest : List Exception) (s s' s'' : Session) (ids others : List ℕ)
    → expire_one exc s ≡ (ok ids, s')
    → expire_each rest s' ≡ (ok others, s'')
    → expire_each (exc ∷ rest) s ≡ (ok (ids ++ others), s'')
unfolding expire_each
each_step exc rest s s' s'' ids others e e' = ground arith

pub expire_each-Loop : (todo : List Exception) (s : Session) → LoopOf todo s
unfolding expire_each
expire_each-Loop [] s = ([], s, refl, done)
expire_each-Loop (exc ∷ rest) s =
    let (ids, s', e, round) = expire_one-Round exc s in
    let (others, s'', e', loop) = expire_each-Loop rest s' in
    (ids ++ others, s'', each_step exc rest s s' s'' ids others e e', more round loop refl)

-- What a call does: the rounds for the rows that were candidates when it began.
pub expire_exceptions-Loop :
    (today : Date) (s : Session)
    → (ids : List ℕ) × (s' : Session) × (expire_exceptions today s ≡ (ok ids, s'))
      × Loop (filter_by (is_candidate (isoformat today)) s.exceptions) s ids s'
unfolding expire_exceptions
expire_exceptions-Loop today s =
    expire_each-Loop (filter_by (is_candidate (isoformat today)) s.exceptions) s
