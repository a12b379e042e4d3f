-- ===== src/Exceptions/Cleared.antt =====
-- What the loop of `expire_exceptions` of app/services/exception_service.py does to the candidates
-- and to the groups that it names.
use mathlib.Core.Bool.{false≢true}
use iam_sentinel_ese.Domain.Dates.{Text}
use iam_sentinel_ese.Domain.Enums.{Status, status_eq}
use iam_sentinel_ese.Exceptions.{is_candidate}
use iam_sentinel_ese.Exceptions.Active.{exception_key, revoked}
use iam_sentinel_ese.Exceptions.Expiry.{Loop, Round, back, done, gone, kept, more}
use iam_sentinel_ese.Exceptions.Reopen.{group_key, reopened}
use iam_sentinel_ese.Models.{Exception, Group, Session, update_exception, update_group}
use iam_sentinel_ese.Prelude.{
  All, All-append, All-mono, All-of, Bool-cases, List, String, arith, contains, false, inl, inr,
  map, nat_eq, option_eq, refl, string_eq, true, ℕ, ◌∷◌, ◌≡◌,
}
use iam_sentinel_ese.Table.Laws.{All-update, others}
use iam_sentinel_ese.Workflow.{write_transition}

-- Every candidate of the table is still to be treated.
abbrev IsListed : Text → List Exception → Session → Type 0
IsListed today todo s =
    All
      (λ (e : Exception).
        is_candidate today e ≡ true → contains e.id (map exception_key todo) ≡ true)
      s.exceptions

revoked_listed :
    (today : Text) (exc : Exception) (rest : List Exception) (now : String) (es : List Exception)
    → All
        (λ (e : Exception).
          is_candidate today e ≡ true → contains e.id (map exception_key (exc ∷ rest)) ≡ true)
        es
    → All
        (λ (e : Exception).
          is_candidate today e ≡ true → contains e.id (map exception_key rest) ≡ true)
        (update_exception exc.id (revoked now) es)
revoked_listed today exc rest now es h =
    All-update exception_key _ _ exc.id (revoked now) es (λ r same p k. ground arith)
      (λ r ne p k. let m = p k in ground arith) h

Round-IsListed :
    {exc : Exception} {s s' : Session} {ids : List ℕ} (today : Text) (rest : List Exception)
    → IsListed today (exc ∷ rest) s
    → Round exc s ids s'
    → IsListed today rest s'
unfolding write_transition
Round-IsListed {exc} {s} today rest l (gone e) = revoked_listed today exc rest s.now s.exceptions l
Round-IsListed {exc} {s} today rest l (kept g found never) =
    revoked_listed today exc rest s.now s.exceptions l
Round-IsListed {exc} {s} today rest l (back g found is_exception) =
    revoked_listed today exc rest s.now s.exceptions l

-- the groups with this id are open
abbrev pub IsOpen : Session → ℕ → Type 0
IsOpen s gid = All (λ (g : Group). g.id ≡ gid → g.current_status ≡ Status.opened) s.groups

reopen_keeps :
    (i gid : ℕ) (gs : List Group)
    → All (λ (g : Group). g.id ≡ gid → g.current_status ≡ Status.opened) gs
    → All
        (λ (g : Group). g.id ≡ gid → g.current_status ≡ Status.opened)
        (update_group i reopened gs)
reopen_keeps i gid gs h = All-update group_key _ _ i reopened gs (λ r e p k. refl) (λ r e p. p) h

reopen_opens :
    (i : ℕ) (gs : List Group)
    → All (λ (g : Group). g.id ≡ i → g.current_status ≡ Status.opened) (update_group i reopened gs)
reopen_opens i gs =
    All-update group_key (λ g. Unit {0}) _ i reopened gs (λ r e p k. refl) (λ r e p k. absurd (e k))
      (All-of _ gs (λ g. tt))

Round-keeps_IsOpen :
    {exc : Exception} {s s' : Session} {ids : List ℕ} (gid : ℕ)
    → IsOpen s gid
    → Round exc s ids s'
    → IsOpen s' gid
unfolding write_transition
Round-keeps_IsOpen {exc} {s} gid o (gone e) = o
Round-keeps_IsOpen {exc} {s} gid o (kept g found never) = o
Round-keeps_IsOpen {exc} {s} gid o (back g found is_exception) = reopen_keeps g.id gid s.groups o

Round-opens :
    {exc : Exception} {s s' : Session} {ids : List ℕ} → Round exc s ids s' → All (IsOpen s') ids
unfolding write_transition
Round-opens (gone e) = tt
Round-opens (kept g found never) = tt
Round-opens {exc} {s} (back g found is_exception) = (reopen_opens g.id s.groups, tt)

Loop-keeps_IsOpen :
    {todo : List Exception} {s s' : Session} {ids : List ℕ} (gid : ℕ)
    → IsOpen s gid
    → Loop todo s ids s'
    → IsOpen s' gid
Loop-keeps_IsOpen gid o done = o
Loop-keeps_IsOpen gid o (more round rest e) =
    Loop-keeps_IsOpen gid (Round-keeps_IsOpen gid o round) rest

pub Loop-opens :
    {todo : List Exception} {s s' : Session} {ids : List ℕ}
    → Loop todo s ids s'
    → All (IsOpen s') ids
Loop-opens done = tt
Loop-opens {s' = end} (more {ids = ids} {others = others} round rest e) = rw e (
    All-append (IsOpen end) ids others
      (All-mono _ _ ids (λ gid o. Loop-keeps_IsOpen gid o rest) (Round-opens round))
      (Loop-opens rest))

pub Loop-clears :
    {todo : List Exception} {s s' : Session} {ids : List ℕ} (today : Text)
    → IsListed today todo s
    → Loop todo s ids s'
    → All (λ (e : Exception). is_candidate today e ≡ false) s'.exceptions
Loop-clears {s = s} today l done =
    All-mono _ _ s.exceptions
      (λ e h. elim (Bool-cases (is_candidate today e)) [
        | inl c ↦ absurd (false≢true (h c))
        | inr c ↦ c
      ])
      l
Loop-clears today l (more {rest = rest} round later e) =
    Loop-clears today (Round-IsListed today rest l round) later
