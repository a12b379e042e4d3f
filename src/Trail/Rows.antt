-- ===== src/Trail/Rows.antt =====
-- How the audit trail and the mirror change with one more row or one more status.
use iam_sentinel_ese.Prelude.{
  ℕ, ◌≡◌, refl, ◌≢◌, true, Option, none, some, List, [], ◌∷◌, ◌++◌, arith, All, All-of, nat_eq,
  option_eq, if_both,
}
use iam_sentinel_ese.Domain.Enums.{Status, status_eq}
use iam_sentinel_ese.Models.{Group, Finding, History}
use iam_sentinel_ese.Workflow.{set_finding_status, sync_findings}
use iam_sentinel_ese.Trail.{carries_on, replay, IsMirrored}

-- A row of another group does not move this one.
pub replay-append_ne :
    (gid : ℕ) (now : Option Status) (hs : List History) (h : History)
    → h.group_id ≢ gid
    → replay gid now (hs ++ h ∷ []) ≡ replay gid now hs
replay-append_ne gid now [] h ne = ground arith
replay-append_ne gid now (k ∷ hs) h ne =
    ground
      (arith, replay-append_ne gid (some k.to_status) hs h ne, replay-append_ne gid now hs h ne)

-- A row that carries on moves the group to its status.
pub replay-append_self :
    (gid : ℕ) (now : Option Status) (hs : List History) (h : History) (end : Option Status)
    → h.group_id ≡ gid
    → replay gid now hs ≡ some end
    → carries_on end h ≡ true
    → replay gid now (hs ++ h ∷ []) ≡ some (some h.to_status)
replay-append_self gid now [] h end eq r c =
    let d : carries_on now h ≡ true = rw (let e : now ≡ end = cc in e) c in ground arith
replay-append_self gid now (k ∷ hs) h end eq r c = ground (
  arith,
  replay-append_self gid (some k.to_status) hs h end eq,
  replay-append_self gid now hs h end eq,
)

-- A group that the history does not name has not been detected.
pub replay_unknown :
    (gid : ℕ) (now : Option Status) (hs : List History)
    → All (λ h. h.group_id ≢ gid) hs
    → replay gid now hs ≡ some now
replay_unknown gid now [] a = refl
replay_unknown gid now (h ∷ hs) a = ground (arith, replay_unknown gid now hs a.1)

-- A finding after `set_finding_status`, seen by the group that was written to and by another.
abbrev Shows : ℕ → ℕ → Status → Finding → Type 0
Shows gid run st f = f.group_id ≡ gid → some f.run_id ≡ some run → f.status ≡ st

set_finding_status_self :
    (gid run : ℕ) (st : Status) (fs : List Finding)
    → All (Shows gid run st) (set_finding_status gid run st fs)
set_finding_status_self gid run st [] = tt
set_finding_status_self gid run st (f ∷ fs) =
    (λ e r. ground arith, set_finding_status_self gid run st fs)

-- The findings of a group after its status has been written to the snapshot of its last run.
pub mirror-sync_self :
    (gid : ℕ) (run : Option ℕ) (st : Status) (fs : List Finding)
    → All
        (λ (f : Finding). f.group_id ≡ gid → some f.run_id ≡ run → f.status ≡ st)
        (sync_findings gid run st fs)
mirror-sync_self gid none st fs = All-of _ fs (λ f e r. absurd (cc))
mirror-sync_self gid (some run) st fs = set_finding_status_self gid run st fs

set_finding_status_ne :
    (gid run : ℕ) (st : Status) (g : Group) (fs : List Finding)
    → g.id ≢ gid
    → IsMirrored fs g
    → IsMirrored (set_finding_status gid run st fs) g
set_finding_status_ne gid run st g [] ne m = tt
set_finding_status_ne gid run st g (f ∷ fs) ne m =
    (λ e r. ground (arith, m.0), set_finding_status_ne gid run st g fs ne m.1)

-- Another group's findings are left alone.
pub mirror-sync_ne :
    (gid : ℕ) (run : Option ℕ) (st : Status) (g : Group) (fs : List Finding)
    → g.id ≢ gid
    → IsMirrored fs g
    → IsMirrored (sync_findings gid run st fs) g
mirror-sync_ne gid none st g fs ne m = m
mirror-sync_ne gid (some run) st g fs ne m = set_finding_status_ne gid run st g fs ne m

-- What does not depend on the status outlives the write.
pub All-sync :
    (P : Finding → Type 0) (gid : ℕ) (run : Option ℕ) (st : Status) (fs : List Finding)
    → ((f : Finding) → P f → P (record f { status = st }))
    → All P fs
    → All P (sync_findings gid run st fs)
All-sync P gid none st fs keep a = a
All-sync P gid (some run) st [] keep a = tt
All-sync P gid (some run) st (f ∷ fs) keep a =
    (if_both P _ _ f (keep f a.0) a.0, All-sync P gid (some run) st fs keep a.1)
