-- ===== src/Scan/Placed.antt =====
-- How the group of a fingerprint fares when one row of the groups is written
-- (app/services/scan_service.py).
use mathlib.Core.Bool.{false≢true}
use iam_sentinel_ese.Domain.Enums.{Status, status_eq}
use iam_sentinel_ese.Models.{Group, Session, update_group}
use iam_sentinel_ese.Prelude.{
  Bool-cases, List, Option, String, [], ap, arith, false, if_both, if◌then◌else◌, inl, inr, nat_eq,
  none, option_eq, refl, some, string_eq, sym, true, ℕ, ◌++◌, ◌==◌, ◌∙◌, ◌∷◌, ◌≡◌, ◌≢◌, ◌⊎◌,
}
use iam_sentinel_ese.Scan.{find_group, is_group_of, redetected}
use iam_sentinel_ese.Scan.Detect.{redetected_same}

-- The group of a fingerprint before and after a scan that found it.
pub data IsReported (run_id : ℕ) : Option Group → Group → Type 0 where
  reopened :
      (g g' : Group)
      → g.current_status ≡ Status.resolved
      → g'.current_status ≡ Status.opened
      → g'.id ≡ g.id
      → g'.last_seen_run ≡ some run_id
      → IsReported run_id (some g) g'
  carried :
      (g g' : Group)
      → g.current_status ≢ Status.resolved
      → g'.current_status ≡ g.current_status
      → g'.id ≡ g.id
      → g'.last_seen_run ≡ some run_id
      → IsReported run_id (some g) g'
  detected :
      (g' : Group)
      → g'.current_status ≡ Status.opened
      → g'.first_seen_run ≡ some run_id
      → g'.last_seen_run ≡ some run_id
      → IsReported run_id none g'

module _ (account_id run_id : ℕ) (fp : String) where
  -- the group of the fingerprint has been reported by the run
  abbrev pub IsPlaced : Option Group → Session → Type 0
  IsPlaced old s =
      (g' : Group) × (find_group account_id fp s.groups ≡ some g') × IsReported run_id old g'

  -- the group is as it was, or has been reported
  abbrev pub IsPending : Option Group → Session → Type 0
  IsPending old s = (find_group account_id fp s.groups ≡ old) ⊎ IsPlaced old s

  is_group_of-update :
      (i : ℕ) (q : Group)
      → is_group_of account_id fp (if q.id == i then redetected run_id q else q)
        ≡ is_group_of account_id fp q
  is_group_of-update i q =
      if_both (λ r. is_group_of account_id fp r ≡ is_group_of account_id fp q) (q.id == i)
        (redetected run_id q) q refl refl

  head_found :
      (q g : Group) (gs : List Group)
      → is_group_of account_id fp q ≡ true
      → find_group account_id fp (q ∷ gs) ≡ some g
      → q ≡ g
  head_found q g gs e h = ground arith

  tail_found :
      (q g : Group) (gs : List Group)
      → is_group_of account_id fp q ≡ false
      → find_group account_id fp (q ∷ gs) ≡ some g
      → find_group account_id fp gs ≡ some g
  tail_found q g gs e h = ground arith

  pub find-update :
      (i : ℕ) (gs : List Group) (g : Group)
      → find_group account_id fp gs ≡ some g
      → find_group account_id fp (update_group i (redetected run_id) gs)
        ≡ some (if g.id == i then redetected run_id g else g)
  find-update i [] g h = ground arith
  find-update i (q ∷ gs) g h = elim (Bool-cases (is_group_of account_id fp q)) [
    | inl e ↦
        rw (is_group_of-update i q, e)
          (ap (λ (r : Group). some (if r.id == i then redetected run_id r else r))
            (head_found q g gs e h))
    | inr e ↦ rw (is_group_of-update i q, e) (find-update i gs g (tail_found q g gs e h))
  ]

  find-update_none :
      (i : ℕ) (gs : List Group)
      → find_group account_id fp gs ≡ none
      → find_group account_id fp (update_group i (redetected run_id) gs) ≡ none
  find-update_none i [] h = refl
  find-update_none i (q ∷ gs) h = let ih = find-update_none i gs in ground arith

  find-append :
      (gs : List Group) (q g : Group)
      → find_group account_id fp gs ≡ some g
      → find_group account_id fp (gs ++ q ∷ []) ≡ some g
  find-append [] q g h = ground arith
  find-append (r ∷ gs) q g h = let ih = find-append gs q g in ground arith

  pub find-append_none :
      (gs : List Group) (q : Group)
      → find_group account_id fp gs ≡ none
      → find_group account_id fp (gs ++ q ∷ [])
        ≡ (if is_group_of account_id fp q then some q else none)
  find-append_none [] q h = refl
  find-append_none (r ∷ gs) q h = let ih = find-append_none gs q in ground arith

  pub report : (g : Group) → IsReported run_id (some g) (redetected run_id g)
  report g = elim (Bool-cases (g.current_status == Status.resolved)) [
    | inl e ↦
        let was : g.current_status ≡ Status.resolved =
          (status_eq.beq_iff g.current_status Status.resolved).0 e in
        reopened g (redetected run_id g) was (ground arith) refl refl
    | inr e ↦
        let was : g.current_status ≢ Status.resolved =
          λ k. false≢true (sym e ∙ (status_eq.beq_iff g.current_status Status.resolved).1 k) in
        carried g (redetected run_id g) was (redetected_same g.current_status was) refl refl
  ]

  again :
      (old : Option Group) (g : Group)
      → IsReported run_id old g
      → IsReported run_id old (redetected run_id g)
  again old g (reopened q _ was now key seen) =
      reopened q (redetected run_id g) was (ground arith) key refl
  again old g (carried q _ was now key seen) =
      carried q (redetected run_id g) was
        (redetected_same g.current_status (λ e. was (sym now ∙ e)) ∙ now) key refl
  again old g (detected _ now first seen) = detected (redetected run_id g) (ground arith) first refl

  -- An update of a known group, whichever it is.
  pub update-IsPlaced :
      (i : ℕ) (old : Option Group) (s s' : Session)
      → s'.groups ≡ update_group i (redetected run_id) s.groups
      → IsPlaced old s
      → IsPlaced old s'
  update-IsPlaced i old s s' e (g', found, reported) = (
    (if g'.id == i then redetected run_id g' else g'),
    ap (find_group account_id fp) e ∙ find-update i s.groups g' found,
    if_both (IsReported run_id old) (g'.id == i) (redetected run_id g') g' (again old g' reported)
        reported,
  )

  pub update-IsPending :
      (i : ℕ) (old : Option Group) (s s' : Session)
      → s'.groups ≡ update_group i (redetected run_id) s.groups
      → find_group account_id fp s.groups ≡ old
      → IsPending old s'
  update-IsPending i none s s' e h =
      inl (ap (find_group account_id fp) e ∙ find-update_none i s.groups h)
  update-IsPending i (some g) s s' e h =
      let found = ap (find_group account_id fp) e ∙ find-update i s.groups g h in
      elim (Bool-cases (g.id == i)) [
        | inl at ↦ inr (redetected run_id g, found ∙ rw at refl, report g)
        | inr off ↦ inl (found ∙ rw off refl)
      ]

  pub append-IsPlaced :
      (old : Option Group) (q : Group) (s s' : Session)
      → s'.groups ≡ s.groups ++ q ∷ []
      → IsPlaced old s
      → IsPlaced old s'
  append-IsPlaced old q s s' e (g', found, reported) =
      (g', ap (find_group account_id fp) e ∙ find-append s.groups q g' found, reported)

  pub append-IsPending :
      (old : Option Group) (q : Group) (s s' : Session)
      → s'.groups ≡ s.groups ++ q ∷ []
      → q.current_status ≡ Status.opened
      → q.first_seen_run ≡ some run_id
      → q.last_seen_run ≡ some run_id
      → find_group account_id fp s.groups ≡ old
      → IsPending old s'
  append-IsPending none q s s' e now first seen h =
      let found = ap (find_group account_id fp) e ∙ find-append_none s.groups q h in
      elim (Bool-cases (is_group_of account_id fp q)) [
        | inl same_name ↦ inr (q, found ∙ rw same_name refl, detected q now first seen)
        | inr another ↦ inl (found ∙ rw another refl)
      ]
  append-IsPending (some g) q s s' e now first seen h =
      inl (ap (find_group account_id fp) e ∙ find-append s.groups q g h)

  pub own_group :
      (q : Group)
      → q.account_id ≡ account_id
      → q.fingerprint ≡ fp
      → is_group_of account_id fp q ≡ true
  own_group q a b = rw (a, b) (ground (arith, string_eq.beq_iff fp fp))
