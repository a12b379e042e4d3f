-- ===== src/Diff/Partition.antt =====
-- The counts of app/services/diff_service.py.
use mathlib.Core.Option.{map as option_map}
use mathlib.Core.Path.{subst}
use iam_sentinel_ese.Compliance.{set_entry}
use iam_sentinel_ese.Diff.{
  DiffCard, by_risk, cards_in_both, cards_only_in, collect, delta_card, diff_ordered, find_entry,
  findings_by_fingerprint, group_fingerprint, insert_card, is_changed_card, keys, put_finding,
}
use iam_sentinel_ese.Json.{Value}
use iam_sentinel_ese.Models.{Finding, Group, Session}
use iam_sentinel_ese.Prelude.{
  Bool, Bool-cases, List, Option, String, [], arith, contains, count_by, false, filter_by, if_both,
  if◌then◌else◌, inl, inr, length, nat_eq, none, not, option_eq, refl, some, string_eq, suc, sym,
  true, ℕ, ◌+◌, ◌==◌, ◌||◌, ◌∷◌, ◌≡◌,
}
use iam_sentinel_ese.Records.{listed}
use iam_sentinel_ese.Runs.{Run}

-- each key has one entry
abbrev pub HasUniqueKeys : List (String × Finding) → Type 0
HasUniqueKeys [] = Unit
HasUniqueKeys ((k, f) ∷ entries) = (contains k (keys entries) ≡ false) × HasUniqueKeys entries

contains-set_entry :
    (key fp : String) (f : Finding) (entries : List (String × Finding))
    → contains key (keys (set_entry fp f entries)) ≡ ((key == fp) || contains key (keys entries))
contains-set_entry key fp f [] = refl
contains-set_entry key fp f ((k, g) ∷ entries) = ground (
  arith,
  string_eq.beq_iff k fp,
  string_eq.beq_iff key k,
  string_eq.beq_iff key fp,
  contains-set_entry key fp f entries,
)

set_entry-HasUniqueKeys :
    (fp : String) (f : Finding) (entries : List (String × Finding))
    → HasUniqueKeys entries
    → HasUniqueKeys (set_entry fp f entries)
set_entry-HasUniqueKeys fp f [] h = (refl, tt)
set_entry-HasUniqueKeys fp f ((k, g) ∷ entries) h = elim (Bool-cases (k == fp)) [
  | inl same ↦ rw same h
  | inr ne ↦
      rw ne (
        ground (arith, contains-set_entry k fp f entries),
        set_entry-HasUniqueKeys fp f entries h.1,
      )
]

put_finding-HasUniqueKeys :
    (f : Finding) (fp : Option String) (entries : List (String × Finding))
    → HasUniqueKeys entries
    → HasUniqueKeys (put_finding f fp entries)
put_finding-HasUniqueKeys f none entries h = h
put_finding-HasUniqueKeys f (some fp) entries h = set_entry-HasUniqueKeys fp f entries h

collect-HasUniqueKeys :
    (run_id : ℕ) (groups : List Group) (fs : List Finding) (entries : List (String × Finding))
    → HasUniqueKeys entries
    → HasUniqueKeys (collect run_id groups fs entries)
collect-HasUniqueKeys run_id groups [] entries h = h
collect-HasUniqueKeys run_id groups (f ∷ fs) entries h = collect-HasUniqueKeys run_id groups fs _ (
    if_both HasUniqueKeys (f.run_id == run_id)
      (put_finding f (group_fingerprint f.group_id groups) entries) entries
      (put_finding-HasUniqueKeys f (group_fingerprint f.group_id groups) entries h) h)

unique_entries : (s : Session) (run_id : ℕ) → HasUniqueKeys (findings_by_fingerprint s run_id)
unfolding findings_by_fingerprint
unique_entries s run_id = collect-HasUniqueKeys run_id s.groups s.findings [] tt

-- how many entries have a key that the others have too
abbrev shared : List (String × Finding) → List (String × Finding) → ℕ
shared xs ys = count_by (λ (e : String × Finding). contains e.0 (keys ys)) xs

-- a key is the key of one entry or of none
count_key :
    (k : String) (ys : List (String × Finding))
    → HasUniqueKeys ys
    → count_by (λ (e : String × Finding). e.0 == k) ys ≡ (if contains k (keys ys) then 1 else 0)
count_key k [] h = refl
count_key k ((j, g) ∷ ys) h = elim (Bool-cases (j == k)) [
  | inl same ↦
      let eq = (string_eq.beq_iff j k).0 same in
      ground (arith, string_eq.beq_iff k j, count_key k ys h.1, h.0)
  | inr ne ↦ ground (arith, string_eq.beq_iff k j, string_eq.beq_iff j k, count_key k ys h.1)
]

count_either :
    (k : String) (f : Finding) (xs ys : List (String × Finding))
    → contains k (keys xs) ≡ false
    → shared ys ((k, f) ∷ xs) ≡ count_by (λ (e : String × Finding). e.0 == k) ys + shared ys xs
count_either k f xs [] h = omega arith
count_either k f xs ((j, g) ∷ ys) h = elim (Bool-cases (j == k)) [
  | inl same ↦
      let absent =
        subst (λ i. contains i (keys xs) ≡ false) (sym ((string_eq.beq_iff j k).0 same)) h in
      ground (arith, count_either k f xs ys h)
  | inr ne ↦ ground (arith, count_either k f xs ys h)
]

shared_comm :
    (xs ys : List (String × Finding))
    → HasUniqueKeys xs
    → HasUniqueKeys ys
    → shared xs ys ≡ shared ys xs
shared_comm [] ys h k = none_shared ys
  where
    none_shared : (es : List (String × Finding)) → 0 ≡ shared es []
    none_shared [] = refl
    none_shared (e ∷ es) = omega (arith, none_shared es)
shared_comm ((x, f) ∷ xs) ys h k =
    omega (arith, shared_comm xs ys h.1 k, count_either x f xs ys h.0, count_key x ys k)

length-insert_card :
    (c : DiffCard) (cs : List DiffCard) → length (insert_card c cs) ≡ suc (length cs)
length-insert_card c [] = refl
length-insert_card c (d ∷ ds) = ground (arith, length-insert_card c ds)

length-by_risk : (cs : List DiffCard) → length (by_risk cs) ≡ length cs
unfolding by_risk
length-by_risk [] = refl
length-by_risk (c ∷ cs) = omega (arith, length-insert_card c (by_risk cs), length-by_risk cs)

length-cards_only_in :
    (xs ys : List (String × Finding)) → length (cards_only_in xs ys) + shared xs ys ≡ length xs
length-cards_only_in [] ys = refl
length-cards_only_in (x ∷ xs) ys = ground (arith, length-cards_only_in xs ys)

length-listed :
    (same : Value → Value → Bool) (fp : String) (f : Finding) (newer : List (String × Finding))
    (rest : List DiffCard)
    → length (listed (option_map (delta_card same fp f) (find_entry fp newer)) rest)
      ≡ (if contains fp (keys newer) then 1 else 0) + length rest
length-listed same fp f [] rest = omega arith
length-listed same fp f ((k, g) ∷ newer) rest = elim (Bool-cases (k == fp)) [
  | inl e ↦
      let flipped : (fp == k) ≡ true =
        (string_eq.beq_iff fp k).1 (sym ((string_eq.beq_iff k fp).0 e)) in
      rw e (rw flipped (omega arith))
  | inr e ↦
      let flipped : (fp == k) ≡ false =
        ground (arith, string_eq.beq_iff k fp, string_eq.beq_iff fp k) in
      rw e (rw flipped (length-listed same fp f newer rest))
]

length-cards_in_both :
    (same : Value → Value → Bool) (older newer : List (String × Finding))
    → length (cards_in_both same older newer) ≡ shared older newer
length-cards_in_both same [] newer = refl
length-cards_in_both same ((fp, f) ∷ older) newer = omega (
  arith,
  length-listed same fp f newer (cards_in_both same older newer),
  length-cards_in_both same older newer,
)

count-split :
    (cs : List DiffCard)
    → length (filter_by is_changed_card cs) + count_by (λ c. not (is_changed_card c)) cs ≡ length cs
count-split [] = refl
count-split (c ∷ cs) = ground (arith, count-split cs)

-- The cards and the count of unchanged findings cover both runs: with the changed and the unchanged
-- ones, the new ones are all fingerprints of the newer run, and the resolved ones are all of the
-- older run, each counted once.
pub diff_ordered-counts :
    (same : Value → Value → Bool) (s : Session) (run_a run_b : Run)
    → let d = diff_ordered same s run_a run_b in
      (length d.new + length d.changed + d.unchanged_count
        ≡ length (findings_by_fingerprint s run_b.id))
      × (length d.resolved + length d.changed + d.unchanged_count
          ≡ length (findings_by_fingerprint s run_a.id))
unfolding diff_ordered
diff_ordered-counts same s run_a run_b =
    let older = findings_by_fingerprint s run_a.id in
    let newer = findings_by_fingerprint s run_b.id in
    counts older newer (unique_entries s run_a.id) (unique_entries s run_b.id)
  where
    counts :
        (older newer : List (String × Finding))
        → HasUniqueKeys older
        → HasUniqueKeys newer
        → let both = cards_in_both same older newer in
          let changed = by_risk (filter_by is_changed_card both) in
          let unchanged = count_by (λ c. not (is_changed_card c)) both in
          (length (by_risk (cards_only_in newer older)) + length changed + unchanged ≡ length newer)
          × (length (by_risk (cards_only_in older newer)) + length changed + unchanged
              ≡ length older)
    counts older newer h k =
        let both = cards_in_both same older newer in
        let all_of = count-split both in
        let met = length-cards_in_both same older newer in
        let swapped = shared_comm older newer h k in
        let a = length-by_risk (cards_only_in newer older) in
        let b = length-by_risk (cards_only_in older newer) in
        let c = length-by_risk (filter_by is_changed_card both) in
        let d = length-cards_only_in newer older in
        let e = length-cards_only_in older newer in (omega arith, omega arith)
