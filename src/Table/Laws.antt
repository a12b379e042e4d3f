-- ===== src/Table/Laws.antt =====
-- Laws of a keyed table: lookup after an update, after a new row, and what holds of every row.
use mathlib.Core.Path.{subst}
use iam_sentinel_ese.Domain.Enums.{severity_eq, status_eq}
use iam_sentinel_ese.Prelude.{
  All, All-append, All-both, All-filter, All-mono, Bool, Bool-cases, List, [], ap, arith, contains,
  count_by, filter_by, if_both, if◌then◌else◌, inl, inr, map, nat_eq, none, not, option_eq, refl,
  some, string_eq, sym, true, ℕ, ◌&&◌, ◌++◌, ◌+◌, ◌<◌, ◌==◌, ◌∙◌, ◌∷◌, ◌≡◌, ◌≢◌, ◌⊎◌,
}
use iam_sentinel_ese.Rbac.{role_eq}
use iam_sentinel_ese.Table.{fresh, get, update}

module _ {A : Type 0} (key : A → ℕ) where
  -- no two rows share a key
  abbrev pub Distinct : List A → Type 0
  Distinct [] = Unit
  Distinct (r ∷ rs) = All (λ q. key q ≢ key r) rs × Distinct rs

  -- a lookup in a table that is not empty
  pub get_cases :
      (i : ℕ) (q : A) (rs : List A) (r : A)
      → get key i (q ∷ rs) ≡ some r
      → ((key q ≡ i) × (q ≡ r)) ⊎ ((key q ≢ i) × (get key i rs ≡ some r))
  get_cases i q rs r h = ground arith

  pub key-get : (i : ℕ) (rs : List A) (r : A) → get key i rs ≡ some r → key r ≡ i
  key-get i [] r h = ground arith
  key-get i (q ∷ rs) r h = ground (arith, key-get i rs r)

  pub All-get :
      (P : A → Type 0) (i : ℕ) (rs : List A) (r : A) → All P rs → get key i rs ≡ some r → P r
  All-get P i [] r a h = absurd (cc)
  All-get P i (q ∷ rs) r a h = elim (get_cases i q rs r h) [
    | inl e ↦ subst P e.1 a.0
    | inr e ↦ All-get P i rs r a.1 e.1
  ]

  pub get-key : (i : ℕ) (rs : List A) (r : A) → get key i rs ≡ some r → get key (key r) rs ≡ some r
  get-key i rs r h = subst (λ j. get key j rs ≡ some r) (sym (key-get i rs r h)) h

  pub get-update_ne :
      (i j : ℕ) (f : A → A) (rs : List A)
      → ((r : A) → key (f r) ≡ key r)
      → i ≢ j
      → get key j (update key i f rs) ≡ get key j rs
  get-update_ne i j f [] k h = refl
  get-update_ne i j f (r ∷ rs) k h = ground (arith, k r, get-update_ne i j f rs k h)

  pub get-update_self :
      (i : ℕ) (f : A → A) (rs : List A) (r : A)
      → ((r : A) → key (f r) ≡ key r)
      → get key i rs ≡ some r
      → get key i (update key i f rs) ≡ some (f r)
  get-update_self i f [] r k h = ground arith
  get-update_self i f (q ∷ rs) r k h = ground (arith, k q, get-update_self i f rs r k)

  pub fresh-update :
      (i : ℕ) (f : A → A) (rs : List A)
      → ((r : A) → key (f r) ≡ key r)
      → fresh key (update key i f rs) ≡ fresh key rs
  fresh-update i f [] k = refl
  fresh-update i f (r ∷ rs) k = ground (arith, k r, fresh-update i f rs k)

  pub key-lt-fresh : (rs : List A) → All (λ r. key r < fresh key rs) rs
  key-lt-fresh [] = tt
  key-lt-fresh (r ∷ rs) = (omega arith, All-mono _ _ rs (λ q h. omega arith) (key-lt-fresh rs))

  -- What an update does to the rows with the key and to the others.
  pub All-update :
      (P Q : A → Type 0) (i : ℕ) (f : A → A) (rs : List A)
      → ((r : A) → key r ≡ i → P r → Q (f r))
      → ((r : A) → key r ≢ i → P r → Q r)
      → All P rs
      → All Q (update key i f rs)
  All-update P Q i f [] same others a = tt
  All-update P Q i f (r ∷ rs) same others a = (head, All-update P Q i f rs same others a.1)
    where
      head : Q (if key r == i then f r else r)
      head = elim (Bool-cases (key r == i)) [
        | inl e ↦ rw e (same r ((nat_eq.beq_iff (key r) i).0 e) a.0)
        | inr e ↦ rw e (others r (ground arith) a.0)
      ]

  pub Distinct-update :
      (i : ℕ) (f : A → A) (rs : List A)
      → ((r : A) → key (f r) ≡ key r)
      → Distinct rs
      → Distinct (update key i f rs)
  Distinct-update i f [] k d = tt
  Distinct-update i f (r ∷ rs) k d = (head, Distinct-update i f rs k d.1)
    where
      old : key (if key r == i then f r else r) ≡ key r
      old = ground (arith, k r)

      head : All (λ q. key q ≢ key (if key r == i then f r else r)) (update key i f rs)
      head = rw old (
          All-update (λ q. key q ≢ key r) (λ q. key q ≢ key r) i f rs (λ q e p. rw (k q) p)
            (λ q e p. p) d.0)

  -- Where keys are distinct, the row that a lookup finds is the only one with its key.
  pub get_unique :
      (i : ℕ) (rs : List A) (r : A)
      → Distinct rs
      → get key i rs ≡ some r
      → All (λ q. key q ≡ i → q ≡ r) rs
  get_unique i [] r d h = tt
  get_unique i (q ∷ rs) r d h = elim (get_cases i q rs r h) [
    | inl e ↦ (λ _. e.1, All-mono _ _ rs (λ p ne same. absurd (ne (same ∙ sym e.0))) d.0)
    | inr e ↦ (λ same. absurd (e.0 same), get_unique i rs r d.1 e.1)
  ]

  pub get-append_new :
      (i : ℕ) (rs : List A) (r : A)
      → get key i (rs ++ r ∷ []) ≡ (
          if key r == i
          then (elim (get key i rs) [ none ↦ some r | some q ↦ some q ])
          else get key i rs)
  get-append_new i [] r = ground arith
  get-append_new i (q ∷ rs) r = ground (arith, get-append_new i rs r)

  -- An update of a key that no row has changes nothing.
  pub update_absent :
      (i : ℕ) (f : A → A) (rs : List A) → All (λ r. key r ≢ i) rs → update key i f rs ≡ rs
  update_absent i f [] a = refl
  update_absent i f (r ∷ rs) a = ground (arith, a.0, update_absent i f rs a.1)

  pub absent_of_get : (i : ℕ) (rs : List A) → get key i rs ≡ none → All (λ r. key r ≢ i) rs
  absent_of_get i [] h = tt
  absent_of_get i (r ∷ rs) h = (ground arith, absent_of_get i rs (ground arith))

  -- A new row with the fresh key keeps the keys distinct.
  pub Distinct-append :
      (rs : List A) (r : A) → All (λ q. key q < key r) rs → Distinct rs → Distinct (rs ++ r ∷ [])
  Distinct-append [] r a d = (tt, tt)
  Distinct-append (q ∷ rs) r a d =
      (All-append _ rs (r ∷ []) d.0 ((omega arith), tt), Distinct-append rs r a.1 d.1)

  -- Where keys are distinct, every row is the one that its key names.
  pub get_self : (rs : List A) → Distinct rs → All (λ r. get key (key r) rs ≡ some r) rs
  get_self [] d = tt
  get_self (r ∷ rs) d = (
    ground arith,
    All-mono _ _ rs (λ q h. let ne = h.0 in let old = h.1 in ground arith)
        (All-both _ _ rs d.0 (get_self rs d.1)),
  )

  pub Distinct-filter : (p : A → Bool) (rs : List A) → Distinct rs → Distinct (filter_by p rs)
  Distinct-filter p [] d = tt
  Distinct-filter p (r ∷ rs) d =
      if_both Distinct (p r) (r ∷ filter_by p rs) (filter_by p rs)
        (All-filter p _ rs d.0, Distinct-filter p rs d.1) (Distinct-filter p rs d.1)

  -- The rows that pass a test are listed among the keys of those that do.
  pub listed-filter :
      (p : A → Bool) (rs : List A)
      → All (λ r. p r ≡ true → contains (key r) (map key (filter_by p rs)) ≡ true) rs
  listed-filter p [] = tt
  listed-filter p (r ∷ rs) = (
    (λ k. ground arith),
    All-mono _ _ rs (λ q h k. let m = h k in ground arith) (listed-filter p rs),
  )

  -- the rows that pass a test, without those with a key
  abbrev pub others : (A → Bool) → ℕ → List A → ℕ
  others p i rs = count_by (λ r. p r && not (key r == i)) rs

  others_absent :
      (p : A → Bool) (i : ℕ) (rs : List A) → All (λ r. key r ≢ i) rs → others p i rs ≡ count_by p rs
  others_absent p i [] a = refl
  others_absent p i (r ∷ rs) a = let ne = a.0 in let ih = others_absent p i rs a.1 in ground arith

  -- How many rows pass a test once a row has been changed: the others, and the row if it does.
  pub count-update :
      (p : A → Bool) (i : ℕ) (f : A → A) (rs : List A) (r : A)
      → Distinct rs
      → get key i rs ≡ some r
      → count_by p (update key i f rs) ≡ others p i rs + (if p (f r) then 1 else 0)
  count-update p i f [] r d h = ground arith
  count-update p i f (q ∷ rs) r d h = elim (get_cases i q rs r h) [
    | inl (at, same) ↦
        let absent = All-mono _ (λ x. key x ≢ i) rs (λ x ne e. ne (e ∙ sym at)) d.0 in
        ground
          (arith, update_absent i f rs absent, others_absent p i rs absent, ap (λ x. p (f x)) same)
    | inr (ne, later) ↦ let ih = count-update p i f rs r d.1 later in ground arith
  ]

  update_id : (i : ℕ) (rs : List A) → update key i (λ r. r) rs ≡ rs
  update_id i [] = refl
  update_id i (r ∷ rs) = let ih = update_id i rs in ground arith

  -- How many rows pass a test: the others, and the row with the key if it does.
  pub count-others :
      (p : A → Bool) (i : ℕ) (rs : List A) (r : A)
      → Distinct rs
      → get key i rs ≡ some r
      → count_by p rs ≡ others p i rs + (if p r then 1 else 0)
  count-others p i rs r d h =
      sym (ap (count_by p) (update_id i rs)) ∙ count-update p i (λ x. x) rs r d h

  -- A row that a lookup found, after an update under its key.
  pub get-update_found :
      (i : ℕ) (f : A → A) (rs : List A) (r : A)
      → ((r : A) → key (f r) ≡ key r)
      → get key i rs ≡ some r
      → get key i (update key (key r) f rs) ≡ some (f r)
  get-update_found i f rs r k h =
      subst (λ j. get key i (update key j f rs) ≡ some (f r)) (sym (key-get i rs r h))
        (get-update_self i f rs r k h)
