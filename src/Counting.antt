-- ===== src/Counting.antt =====
-- Dictionaries that count: `counts[key] = counts.get(key, 0) + 1`, as the log checks and the activity
-- index of app/analysis use them. The keys stand in the order of their first occurrence.
use iam_sentinel_ese.Prelude.{
  Bool, Eq, List, [], arith, count_by, if◌then◌else◌, nat_eq, option_eq, string_eq, true, ℕ, ◌&&◌,
  ◌+◌, ◌==◌, ◌↔◌, ◌∷◌, ◌≡◌,
}

-- keys of two parts
module _ {A B : Type 0} ⦃a : Eq A⦄ ⦃b : Eq B⦄ where
  abbrev pub pair_beq : A × B → A × B → Bool
  pair_beq p q = (p.0 == q.0) && (p.1 == q.1)

  pub pair_beq_iff : (p q : A × B) → (pair_beq p q ≡ true) ↔ (p ≡ q)
  pair_beq_iff (p, r) (q, s) = ground (arith, a.beq_iff p q, b.beq_iff r s)

  instance abbrev pub pair_eq : Eq (A × B)
  pair_eq = record { beq = pair_beq; beq_iff = pair_beq_iff }

module _ {K : Type 0} ⦃e : Eq K⦄ where
  -- `counts.get(key, 0)`
  abbrev pub count_of : K → List (K × ℕ) → ℕ
  count_of key [] = 0
  count_of key ((k, n) ∷ counts) = if k == key then n else count_of key counts

  abbrev pub add_count : K → List (K × ℕ) → List (K × ℕ)
  add_count key [] = (key, 1) ∷ []
  add_count key ((k, n) ∷ counts) =
      let rest = add_count key counts in if k == key then (k, n + 1) ∷ counts else (k, n) ∷ rest

  -- one pass over the keys
  unfoldable pub tally_keys : List K → List (K × ℕ) → List (K × ℕ)
  tally_keys [] counts = counts
  tally_keys (key ∷ keys) counts = tally_keys keys (add_count key counts)

  count_of-add_count :
      (key k : K) (counts : List (K × ℕ))
      → count_of key (add_count k counts) ≡ (if k == key then 1 else 0) + count_of key counts
  count_of-add_count key k [] = ground arith
  count_of-add_count key k ((j, n) ∷ counts) =
      ground
        (arith, e.beq_iff j k, e.beq_iff j key, e.beq_iff k key, count_of-add_count key k counts)

  -- The count of a key after the pass: the earlier count, and one for each occurrence.
  pub count_of-tally_keys :
      (key : K) (keys : List K) (counts : List (K × ℕ))
      → count_of key (tally_keys keys counts) ≡ count_by (λ k. k == key) keys + count_of key counts
  unfolding tally_keys
  count_of-tally_keys key [] counts = omega arith
  count_of-tally_keys key (k ∷ keys) counts =
      omega
        (arith, count_of-tally_keys key keys (add_count k counts), count_of-add_count key k counts)
