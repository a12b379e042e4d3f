-- ===== src/Query/Pages.antt =====
-- The pages of app/services/finding_query.py against the findings that match.
use mathlib.Core.List.{append-nil, append_assoc}
use mathlib.Core.Path.{subst}
use native.Mathlib.Nat.{mod-add-div', mod-lt}
use iam_sentinel_ese.Models.{Finding}
use iam_sentinel_ese.Prelude.{
  Bool-cases, List, String, [], ap, arith, false, inl, inr, leb, length, max, nat_eq, none,
  option_eq, refl, some, string_eq, suc, sym, zero, ℕ, ◌%◌, ◌*◌, ◌++◌, ◌+◌, ◌-◌, ◌/◌, ◌<◌, ◌==◌,
  ◌∙◌, ◌∷◌, ◌≡◌, ◌≤◌,
}
use iam_sentinel_ese.Query.{
  Comparison, Dialect, FindingFilters, SortKey, insert_row, latest_run, limit, matching, or_default,
  order_rows, pages, query_findings, skip,
}
use iam_sentinel_ese.Runs.{Database, Run}

module _ {ℓ} {A : Type ℓ} where
  limit-skip : (n : ℕ) (xs : List A) → limit n xs ++ skip n xs ≡ xs
  limit-skip n [] = refl
  limit-skip n (x ∷ xs) = ground (arith, limit-skip (n - 1) xs)

  skip-skip : (a b : ℕ) (xs : List A) → skip b (skip a xs) ≡ skip (a + b) xs
  skip-skip a b [] = refl
  skip-skip a b (x ∷ xs) = elim (Bool-cases (a == 0)) [
    | inl e ↦
        let z : a ≡ 0 = ground arith in
        let plus : b ≡ 0 + b = omega arith in rw z (ap (λ n. skip n (x ∷ xs)) plus)
    | inr e ↦
        let positive : (a + b == 0) ≡ false = ground arith in
        let back : a - 1 + b ≡ a + b - 1 = ground arith in
        rw e (
          rw positive
            (subst (λ n. skip b (skip (a - 1) xs) ≡ skip n xs) back (skip-skip (a - 1) b xs)))
  ]

  skip_all : (n : ℕ) (xs : List A) → length xs ≤ n → skip n xs ≡ []
  skip_all n [] h = refl
  skip_all n (x ∷ xs) h = ground (arith, skip_all (n - 1) xs)

  -- consecutive pages of a list, and what is left
  abbrev pub pages_from : ℕ → ℕ → ℕ → List A → List A
  pages_from page_size first zero xs = []
  pages_from page_size first (suc n) xs =
      limit page_size (skip (first * page_size) xs) ++ pages_from page_size (first + 1) n xs

  pages-rest :
      (page_size first n : ℕ) (xs : List A)
      → pages_from page_size first n xs ++ skip ((first + n) * page_size) xs
        ≡ skip (first * page_size) xs
  pages-rest page_size first zero xs =
      let same_first : first + 0 ≡ first = omega arith in
      ap (λ n. skip (n * page_size) xs) same_first
  pages-rest page_size first (suc n) xs =
      let here = limit page_size (skip (first * page_size) xs) in
      let next : first + suc n ≡ first + 1 + n = omega arith in
      let start : first * page_size + page_size ≡ (first + 1) * page_size = omega arith in
      append_assoc here (pages_from page_size (first + 1) n xs)
        (skip ((first + suc n) * page_size) xs)
      ∙ ap (λ rest. here ++ rest)
          (ap (λ m. pages_from page_size (first + 1) n xs ++ skip (m * page_size) xs) next
            ∙ pages-rest page_size (first + 1) n xs
            ∙ ap (λ m. skip m xs) (sym start)
            ∙ sym (skip-skip (first * page_size) page_size xs))
      ∙ limit-skip page_size (skip (first * page_size) xs)

  pages_all :
      (page_size n : ℕ) (xs : List A) → length xs ≤ n * page_size → pages_from page_size 0 n xs ≡ xs
  pages_all page_size n xs h =
      let start : 0 + n ≡ n = omega arith in
      let none_left : skip ((0 + n) * page_size) xs ≡ [] =
        ap (λ m. skip (m * page_size) xs) start ∙ skip_all (n * page_size) xs h in
      sym (append-nil (pages_from page_size 0 n xs))
      ∙ ap (λ rest. pages_from page_size 0 n xs ++ rest) (sym none_left)
      ∙ pages-rest page_size 0 n xs
      ∙ skip_none xs
    where
      skip_none : (ys : List A) → skip (0 * page_size) ys ≡ ys
      skip_none [] = refl
      skip_none (y ∷ ys) =
          let none_skipped : 0 * page_size ≡ 0 = omega arith in
          ap (λ m. skip m (y ∷ ys)) none_skipped

length-insert_row :
    (compare_by : String → Finding → Finding → Comparison) (sort : List SortKey) (f : Finding)
    (fs : List Finding)
    → length (insert_row compare_by sort f fs) ≡ suc (length fs)
length-insert_row compare_by sort f [] = refl
length-insert_row compare_by sort f (g ∷ gs) =
    ground (arith, length-insert_row compare_by sort f gs)

length-order_rows :
    (compare_by : String → Finding → Finding → Comparison) (sort : List SortKey) (fs : List Finding)
    → length (order_rows compare_by sort fs) ≡ length fs
unfolding order_rows
length-order_rows compare_by sort [] = refl
length-order_rows compare_by sort (f ∷ fs) = omega (
  arith,
  length-insert_row compare_by sort f (order_rows compare_by sort fs),
  length-order_rows compare_by sort fs,
)

-- Enough pages for all rows.
enough_pages :
    (total page_size : ℕ)
    → 0 < page_size
    → total ≤ max 1 ((total + page_size - 1) / page_size) * page_size
enough_pages total page_size pos =
    let n = total + page_size - 1 in
    let rest = mod-lt n pos in
    let sum = mod-add-div' n page_size in
    elim (Bool-cases (leb 1 (n / page_size))) [
      | inl e ↦
          let one_or_more : max 1 (n / page_size) ≡ n / page_size = ground arith in
          rw one_or_more (omega arith)
      | inr e ↦
          let no_page : n / page_size ≡ 0 = ground arith in
          let small = subst (λ q. n % page_size + q * page_size ≡ n) no_page sum in
          rw no_page (omega arith)
    ]

-- the rows of consecutive pages, from the given one on
abbrev pub rows_through :
    Dialect → ℕ → List SortKey → FindingFilters → ℕ → Database → ℕ → ℕ → List Finding
rows_through sql account_id sort filters page_size db first zero = []
rows_through sql account_id sort filters page_size db first (suc n) =
    (query_findings sql account_id sort filters first page_size none db).rows
    ++ rows_through sql account_id sort filters page_size db (first + 1) n

module _ (sql : Dialect) (account_id : ℕ) (sort : List SortKey) (filters : FindingFilters)
    (page_size : ℕ) (db : Database) (run : Run)
    (latest : latest_run account_id db.runs ≡ some run) where
  -- the matching findings in order
  abbrev pub ordered : List Finding
  ordered =
      order_rows sql.compare_by (or_default sort) (matching sql filters run.id db.tables.findings)

  rows_through-pages :
      (first n : ℕ)
      → rows_through sql account_id sort filters page_size db (first + 1) n
        ≡ pages_from page_size first n ordered
  unfolding query_findings
  rows_through-pages first zero = refl
  rows_through-pages first (suc n) =
      let page : max 1 (first + 1) - 1 ≡ first = omega arith in
      rw latest (
        ap
          (λ k.
            limit page_size (skip (k * page_size) ordered)
            ++ rows_through sql account_id sort filters page_size db (first + 1 + 1) n)
          page
        ∙ ap (λ rest. limit page_size (skip (first * page_size) ordered) ++ rest)
            (rows_through-pages (first + 1) n))

  -- the number of pages that a query announces
  announced :
      pages (query_findings sql account_id sort filters 1 page_size none db)
      ≡ max 1
          ((length (matching sql filters run.id db.tables.findings) + page_size - 1) / page_size)
  unfolding query_findings pages
  announced = rw latest refl

  -- The pages of a query, from the first to the last that it announces, show exactly the findings of
  -- the account's latest completed run that pass the filters, in order and each as often as it is
  -- there; `total` is their number. This is for an account with such a run and a page size that is
  -- not zero.
  pub pages_cover :
      0 < page_size
      → (rows_through sql account_id sort filters page_size db 1
            (pages (query_findings sql account_id sort filters 1 page_size none db))
          ≡ ordered)
        × ((query_findings sql account_id sort filters 1 page_size none db).total ≡ length ordered)
  unfolding query_findings pages
  pages_cover pos =
      let found = matching sql filters run.id db.tables.findings in
      let rows = length-order_rows sql.compare_by (or_default sort) found in
      let bound =
        subst (λ n. length found ≤ n * page_size) (sym announced)
          (enough_pages (length found) page_size pos) in
      (
        rows_through-pages 0
              (pages (query_findings sql account_id sort filters 1 page_size none db))
            ∙ pages_all page_size
                (pages (query_findings sql account_id sort filters 1 page_size none db)) ordered
                (subst
                  (λ m.
                    m
                    ≤ pages (query_findings sql account_id sort filters 1 page_size none db)
                      * page_size)
                  (sym rows) bound),
        rw latest (sym rows),
      )
