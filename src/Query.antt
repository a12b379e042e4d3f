-- ===== src/Query.antt =====
-- app/services/finding_query.py: the findings table of the latest completed run, filtered, sorted and
-- cut into pages. How the database orders a column and what its LIKE accepts are parameters; the
-- fuzzy search is left out.
pub mod Pages
use iam_sentinel_ese.Checks.Registry.{category_text, severity_text}
use iam_sentinel_ese.Counting.{tally_keys}
use iam_sentinel_ese.Domain.Enums.{Category, Severity, Status, is_completed, severity_eq, status_eq}
use iam_sentinel_ese.Models.{Finding}
use iam_sentinel_ese.Prelude.{
  Bool, List, Option, String, [], any, contains, false, filter_by, if◌then◌else◌, length, map, max,
  min, nat_eq, none, option_eq, some, string_eq, true, ℕ, ◌&&◌, ◌*◌, ◌+◌, ◌-◌, ◌/◌, ◌==◌, ◌||◌, ◌∷◌,
}
use iam_sentinel_ese.Prelude.Text.{
  concat_text, has_prefix, is_empty, lower, split_at, strip, strip_signs,
}
use iam_sentinel_ese.Records.{listed}
use iam_sentinel_ese.Runs.{Database, Run}
use iam_sentinel_ese.Runs.Persist.{newest}
use iam_sentinel_ese.Scan.{or_empty}

pub record SortKey : Type 0 where
  pub key : String
  pub desc : Bool

abbrev pub sortable : List String
sortable =
    "risk" ∷ "severity" ∷ "status" ∷ "title" ∷ "principal" ∷ "category" ∷ "check" ∷ "last_seen"
    ∷ "first_seen" ∷ []

abbrev pub default_sort : List SortKey
default_sort = record { key = "risk"; desc = true } ∷ record { key = "severity"; desc = true } ∷ []

-- one token of `?sort=-risk,severity`
abbrev pub sort_key : String → Option SortKey
sort_key token =
    let name = strip_signs token in
    if contains name sortable
    then some (record { key = name; desc = has_prefix "-" token })
    else none

abbrev pub sort_keys : List String → List SortKey
sort_keys [] = []
sort_keys (token ∷ tokens) =
    let rest = sort_keys tokens in
    if is_empty (strip token) then rest else listed (sort_key (strip token)) rest

abbrev pub or_default : List SortKey → List SortKey
or_default [] = default_sort
or_default (s ∷ sort) = s ∷ sort

unfoldable pub parse_sort : Option String → List SortKey
parse_sort raw =
    if is_empty (or_empty raw)
    then default_sort
    else or_default (sort_keys (split_at 44 (or_empty raw)))

abbrev pub sort_text : SortKey → String
sort_text s = if s.desc then concat_text ("-" ∷ s.key ∷ []) else s.key

-- `",".join(...)`
abbrev pub join_commas : List String → String
join_commas [] = ""
join_commas (part ∷ []) = part
join_commas (part ∷ rest) = concat_text (part ∷ "," ∷ join_commas rest ∷ [])

unfoldable pub sort_to_query : List SortKey → String
sort_to_query sort = join_commas (map sort_text sort)

abbrev pub page_rows : ℕ
page_rows = 50

-- the statuses and categories are compared as the enumerations that validated them
pub record FindingFilters : Type 0 where
  pub severity : List Severity
  pub status : List Status
  pub category : List Category
  pub check : List String
  pub search : String

abbrev pub severity_in : Severity → List Severity → Bool
severity_in v vs = any (λ w. v == w) vs

abbrev pub status_in : Status → List Status → Bool
status_in v vs = any (λ w. v == w) vs

abbrev pub category_in : Category → List Category → Bool
category_in v vs = any (λ w. category_text v == category_text w) vs

-- no restriction, or one of the values
abbrev pub unless_none {ℓ} : {A : Type ℓ} → List A → Bool → Bool
unless_none [] b = true
unless_none (v ∷ vs) b = b

abbrev pub matches_search : (String → String → Bool) → String → Finding → Bool
matches_search like search f =
    is_empty search
    || like (lower f.title) (lower search)
    || like (lower (or_empty f.principal_uid)) (lower search)

-- `_apply_filters`, as the test of a row
unfoldable pub passes_filters : (String → String → Bool) → FindingFilters → Finding → Bool
passes_filters like filters f =
    unless_none filters.severity (severity_in f.severity filters.severity)
    && unless_none filters.status (status_in f.status filters.status)
    && unless_none filters.category (category_in f.category filters.category)
    && unless_none filters.check (contains f.check_id filters.check)
    && matches_search like filters.search f

-- how the database compares two rows by a column
pub data Comparison : Type 0 where
  less same greater : Comparison

abbrev pub reversed : Bool → Comparison → Comparison
reversed false c = c
reversed true less = greater
reversed true same = same
reversed true greater = less

abbrev pub then_by : Comparison → Bool → Bool
then_by less later = true
then_by same later = later
then_by greater later = false

-- `order_by` with the columns of the sort, and the row ids last
abbrev pub goes_first :
    (String → Finding → Finding → Comparison) → List SortKey → Finding → Finding → Bool
goes_first compare_by [] f g = true
goes_first compare_by (s ∷ sort) f g =
    let rest = goes_first compare_by sort f g in
    if contains s.key sortable then then_by (reversed s.desc (compare_by s.key f g)) rest else rest

abbrev pub insert_row :
    (String → Finding → Finding → Comparison) → List SortKey → Finding → List Finding → List Finding
insert_row compare_by sort f [] = f ∷ []
insert_row compare_by sort f (g ∷ gs) =
    let rest = insert_row compare_by sort f gs in
    if goes_first compare_by sort f g then f ∷ g ∷ gs else g ∷ rest

unfoldable pub order_rows :
    (String → Finding → Finding → Comparison) → List SortKey → List Finding → List Finding
order_rows compare_by sort [] = []
order_rows compare_by sort (f ∷ fs) = insert_row compare_by sort f (order_rows compare_by sort fs)

-- `OFFSET` and `LIMIT`
abbrev pub skip {ℓ} : {A : Type ℓ} → ℕ → List A → List A
skip n [] = []
skip n (x ∷ xs) = let rest = skip (n - 1) xs in if n == 0 then x ∷ xs else rest

abbrev pub limit {ℓ} : {A : Type ℓ} → ℕ → List A → List A
limit n [] = []
limit n (x ∷ xs) = let rest = limit (n - 1) xs in if n == 0 then [] else x ∷ rest

pub record FindingsPage : Type 0 where
  pub run : Option Run
  pub rows : List Finding
  pub total : ℕ
  pub page : ℕ
  pub page_size : ℕ
  pub sort : List SortKey
  pub filters : FindingFilters
  pub severities : List (String × ℕ)
  pub statuses : List (Status × ℕ)
  pub categories : List (String × ℕ)

-- `FindingsPage.pages`, `start_index` and `end_index`
unfoldable pub pages : FindingsPage → ℕ
pages p = max 1 ((p.total + p.page_size - 1) / p.page_size)

unfoldable pub start_index : FindingsPage → ℕ
start_index p = if p.total == 0 then 0 else (p.page - 1) * p.page_size + 1

unfoldable pub end_index : FindingsPage → ℕ
end_index p = min (p.page * p.page_size) p.total

unfoldable pub latest_run : ℕ → List Run → Option Run
latest_run account_id runs =
    newest (filter_by (λ r. (r.account_id == account_id) && is_completed r.status) runs)

-- the page number that is shown, and the offset that is used
abbrev pub shown_page : Option ℕ → ℕ → ℕ → ℕ
shown_page none page page_size = page
shown_page (some offset) page page_size = if page_size == 0 then 1 else offset / page_size + 1

abbrev pub row_offset : Option ℕ → ℕ → ℕ → ℕ
row_offset none page page_size = (page - 1) * page_size
row_offset (some offset) page page_size = offset

-- the database: its comparison of columns, and its LIKE, which is given the text and what it contains
pub record Dialect : Type 0 where
  pub compare_by : String → Finding → Finding → Comparison
  pub like : String → String → Bool

abbrev pub of_run : ℕ → List Finding → List Finding
of_run run_id findings = filter_by (λ (f : Finding). f.run_id == run_id) findings

unfoldable pub matching : Dialect → FindingFilters → ℕ → List Finding → List Finding
matching sql filters run_id findings =
    filter_by (passes_filters sql.like filters) (of_run run_id findings)

abbrev pub page_of :
    Dialect → List SortKey → FindingFilters → ℕ → ℕ → Option ℕ → List Finding → Run → FindingsPage
page_of sql sort filters page page_size offset findings run =
    let filtered = matching sql filters run.id findings in
    let base = of_run run.id findings in
    record {
      run = some run;
      rows =
          limit page_size
            (skip (row_offset offset page page_size) (order_rows sql.compare_by sort filtered));
      total = length filtered;
      page = shown_page offset page page_size;
      page_size = page_size;
      sort = sort;
      filters = filters;
      severities = tally_keys (map (λ (f : Finding). severity_text f.severity) base) [];
      statuses = tally_keys (map (λ (f : Finding). f.status) base) [];
      categories = tally_keys (map (λ (f : Finding). category_text f.category) base) [];
    }

abbrev pub empty_page : List SortKey → FindingFilters → ℕ → FindingsPage
empty_page sort filters page_size = record {
  run = none;
  rows = [];
  total = 0;
  page = 1;
  page_size = page_size;
  sort = sort;
  filters = filters;
  severities = [];
  statuses = [];
  categories = [];
}

abbrev pub page_for :
    Dialect
    → List SortKey
    → FindingFilters
    → ℕ
    → ℕ
    → Option ℕ
    → List Finding
    → Option Run
    → FindingsPage
page_for sql sort filters page page_size offset findings none = empty_page sort filters page_size
page_for sql sort filters page page_size offset findings (some run) =
    page_of sql sort filters page page_size offset findings run

unfoldable pub query_findings :
    Dialect → ℕ → List SortKey → FindingFilters → ℕ → ℕ → Option ℕ → Database → FindingsPage
query_findings sql account_id sort filters page page_size offset db =
    page_for sql (or_default sort) filters (max 1 page) page_size offset db.tables.findings
      (latest_run account_id db.runs)
