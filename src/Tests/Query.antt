-- ===== src/Tests/Query.antt =====
-- The findings of the second run of the test tables, by risk, one to a page.
use iam_sentinel_ese.Domain.Enums.{RunStatus}
use iam_sentinel_ese.Models.{Finding}
use iam_sentinel_ese.Prelude.{
  [], arith, false, if◌then◌else◌, length, ltb, map, none, refl, some, true, ◌∷◌, ◌≡◌,
}
use iam_sentinel_ese.Prelude.Text.{has_prefix, lstrip, rstrip, split_at, strip, strip_signs}
use iam_sentinel_ese.Query.{
  Dialect, FindingFilters, default_sort, greater, latest_run, less, matching, order_rows, pages,
  parse_sort, passes_filters, query_findings,
}
use iam_sentinel_ese.Query.Pages.{pages_cover, rows_through}
use iam_sentinel_ese.Runs.{Database, Run}
use iam_sentinel_ese.Runs.Queue.{new_run}
use iam_sentinel_ese.Tests.Checks.{limits}
use iam_sentinel_ese.Tests.Data.{tables}

abbrev second_run : Run
second_run = record (new_run 2 1 limits "manual" none) { status = RunStatus.completed }

abbrev scanned_twice : Database
scanned_twice = record {
  tables = tables;
  accounts = [];
  runs =
      record (new_run 1 1 limits "manual" none) { status = RunStatus.completed } ∷ second_run ∷ [];
  summaries = [];
  principals = [];
  policies = [];
  log_events = [];
  edges = [];
}

abbrev by_group : Dialect
by_group = record {
  compare_by = λ column f g. if ltb f.group_id g.group_id then less else greater;
  like = λ t part. true;
}

abbrev all_findings : FindingFilters
all_findings = record { severity = []; status = []; category = []; check = []; search = "" }

second-latest : latest_run 1 scanned_twice.runs ≡ some second_run
unfolding latest_run
second-latest = refl

-- the default sort is descending
shown-first :
    map
      (λ (f : Finding). f.group_id)
      (query_findings by_group 1 [] all_findings 1 1 none scanned_twice).rows
    ≡ 2 ∷ []
unfolding query_findings latest_run order_rows matching passes_filters
shown-first = refl

pages_cover_example :
    (rows_through by_group 1 [] all_findings 1 scanned_twice 1
        (pages (query_findings by_group 1 [] all_findings 1 1 none scanned_twice))
      ≡ order_rows by_group.compare_by default_sort
          (matching by_group all_findings 2 tables.findings))
    × ((query_findings by_group 1 [] all_findings 1 1 none scanned_twice).total
        ≡ length (
            order_rows by_group.compare_by default_sort
              (matching by_group all_findings 2 tables.findings)))
pages_cover_example =
    pages_cover by_group 1 [] all_findings 1 scanned_twice second_run second-latest (omega arith)

read-sort :
    parse_sort (some "-severity, title,nonsense")
    ≡ record { key = "severity"; desc = true } ∷ record { key = "title"; desc = false } ∷ []
unfolding parse_sort split_at strip lstrip rstrip strip_signs has_prefix
read-sort = refl
