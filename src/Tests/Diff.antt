-- ===== src/Tests/Diff.antt =====
-- The findings of the test tables, between their two runs.
use iam_sentinel_ese.Diff.{
  RunDiff, by_risk, card_of, delta_of, diff_ordered, evidence_changes, findings_by_fingerprint,
  has_changes,
}
use iam_sentinel_ese.Diff.Partition.{diff_ordered-counts}
use iam_sentinel_ese.Json.{Value}
use iam_sentinel_ese.Prelude.{Bool, [], length, none, refl, true, ◌+◌, ◌∷◌, ◌≡◌}
use iam_sentinel_ese.Runs.{Run}
use iam_sentinel_ese.Runs.Queue.{new_run}
use iam_sentinel_ese.Tests.Checks.{limits}
use iam_sentinel_ese.Tests.Data.{tables}

abbrev older_run : Run
older_run = new_run 1 1 limits "manual" none

abbrev newer_one : Run
newer_one = new_run 2 1 limits "manual" none

-- no two values are told apart
abbrev same_value : Value → Value → Bool
same_value a b = true

abbrev comparison : RunDiff
comparison = diff_ordered same_value tables older_run newer_one

comparison-counts :
    length comparison.new
      ∷ length comparison.changed
      ∷ comparison.unchanged_count
      ∷ length comparison.resolved
      ∷ []
    ≡ 1 ∷ 1 ∷ 0 ∷ 0 ∷ []
unfolding diff_ordered findings_by_fingerprint by_risk has_changes delta_of card_of evidence_changes
comparison-counts = refl

diff_ordered-counts_example :
    (length comparison.new + length comparison.changed + comparison.unchanged_count
      ≡ length (findings_by_fingerprint tables 2))
    × (length comparison.resolved + length comparison.changed + comparison.unchanged_count
        ≡ length (findings_by_fingerprint tables 1))
diff_ordered-counts_example = diff_ordered-counts same_value tables older_run newer_one
