-- ===== src/Checks/Activity.antt =====
-- `build_activity_index` of app/analysis/engine.py: what the log events say of each principal.
use mathlib.Core.Option.{map as option_map}
use iam_sentinel_ese.Checks.{ActivityIndex}
use iam_sentinel_ese.Counting.{tally_keys}
use iam_sentinel_ese.LogParse.{to_iam_action}
use iam_sentinel_ese.Prelude.{
  List, Option, String, [], if◌then◌else◌, max, min, nat_eq, none, option_eq, some, string_eq, ℕ,
  ◌-◌, ◌/◌, ◌==◌, ◌∷◌,
}
use iam_sentinel_ese.Prelude.Text.{is_empty}
use iam_sentinel_ese.Records.{LogEventRecord, NormalizedDataset, listed}
use iam_sentinel_ese.Scan.{or_empty}

-- `ev.principal_uid`, unless it is missing or empty
abbrev pub seen_uid : LogEventRecord → Option String
seen_uid ev = if is_empty (or_empty ev.principal_uid) then none else ev.principal_uid

abbrev pub seen_uids : List LogEventRecord → List String
seen_uids [] = []
seen_uids (ev ∷ events) = listed (seen_uid ev) (seen_uids events)

-- the action that an event shows to be exercised
abbrev pub exercised_action : LogEventRecord → Option String
exercised_action ev =
    if ev.outcome == some "success" then to_iam_action ev.event_source ev.event_name else none

abbrev pub use_of : LogEventRecord → Option (String × String)
use_of ev = elim (seen_uid ev) [
  | none ↦ none
  | some uid ↦ option_map (λ action. (uid, action)) (exercised_action ev)
]

abbrev pub uses_of : List LogEventRecord → List (String × String)
uses_of [] = []
uses_of (ev ∷ events) = listed (use_of ev) (uses_of events)

abbrev pub times_of : List LogEventRecord → List ℕ
times_of [] = []
times_of (ev ∷ events) = listed ev.ts (times_of events)

abbrev pub latest : ℕ → List ℕ → ℕ
latest t [] = t
latest t (u ∷ ts) = max u (latest t ts)

abbrev pub earliest : ℕ → List ℕ → ℕ
earliest t [] = t
earliest t (u ∷ ts) = min u (earliest t ts)

-- the days between the earliest and the latest event, at least one if there are two events
abbrev pub window_of : List ℕ → ℕ
window_of [] = 0
window_of (t ∷ []) = 0
window_of (t ∷ u ∷ ts) = max ((latest t (u ∷ ts) - earliest t (u ∷ ts)) / 86400) 1

unfoldable pub build_activity_index : NormalizedDataset → ActivityIndex
build_activity_index dataset = record {
  used_actions = uses_of dataset.log_events;
  event_counts = tally_keys (seen_uids dataset.log_events) [];
  window_days = window_of (times_of dataset.log_events);
}
