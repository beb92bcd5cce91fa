-- ===== src/Nightly.antt =====
-- services/segments/nightly.py and baseline.py: who entered each segment and who left.
mod Again
mod Tests
use revenact_backend.Prelude.{
  ℕ, ◌+◌, Bool, true, false, not, ◌&&◌, ◌||◌, Option, none, some, is_some, List, [], ◌∷◌, ◌++◌, map,
  keep_if, length, leb, ltb, ◌==◌, if◌then◌else◌,
}
use revenact_backend.Prelude.Int.{ℤ, eqb_ℤ}
use revenact_backend.Segments.Queries.{is_among}
use revenact_backend.Segments.{Segment, sorted_set}

abbrev pub max_tracked_members : ℕ
max_tracked_members = 100000

-- A row of `Segment` with its owner's `is_active`, in the columns that the step reads and writes.
pub record Tracked (Number : Type 0) : Type 0 where
  pub pk : ℕ
  pub segment : Segment Number
  pub owner_is_active : Bool
  pub alert_on_changes : Bool
  pub paused : Bool
  pub last_members : Option (List ℤ)
  pub member_count : Option ℕ
  pub last_evaluated_on : Option ℕ

pub data Direction : Type 0 where
  entered left : Direction

-- `SegmentChange`, without its reason.
pub record Change : Type 0 where
  pub segment : ℕ
  pub record_id : ℤ
  pub change : Direction
  pub changed_on : ℕ

-- An alert of a segment, with how many entered and left.
pub record Alert : Type 0 where
  pub segment : ℕ
  pub entered_count : ℕ
  pub left_count : ℕ

-- What a night does to a segment: its row, the changes and the alerts to add, and whether it counts as
-- evaluated or as paused.
pub record Night (Number : Type 0) : Type 0 where
  pub row : Tracked Number
  pub changes : List Change
  pub alerts : List Alert
  pub is_evaluated : Bool
  pub is_paused : Bool

abbrev pub quiet : {Number : Type 0} → Tracked Number → Night Number
quiet row = record { row = row; changes = []; alerts = []; is_evaluated = false; is_paused = false }

-- `a - b`, of two sets of ids, sorted.
unfoldable pub difference : List ℤ → List ℤ → List ℤ
unfolding is_among sorted_set
difference a b = sorted_set (keep_if (λ n. not (is_among n b)) a)

-- `last_evaluated_on is None or last_evaluated_on < today`
unfoldable pub is_before : ℕ → Option ℕ → Bool
is_before today none = true
is_before today (some day) = ltb day today

-- `members` is `member_ids` of the segment as its owner sees it, none where it raises.
module _ {Number : Type 0} (members : Segment Number → Option (List ℤ)) (today : ℕ) where
  unfoldable pub tracked_ids : List ℤ → Option (List ℤ)
  tracked_ids ids = if leb (length ids) max_tracked_members then some ids else none

  -- The row with a baseline of today.
  unfoldable pub based : Tracked Number → List ℤ → Tracked Number
  unfolding tracked_ids
  based row ids = record row {
    member_count = some (length ids);
    last_members = tracked_ids ids;
    last_evaluated_on = some today;
  }

  unfoldable pub evaluated : Tracked Number → List Change → List Alert → Night Number
  evaluated row changes alerts = record {
    row = row;
    changes = changes;
    alerts = alerts;
    is_evaluated = true;
    is_paused = false;
  }

  -- `rebaseline`
  unfoldable pub rebaseline : Tracked Number → Option (List ℤ) → Option (Night Number)
  unfolding based evaluated
  rebaseline row none = none
  rebaseline row (some ids) = some (evaluated (based row ids) [] [])

  unfoldable pub change_of : ℕ → Direction → ℤ → Change
  change_of pk change n = record {
    segment = pk;
    record_id = n;
    change = change;
    changed_on = today;
  }

  -- `notify`, where the owner asked for alerts and someone moved.
  unfoldable pub alerts_of : Tracked Number → List ℤ → List ℤ → List Alert
  alerts_of row [] [] = []
  alerts_of row ins outs =
      if row.alert_on_changes
      then record { segment = row.pk; entered_count = length ins; left_count = length outs } ∷ []
      else []

  unfoldable pub compare_members : Tracked Number → List ℤ → List ℤ → Night Number
  unfolding difference based evaluated change_of alerts_of
  compare_members row previous ids =
      let ins = difference ids previous in
      let outs = difference previous ids in
      evaluated (based row ids)
        (map (change_of row.pk entered) ins ++ map (change_of row.pk left) outs)
        (alerts_of row ins outs)

  -- Without a baseline, or with too many members, the night only counts.
  unfoldable pub with_baseline : Tracked Number → Option (List ℤ) → Bool → List ℤ → Night Number
  unfolding compare_members evaluated based
  with_baseline row (some previous) true ids = compare_members row previous ids
  with_baseline row _ _ ids = evaluated (based row ids) [] []

  unfoldable pub evaluate_members : Tracked Number → Option (List ℤ) → Option (Night Number)
  unfolding with_baseline
  evaluate_members row none = none
  evaluate_members row (some ids) =
      some (with_baseline row row.last_members (leb (length ids) max_tracked_members) ids)

  -- Known to be too large.
  unfoldable pub is_large : Option (List ℤ) → Option ℕ → Bool
  is_large none (some n) = ltb max_tracked_members n
  is_large _ _ = false

  -- Where the count is still too large it is stored; else the members are loaded.
  unfoldable pub count_large : Tracked Number → Option (List ℤ) → Option (Night Number)
  unfolding evaluate_members evaluated
  count_large row none = none
  count_large row (some ids) =
      if ltb max_tracked_members (length ids)
      then some (
          evaluated
            (record row { member_count = some (length ids); last_evaluated_on = some today }) [] [])
      else evaluate_members row (some ids)

  unfoldable pub by_size : Bool → Tracked Number → Option (Night Number)
  unfolding count_large evaluate_members
  by_size true row = count_large row (members row.segment)
  by_size false row = evaluate_members row (members row.segment)

  unfoldable pub by_pause : Bool → Tracked Number → Option (Night Number)
  unfolding rebaseline by_size is_large
  by_pause true row = rebaseline (record row { paused = false }) (members row.segment)
  by_pause false row = by_size (is_large row.last_members row.member_count) row

  unfoldable pub by_owner : Bool → Tracked Number → Option (Night Number)
  unfolding by_pause
  by_owner false row = some (record (quiet (record row { paused = true })) { is_paused = true })
  by_owner true row = by_pause row.paused row

  unfoldable pub by_date : Bool → Tracked Number → Option (Night Number)
  unfolding by_owner
  by_date false row = some (quiet row)
  by_date true row = by_owner row.owner_is_active row

  -- `evaluate_segment`, none where it raises.
  unfoldable pub evaluate_segment : Tracked Number → Option (Night Number)
  unfolding by_date is_before
  evaluate_segment row = by_date (is_before today row.last_evaluated_on) row

-- The tables that the nightly step writes.
pub record Tables (Number : Type 0) : Type 0 where
  pub segments : List (Tracked Number)
  pub changes : List Change
  pub alerts : List Alert

-- `bulk_create(ignore_conflicts=True)`: one row per segment, record and day.
unfoldable pub is_same : Change → Change → Bool
is_same a b =
    a.segment == b.segment && eqb_ℤ a.record_id b.record_id && a.changed_on == b.changed_on

unfoldable pub has_change : Change → List Change → Bool
unfolding is_same
has_change c [] = false
has_change c (d ∷ ds) = is_same c d || has_change c ds

unfoldable pub add_changes : List Change → List Change → List Change
unfolding has_change
add_changes [] table = table
add_changes (c ∷ cs) table =
    add_changes cs (if has_change c table then table else table ++ (c ∷ []))

-- The night of one row, if it is due, after the nights of those before it.
module _ {Number : Type 0} (members : Segment Number → Option (List ℤ)) (today : ℕ) where
  unfoldable pub failed : Tracked Number → Option (Night Number) → Tracked Number
  failed row none = row
  failed row (some night) = night.row

  unfoldable pub changes_of : Option (Night Number) → List Change
  changes_of none = []
  changes_of (some night) = night.changes

  unfoldable pub alerts_made : Option (Night Number) → List Alert
  alerts_made none = []
  alerts_made (some night) = night.alerts

  -- A row that is not due is left alone.
  unfoldable pub night_of : Bool → Tracked Number → Option (Night Number)
  unfolding evaluate_segment
  night_of true row = evaluate_segment members today row
  night_of false row = some (quiet row)

  unfoldable pub run : Tracked Number → Option (Night Number)
  unfolding night_of is_before
  run row = night_of (is_before today row.last_evaluated_on) row

  unfoldable pub run_rows : List (Tracked Number) → List (Tracked Number)
  unfolding run failed
  run_rows [] = []
  run_rows (row ∷ rest) = failed row (run row) ∷ run_rows rest

  unfoldable pub run_changes : List (Tracked Number) → List Change → List Change
  unfolding run changes_of add_changes
  run_changes [] table = table
  run_changes (row ∷ rest) table = run_changes rest (add_changes (changes_of (run row)) table)

  unfoldable pub run_alerts : List (Tracked Number) → List Alert → List Alert
  unfolding run alerts_made
  run_alerts [] table = table
  run_alerts (row ∷ rest) table = run_alerts rest (table ++ alerts_made (run row))

  -- `evaluate_nightly`, over the segments in the order of their ids. Each one's night is a transaction
  -- of its own, and one that raises leaves its row as it was and does not stop the rest.
  unfoldable pub evaluate_nightly : Tables Number → Tables Number
  unfolding run_rows run_changes run_alerts
  evaluate_nightly t = record {
    segments = run_rows t.segments;
    changes = run_changes t.segments t.changes;
    alerts = run_alerts t.segments t.alerts;
  }
