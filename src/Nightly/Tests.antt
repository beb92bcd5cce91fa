-- ===== src/Nightly/Tests.antt =====
-- A segment that one record entered since its last night, and one whose owner is gone.
use revenact_backend.Prelude.{◌≡◌, refl, ℕ, true, false, some, List, [], ◌∷◌, Option}
use revenact_backend.Prelude.Int.{ℤ, pos}
use revenact_backend.Segments.Registry.{customer}
use revenact_backend.Segments.Blocks.{all}
use revenact_backend.Segments.{Segment}
use revenact_backend.Nightly.{Tracked, Tables, evaluate_nightly}
use revenact_backend.Nightly.Again.{evaluate_nightly-evaluate_nightly}

abbrev segment : Segment ℕ
segment = record {
  owner_id = some (pos 5);
  kind = customer;
  rules = record { match = all; conditions = [] };
  pinned_ids = [];
  excluded_ids = [];
}

abbrev members : Segment ℕ → Option (List ℤ)
members s = some (pos 1 ∷ pos 2 ∷ [])

abbrev watched : Tracked ℕ
watched = record {
  pk = 1;
  segment = segment;
  owner_is_active = true;
  alert_on_changes = true;
  paused = false;
  last_members = some (pos 1 ∷ pos 3 ∷ []);
  member_count = some 2;
  last_evaluated_on = some 738999;
}

abbrev orphan : Tracked ℕ
orphan = record watched { pk = 2; owner_is_active = false }

abbrev tables : Tables ℕ
tables = record { segments = watched ∷ orphan ∷ []; changes = []; alerts = [] }

-- One record entered and another one left, and the owner hears of it once.
night_test :
    (evaluate_nightly members 739000 tables).alerts
    ≡ record { segment = 1; entered_count = 1; left_count = 1 } ∷ []
unfolding evaluate_nightly
night_test = refl

evaluate_nightly-evaluate_nightly_example :
    evaluate_nightly members 739000 (evaluate_nightly members 739000 tables)
    ≡ evaluate_nightly members 739000 tables
evaluate_nightly-evaluate_nightly_example = evaluate_nightly-evaluate_nightly members 739000 tables
