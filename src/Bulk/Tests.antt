-- ===== src/Bulk/Tests.antt =====
-- A batch of three ids, of which one is hidden and one is refused.
use revenact_backend.Prelude.{ℕ, ◌≡◌, suc, ltb, map, [], ◌∷◌, Bool, List, if◌then◌else◌, ◌==◌}
use revenact_backend.Bulk.{
  Tried, returned, Failure, Verdict, invalid, valid, many, update_one, apply_each, audited_batch,
  no_result,
}
use revenact_backend.Bulk.Accounts.{Accounts, audited_batch-Accounts}
use revenact_backend.Bulk.Rows.{IsKept, apply_each-IsKept}

-- The rows are numbers; an edit adds one, and seven is refused.
abbrev visible : ℕ → Bool
visible row = ltb row 100

abbrev check : ℕ → Verdict ℕ
check row = if row == 7 then invalid (("value", many ("Too large." ∷ [])) ∷ []) else valid (suc row)

abbrev after_save : ℕ → ℕ → Tried (Unit {0})
after_save saved before = returned tt

abbrev rows : List (ℕ × ℕ)
rows = (1, 5) ∷ (2, 7) ∷ (3, 200) ∷ []

audited_batch-Accounts_example :
    let (progress, event) =
      audited_batch (update_one visible check after_save) (1 ∷ 2 ∷ 3 ∷ []) rows in
    Accounts (1 ∷ 2 ∷ 3 ∷ []) no_result progress.0
    × (event.ids ≡ progress.0.1.updated)
    × (event.failed_ids ≡ map (λ (f : Failure). f.id) progress.0.1.failed)
audited_batch-Accounts_example =
    audited_batch-Accounts (update_one visible check after_save) (1 ∷ 2 ∷ 3 ∷ []) rows

apply_each-IsKept_example :
    IsKept 2 rows (apply_each (update_one visible check after_save) (1 ∷ 2 ∷ 3 ∷ []) no_result rows)
apply_each-IsKept_example =
    apply_each-IsKept visible check after_save 2 (1 ∷ 2 ∷ 3 ∷ []) no_result rows
