-- ===== src/Bulk.antt =====
-- services/portfolio_core/bulk.py: one change applied to many records, each in a transaction of its
-- own, and one audit event for the batch.
pub mod Accounts
pub mod Rows
mod Tests
use revenact_backend.Prelude.{
  ℕ, String, Bool, true, false, ◌&&◌, not, Option, none, some, List, [], ◌∷◌, ◌++◌, map, ◌==◌,
  if◌then◌else◌,
}

abbrev is_empty_list : List ℕ → Bool
is_empty_list [] = true
is_empty_list (_ ∷ _) = false

-- What a call of the editor does: it returns, a `DatabaseError`, or another exception.
pub data Tried {ℓ} (A : Type ℓ) : Type ℓ where
  returned : A → Tried A
  database_error : Tried A
  escaped : Tried A

-- One entry of the messages that a serializer reports for a field: a list, or a text.
pub data Messages : Type 0 where
  many : List String → Messages
  one : String → Messages

pub record Failure : Type 0 where
  pub id : ℕ
  pub reason : String

-- `{"updated": [...], "failed": [...]}`
pub record Result : Type 0 where
  pub updated : List ℕ
  pub failed : List Failure

pub data Outcome : Type 0 where
  success failure : Outcome

-- What the batch puts on the audit trail, besides the caller's metadata.
pub record BatchEvent : Type 0 where
  pub outcome : Outcome
  pub ids : List ℕ
  pub failed_ids : List ℕ

abbrev pub not_found : String
not_found = "Not found."

abbrev pub not_updated : String
not_updated = "Could not be updated."

abbrev pub no_result : Result
no_result = record { updated = []; failed = [] }

-- The first message of the first field; an empty list reads as `str([])`.
unfoldable pub first_reason : List (String × Messages) → String
first_reason [] = not_updated
first_reason ((field, many (m ∷ rest)) ∷ errors) = m
first_reason ((field, many []) ∷ errors) = "[]"
first_reason ((field, one m) ∷ errors) = m

-- The serializer's verdict on a row: the errors it reports, or the row that it saves.
pub data Verdict (Row : Type 0) : Type 0 where
  invalid : List (String × Messages) → Verdict Row
  valid : Row → Verdict Row

module _ {Row : Type 0} where
  -- A table, by primary key.
  unfoldable pub find_row : ℕ → List (ℕ × Row) → Option Row
  find_row id [] = none
  find_row id ((pk, row) ∷ rest) = if pk == id then some row else find_row id rest

  unfoldable pub replace_row : ℕ → Row → List (ℕ × Row) → List (ℕ × Row)
  replace_row id saved [] = []
  replace_row id saved ((pk, row) ∷ rest) =
      (pk, (if pk == id then saved else row)) ∷ replace_row id saved rest

  -- How the transaction ends once the row is saved: unless `after_save` returns, nothing stays.
  unfoldable pub close_update :
      Tried (Unit {0}) → List (ℕ × Row) → List (ℕ × Row) → Tried (Option String) × List (ℕ × Row)
  close_update (returned _) before after = (returned none, after)
  close_update database_error before after = (database_error, before)
  close_update escaped before after = (escaped, before)

  -- The editor's visibility, the single edit's serializer, and `after_save` on the saved row and the
  -- one before it.
  module _ (visible : Row → Bool) (check : Row → Verdict Row)
      (after_save : Row → Row → Tried (Unit {0})) where
    unfoldable pub save_row :
        ℕ → Row → Verdict Row → List (ℕ × Row) → Tried (Option String) × List (ℕ × Row)
    save_row id row (invalid errors) rows = (returned (some (first_reason errors)), rows)
    save_row id row (valid saved) rows =
        close_update (after_save saved row) rows (replace_row id saved rows)

    unfoldable pub update_one : ℕ → List (ℕ × Row) → Tried (Option String) × List (ℕ × Row)
    update_one id rows = elim (find_row id rows) [
      | none ↦ (returned (some not_found), rows)
      | some row ↦
          if visible row
          then save_row id row (check row) rows
          else (returned (some not_found), rows)
    ]

-- What one id adds to the result; false if an exception goes on up.
unfoldable pub collect : ℕ → Tried (Option String) → Result → Bool × Result
collect id (returned none) result = (true, record result { updated = result.updated ++ (id ∷ []) })
collect id (returned (some reason)) result =
    (true, record result { failed = result.failed ++ (record { id = id; reason = reason } ∷ []) })
collect id database_error result = (
  true,
  record result { failed = result.failed ++ (record { id = id; reason = not_updated } ∷ []) },
)
collect id escaped result = (false, result)

-- A batch as it stands: whether it goes on, its result, and the state.
abbrev pub Progress : Type 0 → Type 0
Progress S = (Bool × Result) × S

unfoldable pub batch_event : Bool × Result → BatchEvent
batch_event (finished, result) = record {
  outcome = if finished && not (is_empty_list result.updated) then success else failure;
  ids = result.updated;
  failed_ids = map (λ f. f.id) result.failed;
}

module _ {S : Type 0} where
  -- The rest of the batch, unless an exception went up.
  unfoldable pub go_on : (Result → S → Progress S) → Bool × Result → S → Progress S
  go_on later (true, result) s = later result s
  go_on later (false, result) s = ((false, result), s)

  unfoldable pub apply_each : (ℕ → S → Tried (Option String) × S) → List ℕ → Result → S → Progress S
  unfolding go_on collect
  apply_each apply_one [] result s = ((true, result), s)
  apply_each apply_one (id ∷ ids) result s =
      let (tried, s') = apply_one id s in
      go_on (λ result' s''. apply_each apply_one ids result' s'') (collect id tried result) s'

  -- `audited_batch` of a run of `apply_each`: the batch, and the event that is recorded in any case.
  unfoldable pub audited_batch :
      (ℕ → S → Tried (Option String) × S) → List ℕ → S → Progress S × BatchEvent
  unfolding apply_each batch_event
  audited_batch apply_one ids s =
      let progress = apply_each apply_one ids no_result s in (progress, batch_event progress.0)
