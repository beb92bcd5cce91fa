-- ===== src/Bulk/Rows.antt =====
-- A batch changes the rows that it reports as updated, and no other.
use revenact_backend.Prelude.{
  ℕ, ◌≡◌, ◌≢◌, refl, sym, ap, ◌∙◌, ◌⊎◌, inl, inr, String, Bool, true, false, Option, none, some,
  List, [], ◌∷◌, ◌++◌, arith, ◌==◌, ==_iff, if◌then◌else◌, any, Bool-cases,
}
use revenact_backend.Bulk.{
  Tried, returned, database_error, escaped, Result, Verdict, invalid, valid, find_row, replace_row,
  close_update, save_row, update_one, collect, go_on, apply_each, Progress, not_found,
}

-- `k` is among the updated ids.
abbrev pub reports : ℕ → Result → Bool
reports k r = any (λ i. i == k) r.updated

-- What a row is if its id is not reported: what it was.
abbrev pub IsKept : {Row : Type 0} → ℕ → List (ℕ × Row) → Progress (List (ℕ × Row)) → Type 0
IsKept k rows p = (reports k p.0.1 ≡ true) ⊎ (find_row k p.1 ≡ find_row k rows)

any-append :
    (k : ℕ) (xs ys : List ℕ) → any (λ i. i == k) xs ≡ true → any (λ i. i == k) (xs ++ ys) ≡ true
any-append k [] ys h = cc h
any-append k (x ∷ xs) ys h = elim (Bool-cases (x == k)) [
  | inl same ↦ rw same refl
  | inr other ↦ rw other (any-append k xs ys (rw other at h))
]

any-append_last : (k : ℕ) (xs : List ℕ) → any (λ i. i == k) (xs ++ (k ∷ [])) ≡ true
any-append_last k [] = rw ((==_iff k k).1 refl) refl
any-append_last k (x ∷ xs) = elim (Bool-cases (x == k)) [
  | inl same ↦ rw same refl
  | inr other ↦ rw other (any-append_last k xs)
]

find_row-replace :
    {Row : Type 0} (k id : ℕ) (saved : Row) (rows : List (ℕ × Row))
    → id ≢ k
    → find_row k (replace_row id saved rows) ≡ find_row k rows
unfolding find_row replace_row
find_row-replace k id saved [] ne = refl
find_row-replace k id saved ((pk, row) ∷ rest) ne = elim (Bool-cases (pk == k)) [
  | inr other ↦ rw other (find_row-replace k id saved rest ne)
  | inl same ↦ elim (Bool-cases (pk == id)) [
    | inl own ↦ absurd (ne (sym ((==_iff pk id).0 own) ∙ (==_iff pk k).0 same))
    | inr apart ↦ rw (same, apart) refl
  ]
]

-- What one update leaves of the row `k`.
abbrev pub Leaves :
    {Row : Type 0} → ℕ → ℕ → List (ℕ × Row) → Tried (Option String) × List (ℕ × Row) → Type 0
Leaves k id rows (returned none, after) = (id ≡ k) ⊎ (find_row k after ≡ find_row k rows)
Leaves k id rows (_, after) = after ≡ rows

module _ {Row : Type 0} (visible : Row → Bool) (check : Row → Verdict Row)
    (after_save : Row → Row → Tried (Unit {0})) where
  close-Leaves :
      (k id : ℕ) (saved : Row) (r : Tried (Unit {0})) (rows : List (ℕ × Row))
      → Leaves k id rows (close_update r rows (replace_row id saved rows))
  unfolding close_update
  close-Leaves k id saved (returned _) rows = elim (Bool-cases (id == k)) [
    | inl same ↦ inl ((==_iff id k).0 same)
    | inr other ↦ inr (find_row-replace k id saved rows (ground arith))
  ]
  close-Leaves k id saved database_error rows = refl
  close-Leaves k id saved escaped rows = refl

  save-Leaves :
      (k id : ℕ) (row : Row) (v : Verdict Row) (rows : List (ℕ × Row))
      → Leaves k id rows (save_row visible check after_save id row v rows)
  unfolding save_row
  save-Leaves k id row (invalid errors) rows = refl
  save-Leaves k id row (valid saved) rows = close-Leaves k id saved (after_save saved row) rows

  update_one-Leaves :
      (k id : ℕ) (rows : List (ℕ × Row))
      → Leaves k id rows (update_one visible check after_save id rows)
  unfolding update_one
  update_one-Leaves k id rows = looked (find_row id rows)
    where
      seen_or_not :
          (row : Row) (c : Bool)
          → Leaves k id rows (
              if c
              then save_row visible check after_save id row (check row) rows
              else (returned (some not_found), rows))
      seen_or_not row true = save-Leaves k id row (check row) rows
      seen_or_not row false = refl

      looked :
          (o : Option Row)
          → Leaves k id rows (elim o [
            | none ↦ (returned (some not_found), rows)
            | some row ↦
                if visible row
                then save_row visible check after_save id row (check row) rows
                else (returned (some not_found), rows)
          ])
      looked none = refl
      looked (some row) = seen_or_not row (visible row)

  -- An id that is reported stays reported.
  go_on-reports :
      (k id : ℕ) (before : Result) (later : Result → List (ℕ × Row) → Progress (List (ℕ × Row)))
      (r : Tried (Option String) × List (ℕ × Row))
      → reports k before ≡ true
      → ((result : Result) (rows : List (ℕ × Row))
          → reports k result ≡ true
          → reports k (later result rows).0.1 ≡ true)
      → reports k (go_on later (collect id r.0 before) r.1).0.1 ≡ true
  unfolding go_on collect
  go_on-reports k id before later (returned none, s) h next =
      next _ s (any-append k before.updated (id ∷ []) h)
  go_on-reports k id before later (returned (some reason), s) h next = next _ s h
  go_on-reports k id before later (database_error, s) h next = next _ s h
  go_on-reports k id before later (escaped, s) h next = h

  apply_each-reports :
      (k : ℕ) (ids : List ℕ) (before : Result) (rows : List (ℕ × Row))
      → reports k before ≡ true
      → reports k (apply_each (update_one visible check after_save) ids before rows).0.1 ≡ true
  unfolding apply_each
  apply_each-reports k [] before rows h = h
  apply_each-reports k (id ∷ ids) before rows h =
      go_on-reports k id before _ (update_one visible check after_save id rows) h
        (λ result rows' h'. apply_each-reports k ids result rows' h')

  go_on-IsKept :
      (k id : ℕ) (before : Result) (rows : List (ℕ × Row))
      (later : Result → List (ℕ × Row) → Progress (List (ℕ × Row)))
      (r : Tried (Option String) × List (ℕ × Row))
      → Leaves k id rows r
      → ((result : Result) (rows : List (ℕ × Row))
          → reports k result ≡ true
          → reports k (later result rows).0.1 ≡ true)
      → ((result : Result) (rows : List (ℕ × Row)) → IsKept k rows (later result rows))
      → IsKept k rows (go_on later (collect id r.0 before) r.1)
  unfolding go_on collect
  go_on-IsKept k id before rows later (returned none, s) h stays next = elim h [
    | inl same ↦ inl (stays _ s (rw same (any-append_last k before.updated)))
    | inr kept ↦ elim (next (record before { updated = before.updated ++ (id ∷ []) }) s) [
      | inl told ↦ inl told
      | inr still ↦ inr (still ∙ kept)
    ]
  ]
  go_on-IsKept k id before rows later (returned (some reason), s) h stays next =
      rw (sym h) (next _ s)
  go_on-IsKept k id before rows later (database_error, s) h stays next = rw (sym h) (next _ s)
  go_on-IsKept k id before rows later (escaped, s) h stays next = inr (ap (find_row k) h)

  -- Whatever the visibility, the serializer and `after_save` do, and even where an exception stops the
  -- batch, a row whose id the batch does not report as updated is as it was.
  pub apply_each-IsKept :
      (k : ℕ) (ids : List ℕ) (before : Result) (rows : List (ℕ × Row))
      → IsKept k rows (apply_each (update_one visible check after_save) ids before rows)
  unfolding apply_each
  apply_each-IsKept k [] before rows = inr refl
  apply_each-IsKept k (id ∷ ids) before rows =
      go_on-IsKept k id before rows _ (update_one visible check after_save id rows)
        (update_one-Leaves k id rows) (λ result rows' h. apply_each-reports k ids result rows' h)
        (λ result rows'. apply_each-IsKept k ids result rows')
