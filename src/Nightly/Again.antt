-- ===== src/Nightly/Again.antt =====
-- The nightly step is idempotent per date.
use revenact_backend.Prelude.{
  ◌≡◌, refl, sym, ◌∙◌, ap, subst, inl, inr, ℕ, Bool, true, false, Option, none, some, List, [], ◌∷◌,
  ◌++◌, ltb, leb, length, Bool-cases, arith,
}
use revenact_backend.Prelude.Int.{ℤ}
use revenact_backend.Segments.{Segment}
use revenact_backend.Nightly.{
  Tracked, Night, quiet, Change, Alert, is_before, based, evaluated, rebaseline, with_baseline,
  compare_members, evaluate_members, is_large, count_large, by_size, by_pause, by_owner, by_date,
  evaluate_segment, max_tracked_members, Tables, add_changes, failed, changes_of, alerts_made,
  night_of, run, run_rows, run_changes, run_alerts, evaluate_nightly,
}

before_itself : (today : ℕ) → is_before today (some today) ≡ false
unfolding is_before
before_itself today = ground arith

append_none : {A : Type 0} (xs : List A) → xs ++ [] ≡ xs
append_none [] = refl
append_none (x ∷ xs) = ap (λ l. x ∷ l) (append_none xs)

module _ {Number : Type 0} (members : Segment Number → Option (List ℤ)) (today : ℕ) where
  -- A night that raises, or one that leaves today's date on the row.
  abbrev Stamps : Option (Night Number) → Type 0
  Stamps none = Unit
  Stamps (some night) = night.row.last_evaluated_on ≡ some today

  with_baseline-Stamps :
      (row : Tracked Number) (last : Option (List ℤ)) (b : Bool) (ids : List ℤ)
      → (with_baseline members today row last b ids).row.last_evaluated_on ≡ some today
  unfolding with_baseline compare_members evaluated based
  with_baseline-Stamps row (some previous) true ids = refl
  with_baseline-Stamps row last b ids = refl

  evaluate_members-Stamps :
      (row : Tracked Number) (o : Option (List ℤ)) → Stamps (evaluate_members members today row o)
  unfolding evaluate_members
  evaluate_members-Stamps row none = tt
  evaluate_members-Stamps row (some ids) =
      with_baseline-Stamps row row.last_members (leb (length ids) max_tracked_members) ids

  count_large-Stamps :
      (row : Tracked Number) (o : Option (List ℤ)) → Stamps (count_large members today row o)
  unfolding count_large evaluated
  count_large-Stamps row none = tt
  count_large-Stamps row (some ids) = elim (Bool-cases (ltb max_tracked_members (length ids))) [
    | inl p ↦ rw p refl
    | inr p ↦ rw p (evaluate_members-Stamps row (some ids))
  ]

  by_size-Stamps : (b : Bool) (row : Tracked Number) → Stamps (by_size members today b row)
  unfolding by_size
  by_size-Stamps true row = count_large-Stamps row (members row.segment)
  by_size-Stamps false row = evaluate_members-Stamps row (members row.segment)

  rebaseline-Stamps :
      (row : Tracked Number) (o : Option (List ℤ)) → Stamps (rebaseline members today row o)
  unfolding rebaseline evaluated based
  rebaseline-Stamps row none = tt
  rebaseline-Stamps row (some ids) = refl

  by_pause-Stamps : (b : Bool) (row : Tracked Number) → Stamps (by_pause members today b row)
  unfolding by_pause
  by_pause-Stamps true row = rebaseline-Stamps (record row { paused = false }) (members row.segment)
  by_pause-Stamps false row =
      by_size-Stamps (is_large members today row.last_members row.member_count) row

  -- A row that another night of the same day leaves as it is, without changes or alerts.
  pub record IsSettled (row : Tracked Number) : Type 0 where
    pub same : failed members today row (run members today row) ≡ row
    pub unchanged : changes_of members today (run members today row) ≡ []
    pub unalerted : alerts_made members today (run members today row) ≡ []

  done-IsSettled :
      (row : Tracked Number) → is_before today row.last_evaluated_on ≡ false → IsSettled row
  unfolding run night_of
  done-IsSettled row h = record {
    same = rw h (unfold failed in refl);
    unchanged = rw h (unfold changes_of in refl);
    unalerted = rw h (unfold alerts_made in refl);
  }

  stamped-IsSettled : (row : Tracked Number) → row.last_evaluated_on ≡ some today → IsSettled row
  stamped-IsSettled row e = done-IsSettled row (rw e (before_itself today))

  raised-IsSettled : (row : Tracked Number) → run members today row ≡ none → IsSettled row
  raised-IsSettled row h = record {
    same = rw h (unfold failed in refl);
    unchanged = rw h (unfold changes_of in refl);
    unalerted = rw h (unfold alerts_made in refl);
  }

  left_by :
      (row : Tracked Number) (o : Option (Night Number))
      → run members today row ≡ o
      → Stamps o
      → IsSettled (failed members today row o)
  unfolding failed
  left_by row none e h = raised-IsSettled row e
  left_by row (some night) e h = stamped-IsSettled night.row h

  run_inactive :
      (row : Tracked Number)
      → is_before today row.last_evaluated_on ≡ true
      → row.owner_is_active ≡ false
      → run members today row
        ≡ some (record (quiet (record row { paused = true })) { is_paused = true })
  unfolding run night_of evaluate_segment by_date by_owner
  run_inactive row p q =
      ap (λ d. night_of members today d row) p
      ∙ ap (λ d. by_date members today d row) p
      ∙ ap (λ a. by_owner members today a row) q

  run_active :
      (row : Tracked Number)
      → is_before today row.last_evaluated_on ≡ true
      → row.owner_is_active ≡ true
      → run members today row ≡ by_pause members today row.paused row
  unfolding run night_of evaluate_segment by_date by_owner
  run_active row p q =
      ap (λ d. night_of members today d row) p
      ∙ ap (λ d. by_date members today d row) p
      ∙ ap (λ a. by_owner members today a row) q

  paused-IsSettled :
      (row : Tracked Number)
      → is_before today row.last_evaluated_on ≡ true
      → row.owner_is_active ≡ false
      → IsSettled (record row { paused = true })
  paused-IsSettled row p q = record {
    same = ap (failed members today (record row { paused = true })) again ∙ (unfold failed in refl);
    unchanged = ap (changes_of members today) again ∙ (unfold changes_of in refl);
    unalerted = ap (alerts_made members today) again ∙ (unfold alerts_made in refl);
  }
    where
      again :
          run members today (record row { paused = true })
          ≡ some (record (quiet (record row { paused = true })) { is_paused = true })
      again = run_inactive (record row { paused = true }) p q

  left_inactive :
      (row : Tracked Number)
      → is_before today row.last_evaluated_on ≡ true
      → row.owner_is_active ≡ false
      → failed members today row (run members today row) ≡ record row { paused = true }
  unfolding failed
  left_inactive row p q = ap (failed members today row) (run_inactive row p q)

  -- Whatever a night does to a row, another one of the same day does nothing more.
  after-IsSettled :
      (row : Tracked Number) → IsSettled (failed members today row (run members today row))
  after-IsSettled row = elim (Bool-cases (is_before today row.last_evaluated_on)) [
    | inr p ↦ subst IsSettled (sym (done-IsSettled row p).same) (done-IsSettled row p)
    | inl p ↦ elim (Bool-cases row.owner_is_active) [
      | inl q ↦
          left_by row (run members today row) refl
            (subst Stamps (sym (run_active row p q)) (by_pause-Stamps row.paused row))
      | inr q ↦ subst IsSettled (sym (left_inactive row p q)) (paused-IsSettled row p q)
    ]
  ]

  rows_again :
      (rows : List (Tracked Number))
      → run_rows members today (run_rows members today rows) ≡ run_rows members today rows
  unfolding run_rows
  rows_again [] = refl
  rows_again (row ∷ rest) = cc ((after-IsSettled row).same, rows_again rest)

  changes_again :
      (rows : List (Tracked Number)) (table : List Change)
      → run_changes members today (run_rows members today rows) table ≡ table
  unfolding run_changes run_rows add_changes
  changes_again [] table = refl
  changes_again (row ∷ rest) table =
      ap (λ cs. run_changes members today (run_rows members today rest) (add_changes cs table))
        (after-IsSettled row).unchanged
      ∙ changes_again rest table

  alerts_again :
      (rows : List (Tracked Number)) (table : List Alert)
      → run_alerts members today (run_rows members today rows) table ≡ table
  unfolding run_alerts run_rows
  alerts_again [] table = refl
  alerts_again (row ∷ rest) table =
      ap (λ l. run_alerts members today (run_rows members today rest) (table ++ l))
        (after-IsSettled row).unalerted
      ∙ ap (run_alerts members today (run_rows members today rest)) (append_none table)
      ∙ alerts_again rest table

  -- Where the members of the segments have not changed in between, running the nightly step again on the
  -- same day changes nothing, whatever raised or was paused in the
  -- first run, and records no change and no alert twice.
  pub evaluate_nightly-evaluate_nightly :
      (t : Tables Number)
      → evaluate_nightly members today (evaluate_nightly members today t)
        ≡ evaluate_nightly members today t
  unfolding evaluate_nightly
  evaluate_nightly-evaluate_nightly t = cc (
    rows_again t.segments,
    changes_again t.segments (run_changes members today t.segments t.changes),
    alerts_again t.segments (run_alerts members today t.segments t.alerts),
  )
