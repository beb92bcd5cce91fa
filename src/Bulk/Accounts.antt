-- ===== src/Bulk/Accounts.antt =====
-- Every id of a batch is accounted for, and only the updated rows change.
use revenact_backend.Prelude.{
  ℕ, ◌≡◌, refl, ap, ◌∙◌, ◌⊎◌, inl, inr, String, Bool, true, false, Option, none, some, List, [],
  ◌∷◌, ◌++◌, map,
}
use revenact_backend.Bulk.{
  Tried, returned, database_error, escaped, Failure, Result, not_updated, collect, go_on,
  apply_each, batch_event, audited_batch, no_result, Progress,
}

-- Of the ids in their order, some were updated and the others failed, up to the last one if the batch
-- finished, or up to where an exception went up.
abbrev pub Processed : Bool → List ℕ → List ℕ → List Failure → Type 0
Processed true [] us fs = (us ≡ []) × (fs ≡ [])
Processed false [] us fs = ⊥
Processed finished (id ∷ ids) us fs =
    ((finished ≡ false) × (us ≡ []) × (fs ≡ []))
    ⊎ (((us' : List ℕ) × (us ≡ id ∷ us') × Processed finished ids us' fs)
        ⊎ ((f : Failure) × (fs' : List Failure) × (fs ≡ f ∷ fs')
            × (f.id ≡ id)
            × Processed finished ids us fs'))

abbrev pub Accounts : List ℕ → Result → Bool × Result → Type 0
Accounts ids before (finished, after) =
    (us : List ℕ) × (fs : List Failure) × (after.updated ≡ before.updated ++ us)
    × (after.failed ≡ before.failed ++ fs)
    × Processed finished ids us fs

append_nil {ℓ} : {A : Type ℓ} (xs : List A) → xs ≡ xs ++ []
append_nil [] = refl
append_nil (x ∷ xs) = ap (λ ys. x ∷ ys) (append_nil xs)

append_one {ℓ} :
    {A : Type ℓ} (xs : List A) (y : A) (zs : List A) → (xs ++ (y ∷ [])) ++ zs ≡ xs ++ (y ∷ zs)
append_one [] y zs = refl
append_one (x ∷ xs) y zs = ap (λ ys. x ∷ ys) (append_one xs y zs)

module _ {S : Type 0} (apply_one : ℕ → S → Tried (Option String) × S) where
  after_update :
      (id : ℕ) (ids : List ℕ) (before : Result) (end : Bool × Result)
      → Accounts ids (record before { updated = before.updated ++ (id ∷ []) }) end
      → Accounts (id ∷ ids) before end
  after_update id ids before (finished, after) (us, fs, u, f, p) =
      (id ∷ us, fs, u ∙ append_one before.updated id us, f, inr (inl (us, refl, p)))

  after_failure :
      (id : ℕ) (reason : String) (ids : List ℕ) (before : Result) (end : Bool × Result)
      → Accounts ids
          (record before { failed = before.failed ++ (record { id = id; reason = reason } ∷ []) })
          end
      → Accounts (id ∷ ids) before end
  after_failure id reason ids before (finished, after) (us, fs, u, f, p) = (
    us,
    record { id = id; reason = reason } ∷ fs,
    u,
    f ∙ append_one before.failed _ fs,
    inr (inr (record { id = id; reason = reason }, fs, refl, refl, p)),
  )

  go_on-Accounts :
      (id : ℕ) (ids : List ℕ) (before : Result) (later : Result → S → Progress S)
      (r : Tried (Option String) × S)
      → ((result : Result) (s : S) → Accounts ids result (later result s).0)
      → Accounts (id ∷ ids) before (go_on later (collect id r.0 before) r.1).0
  unfolding go_on collect
  go_on-Accounts id ids before later (returned none, s) h = after_update id ids before _ (h _ s)
  go_on-Accounts id ids before later (returned (some reason), s) h =
      after_failure id reason ids before _ (h _ s)
  go_on-Accounts id ids before later (database_error, s) h =
      after_failure id not_updated ids before _ (h _ s)
  go_on-Accounts id ids before later (escaped, s) h =
      ([], [], append_nil before.updated, append_nil before.failed, inl (refl, refl, refl))

  apply_each-Accounts :
      (ids : List ℕ) (before : Result) (s : S)
      → Accounts ids before (apply_each apply_one ids before s).0
  unfolding apply_each
  apply_each-Accounts [] before s =
      ([], [], append_nil before.updated, append_nil before.failed, (refl, refl))
  apply_each-Accounts (id ∷ ids) before s =
      go_on-Accounts id ids before (λ result s'. apply_each apply_one ids result s')
        (apply_one id s) (λ result s'. apply_each-Accounts ids result s')

  -- Whatever the editor does to each id, every id of a batch is in its order either among the updated
  -- ones or among the failed ones, and in one of the two only, up to the end of the batch, or up to
  -- the id whose exception went up; and the audit event names the same ids.
  pub audited_batch-Accounts :
      (ids : List ℕ) (s : S)
      → let (progress, event) = audited_batch apply_one ids s in
        Accounts ids no_result progress.0
        × (event.ids ≡ progress.0.1.updated)
        × (event.failed_ids ≡ map (λ (f : Failure). f.id) progress.0.1.failed)
  unfolding audited_batch batch_event
  audited_batch-Accounts ids s = (apply_each-Accounts ids no_result s, refl, refl)
