-- ===== src/Portfolio/Pages.antt =====
-- Pages cut by rank neither skip nor repeat a row.
use revenact_backend.Prelude.{
  ℕ, suc, ◌≡◌, refl, sym, ap, Bool, true, false, some, List, [], ◌∷◌, ◌++◌, map, inl, inr, drop,
  keep_if, All, Bool-cases,
}
use revenact_backend.Prelude.Orders.{Order, less_asymm}
use revenact_backend.Portfolio.Cursors.{World, Kind, Value}
use revenact_backend.Portfolio.{Rank, rank_order, value_order, sound, follows, find_start}

-- Every entry ranks before those after it: sorted, and no two of one rank.
module _ {R : Type 0} (o : Order R) where
  abbrev pub IsAscending : List R → Type 0
  IsAscending [] = Unit
  IsAscending (r ∷ rest) = All (λ s. o.less r s ≡ true) rest × IsAscending rest

-- The entries that rank after `r`.
abbrev pub rest_after : {E R : Type 0} → Order R → (E → R) → R → List E → List E
rest_after o rank r = keep_if (λ e. o.less r (rank e))

module _ {R : Type 0} (o : Order R) where
  pub All-after :
      (r s : R) (ranks : List R)
      → o.less r s ≡ true
      → All (λ x. o.less s x ≡ true) ranks
      → All (λ x. o.less r x ≡ true) ranks
  All-after r s [] p h = tt
  All-after r s (x ∷ ranks) p h = (o.trans r s x p h.0, All-after r s ranks p h.1)

module _ {E R : Type 0} (o : Order R) (rank : E → R) where
  keep-All :
      (r : R) (entries : List E)
      → All (λ s. o.less r s ≡ true) (map rank entries)
      → rest_after o rank r entries ≡ entries
  keep-All r [] h = refl
  keep-All r (e ∷ rest) h = rw (h.0) (ap (λ l. e ∷ l) (keep-All r rest h.1))

  All-middle :
      (P : R → Type 0) (before : List E) (e : E) (after : List E)
      → All P (map rank (before ++ e ∷ after))
      → P (rank e)
  All-middle P [] e after h = h.0
  All-middle P (b ∷ before) e after h = All-middle P before e after h.1

  -- In an ascending list, what ranks after an entry is what stands after it.
  pub rest_after_split :
      (before : List E) (e : E) (after : List E)
      → IsAscending o (map rank (before ++ e ∷ after))
      → rest_after o rank (rank e) (before ++ e ∷ after) ≡ after
  rest_after_split [] e after h = rw (o.irrefl (rank e)) (keep-All (rank e) after h.0)
  rest_after_split (b ∷ before) e after h =
      rw
        (less_asymm o (rank b) (rank e)
          (All-middle (λ s. o.less (rank b) s ≡ true) before e after h.0))
        (rest_after_split before e after h.1)

module _ (world : World) (kind : Kind) (descending : Bool) where
  abbrev pub by_rank : Order (Rank (Value world kind))
  by_rank = rank_order descending (value_order world kind)

  follows_sound :
      {b : Bool} (r s : Rank (Value world kind))
      → by_rank.less r s ≡ b
      → follows world kind descending (sound r) s ≡ some b
  unfolding follows
  follows_sound r s h = ap some h

  find_start_head :
      (r s : Rank (Value world kind)) (ranks : List (Rank (Value world kind)))
      → by_rank.less r s ≡ true
      → find_start world kind descending (sound r) (s ∷ ranks) ≡ some 0
  unfolding find_start
  find_start_head r s ranks h = rw (follows_sound r s h, find_start) refl

  find_start_later :
      (r s : Rank (Value world kind)) (ranks : List (Rank (Value world kind))) {n : ℕ}
      → by_rank.less r s ≡ false
      → find_start world kind descending (sound r) ranks ≡ some n
      → find_start world kind descending (sound r) (s ∷ ranks) ≡ some (suc n)
  unfolding find_start
  find_start_later r s ranks h e = rw (follows_sound r s h, find_start, e) refl

module _ (world : World) (kind : Kind) (descending : Bool) {E : Type 0}
    (rank : E → Rank (Value world kind)) where
  -- In an ascending list the scan ends where the entries after the cursor's rank begin.
  pub drop-find_start :
      (r : Rank (Value world kind)) (entries : List E)
      → IsAscending (by_rank world kind descending) (map rank entries)
      → (n : ℕ) × (find_start world kind descending (sound r) (map rank entries) ≡ some n)
        × (drop n entries ≡ rest_after (by_rank world kind descending) rank r entries)
  unfolding find_start
  drop-find_start r [] h = (0, refl, refl)
  drop-find_start r (e ∷ rest) h =
      let o = by_rank world kind descending in
      elim (Bool-cases (o.less r (rank e))) [
        | inl p ↦ (
          0,
          find_start_head world kind descending r (rank e) (map rank rest) p,
          sym (keep-All o rank r (e ∷ rest) (p, All-after o r (rank e) (map rank rest) p h.0)),
        )
        | inr p ↦ later (drop-find_start r rest h.1) p
      ]
    where
      later :
          (n : ℕ) × (find_start world kind descending (sound r) (map rank rest) ≡ some n)
            × (drop n rest ≡ rest_after (by_rank world kind descending) rank r rest)
          → (by_rank world kind descending).less r (rank e) ≡ false
          → (n : ℕ) × (find_start world kind descending (sound r) (map rank (e ∷ rest)) ≡ some n)
            × (drop n (e ∷ rest) ≡ rest_after (by_rank world kind descending) rank r (e ∷ rest))
      later (n, found, same) p = (
        suc n,
        find_start_later world kind descending r (rank e) (map rank rest) p found,
        rw p same,
      )
