-- ===== src/Portfolio/Sorting.antt =====
-- services/portfolio_core/shape.py `order`: sorting by rank.
use mathlib.Core.List.{Perm}
use mathlib.Core.List.Perm
use revenact_backend.Prelude.{
  String, ◌≡◌, ap, Bool, true, false, List, [], ◌∷◌, map, inl, inr, All, Bool-cases,
}
use revenact_backend.Prelude.Int.{ℤ}
use revenact_backend.Prelude.Orders.{Order}
use revenact_backend.Portfolio.Cursors.{World, Kind}
use revenact_backend.Portfolio.{Sums, PortfolioOrder, insert_entry, sort_entries, rank, order}
use revenact_backend.Portfolio.Pages.{IsAscending, by_rank, All-after}

-- No two entries have the same `key`.
abbrev pub IsDistinct : {E K : Type 0} → (E → K) → List E → Type 0
IsDistinct key [] = Unit
IsDistinct key (e ∷ rest) = All (λ f. ¬ (key e ≡ key f)) rest × IsDistinct key rest

module _ {E R : Type 0} (o : Order R) (rank : E → R) where
  insert_entry-Perm :
      (e : E) (entries : List E) → Perm (insert_entry o rank e entries) (e ∷ entries)
  unfolding insert_entry
  insert_entry-Perm e [] = Perm.refl (e ∷ [])
  insert_entry-Perm e (f ∷ rest) = elim (Bool-cases (o.less (rank f) (rank e))) [
    | inl p ↦ rw p (Perm.trans (Perm.cons f (insert_entry-Perm e rest)) (Perm.swap e f rest))
    | inr p ↦ rw p (Perm.refl (e ∷ f ∷ rest))
  ]

  pub sort_entries-Perm : (entries : List E) → Perm (sort_entries o rank entries) entries
  unfolding sort_entries
  sort_entries-Perm [] = Perm.refl []
  sort_entries-Perm (e ∷ rest) =
      Perm.trans (insert_entry-Perm e (sort_entries o rank rest))
        (Perm.cons e (sort_entries-Perm rest))

  All-insert_entry :
      (P : E → Type 0) (e : E) (entries : List E)
      → P e
      → All P entries
      → All P (insert_entry o rank e entries)
  unfolding insert_entry
  All-insert_entry P e [] p h = (p, tt)
  All-insert_entry P e (f ∷ rest) p h = elim (Bool-cases (o.less (rank f) (rank e))) [
    | inl q ↦ rw q (h.0, All-insert_entry P e rest p h.1)
    | inr q ↦ rw q (p, h)
  ]

  All-sort_entries :
      (P : E → Type 0) (entries : List E) → All P entries → All P (sort_entries o rank entries)
  unfolding sort_entries
  All-sort_entries P [] h = tt
  All-sort_entries P (e ∷ rest) h =
      All-insert_entry P e (sort_entries o rank rest) h.0 (All-sort_entries P rest h.1)

  All-ranks :
      (P : R → Type 0) (entries : List E) → All (λ e. P (rank e)) entries → All P (map rank entries)
  All-ranks P [] h = tt
  All-ranks P (e ∷ rest) h = (h.0, All-ranks P rest h.1)

  ranks_All :
      (P : R → Type 0) (entries : List E) → All P (map rank entries) → All (λ e. P (rank e)) entries
  ranks_All P [] h = tt
  ranks_All P (e ∷ rest) h = (h.0, ranks_All P rest h.1)

  less_other : (a b : R) → o.less b a ≡ false → ¬ (a ≡ b) → o.less a b ≡ true
  less_other a b p differ = elim (Bool-cases (o.less a b)) [
    | inl q ↦ q
    | inr q ↦ absurd (differ (o.connect a b q p))
  ]

  insert_entry-IsAscending :
      (e : E) (entries : List E)
      → All (λ f. ¬ (rank e ≡ rank f)) entries
      → IsAscending o (map rank entries)
      → IsAscending o (map rank (insert_entry o rank e entries))
  unfolding insert_entry
  insert_entry-IsAscending e [] differ h = (tt, tt)
  insert_entry-IsAscending e (f ∷ rest) differ h = elim (Bool-cases (o.less (rank f) (rank e))) [
    | inl p ↦ rw p (
      All-ranks (λ r. o.less (rank f) r ≡ true) (insert_entry o rank e rest)
          (All-insert_entry (λ g. o.less (rank f) (rank g) ≡ true) e rest p
            (ranks_All (λ r. o.less (rank f) r ≡ true) rest h.0)),
      insert_entry-IsAscending e rest differ.1 h.1,
    )
    | inr p ↦
        let q = less_other (rank e) (rank f) p differ.0 in
        rw p ((q, All-after o (rank e) (rank f) (map rank rest) q h.0), h)
  ]

  -- Entries of different ranks are sorted strictly.
  pub sort_entries-IsAscending :
      (entries : List E)
      → IsDistinct rank entries
      → IsAscending o (map rank (sort_entries o rank entries))
  unfolding sort_entries
  sort_entries-IsAscending [] h = tt
  sort_entries-IsAscending (e ∷ rest) h =
      insert_entry-IsAscending e (sort_entries o rank rest)
        (All-sort_entries (λ f. ¬ (rank e ≡ rank f)) rest h.0) (sort_entries-IsAscending rest h.1)

module _ {world : World} {sums : Sums} {kind : Kind} {E : Type 0}
    (own : PortfolioOrder world sums kind E) where
  -- The id of a row, the last part of its rank.
  abbrev pub id_of : E → ℤ
  id_of e = (own.tiebreak e).1

  ranks-IsDistinct :
      (group : String) (entries : List E)
      → IsDistinct id_of entries
      → IsDistinct (rank own group) entries
  unfolding rank
  ranks-IsDistinct group [] h = tt
  ranks-IsDistinct group (e ∷ rest) h = (others rest h.0, ranks-IsDistinct group rest h.1)
    where
      others :
          (rest : List E)
          → All (λ f. ¬ (id_of e ≡ id_of f)) rest
          → All (λ f. ¬ (rank own group e ≡ rank own group f)) rest
      others [] differ = tt
      others (f ∷ rest) differ = ((λ same. differ.0 (ap (λ r. r.1.1.1) same)), others rest differ.1)

  -- Rows of different ids, in whatever order they come, are put in the strict order of their ranks, and
  -- none is lost or repeated.
  pub order-IsAscending :
      (descending : Bool) (group : String) (entries : List E)
      → IsDistinct id_of entries
      → IsAscending
          (by_rank world kind descending)
          (map (rank own group) (order own descending group entries))
        × Perm (order own descending group entries) entries
  unfolding order
  order-IsAscending descending group entries h =
      let o = by_rank world kind descending in
      (
        sort_entries-IsAscending o (rank own group) entries (ranks-IsDistinct group entries h),
        sort_entries-Perm o (rank own group) entries,
      )
