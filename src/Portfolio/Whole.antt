-- ===== src/Portfolio/Whole.antt =====
-- services/portfolio_core/shape.py `select` and `paginate`: the whole of a list, page by page.
use revenact_backend.Prelude.{
  ℕ, suc, ◌≤◌, String, ◌≡◌, refl, Bool, true, not, Option, none, some, List, [], ◌∷◌, map, inl, inr,
  str_eq, is_some, length, keep_if, arith, All, Bool-cases,
}
use revenact_backend.Prelude.Orders.{Order}
use revenact_backend.Portfolio.Cursors.{World, IsLawful, IsReadBack, Kind}
use revenact_backend.Portfolio.{Sums, PortfolioOrder, Params, rank, select, paginate}
use revenact_backend.Portfolio.Pages.{IsAscending, by_rank}
use revenact_backend.Portfolio.Resume.{document_of, keyset_page_first}
use revenact_backend.Portfolio.Sorting.{IsDistinct, id_of, order-IsAscending}
use revenact_backend.Portfolio.Walk.{collect, collect_rest}

module _ {E R : Type 0} (o : Order R) (rank : E → R) (test : E → Bool) where
  All-keep_if :
      (P : R → Type 0) (entries : List E)
      → All P (map rank entries)
      → All P (map rank (keep_if test entries))
  All-keep_if P [] h = tt
  All-keep_if P (e ∷ rest) h = elim (Bool-cases (test e)) [
    | inl p ↦ rw p (h.0, All-keep_if P rest h.1)
    | inr p ↦ rw p (All-keep_if P rest h.1)
  ]

  keep_if-IsAscending :
      (entries : List E)
      → IsAscending o (map rank entries)
      → IsAscending o (map rank (keep_if test entries))
  keep_if-IsAscending [] h = tt
  keep_if-IsAscending (e ∷ rest) h = elim (Bool-cases (test e)) [
    | inl p ↦
        rw p (All-keep_if (λ r. o.less (rank e) r ≡ true) rest h.0, keep_if-IsAscending rest h.1)
    | inr p ↦ rw p (keep_if-IsAscending rest h.1)
  ]

module _ {world : World} {sums : Sums} {kind : Kind} {E : Type 0}
    (own : PortfolioOrder world sums kind E) where
  -- The request for the page of a cursor.
  abbrev pub asked : Bool → String → Option String → ℕ → String → Params
  asked descending group group_value limit cursor = record {
    descending = descending;
    group = group;
    group_value = group_value;
    cursor = cursor;
    limit = limit;
  }

  select-IsAscending :
      (descending : Bool) (group : String) (group_value : Option String) (limit : ℕ)
      (cursor : String) (entries : List E)
      → IsDistinct (id_of own) entries
      → IsAscending (by_rank world kind descending) (
          map
            (rank own group)
            (select own (asked descending group group_value limit cursor) entries).0)
  unfolding select
  select-IsAscending descending group none limit cursor entries h =
      elim (Bool-cases (str_eq group "")) [
        | inl p ↦ rw p ((order-IsAscending own descending group entries h).0)
        | inr p ↦ rw p ((order-IsAscending own descending group entries h).0)
      ]
  select-IsAscending descending group (some value) limit cursor entries h =
      elim (Bool-cases (str_eq group "")) [
        | inl p ↦ rw p ((order-IsAscending own descending group entries h).0)
        | inr p ↦ rw p (
            keep_if-IsAscending (by_rank world kind descending) (rank own group) _ _
              (order-IsAscending own descending group entries h).0)
      ]

  in_group : (group : String) (e : E) → is_some (rank own group e).0 ≡ not (str_eq group "")
  unfolding rank
  in_group group e = elim (Bool-cases (str_eq group "")) [ inl p ↦ rw p refl | inr p ↦ rw p refl ]

  -- Where what was encoded decodes, and base64 ends a text of at least one digit with at most two `=`
  -- that make its length a multiple of four, for the document of every row: whatever the list is sorted,
  -- grouped and filtered by, following the cursors from its first page on, with a limit of at least
  -- one, serves each of its rows of different ids once, in their order, in at most one page more than
  -- there are rows.
  pub paginate-collect :
      IsLawful world
      → (fingerprint : String) (descending : Bool) (group : String) (group_value : Option String)
        (limit : ℕ) (entries : List E)
      → ((e : E)
          → IsReadBack world
              (document_of world kind (rank own group) fingerprint (rank own group e)))
      → 1 ≤ limit
      → IsDistinct (id_of own) entries
      → let rows = (select own (asked descending group group_value limit "") entries).0 in
        collect
          (λ cursor.
            paginate own fingerprint (asked descending group group_value limit cursor) rows)
          (suc (length rows))
          ""
        ≡ some rows
  unfolding paginate
  paginate-collect lawful fingerprint descending group group_value limit entries read_back nonzero
        h =
      let rows = (select own (asked descending group group_value limit "") entries).0 in
      collect_rest world lawful kind (rank own group) fingerprint descending (not (str_eq group ""))
        limit rows (select-IsAscending descending group group_value limit "" entries h)
        (in_group group) read_back nonzero (length rows) "" [] rows refl
        (keyset_page_first world kind (rank own group) fingerprint descending
          (not (str_eq group "")) limit rows)
        (omega arith)
