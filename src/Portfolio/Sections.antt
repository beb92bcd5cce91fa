-- ===== src/Portfolio/Sections.antt =====
-- services/portfolio_core/shape.py `groups`: the sections of a list and their counts.
use revenact_backend.Prelude.{
  ℕ, ◌+◌, String, ◌≡◌, refl, ap, ◌∙◌, Bool, false, none, some, List, [], ◌∷◌, map, inl, inr, arith,
  str_eq, str_eq_iff, if◌then◌else◌, length, keep_if, Bool-cases,
}
use revenact_backend.Prelude.Orders.{Order, ℤ_order, text_order, lex}
use revenact_backend.Portfolio.Cursors.{World, Kind}
use revenact_backend.Portfolio.{
  Sums, PortfolioOrder, Bucket, insert_entry, sort_entries, count_in, tally, tally_all, round_total,
  groups, order, select,
}
use revenact_backend.Portfolio.Whole.{asked}

-- How many rows the sections of a key count.
abbrev pub counted : {Money : Type 0} → String → List (Bucket Money) → ℕ
counted key [] = 0
counted key (b ∷ rest) = (if str_eq b.key key then b.count else 0) + counted key rest

zero_add : (n : ℕ) → 0 + n ≡ n
zero_add n = omega arith

module _ {Money R : Type 0} (key : String) (o : Order R) (rank : Bucket Money → R) where
  counted-insert_entry :
      (b : Bucket Money) (buckets : List (Bucket Money))
      → counted key (insert_entry o rank b buckets) ≡ counted key (b ∷ buckets)
  unfolding insert_entry
  counted-insert_entry b [] = refl
  counted-insert_entry b (c ∷ rest) = elim (Bool-cases (o.less (rank c) (rank b))) [
    | inl p ↦ rw p (grind (arith, counted-insert_entry b rest))
    | inr p ↦ rw p refl
  ]

  counted-sort_entries :
      (buckets : List (Bucket Money))
      → counted key (sort_entries o rank buckets) ≡ counted key buckets
  unfolding sort_entries
  counted-sort_entries [] = refl
  counted-sort_entries (b ∷ rest) =
      counted-insert_entry b (sort_entries o rank rest)
      ∙ ap (λ n. (if str_eq b.key key then b.count else 0) + n) (counted-sort_entries rest)

module _ {world : World} {sums : Sums} {kind : Kind} {E : Type 0}
    (own : PortfolioOrder world sums kind E) (group : String) (key : String) where
  counted-round_total :
      (buckets : List (Bucket sums.Money))
      → counted key (map (round_total own) buckets) ≡ counted key buckets
  unfolding round_total
  counted-round_total [] = refl
  counted-round_total (b ∷ rest) =
      ap (λ n. (if str_eq b.key key then b.count else 0) + n) (counted-round_total rest)

  counted-tally :
      (own_key label : String) (e : E) (buckets : List (Bucket sums.Money))
      → counted key (tally own own_key label e buckets)
        ≡ (if str_eq own_key key then 1 else 0) + counted key buckets
  unfolding tally count_in
  counted-tally own_key label e [] = refl
  counted-tally own_key label e (b ∷ rest) = elim (Bool-cases (str_eq b.key own_key)) [
    | inl p ↦
        rw p (grind (arith, str_eq_iff b.key own_key, str_eq_iff b.key key, str_eq_iff own_key key))
    | inr p ↦ rw p (grind (arith, counted-tally own_key label e rest))
  ]

  counted-tally_all :
      (buckets : List (Bucket sums.Money)) (entries : List E)
      → counted key (tally_all own group buckets entries)
        ≡ counted key buckets + length (keep_if (λ e. str_eq (own.group_key e group).0 key) entries)
  unfolding tally_all
  counted-tally_all buckets [] = omega arith
  counted-tally_all buckets (e ∷ rest) =
      let (k, label) = own.group_key e group in
      elim (Bool-cases (str_eq k key)) [
        | inl p ↦
            rw
              (
                counted-tally_all (tally own k label e buckets) rest,
                counted-tally k label e buckets,
                p,
              )
              (omega arith)
        | inr p ↦
            rw
              (
                counted-tally_all (tally own k label e buckets) rest,
                counted-tally k label e buckets,
                p,
              )
              (omega arith)
      ]

  counted-groups :
      (entries : List E)
      → counted key (groups own group entries)
        ≡ length (keep_if (λ e. str_eq (own.group_key e group).0 key) entries)
  unfolding groups
  counted-groups entries =
      counted-round_total _
      ∙ counted-sort_entries key (lex ℤ_order (lex text_order text_order))
          (λ b. own.section_rank b.key b.label group) (tally_all own group [] entries)
      ∙ counted-tally_all [] entries
      ∙ zero_add (length (keep_if (λ e. str_eq (own.group_key e group).0 key) entries))

  -- A grouped list's section counts exactly the rows that asking for that section alone would list.
  pub counted-select :
      (descending : Bool) (limit : ℕ) (cursor : String) (entries : List E)
      → str_eq group "" ≡ false
      → counted key (select own (asked own descending group none limit cursor) entries).1
        ≡ length (select own (asked own descending group (some key) limit cursor) entries).0
  unfolding select
  counted-select descending limit cursor entries h =
      rw h (counted-groups (order own descending group entries))
