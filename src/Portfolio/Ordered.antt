-- ===== src/Portfolio/Ordered.antt =====
-- services/portfolio_core/shape.py `order`: which of two rows stands first.
use mathlib.Core.List.{Perm}
use revenact_backend.Prelude.{
  String, ◌≡◌, Bool, true, false, Option, none, some, List, [], ◌∷◌, map, inl, inr, ◌⊎◌, str_eq,
  if◌then◌else◌, All, Bool-cases,
}
use revenact_backend.Prelude.Int.{ℤ, ltb_ℤ}
use revenact_backend.Prelude.Orders.{
  Order, text_less, text_order, ℤ_order, lex_less, lex, missing_last,
}
use revenact_backend.Portfolio.Cursors.{World, Kind, Value, Section}
use revenact_backend.Portfolio.{
  Sums, PortfolioOrder, section_order, tiebreak_order, directed, value_order, rank, rank_of, order,
}
use revenact_backend.Portfolio.Pages.{IsAscending, by_rank}
use revenact_backend.Portfolio.Sorting.{IsDistinct, id_of, order-IsAscending}

-- Each element stands before those after it.
abbrev pub IsInOrder : {E : Type 0} → (E → E → Type 0) → List E → Type 0
IsInOrder Before [] = Unit
IsInOrder Before (e ∷ rest) = All (λ f. Before e f) rest × IsInOrder Before rest

lex_less-true :
    {A B : Type 0} (o : Order A) (p : Order B) (x y : A × B)
    → lex_less o p x y ≡ true
    → (o.less x.0 y.0 ≡ true) ⊎ ((x.0 ≡ y.0) × (p.less x.1 y.1 ≡ true))
lex_less-true o p x y h = elim (Bool-cases (o.less x.0 y.0)) [
  | inl first ↦ inl first
  | inr not_first ↦ elim (Bool-cases (o.less y.0 x.0)) [
    | inl last ↦ cc (rw (not_first, last) at h)
    | inr not_last ↦ inr (o.connect x.0 y.0 not_first not_last, rw (not_first, not_last) at h)
  ]
]

module _ {world : World} {sums : Sums} {kind : Kind} {E : Type 0}
    (own : PortfolioOrder world sums kind E) where
  -- By name and then by id, in either direction of the list.
  abbrev pub TiedBefore : E → E → Type 0
  TiedBefore e f =
      (text_less (own.tiebreak e).0 (own.tiebreak f).0 ≡ true)
      ⊎ (((own.tiebreak e).0 ≡ (own.tiebreak f).0)
          × (ltb_ℤ (own.tiebreak e).1 (own.tiebreak f).1 ≡ true))

  -- By the values that the list is sorted by: the greater one first where it descends, the less one
  -- where it does not, and missing ones last in either direction.
  abbrev pub ValuedBefore :
      Bool → E → E → Option (Value world kind) → Option (Value world kind) → Type 0
  ValuedBefore descending e f none none = TiedBefore e f
  ValuedBefore descending e f none (some w) = ⊥
  ValuedBefore descending e f (some v) none = Unit
  ValuedBefore true e f (some v) (some w) =
      ((value_order world kind).less w v ≡ true) ⊎ ((v ≡ w) × TiedBefore e f)
  ValuedBefore false e f (some v) (some w) =
      ((value_order world kind).less v w ≡ true) ⊎ ((v ≡ w) × TiedBefore e f)

  -- The position of a row's section, none where the list is not grouped.
  abbrev pub section_at : String → E → Option Section
  section_at group e =
      if str_eq group ""
      then none
      else some (own.section_rank (own.group_key e group).0 (own.group_key e group).1 group)

  abbrev pub StandsBefore : Bool → String → E → E → Type 0
  StandsBefore descending group e f =
      (section_order.less (section_at group e) (section_at group f) ≡ true)
      ⊎ ((section_at group e ≡ section_at group f)
          × ValuedBefore descending e f (own.sort_value e) (own.sort_value f))

  -- The order of the values, and of the ties.
  abbrev by_value : Bool → Order (Option (Value world kind) × (String × ℤ))
  by_value descending =
      lex (missing_last (directed descending (value_order world kind))) tiebreak_order

  ValuedBefore-split :
      (descending : Bool) (e f : E) (v w : Option (Value world kind))
      → ((missing_last (directed descending (value_order world kind))).less v w ≡ true)
        ⊎ ((v ≡ w) × TiedBefore e f)
      → ValuedBefore descending e f v w
  ValuedBefore-split descending e f none none (inl h) = cc h
  ValuedBefore-split descending e f none none (inr h) = h.1
  ValuedBefore-split descending e f none (some w) (inl h) = cc h
  ValuedBefore-split descending e f none (some w) (inr h) = cc (h.0)
  ValuedBefore-split descending e f (some v) none h = tt
  ValuedBefore-split true e f (some v) (some w) (inl h) = inl h
  ValuedBefore-split true e f (some v) (some w) (inr h) = inr (cc (h.0), h.1)
  ValuedBefore-split false e f (some v) (some w) (inl h) = inl h
  ValuedBefore-split false e f (some v) (some w) (inr h) = inr (cc (h.0), h.1)

  ValuedBefore-less :
      (descending : Bool) (e f : E)
      → (by_value descending).less
          (own.sort_value e, own.tiebreak e)
          (own.sort_value f, own.tiebreak f)
        ≡ true
      → ValuedBefore descending e f (own.sort_value e) (own.sort_value f)
  ValuedBefore-less descending e f h =
      ValuedBefore-split descending e f (own.sort_value e) (own.sort_value f) (
        either (
          lex_less-true (missing_last (directed descending (value_order world kind))) tiebreak_order
            (own.sort_value e, own.tiebreak e) (own.sort_value f, own.tiebreak f) h))
    where
      either :
          {A B : Type 0}
          → A ⊎ (B × (tiebreak_order.less (own.tiebreak e) (own.tiebreak f) ≡ true))
          → A ⊎ (B × TiedBefore e f)
      either (inl a) = inl a
      either (inr (b, t)) =
          inr (b, lex_less-true text_order ℤ_order (own.tiebreak e) (own.tiebreak f) t)

  StandsBefore-less :
      (descending : Bool) (group : String) (e f : E)
      → (by_rank world kind descending).less (rank own group e) (rank own group f) ≡ true
      → StandsBefore descending group e f
  unfolding rank rank_of
  StandsBefore-less descending group e f h =
      either
        (lex_less-true section_order (by_value descending) (rank own group e) (rank own group f) h)
    where
      either :
          {A B : Type 0}
          → A
            ⊎ (B
                × ((by_value descending).less
                      (own.sort_value e, own.tiebreak e)
                      (own.sort_value f, own.tiebreak f)
                    ≡ true))
          → A ⊎ (B × ValuedBefore descending e f (own.sort_value e) (own.sort_value f))
      either (inl a) = inl a
      either (inr (b, v)) = inr (b, ValuedBefore-less descending e f v)

  IsInOrder-ranks :
      (descending : Bool) (group : String) (entries : List E)
      → IsAscending (by_rank world kind descending) (map (rank own group) entries)
      → IsInOrder (StandsBefore descending group) entries
  IsInOrder-ranks descending group [] h = tt
  IsInOrder-ranks descending group (e ∷ rest) h =
      (each rest h.0, IsInOrder-ranks descending group rest h.1)
    where
      each :
          (rest : List E)
          → All
              (λ s. (by_rank world kind descending).less (rank own group e) s ≡ true)
              (map (rank own group) rest)
          → All (λ f. StandsBefore descending group e f) rest
      each [] a = tt
      each (f ∷ rest) a = (StandsBefore-less descending group e f a.0, each rest a.1)

  -- Rows of different ids, in whatever order they come, are put in their list's order, and none is lost
  -- or repeated: of two rows, the one in the earlier section stands first; in a section, the one with
  -- the greater value where the list descends and with the less one where it does not, a row without
  -- a value after those with one in both; and of equal values, the one with the earlier name, then
  -- the lower id.
  pub order-IsInOrder :
      (descending : Bool) (group : String) (entries : List E)
      → IsDistinct (id_of own) entries
      → IsInOrder (StandsBefore descending group) (order own descending group entries)
        × Perm (order own descending group entries) entries
  order-IsInOrder descending group entries h =
      let (ascending, same) = order-IsAscending own descending group entries h in
      (IsInOrder-ranks descending group (order own descending group entries) ascending, same)
