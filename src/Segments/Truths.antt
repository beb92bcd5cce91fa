-- ===== src/Segments/Truths.antt =====
-- Whether a row matches what the parts of a query combine to.
use revenact_backend.Prelude.{
  ◌≡◌, refl, sym, ◌∙◌, ap, Bool, false, ◌&&◌, ◌||◌, Option, none, some, List, [], ◌∷◌, map, All,
}
use revenact_backend.Segments.Blocks.{Match, all, any_of}
use revenact_backend.Segments.Queries.{Database, Q, join, reduce, combine, meets, matches}
use revenact_backend.Segments.Parts.{map_each, ◌>>=◌}

abbrev pub join_bools : Match → Bool → Bool → Bool
join_bools all = ◌&&◌
join_bools any_of = ◌||◌

abbrev pub reduce_bools : Match → Bool → List Bool → Bool
reduce_bools m b [] = b
reduce_bools m b (c ∷ cs) = reduce_bools m (join_bools m b c) cs

abbrev pub combine_bools : Match → List Bool → Bool
combine_bools m [] = false
combine_bools m (b ∷ bs) = reduce_bools m b bs

module _ {Number : Type 0} (db : Database Number) (row : db.Row) where
  -- The truth of a query, where there is one.
  abbrev pub truth : Option (Q Number) → Option Bool
  truth none = none
  truth (some q) = some (matches db q row)

  abbrev pub truths : Option (List (Q Number)) → Option (List Bool)
  truths none = none
  truths (some qs) = some (map (λ q. matches db q row) qs)

  abbrev pub combined_truth : Match → Option (List Bool) → Option Bool
  combined_truth m none = none
  combined_truth m (some bs) = some (combine_bools m bs)

  reduce-matches :
      (m : Match) (q : Q Number) (qs : List (Q Number))
      → matches db (reduce m q qs) row
        ≡ reduce_bools m (matches db q row) (map (λ p. matches db p row) qs)
  unfolding reduce matches
  reduce-matches m q [] = refl
  reduce-matches all q (p ∷ ps) = reduce-matches all (join all q p) ps
  reduce-matches any_of q (p ∷ ps) = reduce-matches any_of (join any_of q p) ps

  pub combine-matches :
      (m : Match) (qs : List (Q Number))
      → matches db (combine m qs) row ≡ combine_bools m (map (λ p. matches db p row) qs)
  unfolding combine matches meets
  combine-matches m [] = refl
  combine-matches m (q ∷ qs) = reduce-matches m q qs

  truth_combined :
      (m : Match) (qs : Option (List (Q Number)))
      → truth (qs >>= λ l. some (combine m l)) ≡ combined_truth m (truths qs)
  truth_combined m none = refl
  truth_combined m (some qs) = ap some (combine-matches m qs)

  -- Parts of the same truths combine to a query of the same truth.
  pub truth_of_parts :
      (m : Match) (ps qs : Option (List (Q Number)))
      → truths ps ≡ truths qs
      → truth (ps >>= λ l. some (combine m l)) ≡ truth (qs >>= λ l. some (combine m l))
  truth_of_parts m ps qs h =
      truth_combined m ps ∙ ap (combined_truth m) h ∙ sym (truth_combined m qs)

  pub truths_cons :
      (p q : Option (Q Number)) (ps qs : Option (List (Q Number)))
      → truth p ≡ truth q
      → truths ps ≡ truths qs
      → truths (p >>= λ x. ps >>= λ xs. some (x ∷ xs))
        ≡ truths (q >>= λ x. qs >>= λ xs. some (x ∷ xs))
  truths_cons none none ps qs g h = refl
  truths_cons none (some q) ps qs g h = absurd (cc g)
  truths_cons (some p) none ps qs g h = absurd (cc g)
  truths_cons (some p) (some q) none none g h = refl
  truths_cons (some p) (some q) none (some qs) g h = absurd (cc h)
  truths_cons (some p) (some q) (some ps) none g h = absurd (cc h)
  truths_cons (some p) (some q) (some ps) (some qs) g h = cc (g, h)

  pub truths_each :
      {A : Type 0} (f g : A → Option (Q Number)) (change : A → A) (xs : List A)
      → All (λ x. truth (g (change x)) ≡ truth (f x)) xs
      → truths (map_each g (map change xs)) ≡ truths (map_each f xs)
  unfolding map_each
  truths_each f g change [] h = refl
  truths_each f g change (x ∷ xs) h =
      truths_cons (g (change x)) (f x) (map_each g (map change xs)) (map_each f xs) h.0
        (truths_each f g change xs h.1)
