-- ===== src/Portfolio/Walk.antt =====
-- services/portfolio_core/shape.py `keyset_page`: the pages of a list one after another.
use mathlib.Core.List.{append_assoc}
use revenact_backend.Prelude.{
  ℕ, zero, suc, ◌≤◌, String, ◌≡◌, refl, sym, ap, subst, ◌∙◌, Bool, true, false, Option, none, some,
  List, [], ◌∷◌, ◌++◌, map, arith, inl, inr, ltb, is_some, length, take, drop, Bool-cases,
  Option-cases, length-drop, take-append-drop,
}
use revenact_backend.Portfolio.Cursors.{World, IsLawful, IsReadBack, Kind, Value}
use revenact_backend.Portfolio.{Rank, last_entry, cursor_of, keyset_page, Page, served, raises}
use revenact_backend.Portfolio.Pages.{IsAscending, rest_after, by_rank, rest_after_split}
use revenact_backend.Portfolio.Resume.{page_of, next_of, document_of, keyset_page_after}

-- The rows of the pages from a cursor on, each page's own next cursor followed; none where a page raises
-- or more pages come than were counted for.
continue : {E : Type 0} → Page E → (String → Option (List E)) → Option (List E)
continue (served page none) more = some page
continue (served page (some next)) more = elim (more next) [
  | none ↦ none
  | some rest ↦ some (page ++ rest)
]
continue raises more = none

pub collect : {E : Type 0} → (String → Page E) → ℕ → String → Option (List E)
unfolding continue
collect page_at zero cursor = none
collect page_at (suc pages) cursor = continue (page_at cursor) (collect page_at pages)

module _ {E : Type 0} where
  last_entry_some : (e : E) (rest : List E) → is_some (last_entry (e ∷ rest)) ≡ true
  unfolding last_entry
  last_entry_some e [] = refl
  last_entry_some e (f ∷ rest) = last_entry_some f rest

  -- The last row of a page stands between the rows before it and those that are left.
  last_entry-split :
      (limit : ℕ) (rest : List E) (e : E)
      → last_entry (take limit rest) ≡ some e
      → (before : List E) × (take limit rest ≡ before ++ e ∷ [])
  unfolding last_entry
  last_entry-split limit rest e = go (take limit rest)
    where
      go :
          (page : List E) → last_entry page ≡ some e → (before : List E) × (page ≡ before ++ e ∷ [])
      go [] h = cc h
      go (f ∷ []) h = ([], cc h)
      go (f ∷ g ∷ page) h =
          let (before, same) = go (g ∷ page) h in (f ∷ before, ap (λ l. f ∷ l) same)

  take_all : (limit : ℕ) (rest : List E) → length rest ≤ limit → take limit rest ≡ rest
  take_all zero [] h = refl
  take_all zero (e ∷ rest) h = grind (arith, h)
  take_all (suc limit) [] h = refl
  take_all (suc limit) (e ∷ rest) h = ap (λ l. e ∷ l) (take_all limit rest (omega (arith, h)))

  has_last :
      (limit : ℕ) (rest : List E)
      → ltb limit (length rest) ≡ true
      → 1 ≤ limit
      → is_some (last_entry (take limit rest)) ≡ true
  unfolding last_entry
  has_last zero rest h p = grind (arith, p)
  has_last (suc limit) [] h p = grind (arith, h)
  has_last (suc limit) (e ∷ rest) h p = last_entry_some e (take limit rest)

module _ (world : World) (lawful : IsLawful world) (kind : Kind) {E : Type 0}
    (rank : E → Rank (Value world kind)) (fingerprint : String) (descending grouped : Bool)
    (limit : ℕ) (entries : List E) where
  abbrev page_at : String → Page E
  page_at cursor = keyset_page world kind rank descending fingerprint grouped cursor limit entries

  next_of-false : (page : List E) → next_of world kind rank fingerprint false page ≡ none
  next_of-false page = go (last_entry page)
    where
      go :
          (last : Option E)
          → elim last as (λ _. Option String) [ none ↦ none | some e ↦ none ] ≡ none
      go none = refl
      go (some e) = refl

  next_of-true :
      (page : List E) (e : E)
      → last_entry page ≡ some e
      → next_of world kind rank fingerprint true page
        ≡ some (cursor_of world kind rank fingerprint (rank e))
  next_of-true page e h =
      ap
        (λ last. elim last as (λ _. Option String) [
          | none ↦ none
          | some e ↦ some (cursor_of world kind rank fingerprint (rank e))
        ])
        h

  -- One page is collected, and what its cursor leads to.
  collect_last :
      (pages : ℕ) (cursor : String) (rest : List E)
      → page_at cursor ≡ page_of world kind rank fingerprint limit rest
      → ltb limit (length rest) ≡ false
      → collect page_at (suc pages) cursor ≡ some rest
  unfolding collect continue
  collect_last pages cursor rest h p =
      rw (h, p, next_of-false (take limit rest), take_all limit rest (grind (arith, p))) refl

  collect_next :
      (pages : ℕ) (cursor : String) (rest : List E) (e : E)
      → page_at cursor ≡ page_of world kind rank fingerprint limit rest
      → ltb limit (length rest) ≡ true
      → last_entry (take limit rest) ≡ some e
      → collect page_at pages (cursor_of world kind rank fingerprint (rank e))
        ≡ some (drop limit rest)
      → collect page_at (suc pages) cursor ≡ some rest
  unfolding collect continue
  collect_next pages cursor rest e h p last later =
      rw (h, p, next_of-true (take limit rest) e last, later)
        (ap some (take-append-drop limit rest))

  -- What is left after the last row of a page.
  rest_of_list :
      (before rest : List E) (e : E)
      → before ++ rest ≡ entries
      → last_entry (take limit rest) ≡ some e
      → (earlier : List E) × (earlier ++ e ∷ drop limit rest ≡ entries)
  rest_of_list before rest e same last =
      let (pre, cut) = last_entry-split limit rest e last in
      (
        before ++ pre,
        append_assoc before pre (e ∷ drop limit rest)
            ∙ ap (λ l. before ++ l)
                (sym (append_assoc pre (e ∷ []) (drop limit rest))
                  ∙ ap (λ l. l ++ drop limit rest) (sym cut)
                  ∙ take-append-drop limit rest)
            ∙ same,
      )

  module _ (ascending : IsAscending (by_rank world kind descending) (map rank entries))
      (in_groups : (e : E) → is_some (rank e).0 ≡ grouped)
      (read_back : (e : E) → IsReadBack world (document_of world kind rank fingerprint (rank e)))
      (nonzero : 1 ≤ limit) where
    -- The cursor of a row leads to the rows after it.
    page_at_row :
        (earlier left : List E) (e : E)
        → earlier ++ e ∷ left ≡ entries
        → page_at (cursor_of world kind rank fingerprint (rank e))
          ≡ page_of world kind rank fingerprint limit left
    unfolding keyset_page
    page_at_row earlier left e same =
        let o = by_rank world kind descending in
        let cursor = cursor_of world kind rank fingerprint (rank e) in
        ap (λ g. keyset_page world kind rank descending fingerprint g cursor limit entries)
          (sym (in_groups e))
        ∙ keyset_page_after world kind rank fingerprint lawful descending limit entries (rank e)
            (read_back e) ascending
        ∙ ap (page_of world kind rank fingerprint limit) (
            ap (rest_after o rank (rank e)) (sym same)
            ∙ rest_after_split o rank earlier e left
                (subst (λ l. IsAscending o (map rank l)) (sym same) ascending))

    pub collect_rest :
        (pages : ℕ) (cursor : String) (before rest : List E)
        → before ++ rest ≡ entries
        → page_at cursor ≡ page_of world kind rank fingerprint limit rest
        → length rest ≤ pages
        → collect page_at (suc pages) cursor ≡ some rest
    collect_rest zero cursor before rest same h enough =
        collect_last zero cursor rest h (grind (arith, enough, nonzero))
    collect_rest (suc pages) cursor before rest same h enough =
        elim (Bool-cases (ltb limit (length rest))) [
          | inr p ↦ collect_last (suc pages) cursor rest h p
          | inl p ↦ elim (Option-cases (last_entry (take limit rest))) [
            | inl q ↦ cc (sym (has_last limit rest p nonzero) ∙ ap is_some q)
            | inr (e, q) ↦
                let (earlier, whole) = rest_of_list before rest e same q in
                collect_next (suc pages) cursor rest e h p q (
                  collect_rest pages _ (earlier ++ e ∷ []) (drop limit rest)
                    (append_assoc earlier (e ∷ []) (drop limit rest) ∙ whole)
                    (page_at_row earlier (drop limit rest) e whole)
                    (grind (arith, enough, nonzero, length-drop limit rest)))
          ]
        ]
