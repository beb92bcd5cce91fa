-- ===== src/Portfolio/Resume.antt =====
-- services/portfolio_core/shape.py `keyset_page`: the page that a cursor resumes at.
use revenact_backend.Prelude.{
  ℕ, zero, suc, ◌+◌, ◌-◌, ◌≤◌, String, ◌≡◌, refl, ap, ◌∙◌, Bool, true, not, Option, none, some,
  List, [], ◌∷◌, map, arith, ltb, str_eq, str_eq_iff, if◌then◌else◌, is_some, length, take, drop,
  length-take, length-drop, min,
}
use revenact_backend.Portfolio.Cursors.{
  World, IsLawful, IsReadBack, cursor_json, Json, Kind, number, words, day, Value, Cursor, Section,
  got, decode_cursor,
}
use revenact_backend.Portfolio.RoundTrip.{cut, decode_cursor-encode_cursor}
use revenact_backend.Portfolio.{
  Rank, sound, target_of, start_or_first, last_entry, start_of, cursor_of, page_from, keyset_page,
  Page, served, cast, is_absent,
}
use revenact_backend.Portfolio.Pages.{IsAscending, rest_after, by_rank, drop-find_start}

-- A cursor that was cut at a rank names that rank.
target_of-carried :
    (world : World) (kind : Kind) (fingerprint : String) (r : Rank (Value world kind))
    → target_of world kind (cut world kind r.0 r.1.0 r.1.1.0 r.1.1.1 fingerprint) ≡ sound r
unfolding target_of cast is_absent
target_of-carried world kind fingerprint (section, (none, (name, entry_id))) = refl
target_of-carried world number fingerprint (section, (some v, (name, entry_id))) = refl
target_of-carried world words fingerprint (section, (some v, (name, entry_id))) = refl
target_of-carried world day fingerprint (section, (some v, (name, entry_id))) = refl

str_eq_same : (t : String) → str_eq t t ≡ true
str_eq_same t = ground (arith, str_eq_iff t t)

module _ (world : World) (kind : Kind) {E : Type 0} (rank : E → Rank (Value world kind))
    (fingerprint : String) where
  -- The cursor after a page, if more is left.
  abbrev pub next_of : Bool → List E → Option String
  next_of more page = elim (last_entry page) [
    | none ↦ none
    | some e ↦ if more then some (cursor_of world kind rank fingerprint (rank e)) else none
  ]

  -- The page of what is left to serve, and the cursor of the next one if more than a page is left.
  abbrev pub page_of : ℕ → List E → Page E
  page_of limit rest =
      served (take limit rest) (next_of (ltb limit (length rest)) (take limit rest))

  more_left :
      (limit start total left : ℕ)
      → left ≡ total - start
      → 1 ≤ left
      → ltb (start + min limit left) total ≡ ltb limit left
  more_left limit start total left h p = grind arith

  page_from-page_of :
      (limit start : ℕ) (entries : List E)
      → page_from world kind rank fingerprint limit start entries
        ≡ page_of limit (drop start entries)
  unfolding page_from last_entry
  page_from-page_of limit start entries =
      ap (λ next. served (take limit (drop start entries)) next)
        (same limit (drop start entries) (length-drop start entries))
    where
      same :
          (limit : ℕ) (left : List E)
          → length left ≡ length entries - start
          → next_of (ltb (start + length (take limit left)) (length entries)) (take limit left)
            ≡ next_of (ltb limit (length left)) (take limit left)
      same zero left h = refl
      same (suc limit) [] h = refl
      same (suc limit) (e ∷ left) h =
          ap (λ more. next_of more (take (suc limit) (e ∷ left)))
            (rw (length-take (suc limit) (e ∷ left))
              (more_left (suc limit) start (length entries) (length (e ∷ left)) h (grind arith)))

  -- A request without a cursor gets the first page.
  pub keyset_page_first :
      (descending grouped : Bool) (limit : ℕ) (entries : List E)
      → keyset_page world kind rank descending fingerprint grouped "" limit entries
        ≡ page_of limit entries
  unfolding keyset_page decode_cursor
  keyset_page_first descending grouped limit entries = page_from-page_of limit 0 entries

  start_of-cut :
      (descending : Bool) (entries : List E) (r : Rank (Value world kind))
      → IsAscending (by_rank world kind descending) (map rank entries)
      → drop
          (start_of world kind rank descending fingerprint
            (is_some r.0)
            entries
            (cut world kind r.0 r.1.0 r.1.1.0 r.1.1.1 fingerprint))
          entries
        ≡ rest_after (by_rank world kind descending) rank r entries
  unfolding start_of start_or_first
  start_of-cut descending entries r h =
      let (n, found, same) = drop-find_start world kind descending rank r entries h in
      rw
        (
          str_eq_same fingerprint,
          own_grouping r.0,
          target_of-carried world kind fingerprint r,
          found,
        )
        same
    where
      own_grouping :
          (section : Option Section)
          → (if is_some section then is_some section else not (is_some section)) ≡ true
      own_grouping none = refl
      own_grouping (some s) = refl

  keyset_page_at :
      (descending grouped : Bool) (cursor : String) (limit : ℕ) (entries : List E)
      (c : Cursor (world.Number))
      → decode_cursor world cursor ≡ got c
      → keyset_page world kind rank descending fingerprint grouped cursor limit entries
        ≡ page_of limit
            (drop (start_of world kind rank descending fingerprint grouped entries c) entries)
  unfolding keyset_page start_of last_entry
  keyset_page_at descending grouped cursor limit entries c h =
      rw (h, keyset_page)
        (page_from-page_of limit (start_of world kind rank descending fingerprint grouped entries c)
          entries)

  -- The document of a rank's cursor.
  abbrev pub document_of : Rank (Value world kind) → Json world.Number
  document_of (section, (value, (name, entry_id))) =
      cursor_json world kind section value name entry_id fingerprint

  -- Where what was encoded decodes, and base64 ends a text of at least one digit with at most two `=`
  -- that make its length a multiple of four, for the document of a rank: a request with the cursor
  -- of the rank, whatever rows were added or removed since it was cut, gets the page of the rows that
  -- rank after it, if the rows of the list rank in ascending order.
  pub keyset_page_after :
      IsLawful world
      → (descending : Bool) (limit : ℕ) (entries : List E) (r : Rank (Value world kind))
      → IsReadBack world (document_of r)
      → IsAscending (by_rank world kind descending) (map rank entries)
      → keyset_page world kind rank descending fingerprint
          (is_some r.0)
          (cursor_of world kind rank fingerprint r)
          limit
          entries
        ≡ page_of limit (rest_after (by_rank world kind descending) rank r entries)
  unfolding cursor_of
  keyset_page_after lawful descending limit entries (section, (value, (name, entry_id))) read_back
        h =
      keyset_page_at descending (is_some section) _ limit entries _ (
        decode_cursor-encode_cursor world lawful kind section value name entry_id fingerprint
          read_back)
      ∙ ap (page_of limit) (start_of-cut descending entries (section, (value, (name, entry_id))) h)
