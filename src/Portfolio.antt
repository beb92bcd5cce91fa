-- ===== src/Portfolio.antt =====
-- services/portfolio_core/shape.py: the order, the sections and the pages of every portfolio list. What
-- a portfolio says of its own is the record `PortfolioOrder`.
pub mod Cursors
pub mod Padding
pub mod RoundTrip
pub mod Pages
pub mod Resume
pub mod Walk
pub mod Sorting
pub mod Ordered
pub mod Whole
pub mod Sections
mod Tests
use revenact_backend.Prelude.{
  ℕ, zero, suc, ◌+◌, String, ◌≡◌, Bool, true, false, not, ◌&&◌, ◌||◌, Option, none, some, List, [],
  ◌∷◌, map, ltb, ◌==◌, str_eq, if◌then◌else◌, is_some, length, take, drop, keep_if,
}
use revenact_backend.Prelude.Int.{ℤ, pos}
use revenact_backend.Prelude.Orders.{
  Order, ℕ_order, ℤ_order, text_order, dual, lex, missing_last, missing_first,
}
use revenact_backend.Portfolio.Cursors.{
  World, Kind, number, words, day, Value, Raw, missing, a_number, a_text, a_day, Section, Cursor,
  Read, got, nothing, escapes, encode_cursor, decode_cursor,
}

-- `EMPTY_KEYS`
unfoldable pub is_empty_key : String → Bool
is_empty_key key = str_eq key "unassigned" || str_eq key "none"

-- `name_rank`, where `folded` is the label after `casefold`.
unfoldable pub name_rank : String → String → Section
unfolding is_empty_key
name_rank key folded = (if is_empty_key key then pos 1 else pos 0, (folded, key))

-- What `rank_of` builds: the section's position, the value, or none where it is missing, and the
-- tiebreak of name and id. The bucket says whether the value is missing.
abbrev pub Rank : Type 0 → Type 0
Rank V = Option Section × (Option V × (String × ℤ))

unfoldable pub rank_of : {V : Type 0} → Option Section → Option V → String × ℤ → Rank V
rank_of section value tiebreak = (section, (value, tiebreak))

abbrev pub section_order : Order (Option Section)
section_order = missing_first (lex ℤ_order (lex text_order text_order))

abbrev pub tiebreak_order : Order (String × ℤ)
tiebreak_order = lex text_order ℤ_order

-- `wrap_desc`: the order of the values, or the other way round.
abbrev pub directed : {V : Type 0} → Bool → Order V → Order V
directed true o = dual o
directed false o = o

-- The order of ranks: ungrouped or by section, missing values last in either direction, ties by name
-- and id, always ascending.
abbrev pub rank_order : {V : Type 0} → Bool → Order V → Order (Rank V)
rank_order descending o =
    lex section_order (lex (missing_last (directed descending o)) tiebreak_order)

-- Python's `sorted` by a rank: it keeps the order of entries whose ranks are equal.
module _ {E R : Type 0} (o : Order R) (rank : E → R) where
  unfoldable pub insert_entry : E → List E → List E
  insert_entry e [] = e ∷ []
  insert_entry e (f ∷ rest) =
      let later = insert_entry e rest in
      if o.less (rank f) (rank e) then f ∷ later else e ∷ f ∷ rest

  unfoldable pub sort_entries : List E → List E
  unfolding insert_entry
  sort_entries [] = []
  sort_entries (e ∷ rest) = insert_entry e (sort_entries rest)

-- One section of a list: its key and label, how many rows it has and their money.
pub record Bucket (Money : Type 0) : Type 0 where
  pub key : String
  pub label : String
  pub count : ℕ
  pub total : Money

-- Sums of money are floats: `add`, `round` to two places.
pub record Sums : Type 1 where
  pub Money : Type 0
  pub zero_money : Money
  pub add : Money → Money → Money
  pub round : Money → Money

-- One portfolio's own parts of its order, for one sort key of a kind.
pub record PortfolioOrder (world : World) (sums : Sums) (kind : Kind) (E : Type 0) : Type 0 where
  pub sort_value : E → Option (Value world kind)
  pub tiebreak : E → String × ℤ
  pub group_key : E → String → String × String
  pub section_rank : String → String → String → Section
  pub money : E → Option sums.Money

-- The parameters of one request; `group` is empty for none.
pub record Params : Type 0 where
  pub descending : Bool
  pub group : String
  pub group_value : Option String
  pub cursor : String
  pub limit : ℕ

-- A page, with the cursor of the next one, or an exception that goes on up.
pub data Page (E : Type 0) : Type 0 where
  served : List E → Option String → Page E
  raises : Page E

abbrev pub value_order : (world : World) (kind : Kind) → Order (Value world kind)
value_order world number = world.order
value_order world words = text_order
value_order world day = ℕ_order

-- A cursor's value as a sort value of the list's kind; none where it is of another type.
unfoldable pub cast : (world : World) (kind : Kind) → Raw world.Number → Option (Value world kind)
cast world number (a_number x) = some x
cast world words (a_text t) = some t
cast world day (a_day d) = some d
cast world kind raw = none

unfoldable pub is_absent : {Number : Type 0} → Raw Number → Bool
is_absent missing = true
is_absent _ = false

-- A cursor's rank: one that compares with every entry, or one that raises a TypeError where only the
-- values decide.
pub data Target (V : Type 0) : Type 0 where
  sound : Rank V → Target V
  unsound : Option Section → Bool → Target V

module _ (world : World) (kind : Kind) where
  abbrev V : Type 0
  V = Value world kind

  unfoldable pub target_of : Cursor world.Number → Target (Value world kind)
  unfolding cast is_absent
  target_of c =
      if c.is_missing
      then (if is_absent c.value
          then sound (c.section, (none, (c.name, c.entry_id)))
          else unsound c.section true)
      else elim (cast world kind c.value) [
        | some v ↦ sound (c.section, (some v, (c.name, c.entry_id)))
        | none ↦ unsound c.section false
      ]

  -- `rank(entry) > cursor_rank`; none for a TypeError.
  unfoldable pub follows : Bool → Target (Value world kind) → Rank (Value world kind) → Option Bool
  follows descending (sound r) e = some ((rank_order descending (value_order world kind)).less r e)
  follows descending (unsound section is_missing) e =
      if section_order.less section e.0
      then some true
      else if section_order.less e.0 section
      then some false
      else elim e.1.0 [
        | none ↦ if is_missing then none else some true
        | some _ ↦ if is_missing then some false else none
      ]

  -- The index of the first entry after the cursor, or the length; none for a TypeError.
  unfoldable pub find_start :
      Bool → Target (Value world kind) → List (Rank (Value world kind)) → Option ℕ
  find_start descending target [] = some 0
  find_start descending target (r ∷ rest) =
      let later = find_start descending target rest in
      elim (follows descending target r) [
        | none ↦ none
        | some true ↦ some 0
        | some false ↦ elim later [ none ↦ none | some n ↦ some (suc n) ]
      ]

-- `a if a is not None else b`, and the last of a list.
unfoldable pub start_or_first : Option ℕ → ℕ
start_or_first none = 0
start_or_first (some n) = n

unfoldable pub last_entry : {E : Type 0} → List E → Option E
last_entry [] = none
last_entry (e ∷ []) = some e
last_entry (e ∷ f ∷ rest) = last_entry (f ∷ rest)

module _ (world : World) (kind : Kind) {E : Type 0} (rank : E → Rank (Value world kind)) where
  -- Where the page starts: after the cursor, if it is one of this list.
  unfoldable pub start_of : Bool → String → Bool → List E → Cursor world.Number → ℕ
  unfolding target_of find_start start_or_first
  start_of descending fingerprint grouped entries c =
      if str_eq c.fingerprint fingerprint
        && (if grouped then is_some c.section else not (is_some c.section))
      then start_or_first
          (find_start world kind descending (target_of world kind c) (map rank entries))
      else 0

  -- The cursor of a rank, under the list's fingerprint.
  unfoldable pub cursor_of : String → Rank (Value world kind) → String
  cursor_of fingerprint (section, (value, (name, entry_id))) =
      encode_cursor world kind section value name entry_id fingerprint

  -- The page from `start`, and its next cursor.
  unfoldable pub page_from : String → ℕ → ℕ → List E → Page E
  unfolding last_entry cursor_of
  page_from fingerprint limit start entries =
      let page = take limit (drop start entries) in
      served page (elim (last_entry page) [
        | none ↦ none
        | some e ↦
            if ltb (start + length page) (length entries)
            then some (cursor_of fingerprint (rank e))
            else none
      ])

  -- `keyset_page`
  unfoldable pub keyset_page : Bool → String → Bool → String → ℕ → List E → Page E
  unfolding start_of page_from
  keyset_page descending fingerprint grouped cursor limit entries =
      elim (decode_cursor world cursor) [
        | got c ↦
            page_from fingerprint limit (start_of descending fingerprint grouped entries c) entries
        | nothing ↦ page_from fingerprint limit 0 entries
        | escapes ↦ raises
      ]

module _ {world : World} {sums : Sums} {kind : Kind} {E : Type 0}
    (own : PortfolioOrder world sums kind E) where
  open own use {sort_value, tiebreak, group_key, section_rank, money}

  unfoldable pub rank : String → E → Rank (Value world kind)
  unfolding rank_of
  rank group e =
      let key = group_key e group in
      rank_of (if str_eq group "" then none else some (section_rank key.0 key.1 group))
        (sort_value e) (tiebreak e)

  -- `order`
  unfoldable pub order : Bool → String → List E → List E
  unfolding sort_entries rank
  order descending group entries =
      sort_entries (rank_order descending (value_order world kind)) (rank group) entries

  -- `bucket["count"] += 1`, and its money if it can be summed.
  unfoldable pub count_in : E → Bucket sums.Money → Bucket sums.Money
  count_in e bucket = record bucket {
    count = bucket.count + 1;
    total = elim (money e) [ none ↦ bucket.total | some m ↦ sums.add bucket.total m ];
  }

  -- The section of an entry, counted; it is opened where it is first seen.
  unfoldable pub tally : String → String → E → List (Bucket sums.Money) → List (Bucket sums.Money)
  unfolding count_in
  tally key label e [] =
      count_in e (record { key = key; label = label; count = 0; total = sums.zero_money }) ∷ []
  tally key label e (b ∷ rest) =
      let later = tally key label e rest in
      if str_eq b.key key then count_in e b ∷ rest else b ∷ later

  unfoldable pub tally_all : String → List (Bucket sums.Money) → List E → List (Bucket sums.Money)
  unfolding tally
  tally_all group buckets [] = buckets
  tally_all group buckets (e ∷ rest) =
      tally_all group (tally (group_key e group).0 (group_key e group).1 e buckets) rest

  unfoldable pub round_total : Bucket sums.Money → Bucket sums.Money
  round_total bucket = record bucket { total = sums.round bucket.total }

  -- `groups`
  unfoldable pub groups : String → List E → List (Bucket sums.Money)
  unfolding tally_all sort_entries round_total
  groups group entries = map round_total (
      sort_entries (lex ℤ_order (lex text_order text_order)) (λ b. section_rank b.key b.label group)
        (tally_all group [] entries))

  -- `select`
  unfoldable pub select : Params → List E → List E × List (Bucket sums.Money)
  unfolding order groups
  select params entries =
      let ordered = order params.descending params.group entries in
      if str_eq params.group "" then (ordered, []) else (
        elim (params.group_value) [
          | none ↦ ordered
          | some value ↦ keep_if (λ e. str_eq (group_key e params.group).0 value) ordered
        ],
        groups params.group ordered,
      )

  -- `paginate`
  unfoldable pub paginate : String → Params → List E → Page E
  unfolding keyset_page
  paginate fingerprint params entries =
      keyset_page world kind (rank params.group) params.descending fingerprint
        (not (str_eq params.group "")) params.cursor params.limit entries
