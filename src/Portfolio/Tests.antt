-- ===== src/Portfolio/Tests.antt =====
-- A list of three rows by revenue: Bob's is missing, and Cyd's is the lowest.
use mathlib.Core.List.{Perm}
use revenact_backend.Prelude.{
  arith, ℕ, zero, suc, ◌+◌, String, ◌≡◌, refl, ap, true, false, Option, none, some, [], ◌∷◌, map,
  str_eq, if◌then◌else◌, size, all_codes, sym, ◌∙◌, ◌≢◌, str_eq_iff, length,
}
use revenact_backend.Prelude.Int.{ℤ, pos, pos_part}
use revenact_backend.Prelude.Orders.{ℕ_order, text_less}
use revenact_backend.Portfolio.Cursors.{
  World, IsLawful, IsReadBack, Json, integer, real, text, object, Loaded, loaded, refused, number,
  find_key, cursor_json, encode_cursor, decode_cursor, got,
}
use revenact_backend.Portfolio.RoundTrip.{cut, decode_cursor-encode_cursor}
use revenact_backend.Portfolio.{
  Sums, PortfolioOrder, name_rank, select, paginate, cursor_of, keyset_page, order, rank,
}
use revenact_backend.Portfolio.Pages.{IsAscending, by_rank, rest_after}
use revenact_backend.Portfolio.Resume.{page_of, keyset_page_after}
use revenact_backend.Portfolio.Sorting.{IsDistinct, id_of}
use revenact_backend.Portfolio.Ordered.{IsInOrder, StandsBefore, order-IsInOrder}
use revenact_backend.Portfolio.Walk.{collect}
use revenact_backend.Portfolio.Whole.{asked, paginate-collect}
use revenact_backend.Portfolio.Sections.{counted, counted-select}

-- A date is written as so many strokes.
abbrev strokes : ℕ → String
strokes zero = ""
strokes (suc n) = String.◌∷◌ "x" (strokes n)

size-strokes : (d : ℕ) → size (strokes d) ≡ d
unfolding size
size-strokes zero = refl
size-strokes (suc d) = ap suc (size-strokes d)

abbrev float_of : Json ℕ → Loaded ℕ
float_of (real x) = loaded x
float_of (integer n) = loaded (pos_part n)
float_of _ = refused

abbrev day_of_text : Json ℕ → Option ℕ
day_of_text (text t) = some (size t)
day_of_text _ = none

abbrev id_text : Option (Json ℕ) → String
id_text (some (integer (pos (suc zero)))) = "ad=="
id_text (some (integer (pos (suc (suc zero))))) = "bob="
id_text _ = "cyd3"

abbrev encode_by_id : Json ℕ → String
unfolding find_key
encode_by_id (object members) = id_text (find_key "id" members)
encode_by_id _ = "none"

data Row : Type 0 where
  ada bob cyd : Row

abbrev revenue : Row → Option ℕ
revenue ada = some 70
revenue bob = none
revenue cyd = some 20

abbrev tiebreak_of : Row → String × ℤ
tiebreak_of ada = ("ada", pos 1)
tiebreak_of bob = ("bob", pos 2)
tiebreak_of cyd = ("cyd", pos 3)

abbrev region : Row → String → String × String
region ada group = ("emea", "europe")
region bob group = ("emea", "europe")
region cyd group = ("none", "no region")

abbrev sums : Sums
sums = record { Money = ℕ; zero_money = 0; add = λ a b. a + b; round = λ a. a }

-- The library, before it can decode; then it decodes the documents of the three rows.
abbrev deaf : World
deaf = record {
  Number = ℕ;
  order = ℕ_order;
  of_int = pos_part;
  integral = λ x. some (pos x);
  encode = encode_by_id;
  decode = λ t. none;
  float = float_of;
  iso = strokes;
  day_of = day_of_text;
}

abbrev document : Row → Json ℕ
unfolding cursor_json name_rank
document row =
    let (name, entry_id) = tiebreak_of row in
    let (key, label) = region row "region" in
    cursor_json deaf number (some (name_rank key label)) (revenue row) name entry_id "f1"

abbrev world : World
world = record deaf {
  decode = λ t.
      if str_eq t "ad=="
      then some (document ada)
      else if str_eq t "bob="
      then some (document bob)
      else if str_eq t "cyd3"
      then some (document cyd)
      else none;
}

abbrev portfolio : PortfolioOrder world sums number Row
portfolio = record {
  sort_value = revenue;
  tiebreak = tiebreak_of;
  group_key = region;
  section_rank = λ key label group. name_rank key label;
  money = revenue;
}

lawful : IsLawful world
unfolding size
lawful = record { floats = λ x. refl; days = λ d. ap some (size-strokes d) }

named : (t : String) → str_eq t "" ≡ false → t ≢ ""
named t h e = cc (sym h ∙ (str_eq_iff t "").1 e)

read_back : (row : Row) → IsReadBack world (document row)
unfolding document cursor_json find_key size encode_by_id all_codes
read_back ada = record {
  decoded = refl;
  digits = "ad";
  padding = "==";
  written = refl;
  some_digits = named "ad" refl;
  in_alphabet = refl;
  only_signs = refl;
  short = omega arith;
  whole = refl;
}
read_back bob = record {
  decoded = refl;
  digits = "bob";
  padding = "=";
  written = refl;
  some_digits = named "bob" refl;
  in_alphabet = refl;
  only_signs = refl;
  short = omega arith;
  whole = refl;
}
read_back cyd = record {
  decoded = refl;
  digits = "cyd3";
  padding = "";
  written = refl;
  some_digits = named "cyd3" refl;
  in_alphabet = refl;
  only_signs = refl;
  short = omega arith;
  whole = refl;
}

decode_cursor-encode_cursor_example :
    decode_cursor world (
      encode_cursor world number (some (name_rank "none" "no region")) (some 20) "cyd" (pos 3) "f1")
    ≡ got (cut world number (some (name_rank "none" "no region")) (some 20) "cyd" (pos 3) "f1")
unfolding cursor_json document name_rank
decode_cursor-encode_cursor_example =
    decode_cursor-encode_cursor world lawful number (some (name_rank "none" "no region")) (some 20)
      "cyd" (pos 3) "f1" (read_back cyd)

-- By region and by revenue from the highest: Ada and Bob, and Cyd in the section of none.
ascending :
    IsAscending (by_rank world number true) (map (rank portfolio "region") (ada ∷ bob ∷ cyd ∷ []))
unfolding rank name_rank text_less
ascending = ((refl, (refl, tt)), ((refl, tt), (tt, tt)))

keyset_page_after_example :
    keyset_page world number
      (rank portfolio "region")
      true
      "f1"
      true
      (cursor_of world number (rank portfolio "region") "f1" (rank portfolio "region" ada))
      1
      (ada ∷ bob ∷ cyd ∷ [])
    ≡ page_of world number (rank portfolio "region") "f1" 1 (
        rest_after
          (by_rank world number true)
          (rank portfolio "region")
          (rank portfolio "region" ada)
          (ada ∷ bob ∷ cyd ∷ []))
unfolding rank cursor_json document
keyset_page_after_example =
    keyset_page_after world number (rank portfolio "region") "f1" lawful true 1
      (ada ∷ bob ∷ cyd ∷ []) (rank portfolio "region" ada) (read_back ada) ascending

ids_differ : IsDistinct (id_of portfolio) (cyd ∷ bob ∷ ada ∷ [])
ids_differ = (((λ p. cc p), ((λ p. cc p), tt)), (((λ p. cc p), tt), (tt, tt)))

order-IsInOrder_example :
    IsInOrder
      (StandsBefore portfolio true "region")
      (order portfolio true "region" (cyd ∷ bob ∷ ada ∷ []))
    × Perm (order portfolio true "region" (cyd ∷ bob ∷ ada ∷ [])) (cyd ∷ bob ∷ ada ∷ [])
order-IsInOrder_example = order-IsInOrder portfolio true "region" (cyd ∷ bob ∷ ada ∷ []) ids_differ

paginate-collect_example :
    let rows =
      (select portfolio (asked portfolio true "region" none 1 "") (cyd ∷ bob ∷ ada ∷ [])).0 in
    collect
      (λ cursor. paginate portfolio "f1" (asked portfolio true "region" none 1 cursor) rows)
      (suc (length rows))
      ""
    ≡ some rows
unfolding rank cursor_json document
paginate-collect_example =
    paginate-collect portfolio lawful "f1" true "region" none 1 (cyd ∷ bob ∷ ada ∷ []) read_back
      (omega arith) ids_differ

counted-select_example :
    counted "emea"
      (select portfolio (asked portfolio true "region" none 1 "") (cyd ∷ bob ∷ ada ∷ [])).1
    ≡ length
        (select portfolio
          (asked portfolio true "region" (some "emea") 1 "")
          (cyd ∷ bob ∷ ada ∷ [])).0
counted-select_example =
    counted-select portfolio "region" "emea" true 1 "" (cyd ∷ bob ∷ ada ∷ []) refl
