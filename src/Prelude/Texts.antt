-- ===== src/Prelude/Texts.antt =====
-- Python's text operations that the code uses, over the native strings.
use Prim.Native.Nat.{ℕ, zero, suc}
use Prim.Native.Char.{Char, code}
use Prim.Native.String.{String}
use mathlib.Core.Bool.{Bool, true, false, ◌&&◌, ◌||◌}
use mathlib.Core.Option.{Option, none, some}
use text.Mathlib.Text.{◌==◌ as str_eq}
use mathlib.Core.List.{List, [], ◌∷◌}
use revenact_backend.Prelude.Tests.{leb, ◌==◌, if◌then◌else◌}

-- `s[:n]`
unfoldable pub prefix : ℕ → String → String
prefix zero s = String.[]
prefix (suc n) String.[] = String.[]
prefix (suc n) (String.◌∷◌ c s) = String.◌∷◌ c (prefix n s)

-- The code points that `str.isspace` accepts, which `str.strip` removes.
unfoldable pub is_space : ℕ → Bool
is_space c =
    (leb 9 c && leb c 13)
    || (leb 28 c && leb c 32)
    || c == 133
    || c == 160
    || c == 5760
    || (leb 8192 c && leb c 8202)
    || c == 8232
    || c == 8233
    || c == 8239
    || c == 8287
    || c == 12288

-- `not s.strip()`
unfoldable pub is_blank : String → Bool
unfolding is_space
is_blank String.[] = true
is_blank (String.◌∷◌ c s) = is_space (code c) && is_blank s

-- `s[n:]`
unfoldable pub suffix : ℕ → String → String
suffix zero s = s
suffix (suc n) String.[] = String.[]
suffix (suc n) (String.◌∷◌ c s) = suffix n s

-- `len(s)`, in characters.
unfoldable pub size : String → ℕ
size String.[] = 0
size (String.◌∷◌ c s) = suc (size s)

-- `s.lstrip()`
unfoldable pub strip_start : String → String
unfolding is_space
strip_start String.[] = String.[]
strip_start (String.◌∷◌ c s) =
    let rest = strip_start s in if is_space (code c) then rest else String.◌∷◌ c s

-- `s.rstrip()`
unfoldable pub strip_end : String → String
unfolding is_blank is_space
strip_end String.[] = String.[]
strip_end (String.◌∷◌ c s) =
    if is_space (code c) && is_blank s then String.[] else String.◌∷◌ c (strip_end s)

-- `s.strip()`
unfoldable pub strip : String → String
unfolding strip_start strip_end
strip s = strip_end (strip_start s)

-- `s.replace(c, "")` for a text of one character.
unfoldable pub remove : ℕ → String → String
remove c String.[] = String.[]
remove c (String.◌∷◌ d s) = let rest = remove c s in if code d == c then rest else String.◌∷◌ d rest

-- Every character satisfies `p`.
unfoldable pub all_codes : (ℕ → Bool) → String → Bool
all_codes p String.[] = true
all_codes p (String.◌∷◌ c s) = p (code c) && all_codes p s

-- The characters' numbers.
unfoldable pub codes : String → List ℕ
codes String.[] = []
codes (String.◌∷◌ c s) = code c ∷ codes s

-- What follows the last `c`, if there is one.
unfoldable pub after_last : ℕ → String → Option String
after_last c String.[] = none
after_last c (String.◌∷◌ d s) = elim (after_last c s) [
  | some t ↦ some t
  | none ↦ if code d == c then some s else none
]

-- `s.rpartition(c)[2]`: the whole text where `c` does not occur.
unfoldable pub last_part : ℕ → String → String
unfolding after_last
last_part c s = elim (after_last c s) [ some t ↦ t | none ↦ s ]

-- `s.rstrip(c)`
unfoldable pub strip_end_of : ℕ → String → String
unfolding all_codes
strip_end_of c String.[] = String.[]
strip_end_of c (String.◌∷◌ d s) =
    if code d == c && all_codes (λ e. e == c) s then String.[] else String.◌∷◌ d (strip_end_of c s)

-- `c in s`
unfoldable pub has_code : ℕ → String → Bool
has_code c String.[] = false
has_code c (String.◌∷◌ d s) = code d == c || has_code c s

extend_head : Char → List String → List String
extend_head d [] = String.◌∷◌ d String.[] ∷ []
extend_head d (s ∷ rest) = String.◌∷◌ d s ∷ rest

-- `s.split(c)`
unfoldable pub split : ℕ → String → List String
unfolding extend_head
split c String.[] = String.[] ∷ []
split c (String.◌∷◌ d s) =
    let rest = split c s in if code d == c then String.[] ∷ rest else extend_head d rest

-- `s in l`
unfoldable pub member : String → List String → Bool
member s [] = false
member s (t ∷ rest) = str_eq t s || member s rest
