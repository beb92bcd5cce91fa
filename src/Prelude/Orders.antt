-- ===== src/Prelude/Orders.antt =====
-- Strict total orders as Python's `<` gives them, and the ways in which tuples, missing values and
-- directions combine them.
use Prim.Native.Nat.{ℕ}
use Prim.Native.Char.{Char, code}
use Prim.Native.String.{String}
use mathlib.Core.Path.{◌≡◌, refl, sym, ap, ap₂, ◌∙◌}
use mathlib.Core.Logic.{inl, inr}
use mathlib.Core.Bool.{Bool, true, false}
use mathlib.Core.Option.{Option, none, some}
use native.Mathlib.Omega.{arith}
use text.Mathlib.TextEquality.{Char-path}
use revenact_backend.Prelude.Tests.{ltb, if◌then◌else◌, Bool-cases}
use revenact_backend.Prelude.Int.{ℤ, ltb_ℤ}

pub record Order {ℓ} (A : Type ℓ) : Type ℓ where
  pub less : A → A → Bool
  pub irrefl : (a : A) → less a a ≡ false
  pub trans : (a b c : A) → less a b ≡ true → less b c ≡ true → less a c ≡ true
  pub connect : (a b : A) → less a b ≡ false → less b a ≡ false → a ≡ b

pub ltb_irrefl : (a : ℕ) → ltb a a ≡ false
ltb_irrefl a = ground arith

pub ltb_trans : (a b c : ℕ) → ltb a b ≡ true → ltb b c ≡ true → ltb a c ≡ true
ltb_trans a b c p q = ground arith

pub ltb_connect : (a b : ℕ) → ltb a b ≡ false → ltb b a ≡ false → a ≡ b
ltb_connect a b p q = ground arith

abbrev pub ℕ_order : Order ℕ
ℕ_order = record { less = ltb; irrefl = ltb_irrefl; trans = ltb_trans; connect = ltb_connect }

pub ltb_ℤ_trans : (a b c : ℤ) → ltb_ℤ a b ≡ true → ltb_ℤ b c ≡ true → ltb_ℤ a c ≡ true
ltb_ℤ_trans a b c p q = ground arith

-- Texts by the numbers of their characters.
unfoldable pub text_less : String → String → Bool
text_less String.[] String.[] = false
text_less String.[] (String.◌∷◌ d t) = true
text_less (String.◌∷◌ c s) String.[] = false
text_less (String.◌∷◌ c s) (String.◌∷◌ d t) =
    let rest = text_less s t in
    if ltb (code c) (code d) then true else if ltb (code d) (code c) then false else rest

pub text_less_irrefl : (s : String) → text_less s s ≡ false
unfolding text_less
text_less_irrefl String.[] = refl
text_less_irrefl (String.◌∷◌ c s) = ground (arith, text_less_irrefl s)

pub text_less_trans :
    (s t u : String) → text_less s t ≡ true → text_less t u ≡ true → text_less s u ≡ true
unfolding text_less
text_less_trans String.[] String.[] u p q = cc p
text_less_trans String.[] (String.◌∷◌ d t) String.[] p q = cc q
text_less_trans String.[] (String.◌∷◌ d t) (String.◌∷◌ e u) p q = refl
text_less_trans (String.◌∷◌ c s) String.[] u p q = cc p
text_less_trans (String.◌∷◌ c s) (String.◌∷◌ d t) String.[] p q = cc q
text_less_trans (String.◌∷◌ c s) (String.◌∷◌ d t) (String.◌∷◌ e u) p q =
    ground (arith, text_less_trans s t u)

pub text_less_connect : (s t : String) → text_less s t ≡ false → text_less t s ≡ false → s ≡ t
unfolding text_less
text_less_connect String.[] String.[] p q = refl
text_less_connect String.[] (String.◌∷◌ d t) p q = cc p
text_less_connect (String.◌∷◌ c s) String.[] p q = cc q
text_less_connect (String.◌∷◌ c s) (String.◌∷◌ d t) p q =
    let (heads, less, more) = parts in
    ap₂ (λ (x : Char) (y : String). String.◌∷◌ x y) (Char-path c d heads)
      (text_less_connect s t less more)
  where
    parts : (code c ≡ code d) × (text_less s t ≡ false) × (text_less t s ≡ false)
    parts = ground arith

abbrev pub text_order : Order String
text_order = record {
  less = text_less;
  irrefl = text_less_irrefl;
  trans = text_less_trans;
  connect = text_less_connect;
}

pub ltb_ℤ_irrefl : (a : ℤ) → ltb_ℤ a a ≡ false
ltb_ℤ_irrefl a = ground arith

pub ltb_ℤ_connect : (a b : ℤ) → ltb_ℤ a b ≡ false → ltb_ℤ b a ≡ false → a ≡ b
ltb_ℤ_connect a b p q = ground arith

abbrev pub ℤ_order : Order ℤ
ℤ_order = record {
  less = ltb_ℤ;
  irrefl = ltb_ℤ_irrefl;
  trans = ltb_ℤ_trans;
  connect = ltb_ℤ_connect;
}

module _ {ℓ} {A : Type ℓ} (o : Order A) where
  pub less_asymm : (a b : A) → o.less a b ≡ true → o.less b a ≡ false
  less_asymm a b p = elim (Bool-cases (o.less b a)) [
    | inl q ↦ cc (sym (o.irrefl a) ∙ o.trans a b a p q)
    | inr q ↦ q
  ]

  -- The other direction: what `Desc` makes of a comparison.
  abbrev pub dual : Order A
  dual = record {
    less = λ a b. o.less b a;
    irrefl = o.irrefl;
    trans = λ a b c p q. o.trans c b a q p;
    connect = λ a b p q. o.connect a b q p;
  }

-- Tuples: the first parts that differ decide.
module _ {A B : Type 0} (o : Order A) (p : Order B) where
  abbrev pub lex_less : A × B → A × B → Bool
  lex_less x y = if o.less x.0 y.0 then true else if o.less y.0 x.0 then false else p.less x.1 y.1

  pub lex_irrefl : (x : A × B) → lex_less x x ≡ false
  lex_irrefl x = rw (o.irrefl x.0) (p.irrefl x.1)

  pub lex_trans : (x y z : A × B) → lex_less x y ≡ true → lex_less y z ≡ true → lex_less x z ≡ true
  lex_trans x y z h k = grind (
    arith,
    o.trans x.0 y.0 z.0,
    o.connect x.0 y.0,
    o.connect y.0 z.0,
    less_asymm o x.0 y.0,
    less_asymm o y.0 z.0,
    less_asymm o z.0 x.0,
    o.trans y.0 z.0 x.0,
    o.trans z.0 x.0 y.0,
    p.trans x.1 y.1 z.1,
  )

  pub lex_connect : (x y : A × B) → lex_less x y ≡ false → lex_less y x ≡ false → x ≡ y
  lex_connect (a, b) (c, d) h k = ap₂ (λ (u : A) (v : B). (u, v)) parts.0 parts.1
    where
      parts : (a ≡ c) × (b ≡ d)
      parts = ground (arith, o.connect a c, p.connect b d)

  abbrev pub lex : Order (A × B)
  lex = record { less = lex_less; irrefl = lex_irrefl; trans = lex_trans; connect = lex_connect }

-- Missing values come last, or first.
module _ {A : Type 0} (o : Order A) where
  abbrev pub last_less : Option A → Option A → Bool
  last_less none y = false
  last_less (some a) none = true
  last_less (some a) (some b) = o.less a b

  pub last_irrefl : (x : Option A) → last_less x x ≡ false
  last_irrefl none = refl
  last_irrefl (some a) = o.irrefl a

  pub last_trans :
      (x y z : Option A) → last_less x y ≡ true → last_less y z ≡ true → last_less x z ≡ true
  last_trans none y z h k = cc h
  last_trans (some a) none z h k = cc k
  last_trans (some a) (some b) none h k = refl
  last_trans (some a) (some b) (some c) h k = o.trans a b c h k

  pub last_connect : (x y : Option A) → last_less x y ≡ false → last_less y x ≡ false → x ≡ y
  last_connect none none h k = refl
  last_connect none (some b) h k = cc k
  last_connect (some a) none h k = cc h
  last_connect (some a) (some b) h k = ap some (o.connect a b h k)

  abbrev pub missing_last : Order (Option A)
  missing_last = record {
    less = last_less;
    irrefl = last_irrefl;
    trans = last_trans;
    connect = last_connect;
  }

  abbrev pub first_less : Option A → Option A → Bool
  first_less x none = false
  first_less none (some b) = true
  first_less (some a) (some b) = o.less a b

  pub first_irrefl : (x : Option A) → first_less x x ≡ false
  first_irrefl none = refl
  first_irrefl (some a) = o.irrefl a

  pub first_trans :
      (x y z : Option A) → first_less x y ≡ true → first_less y z ≡ true → first_less x z ≡ true
  first_trans x y none h k = cc k
  first_trans x none (some c) h k = cc h
  first_trans none (some b) (some c) h k = refl
  first_trans (some a) (some b) (some c) h k = o.trans a b c h k

  pub first_connect : (x y : Option A) → first_less x y ≡ false → first_less y x ≡ false → x ≡ y
  first_connect none none h k = refl
  first_connect none (some b) h k = cc h
  first_connect (some a) none h k = cc k
  first_connect (some a) (some b) h k = ap some (o.connect a b h k)

  abbrev pub missing_first : Order (Option A)
  missing_first = record {
    less = first_less;
    irrefl = first_irrefl;
    trans = first_trans;
    connect = first_connect;
  }
