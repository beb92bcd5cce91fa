-- ===== src/Portfolio/Padding.antt =====
-- services/portfolio_core/shape.py: the padding that `encode_cursor` strips and `decode_cursor` fills.
use Prim.Native.Char.{char, code}
use Prim.Native.String.{◌++◌}
use Prim.Native.String.append
use text.Mathlib.TextEquality.{Char-path}
use revenact_backend.Prelude.{
  ℕ, ◌+◌, ◌-◌, ◌%◌, ◌≤◌, ◌==◌, ==_iff, String, ◌≡◌, refl, sym, ap, ◌∙◌, true, false, not, arith,
  inl, inr, str_eq, str_eq_iff, size, all_codes, strip_end_of, Bool-cases,
}
use revenact_backend.Portfolio.Cursors.{World, IsReadBack, Json, equal_signs, fill}

size-append : (s t : String) → size (s ++ t) ≡ size s + size t
unfolding size
size-append String.[] t = rw (append.nil t) (omega arith)
size-append (String.◌∷◌ c s) t = rw (append.cons c s t, size-append s t) (omega arith)

strip_end_of-signs : (t : String) → all_codes (λ c. c == 61) t ≡ true → strip_end_of 61 t ≡ ""
unfolding strip_end_of all_codes
strip_end_of-signs String.[] h = refl
strip_end_of-signs (String.◌∷◌ c t) h = rw h refl

-- The signs are stripped and no digit is.
strip_end_of-append :
    (s t : String)
    → all_codes (λ c. not (c == 61)) s ≡ true
    → all_codes (λ c. c == 61) t ≡ true
    → strip_end_of 61 (s ++ t) ≡ s
unfolding strip_end_of all_codes
strip_end_of-append String.[] t digits signs = rw (append.nil t) (strip_end_of-signs t signs)
strip_end_of-append (String.◌∷◌ c s) t digits signs = elim (Bool-cases (code c == 61)) [
  | inl sign ↦ cc (rw sign at digits)
  | inr digit ↦
      rw (append.cons c s t, digit)
        (ap (String.◌∷◌ c) (strip_end_of-append s t (rw digit at digits) signs))
]

-- A text of `=` is as many of them as it has characters.
equal_signs-size : (t : String) → all_codes (λ c. c == 61) t ≡ true → equal_signs (size t) ≡ t
unfolding equal_signs all_codes size
equal_signs-size String.[] h = refl
equal_signs-size (String.◌∷◌ c t) h = elim (Bool-cases (code c == 61)) [
  | inl sign ↦
      let same : c ≡ char 61 tt = Char-path c (char 61 tt) ((==_iff (code c) 61).0 sign) in
      rw (same, equal_signs-size t (rw sign at h))
        (append.cons (char 61 tt) String.[] t ∙ ap (String.◌∷◌ (char 61 tt)) (append.nil t))
  | inr digit ↦ cc (rw digit at h)
]

-- As many signs are missing from the digits as the padding had.
missing_signs : (n p : ℕ) → p ≤ 2 → (n + p) % 4 ≡ 0 → (4 - n % 4) % 4 ≡ p
missing_signs n p short whole = omega arith

module _ {world : World} {document : Json world.Number} (b : IsReadBack world document) where
  pub strip_end_of-digits : strip_end_of 61 (world.encode document) ≡ b.digits
  strip_end_of-digits =
      ap (strip_end_of 61) b.written
      ∙ strip_end_of-append b.digits b.padding b.in_alphabet b.only_signs

  pub fill-digits : fill b.digits ≡ world.encode document
  unfolding fill
  fill-digits =
      ap (λ n. b.digits ++ equal_signs n)
        (missing_signs (size b.digits) (size b.padding) b.short
          (sym (ap (λ n. n % 4) (size-append b.digits b.padding)) ∙ b.whole))
      ∙ ap (λ t. b.digits ++ t) (equal_signs-size b.padding b.only_signs)
      ∙ sym b.written

  pub digits-some : str_eq b.digits "" ≡ false
  digits-some = elim (Bool-cases (str_eq b.digits "")) [
    | inl empty ↦ absurd (b.some_digits ((str_eq_iff b.digits "").0 empty))
    | inr filled ↦ filled
  ]
