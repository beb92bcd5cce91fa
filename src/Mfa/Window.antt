-- ===== src/Mfa/Window.antt =====
-- Which counter a typed code is matched to.
use revenact_backend.Prelude.{
  ℕ, ◌+◌, ◌-◌, ◌/◌, ◌≤◌, String, ◌≡◌, ◌≢◌, refl, sym, subst, ◌∙◌, inl, inr, ◌⊎◌, true, false, List,
  [], ◌∷◌, arith, ltb, ◌==◌, str_eq, str_eq_iff, ==_iff, strip, remove, all_codes, size, Bool-cases,
  All,
}
use revenact_backend.Mfa.Codes.{
  Crypto, Matched, matched, unmatched, type_error, match_counter, match_typed, first_match, window,
  current_counter, code_at,
}

-- What the user typed, with the spaces taken out.
abbrev pub typed : String → String
typed code = remove 32 (strip code)

-- The loop by its answer, between two bounds of the counters.
abbrev pub Answers : Crypto → String → String → List ℕ → ℕ → ℕ → Matched → Type 0
Answers crypto secret code counters low high (matched k) =
    (code_at crypto secret k ≡ code) × (low ≤ k) × (k ≤ high)
Answers crypto secret code counters low high unmatched =
    All (λ k. code_at crypto secret k ≢ code) counters
Answers crypto secret code counters low high type_error = all_codes (λ c. ltb c 128) code ≡ false

-- `match_counter` by its answer: a step of the clock takes thirty seconds, and the counters of the
-- steps from one before the current one to one after it are those that count.
abbrev pub Matches : Crypto → ℕ → String → String → Matched → Type 0
Matches crypto now secret code (matched k) =
    (code_at crypto secret k ≡ typed code)
    × (now / 30 - 1 ≤ k)
    × (k ≤ now / 30 + 1)
    × (size (typed code) ≡ 6)
Matches crypto now secret code unmatched =
    (all_codes crypto.is_digit (typed code) ≡ false)
    ⊎ ((size (typed code) ≢ 6)
        ⊎ ((k : ℕ) → now / 30 - 1 ≤ k → k ≤ now / 30 + 1 → code_at crypto secret k ≢ typed code))
Matches crypto now secret code type_error =
    (all_codes (λ c. ltb c 128) (typed code) ≡ false)
    × (all_codes crypto.is_digit (typed code) ≡ true)
    × (size (typed code) ≡ 6)

module _ (crypto : Crypto) where
  first_match-Answers :
      (secret code : String) (low high : ℕ) (counters : List ℕ)
      → All (λ k. (low ≤ k) × (k ≤ high)) counters
      → Answers crypto secret code counters low high (first_match crypto secret code counters)
  unfolding first_match
  first_match-Answers secret code low high [] h = tt
  first_match-Answers secret code low high (k ∷ rest) h =
      elim (Bool-cases (all_codes (λ c. ltb c 128) code)) [
        | inr foreign ↦ rw foreign foreign
        | inl ascii ↦ elim (Bool-cases (str_eq (code_at crypto secret k) code)) [
          | inl same ↦
              rw (ascii, same) ((str_eq_iff (code_at crypto secret k) code).0 same, h.0.0, h.0.1)
          | inr other ↦
              rw (ascii, other)
                (extend (first_match crypto secret code rest)
                  (first_match-Answers secret code low high rest h.1) other)
        ]
      ]
    where
      extend :
          (m : Matched)
          → Answers crypto secret code rest low high m
          → str_eq (code_at crypto secret k) code ≡ false
          → Answers crypto secret code (k ∷ rest) low high m
      extend (matched _) a other = a
      extend unmatched a other =
          (λ e. cc (sym other ∙ (str_eq_iff (code_at crypto secret k) code).1 e), a)
      extend type_error a other = a

  six_ne : (code : String) → (size code == 6) ≡ false → size code ≢ 6
  six_ne code h = ground arith

  not_empty : (code : String) → size code ≡ 6 → str_eq code "" ≡ false
  not_empty code h = elim (Bool-cases (str_eq code "")) [
    | inl empty ↦ absurd (
        unfold size in
        (let zero_size : size "" ≡ 6 =
            subst (λ (s : String). size s ≡ 6) ((str_eq_iff code "").0 empty) h in
          omega arith))
    | inr filled ↦ filled
  ]

  -- The window is every counter within one step of the clock.
  window_all :
      (now : ℕ) (P : ℕ → Type 0)
      → All P (window now)
      → (k : ℕ) → now / 30 - 1 ≤ k
      → k ≤ now / 30 + 1
      → P k
  unfolding window current_counter
  window_all now P h k low high = elim (Bool-cases (k == now / 30)) [
    | inl present ↦ subst P (sym ((==_iff k (now / 30)).0 present)) h.1.0
    | inr other ↦ elim (Bool-cases (k == now / 30 + 1)) [
      | inl next ↦ subst P (sym ((==_iff k (now / 30 + 1)).0 next)) h.1.1.0
      | inr before ↦ let last : now / 30 - 1 ≡ k = grind arith in subst P last h.0
    ]
  ]

  conclude :
      (now : ℕ) (secret code : String) (m : Matched)
      → all_codes crypto.is_digit (typed code) ≡ true
      → size (typed code) ≡ 6
      → Answers crypto secret (typed code) (window now) (now / 30 - 1) (now / 30 + 1) m
      → Matches crypto now secret code m
  conclude now secret code (matched k) digits six a = (a.0, a.1, a.2, six)
  conclude now secret code unmatched digits six a = inr (inr (window_all now _ a))
  conclude now secret code type_error digits six a = (a, digits, six)

  window_bounds : (now : ℕ) → All (λ k. (now / 30 - 1 ≤ k) × (k ≤ now / 30 + 1)) (window now)
  unfolding window current_counter
  window_bounds now = omega arith

  -- The counter that `match_counter` answers lies within one step of the clock and its code is the
  -- one typed; with no answer, the text is not six digits or no counter within one step has that
  -- code; and it raises only on six digits that are not all ASCII.
  pub match_counter-Matches :
      (now : ℕ) (secret code : String)
      → Matches crypto now secret code (match_counter crypto now secret code)
  unfolding match_counter match_typed
  match_counter-Matches now secret code =
      elim (Bool-cases (all_codes crypto.is_digit (typed code))) [
        | inr letters ↦ rw letters (inl letters)
        | inl digits ↦ elim (Bool-cases (size (typed code) == 6)) [
          | inr long ↦ elim (Bool-cases (str_eq (typed code) "")) [
            | inl empty ↦ rw (digits, empty) (inr (inl (six_ne (typed code) long)))
            | inr filled ↦ rw (digits, filled, long) (inr (inl (six_ne (typed code) long)))
          ]
          | inl six ↦
              let length_six = (==_iff (size (typed code)) 6).0 six in
              rw (digits, not_empty (typed code) length_six, six)
                (conclude now secret code _ digits length_six (
                  first_match-Answers secret (typed code) (now / 30 - 1) (now / 30 + 1) (window now)
                    (window_bounds now)))
        ]
      ]

  -- Six characters that count as digits and are not all ASCII raise: the comparison refuses them.
  pub match_counter_raises :
      (now : ℕ) (secret code : String)
      → all_codes crypto.is_digit (typed code) ≡ true
      → size (typed code) ≡ 6
      → all_codes (λ c. ltb c 128) (typed code) ≡ false
      → match_counter crypto now secret code ≡ type_error
  unfolding match_counter match_typed first_match window
  match_counter_raises now secret code digits six foreign =
      rw (digits, not_empty (typed code) six, (==_iff (size (typed code)) 6).1 six, foreign) refl
