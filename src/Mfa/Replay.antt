-- ===== src/Mfa/Replay.antt =====
-- A code is accepted once, a recovery code is spent, and a raise changes nothing.
use revenact_backend.Prelude.{
  ℕ, String, ◌≡◌, refl, sym, inl, inr, true, false, not, ◌&&◌, Option, none, some, List, [], ◌∷◌,
  arith, str_eq, str_eq_iff, keep_if, Bool-cases,
}
use revenact_backend.Prelude.Int.{ℤ, pos, ◌≤ℤ◌, leb_ℤ}
use revenact_backend.Mfa.Codes.{Crypto, Matched, matched, unmatched, type_error, match_counter}
use revenact_backend.Mfa.{
  TotpDevice, not_enrolled, Result, ok, err, Factor, totp, recovery, State, contains,
  hash_recovery_code, accept, verify,
}

-- The counter that the code typed at `now` was minted for, if the device's secret minted it.
abbrev pub matched_by : Crypto → ℕ → String → State → Matched
matched_by crypto now code none = unmatched
matched_by crypto now code (some d) =
    match_counter crypto now (crypto.decrypt d.secret_encrypted) code

-- Each code was minted for a counter, which is above `low` and above the ones before it.
abbrev pub IsRising : ℤ → List Matched → Type 0
IsRising low [] = Unit
IsRising low (matched k ∷ rest) = (¬ (pos k ≤ℤ low)) × IsRising (pos k) rest
IsRising low (_ ∷ rest) = ⊥

-- What `verify` did to the device `d` on a code that `m` matches.
abbrev pub Verifies : TotpDevice → Matched → Result Factor × State → Type 0
Verifies d (matched k) (ok totp, some d') =
    (d'.last_counter ≡ pos k)
    × (¬ (pos k ≤ℤ d.last_counter))
    × (d'.recovery_codes ≡ d.recovery_codes)
Verifies d _ (ok totp, some d') = ⊥
Verifies d m (ok recovery, some d') = d'.last_counter ≡ d.last_counter
Verifies d m (ok _, none) = ⊥
Verifies d m (err _, s) = s ≡ some d

module _ (crypto : Crypto) where
  accept-Verifies :
      (d : TotpDevice) (code : String) (m : Matched) → Verifies d m (accept crypto d code m)
  unfolding accept
  accept-Verifies d code type_error = refl
  accept-Verifies d code (matched counter) =
      elim (Bool-cases (leb_ℤ (pos counter) d.last_counter)) [
        | inl old ↦ rw old refl
        | inr new ↦ rw new (refl, ground arith, refl)
      ]
  accept-Verifies d code unmatched =
      elim (Bool-cases (contains (hash_recovery_code crypto code) d.recovery_codes)) [
        | inl known ↦ rw known refl
        | inr unknown ↦ rw unknown refl
      ]

  -- On a device, `verify` that returns "totp" has stored the counter that the code was minted for, one
  -- above the stored one, and kept the recovery codes, one that returns "recovery" has kept the counter,
  -- and one that raises has changed nothing.
  pub verify-Verifies :
      (now : ℕ) (code : String) (d : TotpDevice)
      → Verifies d (matched_by crypto now code (some d)) (verify crypto now code (some d))
  unfolding verify
  verify-Verifies now code d = pending d.confirmed_at
    where
      found : Matched
      found = match_counter crypto now (crypto.decrypt d.secret_encrypted) code

      outcome : Option ℕ → Result Factor × State
      outcome none = (err not_enrolled, some d)
      outcome (some _) = accept crypto d code found

      unanswered : (m : Matched) → Verifies d m (err not_enrolled, some d)
      unanswered (matched k) = refl
      unanswered unmatched = refl
      unanswered type_error = refl

      pending : (o : Option ℕ) → Verifies d found (outcome o)
      pending none = unanswered found
      pending (some _) = accept-Verifies d code found

-- What the code of a sign-in that it let in was minted for, before those of the sign-ins after it.
abbrev pub accepted_from : (State → List Matched) → Matched → Result Factor × State → List Matched
accepted_from later m (ok totp, s) = m ∷ later s
accepted_from later m (_, s) = later s

module _ (crypto : Crypto) where
  -- The codes that a row of sign-ins let in, by what they were minted for: the time and the text of
  -- each sign-in.
  pub accepted : List (ℕ × String) → State → List Matched
  accepted [] s = []
  accepted ((now, code) ∷ rest) s =
      accepted_from (λ s'. accepted rest s') (matched_by crypto now code s)
        (verify crypto now code s)

  IsRising-from :
      (d : TotpDevice) (later : State → List Matched) (m : Matched) (r : Result Factor × State)
      → ((d' : TotpDevice) → IsRising d'.last_counter (later (some d')))
      → Verifies d m r
      → IsRising d.last_counter (accepted_from later m r)
  IsRising-from d later (matched k) (ok totp, some d') rises h = (h.1, rw (sym h.0) (rises d'))
  IsRising-from d later unmatched (ok totp, some d') rises h = absurd h
  IsRising-from d later type_error (ok totp, some d') rises h = absurd h
  IsRising-from d later m (ok recovery, some d') rises h = rw (sym (kept m h)) (rises d')
    where
      kept : (m : Matched) → Verifies d m (ok recovery, some d') → d'.last_counter ≡ d.last_counter
      kept (matched k) same = same
      kept unmatched same = same
      kept type_error same = same
  IsRising-from d later (matched k) (ok totp, none) rises h = absurd h
  IsRising-from d later unmatched (ok totp, none) rises h = absurd h
  IsRising-from d later type_error (ok totp, none) rises h = absurd h
  IsRising-from d later (matched k) (ok recovery, none) rises h = absurd h
  IsRising-from d later unmatched (ok recovery, none) rises h = absurd h
  IsRising-from d later type_error (ok recovery, none) rises h = absurd h
  IsRising-from d later (matched k) (err e, s) rises h = rw h (rises d)
  IsRising-from d later unmatched (err e, s) rises h = rw h (rises d)
  IsRising-from d later type_error (err e, s) rises h = rw h (rises d)

  -- Over any sign-ins, at any times, every code that is let in was minted for a counter, and these
  -- counters rise above the one the device had: no code is let in twice for a step of the clock.
  pub accepted-IsRising :
      (tries : List (ℕ × String)) (d : TotpDevice)
      → IsRising d.last_counter (accepted tries (some d))
  unfolding accepted
  accepted-IsRising [] d = tt
  accepted-IsRising ((now, code) ∷ rest) d =
      IsRising-from d (λ s'. accepted rest s') (matched_by crypto now code (some d))
        (verify crypto now code (some d)) (λ d'. accepted-IsRising rest d')
        (verify-Verifies crypto now code d)

  contains-keep_if :
      (digest : String) (codes : List String)
      → contains digest (keep_if (λ c. not (str_eq c digest)) codes) ≡ false
  unfolding contains
  contains-keep_if digest [] = refl
  contains-keep_if digest (c ∷ rest) = elim (Bool-cases (str_eq c digest)) [
    | inl same ↦ rw same (contains-keep_if digest rest)
    | inr other ↦ rw (other, other) (contains-keep_if digest rest)
  ]

  -- What a sign-in by a recovery code leaves: its digest is gone, and no other is.
  abbrev pub Spends : String → TotpDevice → Result Factor × State → Type 0
  Spends digest d (ok recovery, some d') =
      (contains digest d.recovery_codes ≡ true)
      × (contains digest d'.recovery_codes ≡ false)
      × ((other : String)
          → contains other d'.recovery_codes
            ≡ (not (str_eq other digest) && contains other d.recovery_codes))
  Spends digest d (ok recovery, none) = ⊥
  Spends digest d _ = Unit

  contains-keep_if_other :
      (other digest : String) (codes : List String)
      → contains other (keep_if (λ c. not (str_eq c digest)) codes)
        ≡ (not (str_eq other digest) && contains other codes)
  unfolding contains
  contains-keep_if_other other digest [] = ground arith
  contains-keep_if_other other digest (c ∷ rest) = ground (
    arith,
    contains-keep_if_other other digest rest,
    str_eq_iff c digest,
    str_eq_iff c other,
    str_eq_iff other digest,
  )

  accept-Spends :
      (d : TotpDevice) (code : String) (m : Matched)
      → Spends (hash_recovery_code crypto code) d (accept crypto d code m)
  unfolding accept
  accept-Spends d code type_error = tt
  accept-Spends d code (matched counter) = elim (Bool-cases (leb_ℤ (pos counter) d.last_counter)) [
    | inl old ↦ rw old tt
    | inr new ↦ rw new tt
  ]
  accept-Spends d code unmatched =
      let digest = hash_recovery_code crypto code in
      elim (Bool-cases (contains digest d.recovery_codes)) [
        | inl known ↦ rw known (
          known,
          contains-keep_if digest d.recovery_codes,
          λ other. contains-keep_if_other other digest d.recovery_codes,
        )
        | inr unknown ↦ rw unknown tt
      ]

  -- `verify` that returns "recovery" was given a code whose digest was on the device; it has taken
  -- that digest off, every occurrence of it, and kept every other.
  pub verify-Spends :
      (now : ℕ) (code : String) (d : TotpDevice)
      → Spends (hash_recovery_code crypto code) d (verify crypto now code (some d))
  unfolding verify
  verify-Spends now code d = pending d.confirmed_at
    where
      outcome : Option ℕ → Result Factor × State
      outcome none = (err not_enrolled, some d)
      outcome (some _) =
          accept crypto d code (match_counter crypto now (crypto.decrypt d.secret_encrypted) code)

      pending : (o : Option ℕ) → Spends (hash_recovery_code crypto code) d (outcome o)
      pending none = tt
      pending (some _) = accept-Spends d code _
