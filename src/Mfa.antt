-- ===== src/Mfa.antt =====
-- services/accounts/mfa.py: time-based one-time passwords for one person. The state is the person's
-- row of `TOTPDevice` (services/accounts/models.py), or none.
pub mod Codes
pub mod Replay
pub mod Window
mod Tests
use Prim.Native.String.{◌++◌}
use revenact_backend.Prelude.{
  ℕ, String, Bool, true, false, not, Option, none, some, List, [], ◌∷◌, map, ◌==◌, str_eq,
  if◌then◌else◌, prefix, suffix, strip, remove, keep_if,
}
use revenact_backend.Prelude.Int.{ℤ, pos, negsuc, leb_ℤ}
use revenact_backend.Mfa.Codes.{Crypto, Matched, matched, unmatched, type_error, match_counter}

pub record TotpDevice : Type 0 where
  pub secret_encrypted : String
  pub confirmed_at : Option ℕ
  pub last_counter : ℤ
  pub recovery_codes : List String

-- The codes of `MFAError`, and the TypeError of a comparison that is not between ASCII texts.
pub data Error : Type 0 where
  already_enrolled not_pending code_invalid not_enrolled code_reused : Error
  type_mismatch : Error

pub data Result {ℓ} (A : Type ℓ) : Type ℓ where
  ok : A → Result A
  err : Error → Result A

-- What `verify` returns.
pub data Factor : Type 0 where
  totp recovery : Factor

abbrev pub State : Type 0
State = Option TotpDevice

-- `digest in recovery_codes`
unfoldable pub contains : String → List String → Bool
contains digest [] = false
contains digest (c ∷ rest) = if str_eq c digest then true else contains digest rest

module _ (crypto : Crypto) where
  open crypto use {encrypt, decrypt, lower, sha256}

  unfoldable pub hash_recovery_code : String → String
  hash_recovery_code code = sha256 (remove 32 (remove 45 (lower (strip code))))

  -- A recovery code as it is shown, from the ten characters that were drawn.
  unfoldable pub group_code : String → String
  group_code raw = prefix 5 raw ++ "-" ++ suffix 5 raw

  -- `secret` is what `generate_secret` drew.
  unfoldable pub begin_enrolment : String → State → Result String × State
  begin_enrolment secret none = (
    ok secret,
    some (record {
      secret_encrypted = encrypt secret;
      confirmed_at = none;
      last_counter = negsuc 0;
      recovery_codes = [];
    }),
  )
  begin_enrolment secret (some device) = elim (device.confirmed_at) [
    | some _ ↦ (err already_enrolled, some device)
    | none ↦ (
      ok secret,
      some (record device {
        secret_encrypted = encrypt secret;
        last_counter = negsuc 0;
        recovery_codes = [];
      }),
    )
  ]

  -- `raws` are the eight texts that `new_recovery_codes` drew.
  unfoldable pub confirm_device :
      ℕ → List String → TotpDevice → Matched → Result (List String) × State
  confirm_device now raws device type_error = (err type_mismatch, some device)
  confirm_device now raws device unmatched = (err code_invalid, some device)
  confirm_device now raws device (matched counter) =
      let codes = map group_code raws in
      (
        ok codes,
        some (record device {
          confirmed_at = some now;
          last_counter = pos counter;
          recovery_codes = map hash_recovery_code codes;
        }),
      )

  unfoldable pub confirm_enrolment : ℕ → List String → String → State → Result (List String) × State
  confirm_enrolment now raws code none = (err not_pending, none)
  confirm_enrolment now raws code (some device) = elim (device.confirmed_at) [
    | some _ ↦ (err not_pending, some device)
    | none ↦
        confirm_device now raws device
          (match_counter crypto now (decrypt device.secret_encrypted) code)
  ]

  -- The second half of `verify`: the replay check of a code, or a recovery code.
  unfoldable pub accept : TotpDevice → String → Matched → Result Factor × State
  accept device code type_error = (err type_mismatch, some device)
  accept device code (matched counter) =
      if leb_ℤ (pos counter) device.last_counter
      then (err code_reused, some device)
      else (ok totp, some (record device { last_counter = pos counter }))
  accept device code unmatched =
      let digest = hash_recovery_code code in
      if contains digest device.recovery_codes
      then (
        ok recovery,
        some (record device {
          recovery_codes = keep_if (λ c. not (str_eq c digest)) device.recovery_codes;
        }),
      )
      else (err code_invalid, some device)

  unfoldable pub verify : ℕ → String → State → Result Factor × State
  verify now code none = (err not_enrolled, none)
  verify now code (some device) = elim (device.confirmed_at) [
    | none ↦ (err not_enrolled, some device)
    | some _ ↦ accept device code (match_counter crypto now (decrypt device.secret_encrypted) code)
  ]

  -- `disable` deletes the device once `verify` has returned.
  unfoldable pub delete_verified : Result Factor × State → Result (Unit {0}) × State
  delete_verified (ok factor, state) = (ok tt, none)
  delete_verified (err e, state) = (err e, state)

  unfoldable pub disable : ℕ → String → State → Result (Unit {0}) × State
  disable now code state = delete_verified (verify now code state)

unfoldable pub is_enrolled : State → Bool
is_enrolled none = false
is_enrolled (some device) = elim (device.confirmed_at) [ none ↦ false | some _ ↦ true ]
