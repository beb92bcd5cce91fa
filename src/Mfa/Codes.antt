-- ===== src/Mfa/Codes.antt =====
-- The codes of services/accounts/mfa.py: how one is minted for a step of the clock, and the step that
-- a typed code was minted for.
use Prim.Native.String.{◌++◌}
use revenact_backend.Prelude.{
  ℕ, zero, suc, ◌+◌, ◌-◌, ◌*◌, ◌/◌, ◌%◌, ◌^◌, String, Bool, not, ◌&&◌, ◌||◌, List, [], ◌∷◌, ltb,
  ◌==◌, str_eq, if◌then◌else◌, size, strip, remove, all_codes, length,
}

-- What the code takes from libraries: the encryption at rest, the HMAC-SHA1 digest of a counter under
-- a base32 secret (twenty bytes), SHA-256 in hexadecimal, and two operations of `str`.
pub record Crypto : Type 0 where
  pub encrypt : String → String
  pub decrypt : String → String
  pub digest : String → ℕ → List ℕ
  pub sha256 : String → String
  pub lower : String → String
  pub is_digit : ℕ → Bool

-- The counter of a typed code, none, or the TypeError of `hmac.compare_digest` on a text that is not
-- ASCII.
pub data Matched : Type 0 where
  matched : ℕ → Matched
  unmatched type_error : Matched

unfoldable pub byte_at : List ℕ → ℕ → ℕ
byte_at [] i = 0
byte_at (b ∷ rest) zero = b
byte_at (b ∷ rest) (suc i) = byte_at rest i

-- The dynamic truncation of RFC 4226: `digest[-1] & 0x0F` chooses four bytes, read big-endian with
-- the top bit dropped.
unfoldable pub truncate : List ℕ → ℕ
unfolding byte_at
truncate digest =
    let offset = byte_at digest (length digest - 1) % 16 in
    (byte_at digest offset * 2 ^ 24
      + byte_at digest (offset + 1) * 2 ^ 16
      + byte_at digest (offset + 2) * 2 ^ 8
      + byte_at digest (offset + 3))
    % 2 ^ 31

unfoldable pub digit : ℕ → String
digit d =
    if d == 0
    then "0"
    else if d == 1
    then "1"
    else if d == 2
    then "2"
    else if d == 3
    then "3"
    else if d == 4
    then "4"
    else if d == 5
    then "5"
    else if d == 6
    then "6"
    else if d == 7
    then "7"
    else if d == 8
    then "8"
    else "9"

-- `str(n).zfill(6)` for a number of at most six digits.
unfoldable pub six_digits : ℕ → String
unfolding digit
six_digits n =
    digit (n / 100000 % 10)
    ++ digit (n / 10000 % 10)
    ++ digit (n / 1000 % 10)
    ++ digit (n / 100 % 10)
    ++ digit (n / 10 % 10)
    ++ digit (n % 10)

-- `time // STEP`
unfoldable pub current_counter : ℕ → ℕ
current_counter now = now / 30

-- The steps from one before to one after the current one. The clock is past its first step, so the
-- first of them is not negative.
unfoldable pub window : ℕ → List ℕ
unfolding current_counter
window now = let centre = current_counter now in (centre - 1) ∷ centre ∷ (centre + 1) ∷ []

module _ (crypto : Crypto) where
  open crypto use {digest, is_digit}

  -- `_code_at`
  unfoldable pub code_at : String → ℕ → String
  unfolding truncate six_digits
  code_at secret counter = six_digits (truncate (digest secret counter) % 10 ^ 6)

  -- The loop over the window: the first counter whose code is the one typed. A comparison with a text
  -- that is not ASCII raises.
  unfoldable pub first_match : String → String → List ℕ → Matched
  first_match secret code [] = unmatched
  first_match secret code (counter ∷ rest) =
      let later = first_match secret code rest in
      if not (all_codes (λ c. ltb c 128) code)
      then type_error
      else if str_eq (code_at secret counter) code
      then matched counter
      else later

  unfoldable pub match_typed : ℕ → String → String → Matched
  match_typed now secret code =
      if not (all_codes is_digit code && not (str_eq code "")) || not (size code == 6)
      then unmatched
      else first_match secret code (window now)

  unfoldable pub match_counter : ℕ → String → String → Matched
  match_counter now secret code = match_typed now secret (remove 32 (strip code))
