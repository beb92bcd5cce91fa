-- ===== src/Mfa/Tests.antt =====
-- One person's device, with cryptography that is simple enough to run.
use revenact_backend.Prelude.{leb, if◌then◌else◌, ◌&&◌, some, [], ◌∷◌}
use revenact_backend.Prelude.Int.{pos}
use revenact_backend.Mfa.Codes.{Crypto, match_counter}
use revenact_backend.Mfa.{TotpDevice, hash_recovery_code, verify}
use revenact_backend.Mfa.Replay.{IsRising, accepted, accepted-IsRising, Spends, verify-Spends}
use revenact_backend.Mfa.Window.{Matches, match_counter-Matches}

-- The ASCII digits and the full-width ones.
abbrev crypto : Crypto
crypto = record {
  encrypt = λ s. s;
  decrypt = λ s. s;
  digest = λ secret counter. 0 ∷ 0 ∷ 0 ∷ counter ∷ [];
  sha256 = λ s. s;
  lower = λ s. s;
  is_digit = λ c. if leb 65296 c then leb c 65305 else leb 48 c && leb c 57;
}

abbrev device : TotpDevice
device = record {
  secret_encrypted = "secret";
  confirmed_at = some 10;
  last_counter = pos 3;
  recovery_codes = "abcdefghij" ∷ "klmnopqrst" ∷ [];
}

accepted-IsRising_example :
    IsRising
      (pos 3)
      (accepted crypto ((150, "000005") ∷ (151, "000005") ∷ (180, "000006") ∷ []) (some device))
accepted-IsRising_example =
    accepted-IsRising crypto ((150, "000005") ∷ (151, "000005") ∷ (180, "000006") ∷ []) device

verify-Spends_example :
    Spends crypto
      (hash_recovery_code crypto "abcde-fghij")
      device
      (verify crypto 150 "abcde-fghij" (some device))
verify-Spends_example = verify-Spends crypto 150 "abcde-fghij" device

match_counter-Matches_example :
    Matches crypto 150 "secret" "000 005" (match_counter crypto 150 "secret" "000 005")
match_counter-Matches_example = match_counter-Matches crypto 150 "secret" "000 005"
