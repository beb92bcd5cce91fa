-- ===== src/Billing/Tests/Movements.antt =====
-- The calls of services/billing/ledger.py on concrete rows.
use revenact_backend.Prelude.{
  String, ◌≡◌, ◌≢◌, refl, sym, ◌∙◌, str_eq, str_eq_iff, inr, false, none, some, List, [], ◌∷◌,
  arith, prefix,
}
use revenact_backend.Prelude.Int.{pos, negsuc, ◌≤ℤ◌, ◌+ℤ◌, ◌-ℤ◌}
use revenact_backend.Billing.Models.{Kind, CreditLedger, Db}
use revenact_backend.Billing.Monad.{Error, ok, err, billing, insufficient_credits, integrity_error}
use revenact_backend.Billing.Ledger.{
  balance, has_reference, out_of_range, new_row, append_row, create_row, violates, fits_column,
  find_account, locked, movement, consume, latest, newer, comes_first,
}
use revenact_backend.Billing.Ledger.Balance.{total, IsValid}
use revenact_backend.Billing.Ledger.Soundness.{Call, perform, perform_all, perform_all_sound}
use revenact_backend.Billing.Ledger.Later.{movement_repeated_long, movement_once}
use revenact_backend.Billing.Ledger.Outcomes.{consume_overdraft, consume_covered}
use revenact_backend.Billing.Tests.{acme, opening, db}

db-IsValid : IsValid db
unfolding ◌+ℤ◌ has_reference
db-IsValid = record {
  rows = (tt, refl, (omega arith), inr refl, tt);
  past = ((omega arith, omega arith), tt);
}

named : (reference : String) → str_eq reference "" ≡ false → reference ≢ ""
named reference h e = cc (sym h ∙ (str_eq_iff reference "").1 e)

abbrev calls : List Call
calls =
    Call.consume acme (pos 30) "a call" "call:1" none
    ∷ Call.wait 5
    ∷ Call.consume acme (pos 300) "too much" "call:2" none
    ∷ Call.refund acme (pos 30) "it failed" "call:1:refund" none
    ∷ []

perform_all_sound_example :
    let rows = (perform_all calls db).ledger in
    IsValid (perform_all calls db) × (balance 1 rows ≡ total 1 rows) × (pos 0 ≤ℤ balance 1 rows)
perform_all_sound_example = perform_all_sound calls db 1 db-IsValid

acme_found : find_account 1 db.accounts ≡ some acme
unfolding find_account
acme_found = refl

balance_now : balance 1 db.ledger ≡ pos 100
unfolding balance latest newer
balance_now = refl

-- The database after a charge of thirty.
abbrev charged : CreditLedger
charged = record {
  id = 10;
  account = 1;
  kind = Kind.consume;
  amount = negsuc 29;
  balance_after = pos 70;
  reason = "a call";
  reference = "call:1";
  actor = none;
  created_at = 60;
}

abbrev after : Db
after = record db { ledger = charged ∷ opening ∷ []; next_id = 11 }

first_charge :
    movement acme Kind.consume (negsuc 29) "a call" "call:1" none db ≡ (ok charged, after)
unfolding movement locked append_row new_row create_row violates out_of_range fits_column
    has_reference balance latest newer find_account prefix ◌+ℤ◌
first_charge = refl

movement_once_example :
    (e : Error) × (movement acme Kind.consume
        (negsuc 49)
        "again"
        "call:1"
        none
        (perform_all calls after)
      ≡ (err e, perform_all calls after))
movement_once_example =
    movement_once acme Kind.consume Kind.consume (negsuc 29) (negsuc 49) "a call" "again" "call:1"
      none none db after calls (unfold prefix in named "call:1" refl) first_charge

consume_overdraft_example :
    consume acme (pos 101) "a call" "call:3" none db ≡ (err (billing insufficient_credits), db)
consume_overdraft_example =
    consume_overdraft acme (pos 101) "a call" "call:3" none db acme_found (omega arith)
      (rw balance_now (omega arith))

consume_covered_example :
    let row = new_row 1 Kind.consume (negsuc 29) "a call" "call:1" none db in
    (consume acme (pos 30) "a call" "call:1" none db
      ≡ (ok row, record db { ledger = row ∷ db.ledger; next_id = 11 }))
    × (row.balance_after ≡ balance 1 db.ledger -ℤ pos 30)
unfolding ◌-ℤ◌ ◌+ℤ◌
consume_covered_example =
    consume_covered acme (pos 30) "a call" "call:1" none db acme_found (omega arith)
      (rw balance_now (omega arith))
      (unfold out_of_range fits_column new_row balance latest newer in refl)
      (inr (unfold has_reference new_row prefix in refl))

-- A reference of a hundred and seventy characters.
abbrev long : String
long =
    "0123456789012345678901234567890123456789012345678901234567890123456789012345678901234567890123456789012345678901234567890123456789012345678901234567890123456789over the cut"

-- The row of a movement with that reference, which is stored cut.
abbrev cut_row : CreditLedger
cut_row = record {
  id = 10;
  account = 1;
  kind = Kind.grant;
  amount = pos 1;
  balance_after = pos 101;
  reason = "";
  reference =
      "0123456789012345678901234567890123456789012345678901234567890123456789012345678901234567890123456789012345678901234567890123456789012345678901234567890123456789";
  actor = none;
  created_at = 60;
}

abbrev cut : Db
cut = record db { ledger = cut_row ∷ opening ∷ []; next_id = 11 }

first_cut : movement acme Kind.grant (pos 1) "" long none db ≡ (ok cut_row, cut)
unfolding movement locked append_row new_row create_row violates out_of_range fits_column
    has_reference balance latest newer find_account prefix ◌+ℤ◌
first_cut = refl

too_long : prefix 160 long ≢ long
unfolding prefix
too_long e = cc (sym differ ∙ (str_eq_iff (prefix 160 long) long).1 e)
  where
    differ : str_eq (prefix 160 long) long ≡ false
    differ = refl

movement_repeated_long_example :
    movement acme Kind.grant (pos 5) "again" long none (perform_all (Call.wait 5 ∷ []) cut)
    ≡ (err integrity_error, perform_all (Call.wait 5 ∷ []) cut)
unfolding ◌+ℤ◌ balance latest newer comes_first out_of_range fits_column new_row has_reference
    prefix perform_all perform
movement_repeated_long_example =
    movement_repeated_long acme Kind.grant Kind.grant (pos 1) (pos 5) "" "again" long none none db
      cut (Call.wait 5 ∷ []) (refl, tt) too_long first_cut acme_found (omega arith) refl
