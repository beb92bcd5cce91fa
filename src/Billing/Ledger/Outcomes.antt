-- ===== src/Billing/Ledger/Outcomes.antt =====
-- How the calls end: overdrafts, repeated references, other accounts, the audit trail.
use revenact_backend.Prelude.{
  ℕ, ◌+◌, String, ◌≡◌, ◌≢◌, refl, true, false, Option, some, inl, inr, ◌⊎◌, List, ◌∷◌, arith,
  str_eq_iff,
}
use revenact_backend.Prelude.Int.{
  ℤ, pos, ◌+ℤ◌, ◌-ℤ◌, ◌≤ℤ◌, leb_ℤ, ltb_ℤ, ltb_ℤ-false, leb_ℤ-false, int_laws,
}
use revenact_backend.Billing.Models.{BillingAccount, Kind, CreditLedger, Db}
use revenact_backend.Billing.Monad.{billing, insufficient_credits, integrity_error, ok, err}
use revenact_backend.Billing.Ledger.{
  balance, has_reference, out_of_range, violates, create_row, on_integrity_error, new_row,
  append_row, find_account, consume,
}
use revenact_backend.Billing.Ledger.Calls.{movement_found}

-- A charge of more than the balance raises INSUFFICIENT_CREDITS and changes nothing.
pub consume_overdraft :
    (account : BillingAccount) (amount : ℤ) (reason reference : String) (actor : Option ℕ) (db : Db)
    {row : BillingAccount}
    → find_account account.id db.accounts ≡ some row
    → pos 1 ≤ℤ amount
    → ¬ (amount ≤ℤ balance account.id db.ledger)
    → consume account amount reason reference actor db ≡ (err (billing insufficient_credits), db)
unfolding consume append_row
consume_overdraft account amount reason reference actor db found positive short =
    let over : ltb_ℤ (balance account.id db.ledger +ℤ (pos 0 -ℤ amount)) (pos 0) ≡ true =
      grind int_laws in
    rw (consume, positive_lem)
      (rw (movement_found account Kind.consume (pos 0 -ℤ amount) reason reference actor db found)
        (rw over refl))
  where
    positive_lem : leb_ℤ amount (pos 0) ≡ false
    positive_lem = ground arith

create_row_accepted :
    (row : CreditLedger) (db : Db)
    → out_of_range row ≡ false
    → violates row db.ledger ≡ false
    → create_row row db ≡ (ok row, record db { ledger = row ∷ db.ledger; next_id = db.next_id + 1 })
unfolding create_row
create_row_accepted row db inside accepted = rw (inside, accepted) refl

create_row_violating :
    (row : CreditLedger) (db : Db)
    → out_of_range row ≡ false
    → violates row db.ledger ≡ true
    → create_row row db ≡ (err integrity_error, db)
unfolding create_row
create_row_violating row db inside refused = rw (inside, refused) refl

not_violates :
    (row : CreditLedger) (rows : List CreditLedger)
    → pos 0 ≤ℤ row.balance_after
    → (row.reference ≡ "") ⊎ (has_reference row.account row.reference rows ≡ false)
    → violates row rows ≡ false
unfolding violates
not_violates row rows sign (inl empty) =
    rw (ltb_ℤ-false row.balance_after (pos 0) sign, (str_eq_iff row.reference "").1 empty) refl
not_violates row rows sign (inr fresh) =
    rw (ltb_ℤ-false row.balance_after (pos 0) sign, fresh) (ground arith)

pub violates_of_known :
    (row : CreditLedger) (rows : List CreditLedger)
    → row.reference ≢ ""
    → has_reference row.account row.reference rows ≡ true
    → violates row rows ≡ true
unfolding violates
violates_of_known row rows named known = rw known (ground (arith, str_eq_iff row.reference ""))

-- Within the balance and the columns, and with no reference or a new one, a charge writes one row
-- that lowers the balance by the amount.
pub consume_covered :
    (account : BillingAccount) (amount : ℤ) (reason reference : String) (actor : Option ℕ) (db : Db)
    {found_row : BillingAccount}
    → find_account account.id db.accounts ≡ some found_row
    → pos 1 ≤ℤ amount
    → amount ≤ℤ balance account.id db.ledger
    → let row = new_row account.id Kind.consume (pos 0 -ℤ amount) reason reference actor db in
      out_of_range row ≡ false
      → (row.reference ≡ "") ⊎ (has_reference account.id row.reference db.ledger ≡ false)
      → (consume account amount reason reference actor db
          ≡ (ok row, record db { ledger = row ∷ db.ledger; next_id = db.next_id + 1 }))
        × (row.balance_after ≡ balance account.id db.ledger -ℤ amount)
unfolding consume append_row new_row
consume_covered account amount reason reference actor db found positive covered inside fresh = (
  rw (consume, positive_lem)
      (rw (movement_found account Kind.consume (pos 0 -ℤ amount) reason reference actor db found)
        (rw (enough, create_row_accepted _ db inside accepted) refl)),
  omega int_laws,
)
  where
    positive_lem : leb_ℤ amount (pos 0) ≡ false
    positive_lem = leb_ℤ-false amount (pos 0) (omega arith)

    after : ℤ
    after = balance account.id db.ledger +ℤ (pos 0 -ℤ amount)

    after_nonneg : pos 0 ≤ℤ after
    after_nonneg = omega int_laws

    enough : ltb_ℤ after (pos 0) ≡ false
    enough = ltb_ℤ-false after (pos 0) after_nonneg

    row : CreditLedger
    row = new_row account.id Kind.consume (pos 0 -ℤ amount) reason reference actor db

    accepted : violates row db.ledger ≡ false
    accepted = not_violates row db.ledger after_nonneg fresh

-- The two Booleans that `on_integrity_error` and the unique constraint test.
pub append_row_refused :
    (account : ℕ) (kind : Kind) (amount : ℤ) (reason reference : String) (actor : Option ℕ)
    (db : Db)
    → let row = new_row account kind amount reason reference actor db in
      pos 0 ≤ℤ balance account db.ledger +ℤ amount
      → out_of_range row ≡ false
      → row.reference ≢ ""
      → has_reference account row.reference db.ledger ≡ true
      → append_row account kind amount reason reference actor db
        ≡ on_integrity_error account reference integrity_error db
unfolding append_row new_row
append_row_refused account kind amount reason reference actor db covered inside named known =
    rw
      (
        ltb_ℤ-false (balance account db.ledger +ℤ amount) (pos 0) covered,
        create_row_violating _ db inside (violates_of_known _ db.ledger named known),
      )
      refl
