-- ===== src/Billing/Ledger/Effects.antt =====
-- What a call leaves alone, what expiry leaves, and what staff adjustments put on the audit trail.
use revenact_backend.Prelude.{
  ℕ, String, ◌≡◌, ◌≢◌, refl, sym, ap, ◌∙◌, false, Option, none, some, inl, inr, ◌∷◌, arith,
  is_blank, Bool-cases, Option-cases,
}
use revenact_backend.Prelude.Int.{ℤ, pos, ◌-ℤ◌, leb_ℤ, leb_ℤ_le, int_laws}
use revenact_backend.Billing.Models.{BillingAccount, Kind, CreditLedger, Db}
use revenact_backend.Billing.Monad.{Result, ok, err, finish, raise, pure, continue}
use revenact_backend.Billing.Ledger.{
  balance, find_account, movement, adjusted_event, expire_all, expire_balance,
}
use revenact_backend.Billing.Ledger.Balance.{total, IsValid, balance-eq-total}
use revenact_backend.Billing.Ledger.Movements.{Moves, append_row-Moves}
use revenact_backend.Billing.Ledger.Soundness.{total_nonneg}
use revenact_backend.Billing.Ledger.Calls.{
  movement-Moves, locked_found, locked_missing, find_account-id,
}

balance-Moves_ne :
    (account other : ℕ) (amount : ℤ) (db : Db) (r : Result CreditLedger × Db)
    → IsValid db
    → other ≢ account
    → Moves account amount db r
    → balance other r.1.ledger ≡ balance other db.ledger
balance-Moves_ne account other amount db (err e, db') v ne same = rw same refl
balance-Moves_ne account other amount db (ok row, db') v ne h =
    balance-eq-total other db'.ledger h.0.rows
    ∙ ap (total other) h.1
    ∙ ground (arith, h.2)
    ∙ sym (balance-eq-total other db.ledger v.rows)

-- A movement, whether it returns or raises, leaves the balance of every other account as it was.
pub movement_others :
    (account : BillingAccount) (kind : Kind) (amount : ℤ) (reason reference : String)
    (actor : Option ℕ) (db : Db) (other : ℕ)
    → IsValid db
    → other ≢ account.id
    → balance other (movement account kind amount reason reference actor db).1.ledger
      ≡ balance other db.ledger
movement_others account kind amount reason reference actor db other v ne =
    balance-Moves_ne account.id other amount db _ v ne
      (movement-Moves account kind amount reason reference actor db v)

-- How an expiry that began at `db` ended: the balance is zero, or it raised and changed nothing.
abbrev pub Empties : ℕ → Db → Result (Option CreditLedger) × Db → Type 0
Empties account db (ok _, db') = balance account db'.ledger ≡ pos 0
Empties account db (err _, db') = db' ≡ db

expired-Empties :
    (account : ℕ) (db : Db) (r : Result CreditLedger × Db)
    → IsValid db
    → Moves account (pos 0 -ℤ balance account db.ledger) db r
    → Empties account db (continue (λ row. pure (some row)) r)
expired-Empties account db (err e, db') v same = same
expired-Empties account db (ok row, db') v h =
    balance-eq-total account db'.ledger h.0.rows
    ∙ ap (total account) h.1
    ∙ grind (int_laws, h.2, h.3, balance-eq-total account db.ledger v.rows)

expire_balance-Empties :
    (account : ℕ) (reason reference : String) (db : Db)
    → IsValid db
    → Empties account db (expire_balance account (balance account db.ledger) reason reference db)
unfolding expire_balance
expire_balance-Empties account reason reference db v =
    elim (Bool-cases (leb_ℤ (balance account db.ledger) (pos 0))) [
      | inl empty ↦ rw empty (
          rw (balance-eq-total account db.ledger v.rows) (
            let sign = total_nonneg account db.ledger v.rows in
            let low = leb_ℤ_le (balance account db.ledger) (pos 0) empty in
            let same = balance-eq-total account db.ledger v.rows in
            grind (int_laws, sign, low, same)))
      | inr positive ↦ rw positive (
          expired-Empties account db _ v (
            append_row-Moves account Kind.expire (pos 0 -ℤ balance account db.ledger) reason
              reference none db v))
    ]

finish-Empties :
    (account : ℕ) (db : Db) (r : Result (Option CreditLedger) × Db)
    → Empties account db r
    → Empties account db (finish raise db r)
finish-Empties account db (ok _, db') h = h
finish-Empties account db (err e, db') h = refl

-- From a sound ledger, `expire_all` leaves the account's balance at zero, or raises and changes
-- nothing.
pub expire_all-Empties :
    (account : BillingAccount) (reason reference : String) (db : Db)
    → IsValid db
    → Empties account.id db (expire_all account reason reference db)
unfolding expire_all
expire_all-Empties account reason reference db v =
    elim (Option-cases (find_account account.id db.accounts)) [
      | inl missing ↦ rw (locked_missing account.id db missing) refl
      | inr (row, found) ↦
          rw (locked_found account.id db found, find_account-id account.id db.accounts found)
            (finish-Empties account.id db _
              (expire_balance-Empties account.id reason reference db v))
    ]

-- How a staff adjustment that began at `db` ended: one row and one audit event that names it, or
-- it raised and changed nothing.
abbrev pub Adjusts : BillingAccount → ℤ → String → Option ℕ → Db → Result CreditLedger × Db → Type 0
Adjusts account amount reason actor db (ok row, db') =
    IsValid db'
    × (db'.ledger ≡ row ∷ db.ledger)
    × (row.amount ≡ amount)
    × (db'.audit ≡ adjusted_event account amount reason actor row ∷ db.audit)
    × (is_blank reason ≡ false)
    × (amount ≢ pos 0)
Adjusts account amount reason actor db (err _, db') = db' ≡ db
