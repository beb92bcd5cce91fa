-- ===== src/Billing/Ledger/Calls.antt =====
-- The calls of the ledger: each keeps it sound, and how each one ends.
use revenact_backend.Prelude.{
  ℕ, String, ◌≡◌, inl, inr, refl, Option, none, some, List, [], ◌∷◌, arith, ◌==◌, Option-cases,
  Bool-cases,
}
use revenact_backend.Prelude.Int.{ℤ, pos, leb_ℤ}
use revenact_backend.Billing.Models.{BillingAccount, Kind, CreditLedger, Db}
use revenact_backend.Billing.Monad.{Error, does_not_exist, Result, ok, err, finish}
use revenact_backend.Billing.Ledger.{append_row, find_account, locked, movement, grant}
use revenact_backend.Billing.Ledger.Balance.{IsValid}
use revenact_backend.Billing.Ledger.Movements.{Moves, append_row-Moves}

pub find_account-id :
    (pk : ℕ) (accounts : List BillingAccount) {a : BillingAccount}
    → find_account pk accounts ≡ some a
    → a.id ≡ pk
unfolding find_account
find_account-id pk [] e = cc
find_account-id pk (a ∷ rest) e = elim (Bool-cases (a.id == pk)) [
  | inl here ↦ ground arith
  | inr later ↦ find_account-id pk rest (rw later at e)
]

pub locked_found :
    (pk : ℕ) (db : Db) {row : BillingAccount}
    → find_account pk db.accounts ≡ some row
    → locked pk db ≡ (ok row, db)
unfolding locked
locked_found pk db found = rw found

pub locked_missing :
    (pk : ℕ) (db : Db)
    → find_account pk db.accounts ≡ none
    → locked pk db ≡ (err does_not_exist, db)
unfolding locked
locked_missing pk db missing = rw missing

module _ (account : BillingAccount) (kind : Kind) (amount : ℤ) (reason reference : String)
    (actor : Option ℕ) (db : Db) where
  -- With the account on record the transaction is the append itself.
  pub movement_found :
      {row : BillingAccount}
      → find_account account.id db.accounts ≡ some row
      → movement account kind amount reason reference actor db
        ≡ finish
            (λ e d. (err e, d))
            db
            (append_row account.id kind amount reason reference actor db)
  unfolding movement
  movement_found {row} found =
      rw (locked_found account.id db found, movement, find_account-id account.id db.accounts found)

  pub movement_missing :
      find_account account.id db.accounts ≡ none
      → (e : Error) × (movement account kind amount reason reference actor db ≡ (err e, db))
  unfolding movement
  movement_missing missing = (does_not_exist, rw (locked_missing account.id db missing, movement))

  finish-Moves :
      (r : Result CreditLedger × Db)
      → Moves account.id amount db r
      → Moves account.id amount db (finish (λ e d. (err e, d)) db r)
  finish-Moves (ok a, db') h = h
  finish-Moves (err e, db') h = refl

  -- From a sound ledger a movement writes one sound row with its amount, or raises and changes
  -- nothing.
  pub movement-Moves :
      IsValid db
      → Moves account.id amount db (movement account kind amount reason reference actor db)
  movement-Moves v = elim (Option-cases (find_account account.id db.accounts)) [
    | inl missing ↦ let (e, raised) = movement_missing missing in rw raised refl
    | inr (row, found) ↦
        rw (movement_found found)
          (finish-Moves _ (append_row-Moves account.id kind amount reason reference actor db v))
  ]

-- A grant moves as its movement does, or is refused for its amount.
pub grant-Moves :
    (account : BillingAccount) (amount : ℤ) (reason reference : String) (actor : Option ℕ) (db : Db)
    → IsValid db
    → Moves account.id amount db (grant account amount reason reference actor db)
unfolding grant
grant-Moves account amount reason reference actor db v = elim (Bool-cases (leb_ℤ amount (pos 0))) [
  | inl bad ↦ rw bad refl
  | inr good ↦ rw good (movement-Moves account Kind.grant amount reason reference actor db v)
]
