-- ===== src/Billing/Ledger/References.antt =====
-- References make a movement happen once.
use revenact_backend.Prelude.{
  ℕ, String, ◌≡◌, ◌≢◌, refl, sym, ◌∙◌, true, false, not, ◌&&◌, Option, some, inl, inr, ◌∷◌, arith,
  str_eq, str_eq_iff, prefix, Bool-cases, Option-cases,
}
use revenact_backend.Prelude.Int.{ℤ, pos, ◌+ℤ◌, ◌≤ℤ◌, ltb_ℤ}
use revenact_backend.Billing.Models.{BillingAccount, Kind, CreditLedger, Db}
use revenact_backend.Billing.Monad.{
  Error, billing, insufficient_credits, does_not_exist, credits_exhausted, duplicate_reference,
  integrity_error, data_error, Result, ok, err, Exec, finish, raise,
}
use revenact_backend.Billing.Ledger.{
  balance, has_reference, out_of_range, violates, create_row, on_integrity_error, new_row,
  append_row, find_account, movement,
}
use revenact_backend.Billing.Ledger.Calls.{movement_found, movement_missing}
use revenact_backend.Billing.Ledger.Outcomes.{append_row_refused, violates_of_known}

on_integrity_error_known :
    (account : ℕ) (reference : String) (db : Db)
    → reference ≢ ""
    → has_reference account reference db.ledger ≡ true
    → on_integrity_error account reference integrity_error db
      ≡ (err (billing duplicate_reference), db)
unfolding on_integrity_error
on_integrity_error_known account reference db named known =
    rw known (ground (arith, str_eq_iff reference ""))

on_integrity_error_unknown :
    (account : ℕ) (reference : String) (db : Db)
    → has_reference account reference db.ledger ≡ false
    → on_integrity_error account reference integrity_error db ≡ (err integrity_error, db)
unfolding on_integrity_error
on_integrity_error_unknown account reference db unknown = rw unknown (ground arith)

-- A movement whose reference, short enough for its column, is already on record for the account is
-- refused as DUPLICATE_REFERENCE and changes nothing.
pub movement_repeated :
    (account : BillingAccount) (kind : Kind) (amount : ℤ) (reason reference : String)
    (actor : Option ℕ) (db : Db) {row : BillingAccount}
    → find_account account.id db.accounts ≡ some row
    → pos 0 ≤ℤ balance account.id db.ledger +ℤ amount
    → out_of_range (new_row account.id kind amount reason reference actor db) ≡ false
    → prefix 160 reference ≡ reference
    → reference ≢ ""
    → has_reference account.id reference db.ledger ≡ true
    → movement account kind amount reason reference actor db
      ≡ (err (billing duplicate_reference), db)
unfolding new_row
movement_repeated account kind amount reason reference actor db found covered inside short named
      known =
    rw
      (
        movement_found account kind amount reason reference actor db found,
        append_row_refused account.id kind amount reason reference actor db covered inside
            (λ e. named (sym short ∙ e)) (rw short known),
      )
      (rw (on_integrity_error_known account.id reference db named known) refl)

-- Where the uncut reference is not on record and the cut one is, the movement raises the database's own
-- integrity error.
pub movement_cut :
    (account : BillingAccount) (kind : Kind) (amount : ℤ) (reason reference : String)
    (actor : Option ℕ) (db : Db) {row : BillingAccount}
    → find_account account.id db.accounts ≡ some row
    → pos 0 ≤ℤ balance account.id db.ledger +ℤ amount
    → out_of_range (new_row account.id kind amount reason reference actor db) ≡ false
    → prefix 160 reference ≢ ""
    → has_reference account.id (prefix 160 reference) db.ledger ≡ true
    → has_reference account.id reference db.ledger ≡ false
    → movement account kind amount reason reference actor db ≡ (err integrity_error, db)
unfolding new_row
movement_cut account kind amount reason reference actor db found covered inside named known
      unknown =
    rw
      (
        movement_found account kind amount reason reference actor db found,
        append_row_refused account.id kind amount reason reference actor db covered inside named
            known,
      )
      (rw (on_integrity_error_unknown account.id reference db unknown) refl)

create_row_known :
    (row : CreditLedger) (db : Db)
    → row.reference ≢ ""
    → has_reference row.account row.reference db.ledger ≡ true
    → (e : Error) × (create_row row db ≡ (err e, db))
unfolding create_row
create_row_known row db named known = elim (Bool-cases (out_of_range row)) [
  | inl out ↦ (data_error, rw out refl)
  | inr inside ↦ (integrity_error, rw (inside, violates_of_known row db.ledger named known) refl)
]

pub on_integrity_error_raises :
    (account : ℕ) (reference : String) (e : Error) (db : Db)
    → (e' : Error) × (on_integrity_error account reference e db ≡ (err e', db))
unfolding on_integrity_error
on_integrity_error_raises account reference integrity_error db =
    elim (Bool-cases (not (str_eq reference "") && has_reference account reference db.ledger)) [
      | inl known ↦ (billing duplicate_reference, rw known refl)
      | inr unknown ↦ (integrity_error, rw unknown refl)
    ]
on_integrity_error_raises account reference (billing c) db = (billing c, refl)
on_integrity_error_raises account reference data_error db = (data_error, refl)
on_integrity_error_raises account reference does_not_exist db = (does_not_exist, refl)
on_integrity_error_raises account reference credits_exhausted db = (credits_exhausted, refl)

append_row_known :
    (account : ℕ) (kind : Kind) (amount : ℤ) (reason reference : String) (actor : Option ℕ)
    (db : Db)
    → prefix 160 reference ≢ ""
    → has_reference account (prefix 160 reference) db.ledger ≡ true
    → (e : Error) × (append_row account kind amount reason reference actor db ≡ (err e, db))
unfolding append_row new_row
append_row_known account kind amount reason reference actor db named known =
    elim (Bool-cases (ltb_ℤ (balance account db.ledger +ℤ amount) (pos 0))) [
      | inl short ↦ (billing insufficient_credits, rw short refl)
      | inr covered ↦
          let (e, refused) =
            create_row_known (new_row account kind amount reason reference actor db) db named
              known in
          let (e', raised) = on_integrity_error_raises account reference e db in
          (e', rw (covered, refused) raised)
    ]

-- Once a reference is on record for an account, cut to its column or not, no later movement with
-- it writes anything, whatever its kind and amount.
pub movement_known :
    (account : BillingAccount) (kind : Kind) (amount : ℤ) (reason reference : String)
    (actor : Option ℕ) (db : Db)
    → prefix 160 reference ≢ ""
    → has_reference account.id (prefix 160 reference) db.ledger ≡ true
    → (e : Error) × (movement account kind amount reason reference actor db ≡ (err e, db))
movement_known account kind amount reason reference actor db named known =
    elim (Option-cases (find_account account.id db.accounts)) [
      | inl missing ↦ movement_missing account kind amount reason reference actor db missing
      | inr (row, found) ↦
          let (e, raised) =
            append_row_known account.id kind amount reason reference actor db named known in
          (e, rw (movement_found account kind amount reason reference actor db found, raised) refl)
    ]

create_row_ok :
    (row : CreditLedger) (db db' : Db) {written : CreditLedger}
    → create_row row db ≡ (ok written, db')
    → db'.ledger ≡ row ∷ db.ledger
unfolding create_row
create_row_ok row db db' h = elim (Bool-cases (out_of_range row)) [
  | inl out ↦ cc (rw out at h)
  | inr inside ↦ elim (Bool-cases (violates row db.ledger)) [
    | inl refused ↦ cc (rw (inside, refused) at h)
    | inr accepted ↦ cc (rw (inside, accepted) at h)
  ]
]

-- A transaction returned only if its body did, when the handler always raises.
finish_ok :
    (handler : Error → Exec CreditLedger) (db : Db) (r : Result CreditLedger × Db)
    → ((e : Error) → (e' : Error) × (handler e db ≡ (err e', db)))
    → {written : CreditLedger} {db' : Db} → finish handler db r ≡ (ok written, db')
    → r ≡ (ok written, db')
finish_ok handler db (ok a, d) raises h = h
finish_ok handler db (err e, d) raises h = let (e', raised) = raises e in cc (sym raised ∙ h)

append_row_ok :
    (account : ℕ) (kind : Kind) (amount : ℤ) (reason reference : String) (actor : Option ℕ)
    (db db' : Db) {written : CreditLedger}
    → append_row account kind amount reason reference actor db ≡ (ok written, db')
    → db'.ledger ≡ new_row account kind amount reason reference actor db ∷ db.ledger
unfolding append_row
append_row_ok account kind amount reason reference actor db db' h =
    elim (Bool-cases (ltb_ℤ (balance account db.ledger +ℤ amount) (pos 0))) [
      | inl short ↦ cc (rw short at h)
      | inr covered ↦ create_row_ok (new_row account kind amount reason reference actor db) db db' (
          finish_ok (on_integrity_error account reference) db _
            (λ e. on_integrity_error_raises account reference e db) (rw covered at h))
    ]

pub movement_ok :
    (account : BillingAccount) (kind : Kind) (amount : ℤ) (reason reference : String)
    (actor : Option ℕ) (db db' : Db) {written : CreditLedger}
    → movement account kind amount reason reference actor db ≡ (ok written, db')
    → db'.ledger ≡ new_row account.id kind amount reason reference actor db ∷ db.ledger
movement_ok account kind amount reason reference actor db db' h =
    elim (Option-cases (find_account account.id db.accounts)) [
      | inl missing ↦
          let (e, raised) =
            movement_missing account kind amount reason reference actor db missing in
          cc (sym raised ∙ h)
      | inr (row, found) ↦ append_row_ok account.id kind amount reason reference actor db db' (
          finish_ok raise db _ (λ e. (e, refl))
            (rw (movement_found account kind amount reason reference actor db found) at h))
    ]
