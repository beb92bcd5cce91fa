-- ===== src/Billing/Ledger/Movements.antt =====
-- What a movement does to the ledger, on every branch.
use revenact_backend.Prelude.{
  ℕ, ◌+◌, ◌≤◌, ◌<◌, String, ◌≡◌, ◌⊎◌, inl, inr, refl, ap, false, not, ◌&&◌, Option, List, [], ◌∷◌,
  arith, str_eq, str_eq_iff, All, Bool-cases,
}
use revenact_backend.Prelude.Int.{ℤ, pos, ◌+ℤ◌, ◌≤ℤ◌, ltb_ℤ}
use revenact_backend.Billing.Models.{Kind, CreditLedger, Db}
use revenact_backend.Billing.Monad.{Error, integrity_error, Result, ok, err, finish}
use revenact_backend.Billing.Ledger.{
  balance, has_reference, out_of_range, violates, create_row, on_integrity_error, new_row,
  append_row,
}
use revenact_backend.Billing.Ledger.Balance.{total, IsBefore, IsValid, balance-eq-total}

-- How a call that began at `db` ended: it raised and changed nothing, or it wrote one sound row of
-- `account` with `amount` on top of the ledger.
abbrev pub Moves : ℕ → ℤ → Db → Result CreditLedger × Db → Type 0
Moves account amount db (ok row, db') =
    IsValid db'
    × (db'.ledger ≡ row ∷ db.ledger)
    × (row.account ≡ account)
    × (row.amount ≡ amount)
    × (row.balance_after ≡ total account db.ledger +ℤ amount)
    × (db'.accounts ≡ db.accounts)
    × (db'.seats ≡ db.seats)
    × (db'.audit ≡ db.audit)
Moves account amount db (err _, db') = db' ≡ db

All-IsBefore :
    (r : CreditLedger) (n t : ℕ) (rows : List CreditLedger)
    → r.id ≡ n
    → r.created_at ≡ t
    → All (λ s. (s.id < n) × (s.created_at ≤ t)) rows
    → All (IsBefore r) rows
All-IsBefore r n t [] i c h = tt
All-IsBefore r n t (s ∷ rows) i c h =
    (record { key = omega arith; moment = omega arith }, All-IsBefore r n t rows i c h.1)

All-past_next :
    (n t : ℕ) (rows : List CreditLedger)
    → All (λ s. (s.id < n) × (s.created_at ≤ t)) rows
    → All (λ s. (s.id < n + 1) × (s.created_at ≤ t)) rows
All-past_next n t [] h = tt
All-past_next n t (s ∷ rows) h = ((omega arith, omega arith), All-past_next n t rows h.1)

IsFresh-of_accepted :
    (row : CreditLedger) (rows : List CreditLedger)
    → violates row rows ≡ false
    → (pos 0 ≤ℤ row.balance_after)
      × ((row.reference ≡ "") ⊎ (has_reference row.account row.reference rows ≡ false))
unfolding violates
IsFresh-of_accepted row rows h = (ground arith, ground (arith, str_eq_iff row.reference ""))

-- The database takes a row that continues the ledger, or refuses it and is unchanged.
create_row-Moves :
    (row : CreditLedger) (db : Db)
    → IsValid db
    → row.id ≡ db.next_id
    → row.created_at ≡ db.now
    → row.balance_after ≡ total row.account db.ledger +ℤ row.amount
    → Moves row.account row.amount db (create_row row db)
unfolding create_row
create_row-Moves row db v i c b = elim (Bool-cases (out_of_range row)) [
  | inl out ↦ rw out refl
  | inr inside ↦ elim (Bool-cases (violates row db.ledger)) [
    | inl refused ↦ rw (inside, refused) refl
    | inr accepted ↦
        let (sign, fresh) = IsFresh-of_accepted row db.ledger accepted in
        rw (inside, accepted)
          (
            record {
              rows =
                  (All-IsBefore row db.next_id db.now db.ledger i c v.past, b, sign, fresh, v.rows);
              past = ((omega arith, omega arith), All-past_next db.next_id db.now db.ledger v.past);
            },
            refl,
            refl,
            refl,
            b,
            refl,
            refl,
            refl,
          )
  ]
]

on_integrity_error-Moves :
    (account : ℕ) (amount : ℤ) (reference : String) (e : Error) (db : Db)
    → Moves account amount db (on_integrity_error account reference e db)
unfolding on_integrity_error
on_integrity_error-Moves account amount reference integrity_error db =
    elim (Bool-cases (not (str_eq reference "") && has_reference account reference db.ledger)) [
      | inl known ↦ rw known refl
      | inr unknown ↦ rw unknown refl
    ]
on_integrity_error-Moves account amount reference _ db = refl

pub append_row-Moves :
    (account : ℕ) (kind : Kind) (amount : ℤ) (reason reference : String) (actor : Option ℕ)
    (db : Db)
    → IsValid db
    → Moves account amount db (append_row account kind amount reason reference actor db)
unfolding append_row new_row
append_row-Moves account kind amount reason reference actor db v =
    elim (Bool-cases (ltb_ℤ (balance account db.ledger +ℤ amount) (pos 0))) [
      | inl short ↦ rw short refl
      | inr covered ↦ rw covered (settle (create_row row db) sound)
    ]
  where
    row : CreditLedger
    row = new_row account kind amount reason reference actor db

    sound : Moves account amount db (create_row row db)
    sound =
        create_row-Moves row db v refl refl
          (ap (λ b. b +ℤ amount) (balance-eq-total account db.ledger v.rows))

    settle :
        (r : Result CreditLedger × Db)
        → Moves account amount db r
        → Moves account amount db (finish (on_integrity_error account reference) db r)
    settle (ok a, db') h = h
    settle (err e, db') h = on_integrity_error-Moves account amount reference e db
