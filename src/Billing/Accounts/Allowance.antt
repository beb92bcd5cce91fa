-- ===== src/Billing/Accounts/Allowance.antt =====
-- `set_seats` never lowers the allowance below the seats in use.
use revenact_backend.Prelude.{
  ℕ, ◌≤◌, ◌<◌, String, ◌≡◌, ◌≢◌, refl, sym, false, Option, some, inl, inr, List, [], ◌∷◌, arith,
  ltb, ◌==◌, is_blank, ==_iff, lt→ltb, All, Bool-cases,
}
use revenact_backend.Prelude.Int.{ℤ, pos, ltb_ℤ, ltb_ℤ-false}
use revenact_backend.Billing.Models.{BillingAccount, AuditEvent, Db}
use revenact_backend.Billing.Monad.{ok, err, billing, seats_in_use, modify}
use revenact_backend.Billing.Keeps.{Keeps, keeps_rules}
use revenact_backend.Billing.Ledger.{find_account, locked, record_event}
use revenact_backend.Billing.Ledger.Calls.{locked_found, find_account-id}
use revenact_backend.Billing.Seats.{count_open, used}
use revenact_backend.Billing.Seats.Capacity.{IsKeyed, IsSeated}
use revenact_backend.Billing.Accounts.{
  replace_account, save_account, store_limit, seats_event, set_seats,
}

module _ (account : BillingAccount) where
  All-replace :
      (P : BillingAccount → Type 0) (accounts : List BillingAccount)
      → P account
      → All P accounts
      → All P (replace_account account accounts)
  unfolding replace_account
  All-replace P [] p h = tt
  All-replace P (a ∷ rest) p h = elim (Bool-cases (a.id == account.id)) [
    | inl same ↦ rw same (p, All-replace P rest p h.1)
    | inr other ↦ rw other (h.0, All-replace P rest p h.1)
  ]

  ids-replace :
      (pk : ℕ) (accounts : List BillingAccount)
      → All (λ b. b.id ≢ pk) accounts
      → All (λ b. b.id ≢ pk) (replace_account account accounts)
  unfolding replace_account
  ids-replace pk [] h = tt
  ids-replace pk (a ∷ rest) h = (ground arith, ids-replace pk rest h.1)

  IsKeyed-replace :
      (accounts : List BillingAccount)
      → IsKeyed accounts
      → IsKeyed (replace_account account accounts)
  unfolding replace_account
  IsKeyed-replace [] h = tt
  IsKeyed-replace (a ∷ rest) h = elim (Bool-cases (a.id == account.id)) [
    | inl same ↦ rw same (
      rw (sym ((==_iff a.id account.id).0 same)) (ids-replace a.id rest h.0),
      IsKeyed-replace rest h.1,
    )
    | inr other ↦ rw other (ids-replace a.id rest h.0, IsKeyed-replace rest h.1)
  ]

  pub find_account-replace :
      (accounts : List BillingAccount) {found : BillingAccount}
      → find_account account.id accounts ≡ some found
      → find_account account.id (replace_account account accounts) ≡ some account
  unfolding find_account replace_account
  find_account-replace [] h = cc
  find_account-replace (a ∷ rest) h = elim (Bool-cases (a.id == account.id)) [
    | inl same ↦ rw same (ground arith)
    | inr other ↦ rw (other, other) (find_account-replace rest (rw other at h))
  ]

store_limit-IsSeated : (limit : ℕ) (row : BillingAccount) → Keeps IsSeated (store_limit limit row)
unfolding store_limit save_account used
store_limit-IsSeated limit row = record {
  at = λ db v. elim (Bool-cases (ltb limit (count_open row.id db.seats))) [
    | inl low ↦ rw low v
    | inr room ↦ elim (Bool-cases (ltb 2147483647 limit)) [
      | inl wide ↦ rw (room, wide) v
      | inr narrow ↦
          let row' : BillingAccount = record row { seats_limit = limit } in
          rw (room, narrow)
            (record {
              keyed = IsKeyed-replace row' db.accounts v.keyed;
              within =
                  All-replace row' (λ a. count_open a.id db.seats ≤ a.seats_limit) db.accounts
                    (ground arith) v.within;
              single = v.single;
            })
    ]
  ];
}

locked-IsSeated : (pk : ℕ) → Keeps IsSeated (locked pk)
unfolding locked
locked-IsSeated pk = record { at = λ db v. ground arith }

record_event-IsSeated : (event : AuditEvent) → Keeps IsSeated (modify (record_event event))
unfolding record_event
record_event-IsSeated event = record {
  at = λ db v. record { keyed = v.keyed; within = v.within; single = v.single };
}

-- `set_seats`, whether it returns or raises, keeps every account within its allowance.
pub set_seats-IsSeated :
    (account : BillingAccount) (limit : ℤ) (reason : String) (actor : Option ℕ) (db : Db)
    → IsSeated db
    → IsSeated (set_seats account limit reason actor db).1
unfolding set_seats
set_seats-IsSeated account limit reason actor db v = (keeps account limit reason actor).at db v
  where
    keeps :
        (account : BillingAccount) (limit : ℤ) (reason : String) (actor : Option ℕ)
        → Keeps IsSeated (set_seats account limit reason actor)
    keeps account limit reason actor =
        search (keeps_rules, store_limit-IsSeated, locked-IsSeated, record_event-IsSeated) depth 8

module _ (account : BillingAccount) (limit : ℕ) (reason : String) (actor : Option ℕ) (db : Db)
    {row : BillingAccount} (found : find_account account.id db.accounts ≡ some row)
    (said : is_blank reason ≡ false) where
  -- A limit below the seats in use is refused, and nothing changes.
  pub set_seats_in_use :
      limit < count_open account.id db.seats
      → set_seats account (pos limit) reason actor db ≡ (err (billing seats_in_use), db)
  unfolding set_seats store_limit used
  set_seats_in_use low =
      rw (nonneg, said, locked_found account.id db found)
        (rw (find_account-id account.id db.accounts found, lt→ltb _ _ low) refl)
    where
      nonneg : ltb_ℤ (pos limit) (pos 0) ≡ false
      nonneg = ltb_ℤ-false (pos limit) (pos 0) (omega arith)

  -- A limit that covers the seats in use and fits its column is stored, on the record with its old and new value, and
  -- the account comes back with it; seats and credits are as they were.
  pub set_seats_granted :
      count_open account.id db.seats ≤ limit
      → limit ≤ 2147483647
      → let row' = record row { seats_limit = limit } in
        set_seats account (pos limit) reason actor db ≡ (
          ok row',
          record db {
            accounts = replace_account row' db.accounts;
            audit = seats_event account row.seats_limit limit reason actor ∷ db.audit;
          },
        )
  unfolding set_seats store_limit used save_account record_event
  set_seats_granted room inside =
      rw (nonneg, said, locked_found account.id db found)
        (rw (find_account-id account.id db.accounts found, fits, narrow)
          (locked_found account.id _ (
            find_account-replace (record row { id = account.id; seats_limit = limit }) db.accounts
              found)))
    where
      nonneg : ltb_ℤ (pos limit) (pos 0) ≡ false
      nonneg = ltb_ℤ-false (pos limit) (pos 0) (omega arith)

      fits : ltb limit (count_open account.id db.seats) ≡ false
      fits = ground arith

      narrow : ltb 2147483647 limit ≡ false
      narrow = ground arith
