-- ===== src/Billing/Ledger/Later.antt =====
-- What stays on the ledger, whatever is called later.
use revenact_backend.Prelude.{
  ℕ, suc, zero, String, ◌≡◌, ◌≢◌, refl, sym, ap, ◌∙◌, true, false, Option, some, List, [], ◌∷◌, inl,
  inr, arith, str_eq, str_eq_iff, prefix, Bool-cases, All,
}
use revenact_backend.Prelude.Int.{ℤ, pos, ◌+ℤ◌, ◌≤ℤ◌, ltb_ℤ}
use revenact_backend.Billing.Models.{BillingAccount, Kind, CreditLedger, AuditEvent, Db}
use revenact_backend.Billing.Monad.{Error, integrity_error, does_not_exist, ok, err, modify}
use revenact_backend.Billing.Keeps.{Keeps, Keeps-or_raise, Keeps-try_atomic, keeps_rules}
use revenact_backend.Billing.Ledger
use revenact_backend.Billing.Ledger.{
  balance, has_reference, out_of_range, violates, create_row, on_integrity_error, new_row,
  append_row, find_account, record_event, movement, locked, expire_balance,
}
use revenact_backend.Billing.Ledger.References.{
  movement_ok, movement_known, movement_cut, on_integrity_error_raises,
}
use revenact_backend.Billing.Ledger.Soundness.{Call, perform, perform_all}

-- A text that was cut to its column is as it was.
prefix-prefix : (n : ℕ) (s : String) → prefix n (prefix n s) ≡ prefix n s
unfolding prefix
prefix-prefix zero s = refl
prefix-prefix (suc n) String.[] = refl
prefix-prefix (suc n) (String.◌∷◌ c s) = ap (String.◌∷◌ c) (prefix-prefix n s)

-- A property of the rows that holds on.
record Stays (L : List CreditLedger → Type 0) (db : Db) : Type 0 where
  rows : L db.ledger

module _ (L : List CreditLedger → Type 0)
    (grows : (row : CreditLedger) (rows : List CreditLedger)
      → prefix 160 row.reference ≡ row.reference
      → L rows
      → L (row ∷ rows)) where
  create_row-Stays :
      (row : CreditLedger)
      → prefix 160 row.reference ≡ row.reference
      → Keeps (Stays L) (create_row row)
  unfolding create_row
  create_row-Stays row short = record {
    at = λ db h. elim (Bool-cases (out_of_range row)) [
      | inl out ↦ rw out h
      | inr inside ↦ elim (Bool-cases (violates row db.ledger)) [
        | inl refused ↦ rw (inside, refused) h
        | inr accepted ↦ rw (inside, accepted) (record { rows = grows row db.ledger short h.rows })
      ]
    ];
  }

  on_integrity_error-Stays :
      (account : ℕ) (reference : String) (e : Error)
      → Keeps (Stays L) (on_integrity_error account reference e)
  on_integrity_error-Stays account reference e = record {
    at = λ db h. let (e', raised) = on_integrity_error_raises account reference e db in rw raised h;
  }

  append_row-Stays :
      (account : ℕ) (kind : Kind) (amount : ℤ) (reason reference : String) (actor : Option ℕ)
      → Keeps (Stays L) (append_row account kind amount reason reference actor)
  unfolding append_row
  append_row-Stays account kind amount reason reference actor = record {
    at = λ db h. elim (Bool-cases (ltb_ℤ (balance account db.ledger +ℤ amount) (pos 0))) [
      | inl short ↦ rw short h
      | inr covered ↦ rw covered (
          (Keeps-try_atomic (create_row (new_row account kind amount reason reference actor db))
              (on_integrity_error account reference)
              (create_row-Stays (new_row account kind amount reason reference actor db)
                (unfold new_row in prefix-prefix 160 reference))
              (on_integrity_error-Stays account reference)).at
            db h)
    ];
  }

  locked-Stays : (pk : ℕ) → Keeps (Stays L) (locked pk)
  unfolding locked
  locked-Stays pk = record {
    at =
        λ db h. (Keeps-or_raise {P = Stays L} (find_account pk db.accounts) does_not_exist).at db h;
  }

  record_event-Stays : (event : AuditEvent) → Keeps (Stays L) (modify (record_event event))
  unfolding record_event
  record_event-Stays event = record { at = λ db h. record { rows = h.rows } }

ruleset stays_rules = (keeps_rules, append_row-Stays, locked-Stays, record_event-Stays)

module _ (L : List CreditLedger → Type 0)
    (grows : (row : CreditLedger) (rows : List CreditLedger)
      → prefix 160 row.reference ≡ row.reference
      → L rows
      → L (row ∷ rows)) where
  movement-Stays :
      (account : BillingAccount) (kind : Kind) (amount : ℤ) (reason reference : String)
      (actor : Option ℕ)
      → Keeps (Stays L) (movement account kind amount reason reference actor)
  unfolding movement
  movement-Stays account kind amount reason reference actor = search stays_rules

  grant-Stays :
      (account : BillingAccount) (amount : ℤ) (reason reference : String) (actor : Option ℕ)
      → Keeps (Stays L) (Ledger.grant account amount reason reference actor)
  unfolding Ledger.grant
  grant-Stays account amount reason reference actor = search (stays_rules, movement-Stays)

  consume-Stays :
      (account : BillingAccount) (amount : ℤ) (reason reference : String) (actor : Option ℕ)
      → Keeps (Stays L) (Ledger.consume account amount reason reference actor)
  unfolding Ledger.consume
  consume-Stays account amount reason reference actor = search (stays_rules, movement-Stays)

  adjust-Stays :
      (account : BillingAccount) (amount : ℤ) (reason : String) (actor : Option ℕ)
      → Keeps (Stays L) (Ledger.adjust account amount reason actor)
  unfolding Ledger.adjust
  adjust-Stays account amount reason actor = search (stays_rules, movement-Stays) depth 8

  expire_all-Stays :
      (account : BillingAccount) (reason reference : String)
      → Keeps (Stays L) (Ledger.expire_all account reason reference)
  unfolding Ledger.expire_all expire_balance
  expire_all-Stays account reason reference = search stays_rules depth 8

  perform-Stays : (c : Call) (db : Db) → Stays L db → Stays L (perform c db)
  unfolding perform
  perform-Stays (Call.grant account amount reason reference actor) db h =
      (grant-Stays account amount reason reference actor).at db h
  perform-Stays (Call.consume account amount reason reference actor) db h =
      (consume-Stays account amount reason reference actor).at db h
  perform-Stays (Call.refund account amount reason reference actor) db h =
      unfold Ledger.refund in
      (movement-Stays account Kind.refund amount reason reference actor).at db h
  perform-Stays (Call.adjust account amount reason actor) db h =
      (adjust-Stays account amount reason actor).at db h
  perform-Stays (Call.expire_all account reason reference) db h =
      (expire_all-Stays account reason reference).at db h
  perform-Stays (Call.wait seconds) db h = record { rows = h.rows }

  -- What holds of the rows and of one more holds after any calls.
  perform_all-Stays : (calls : List Call) (db : Db) → L db.ledger → L (perform_all calls db).ledger
  unfolding perform_all
  perform_all-Stays calls db h = (all calls db (record { rows = h })).rows
    where
      all : (calls : List Call) (db : Db) → Stays L db → Stays L (perform_all calls db)
      all [] db h = h
      all (c ∷ calls) db h = all calls (perform c db) (perform-Stays c db h)

has_reference_head :
    (account : BillingAccount) (kind : Kind) (amount : ℤ) (reason reference : String)
    (actor : Option ℕ) (db db' : Db) {written : CreditLedger}
    → movement account kind amount reason reference actor db ≡ (ok written, db')
    → has_reference account.id (prefix 160 reference) db'.ledger ≡ true
unfolding new_row
has_reference_head account kind amount reason reference actor db db' h =
    rw (movement_ok account kind amount reason reference actor db db' h) (
      unfold has_reference in
      ground (arith, str_eq_iff (prefix 160 reference) (prefix 160 reference)))

-- A reference that is on record stays on record.
has_reference_stays :
    (account : ℕ) (reference : String) (calls : List Call) (db : Db)
    → has_reference account reference db.ledger ≡ true
    → has_reference account reference (perform_all calls db).ledger ≡ true
has_reference_stays account reference calls db known =
    perform_all-Stays (λ rows. has_reference account reference rows ≡ true)
      (λ row rows short h. unfold has_reference in ground arith) calls db known

-- Once a movement with a reference has returned, and after any calls on any accounts since then, a
-- movement of the account with that reference raises and changes nothing, whatever its kind, amount,
-- reason and actor.
pub movement_once :
    (account : BillingAccount) (kind kind' : Kind) (amount amount' : ℤ)
    (reason reason' reference : String) (actor actor' : Option ℕ) (db db' : Db)
    {written : CreditLedger} (calls : List Call)
    → prefix 160 reference ≢ ""
    → movement account kind amount reason reference actor db ≡ (ok written, db')
    → (e : Error) × (movement account kind' amount' reason' reference actor' (perform_all calls db')
        ≡ (err e, perform_all calls db'))
movement_once account kind kind' amount amount' reason reason' reference actor actor' db db' calls
      named h =
    movement_known account kind' amount' reason' reference actor' (perform_all calls db') named (
      has_reference_stays account.id (prefix 160 reference) calls db'
        (has_reference_head account kind amount reason reference actor db db' h))

-- Every reference on record was cut to its column.
abbrev pub IsCut : List CreditLedger → Type 0
IsCut rows = All (λ (r : CreditLedger). prefix 160 r.reference ≡ r.reference) rows

-- A reference that is longer than its column is not on record.
has_reference_long :
    (account : ℕ) (reference : String) (rows : List CreditLedger)
    → prefix 160 reference ≢ reference
    → IsCut rows
    → has_reference account reference rows ≡ false
unfolding has_reference
has_reference_long account reference [] long cut = refl
has_reference_long account reference (r ∷ rows) long cut =
    elim (Bool-cases (str_eq r.reference reference)) [
      | inl same ↦
          let e = (str_eq_iff r.reference reference).0 same in
          absurd (long (ap (prefix 160) (sym e) ∙ cut.0 ∙ e))
      | inr other ↦ let rest = has_reference_long account reference rows long cut.1 in ground arith
    ]

prefix_long : (n : ℕ) (s : String) → prefix (suc n) s ≢ s → prefix (suc n) s ≢ ""
unfolding prefix
prefix_long n String.[] long e = long refl
prefix_long n (String.◌∷◌ c s) long e = cc e

-- Once a movement with a reference that is longer than its column has returned, on a ledger whose
-- references fit in the column, and after any calls on any accounts since then, a movement of the
-- account with that reference, which the balance covers and whose numbers fit in their columns, raises
-- the database's own integrity error and not DUPLICATE_REFERENCE, and changes nothing.
pub movement_repeated_long :
    (account : BillingAccount) (kind kind' : Kind) (amount amount' : ℤ)
    (reason reason' reference : String) (actor actor' : Option ℕ) (db db' : Db)
    {written : CreditLedger} (calls : List Call) {row : BillingAccount}
    → IsCut db.ledger
    → prefix 160 reference ≢ reference
    → movement account kind amount reason reference actor db ≡ (ok written, db')
    → find_account account.id (perform_all calls db').accounts ≡ some row
    → pos 0 ≤ℤ balance account.id (perform_all calls db').ledger +ℤ amount'
    → out_of_range
        (new_row account.id kind' amount' reason' reference actor' (perform_all calls db'))
      ≡ false
    → movement account kind' amount' reason' reference actor' (perform_all calls db')
      ≡ (err integrity_error, perform_all calls db')
movement_repeated_long account kind kind' amount amount' reason reason' reference actor actor' db
      db' calls cut long h found covered inside =
    movement_cut account kind' amount' reason' reference actor' (perform_all calls db') found
      covered inside (prefix_long 159 reference long)
      (has_reference_stays account.id (prefix 160 reference) calls db'
        (has_reference_head account kind amount reason reference actor db db' h))
      (has_reference_long account.id reference (perform_all calls db').ledger long
        (perform_all-Stays IsCut (λ row rows short h. (short, h)) calls db' written_cut))
  where
    written_cut : IsCut db'.ledger
    written_cut =
        rw (movement_ok account kind amount reason reference actor db db' h)
          (unfold new_row in (prefix-prefix 160 reference, cut))
