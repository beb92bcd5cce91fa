-- ===== src/Billing/Ledger.antt =====
-- services/billing/ledger.py: every credit movement locks the account row, reads the last balance
-- and appends one row. The lock makes movements on an account follow one another, so a call is one
-- step on the database.
pub mod Balance
pub mod Movements
pub mod Effects
pub mod References
pub mod Outcomes
pub mod Soundness
pub mod Later
pub mod Calls
use revenact_backend.Prelude.{
  ℕ, ◌+◌, String, Bool, false, not, ◌&&◌, ◌||◌, Option, none, some, List, [], ◌∷◌, ltb, ◌==◌,
  str_eq, prefix, is_blank, if◌then◌else◌,
}
use revenact_backend.Prelude.Int.{ℤ, pos, negsuc, ◌+ℤ◌, ◌-ℤ◌, ltb_ℤ, leb_ℤ, eqb_ℤ}
use revenact_backend.Billing.Models.{
  BillingAccount, Kind, CreditLedger, AuditEvent, number, text, Db,
}
use revenact_backend.Billing.Monad.{
  insufficient_credits, duplicate_reference, invalid_amount, reason_required, Error, billing,
  integrity_error, data_error, does_not_exist, ok, err, Exec, pure, gets, or_raise, atomic,
  try_atomic, ◌>>=◌, ◌>>◌, raise_if, modify,
}

-- `order_by("-created_at", "-id")`: `s` comes before `r`.
unfoldable pub comes_first : CreditLedger → CreditLedger → Bool
comes_first s r = ltb r.created_at s.created_at || (s.created_at == r.created_at && ltb r.id s.id)

unfoldable pub newer : CreditLedger → Option CreditLedger → CreditLedger
unfolding comes_first
newer r none = r
newer r (some s) = if comes_first s r then s else r

-- The account's row that the ordering puts first.
unfoldable pub latest : ℕ → List CreditLedger → Option CreditLedger
unfolding newer
latest account [] = none
latest account (r ∷ rows) =
    let rest = latest account rows in if r.account == account then some (newer r rest) else rest

unfoldable pub balance : ℕ → List CreditLedger → ℤ
balance account rows = elim (latest account rows) [ none ↦ pos 0 | some r ↦ r.balance_after ]

-- `filter(account=account, reference=reference).exists()`
unfoldable pub has_reference : ℕ → String → List CreditLedger → Bool
has_reference account reference [] = false
has_reference account reference (r ∷ rows) =
    (r.account == account && str_eq r.reference reference) || has_reference account reference rows

-- The range of an integer column.
unfoldable pub fits_column : ℤ → Bool
fits_column n = leb_ℤ (negsuc 2147483647) n && leb_ℤ n (pos 2147483647)

unfoldable pub out_of_range : CreditLedger → Bool
unfolding fits_column
out_of_range row = not (fits_column row.amount && fits_column row.balance_after)

-- The check constraint or the unique constraint of the table refuses the row.
unfoldable pub violates : CreditLedger → List CreditLedger → Bool
violates row rows =
    ltb_ℤ row.balance_after (pos 0)
    || (not (str_eq row.reference "") && has_reference row.account row.reference rows)

-- `CreditLedger.objects.create`
unfoldable pub create_row : CreditLedger → Exec CreditLedger
create_row row db =
    if out_of_range row
    then (err data_error, db)
    else if violates row db.ledger
    then (err integrity_error, db)
    else (ok row, record db { ledger = row ∷ db.ledger; next_id = db.next_id + 1 })

-- `except IntegrityError`: a reference that is on record becomes DUPLICATE_REFERENCE.
unfoldable pub on_integrity_error : ℕ → String → Error → Exec CreditLedger
on_integrity_error account reference integrity_error db =
    if not (str_eq reference "") && has_reference account reference db.ledger
    then (err (billing duplicate_reference), db)
    else (err integrity_error, db)
on_integrity_error account reference e db = (err e, db)

-- The row that `_append` writes, with its texts cut to their columns.
unfoldable pub new_row : ℕ → Kind → ℤ → String → String → Option ℕ → Db → CreditLedger
new_row account kind amount reason reference actor db = record {
  id = db.next_id;
  account = account;
  kind = kind;
  amount = amount;
  balance_after = balance account db.ledger +ℤ amount;
  reason = prefix 255 reason;
  reference = prefix 160 reference;
  actor = actor;
  created_at = db.now;
}

-- `_append`
unfoldable pub append_row : ℕ → Kind → ℤ → String → String → Option ℕ → Exec CreditLedger
append_row account kind amount reason reference actor db =
    let row = new_row account kind amount reason reference actor db in
    if ltb_ℤ (balance account db.ledger +ℤ amount) (pos 0)
    then (err (billing insufficient_credits), db)
    else try_atomic (create_row row) (on_integrity_error account reference) db

unfoldable pub find_account : ℕ → List BillingAccount → Option BillingAccount
find_account pk [] = none
find_account pk (a ∷ rest) = if a.id == pk then some a else find_account pk rest

-- `_locked`
unfoldable pub locked : ℕ → Exec BillingAccount
unfolding find_account
locked pk db = or_raise (find_account pk db.accounts) does_not_exist db

-- The transaction that all movements share.
unfoldable pub movement : BillingAccount → Kind → ℤ → String → String → Option ℕ → Exec CreditLedger
movement account kind amount reason reference actor =
    atomic do row ← locked account.id; append_row row.id kind amount reason reference actor

unfoldable pub grant : BillingAccount → ℤ → String → String → Option ℕ → Exec CreditLedger
grant account amount reason reference actor = do
  raise_if (leb_ℤ amount (pos 0)) (billing invalid_amount)
  movement account Kind.grant amount reason reference actor

unfoldable pub consume : BillingAccount → ℤ → String → String → Option ℕ → Exec CreditLedger
consume account amount reason reference actor = do
  raise_if (leb_ℤ amount (pos 0)) (billing invalid_amount)
  movement account Kind.consume (pos 0 -ℤ amount) reason reference actor

unfoldable pub refund : BillingAccount → ℤ → String → String → Option ℕ → Exec CreditLedger
refund account amount reason reference actor =
    movement account Kind.refund amount reason reference actor

-- What `adjust` puts on the audit trail.
unfoldable pub adjusted_event : BillingAccount → ℤ → String → Option ℕ → CreditLedger → AuditEvent
adjusted_event account amount reason actor row = record {
  action = "billing.credits.adjusted";
  organisation = account.organisation;
  actor = actor;
  target = account.id;
  metadata =
      ("amount", number amount)
      ∷ ("balance_after", number row.balance_after)
      ∷ ("reason", text (prefix 200 reason))
      ∷ [];
}

-- `audit.record`, with the metadata as it is given: none of these keys is dropped there.
unfoldable pub record_event : AuditEvent → Db → Db
record_event event db = record db { audit = event ∷ db.audit }

unfoldable pub adjust : BillingAccount → ℤ → String → Option ℕ → Exec CreditLedger
unfolding record_event
adjust account amount reason actor = do
  raise_if (eqb_ℤ amount (pos 0)) (billing invalid_amount)
  raise_if (is_blank reason) (billing reason_required)
  row ← movement account Kind.adjust amount reason "" actor
  modify (record_event (adjusted_event account amount reason actor row))
  pure row

-- The movement that brings a positive balance to zero, or none.
unfoldable pub expire_balance : ℕ → ℤ → String → String → Exec (Option CreditLedger)
expire_balance account current reason reference = if leb_ℤ current (pos 0) then pure none else do
  row ← append_row account Kind.expire (pos 0 -ℤ current) reason reference none
  pure (some row)

unfoldable pub expire_all : BillingAccount → String → String → Exec (Option CreditLedger)
unfolding expire_balance
expire_all account reason reference = atomic do
  row ← locked account.id
  current ← gets (λ db. balance row.id db.ledger)
  expire_balance row.id current reason reference
