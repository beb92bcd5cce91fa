-- ===== src/Billing/Ledger/Soundness.antt =====
-- Any sequence of calls, on any accounts, keeps the ledger sound.
use revenact_backend.Prelude.{ℕ, ◌+◌, ◌≤◌, ◌<◌, String, ◌≡◌, Option, List, [], ◌∷◌, arith, All}
use revenact_backend.Prelude.Int.{ℤ, pos, ◌≤ℤ◌}
use revenact_backend.Billing.Models.{BillingAccount, Kind, CreditLedger, AuditEvent, Db}
use revenact_backend.Billing.Monad.{does_not_exist, Result, ok, err, modify}
use revenact_backend.Billing.Keeps.{Keeps, Keeps-or_raise, keeps_rules}
use revenact_backend.Billing.Ledger
use revenact_backend.Billing.Ledger.{
  balance, append_row, find_account, record_event, movement, locked, expire_balance,
}
use revenact_backend.Billing.Ledger.Balance.{total, IsLedger, IsValid, balance-eq-total}
use revenact_backend.Billing.Ledger.Movements.{Moves, append_row-Moves}

-- One call of the module, or time that passes between two calls.
pub data Call : Type 0 where
  grant consume refund : BillingAccount → ℤ → String → String → Option ℕ → Call
  adjust : BillingAccount → ℤ → String → Option ℕ → Call
  expire_all : BillingAccount → String → String → Call
  wait : ℕ → Call

-- The database after a call, whether it returned or raised.
unfoldable pub perform : Call → Db → Db
perform (Call.grant account amount reason reference actor) db =
    (Ledger.grant account amount reason reference actor db).1
perform (Call.consume account amount reason reference actor) db =
    (Ledger.consume account amount reason reference actor db).1
perform (Call.refund account amount reason reference actor) db =
    (Ledger.refund account amount reason reference actor db).1
perform (Call.adjust account amount reason actor) db =
    (Ledger.adjust account amount reason actor db).1
perform (Call.expire_all account reason reference) db =
    (Ledger.expire_all account reason reference db).1
perform (Call.wait seconds) db = record db { now = db.now + seconds }

unfoldable pub perform_all : List Call → Db → Db
perform_all [] db = db
perform_all (c ∷ calls) db = perform_all calls (perform c db)

Moves-IsValid :
    (account : ℕ) (amount : ℤ) (db : Db) (r : Result CreditLedger × Db)
    → IsValid db
    → Moves account amount db r
    → IsValid r.1
Moves-IsValid account amount db (ok row, db') v h = h.0
Moves-IsValid account amount db (err e, db') v h = rw h v

append_row-IsValid :
    (account : ℕ) (kind : Kind) (amount : ℤ) (reason reference : String) (actor : Option ℕ)
    → Keeps IsValid (append_row account kind amount reason reference actor)
append_row-IsValid account kind amount reason reference actor = record {
  at = λ db v.
      Moves-IsValid account amount db _ v
        (append_row-Moves account kind amount reason reference actor db v);
}

pub locked-IsValid : (pk : ℕ) → Keeps IsValid (locked pk)
unfolding locked
locked-IsValid pk = record {
  at = λ db v. (Keeps-or_raise {P = IsValid} (find_account pk db.accounts) does_not_exist).at db v;
}

pub record_event-IsValid : (event : AuditEvent) → Keeps IsValid (modify (record_event event))
unfolding record_event
record_event-IsValid event = record { at = λ db v. record { rows = v.rows; past = v.past } }

ruleset ledger_rules = (keeps_rules, append_row-IsValid, locked-IsValid, record_event-IsValid)

pub movement-IsValid :
    (account : BillingAccount) (kind : Kind) (amount : ℤ) (reason reference : String)
    (actor : Option ℕ)
    → Keeps IsValid (movement account kind amount reason reference actor)
unfolding movement
movement-IsValid account kind amount reason reference actor = search ledger_rules

pub grant-IsValid :
    (account : BillingAccount) (amount : ℤ) (reason reference : String) (actor : Option ℕ)
    → Keeps IsValid (Ledger.grant account amount reason reference actor)
unfolding Ledger.grant
grant-IsValid account amount reason reference actor = search (ledger_rules, movement-IsValid)

pub consume-IsValid :
    (account : BillingAccount) (amount : ℤ) (reason reference : String) (actor : Option ℕ)
    → Keeps IsValid (Ledger.consume account amount reason reference actor)
unfolding Ledger.consume
consume-IsValid account amount reason reference actor = search (ledger_rules, movement-IsValid)

adjust-IsValid :
    (account : BillingAccount) (amount : ℤ) (reason : String) (actor : Option ℕ)
    → Keeps IsValid (Ledger.adjust account amount reason actor)
unfolding Ledger.adjust
adjust-IsValid account amount reason actor = search (ledger_rules, movement-IsValid) depth 8

expire_all-IsValid :
    (account : BillingAccount) (reason reference : String)
    → Keeps IsValid (Ledger.expire_all account reason reference)
unfolding Ledger.expire_all expire_balance
expire_all-IsValid account reason reference = search ledger_rules depth 8

All-past_wait :
    (n t d : ℕ) (rows : List CreditLedger)
    → All (λ s. (s.id < n) × (s.created_at ≤ t)) rows
    → All (λ s. (s.id < n) × (s.created_at ≤ t + d)) rows
All-past_wait n t d [] h = tt
All-past_wait n t d (s ∷ rows) h = ((h.0.0, omega arith), All-past_wait n t d rows h.1)

pub total_nonneg :
    (account : ℕ) (rows : List CreditLedger) → IsLedger rows → pos 0 ≤ℤ total account rows
total_nonneg account [] h = omega arith
total_nonneg account (r ∷ rows) h = ground (arith, total_nonneg account rows h.4)

perform-IsValid : (c : Call) (db : Db) → IsValid db → IsValid (perform c db)
unfolding perform
perform-IsValid (Call.grant account amount reason reference actor) db v =
    (grant-IsValid account amount reason reference actor).at db v
perform-IsValid (Call.consume account amount reason reference actor) db v =
    (consume-IsValid account amount reason reference actor).at db v
perform-IsValid (Call.refund account amount reason reference actor) db v =
    unfold Ledger.refund in
    (movement-IsValid account Kind.refund amount reason reference actor).at db v
perform-IsValid (Call.adjust account amount reason actor) db v =
    (adjust-IsValid account amount reason actor).at db v
perform-IsValid (Call.expire_all account reason reference) db v =
    (expire_all-IsValid account reason reference).at db v
perform-IsValid (Call.wait seconds) db v = record {
  rows = v.rows;
  past = All-past_wait db.next_id db.now seconds db.ledger v.past;
}

perform_all-IsValid : (calls : List Call) (db : Db) → IsValid db → IsValid (perform_all calls db)
unfolding perform_all
perform_all-IsValid [] db v = v
perform_all-IsValid (c ∷ calls) db v =
    perform_all-IsValid calls (perform c db) (perform-IsValid c db v)

-- From a sound ledger, after any calls on any accounts, whether they return or raise, the ledger is
-- sound, and the balance that is read for an account is the sum of its movements and not negative.
pub perform_all_sound :
    (calls : List Call) (db : Db) (account : ℕ)
    → IsValid db
    → let rows = (perform_all calls db).ledger in
      IsValid (perform_all calls db)
      × (balance account rows ≡ total account rows)
      × (pos 0 ≤ℤ balance account rows)
perform_all_sound calls db account v =
    let after = perform_all-IsValid calls db v in
    let read = balance-eq-total account (perform_all calls db).ledger after.rows in
    (after, read, rw read (total_nonneg account (perform_all calls db).ledger after.rows))
