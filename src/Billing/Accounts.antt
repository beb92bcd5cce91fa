-- ===== src/Billing/Accounts.antt =====
-- services/billing/accounts.py: the account behind an organisation, and the plan it is on.
pub mod Allowance
pub mod Plans
use Prim.Native.String.{◌++◌}
use revenact_backend.Prelude.{
  ℕ, ◌+◌, ◌*◌, ◌≤◌, String, Bool, true, false, not, ◌&&◌, Option, none, some, List, [], ◌∷◌, ltb,
  ◌==◌, str_eq, prefix, is_blank, if◌then◌else◌,
}
use revenact_backend.Prelude.Int.{ℤ, pos, ltb_ℤ, pos_part}
use revenact_backend.Billing.Models.{
  Plan, Status, BillingAccount, CreditLedger, AuditEvent, number, text, Db,
}
use revenact_backend.Billing.Monad.{
  Error, billing, data_error, duplicate_reference, invalid_amount, reason_required, seats_in_use,
  Exec, pure, raise, gets, atomic, try_call, ◌>>=◌, ◌>>◌, raise_if, modify,
}
use revenact_backend.Billing.Ledger.{locked, grant, record_event}
use revenact_backend.Billing.Seats.{used, find_by_organisation}

-- The settings that this app reads.
pub record Settings : Type 0 where
  pub trial_seats : ℕ
  pub trial_credits : ℕ
  pub trial_days : ℕ
  pub credits_per_call : ℕ
  pub enforced : Bool

-- How numbers and moments are written into texts.
pub record Format : Type 0 where
  pub number : ℕ → String
  pub stamp : ℕ → String

abbrev pub day : ℕ
day = 86400

unfoldable pub find_plan : String → List Plan → Option Plan
find_plan code [] = none
find_plan code (p ∷ rest) = if str_eq p.code code then some p else find_plan code rest

-- `locked.save()`
unfoldable pub replace_account : BillingAccount → List BillingAccount → List BillingAccount
replace_account account [] = []
replace_account account (a ∷ rest) =
    (if a.id == account.id then account else a) ∷ replace_account account rest

unfoldable pub save_account : BillingAccount → Db → Db
save_account account db = record db { accounts = replace_account account db.accounts }

-- What `change_plan` sets on the account.
unfoldable pub on_plan : BillingAccount → Plan → ℕ → BillingAccount
on_plan account plan now = record account {
  plan = plan;
  seats_limit = plan.seats_included;
  status = if plan.is_trial then Status.trialing else Status.active;
  trial_ends_at = if plan.is_trial then account.trial_ends_at else none;
  current_period_end = if plan.is_trial then account.current_period_end else some (now + 30 * day);
}

-- `except BillingError as exc: if exc.code != "DUPLICATE_REFERENCE": raise`
unfoldable pub pass_duplicate : Error → Exec (Unit {0})
pass_duplicate (billing duplicate_reference) = pure tt
pass_duplicate e = raise e

-- `set_seats`, with the account locked: it cannot go below the seats in use, nor past the column.
unfoldable pub store_limit : ℕ → BillingAccount → Exec BillingAccount
store_limit seats_limit row db =
    if ltb seats_limit (used row db)
    then raise (billing seats_in_use) db
    else if ltb 2147483647 seats_limit
    then raise data_error db
    else pure row (save_account (record row { seats_limit = seats_limit }) db)

unfoldable pub seats_event : BillingAccount → ℕ → ℕ → String → Option ℕ → AuditEvent
seats_event account previous seats_limit reason actor = record {
  action = "billing.seats.changed";
  organisation = account.organisation;
  actor = actor;
  target = account.id;
  metadata =
      ("from", number (pos previous))
      ∷ ("to", number (pos seats_limit))
      ∷ ("reason", text (prefix 200 reason))
      ∷ [];
}

unfoldable pub set_seats : BillingAccount → ℤ → String → Option ℕ → Exec BillingAccount
set_seats account seats_limit reason actor = do
  raise_if (ltb_ℤ seats_limit (pos 0)) (billing invalid_amount)
  raise_if (is_blank reason) (billing reason_required)
  previous ← atomic do row ← locked account.id; store_limit (pos_part seats_limit) row
  modify
      (record_event (seats_event account previous.seats_limit (pos_part seats_limit) reason actor))
  locked account.id

module _ (settings : Settings) (format : Format) where
  unfoldable pub trial_defaults : Plan
  trial_defaults = record {
    code = "trial";
    name = "Trial";
    seats_included = settings.trial_seats;
    monthly_credits = settings.trial_credits;
    price_cents = 0;
    is_trial = true;
  }

  -- `get_or_create(code="trial", defaults=...)`
  unfoldable pub trial_plan : Exec Plan
  trial_plan db = elim (find_plan "trial" db.plans) [
    | some plan ↦ pure plan db
    | none ↦ pure trial_defaults (record db { plans = trial_defaults ∷ db.plans })
  ]

  unfoldable pub trial_account : ℕ → Plan → Db → BillingAccount
  trial_account organisation plan db = record {
    id = db.next_id;
    organisation = organisation;
    plan = plan;
    status = Status.trialing;
    seats_limit = plan.seats_included;
    trial_ends_at = some (db.now + settings.trial_days * day);
    current_period_end = none;
  }

  -- The credits that a new account starts with, granted under a reference of their own.
  unfoldable pub grant_trial : ℕ → Plan → BillingAccount → Exec BillingAccount
  grant_trial organisation plan account = if plan.monthly_credits == 0 then pure account else do
    grant account (pos plan.monthly_credits)
        ("Trial: "
          ++ format.number plan.monthly_credits
          ++ " credits for "
          ++ format.number settings.trial_days
          ++ " days")
        ("trial:" ++ format.number organisation) none
    pure account

  -- `get_or_create(organisation=..., defaults=...)`, and the grant if it created the account.
  unfoldable pub open_account : ℕ → Plan → Exec BillingAccount
  open_account organisation plan db = elim (find_by_organisation organisation db.accounts) [
    | some account ↦ pure account db
    | none ↦
        let account = trial_account organisation plan db in
        grant_trial organisation plan account
          (record db { accounts = account ∷ db.accounts; next_id = db.next_id + 1 })
  ]

  unfoldable pub ensure : ℕ → Exec BillingAccount
  ensure organisation db = elim (find_by_organisation organisation db.accounts) [
    | some account ↦ pure account db
    | none ↦ atomic (do plan ← trial_plan; open_account organisation plan) db
  ]

  -- `reference or f"plan:..."`
  unfoldable pub period_reference : String → BillingAccount → Plan → ℕ → String
  period_reference reference row plan now =
      if str_eq reference ""
      then "plan:" ++ plan.code ++ ":" ++ format.stamp now ++ ":" ++ format.number row.id
      else reference

  -- The grant of this period's credits.
  unfoldable pub period_credits : BillingAccount → Plan → String → Option ℕ → Exec CreditLedger
  period_credits row plan reference actor db =
      grant row (pos plan.monthly_credits)
        (plan.name ++ ": " ++ format.number plan.monthly_credits ++ " credits for this period")
        (period_reference reference row plan db.now) actor db

  -- It is made if the plan has any credits; a repeated reference is let pass.
  unfoldable pub grant_period : BillingAccount → Plan → String → Option ℕ → Exec (Unit {0})
  grant_period row plan reference actor =
      if plan.monthly_credits == 0
      then pure tt
      else try_call (do period_credits row plan reference actor; pure tt) pass_duplicate

  unfoldable pub plan_event : BillingAccount → Plan → String → Option ℕ → AuditEvent
  plan_event account plan reason actor = record {
    action = "billing.plan.changed";
    organisation = account.organisation;
    actor = actor;
    target = account.id;
    metadata =
        ("from", text account.plan.code)
        ∷ ("to", text plan.code)
        ∷ ("seats_limit", number (pos plan.seats_included))
        ∷ ("reason", text (prefix 200 reason))
        ∷ [];
  }

  unfoldable pub change_plan :
      BillingAccount → Plan → Option ℕ → String → String → Exec BillingAccount
  change_plan account plan actor reason reference = do
    atomic do
      row ← locked account.id
      now ← gets (λ db. db.now)
      modify (save_account (on_plan row plan now))
      grant_period (on_plan row plan now) plan reference actor
    modify (record_event (plan_event account plan reason actor))
    locked account.id
