-- ===== src/Billing/Accounts/Plans.antt =====
-- `change_plan` is one transaction, and its credits are granted once for a reference.
use revenact_backend.Prelude.{ℕ, String, ◌≡◌, Option, some, ◌⊎◌, ◌∷◌, ◌+◌, none, if◌then◌else◌}
use revenact_backend.Prelude.Int.{pos}
use revenact_backend.Billing.Models.{Plan, Status, BillingAccount, CreditLedger, Db}
use revenact_backend.Billing.Monad.{duplicate_reference, Result, ok, err, billing}
use revenact_backend.Billing.Ledger.Balance.{IsValid}
use revenact_backend.Billing.Accounts.{Settings, Format, replace_account, plan_event}

-- How the period's grant of a plan change ended, from `db`, where the grant itself is `r`: with one
-- more row of the plan's credits; with none, as the plan has no credits or the reference is on
-- record; or with a raise.
abbrev pub Grants : ℕ → Plan → Db → Result CreditLedger × Db → Result (Unit {0}) × Db → Type 0
Grants account plan db r (ok _, db') =
    IsValid db'
    × (db'.accounts ≡ db.accounts)
    × (db'.seats ≡ db.seats)
    × (db'.audit ≡ db.audit)
    × ((db'.ledger ≡ db.ledger)
          × ((plan.monthly_credits ≡ 0) ⊎ (r.0 ≡ err (billing duplicate_reference)))
        ⊎ ((row : CreditLedger) × (db'.ledger ≡ row ∷ db.ledger)
            × (row.account ≡ account)
            × (row.amount ≡ pos plan.monthly_credits)))
Grants account plan db r (err _, db') = Unit

-- `account'` is the account `row` with the plan, its allowance of seats, and the status and the dates that
-- follow from it: a trial keeps its dates, and any other plan starts a period of thirty days.
abbrev pub IsOnPlan : BillingAccount → Plan → ℕ → BillingAccount → Type 0
IsOnPlan row plan now account' =
    (account'.id ≡ row.id)
    × (account'.organisation ≡ row.organisation)
    × (account'.plan ≡ plan)
    × (account'.seats_limit ≡ plan.seats_included)
    × (account'.status ≡ (if plan.is_trial then Status.trialing else Status.active))
    × (account'.trial_ends_at ≡ (if plan.is_trial then row.trial_ends_at else none))
    × (account'.current_period_end
        ≡ (if plan.is_trial then row.current_period_end else some (now + 2592000)))

-- How a plan change that began at `db` ended, where `row` is the account as it was and `r` the
-- grant of the credits.
abbrev pub Changes :
    Settings
    → Format
    → BillingAccount
    → BillingAccount
    → Plan
    → Option ℕ
    → String
    → Result CreditLedger × Db
    → Db
    → Result BillingAccount × Db
    → Type 0
Changes settings format account row plan actor reason r db (ok account', db') =
    IsValid db'
    × IsOnPlan row plan db.now account'
    × (db'.accounts ≡ replace_account account' db.accounts)
    × (db'.audit ≡ plan_event settings format account plan reason actor ∷ db.audit)
    × (db'.seats ≡ db.seats)
    × ((db'.ledger ≡ db.ledger)
          × ((plan.monthly_credits ≡ 0) ⊎ (r.0 ≡ err (billing duplicate_reference)))
        ⊎ ((entry : CreditLedger) × (db'.ledger ≡ entry ∷ db.ledger)
            × (entry.account ≡ row.id)
            × (entry.amount ≡ pos plan.monthly_credits)))
Changes settings format account row plan actor reason r db (err _, db') = db' ≡ db
