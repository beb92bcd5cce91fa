-- ===== src/Billing/Tests/Plans.antt =====
-- The calls of services/billing/accounts.py on concrete rows.
use revenact_backend.Prelude.{refl, inr, true, none, arith}
use revenact_backend.Prelude.Int.{pos}
use revenact_backend.Billing.Seats.{count_open, is_open, open_seat}
use revenact_backend.Billing.Seats.Capacity.{IsSeated}
use revenact_backend.Billing.Accounts.{Settings, Format, set_seats}
use revenact_backend.Billing.Accounts.Allowance.{set_seats-IsSeated}
use revenact_backend.Billing.Tests.{acme, db}

abbrev settings : Settings
settings = record {
  trial_seats = 3;
  trial_credits = 20;
  trial_days = 14;
  credits_per_call = 1;
  enforced = true;
}

-- A format that tells few numbers apart is enough for one run.
abbrev format : Format
format = record { number = λ n. "n"; stamp = λ t. "2026" }

db-IsSeated : IsSeated db
unfolding count_open is_open open_seat
db-IsSeated = record { keyed = (tt, tt); within = (omega arith, tt); single = (inr refl, tt) }

set_seats-IsSeated_example : IsSeated (set_seats acme (pos 0) "fewer" none db).1
set_seats-IsSeated_example = set_seats-IsSeated acme (pos 0) "fewer" none db db-IsSeated
