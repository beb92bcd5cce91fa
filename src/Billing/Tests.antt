-- ===== src/Billing/Tests.antt =====
-- Rows to run the calls of services/billing/ on.
mod Movements
mod Seating
mod Plans
use revenact_backend.Prelude.{ℕ, String, false, none, some, List, [], ◌∷◌}
use revenact_backend.Prelude.Int.{pos}
use revenact_backend.Billing.Models.{
  Plan, Status, BillingAccount, Kind, CreditLedger, SeatAssignment, Db,
}

abbrev pub team : Plan
team = record {
  code = "team";
  name = "Team";
  seats_included = 5;
  monthly_credits = 40;
  price_cents = 9900;
  is_trial = false;
}

abbrev pub acme : BillingAccount
acme = record {
  id = 1;
  organisation = 7;
  plan = team;
  status = Status.active;
  seats_limit = 2;
  trial_ends_at = none;
  current_period_end = none;
}

abbrev pub opening : CreditLedger
opening = record {
  id = 1;
  account = 1;
  kind = Kind.grant;
  amount = pos 100;
  balance_after = pos 100;
  reason = "opening";
  reference = "plan:1";
  actor = none;
  created_at = 50;
}

abbrev pub first_seat : SeatAssignment
first_seat = record { id = 9; account = 1; membership = 30; allocated_at = 20; released_at = none }

-- One account with a hundred credits and one of its two seats taken.
abbrev pub db : Db
db = record {
  plans = team ∷ [];
  accounts = acme ∷ [];
  ledger = opening ∷ [];
  seats = first_seat ∷ [];
  audit = [];
  now = 60;
  next_id = 10;
}
