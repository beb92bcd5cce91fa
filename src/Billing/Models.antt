-- ===== src/Billing/Models.antt =====
-- services/billing/models.py: the rows, and the database that holds them. Moments are seconds, and
-- rows carry the primary keys that the database gives out. A table is a list, newest row first.
use revenact_backend.Prelude.{ℕ, String, Bool, Option, List}
use revenact_backend.Prelude.Int.{ℤ}

pub record Plan : Type 0 where
  pub code : String
  pub name : String
  pub seats_included : ℕ
  pub monthly_credits : ℕ
  pub price_cents : ℕ
  pub is_trial : Bool

pub data Status : Type 0 where
  trialing active past_due canceled : Status

pub record BillingAccount : Type 0 where
  pub id : ℕ
  pub organisation : ℕ
  pub plan : Plan
  pub status : Status
  pub seats_limit : ℕ
  pub trial_ends_at : Option ℕ
  pub current_period_end : Option ℕ

pub data Kind : Type 0 where
  grant consume refund adjust expire : Kind

pub record CreditLedger : Type 0 where
  pub id : ℕ
  pub account : ℕ
  pub kind : Kind
  pub amount : ℤ
  pub balance_after : ℤ
  pub reason : String
  pub reference : String
  pub actor : Option ℕ
  pub created_at : ℕ

pub record SeatAssignment : Type 0 where
  pub id : ℕ
  pub account : ℕ
  pub membership : ℕ
  pub allocated_at : ℕ
  pub released_at : Option ℕ

-- A value in the metadata of an audit event.
pub data Entry : Type 0 where
  number : ℤ → Entry
  text : String → Entry

pub record AuditEvent : Type 0 where
  pub action : String
  pub organisation : ℕ
  pub actor : Option ℕ
  pub target : ℕ
  pub metadata : List (String × Entry)

-- The tables that this app writes, the clock, and the next primary key.
pub record Db : Type 0 where
  pub plans : List Plan
  pub accounts : List BillingAccount
  pub ledger : List CreditLedger
  pub seats : List SeatAssignment
  pub audit : List AuditEvent
  pub now : ℕ
  pub next_id : ℕ
