-- ===== src/Admission.antt =====
-- services/identity/onboarding.py and context.py: how a verified address becomes a membership.
pub mod Rows
pub mod Newcomers
pub mod Codes
pub mod Routes
pub mod Login
pub mod Grants
pub mod Approval
pub mod Acceptance
pub mod SignIn
pub mod Completed
pub mod Handoff
pub mod Seating
pub mod Ownership
pub mod Owners
mod Tests
use revenact_backend.Prelude.{
  ℕ, ◌+◌, String, Bool, true, false, not, ◌&&◌, ◌||◌, Option, none, some, List, [], ◌∷◌, ◌++◌, map,
  any, ltb, ◌==◌, str_eq, if◌then◌else◌, is_some, keep_if, strip, has_code, split, member,
}
use revenact_backend.Billing.Models.{Db}
use revenact_backend.Billing.Monad as Billing
use revenact_backend.Billing.Seats as Seats
use revenact_backend.Domains as Domains
use revenact_backend.Admission.Rows.{
  Standing, pending, active, suspended, rejected, revoked, Role, Department, Organisation, User,
  OrganizationMembership, Decision, waiting, approved, declined, cancelled, AccessRequest, Reply,
  unanswered, accepted, withdrawn, Invitation, VerifiedIdentity, Event, Tables, Code,
  personal_email_not_supported, domain_not_verified, organization_suspended, access_request_decided,
  invalid_role, invalid_department, insufficient_permission, invitation_decided,
  invitation_email_mismatch, invitation_expired, account_disabled, onboarding, from_billing,
  integrity_error, Result, ok, err, Call, pure, raise, gets, ◌>>=◌, ◌>>◌, raise_if, modify, atomic,
  as_onboarding,
}

unfoldable pub is_live : OrganizationMembership → Bool
is_live m = elim (m.status) [ pending ↦ true | active ↦ true | suspended ↦ true | _ ↦ false ]

unfoldable pub is_active_row : OrganizationMembership → Bool
is_active_row m = elim (m.status) [ active ↦ true | _ ↦ false ]

-- The memberships of a user, and those in one organisation.
unfoldable pub is_of : ℕ → OrganizationMembership → Bool
is_of user m = m.user == user

unfoldable pub is_at : ℕ → ℕ → OrganizationMembership → Bool
unfolding is_of
is_at organisation user m = m.organisation == organisation && is_of user m

unfoldable pub first_where : {A : Type 0} → (A → Bool) → List A → Option A
first_where test [] = none
first_where test (a ∷ rest) = if test a then some a else first_where test rest

unfoldable pub update_where : {A : Type 0} → (A → Bool) → (A → A) → List A → List A
update_where test change = map (λ a. if test a then change a else a)

-- `status != ACTIVE` of the organisation of a row.
unfoldable pub is_inactive : ℕ → Tables → Bool
is_inactive organisation db = any (λ o. o.id == organisation && not o.is_active) db.organisations

unfoldable pub same_organisation : Option ℕ → OrganizationMembership → Bool
same_organisation none m = false
same_organisation (some organisation) m = m.organisation == organisation

-- One live membership is the one; of several, that of the user's column, or the oldest.
unfoldable pub choose : Option ℕ → List OrganizationMembership → Option OrganizationMembership
unfolding first_where same_organisation
choose column [] = none
choose column (m ∷ []) = some m
choose column (m ∷ n ∷ rest) = elim (first_where (same_organisation column) (m ∷ n ∷ rest)) [
  | some chosen ↦ some chosen
  | none ↦ some m
]

-- `active_membership`
unfoldable pub active_membership : User → Tables → Option OrganizationMembership
unfolding choose is_live is_of
active_membership user db =
    choose user.organisation (keep_if (λ m. is_of user.id m && is_live m) db.memberships)

unfoldable pub permissions_of : Option Role → List String
permissions_of none = []
permissions_of (some role) = role.permissions

-- `capabilities_for`
unfoldable pub capabilities_for : User → Tables → List String
unfolding active_membership is_active_row is_inactive permissions_of
capabilities_for user db = elim (active_membership user db) [
  | some m ↦
      if not (is_active_row m) || is_inactive m.organisation db
      then []
      else permissions_of user.role
  | none ↦ elim (user.organisation) [
    | none ↦ permissions_of user.role
    | some organisation ↦ if is_inactive organisation db then [] else permissions_of user.role
  ]
]

-- `granting.issubset(held)`
unfoldable pub is_subset : List String → List String → Bool
is_subset [] held = true
is_subset (p ∷ rest) held = member p held && is_subset rest held

-- `_check_grant`
unfoldable pub is_foreign : ℕ → Option Department → Bool
is_foreign organisation none = false
is_foreign organisation (some d) = not (d.organisation == organisation)

unfoldable pub check_grant : User → ℕ → Option Role → Option Department → Call Tables Role
unfolding is_foreign capabilities_for is_subset
check_grant reviewer organisation none department = raise (onboarding invalid_role)
check_grant reviewer organisation (some role) department = do
  raise_if (not (role.organisation == organisation)) (onboarding invalid_role)
  raise_if (is_foreign organisation department) (onboarding invalid_department)
  held ← gets (capabilities_for reviewer)
  raise_if (not reviewer.is_superuser && not (is_subset role.permissions held))
      (onboarding insufficient_permission)
  pure role

-- A call of the billing app.
unfoldable pub close_billing : {A : Type 0} → Tables → Billing.Result A × Db → Result A × Tables
close_billing db (Billing.ok a, billing) = (ok a, record db { billing = billing })
close_billing db (Billing.err e, billing) = (err (from_billing e), record db { billing = billing })

unfoldable pub in_billing : {A : Type 0} → Billing.Exec A → Call Tables A
unfolding close_billing
in_billing call db = close_billing db (call db.billing)

-- What is written of a membership that is granted.
pub record Grant : Type 0 where
  pub user : ℕ
  pub organisation : ℕ
  pub role : Role
  pub department : Option Department
  pub approver : Option ℕ
  pub at : ℕ

unfoldable pub granted : Grant → OrganizationMembership → OrganizationMembership
granted g m = record m {
  role = some g.role;
  department = g.department;
  approved_at = some g.at;
  approved_by = g.approver;
}

unfoldable pub new_membership : Grant → Tables → OrganizationMembership
new_membership g db = record {
  id = db.next_id;
  organisation = g.organisation;
  user = g.user;
  status = active;
  is_owner = false;
  role = some g.role;
  department = g.department;
  approved_at = some g.at;
  approved_by = g.approver;
}

-- `update_or_create`, with the constraint of one live membership per person and organisation.
unfoldable pub is_active_at : Grant → OrganizationMembership → Bool
unfolding is_at is_active_row
is_active_at g m = is_at g.organisation g.user m && is_active_row m

unfoldable pub create_membership : Bool → Grant → Call Tables OrganizationMembership
unfolding new_membership
create_membership true g db = (err integrity_error, db)
create_membership false g db = (
  ok (new_membership g db),
  record db { memberships = db.memberships ++ new_membership g db ∷ []; next_id = db.next_id + 1 },
)

unfoldable pub update_membership :
    Option OrganizationMembership → Grant → Call Tables OrganizationMembership
unfolding is_at is_live update_where granted create_membership
update_membership (some m) g db = (
  ok (granted g m),
  record db { memberships = update_where (λ n. n.id == m.id) (granted g) db.memberships },
)
update_membership none g db =
    create_membership (any (λ m. is_at g.organisation g.user m && is_live m) db.memberships) g db

unfoldable pub update_or_create : Grant → Call Tables OrganizationMembership
unfolding first_where is_active_at update_membership
update_or_create g db = update_membership (first_where (is_active_at g) db.memberships) g db

-- `User.objects.filter(pk=...).update(organisation=..., role=...)`
unfoldable pub write_columns : Grant → Tables → Tables
unfolding update_where
write_columns g db = record db {
  users =
      update_where (λ u. u.id == g.user)
        (λ (u : User). record u { organisation = some g.organisation; role = some g.role })
        db.users;
}

-- `_grant_membership`, with the signal that a seat follows the membership: `reserve` has just read the
-- account that the signal ensures.
unfoldable pub grant_membership : Bool → Grant → Call Tables OrganizationMembership
unfolding in_billing update_or_create write_columns
grant_membership enforce g = do
  in_billing (Seats.reserve enforce g.organisation)
  membership ← update_or_create g
  in_billing
      (Seats.allocate false (record { id = membership.id; organisation = membership.organisation }))
  modify (write_columns g)
  pure membership

unfoldable pub log : String → ℕ → Option ℕ → ℕ → Tables → Tables
log action actor organisation target db = record db {
  events =
      db.events
      ++ record { action = action; actor = actor; organisation = organisation; target = target }
        ∷ [];
}

unfoldable pub is_waiting : AccessRequest → Bool
is_waiting r = elim (r.status) [ waiting ↦ true | _ ↦ false ]

unfoldable pub decide_request : ℕ → Decision → ℕ → Tables → Tables
unfolding update_where
decide_request request decision reviewer db = record db {
  requests =
      update_where (λ r. r.id == request)
        (λ (r : AccessRequest). record r {
          status = decision;
          reviewed_at = some db.now;
          reviewed_by = some reviewer;
        })
        db.requests;
}

-- The transaction of `approve`: the membership, both columns and the request's own status.
unfoldable pub grant_request :
    Bool → AccessRequest → User → Grant → Call Tables OrganizationMembership
unfolding grant_membership decide_request
grant_request enforce request reviewer g = do
  membership ← grant_membership enforce g
  modify (decide_request request.id approved reviewer.id)
  pure membership

abbrev pub grant_of : AccessRequest → User → Role → Option Department → ℕ → Grant
grant_of request reviewer role department now = record {
  user = request.user;
  organisation = request.organisation;
  role = role;
  department = department;
  approver = some reviewer.id;
  at = now;
}

unfoldable pub grant_checked :
    Bool → AccessRequest → User → Option Department → Role → Call Tables OrganizationMembership
unfolding grant_request log
grant_checked enforce request reviewer department role = do
  now ← gets (λ (db : Tables). db.now)
  membership ←
      atomic as_onboarding
        (grant_request enforce request reviewer (grant_of request reviewer role department now))
  modify (log "access_request.approved" reviewer.id (some request.organisation) request.user)
  pure membership

-- `approve`
unfoldable pub approve :
    Bool
    → AccessRequest
    → User
    → Option Role
    → Option Department
    → Call Tables OrganizationMembership
unfolding is_waiting check_grant grant_checked
approve enforce request reviewer role department = do
  raise_if (not (is_waiting request)) (onboarding access_request_decided)
  role ← check_grant reviewer request.organisation role department
  grant_checked enforce request reviewer department role

-- `reject`
unfoldable pub reject : AccessRequest → User → Call Tables (Unit {0})
unfolding is_waiting decide_request log
reject request reviewer = do
  raise_if (not (is_waiting request)) (onboarding access_request_decided)
  modify (decide_request request.id declined reviewer.id)
  modify (log "access_request.rejected" reviewer.id (some request.organisation) request.user)
