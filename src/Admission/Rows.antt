-- ===== src/Admission/Rows.antt =====
-- services/identity/models.py and accounts/models.py: the rows that decide who is let in, and the calls
-- that read and write them.
use revenact_backend.Prelude.{ℕ, String, Bool, Option, List, if◌then◌else◌}
use revenact_backend.Billing.Models.{Db}
use revenact_backend.Billing.Monad as Billing
use revenact_backend.Domains.{OrganizationDomain}

-- `OrganizationMembership.Status`
pub data Standing : Type 0 where
  pending active suspended rejected revoked : Standing

pub record Role : Type 0 where
  pub id : ℕ
  pub organisation : ℕ
  pub permissions : List String

pub record Department : Type 0 where
  pub id : ℕ
  pub organisation : ℕ

pub record Organisation : Type 0 where
  pub id : ℕ
  pub is_active : Bool

pub record User : Type 0 where
  pub id : ℕ
  pub email : String
  pub name : String
  pub organisation : Option ℕ
  pub role : Option Role
  pub is_active : Bool
  pub is_superuser : Bool

pub record OrganizationMembership : Type 0 where
  pub id : ℕ
  pub organisation : ℕ
  pub user : ℕ
  pub status : Standing
  pub is_owner : Bool
  pub role : Option Role
  pub department : Option Department
  pub approved_at : Option ℕ
  pub approved_by : Option ℕ

-- `AccessRequest.Status`
pub data Decision : Type 0 where
  waiting approved declined expired cancelled : Decision

pub record AccessRequest : Type 0 where
  pub id : ℕ
  pub organisation : ℕ
  pub user : ℕ
  pub email : String
  pub status : Decision
  pub reviewed_at : Option ℕ
  pub reviewed_by : Option ℕ

-- `Invitation.Status`
pub data Reply : Type 0 where
  unanswered accepted lapsed withdrawn : Reply

pub record Invitation : Type 0 where
  pub id : ℕ
  pub organisation : ℕ
  pub email : String
  pub role : Role
  pub department : Option Department
  pub status : Reply
  pub invited_by : Option ℕ
  pub expires_at : ℕ
  pub accepted_at : Option ℕ
  pub accepted_by : Option ℕ

pub record Identity : Type 0 where
  pub id : ℕ
  pub user : ℕ
  pub provider : String
  pub provider_user_id : String
  pub email : String
  pub email_verified : Bool
  pub last_used_at : ℕ

-- Who signed in, as the provider says.
pub record VerifiedIdentity : Type 0 where
  pub provider : String
  pub subject : String
  pub email : String
  pub email_verified : Bool
  pub name : String

-- One audit event.
pub record Event : Type 0 where
  pub action : String
  pub actor : ℕ
  pub organisation : Option ℕ
  pub target : ℕ

-- The tables, oldest row first; `billing` is the database of services/billing.
pub record Tables : Type 0 where
  pub organisations : List Organisation
  pub users : List User
  pub memberships : List OrganizationMembership
  pub requests : List AccessRequest
  pub invitations : List Invitation
  pub identities : List Identity
  pub domains : List OrganizationDomain
  pub events : List Event
  pub billing : Db
  pub next_id : ℕ
  pub now : ℕ

-- An entry of the cache, until it expires.
pub record Cached (A : Type 0) : Type 0 where
  pub key : String
  pub value : A
  pub until : ℕ

-- The database, and the cache and the count of the tokens that were issued, which no transaction covers.
pub record Site : Type 0 where
  pub db : Tables
  pub setups : List (Cached VerifiedIdentity)
  pub handoffs : List (Cached ℕ)
  pub issued : ℕ

-- The codes of `OnboardingError` and `LoginError`.
pub data Code : Type 0 where
  personal_email_not_supported domain_not_verified organization_suspended : Code
  access_request_decided invalid_role invalid_department insufficient_permission : Code
  invalid_email already_a_member invitation_decided invitation_email_mismatch invitation_expired
        account_disabled :
      Code
  access_request_pending email_not_verified provider_not_available invalid_state state_expired :
      Code
  provider_rejected invalid_handoff invalid_setup not_owner not_a_member already_owner : Code
  workspace_setup_required : String → Code
  billing : Billing.Code → Code

-- What is raised: an `OnboardingError`, a `LoginError`, or what the ORM or the billing app raises.
pub data Error : Type 0 where
  onboarding login ownership : Code → Error
  from_billing : Billing.Error → Error
  integrity_error : Error

pub data Result (A : Type 0) : Type 0 where
  ok : A → Result A
  err : Error → Result A

-- A call reads and writes a state and may raise.
abbrev pub Call : Type 0 → Type 0 → Type 0
Call S A = S → Result A × S

module _ {S A : Type 0} where
  abbrev pub pure : A → Call S A
  pure a s = (ok a, s)

  abbrev pub raise : Error → Call S A
  raise e s = (err e, s)

  abbrev pub gets : (S → A) → Call S A
  gets f s = (ok (f s), s)

-- The rest of a block runs on what the first call left, unless that raised.
abbrev pub continue : {S A B : Type 0} → (A → Call S B) → Result A × S → Result B × S
continue f (ok a, s) = f a s
continue f (err e, s) = (err e, s)

infixl 5 ◌>>=◌ ◌>>◌
abbrev pub ◌>>=◌ : {S A B : Type 0} → Call S A → (A → Call S B) → Call S B
◌>>=◌ m f s = continue f (m s)

abbrev pub ◌>>◌ : {S A B : Type 0} → Call S A → Call S B → Call S B
m >> k = m >>= λ _. k

abbrev pub raise_if : {S : Type 0} → Bool → Error → Call S (Unit {0})
raise_if c e s = (if c then err e else ok tt, s)

abbrev pub modify : {S : Type 0} → (S → S) → Call S (Unit {0})
modify f s = (ok tt, f s)

-- How a transaction ends: a raise leaves the tables as they were before, and goes to the handler, which
-- says what is raised instead.
abbrev pub finish : {S A : Type 0} → (Error → Error) → S → Result A × S → Result A × S
finish handler before (ok a, after) = (ok a, after)
finish handler before (err e, after) = (err (handler e), before)

abbrev pub atomic : {S A : Type 0} → (Error → Error) → Call S A → Call S A
atomic handler m s = finish handler s (m s)

-- `except BillingError` and `except OnboardingError`, which raise the same code anew.
abbrev pub as_onboarding : Error → Error
as_onboarding (from_billing (Billing.billing code)) = onboarding (billing code)
as_onboarding e = e

abbrev pub as_login : Error → Error
as_login (onboarding code) = login code
as_login e = e

-- `try: ... except ...`, where what was written stays.
abbrev pub recast : {S A : Type 0} → (Error → Error) → Result A × S → Result A × S
recast handler (ok a, s) = (ok a, s)
recast handler (err e, s) = (err (handler e), s)

abbrev pub reraise : {S A : Type 0} → (Error → Error) → Call S A → Call S A
reraise handler m s = recast handler (m s)
