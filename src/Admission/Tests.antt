-- ===== src/Admission/Tests.antt =====
-- An organisation of one administrator, of whom a newcomer at its domain asks to be let in.
use revenact_backend.Prelude.{
  String, ◌≡◌, refl, inr, true, false, none, some, [], ◌∷◌, ◌++◌, arith, str_eq, if◌then◌else◌,
  length, strip_end_of, last_part, strip, member, has_code,
}
use revenact_backend.Billing.Models as Models
use revenact_backend.Billing.Seats as Seats
use revenact_backend.Billing.Seats.{count_open, is_open, open_seat}
use revenact_backend.Billing.Seats.Capacity.{IsSeated}
use revenact_backend.Domains as Domains
use revenact_backend.Admission.Rows.{
  active, Role, User, waiting, AccessRequest, VerifiedIdentity, Tables, Site, ok, err, login,
  invalid_handoff, access_request_pending,
}
use revenact_backend.Admission.{first_where, approve}
use revenact_backend.Admission.Codes.{find_user, issue_handoff, redeem_handoff}
use revenact_backend.Admission.Login.{Outside, signed, bad_signature, complete}
use revenact_backend.Admission.Approval.{Admitted, approve-Admitted}
use revenact_backend.Admission.Completed.{SignedIn, complete-SignedIn}
use revenact_backend.Admission.Handoff.{redeem_handoff-issue_handoff}
use revenact_backend.Admission.Ownership.{is_owned, transfer}
use revenact_backend.Admission.Owners.{Transferred, transfer-Transferred}
use revenact_backend.Admission.Seating.{approve-IsSeated}

abbrev trial : Models.Plan
trial = record {
  code = "trial";
  name = "Trial";
  seats_included = 3;
  monthly_credits = 10;
  price_cents = 0;
  is_trial = true;
}

-- Two of three seats are free.
abbrev billing : Models.Db
billing = record {
  plans = trial ∷ [];
  accounts =
      record {
        id = 1;
        organisation = 7;
        plan = trial;
        status = Models.trialing;
        seats_limit = 3;
        trial_ends_at = none;
        current_period_end = none;
      }
      ∷ [];
  ledger = [];
  seats =
      record { id = 9; account = 1; membership = 30; allocated_at = 20; released_at = none } ∷ [];
  audit = [];
  now = 60;
  next_id = 10;
}

abbrev admin : Role
admin = record { id = 4; organisation = 7; permissions = "manage_users" ∷ "view" ∷ [] }

abbrev viewer : Role
viewer = record { id = 5; organisation = 7; permissions = "view" ∷ [] }

abbrev maya : User
maya = record {
  id = 20;
  email = "maya@acme.io";
  name = "Maya";
  organisation = some 7;
  role = some admin;
  is_active = true;
  is_superuser = false;
}

abbrev noor : User
noor = record {
  id = 21;
  email = "noor@acme.io";
  name = "Noor";
  organisation = none;
  role = none;
  is_active = true;
  is_superuser = false;
}

abbrev request : AccessRequest
request = record {
  id = 40;
  organisation = 7;
  user = 21;
  email = "noor@acme.io";
  status = waiting;
  reviewed_at = none;
  reviewed_by = none;
}

abbrev db : Tables
db = record {
  organisations = record { id = 7; is_active = true } ∷ [];
  users = maya ∷ noor ∷ [];
  memberships =
      record {
        id = 30;
        organisation = 7;
        user = 20;
        status = active;
        is_owner = true;
        role = some admin;
        department = none;
        approved_at = none;
        approved_by = none;
      }
      ∷ [];
  requests = request ∷ [];
  invitations = [];
  identities = [];
  domains =
      record {
        id = 1;
        organisation = 7;
        domain = "acme.io";
        verification_status = Domains.verified;
        verification_token = "token-7";
        verified_at = some 5;
      }
      ∷ [];
  events = [];
  billing = billing;
  next_id = 50;
  now = 60;
}

abbrev site : Site
site = record { db = db; setups = []; handoffs = []; issued = 0 }

abbrev world : Domains.World
world = record { resolve = λ resolver domain. none; lower = λ s. s; configured_domains = [] }

-- The provider vouches for Ana, who is not known yet, and for Maya.
abbrev identity : String → VerifiedIdentity
identity code = record {
  provider = "google";
  subject = code;
  email = if str_eq code "code-maya" then "maya@acme.io" else "ana@acme.io";
  email_verified = true;
  name = "";
}

abbrev outside : Outside
outside = record {
  load_state = λ state. if str_eq state "state" then signed "google" "nonce" else bad_signature;
  has_provider = λ provider. str_eq provider "google";
  verify_callback = λ provider code nonce. some (identity code);
  token = λ n. "token";
}

approve-Admitted_example :
    Admitted request maya (some viewer) none db (approve true request maya (some viewer) none db)
approve-Admitted_example = approve-Admitted true request maya (some viewer) none db

billing-IsSeated : IsSeated billing
unfolding count_open is_open open_seat
billing-IsSeated = record { keyed = (tt, tt); within = (omega arith, tt); single = (inr refl, tt) }

approve-IsSeated_example : IsSeated (approve true request maya (some viewer) none db).1.billing
approve-IsSeated_example = approve-IsSeated request maya (some viewer) none db billing-IsSeated

complete-SignedIn_example :
    SignedIn site (complete world outside true "google" "code-ana" "state" site)
complete-SignedIn_example = complete-SignedIn world outside true "google" "code-ana" "state" site

-- The first attempt is made while nobody is on record.
redeem_handoff-issue_handoff_example :
    let issued = (issue_handoff (λ n. "token") maya site).1 in
    let first =
      redeem_handoff "token" (record issued { db = record db { now = 90; users = [] } }) in
    ((issue_handoff (λ n. "token") maya site).0 ≡ ok "token")
    × ((redeem_handoff "token" (record issued { db = record db { now = 100 } })).0 ≡ ok maya)
    × ((redeem_handoff "token" (record first.1 { db = db })).0 ≡ err (login invalid_handoff))
unfolding find_user first_where
redeem_handoff-issue_handoff_example =
    redeem_handoff-issue_handoff (λ n. "token") maya maya site (record db { now = 100 })
      (record db { now = 90; users = [] }) db (omega arith) refl refl

-- Maya hands the organisation to Noor, who has joined.
abbrev two_members : Tables
two_members = record db {
  memberships =
      db.memberships
      ++ record {
        id = 31;
        organisation = 7;
        user = 21;
        status = active;
        is_owner = false;
        role = some viewer;
        department = none;
        approved_at = none;
        approved_by = none;
      }
        ∷ [];
}

transfer-Transferred_example :
    Transferred false 7 21 maya two_members (transfer false 7 21 maya admin two_members)
unfolding is_owned
transfer-Transferred_example =
    transfer-Transferred false 7 21 maya admin two_members ((λ _. (refl, tt)), ((λ _. tt), tt))

-- Ana is told that her request waits, and it is not there.
ana_waits :
    complete world outside true "google" "code-ana" "state" site
    ≡ (err (login access_request_pending), site)
unfolding complete Domains.route_for_email Domains.route_for_domain strip_end_of last_part strip
    member has_code Domains.route_of_records Domains.records_of
ana_waits = refl

maya_enters : (complete world outside true "google" "code-maya" "state" site).0 ≡ ok maya
unfolding complete
maya_enters = refl

noor_joins : length (approve true request maya (some viewer) none db).1.memberships ≡ 2
unfolding approve member Seats.reserve Seats.account_of Seats.is_full Seats.allocate Seats.take_seat
    Seats.create_seat Seats.new_seat open_seat
noor_joins = refl
