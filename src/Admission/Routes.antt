-- ===== src/Admission/Routes.antt =====
-- services/identity/login.py: who is signed in, and where the others are sent.
use revenact_backend.Prelude.{
  ℕ, ◌+◌, Bool, true, false, ◌&&◌, Option, none, some, List, [], ◌∷◌, ◌++◌, any, ◌==◌, str_eq,
  if◌then◌else◌, keep_if,
}
use revenact_backend.Domains as Domains
use revenact_backend.Admission.Rows.{
  Standing, active, suspended, User, OrganizationMembership, Identity, Invitation, VerifiedIdentity,
  Tables, Site, personal_email_not_supported, domain_not_verified, account_disabled,
  access_request_pending, login, Result, ok, err, Call, pure, raise, gets, ◌>>=◌, ◌>>◌, raise_if,
  as_login, reraise,
}
use revenact_backend.Admission.{first_where, is_of, log}
use revenact_backend.Admission.Newcomers.{
  normalised, request_access, open_invitation_for, accept_invitation,
}

-- A call on the database within one on the site.
unfoldable pub close_db : {A : Type 0} → Site → Result A × Tables → Result A × Site
close_db site (r, db) = (r, record site { db = db })

unfoldable pub in_db : {A : Type 0} → Call Tables A → Call Site A
unfolding close_db
in_db call site = close_db site (call site.db)

-- `with transaction.atomic():` around a call on the site: the cache keeps what was written to it.
unfoldable pub close_atomic : {A : Type 0} → Site → Result A × Site → Result A × Site
close_atomic before (ok a, after) = (ok a, after)
close_atomic before (err e, after) = (err e, record after { db = before.db })

unfoldable pub db_atomic : {A : Type 0} → Call Site A → Call Site A
unfolding close_atomic
db_atomic call site = close_atomic site (call site)

-- `dict(values_list("organisation_id", "status"))`: the last row of an organisation stands.
unfoldable pub set_status : ℕ → Standing → List (ℕ × Standing) → List (ℕ × Standing)
set_status organisation status [] = (organisation, status) ∷ []
set_status organisation status ((o, s) ∷ rest) =
    let later = set_status organisation status rest in
    if o == organisation then (o, status) ∷ rest else (o, s) ∷ later

unfoldable pub statuses_from :
    List (ℕ × Standing) → List OrganizationMembership → List (ℕ × Standing)
unfolding set_status
statuses_from statuses [] = statuses
statuses_from statuses (m ∷ rest) = statuses_from (set_status m.organisation m.status statuses) rest

unfoldable pub is_active_status : Standing → Bool
is_active_status active = true
is_active_status _ = false

unfoldable pub is_suspended : Standing → Bool
is_suspended suspended = true
is_suspended _ = false

unfoldable pub find_identity : VerifiedIdentity → Tables → Option Identity
unfolding first_where
find_identity info db =
    first_where (λ i. str_eq i.provider info.provider && str_eq i.provider_user_id info.subject)
      db.identities

-- The statuses of a user's memberships by organisation.
unfoldable pub statuses_of : User → Tables → List (ℕ × Standing)
unfolding is_of statuses_from
statuses_of user db = statuses_from [] (keep_if (is_of user.id) db.memberships)

unfoldable pub has_active : List (ℕ × Standing) → Bool
unfolding is_active_status
has_active statuses = any (λ s. is_active_status s.1) statuses

module _ (world : Domains.World) (enforce : Bool) where
  -- `_link_identity`
  unfoldable pub new_identity : User → VerifiedIdentity → Tables → Identity
  unfolding normalised
  new_identity user info db = record {
    id = db.next_id;
    user = user.id;
    provider = info.provider;
    provider_user_id = info.subject;
    email = normalised world info.email;
    email_verified = true;
    last_used_at = db.now;
  }

  unfoldable pub add_identity : User → VerifiedIdentity → Tables → Tables
  unfolding new_identity
  add_identity user info db = record db {
    identities = db.identities ++ new_identity user info db ∷ [];
    next_id = db.next_id + 1;
  }

  unfoldable pub link_if_new : User → VerifiedIdentity → Option Identity → Call Tables (Unit {0})
  unfolding add_identity log
  link_if_new user info (some _) db = (ok tt, db)
  link_if_new user info none db =
      (ok tt, log "identity.linked" user.id user.organisation user.id (add_identity user info db))

  unfoldable pub link_identity : User → VerifiedIdentity → Call Tables (Unit {0})
  unfolding find_identity link_if_new
  link_identity user info db = link_if_new user info (find_identity info db) db

  -- `_accept_if_invited`
  unfoldable pub accept_found : VerifiedIdentity → Option Invitation → Call Site (Option User)
  unfolding in_db accept_invitation link_identity
  accept_found info none = pure none
  accept_found info (some invitation) = do
    user ← in_db (reraise as_login (accept_invitation world enforce invitation info))
    in_db (link_identity user info)
    pure (some user)

  unfoldable pub accept_if_invited : VerifiedIdentity → Call Site (Option User)
  unfolding in_db open_invitation_for accept_found
  accept_if_invited info = do
    invitation ← in_db (gets (open_invitation_for world info.email))
    accept_found info invitation

  -- What the routes of an address lead a member without standing to.
  unfoldable pub route_waiting : VerifiedIdentity → Domains.DomainRoute → Call Site User
  unfolding in_db request_access
  route_waiting info (Domains.verified_by organisation) = do
    in_db (reraise as_login (request_access world info (some organisation)))
    raise (login access_request_pending)
  route_waiting info (Domains.claimed organisation) = do
    in_db (reraise as_login (request_access world info (some organisation)))
    raise (login access_request_pending)
  route_waiting info Domains.personal = raise (login personal_email_not_supported)
  route_waiting info _ = raise (login domain_not_verified)

  unfoldable pub route_of : VerifiedIdentity → Tables → Domains.DomainRoute
  route_of info db = Domains.route_for_email world info.email db.domains

  unfoldable pub wait_unless : VerifiedIdentity → Option User → Call Site User
  unfolding in_db route_of route_waiting
  wait_unless info (some user) = pure user
  wait_unless info none = do route ← in_db (gets (route_of info)); route_waiting info route

  -- No active membership: suspended, invited meanwhile, or sent on again.
  unfoldable pub without_standing : VerifiedIdentity → List (ℕ × Standing) → Call Site User
  unfolding is_suspended accept_if_invited wait_unless
  without_standing info statuses = do
    raise_if (any (λ s. is_suspended s.1) statuses) (login account_disabled)
    invited ← accept_if_invited info
    wait_unless info invited

  unfoldable pub stand : User → VerifiedIdentity → List (ℕ × Standing) → Call Site User
  unfolding has_active without_standing
  stand user info statuses =
      if has_active statuses then pure user else without_standing info statuses

  -- `_require_standing`
  unfoldable pub require_standing : User → VerifiedIdentity → Call Site User
  unfolding in_db statuses_of stand
  require_standing user info =
      if user.is_superuser
      then pure user
      else do statuses ← in_db (gets (statuses_of user)); stand user info statuses
