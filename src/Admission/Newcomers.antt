-- ===== src/Admission/Newcomers.antt =====
-- services/identity/onboarding.py: access requests, invitations and the people behind an address.
use revenact_backend.Prelude.{
  ℕ, ◌+◌, ◌*◌, String, Bool, true, false, not, ◌&&◌, Option, none, some, List, [], ◌∷◌, ◌++◌, any,
  ltb, ◌==◌, str_eq, if◌then◌else◌, strip, has_code, split,
}
use revenact_backend.Domains as Domains
use revenact_backend.Admission.Rows.{
  Role, Department, User, waiting, cancelled, AccessRequest, unanswered, accepted, withdrawn,
  Invitation, VerifiedIdentity, Tables, personal_email_not_supported, domain_not_verified,
  organization_suspended, invitation_decided, invitation_email_mismatch, invitation_expired,
  account_disabled, invalid_email, already_a_member, onboarding, ok, Call, pure, raise, gets, ◌>>=◌,
  ◌>>◌, raise_if, modify, atomic, as_onboarding,
}
use revenact_backend.Admission.{
  is_live, is_at, first_where, update_where, is_inactive, is_waiting, check_grant, grant_membership,
  log,
}

abbrev pub unchanged : {A : Type 0} → A → A
unchanged a = a

-- `status == PENDING and expires_at > now`
unfoldable pub is_unanswered : Invitation → Bool
is_unanswered i = elim (i.status) [ unanswered ↦ true | _ ↦ false ]

unfoldable pub is_open : ℕ → Invitation → Bool
unfolding is_unanswered
is_open now i = is_unanswered i && ltb now i.expires_at

-- `Invitation.TTL_DAYS`, in seconds.
abbrev pub ttl : ℕ
ttl = 7 * 86400

-- `AccessRequest.objects.get_or_create`
unfoldable pub new_request : ℕ → ℕ → String → Tables → AccessRequest
new_request organisation user email db = record {
  id = db.next_id;
  organisation = organisation;
  user = user;
  email = email;
  status = waiting;
  reviewed_at = none;
  reviewed_by = none;
}

unfoldable pub get_or_create_request : ℕ → ℕ → String → Call Tables (AccessRequest × Bool)
unfolding first_where is_waiting new_request
get_or_create_request organisation user email db =
    elim (first_where (λ r. r.organisation == organisation && r.user == user && is_waiting r)
      db.requests) [
        | some r ↦ (ok (r, false), db)
        | none ↦ (
          ok (new_request organisation user email db, true),
          record db {
            requests = db.requests ++ new_request organisation user email db ∷ [];
            next_id = db.next_id + 1;
          },
        )
      ]

unfoldable pub head_of : List String → String
head_of [] = ""
head_of (s ∷ rest) = s

module _ (world : Domains.World) where
  -- `email__iexact`
  unfoldable pub same_email : String → User → Bool
  same_email email user = str_eq (world.lower user.email) (world.lower email)

  -- `identity_info.name or identity_info.email.split("@")[0]`
  unfoldable pub name_of : VerifiedIdentity → String
  unfolding head_of
  name_of info = if str_eq info.name "" then head_of (split 64 info.email) else info.name

  unfoldable pub new_user : VerifiedIdentity → Tables → User
  unfolding name_of
  new_user info db = record {
    id = db.next_id;
    email = world.lower info.email;
    name = name_of info;
    organisation = none;
    role = none;
    is_active = true;
    is_superuser = false;
  }

  -- `_user_for`
  unfoldable pub user_or_new : VerifiedIdentity → Option User → Call Tables User
  unfolding new_user
  user_or_new info (some user) db = (ok user, db)
  user_or_new info none db = (
    ok (new_user info db),
    record db { users = db.users ++ new_user info db ∷ []; next_id = db.next_id + 1 },
  )

  unfoldable pub user_for : VerifiedIdentity → Call Tables User
  unfolding same_email user_or_new first_where
  user_for info db = user_or_new info (first_where (same_email info.email) db.users) db

  -- The transaction of `request_access`: the person, and the request if they are no live member.
  unfoldable pub find_or_request :
      VerifiedIdentity → ℕ → Call Tables (User × Option (AccessRequest × Bool))
  unfolding user_for is_at is_live get_or_create_request
  find_or_request info organisation = do
    user ← user_for info
    held ←
        gets (λ (db : Tables). any (λ m. is_at organisation user.id m && is_live m) db.memberships)
    elim held [
      | true ↦ pure (user, none)
      | false ↦ do
        request ← get_or_create_request organisation user.id info.email
        pure (user, some request)
    ]

  -- What is recorded after it.
  unfoldable pub close_request :
      ℕ → User × Option (AccessRequest × Bool) → Call Tables (User × Option AccessRequest)
  unfolding log
  close_request organisation (user, none) = pure (user, none)
  close_request organisation (user, some (request, false)) = pure (user, some request)
  close_request organisation (user, some (request, true)) = do
    modify (log "access_request.created" user.id (some organisation) user.id)
    pure (user, some request)

  -- `request_access`
  unfoldable pub organisation_or_verified : Option ℕ → VerifiedIdentity → Tables → Option ℕ
  organisation_or_verified (some organisation) info db = some organisation
  organisation_or_verified none info db = Domains.organisation_for_email world info.email db.domains

  unfoldable pub request_at :
      VerifiedIdentity → Option ℕ → Call Tables (User × Option AccessRequest)
  unfolding is_inactive find_or_request close_request
  request_at info none = raise (onboarding domain_not_verified)
  request_at info (some organisation) = do
    inactive ← gets (is_inactive organisation)
    raise_if inactive (onboarding organization_suspended)
    found ← atomic unchanged (find_or_request info organisation)
    close_request organisation found

  unfoldable pub request_access :
      VerifiedIdentity → Option ℕ → Call Tables (User × Option AccessRequest)
  unfolding organisation_or_verified request_at
  request_access info organisation = do
    raise_if (Domains.is_personal world info.email) (onboarding personal_email_not_supported)
    found ← gets (organisation_or_verified organisation info)
    request_at info found

  -- `(email or "").strip().lower()`
  unfoldable pub normalised : String → String
  normalised email = world.lower (strip email)

  -- `open_invitation_for`; the invitations are in the order of `invited_at`.
  unfoldable pub open_invitation_for : String → Tables → Option Invitation
  unfolding normalised is_open is_inactive first_where
  open_invitation_for email db =
      first_where
        (λ i.
          str_eq i.email (normalised email)
          && is_open db.now i
          && not (is_inactive i.organisation db))
        db.invitations

  -- The rows of `_accept_grant` that follow the membership: the invitation, and requests of the person.
  unfoldable pub close_acceptance : Invitation → ℕ → Tables → Tables
  unfolding update_where is_waiting
  close_acceptance invitation user db = record db {
    invitations =
        update_where (λ i. i.id == invitation.id)
          (λ (i : Invitation). record i {
            status = accepted;
            accepted_at = some db.now;
            accepted_by = some user;
          })
          db.invitations;
    requests =
        update_where (λ r. r.user == user && is_waiting r)
          (λ (r : AccessRequest). record r { status = cancelled; reviewed_at = some db.now })
          db.requests;
  }

  unfoldable pub accept_grant : Bool → Invitation → User → Call Tables (Unit {0})
  unfolding grant_membership close_acceptance
  accept_grant enforce invitation user = do
    now ← gets (λ (db : Tables). db.now)
    grant_membership enforce (record {
      user = user.id;
      organisation = invitation.organisation;
      role = invitation.role;
      department = invitation.department;
      approver = invitation.invited_by;
      at = now;
    })
    modify (close_acceptance invitation user.id)

  -- `User.objects.get(pk=...)`
  unfoldable pub reread : User → Tables → User
  unfolding first_where
  reread user db = elim (first_where (λ (u : User). u.id == user.id) db.users) [
    | some u ↦ u
    | none ↦ user
  ]

  -- `accept_invitation`, its transaction first.
  unfoldable pub accept_newcomer : Bool → Invitation → VerifiedIdentity → Call Tables User
  unfolding user_for accept_grant
  accept_newcomer enforce invitation info = do
    user ← user_for info
    raise_if (not user.is_active) (onboarding account_disabled)
    accept_grant enforce invitation user
    pure user

  unfoldable pub accept_open : Bool → Invitation → VerifiedIdentity → Call Tables User
  unfolding accept_newcomer reread log
  accept_open enforce invitation info = do
    user ← atomic as_onboarding (accept_newcomer enforce invitation info)
    user ← gets (reread user)
    modify (log "invitation.accepted" user.id (some invitation.organisation) user.id)
    pure user

  unfoldable pub accept_invitation : Bool → Invitation → VerifiedIdentity → Call Tables User
  unfolding normalised is_open accept_open
  accept_invitation enforce invitation info = do
    raise_if (not (str_eq (normalised info.email) invitation.email))
        (onboarding invitation_email_mismatch)
    now ← gets (λ (db : Tables). db.now)
    raise_if (not (is_open now invitation)) (onboarding invitation_expired)
    accept_open enforce invitation info

  -- `invite`: an open invitation is sent again, and one that expired is refreshed.
  unfoldable pub new_invitation : ℕ → String → Role → Option Department → ℕ → Tables → Invitation
  new_invitation organisation email role department inviter db = record {
    id = db.next_id;
    organisation = organisation;
    email = email;
    role = role;
    department = department;
    status = unanswered;
    invited_by = some inviter;
    expires_at = db.now + ttl;
    accepted_at = none;
    accepted_by = none;
  }

  unfoldable pub refreshed : Role → Option Department → ℕ → Invitation → Invitation
  unfolding is_open
  refreshed role department now i =
      if is_open now i
      then i
      else record i { expires_at = now + ttl; role = role; department = department }

  unfoldable pub get_or_invite :
      ℕ → String → Role → Option Department → ℕ → Call Tables (Invitation × Bool)
  unfolding first_where is_unanswered update_where new_invitation refreshed
  get_or_invite organisation email role department inviter db =
      elim (first_where
        (λ i. i.organisation == organisation && str_eq i.email email && is_unanswered i)
        db.invitations) [
          | some i ↦ (
            ok (refreshed role department db.now i, false),
            record db {
              invitations =
                  update_where (λ j. j.id == i.id) (refreshed role department db.now)
                    db.invitations;
            },
          )
          | none ↦ (
            ok (new_invitation organisation email role department inviter db, true),
            record db {
              invitations =
                  db.invitations
                  ++ new_invitation organisation email role department inviter db ∷ [];
              next_id = db.next_id + 1;
            },
          )
        ]

  -- `existing_member`
  unfoldable pub has_member : ℕ → String → Tables → Bool
  unfolding same_email is_at is_live
  has_member organisation email db =
      any
        (λ u.
          same_email email u && any (λ m. is_at organisation u.id m && is_live m) db.memberships)
        db.users

  unfoldable pub invite :
      ℕ → String → Option Role → Option Department → User → Call Tables (Invitation × Bool)
  unfolding normalised check_grant has_member get_or_invite log
  invite organisation email role department inviter = do
    raise_if (not (has_code 64 (normalised email))) (onboarding invalid_email)
    role ← check_grant inviter organisation role department
    held ← gets (has_member organisation (normalised email))
    raise_if held (onboarding already_a_member)
    (invitation, created) ←
        atomic unchanged (get_or_invite organisation (normalised email) role department inviter.id)
    modify (
        log (if created then "invitation.created" else "invitation.resent") inviter.id
          (some organisation) invitation.id)
    pure (invitation, created)

-- `cancel_invitation`
unfoldable pub cancel_invitation : Invitation → User → Call Tables (Unit {0})
unfolding is_unanswered update_where log
cancel_invitation invitation actor = do
  raise_if (not (is_unanswered invitation)) (onboarding invitation_decided)
  modify (λ (db : Tables). record db {
    invitations =
        update_where (λ i. i.id == invitation.id)
          (λ (i : Invitation). record i { status = withdrawn }) db.invitations;
  })
  modify (log "invitation.cancelled" actor.id (some invitation.organisation) invitation.id)
