-- ===== src/Admission/Login.antt =====
-- services/identity/login.py: from a provider's answer to the person who is signed in.
use revenact_backend.Prelude.{ℕ, String, Bool, not, Option, none, some, ◌==◌, str_eq, if◌then◌else◌}
use revenact_backend.Domains as Domains
use revenact_backend.Admission.Rows.{
  User, Identity, VerifiedIdentity, Tables, Site, personal_email_not_supported, domain_not_verified,
  account_disabled, access_request_pending, email_not_verified, provider_not_available,
  invalid_state, state_expired, provider_rejected, workspace_setup_required, login, Call, pure,
  raise, gets, ◌>>=◌, ◌>>◌, raise_if, modify, as_login, reraise,
}
use revenact_backend.Admission.{first_where, update_where}
use revenact_backend.Admission.Newcomers.{same_email, request_access}
use revenact_backend.Admission.Codes.{find_user, issue_setup}
use revenact_backend.Admission.Routes.{
  in_db, db_atomic, find_identity, link_identity, accept_if_invited, route_of, require_standing,
}

-- What a state token was signed over, or why it is refused.
pub data State : Type 0 where
  signed : String → String → State
  too_old bad_signature : State

-- What comes from libraries and from the providers: `signing.loads` of a state, the keys of the
-- providers, what a provider says of a code and a nonce (none where it refuses), and
-- `secrets.token_urlsafe`.
pub record Outside : Type 0 where
  pub load_state : String → State
  pub has_provider : String → Bool
  pub verify_callback : String → String → String → Option VerifiedIdentity
  pub token : ℕ → String

module _ (world : Domains.World) (outside : Outside) (enforce : Bool) where
  -- `_route_newcomer`
  unfoldable pub request_and_wait : VerifiedIdentity → ℕ → Call Site User
  unfolding in_db request_access link_identity
  request_and_wait info organisation = do
    found ← in_db (reraise as_login (request_access world info (some organisation)))
    in_db (link_identity world enforce found.0 info)
    raise (login access_request_pending)

  unfoldable pub route_stranger : VerifiedIdentity → Domains.DomainRoute → Call Site User
  unfolding request_and_wait issue_setup
  route_stranger info Domains.personal = raise (login personal_email_not_supported)
  route_stranger info Domains.ambiguous = raise (login domain_not_verified)
  route_stranger info Domains.unclaimed = do
    code ← issue_setup outside.token info
    raise (login (workspace_setup_required code))
  route_stranger info (Domains.verified_by organisation) = request_and_wait info organisation
  route_stranger info (Domains.claimed organisation) = request_and_wait info organisation

  unfoldable pub route_unless : VerifiedIdentity → Option User → Call Site User
  unfolding in_db route_of route_stranger
  route_unless info (some user) = pure user
  route_unless info none = do
    route ← in_db (gets (route_of world enforce info))
    route_stranger info route

  unfoldable pub route_newcomer : VerifiedIdentity → Call Site User
  unfolding accept_if_invited route_unless
  route_newcomer info = do invited ← accept_if_invited world enforce info; route_unless info invited

  -- The person who is linked already; their account is a row that the identity's key names.
  unfoldable pub touch_identity : Identity → VerifiedIdentity → Tables → Tables
  unfolding update_where
  touch_identity identity info db = record db {
    identities =
        update_where (λ i. i.id == identity.id)
          (λ (i : Identity). record i {
            email = info.email;
            email_verified = info.email_verified;
            last_used_at = db.now;
          })
          db.identities;
  }

  unfoldable pub resolve_linked : Identity → User → VerifiedIdentity → Call Site User
  unfolding in_db touch_identity require_standing
  resolve_linked identity user info = do
    raise_if (not user.is_active) (login account_disabled)
    in_db (modify (touch_identity identity info))
    require_standing world enforce user info

  -- The first time with a provider.
  unfoldable pub resolve_known : VerifiedIdentity → User → Call Site User
  unfolding in_db link_identity require_standing
  resolve_known info user = do
    raise_if (not user.is_active) (login account_disabled)
    in_db (link_identity world enforce user info)
    require_standing world enforce user info

  unfoldable pub resolve_by_email : VerifiedIdentity → Option User → Call Site User
  unfolding route_newcomer resolve_known
  resolve_by_email info none = route_newcomer info
  resolve_by_email info (some user) = resolve_known info user

  unfoldable pub user_by_email : VerifiedIdentity → Tables → Option User
  unfolding first_where same_email
  user_by_email info db = first_where (same_email world info.email) db.users

  unfoldable pub resolve_first : VerifiedIdentity → Call Site User
  unfolding in_db user_by_email resolve_by_email
  resolve_first info = do
    raise_if (not info.email_verified) (login email_not_verified)
    known ← in_db (gets (user_by_email info))
    resolve_by_email info known

  -- The identity, with its user.
  unfoldable pub linked_user : VerifiedIdentity → Tables → Option (Identity × User)
  unfolding find_identity find_user
  linked_user info db = elim (find_identity info db) [
    | none ↦ none
    | some i ↦ elim (find_user i.user db) [ none ↦ none | some u ↦ some (i, u) ]
  ]

  -- `resolve_user`
  unfoldable pub resolve_existing : VerifiedIdentity → Option (Identity × User) → Call Site User
  unfolding resolve_linked resolve_first
  resolve_existing info (some (identity, user)) = resolve_linked identity user info
  resolve_existing info none = resolve_first info

  unfoldable pub resolve_user : VerifiedIdentity → Call Site User
  unfolding in_db linked_user resolve_existing
  resolve_user info = do existing ← in_db (gets (linked_user info)); resolve_existing info existing

  -- `_read_state`
  unfoldable pub nonce_of : String → State → Call Site String
  nonce_of provider too_old = raise (login state_expired)
  nonce_of provider bad_signature = raise (login invalid_state)
  nonce_of provider (signed p nonce) =
      if str_eq p provider then pure nonce else raise (login invalid_state)

  unfoldable pub read_state : String → String → Call Site String
  unfolding nonce_of
  read_state provider state = nonce_of provider (outside.load_state state)

  -- `complete`
  unfoldable pub resolve_verified : Option VerifiedIdentity → Call Site User
  unfolding db_atomic resolve_user
  resolve_verified none = raise (login provider_rejected)
  resolve_verified (some info) = db_atomic (resolve_user info)

  unfoldable pub complete : String → String → String → Call Site User
  unfolding read_state resolve_verified
  complete provider code state = do
    raise_if (not (outside.has_provider provider)) (login provider_not_available)
    raise_if (str_eq code "") (login invalid_state)
    nonce ← read_state provider state
    resolve_verified (outside.verify_callback provider code nonce)
