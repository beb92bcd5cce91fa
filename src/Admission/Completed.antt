-- ===== src/Admission/Completed.antt =====
-- services/identity/login.py `resolve_user` and `complete`: how a sign-in ends.
use revenact_backend.Prelude.{
  ℕ, String, ◌≡◌, refl, ◌∙◌, Bool, true, not, Option, none, some, str_eq, inl, inr, Bool-cases,
}
use revenact_backend.Domains as Domains
use revenact_backend.Admission.Rows.{
  User, AccessRequest, Identity, VerifiedIdentity, Tables, Site, login, account_disabled,
  email_not_verified, invalid_state, provider_not_available, access_request_pending, Result, ok,
  err, continue, gets, raise, modify, ◌>>=◌, ◌>>◌, as_login, reraise,
}
use revenact_backend.Admission.Newcomers.{request_access}
use revenact_backend.Admission.Codes.{issue_setup}
use revenact_backend.Admission.Routes.{
  in_db, close_db, db_atomic, close_atomic, link_identity, accept_if_invited, route_of,
  require_standing,
}
use revenact_backend.Admission.Login.{
  Outside, State, signed, too_old, bad_signature, request_and_wait, route_stranger, route_unless,
  route_newcomer, touch_identity, resolve_linked, resolve_known, resolve_by_email, resolve_first,
  resolve_existing, linked_user, user_by_email, resolve_user, nonce_of, read_state,
  resolve_verified, complete,
}
use revenact_backend.Admission.Grants.{after_guard}
use revenact_backend.Admission.Acceptance.{request_ids}
use revenact_backend.Admission.SignIn.{
  has_standing, Resolved, Invited, Linked, Refused, link_identity-Linked, accept_if_invited-Invited,
  Refused-Resolved, raised-Refused, require_standing-Resolved,
}

-- How a sign-in ends: an error leaves the database as it was; whoever is signed in has standing, and the
-- access requests are those of before.
abbrev pub SignedIn : Site → Result User × Site → Type 0
SignedIn before (err e, after) = after.db ≡ before.db
SignedIn before (ok u, after) =
    (has_standing u after.db ≡ true) × (request_ids after.db ≡ request_ids before.db)

module _ (world : Domains.World) (outside : Outside) (enforce : Bool) where
  request_and_wait-Refused :
      (info : VerifiedIdentity) (organisation : ℕ) (site : Site)
      → Refused world outside enforce
          (request_and_wait world outside enforce info organisation site)
  unfolding request_and_wait
  request_and_wait-Refused info organisation site =
      requested (in_db (reraise as_login (request_access world info (some organisation))) site)
    where
      requested :
          (r : Result (User × Option AccessRequest) × Site)
          → Refused world outside enforce (
              continue
                (λ found.
                  in_db (link_identity world enforce found.0 info)
                  >> raise (login access_request_pending))
                r)
      requested (err e, after) = tt
      requested (ok found, after) =
          raised-Refused world outside enforce (login access_request_pending) _

  route_stranger-Refused :
      (info : VerifiedIdentity) (route : Domains.DomainRoute) (site : Site)
      → Refused world outside enforce (route_stranger world outside enforce info route site)
  unfolding route_stranger issue_setup
  route_stranger-Refused info Domains.personal site = tt
  route_stranger-Refused info Domains.ambiguous site = tt
  route_stranger-Refused info Domains.unclaimed site = tt
  route_stranger-Refused info (Domains.verified_by o) site = request_and_wait-Refused info o site
  route_stranger-Refused info (Domains.claimed o) site = request_and_wait-Refused info o site

  route_unless-Resolved :
      (before : Tables) (info : VerifiedIdentity) (r : Result (Option User) × Site)
      → Invited before r
      → Resolved before (continue (route_unless world outside enforce info) r)
  unfolding route_unless in_db close_db
  route_unless-Resolved before info (err e, after) h = tt
  route_unless-Resolved before info (ok (some u), after) h = h
  route_unless-Resolved before info (ok none, after) h =
      Refused-Resolved world outside enforce before _
        (route_stranger-Refused info (route_of world enforce info after.db) after)

  route_newcomer-Resolved :
      (before : Tables) (info : VerifiedIdentity) (site : Site)
      → request_ids site.db ≡ request_ids before
      → Resolved before (route_newcomer world outside enforce info site)
  unfolding route_newcomer
  route_newcomer-Resolved before info site same =
      route_unless-Resolved before info (accept_if_invited world enforce info site)
        (accept_if_invited-Invited world outside enforce before info site same)

  Linked-Resolved :
      (before : Tables) (user : User) (info : VerifiedIdentity) (site : Site)
      (r : Result (Unit {0}) × Tables)
      → Linked world outside enforce site.db r
      → request_ids site.db ≡ request_ids before
      → Resolved before (continue (λ _. require_standing world enforce user info) (close_db site r))
  unfolding close_db
  Linked-Resolved before user info site (err e, after) h same = tt
  Linked-Resolved before user info site (ok _, after) (rows, ids) same =
      require_standing-Resolved world outside enforce before user info (record site { db = after })
        (ids ∙ same)

  resolve_by_email-Resolved :
      (before : Tables) (info : VerifiedIdentity) (known : Option User) (site : Site)
      → request_ids site.db ≡ request_ids before
      → Resolved before (resolve_by_email world outside enforce info known site)
  unfolding resolve_by_email resolve_known in_db
  resolve_by_email-Resolved before info none site same =
      route_newcomer-Resolved before info site same
  resolve_by_email-Resolved before info (some user) site same =
      after_guard (Resolved before) (not user.is_active) (login account_disabled)
        (in_db (link_identity world enforce user info) >> require_standing world enforce user info)
        site (λ _. tt)
        (λ _.
          Linked-Resolved before user info site (link_identity world enforce user info site.db)
            (link_identity-Linked world outside enforce user info site.db) same)

  resolve_existing-Resolved :
      (before : Tables) (info : VerifiedIdentity) (existing : Option (Identity × User))
      (site : Site)
      → request_ids site.db ≡ request_ids before
      → Resolved before (resolve_existing world outside enforce info existing site)
  unfolding resolve_existing resolve_linked resolve_first touch_identity in_db close_db
  resolve_existing-Resolved before info (some (identity, user)) site same =
      after_guard (Resolved before) (not user.is_active) (login account_disabled)
        (in_db (modify (touch_identity world outside enforce identity info))
          >> require_standing world enforce user info)
        site (λ _. tt)
        (λ _. require_standing-Resolved world outside enforce before user info _ same)
  resolve_existing-Resolved before info none site same =
      after_guard (Resolved before) (not info.email_verified) (login email_not_verified)
        (in_db (gets (user_by_email world outside enforce info))
          >>= resolve_by_email world outside enforce info)
        site (λ _. tt)
        (λ _.
          resolve_by_email-Resolved before info (user_by_email world outside enforce info site.db)
            site same)

  resolve_user-Resolved :
      (info : VerifiedIdentity) (site : Site)
      → Resolved site.db (resolve_user world outside enforce info site)
  unfolding resolve_user in_db close_db
  resolve_user-Resolved info site =
      resolve_existing-Resolved site.db info (linked_user world outside enforce info site.db) site
        refl

  resolve_verified-SignedIn :
      (info : Option VerifiedIdentity) (site : Site)
      → SignedIn site (resolve_verified world outside enforce info site)
  unfolding resolve_verified db_atomic
  resolve_verified-SignedIn none site = refl
  resolve_verified-SignedIn (some info) site =
      closed (resolve_user world outside enforce info site) (resolve_user-Resolved info site)
    where
      closed : (r : Result User × Site) → Resolved site.db r → SignedIn site (close_atomic site r)
      closed (err e, after) h = refl
      closed (ok u, after) h = h

  nonce_of-SignedIn :
      (provider code : String) (state : State) (site : Site)
      → SignedIn site (
          continue
            (λ nonce.
              resolve_verified world outside enforce (outside.verify_callback provider code nonce))
            (nonce_of world outside enforce provider state site))
  unfolding nonce_of
  nonce_of-SignedIn provider code too_old site = refl
  nonce_of-SignedIn provider code bad_signature site = refl
  nonce_of-SignedIn provider code (signed p nonce) site = elim (Bool-cases (str_eq p provider)) [
    | inl h ↦ rw h (resolve_verified-SignedIn (outside.verify_callback provider code nonce) site)
    | inr h ↦ rw h refl
  ]

  -- However a sign-in ends, no access request is there afterwards that was not there before. If it is
  -- refused, the whole database is as it was; otherwise the person is platform staff or holds an active
  -- membership.
  pub complete-SignedIn :
      (provider code state : String) (site : Site)
      → SignedIn site (complete world outside enforce provider code state site)
  unfolding complete read_state
  complete-SignedIn provider code state site =
      after_guard (SignedIn site) (not (outside.has_provider provider))
        (login provider_not_available) _ site (λ _. refl)
        (λ _.
          after_guard (SignedIn site) (str_eq code "") (login invalid_state) _ site (λ _. refl)
            (λ _. nonce_of-SignedIn provider code (outside.load_state state) site))
