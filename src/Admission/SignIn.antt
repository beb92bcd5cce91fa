-- ===== src/Admission/SignIn.antt =====
-- services/identity/login.py `complete`: who is signed in, and what a sign-in writes.
use revenact_backend.Prelude.{
  ℕ, ◌≡◌, refl, ◌∙◌, Bool, true, false, ◌||◌, Option, none, some, List, [], ◌∷◌, any, ◌==◌,
  if◌then◌else◌, inl, inr, arith, Bool-cases, keep_if,
}
use revenact_backend.Domains as Domains
use revenact_backend.Admission.Rows.{
  Standing, User, OrganizationMembership, Invitation, Identity, VerifiedIdentity, Tables, Site,
  Error, login, account_disabled, access_request_pending, Result, ok, err, continue, pure, gets,
  raise, ◌>>=◌, ◌>>◌, as_login, recast,
}
use revenact_backend.Admission.{is_of, is_active_row, log}
use revenact_backend.Admission.Newcomers.{open_invitation_for, accept_invitation}
use revenact_backend.Admission.Routes.{
  in_db, close_db, set_status, statuses_from, is_active_status, is_suspended, has_active,
  statuses_of, find_identity, add_identity, link_if_new, link_identity, accept_found,
  accept_if_invited, route_of, route_waiting, wait_unless, without_standing, stand,
  require_standing,
}
use revenact_backend.Admission.Login.{Outside}
use revenact_backend.Admission.Grants.{after_guard, is_active_of}
use revenact_backend.Admission.Acceptance.{request_ids, LetIn, accept_invitation-LetIn}

-- Platform staff, or an active member somewhere.
abbrev pub has_standing : User → Tables → Bool
has_standing user db = user.is_superuser || any (is_active_of user.id) db.memberships

-- How finding the person ends, if it does not raise: they have standing, and the access requests are
-- those of before.
abbrev pub Resolved : Tables → Result User × Site → Type 0
Resolved before (err e, after) = Unit
Resolved before (ok u, after) =
    (has_standing u after.db ≡ true) × (request_ids after.db ≡ request_ids before)

abbrev pub Invited : Tables → Result (Option User) × Site → Type 0
Invited before (err e, after) = Unit
Invited before (ok none, after) = request_ids after.db ≡ request_ids before
Invited before (ok (some u), after) = Resolved before (ok u, after)

row_status : (m : OrganizationMembership) → is_active_row m ≡ is_active_status m.status
unfolding is_active_row is_active_status
row_status m = same m.status
  where
    same :
        (s : Standing)
        → elim s as (λ _. Bool) [ Standing.active ↦ true | _ ↦ false ] ≡ is_active_status s
    same Standing.pending = refl
    same Standing.active = refl
    same Standing.suspended = refl
    same Standing.rejected = refl
    same Standing.revoked = refl

-- An active status comes of an active row.
module _ (user : ℕ) where
  set_status_active :
      (organisation : ℕ) (status : Standing) (statuses : List (ℕ × Standing))
      → any (λ s. is_active_status s.1) (set_status organisation status statuses) ≡ true
      → (is_active_status status || any (λ s. is_active_status s.1) statuses) ≡ true
  unfolding set_status
  set_status_active organisation status [] h = h
  set_status_active organisation status ((o, s) ∷ rest) h = elim (Bool-cases (o == organisation)) [
    | inl p ↦ ground (arith, (rw p at h))
    | inr p ↦ ground (arith, (rw p at h), set_status_active organisation status rest)
  ]

  statuses_from_active :
      (statuses : List (ℕ × Standing)) (rows : List OrganizationMembership)
      → any (λ s. is_active_status s.1) (statuses_from statuses (keep_if (is_of user) rows)) ≡ true
      → (any (λ s. is_active_status s.1) statuses || any (is_active_of user) rows) ≡ true
  unfolding statuses_from
  statuses_from_active statuses [] h = ground (arith, h)
  statuses_from_active statuses (m ∷ rest) h = elim (Bool-cases (is_of user m)) [
    | inl p ↦ ground (
      arith,
      p,
      row_status m,
      set_status_active m.organisation m.status statuses,
      statuses_from_active (set_status m.organisation m.status statuses) rest (rw p at h),
    )
    | inr p ↦ rw p (statuses_from_active statuses rest (rw p at h))
  ]

has_active-standing :
    (user : User) (db : Tables)
    → has_active (statuses_of user db) ≡ true
    → has_standing user db ≡ true
unfolding has_active statuses_of
has_active-standing user db h = ground (arith, statuses_from_active user.id [] db.memberships h)

module _ (world : Domains.World) (outside : Outside) (enforce : Bool) where
  abbrev pub Linked : Tables → Result (Unit {0}) × Tables → Type 0
  Linked db (err e, after) = Unit
  Linked db (ok _, after) =
      (after.memberships ≡ db.memberships) × (request_ids after ≡ request_ids db)

  pub link_identity-Linked :
      (user : User) (info : VerifiedIdentity) (db : Tables)
      → Linked db (link_identity world enforce user info db)
  unfolding link_identity link_if_new add_identity log
  link_identity-Linked user info db = known (find_identity info db)
    where
      known : (o : Option Identity) → Linked db (link_if_new world enforce user info o db)
      known none = (refl, refl)
      known (some i) = (refl, refl)

  -- An invitation that is accepted.
  accepted-Invited :
      (before : Tables) (info : VerifiedIdentity) (site : Site) (r : Result User × Tables)
      → LetIn site.db r
      → request_ids site.db ≡ request_ids before
      → Invited before (
          continue
            (λ user. in_db (link_identity world enforce user info) >> pure (some user))
            (close_db site (recast as_login r)))
  unfolding in_db close_db
  accepted-Invited before info site (err e, db) h same = tt
  accepted-Invited before info site (ok u, db) (held, ids) same =
      linked (link_identity world enforce u info db) (link_identity-Linked u info db)
    where
      linked :
          (r : Result (Unit {0}) × Tables)
          → Linked db r
          → Invited before (continue (λ _. pure (some u)) (close_db (record site { db = db }) r))
      linked (err e, after) l = tt
      linked (ok _, after) (rows, kept) = (rw rows (ground (arith, held)), kept ∙ ids ∙ same)

  accept_found-Invited :
      (before : Tables) (info : VerifiedIdentity) (i : Option Invitation) (site : Site)
      → request_ids site.db ≡ request_ids before
      → Invited before (accept_found world enforce info i site)
  unfolding accept_found in_db
  accept_found-Invited before info none site same = same
  accept_found-Invited before info (some i) site same =
      accepted-Invited before info site (accept_invitation world enforce i info site.db)
        (accept_invitation-LetIn world enforce i info site.db) same

  pub accept_if_invited-Invited :
      (before : Tables) (info : VerifiedIdentity) (site : Site)
      → request_ids site.db ≡ request_ids before
      → Invited before (accept_if_invited world enforce info site)
  unfolding accept_if_invited in_db close_db
  accept_if_invited-Invited before info site same =
      accept_found-Invited before info (open_invitation_for world info.email site.db) site same

  -- The routes of an address sign nobody in.
  abbrev pub Refused : Result User × Site → Type 0
  Refused (err e, after) = Unit
  Refused (ok u, after) = ⊥

  pub Refused-Resolved : (before : Tables) (r : Result User × Site) → Refused r → Resolved before r
  Refused-Resolved before (err e, after) h = tt
  Refused-Resolved before (ok u, after) h = absurd h

  pub raised-Refused :
      {A : Type 0} (e : Error) (r : Result A × Site) → Refused (continue (λ _. raise e) r)
  raised-Refused e (err d, after) = tt
  raised-Refused e (ok a, after) = tt

  route_waiting-Refused :
      (info : VerifiedIdentity) (route : Domains.DomainRoute) (site : Site)
      → Refused (route_waiting world enforce info route site)
  unfolding route_waiting
  route_waiting-Refused info (Domains.verified_by organisation) site =
      raised-Refused (login access_request_pending) _
  route_waiting-Refused info (Domains.claimed organisation) site =
      raised-Refused (login access_request_pending) _
  route_waiting-Refused info Domains.personal site = tt
  route_waiting-Refused info Domains.ambiguous site = tt
  route_waiting-Refused info Domains.unclaimed site = tt

  wait_unless-Resolved :
      (before : Tables) (info : VerifiedIdentity) (r : Result (Option User) × Site)
      → Invited before r
      → Resolved before (continue (wait_unless world enforce info) r)
  unfolding wait_unless in_db close_db
  wait_unless-Resolved before info (err e, after) h = tt
  wait_unless-Resolved before info (ok (some u), after) h = h
  wait_unless-Resolved before info (ok none, after) h =
      Refused-Resolved before _
        (route_waiting-Refused info (route_of world enforce info after.db) after)

  without_standing-Resolved :
      (before : Tables) (info : VerifiedIdentity) (statuses : List (ℕ × Standing)) (site : Site)
      → request_ids site.db ≡ request_ids before
      → Resolved before (without_standing world enforce info statuses site)
  unfolding without_standing
  without_standing-Resolved before info statuses site same =
      after_guard (Resolved before) (any (λ s. is_suspended s.1) statuses) (login account_disabled)
        (accept_if_invited world enforce info >>= wait_unless world enforce info) site (λ _. tt)
        (λ _.
          wait_unless-Resolved before info (accept_if_invited world enforce info site)
            (accept_if_invited-Invited before info site same))

  pub require_standing-Resolved :
      (before : Tables) (user : User) (info : VerifiedIdentity) (site : Site)
      → request_ids site.db ≡ request_ids before
      → Resolved before (require_standing world enforce user info site)
  unfolding require_standing stand in_db close_db
  require_standing-Resolved before user info site same = staff (user.is_superuser) refl
    where
      member :
          (held : Bool)
          → has_active (statuses_of user site.db) ≡ held
          → Resolved before (
              (if held
                  then pure user
                  else without_standing world enforce info (statuses_of user site.db))
                site)
      member true h = (has_active-standing user site.db h, same)
      member false h = without_standing-Resolved before info (statuses_of user site.db) site same

      staff :
          (superuser : Bool)
          → user.is_superuser ≡ superuser
          → Resolved before (
              (if superuser
                  then pure user
                  else (in_db (gets (statuses_of user)) >>= stand world enforce user info))
                site)
      staff true h = (ground (arith, h), same)
      staff false h = member (has_active (statuses_of user site.db)) refl
