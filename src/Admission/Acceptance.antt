-- ===== src/Admission/Acceptance.antt =====
-- services/identity/onboarding.py `accept_invitation`: whom it lets in.
use revenact_backend.Prelude.{
  ℕ, ◌≡◌, refl, ap, ◌∙◌, Bool, true, not, Option, none, some, List, [], ◌∷◌, map, any, ◌==◌, ==_iff,
  str_eq, inl, inr, Bool-cases,
}
use revenact_backend.Domains as Domains
use revenact_backend.Admission.Rows.{
  User, OrganizationMembership, AccessRequest, Invitation, VerifiedIdentity, Tables, onboarding,
  account_disabled, Result, ok, err, continue, pure, gets, raise_if, modify, ◌>>=◌, ◌>>◌, finish,
  as_onboarding,
}
use revenact_backend.Admission.{first_where, update_where, Grant, grant_membership, log}
use revenact_backend.Admission.Newcomers.{
  user_for, user_or_new, reread, close_acceptance, accept_grant, accept_newcomer, accept_open,
  accept_invitation, is_open, normalised,
}
use revenact_backend.Admission.Grants.{
  after_guard, is_active_of, first_where_passes, Granted, grant_membership-Granted,
}

-- The keys of the access requests.
abbrev pub request_ids : Tables → List ℕ
request_ids db = map (λ (r : AccessRequest). r.id) db.requests

-- How letting someone in ends, if it does not raise: they hold an active membership, and the access
-- requests are those of before.
abbrev pub LetIn : Tables → Result User × Tables → Type 0
LetIn db (err e, after) = Unit
LetIn db (ok u, after) =
    (any (is_active_of u.id) after.memberships ≡ true) × (request_ids after ≡ request_ids db)

ids_kept :
    (test : AccessRequest → Bool) (change : AccessRequest → AccessRequest)
    (rows : List AccessRequest)
    → ((r : AccessRequest) → (change r).id ≡ r.id)
    → map (λ (r : AccessRequest). r.id) (update_where test change rows)
      ≡ map (λ (r : AccessRequest). r.id) rows
unfolding update_where
ids_kept test change [] same = refl
ids_kept test change (r ∷ rest) same = elim (Bool-cases (test r)) [
  | inl p ↦ rw (p, same r, ids_kept test change rest same) refl
  | inr p ↦ rw (p, ids_kept test change rest same) refl
]

module _ (world : Domains.World) where
  reread-id : (user : User) (db : Tables) → (reread world user db).id ≡ user.id
  unfolding reread
  reread-id user db = found (first_where (λ (u : User). u.id == user.id) db.users) refl
    where
      found :
          (o : Option User)
          → first_where (λ (u : User). u.id == user.id) db.users ≡ o
          → (elim o as (λ _. User) [ some u ↦ u | none ↦ user ]).id ≡ user.id
      found none h = refl
      found (some u) h =
          (==_iff u.id user.id).0 (first_where_passes (λ (u : User). u.id == user.id) db.users h)

  abbrev Found : Tables → Result User × Tables → Type 0
  Found db (err e, after) = Unit
  Found db (ok u, after) = request_ids after ≡ request_ids db

  user_or_new-Found :
      (info : VerifiedIdentity) (known : Option User) (db : Tables)
      → Found db (user_or_new world info known db)
  unfolding user_or_new
  user_or_new-Found info none db = refl
  user_or_new-Found info (some user) db = refl

  close_acceptance-ids :
      (invitation : Invitation) (user : ℕ) (db : Tables)
      → request_ids (close_acceptance world invitation user db) ≡ request_ids db
  unfolding close_acceptance
  close_acceptance-ids invitation user db = ids_kept _ _ db.requests (λ r. refl)

  module _ (enforce : Bool) (invitation : Invitation) (info : VerifiedIdentity) where
    grant_for : User → Tables → Grant
    grant_for user db = record {
      user = user.id;
      organisation = invitation.organisation;
      role = invitation.role;
      department = invitation.department;
      approver = invitation.invited_by;
      at = db.now;
    }

    accept_grant-LetIn :
        (user : User) (before db : Tables)
        → request_ids db ≡ request_ids before
        → LetIn before (continue (λ _. pure user) (accept_grant world enforce invitation user db))
    unfolding accept_grant grant_for
    accept_grant-LetIn user before db same =
        granted (grant_membership enforce (grant_for user db) db)
          (grant_membership-Granted enforce (grant_for user db) db)
      where
        granted :
            (r : Result OrganizationMembership × Tables)
            → Granted (grant_for user db) db r
            → LetIn before (
                continue
                  (λ _. pure user)
                  (continue (λ _. modify (close_acceptance world invitation user.id)) r))
        granted (err e, after) h = tt
        granted (ok m, after) (row, held, columns, requests) = (
          held,
          close_acceptance-ids invitation user.id after
              ∙ ap (map (λ (r : AccessRequest). r.id)) requests
              ∙ same,
        )

    accept_newcomer-LetIn :
        (db : Tables) → LetIn db (accept_newcomer world enforce invitation info db)
    unfolding accept_newcomer user_for
    accept_newcomer-LetIn db = known (user_or_new world info _ db) (user_or_new-Found info _ db)
      where
        known :
            (r : Result User × Tables)
            → Found db r
            → LetIn db (
                continue
                  (λ user.
                    raise_if (not user.is_active) (onboarding account_disabled)
                    >> (accept_grant world enforce invitation user >> pure user))
                  r)
        known (err e, after) h = tt
        known (ok user, after) h =
            after_guard (LetIn db) (not user.is_active) (onboarding account_disabled)
              (accept_grant world enforce invitation user >> pure user) after (λ _. tt)
              (λ _. accept_grant-LetIn user db after h)

    accept_open-LetIn : (db : Tables) → LetIn db (accept_open world enforce invitation info db)
    unfolding accept_open log
    accept_open-LetIn db =
        accepted (accept_newcomer world enforce invitation info db) (accept_newcomer-LetIn db)
      where
        accepted :
            (r : Result User × Tables)
            → LetIn db r
            → LetIn db (
                continue
                  (λ user. gets (reread world user) >>= λ user.
                    modify
                      (log "invitation.accepted" user.id (some invitation.organisation) user.id)
                    >> pure user)
                  (finish as_onboarding db r))
        accepted (err e, after) h = tt
        accepted (ok user, after) (held, same) = (rw (reread-id user after) held, same)

    pub accept_invitation-LetIn :
        (db : Tables) → LetIn db (accept_invitation world enforce invitation info db)
    unfolding accept_invitation
    accept_invitation-LetIn db =
        elim (Bool-cases (str_eq (normalised world info.email) invitation.email)) [
          | inr p ↦ rw p tt
          | inl p ↦ elim (Bool-cases (is_open db.now invitation)) [
            | inr q ↦ rw (p, q) tt
            | inl q ↦ rw (p, q) (accept_open-LetIn db)
          ]
        ]
