-- ===== src/Admission/Approval.antt =====
-- services/identity/onboarding.py `approve`: what an administrator's decision comes to.
use revenact_backend.Prelude.{
  ℕ, ◌≡◌, refl, sym, subst, ◌∙◌, Bool, true, false, not, ◌&&◌, ◌||◌, Option, none, some, List, [],
  ◌∷◌, map, any, ◌==◌, ==_iff, if◌then◌else◌, ◌⊎◌, inl, inr, arith, All, Bool-cases,
}
use revenact_backend.Admission.Rows.{
  Role, Department, User, OrganizationMembership, AccessRequest, approved, Tables, Result, ok, err,
  continue, pure, modify, ◌>>◌, finish, as_onboarding,
}
use revenact_backend.Admission.{
  is_waiting, capabilities_for, is_subset, is_foreign, check_grant, Grant, grant_membership,
  grant_of, grant_request, grant_checked, update_where, decide_request, log, approve,
}
use revenact_backend.Admission.Grants.{
  HasColumns, IsGrantRow, Granted, grant_membership-Granted, is_active_of,
}

-- What the reviewer may grant: a role and a department of the organisation, and no capability that the
-- reviewer does not hold.
abbrev pub MayGrant : User → ℕ → Role → Option Department → Tables → Type 0
MayGrant reviewer organisation role department db =
    (role.organisation ≡ organisation)
    × (is_foreign organisation department ≡ false)
    × ((reviewer.is_superuser || is_subset role.permissions (capabilities_for reviewer db)) ≡ true)

abbrev pub Checked :
    User → ℕ → Option Role → Option Department → Tables → Result Role × Tables → Type 0
Checked reviewer organisation role department db (err e, after) = after ≡ db
Checked reviewer organisation role department db (ok granted, after) =
    (after ≡ db) × (role ≡ some granted) × MayGrant reviewer organisation granted department db

pub check_grant-Checked :
    (reviewer : User) (organisation : ℕ) (role : Option Role) (department : Option Department)
    (db : Tables)
    → Checked reviewer organisation role department db
        (check_grant reviewer organisation role department db)
unfolding check_grant
check_grant-Checked reviewer organisation none department db = refl
check_grant-Checked reviewer organisation (some role) department db =
    elim (Bool-cases (role.organisation == organisation)) [
      | inr p ↦ rw p refl
      | inl p ↦ elim (Bool-cases (is_foreign organisation department)) [
        | inl q ↦ rw (p, q) refl
        | inr q ↦
            elim (Bool-cases (
              not reviewer.is_superuser
              && not (is_subset role.permissions (capabilities_for reviewer db)))) [
                | inl r ↦ rw (p, q, r) refl
                | inr r ↦
                    rw (p, q, r)
                      (
                        refl,
                        refl,
                        ((==_iff role.organisation organisation).0 p, q, ground (arith, r)),
                      )
              ]
      ]
    ]

-- How an approval ends: refused, with every table as it was, or with what it is to do.
abbrev pub Decided :
    AccessRequest
    → User
    → Role
    → Option Department
    → Tables
    → Result OrganizationMembership × Tables
    → Type 0
Decided request reviewer role department db (err e, after) = after ≡ db
Decided request reviewer role department db (ok m, after) =
    IsGrantRow (grant_of request reviewer role department db.now) m
    × (any (is_active_of request.user) after.memberships ≡ true)
    × All (HasColumns (grant_of request reviewer role department db.now)) after.users
    × All (λ (r : AccessRequest). r.id ≡ request.id → r.status ≡ approved) after.requests

decide_request-All :
    (request : ℕ) (reviewer : ℕ) (db : Tables)
    → All
        (λ (r : AccessRequest). r.id ≡ request → r.status ≡ approved)
        (decide_request request approved reviewer db).requests
unfolding decide_request update_where
decide_request-All request reviewer db = each db.requests
  where
    decided : AccessRequest → AccessRequest
    decided r =
        if r.id == request
        then record r { status = approved; reviewed_at = some db.now; reviewed_by = some reviewer }
        else r

    one :
        (r : AccessRequest)
        → ((r.id == request) ≡ true) ⊎ ((r.id == request) ≡ false)
        → (decided r).id ≡ request
        → (decided r).status ≡ approved
    one r (inl p) same = rw p refl
    one r (inr p) same = absurd (cc (sym p ∙ (==_iff r.id request).1 (rw p at same)))

    each :
        (rows : List AccessRequest)
        → All (λ (r : AccessRequest). r.id ≡ request → r.status ≡ approved) (map decided rows)
    each [] = tt
    each (r ∷ rest) = (one r (Bool-cases (r.id == request)), each rest)

grant_checked-Decided :
    (enforce : Bool) (request : AccessRequest) (reviewer : User) (department : Option Department)
    (role : Role) (db : Tables)
    → Decided request reviewer role department db
        (grant_checked enforce request reviewer department role db)
unfolding grant_checked grant_request log
grant_checked-Decided enforce request reviewer department role db =
    ended (grant_membership enforce g db) (grant_membership-Granted enforce g db)
  where
    g : Grant
    g = grant_of request reviewer role department db.now

    ended :
        (r : Result OrganizationMembership × Tables)
        → Granted g db r
        → Decided request reviewer role department db (
            continue
              (λ m.
                modify (
                  log "access_request.approved" reviewer.id
                    (some request.organisation)
                    request.user)
                >> pure m)
              (finish as_onboarding db (
                continue
                  (λ m. modify (decide_request request.id approved reviewer.id) >> pure m)
                  r)))
    ended (err e, after) h = refl
    ended (ok m, after) (row, held, columns, requests) =
        (row, held, columns, decide_request-All request.id reviewer.id after)

-- How `approve` ends: an error leaves every table as it was. A membership comes of a request that was
-- waiting and of a role that the reviewer may grant; it is the active one of the request's person in its
-- organisation, the person's columns agree with it, and the request is approved.
abbrev pub Admitted :
    AccessRequest
    → User
    → Option Role
    → Option Department
    → Tables
    → Result OrganizationMembership × Tables
    → Type 0
Admitted request reviewer role department db (err e, after) = after ≡ db
Admitted request reviewer role department db (ok m, after) =
    (is_waiting request ≡ true)
    × ((granted : Role) × (role ≡ some granted)
        × MayGrant reviewer request.organisation granted department db
        × Decided request reviewer granted department db (ok m, after))

-- Every error of an approval leaves the tables as they were, seats included. Where it succeeds, the
-- request was waiting, and the role and the department are the organisation's and give nothing that the
-- reviewer, unless a superuser, does not hold; the membership is active and the columns of the person and
-- the status of the request agree with it.
pub approve-Admitted :
    (enforce : Bool) (request : AccessRequest) (reviewer : User) (role : Option Role)
    (department : Option Department) (db : Tables)
    → Admitted request reviewer role department db
        (approve enforce request reviewer role department db)
unfolding approve
approve-Admitted enforce request reviewer role department db =
    elim (Bool-cases (is_waiting request)) [
      | inr p ↦ rw p refl
      | inl p ↦ rw p (
          checked p (check_grant reviewer request.organisation role department db)
            (check_grant-Checked reviewer request.organisation role department db))
    ]
  where
    close :
        (granted : Role)
        → role ≡ some granted
        → is_waiting request ≡ true
        → MayGrant reviewer request.organisation granted department db
        → (r : Result OrganizationMembership × Tables)
        → Decided request reviewer granted department db r
        → Admitted request reviewer role department db r
    close granted same p may (err e, after) d = d
    close granted same p may (ok m, after) d = (p, (granted, same, may, d))

    checked :
        is_waiting request ≡ true
        → (r : Result Role × Tables) → Checked reviewer request.organisation role department db r
        → Admitted request reviewer role department db
            (continue (λ granted. grant_checked enforce request reviewer department granted) r)
    checked p (err e, after) same = same
    checked p (ok granted, after) (same, is_role, may) =
        subst
          (λ start.
            Admitted request reviewer role department db
              (grant_checked enforce request reviewer department granted start))
          (sym same)
          (close granted is_role p may _
            (grant_checked-Decided enforce request reviewer department granted db))
