-- ===== src/Admission/Seating.antt =====
-- services/identity/onboarding.py `approve` with services/billing/seats.py: letting people in keeps every
-- account within its seats.
use revenact_backend.Prelude.{
  ℕ, ◌≡◌, refl, sym, ap, subst, ◌∙◌, Bool, true, false, not, ◌&&◌, Option, none, some, any, inl,
  inr, arith, ==_iff, Bool-cases, Option-cases,
}
use revenact_backend.Billing.Models.{Db, BillingAccount, SeatAssignment}
use revenact_backend.Billing.Monad as Billing
use revenact_backend.Billing.Seats as Seats
use revenact_backend.Billing.Seats.Capacity.{
  IsSeated, account_of-eq, account_of_missing, allocate_held, allocate_free, allocate-IsSeated,
}
use revenact_backend.Admission.Rows.{
  Role, Department, User, OrganizationMembership, AccessRequest, approved, onboarding,
  access_request_decided, Tables, Result, ok, err, continue, pure, modify, ◌>>=◌, ◌>>◌, finish,
  as_onboarding,
}
use revenact_backend.Admission.{
  is_at, is_live, first_where, is_waiting, check_grant, Grant, create_membership, update_membership,
  update_or_create, write_columns, close_billing, in_billing, grant_membership, decide_request, log,
  grant_of, grant_request, grant_checked, approve, is_active_at,
}
use revenact_backend.Admission.Grants.{after_guard, IsGrantRow, Created, update_or_create-Created}
use revenact_backend.Admission.Approval.{Checked, check_grant-Checked}

-- A reservation leaves the database as it was, and where it does not raise, an allocation in its
-- organisation is one that an enforced allocation would make too.
abbrev pub Reserved : ℕ → Db → Billing.Result (Unit {0}) × Db → Type 0
Reserved organisation db (Billing.err e, after) = after ≡ db
Reserved organisation db (Billing.ok _, after) =
    (after ≡ db)
    × ((m : Seats.Membership)
        → m.organisation ≡ organisation
        → Seats.allocate false m db ≡ Seats.allocate true m db)

take_seat_free :
    (a : BillingAccount) (m : Seats.Membership) (db : Db)
    → Seats.is_full true a db ≡ false
    → Seats.take_seat false a m db ≡ Seats.take_seat true a m db
unfolding Seats.take_seat Seats.create_seat Seats.is_full
take_seat_free a m db h = rw h refl

allocate_free_seat :
    (a : BillingAccount) (m : Seats.Membership) (db : Db)
    → Seats.find_by_organisation m.organisation db.accounts ≡ some a
    → Seats.is_full true a db ≡ false
    → Seats.allocate false m db ≡ Seats.allocate true m db
allocate_free_seat a m db found free = elim (Option-cases (Seats.open_seat m.id db.seats)) [
  | inr (seat, held) ↦
      allocate_held false m db found held ∙ sym (allocate_held true m db found held)
  | inl none_open ↦
      allocate_free false m db found none_open
      ∙ ap (Billing.finish Billing.raise db) (take_seat_free a m db free)
      ∙ sym (allocate_free true m db found none_open)
]

reserve-Reserved :
    (organisation : ℕ) (db : Db) → Reserved organisation db (Seats.reserve true organisation db)
unfolding Seats.reserve
reserve-Reserved organisation db =
    elim (Option-cases (Seats.find_by_organisation organisation db.accounts)) [
      | inl missing ↦ rw (account_of_missing organisation db missing) refl
      | inr (a, found) ↦ elim (Bool-cases (Seats.is_full true a db)) [
        | inl full ↦ rw (account_of-eq organisation db found, full) refl
        | inr free ↦
            rw (account_of-eq organisation db found, free)
              (
                refl,
                λ m same.
                    allocate_free_seat a m db
                      (ap (λ o. Seats.find_by_organisation o db.accounts) same ∙ found) free,
              )
      ]
    ]

update_membership-billing :
    (found : Option OrganizationMembership) (g : Grant) (db : Tables)
    → (update_membership found g db).1.billing ≡ db.billing
unfolding update_membership create_membership
update_membership-billing (some m) g db = refl
update_membership-billing none g db =
    created (any (λ m. is_at g.organisation g.user m && is_live m) db.memberships)
  where
    created : (taken : Bool) → (create_membership taken g db).1.billing ≡ db.billing
    created true = refl
    created false = refl

update_or_create-billing :
    (g : Grant) (db : Tables) → (update_or_create g db).1.billing ≡ db.billing
unfolding update_or_create
update_or_create-billing g db =
    update_membership-billing (first_where (is_active_at g) db.memberships) g db

row_organisation :
    (g : Grant) (m : OrganizationMembership) → IsGrantRow g m → m.organisation ≡ g.organisation
unfolding is_at
row_organisation g m (at, live, role, department) =
    ground (arith, at, ==_iff m.organisation g.organisation)

-- The seats after a call.
abbrev pub Seated : {A : Type 0} → Result A × Tables → Type 0
Seated r = IsSeated r.1.billing

grant_membership-Seated :
    (g : Grant) (db : Tables) → IsSeated db.billing → Seated (grant_membership true g db)
unfolding grant_membership in_billing close_billing write_columns
grant_membership-Seated g db seated =
    reserved (Seats.reserve true g.organisation db.billing)
      (reserve-Reserved g.organisation db.billing)
  where
    seat_of : OrganizationMembership → Billing.Exec SeatAssignment
    seat_of m = Seats.allocate false (record { id = m.id; organisation = m.organisation })

    closed :
        (m : OrganizationMembership) (after : Tables) (r : Billing.Result SeatAssignment × Db)
        → IsSeated r.1
        → Seated (continue (λ _. modify (write_columns g) >> pure m) (close_billing after r))
    closed m after (Billing.err e, b) h = h
    closed m after (Billing.ok seat, b) h = h

    created :
        ((m : Seats.Membership)
          → m.organisation ≡ g.organisation
          → Seats.allocate false m db.billing ≡ Seats.allocate true m db.billing)
        → (r : Result OrganizationMembership × Tables) → Created g db r
        → r.1.billing ≡ db.billing
        → Seated (continue (λ m. in_billing (seat_of m) >> (modify (write_columns g) >> pure m)) r)
    created free (err e, after) c same = subst IsSeated (sym same) seated
    created free (ok m, after) (row, held, users, requests) same =
        let member : Seats.Membership = record { id = m.id; organisation = m.organisation } in
        closed m after (seat_of m after.billing) (
          subst (λ b. IsSeated (Seats.allocate false member b).1) (sym same)
            (subst (λ (r : Billing.Result SeatAssignment × Db). IsSeated r.1)
              (sym (free member (row_organisation g m row)))
              (allocate-IsSeated member db.billing seated)))

    reserved :
        (r : Billing.Result (Unit {0}) × Db)
        → Reserved g.organisation db.billing r
        → Seated (
            continue
              (λ _. update_or_create g >>= λ m.
                in_billing (seat_of m) >> (modify (write_columns g) >> pure m))
              (close_billing db r))
    reserved (Billing.err e, b) same = subst IsSeated (sym same) seated
    reserved (Billing.ok _, b) (same, free) =
        created free (update_or_create g (record db { billing = b }))
          (update_or_create-Created g (record db { billing = b }))
          (update_or_create-billing g (record db { billing = b }) ∙ same)

grant_checked-Seated :
    (request : AccessRequest) (reviewer : User) (department : Option Department) (role : Role)
    (db : Tables)
    → IsSeated db.billing
    → Seated (grant_checked true request reviewer department role db)
unfolding grant_checked grant_request decide_request log
grant_checked-Seated request reviewer department role db seated =
    ended (grant_membership true g db) (grant_membership-Seated g db seated)
  where
    g : Grant
    g = grant_of request reviewer role department db.now

    ended :
        (r : Result OrganizationMembership × Tables)
        → Seated r
        → Seated (
            continue
              (λ m.
                modify (
                  log "access_request.approved" reviewer.id
                    (some request.organisation)
                    request.user)
                >> pure m)
              (finish as_onboarding db (
                continue
                  (λ m. modify (decide_request request.id approved reviewer.id) >> pure m)
                  r)))
    ended (err e, after) h = seated
    ended (ok m, after) h = h

-- Where seats are enforced, an approval, whether it succeeds or not, leaves no account with more open
-- seats than it has, no membership with two, and no two accounts of one key, if that was so before.
pub approve-IsSeated :
    (request : AccessRequest) (reviewer : User) (role : Option Role)
    (department : Option Department) (db : Tables)
    → IsSeated db.billing
    → IsSeated (approve true request reviewer role department db).1.billing
unfolding approve
approve-IsSeated request reviewer role department db seated =
    after_guard (λ (r : Result OrganizationMembership × Tables). IsSeated r.1.billing)
      (not (is_waiting request)) (onboarding access_request_decided) _ db (λ _. seated)
      (λ _.
        checked (check_grant reviewer request.organisation role department db)
          (check_grant-Checked reviewer request.organisation role department db))
  where
    checked :
        (r : Result Role × Tables)
        → Checked reviewer request.organisation role department db r
        → Seated (continue (λ granted. grant_checked true request reviewer department granted) r)
    checked (err e, after) same = subst (λ (t : Tables). IsSeated t.billing) (sym same) seated
    checked (ok granted, after) (same, is_role, may) =
        grant_checked-Seated request reviewer department granted after
          (subst (λ (t : Tables). IsSeated t.billing) (sym same) seated)
