-- ===== src/Admission/Grants.antt =====
-- services/identity/onboarding.py `_grant_membership`: what is written when someone is let in.
use revenact_backend.Prelude.{
  ℕ, ◌≡◌, refl, sym, ap, ◌∙◌, Bool, true, false, ◌&&◌, Option, none, some, List, [], ◌∷◌, ◌++◌, any,
  ◌==◌, ==_iff, if◌then◌else◌, ◌⊎◌, inl, inr, arith, All, Bool-cases,
}
use revenact_backend.Billing.Models.{Db, SeatAssignment}
use revenact_backend.Billing.Monad as Billing
use revenact_backend.Billing.Seats as Seats
use revenact_backend.Admission.Rows.{
  User, OrganizationMembership, Tables, Error, raise_if, Result, ok, err, continue, Call, pure,
  modify, ◌>>=◌, ◌>>◌,
}
use revenact_backend.Admission.{
  is_active_row, is_of, is_at, first_where, update_where, Grant, granted, new_membership,
  is_active_at, create_membership, update_membership, update_or_create, write_columns,
  close_billing, in_billing, grant_membership,
}

-- A guard raises, or the rest of the block runs.
pub after_guard :
    {S A : Type 0} (P : Result A × S → Type 0) (c : Bool) (e : Error) (rest : Call S A) (s : S)
    → (c ≡ true → P (err e, s))
    → (c ≡ false → P (rest s))
    → P ((raise_if c e >> rest) s)
after_guard P true e rest s raised went = raised refl
after_guard P false e rest s raised went = went refl

-- The row that a search finds passes its test.
pub first_where_passes :
    {A : Type 0} (test : A → Bool) (rows : List A) {a : A}
    → first_where test rows ≡ some a
    → test a ≡ true
unfolding first_where
first_where_passes test [] h = cc h
first_where_passes test (b ∷ rest) h = elim (Bool-cases (test b)) [
  | inl p ↦ cc (rw p at h)
  | inr p ↦ first_where_passes test rest (rw p at h)
]

-- An active membership of a user.
abbrev pub is_active_of : ℕ → OrganizationMembership → Bool
is_active_of user m = is_of user m && is_active_row m

==_same : (n : ℕ) → (n == n) ≡ true
==_same n = ground (arith, ==_iff n n)

any_append :
    {A : Type 0} (test : A → Bool) (rows : List A) (a : A)
    → test a ≡ true
    → any test (rows ++ a ∷ []) ≡ true
any_append test [] a h = rw h refl
any_append test (b ∷ rest) a h = elim (Bool-cases (test b)) [
  | inl p ↦ rw p refl
  | inr p ↦ rw p (any_append test rest a h)
]

-- A row that is found and changed so that it passes a test leaves a row that does.
any-update_where :
    {A : Type 0} (found kept test : A → Bool) (change : A → A) (rows : List A) {a : A}
    → first_where found rows ≡ some a
    → kept a ≡ true
    → ((b : A) → test (change b) ≡ test b)
    → test a ≡ true
    → any test (update_where kept change rows) ≡ true
unfolding first_where update_where
any-update_where found kept test change [] h k same t = cc h
any-update_where found kept test change (b ∷ rest) {a} h k same t = elim (Bool-cases (found b)) [
  | inl p ↦
      let here : b ≡ a = cc (rw p at h) in rw (ap kept here ∙ k, same b ∙ ap test here ∙ t) refl
  | inr p ↦ elim (Bool-cases (test (if kept b then change b else b))) [
    | inl q ↦ rw q refl
    | inr q ↦ rw q (any-update_where found kept test change rest (rw p at h) k same t)
  ]
]

-- A user's columns are those of the grant, if it is the user's.
abbrev pub HasColumns : Grant → User → Type 0
HasColumns g u = u.id ≡ g.user → (u.organisation ≡ some g.organisation) × (u.role ≡ some g.role)

abbrev pub IsGrantRow : Grant → OrganizationMembership → Type 0
IsGrantRow g m =
    (is_at g.organisation g.user m ≡ true)
    × (is_active_row m ≡ true)
    × (m.role ≡ some g.role)
    × (m.department ≡ g.department)

-- How `update_or_create` ends: with the row of the grant, and nothing else but the memberships written.
abbrev pub Created : Grant → Tables → Result OrganizationMembership × Tables → Type 0
Created g db (err e, after) = Unit
Created g db (ok m, after) =
    IsGrantRow g m
    × (any (is_active_of g.user) after.memberships ≡ true)
    × (after.users ≡ db.users)
    × (after.requests ≡ db.requests)

active_at_facts :
    (g : Grant) (m : OrganizationMembership)
    → is_active_at g m ≡ true
    → (is_at g.organisation g.user m ≡ true)
      × (is_active_row m ≡ true)
      × (is_active_of g.user m ≡ true)
unfolding is_active_at is_at
active_at_facts g m h = ground arith

new_membership-IsGrantRow :
    (g : Grant) (db : Tables)
    → IsGrantRow g (new_membership g db) × (is_active_of g.user (new_membership g db) ≡ true)
unfolding new_membership is_at is_of is_active_row
new_membership-IsGrantRow g db = (
  ((rw (==_same g.organisation, ==_same g.user) refl), refl, refl, refl),
  rw (==_same g.user) refl,
)

create_membership-Created :
    (taken : Bool) (g : Grant) (db : Tables) → Created g db (create_membership taken g db)
unfolding create_membership
create_membership-Created true g db = tt
create_membership-Created false g db =
    let (row, of) = new_membership-IsGrantRow g db in
    (row, any_append (is_active_of g.user) db.memberships (new_membership g db) of, refl, refl)

update_membership-Created :
    (g : Grant) (db : Tables) (found : Option OrganizationMembership)
    → first_where (is_active_at g) db.memberships ≡ found
    → Created g db (update_membership found g db)
unfolding update_membership granted is_at is_of is_active_row
update_membership-Created g db none h = create_membership-Created _ g db
update_membership-Created g db (some m) h =
    let (at, live, of) =
      active_at_facts g m (first_where_passes (is_active_at g) db.memberships h) in
    (
      (at, live, refl, refl),
      any-update_where (is_active_at g) (λ n. n.id == m.id) (is_active_of g.user) (granted g)
          db.memberships h (==_same m.id) (λ n. refl) of,
      refl,
      refl,
    )

pub update_or_create-Created : (g : Grant) (db : Tables) → Created g db (update_or_create g db)
unfolding update_or_create
update_or_create-Created g db =
    update_membership-Created g db (first_where (is_active_at g) db.memberships) refl

columns_of :
    (g : Grant) (change : User → User) (users : List User)
    → ((u : User) → (change u).organisation ≡ some g.organisation)
    → ((u : User) → (change u).role ≡ some g.role)
    → ((u : User) → (change u).id ≡ u.id)
    → All (HasColumns g) (update_where (λ u. u.id == g.user) change users)
unfolding update_where
columns_of g change [] organisation role same = tt
columns_of g change (u ∷ rest) organisation role same =
    (here (Bool-cases (u.id == g.user)), columns_of g change rest organisation role same)
  where
    here :
        ((u.id == g.user) ≡ true) ⊎ ((u.id == g.user) ≡ false)
        → HasColumns g (if u.id == g.user then change u else u)
    here (inl p) = rw p (λ _. (organisation u, role u))
    here (inr p) =
        rw p (λ same_id. absurd (cc (sym p ∙ ap (λ n. n == g.user) same_id ∙ ==_same g.user)))

-- How a grant ends: with its row, which is active, and the person's columns agreeing with it.
abbrev pub Granted : Grant → Tables → Result OrganizationMembership × Tables → Type 0
Granted g db (err e, after) = Unit
Granted g db (ok m, after) =
    IsGrantRow g m
    × (any (is_active_of g.user) after.memberships ≡ true)
    × All (HasColumns g) after.users
    × (after.requests ≡ db.requests)

pub grant_membership-Granted :
    (enforce : Bool) (g : Grant) (db : Tables) → Granted g db (grant_membership enforce g db)
unfolding grant_membership in_billing close_billing write_columns
grant_membership-Granted enforce g db = reserved (Seats.reserve enforce g.organisation db.billing)
  where
    seat_of : OrganizationMembership → Billing.Exec SeatAssignment
    seat_of m = Seats.allocate false (record { id = m.id; organisation = m.organisation })

    seated :
        (m : OrganizationMembership) (db₂ : Tables)
        → Created g db (ok m, db₂)
        → (r : Billing.Result SeatAssignment × Db)
        → Granted g db (continue (λ _. modify (write_columns g) >> pure m) (close_billing db₂ r))
    seated m db₂ c (Billing.err e, b) = tt
    seated m db₂ (row, held, users, requests) (Billing.ok seat, b) =
        (row, held, columns_of g _ db₂.users (λ u. refl) (λ u. refl) (λ u. refl), requests)

    created :
        (r : Result OrganizationMembership × Tables)
        → Created g db r
        → Granted g db
            (continue (λ m. in_billing (seat_of m) >> (modify (write_columns g) >> pure m)) r)
    created (err e, db₂) c = tt
    created (ok m, db₂) c = seated m db₂ c (seat_of m db₂.billing)

    reserved :
        (r : Billing.Result (Unit {0}) × Db)
        → Granted g db (
            continue
              (λ _. update_or_create g >>= λ m.
                in_billing (seat_of m) >> (modify (write_columns g) >> pure m))
              (close_billing db r))
    reserved (Billing.err e, b) = tt
    reserved (Billing.ok _, b) =
        created (update_or_create g (record db { billing = b }))
          (update_or_create-Created g (record db { billing = b }))
