-- ===== src/Billing/Seats/Capacity.antt =====
-- Seats in use never pass the allowance by way of an enforced allocation.
use revenact_backend.Prelude.{
  ℕ, suc, ◌≤◌, ◌<◌, ◌≡◌, ◌≢◌, ◌⊎◌, inl, inr, refl, sym, ap, ◌∙◌, subst, ℕ_discrete, Bool, true,
  false, none, some, List, [], ◌∷◌, arith, leb, ◌==◌, All, Bool-cases, Option-cases,
}
use revenact_backend.Billing.Models.{BillingAccount, SeatAssignment, Db}
use revenact_backend.Billing.Monad.{does_not_exist, Result, ok, err, finish, raise}
use revenact_backend.Billing.Seats.{
  Membership, is_open, count_open, used, find_by_organisation, account_of, open_seat, new_seat,
  create_seat, is_full, take_seat, allocate,
}

-- No two accounts share a key.
abbrev pub IsKeyed : List BillingAccount → Type 0
IsKeyed [] = Unit
IsKeyed (a ∷ rest) = All (λ b. b.id ≢ a.id) rest × IsKeyed rest

-- A membership has one open seat at most.
abbrev pub IsSingle : List SeatAssignment → Type 0
IsSingle [] = Unit
IsSingle (s ∷ rest) = ((is_open s ≡ false) ⊎ (open_seat s.membership rest ≡ none)) × IsSingle rest

pub record IsSeated (db : Db) : Type 0 where
  pub keyed : IsKeyed db.accounts
  pub within : All (λ a. count_open a.id db.seats ≤ a.seats_limit) db.accounts
  pub single : IsSingle db.seats

All-find {κ} :
    (P : BillingAccount → Type κ) (organisation : ℕ) (accounts : List BillingAccount)
    {a : BillingAccount}
    → All P accounts
    → find_by_organisation organisation accounts ≡ some a
    → P a
unfolding find_by_organisation
All-find P organisation [] h e = cc
All-find P organisation (b ∷ rest) {a} h e = elim (Bool-cases (b.organisation == organisation)) [
  | inl here ↦ (let same : b ≡ a = cc (rw here at e) in subst P same h.0)
  | inr later ↦ All-find P organisation rest h.1 (rw later at e)
]

-- The accounts with the key of the one that was found have its allowance: they are that one.
same_limit :
    (organisation : ℕ) (accounts : List BillingAccount) {a : BillingAccount}
    → IsKeyed accounts
    → find_by_organisation organisation accounts ≡ some a
    → All (λ b. (b.id ≢ a.id) ⊎ (b.seats_limit ≡ a.seats_limit)) accounts
unfolding find_by_organisation
same_limit organisation [] k e = tt
same_limit organisation (b ∷ rest) {a} k e = elim (Bool-cases (b.organisation == organisation)) [
  | inl here ↦
      let same : b ≡ a = (cc (rw here at e)) in
      (inr (ap (λ (x : BillingAccount). x.seats_limit) same), others rest (rw same at (k.0)))
  | inr later ↦
      let found = rw later at e in
      (
        inl (λ q. All-find (λ c. c.id ≢ b.id) organisation rest k.0 found (sym q)),
        same_limit organisation rest k.1 found,
      )
]
  where
    others :
        (l : List BillingAccount)
        → All (λ c. c.id ≢ a.id) l
        → All (λ c. (c.id ≢ a.id) ⊎ (c.seats_limit ≡ a.seats_limit)) l
    others [] h = tt
    others (c ∷ l) h = (inl h.0, others l h.1)

count_open-cons :
    (pk : ℕ) (seat : SeatAssignment) (seats : List SeatAssignment)
    → (seat.account ≢ pk → count_open pk (seat ∷ seats) ≡ count_open pk seats)
      × (count_open pk (seat ∷ seats) ≤ suc (count_open pk seats))
unfolding count_open
count_open-cons pk seat seats = (λ ne. ground arith, ground arith)

within-cons :
    (a : BillingAccount) (seat : SeatAssignment) (seats : List SeatAssignment)
    (accounts : List BillingAccount)
    → seat.account ≡ a.id
    → count_open a.id seats < a.seats_limit
    → All (λ b. (b.id ≢ a.id) ⊎ (b.seats_limit ≡ a.seats_limit)) accounts
    → All (λ b. count_open b.id seats ≤ b.seats_limit) accounts
    → All (λ b. count_open b.id (seat ∷ seats) ≤ b.seats_limit) accounts
within-cons a seat seats [] s room same w = tt
within-cons a seat seats (b ∷ rest) s room same w = (
  elim (ℕ_discrete b.id a.id) [
    | yes e ↦ elim (same.0) [
      | inl ne ↦ absurd (ne e)
      | inr limit ↦ rw (e, limit) (omega (arith, (count_open-cons a.id seat seats).1))
    ]
    | no ne ↦ rw ((count_open-cons b.id seat seats).0 (λ q. ne (sym q ∙ s))) w.0
  ],
  within-cons a seat seats rest s room same.1 w.1,
)

-- How an allocation that began at `db` ended, in an account that was within its allowance or not.
create_seat-IsSeated :
    (a : BillingAccount) (m : Membership) (db : Db)
    → IsSeated db
    → All (λ b. (b.id ≢ a.id) ⊎ (b.seats_limit ≡ a.seats_limit)) db.accounts
    → count_open a.id db.seats < a.seats_limit
    → open_seat m.id db.seats ≡ none
    → IsSeated (create_seat (new_seat a m db) db).1
unfolding create_seat new_seat is_open
create_seat-IsSeated a m db v same room free = rw free (record {
  keyed = v.keyed;
  within = within-cons a (new_seat a m db) db.seats db.accounts refl room same v.within;
  single = (inr free, v.single);
})

take_seat-IsSeated :
    (a : BillingAccount) (m : Membership) (db : Db)
    → IsSeated db
    → All (λ b. (b.id ≢ a.id) ⊎ (b.seats_limit ≡ a.seats_limit)) db.accounts
    → open_seat m.id db.seats ≡ none
    → IsSeated (take_seat true a m db).1
unfolding take_seat is_full used
take_seat-IsSeated a m db v same free =
    elim (Bool-cases (leb a.seats_limit (count_open a.id db.seats))) [
      | inl full ↦ rw full v
      | inr room ↦ rw room (create_seat-IsSeated a m db v same (ground arith) free)
    ]

pub account_of-eq :
    (organisation : ℕ) (db : Db) {a : BillingAccount}
    → find_by_organisation organisation db.accounts ≡ some a
    → account_of organisation db ≡ (ok a, db)
unfolding account_of
account_of-eq organisation db found = rw found

pub account_of_missing :
    (organisation : ℕ) (db : Db)
    → find_by_organisation organisation db.accounts ≡ none
    → account_of organisation db ≡ (err does_not_exist, db)
unfolding account_of
account_of_missing organisation db missing = rw missing

-- An allocation, by whether the account exists and whether the membership has a seat.
pub allocate_missing :
    (enforce : Bool) (m : Membership) (db : Db)
    → find_by_organisation m.organisation db.accounts ≡ none
    → allocate enforce m db ≡ (err does_not_exist, db)
unfolding allocate
allocate_missing enforce m db missing = rw (account_of_missing m.organisation db missing) refl

pub allocate_held :
    (enforce : Bool) (m : Membership) (db : Db) {a : BillingAccount} {seat : SeatAssignment}
    → find_by_organisation m.organisation db.accounts ≡ some a
    → open_seat m.id db.seats ≡ some seat
    → allocate enforce m db ≡ (ok seat, db)
unfolding allocate
allocate_held enforce m db found held = rw (account_of-eq m.organisation db found, held) refl

pub allocate_free :
    (enforce : Bool) (m : Membership) (db : Db) {a : BillingAccount}
    → find_by_organisation m.organisation db.accounts ≡ some a
    → open_seat m.id db.seats ≡ none
    → allocate enforce m db ≡ finish raise db (take_seat enforce a m db)
unfolding allocate
allocate_free enforce m db found free = rw (account_of-eq m.organisation db found, free) refl

finish-IsSeated :
    (db : Db) (r : Result SeatAssignment × Db)
    → IsSeated db
    → IsSeated r.1
    → IsSeated (finish raise db r).1
finish-IsSeated db (ok a, db') v w = w
finish-IsSeated db (err e, db') v w = v

-- An enforced allocation, whether it returns or raises, keeps every account within its allowance
-- and every membership at one open seat at most.
pub allocate-IsSeated : (m : Membership) (db : Db) → IsSeated db → IsSeated (allocate true m db).1
allocate-IsSeated m db v = elim (Option-cases (find_by_organisation m.organisation db.accounts)) [
  | inl missing ↦ rw (allocate_missing true m db missing) v
  | inr (a, found) ↦ elim (Option-cases (open_seat m.id db.seats)) [
    | inr (seat, held) ↦ rw (allocate_held true m db found held) v
    | inl free ↦ rw (allocate_free true m db found free) (
        finish-IsSeated db _ v
          (take_seat-IsSeated a m db v (same_limit m.organisation db.accounts v.keyed found) free))
  ]
]
