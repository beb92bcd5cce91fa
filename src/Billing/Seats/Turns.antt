-- ===== src/Billing/Seats/Turns.antt =====
-- Allocations and releases that follow one another.
use revenact_backend.Prelude.{
  ℕ, ◌+◌, ◌≤◌, ◌<◌, ◌≡◌, ◌≢◌, inl, inr, refl, sym, subst, ◌∙◌, Bool, true, none, some, List, [],
  ◌∷◌, arith, ◌==◌, if◌then◌else◌, All, Bool-cases, Option-cases,
}
use revenact_backend.Billing.Models.{BillingAccount, SeatAssignment, Db}
use revenact_backend.Billing.Monad.{insufficient_seats, billing, Result, ok, err, finish, raise}
use revenact_backend.Billing.Seats.{
  Membership, is_open, count_open, used, find_by_organisation, open_seat, new_seat, create_seat,
  is_full, take_seat, allocate, close_seats, release,
}
use revenact_backend.Billing.Seats.Capacity.{
  IsSeated, IsSingle, allocate_missing, allocate_held, allocate_free,
}

take_seat_full :
    (a : BillingAccount) (m : Membership) (db : Db)
    → a.seats_limit ≤ count_open a.id db.seats
    → take_seat true a m db ≡ (err (billing insufficient_seats), db)
unfolding take_seat is_full used
take_seat_full a m db full = ground arith

take_seat_room :
    (a : BillingAccount) (m : Membership) (db : Db)
    → count_open a.id db.seats < a.seats_limit
    → open_seat m.id db.seats ≡ none
    → take_seat true a m db ≡ (
      ok (new_seat a m db),
      record db { seats = new_seat a m db ∷ db.seats; next_id = db.next_id + 1 },
    )
unfolding take_seat is_full used create_seat new_seat
take_seat_room a m db room free = rw free (ground arith)

-- Two members of an organisation approved for its last seat, one after the other: the first is
-- given it, and the second is refused with nothing written.
pub allocate_last_seat :
    (m m' : Membership) (db : Db) {a : BillingAccount}
    → find_by_organisation m.organisation db.accounts ≡ some a
    → m'.organisation ≡ m.organisation
    → m'.id ≢ m.id
    → open_seat m.id db.seats ≡ none
    → open_seat m'.id db.seats ≡ none
    → count_open a.id db.seats + 1 ≡ a.seats_limit
    → let (first, db') = allocate true m db in
      (first ≡ ok (new_seat a m db))
      × (allocate true m' db' ≡ (err (billing insufficient_seats), db'))
unfolding new_seat count_open open_seat
allocate_last_seat m m' db {a} found same ne free free' last =
    rw (allocate_free true m db found free, take_seat_room a m db (omega arith) free) (refl, second)
  where
    db' : Db
    db' = record db { seats = new_seat a m db ∷ db.seats; next_id = db.next_id + 1 }

    still_free : open_seat m'.id db'.seats ≡ none
    still_free = ground arith

    full : a.seats_limit ≤ count_open a.id db'.seats
    full = ground arith

    second : allocate true m' db' ≡ (err (billing insufficient_seats), db')
    second =
        rw
          (
            allocate_free true m' db' {a = a} (rw same found) still_free,
            take_seat_full a m' db' full,
          )
          refl

finish_take :
    (enforce : Bool) (a : BillingAccount) (m : Membership) (db db' : Db) {seat : SeatAssignment}
    → open_seat m.id db.seats ≡ none
    → finish raise db (take_seat enforce a m db) ≡ (ok seat, db')
    → (db'.accounts ≡ db.accounts) × (open_seat m.id db'.seats ≡ some seat)
unfolding take_seat create_seat new_seat open_seat
finish_take enforce a m db db' free h = elim (Bool-cases (is_full enforce a db)) [
  | inl full ↦ cc (rw full at h)
  | inr room ↦ ground (arith, rw (room, free) at h)
]

-- An allocation that returned, repeated, returns the same seat and writes nothing, enforced or not.
pub allocate_again :
    (enforce again : Bool) (m : Membership) (db db' : Db) {seat : SeatAssignment}
    → allocate enforce m db ≡ (ok seat, db')
    → allocate again m db' ≡ (ok seat, db')
allocate_again enforce again m db db' {seat} h =
    elim (Option-cases (find_by_organisation m.organisation db.accounts)) [
      | inl missing ↦ cc (sym (allocate_missing enforce m db missing) ∙ h)
      | inr (a, found) ↦ elim (Option-cases (open_seat m.id db.seats)) [
        | inr (held, e) ↦
            let same : ◌≡◌ {A = Result SeatAssignment × Db} (ok held, db) (ok seat, db') =
              sym (allocate_held enforce m db found e) ∙ h in
            subst (λ (p : Result SeatAssignment × Db). allocate again m p.1 ≡ p) same
              (allocate_held again m db found e)
        | inl free ↦
            let (kept, taken) =
              finish_take enforce a m db db' free
                (sym (allocate_free enforce m db found free) ∙ h) in
            allocate_held again m db' {a = a} (rw kept found) taken
      ]
    ]

count_open-close_seats :
    (pk membership now : ℕ) (seats : List SeatAssignment)
    → count_open pk (close_seats membership now seats) ≤ count_open pk seats
unfolding count_open close_seats
count_open-close_seats pk membership now [] = omega arith
count_open-close_seats pk membership now (s ∷ seats) =
    ground (arith, count_open-close_seats pk membership now seats)

open_seat-close_seats :
    (m membership now : ℕ) (seats : List SeatAssignment)
    → open_seat m (close_seats membership now seats)
      ≡ (if m == membership then none else open_seat m seats)
unfolding open_seat close_seats
open_seat-close_seats m membership now [] = ground arith
open_seat-close_seats m membership now (s ∷ seats) =
    ground (arith, open_seat-close_seats m membership now seats)

IsSingle-close_seats :
    (membership now : ℕ) (seats : List SeatAssignment)
    → IsSingle seats
    → IsSingle (close_seats membership now seats)
unfolding close_seats is_open
IsSingle-close_seats membership now [] h = tt
IsSingle-close_seats membership now (s ∷ seats) h = (
  ground (arith, h.0, open_seat-close_seats s.membership membership now seats),
  IsSingle-close_seats membership now seats h.1,
)

within-close_seats :
    (membership now : ℕ) (seats : List SeatAssignment) (accounts : List BillingAccount)
    → All (λ a. count_open a.id seats ≤ a.seats_limit) accounts
    → All (λ a. count_open a.id (close_seats membership now seats) ≤ a.seats_limit) accounts
within-close_seats membership now seats [] h = tt
within-close_seats membership now seats (a ∷ rest) h = (
  omega (arith, count_open-close_seats a.id membership now seats),
  within-close_seats membership now seats rest h.1,
)

-- A release leaves the membership with no open seat and every other membership's seat as it was,
-- and keeps the accounts within their allowances.
pub release_lem :
    (m : Membership) (db : Db) (other : ℕ)
    → IsSeated db
    → let db' = (release m db).1 in
      IsSeated db'
      × (open_seat other db'.seats ≡ (if other == m.id then none else open_seat other db.seats))
unfolding release
release_lem m db other v = (
  record {
    keyed = v.keyed;
    within = within-close_seats m.id db.now db.seats db.accounts v.within;
    single = IsSingle-close_seats m.id db.now db.seats v.single;
  },
  open_seat-close_seats other m.id db.now db.seats,
)
