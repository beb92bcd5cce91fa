-- ===== src/Billing/Tests/Seating.antt =====
-- The calls of services/billing/seats.py on concrete rows.
use revenact_backend.Prelude.{
  ◌≡◌, refl, inr, true, false, none, [], ◌∷◌, arith, ◌==◌, if◌then◌else◌,
}
use revenact_backend.Billing.Models.{Db}
use revenact_backend.Billing.Monad.{ok}
use revenact_backend.Billing.Seats.{
  Membership, is_open, count_open, used, find_by_organisation, account_of, open_seat, new_seat,
  create_seat, is_full, take_seat, allocate, release,
}
use revenact_backend.Billing.Seats.Capacity.{IsSeated, allocate-IsSeated}
use revenact_backend.Billing.Seats.Turns.{allocate_again, release_lem}
use revenact_backend.Billing.Tests.{first_seat, db}

-- A member with no seat, another, and the one who has the seat that is taken.
abbrev maya : Membership
maya = record { id = 31; organisation = 7 }

abbrev noor : Membership
noor = record { id = 32; organisation = 7 }

abbrev otto : Membership
otto = record { id = 30; organisation = 7 }

db-IsSeated : IsSeated db
unfolding count_open is_open open_seat
db-IsSeated = record { keyed = (tt, tt); within = (omega arith, tt); single = (inr refl, tt) }

allocate-IsSeated_example : IsSeated (allocate true maya db).1
allocate-IsSeated_example = allocate-IsSeated maya db db-IsSeated

abbrev seated : Db
seated = record db {
  seats =
      record { id = 10; account = 1; membership = 31; allocated_at = 60; released_at = none }
      ∷ first_seat
      ∷ [];
  next_id = 11;
}

seat_taken : allocate true maya db ≡ (
  ok (record { id = 10; account = 1; membership = 31; allocated_at = 60; released_at = none }),
  seated,
)
unfolding allocate account_of take_seat create_seat new_seat is_full used find_by_organisation
    open_seat is_open count_open
seat_taken = refl

allocate_again_example : allocate false maya seated ≡ (
  ok (record { id = 10; account = 1; membership = 31; allocated_at = 60; released_at = none }),
  seated,
)
allocate_again_example = allocate_again true false maya db seated seat_taken

release_lem_example :
    let db' = (release otto db).1 in
    IsSeated db'
    × (open_seat 30 db'.seats ≡ (if 30 == otto.id then none else open_seat 30 db.seats))
release_lem_example = release_lem otto db 30 db-IsSeated
