-- ===== src/Billing/Seats.antt =====
-- services/billing/seats.py: one open assignment per member who holds a seat, counted under the lock
-- on the account row, so calls on an account follow one another.
pub mod Capacity
pub mod Turns
use revenact_backend.Prelude.{
  ℕ, suc, ◌+◌, ◌-◌, Bool, true, false, ◌&&◌, Option, none, some, List, [], ◌∷◌, leb, ◌==◌, is_some,
  if◌then◌else◌,
}
use revenact_backend.Billing.Models.{BillingAccount, SeatAssignment, Db}
use revenact_backend.Billing.Monad.{
  insufficient_seats, billing, does_not_exist, integrity_error, ok, err, Exec, pure, gets, or_raise,
  atomic, ◌>>=◌, ◌>>◌, raise_if, modify,
}

-- A membership, as the seat check reads it.
pub record Membership : Type 0 where
  pub id : ℕ
  pub organisation : ℕ

-- `released_at is None`
unfoldable pub is_open : SeatAssignment → Bool
is_open s = elim (s.released_at) [ none ↦ true | some _ ↦ false ]

-- `count()` of the open assignments of an account.
unfoldable pub count_open : ℕ → List SeatAssignment → ℕ
unfolding is_open
count_open account [] = 0
count_open account (s ∷ seats) =
    let rest = count_open account seats in
    if s.account == account && is_open s then suc rest else rest

unfoldable pub used : BillingAccount → Db → ℕ
unfolding count_open
used account db = count_open account.id db.seats

unfoldable pub available : BillingAccount → Db → ℕ
unfolding used
available account db = account.seats_limit - used account db

-- `get(organisation_id=...)`
unfoldable pub find_by_organisation : ℕ → List BillingAccount → Option BillingAccount
find_by_organisation organisation [] = none
find_by_organisation organisation (a ∷ rest) =
    if a.organisation == organisation then some a else find_by_organisation organisation rest

unfoldable pub account_of : ℕ → Exec BillingAccount
unfolding find_by_organisation
account_of organisation db =
    or_raise (find_by_organisation organisation db.accounts) does_not_exist db

-- The open assignment of a membership, if it has one.
unfoldable pub open_seat : ℕ → List SeatAssignment → Option SeatAssignment
unfolding is_open
open_seat membership [] = none
open_seat membership (s ∷ seats) =
    if s.membership == membership && is_open s then some s else open_seat membership seats

unfoldable pub new_seat : BillingAccount → Membership → Db → SeatAssignment
new_seat account membership db = record {
  id = db.next_id;
  account = account.id;
  membership = membership.id;
  allocated_at = db.now;
  released_at = none;
}

-- `SeatAssignment.objects.create`, with the constraint of one open seat per membership.
unfoldable pub create_seat : SeatAssignment → Exec SeatAssignment
create_seat seat db =
    if is_open seat && is_some (open_seat seat.membership db.seats)
    then (err integrity_error, db)
    else (ok seat, record db { seats = seat ∷ db.seats; next_id = db.next_id + 1 })

-- The check that `allocate` and `reserve` share: every seat is taken.
unfoldable pub is_full : Bool → BillingAccount → Db → Bool
unfolding used
is_full enforce account db = enforce && leb account.seats_limit (used account db)

-- What `allocate` does for a membership with no open seat.
unfoldable pub take_seat : Bool → BillingAccount → Membership → Exec SeatAssignment
take_seat enforce account membership db =
    if is_full enforce account db
    then (err (billing insufficient_seats), db)
    else create_seat (new_seat account membership db) db

unfoldable pub allocate : Bool → Membership → Exec SeatAssignment
allocate enforce membership = atomic do
  account ← account_of membership.organisation
  existing ← gets (λ db. open_seat membership.id db.seats)
  elim existing [ some seat ↦ pure seat | none ↦ take_seat enforce account membership ]

unfoldable pub reserve : Bool → ℕ → Exec (Unit {0})
reserve enforce organisation = do
  account ← account_of organisation
  full ← gets (is_full enforce account)
  raise_if full (billing insufficient_seats)

-- `update(released_at=now)` on the open assignments of a membership.
unfoldable pub close_seats : ℕ → ℕ → List SeatAssignment → List SeatAssignment
unfolding is_open
close_seats membership now [] = []
close_seats membership now (s ∷ seats) =
    (if s.membership == membership && is_open s then record s { released_at = some now } else s)
    ∷ close_seats membership now seats

unfoldable pub count_open_of : ℕ → List SeatAssignment → ℕ
unfolding is_open
count_open_of membership [] = 0
count_open_of membership (s ∷ seats) =
    let rest = count_open_of membership seats in
    if s.membership == membership && is_open s then suc rest else rest

-- Returns how many were closed.
unfoldable pub release : Membership → Exec ℕ
unfolding close_seats count_open_of
release membership db = (
  ok (count_open_of membership.id db.seats),
  record db { seats = close_seats membership.id db.now db.seats },
)
