-- ===== src/Admission/Ownership.antt =====
-- services/identity/ownership.py: whom an organisation belongs to.
use revenact_backend.Prelude.{
  ℕ, Bool, true, false, not, ◌&&◌, Option, none, some, List, any, ◌==◌, if◌then◌else◌,
}
use revenact_backend.Admission.Rows.{
  Role, User, OrganizationMembership, Tables, ownership, not_owner, not_a_member, already_owner,
  Call, pure, raise, gets, ◌>>=◌, ◌>>◌, raise_if, modify,
}
use revenact_backend.Admission.{is_active_row, is_at, first_where, update_where, log}
use revenact_backend.Admission.Codes.{find_user}

-- The owning row of an organisation.
unfoldable pub is_owned : ℕ → OrganizationMembership → Bool
is_owned organisation m = m.organisation == organisation && m.is_owner

-- `owner_membership`
unfoldable pub owner_membership : ℕ → Tables → Option OrganizationMembership
unfolding is_owned first_where
owner_membership organisation db = first_where (is_owned organisation) db.memberships

-- `is_owner`
unfoldable pub is_owner_at : ℕ → ℕ → Tables → Bool
unfolding is_at
is_owner_at organisation user db = any (λ m. is_at organisation user m && m.is_owner) db.memberships

unfoldable pub own : OrganizationMembership → OrganizationMembership
own m = record m { is_owner = true }

unfoldable pub disown : OrganizationMembership → OrganizationMembership
disown m = record m { is_owner = false }

unfoldable pub is_member : ℕ → ℕ → OrganizationMembership → Bool
unfolding is_at is_active_row
is_member organisation user m = is_at organisation user m && is_active_row m

-- `claim`
unfoldable pub claim : ℕ → ℕ → Tables → Tables
unfolding is_owned is_member own update_where
claim user organisation db =
    if any (is_owned organisation) db.memberships
    then db
    else record db { memberships = update_where (is_member organisation user) own db.memberships }

-- The three updates of `transfer`: the owner's row, the new owner's row and its column.
unfoldable pub drop_owner :
    Option OrganizationMembership → List OrganizationMembership → List OrganizationMembership
unfolding disown update_where
drop_owner none rows = rows
drop_owner (some current) rows = update_where (λ m. m.id == current.id) disown rows

unfoldable pub crown : Role → OrganizationMembership → OrganizationMembership
crown role m = record m { is_owner = true; role = some role }

unfoldable pub hand_over :
    Option OrganizationMembership → OrganizationMembership → Role → Tables → Tables
unfolding drop_owner crown update_where
hand_over current target role db = record db {
  memberships =
      update_where (λ m. m.id == target.id) (crown role) (drop_owner current db.memberships);
  users =
      update_where (λ u. u.id == target.user) (λ (u : User). record u { role = some role })
        db.users;
}

-- `current is None or current.user_id != actor.pk`
unfoldable pub is_not_owner : User → Option OrganizationMembership → Bool
is_not_owner actor none = true
is_not_owner actor (some current) = not (current.user == actor.id)

unfoldable pub is_same_row : OrganizationMembership → Option OrganizationMembership → Bool
is_same_row target none = false
is_same_row target (some current) = current.id == target.id

-- `target.user.is_active`
unfoldable pub has_active_user : OrganizationMembership → Tables → Bool
unfolding find_user
has_active_user target db = elim (find_user target.user db) [ some u ↦ u.is_active | none ↦ false ]

-- `transfer`, where `admin` is the organisation's built-in role of administrators.
unfoldable pub transfer_to :
    ℕ
    → Option OrganizationMembership
    → User
    → Role
    → Option OrganizationMembership
    → Call Tables OrganizationMembership
unfolding has_active_user is_same_row hand_over log
transfer_to organisation current actor admin none = raise (ownership not_a_member)
transfer_to organisation current actor admin (some target) = do
  live ← gets (has_active_user target)
  raise_if (not live) (ownership not_a_member)
  raise_if (is_same_row target current) (ownership already_owner)
  modify (hand_over current target admin)
  modify (log "organisation.owner_transferred" actor.id (some organisation) target.user)
  pure target

unfoldable pub transfer : Bool → ℕ → ℕ → User → Role → Call Tables OrganizationMembership
unfolding owner_membership is_not_owner is_member first_where transfer_to
transfer by_platform organisation to_user actor admin = do
  current ← gets (owner_membership organisation)
  raise_if (not by_platform && is_not_owner actor current) (ownership not_owner)
  target ← gets (λ (db : Tables). first_where (is_member organisation to_user) db.memberships)
  transfer_to organisation current actor admin target
