-- ===== src/Admission/Owners.antt =====
-- services/identity/ownership.py `transfer`: one owner before, one owner after.
use revenact_backend.Prelude.{
  ℕ, ◌≡◌, refl, sym, ap, ◌∙◌, Bool, true, false, not, ◌&&◌, ◌||◌, Option, none, some, List, [], ◌∷◌,
  ◌==◌, ==_iff, if◌then◌else◌, inl, inr, arith, All, Bool-cases,
}
use revenact_backend.Admission.Rows.{
  Role, User, OrganizationMembership, Tables, ownership, not_owner, not_a_member, already_owner,
  Result, ok, err,
}
use revenact_backend.Admission.{first_where, update_where, log}
use revenact_backend.Admission.Grants.{after_guard, first_where_passes}
use revenact_backend.Admission.Ownership.{
  is_owned, owner_membership, disown, is_member, drop_owner, crown, hand_over, is_not_owner,
  is_same_row, has_active_user, transfer_to, transfer,
}

module _ (organisation : ℕ) where
  -- The constraint that no two memberships own one organisation.
  abbrev pub IsSole : List OrganizationMembership → Type 0
  IsSole [] = Unit
  IsSole (m ∷ rest) =
      (is_owned organisation m ≡ true → All (λ n. is_owned organisation n ≡ false) rest)
      × IsSole rest

  -- An owning row is the one that was found.
  abbrev IsFound : Option OrganizationMembership → OrganizationMembership → Type 0
  IsFound none m = ⊥
  IsFound (some c) m = m.id ≡ c.id

  abbrev OwnerIs : Option OrganizationMembership → OrganizationMembership → Type 0
  OwnerIs current m = is_owned organisation m ≡ true → IsFound current m

  not_owned :
      (current : Option OrganizationMembership) (rows : List OrganizationMembership)
      → All (λ n. is_owned organisation n ≡ false) rows
      → All (OwnerIs current) rows
  not_owned current [] h = tt
  not_owned current (m ∷ rest) h = ((λ p. absurd (cc (sym p ∙ h.0))), not_owned current rest h.1)

  found_owner :
      (current : Option OrganizationMembership) (rows : List OrganizationMembership)
      → first_where (is_owned organisation) rows ≡ current
      → IsSole rows
      → All (OwnerIs current) rows
  unfolding first_where
  found_owner current [] h sole = tt
  found_owner current (m ∷ rest) h sole = elim (Bool-cases (is_owned organisation m)) [
    | inl p ↦ (here current (rw p at h), not_owned current rest (sole.0 p))
    | inr p ↦ ((λ q. absurd (cc (sym p ∙ q))), found_owner current rest (rw p at h) sole.1)
  ]
    where
      here : (current : Option OrganizationMembership) → some m ≡ current → OwnerIs current m
      here none e = absurd (cc e)
      here (some c) e = λ _. ap (λ (n : OrganizationMembership). n.id) (some_same c e)
        where
          some_same : (c : OrganizationMembership) → some m ≡ some c → m ≡ c
          some_same c e = cc e

  -- After the hand-over, a row of the organisation owns it if and only if it is the target's.
  abbrev pub OwnsOnly : OrganizationMembership → OrganizationMembership → Type 0
  OwnsOnly target m = m.organisation ≡ organisation → m.is_owner ≡ (m.id == target.id)

  owned :
      (m : OrganizationMembership)
      → m.organisation ≡ organisation
      → m.is_owner ≡ true
      → is_owned organisation m ≡ true
  unfolding is_owned
  owned m same p = ground (arith, same, p, ==_iff m.organisation organisation)

  crowned :
      (target : OrganizationMembership) (admin : Role) (m : OrganizationMembership)
      → ((m.id == target.id) ≡ false → OwnsOnly target m)
      → OwnsOnly target (if m.id == target.id then crown admin m else m)
  unfolding crown
  crowned target admin m h = elim (Bool-cases (m.id == target.id)) [
    | inl p ↦ rw p (λ _. sym p)
    | inr p ↦ rw p (h p)
  ]

  kept :
      (target m : OrganizationMembership)
      → OwnerIs none m
      → (m.id == target.id) ≡ false
      → OwnsOnly target m
  kept target m h p same = elim (Bool-cases (m.is_owner)) [
    | inl q ↦ absurd (h (owned m same q))
    | inr q ↦ q ∙ sym p
  ]

  dropped :
      (current target m : OrganizationMembership)
      → OwnerIs (some current) m
      → ((if m.id == current.id then disown m else m).id == target.id) ≡ false
      → OwnsOnly target (if m.id == current.id then disown m else m)
  unfolding disown
  dropped current target m h = at (m.id == current.id) refl
    where
      at :
          (b : Bool)
          → (m.id == current.id) ≡ b
          → ((if b then disown m else m).id == target.id) ≡ false
          → OwnsOnly target (if b then disown m else m)
      at true q p = λ _. sym p
      at false q p = kept target m (λ r. cc (sym q ∙ (==_iff m.id current.id).1 (h r))) p

  handed_over :
      (current : Option OrganizationMembership) (target : OrganizationMembership) (admin : Role)
      (rows : List OrganizationMembership)
      → All (OwnerIs current) rows
      → All
          (OwnsOnly target)
          (update_where (λ m. m.id == target.id) (crown admin) (drop_owner current rows))
  unfolding drop_owner update_where
  handed_over none target admin [] h = tt
  handed_over (some current) target admin [] h = tt
  handed_over none target admin (m ∷ rest) h =
      (crowned target admin m (kept target m h.0), handed_over none target admin rest h.1)
  handed_over (some current) target admin (m ∷ rest) h = (
    crowned target admin _ (dropped current target m h.0),
    handed_over (some current) target admin rest h.1,
  )

-- The owner may hand the organisation over, and platform staff may.
abbrev pub may_transfer : Bool → ℕ → User → Tables → Bool
may_transfer by_platform organisation actor db =
    by_platform || not (is_not_owner actor (owner_membership organisation db))

-- How a transfer ends: an error leaves the tables as they were; otherwise the row of an active member
-- whom it was to go to came back, and it is the organisation's only owning row.
abbrev pub Transferred :
    Bool → ℕ → ℕ → User → Tables → Result OrganizationMembership × Tables → Type 0
Transferred by_platform organisation to_user actor db (err e, after) = after ≡ db
Transferred by_platform organisation to_user actor db (ok target, after) =
    (may_transfer by_platform organisation actor db ≡ true)
    × (is_member organisation to_user target ≡ true)
    × All (OwnsOnly organisation target) after.memberships

module _ (by_platform : Bool) (organisation to_user : ℕ) (actor : User) (admin : Role)
    (db : Tables) where
  transfer_to-Transferred :
      (found : Option OrganizationMembership)
      → IsSole organisation db.memberships
      → may_transfer by_platform organisation actor db ≡ true
      → first_where (is_member organisation to_user) db.memberships ≡ found
      → Transferred by_platform organisation to_user actor db
          (transfer_to organisation (owner_membership organisation db) actor admin found db)
  unfolding transfer_to owner_membership hand_over log
  transfer_to-Transferred none sole may h = refl
  transfer_to-Transferred (some target) sole may h =
      after_guard (Transferred by_platform organisation to_user actor db)
        (not (has_active_user target db)) (ownership not_a_member) _ db (λ _. refl)
        (λ _.
          after_guard (Transferred by_platform organisation to_user actor db)
            (is_same_row target (first_where (is_owned organisation) db.memberships))
            (ownership already_owner) _ db (λ _. refl)
            (λ _. (
              may,
              first_where_passes (is_member organisation to_user) db.memberships h,
              handed_over organisation _ target admin db.memberships
                  (found_owner organisation _ db.memberships refl sole),
            )))

  -- Where no two memberships own the organisation, a transfer either raises and changes nothing, or its
  -- owner or platform staff asked for it, and it goes to the active member that was asked for, whose
  -- membership is then the only one of the organisation's that owns it.
  pub transfer-Transferred :
      IsSole organisation db.memberships
      → Transferred by_platform organisation to_user actor db
          (transfer by_platform organisation to_user actor admin db)
  unfolding transfer
  transfer-Transferred sole =
      after_guard (Transferred by_platform organisation to_user actor db)
        (not by_platform && is_not_owner actor (owner_membership organisation db))
        (ownership not_owner) _ db (λ _. refl)
        (λ p.
          transfer_to-Transferred (first_where (is_member organisation to_user) db.memberships) sole
            (ground (arith, p)) refl)
