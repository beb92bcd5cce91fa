-- ===== src/Domains/Exclusive.antt =====
-- A domain has one verified holder at most.
use revenact_backend.Prelude.{
  ℕ, String, ◌≡◌, ◌≢◌, refl, sym, ◌∙◌, inl, inr, ◌⊎◌, Bool, true, false, List, [], ◌∷◌, map, arith,
  str_eq, str_eq_iff, Bool-cases, All,
}
use revenact_backend.Domains.{
  OrganizationDomain, Tables, Result, ok, provider_error, World, is_verified, is_revoked, promoted,
  promote, verify, check_values, lookup_txt,
}

-- Two rows have different keys, and do not both hold one domain.
pub record IsApart (r s : OrganizationDomain) : Type 0 where
  pub keys : s.id ≢ r.id
  pub holders : (s.domain ≢ r.domain) ⊎ ((is_verified s ≡ false) ⊎ (is_verified r ≡ false))

abbrev pub IsExclusive : List OrganizationDomain → Type 0
IsExclusive [] = Unit
IsExclusive (r ∷ rest) = All (IsApart r) rest × IsExclusive rest

-- The rows with the key of `d` are for its domain.
abbrev pub IsOf : OrganizationDomain → List OrganizationDomain → Type 0
IsOf d = All (λ r. (r.id ≢ d.id) ⊎ (r.domain ≡ d.domain))

module _ (d : OrganizationDomain) (now : ℕ) where
  promoted_fields :
      (r : OrganizationDomain)
      → ((promoted d now r).id ≡ r.id) × ((promoted d now r).domain ≡ r.domain)
  unfolding promoted
  promoted_fields r = ground arith

  -- A row that is verified afterwards is the one promoted, or was verified and is for another domain.
  verified_after :
      (r : OrganizationDomain)
      → is_verified (promoted d now r) ≡ true
      → (r.id ≡ d.id) ⊎ ((r.domain ≢ d.domain) × (is_verified r ≡ true))
  unfolding promoted is_verified is_revoked
  verified_after r h = ground (arith, str_eq_iff r.domain d.domain)

  IsApart-promoted :
      (r s : OrganizationDomain)
      → (r.id ≢ d.id) ⊎ (r.domain ≡ d.domain)
      → (s.id ≢ d.id) ⊎ (s.domain ≡ d.domain)
      → IsApart r s
      → IsApart (promoted d now r) (promoted d now s)
  IsApart-promoted r s hr hs apart = record {
    keys = λ e. apart.keys (sym (promoted_fields s).0 ∙ e ∙ (promoted_fields r).0);
    holders = elim (Bool-cases (is_verified (promoted d now s))) [
      | inr lost ↦ inr (inl lost)
      | inl held ↦ elim (Bool-cases (is_verified (promoted d now r))) [
        | inr lost ↦ inr (inr lost)
        | inl kept ↦ inl (λ e. ground (
          arith,
          verified_after r kept,
          verified_after s held,
          apart.keys,
          apart.holders,
          hr,
          hs,
          e,
          (promoted_fields s).1,
          (promoted_fields r).1,
        ))
      ]
    ];
  }

  All-promoted :
      (r : OrganizationDomain) (rest : List OrganizationDomain)
      → (r.id ≢ d.id) ⊎ (r.domain ≡ d.domain)
      → IsOf d rest
      → All (IsApart r) rest
      → All (IsApart (promoted d now r)) (map (promoted d now) rest)
  All-promoted r [] hr h a = tt
  All-promoted r (s ∷ rest) hr h a =
      (IsApart-promoted r s hr h.0 a.0, All-promoted r rest hr h.1 a.1)

  IsExclusive-promoted :
      (l : List OrganizationDomain)
      → IsOf d l
      → IsExclusive l
      → IsExclusive (map (promoted d now) l)
  IsExclusive-promoted [] h x = tt
  IsExclusive-promoted (r ∷ rest) h x =
      (All-promoted r rest h.0 h.1 x.0, IsExclusive-promoted rest h.1 x.1)

module _ (world : World) (d : OrganizationDomain) (now : ℕ) (t : Tables) where
  -- The two ways that `verify` leaves the tables.
  pub verify_cases :
      (verify world d now t).1 ≡ t
      ⊎ (((verify world d now t).0 ≡ ok true)
          × ((verify world d now t).1 ≡ promote d now t)
          × (is_verified d ≡ false))
  unfolding verify check_values
  verify_cases = elim (Bool-cases (str_eq d.verification_token "")) [
    | inl blank ↦ rw blank (inl refl)
    | inr token ↦ rw token (looked (lookup_txt world d.domain))
  ]
    where
      looked :
          (r : Result (List String))
          → let out = elim r as (λ x. Result Bool × Tables) [
            | ok values ↦ check_values world d now values t
            | provider_error ↦ (provider_error, t)
          ] in
            (out.1 ≡ t) ⊎ ((out.0 ≡ ok true) × (out.1 ≡ promote d now t) × (is_verified d ≡ false))
      looked provider_error = inl refl
      looked (ok values) = ground arith

  -- Whatever the resolvers answer, a verification keeps every domain with one verified holder at most,
  -- where the record that it is called with is a row of the table.
  pub verify-IsExclusive :
      IsOf d t.domains → IsExclusive t.domains → IsExclusive (verify world d now t).1.domains
  unfolding promote
  verify-IsExclusive h x = elim verify_cases [
    | inl same ↦ rw same x
    | inr changed ↦ rw (changed.1) (IsExclusive-promoted d now t.domains h x)
  ]
