-- ===== src/Domains/Routing.antt =====
-- Where an address leads, and that proof supersedes claims.
use revenact_backend.Prelude.{
  ℕ, String, ◌≡◌, ◌≢◌, refl, subst, ap, inl, inr, ◌⊎◌, Bool, true, false, not, ◌&&◌, some, List, [],
  ◌∷◌, map, arith, str_eq, str_eq_iff, Bool-cases, Option-cases, All,
}
use revenact_backend.Domains.{
  OrganizationDomain, Tables, World, is_verified, is_revoked, promoted, promote, verified_by,
  first_verified, route_of_claims, records_of, route_of_records, is_personal, domain_of,
  route_for_domain, route_for_email,
}

-- Some row of the table satisfies `P`.
abbrev pub Exists : (OrganizationDomain → Type 0) → List OrganizationDomain → Type 0
Exists P [] = ⊥
Exists P (r ∷ rest) = P r ⊎ Exists P rest

-- A row that proves that an organisation holds a domain.
abbrev pub Proves : ℕ → String → OrganizationDomain → Type 0
Proves organisation domain r =
    (r.organisation ≡ organisation) × (r.domain ≡ domain) × (is_verified r ≡ true)

first_verified-Proves :
    (domain : String) (domains : List OrganizationDomain) (r : OrganizationDomain)
    → first_verified (records_of domain domains) ≡ some r
    → Exists (Proves r.organisation domain) domains
unfolding first_verified records_of
first_verified-Proves domain [] r e = cc e
first_verified-Proves domain (s ∷ rest) r e =
    elim (Bool-cases (str_eq s.domain domain && not (is_revoked s))) [
      | inr dropped ↦ inr (first_verified-Proves domain rest r (rw dropped at e))
      | inl kept ↦ elim (Bool-cases (is_verified s)) [
        | inr other ↦ inr (first_verified-Proves domain rest r (rw (kept, other) at e))
        | inl holds ↦
            let same : s ≡ r = cc (rw (kept, holds) at e) in
            inl (
              ap (λ (x : OrganizationDomain). x.organisation) same,
              ground (arith, str_eq_iff s.domain domain),
              holds,
            )
      ]
    ]

verified_by-of_records :
    (domain : String) (domains : List OrganizationDomain) (organisation : ℕ)
    → route_of_records (records_of domain domains) ≡ verified_by organisation
    → Exists (Proves organisation domain) domains
unfolding route_of_records
verified_by-of_records domain domains organisation e =
    elim (Option-cases (first_verified (records_of domain domains))) [
      | inl absent ↦
          absurd (not_claims (records_of domain domains) (rw (absent, route_of_records) at e))
      | inr (r, first) ↦
          let same : r.organisation ≡ organisation = cc (rw (first, route_of_records) at e) in
          subst (λ (o : ℕ). Exists (Proves o domain) domains) same
            (first_verified-Proves domain domains r first)
    ]
  where
    not_claims : (l : List OrganizationDomain) → ¬ (route_of_claims l ≡ verified_by organisation)
    not_claims [] h = unfold route_of_claims in cc h
    not_claims (r ∷ []) h = unfold route_of_claims in cc h
    not_claims (r ∷ s ∷ rest) h = unfold route_of_claims in cc h

module _ (world : World) where
  -- An address leads to an organisation as verified only if some row of the table proves that the
  -- organisation holds the address's domain, and the domain is not a personal one.
  pub route_for_email_verified :
      (email : String) (domains : List OrganizationDomain) (organisation : ℕ)
      → route_for_email world email domains ≡ verified_by organisation
      → Exists (Proves organisation (domain_of world email)) domains
        × (is_personal world (domain_of world email) ≡ false)
  unfolding route_for_email route_for_domain
  route_for_email_verified email domains organisation e =
      let domain = domain_of world email in
      elim (Bool-cases (str_eq domain "")) [
        | inl empty ↦ cc (rw empty at e)
        | inr filled ↦ elim (Bool-cases (is_personal world domain)) [
          | inl consumer ↦ cc (rw (filled, consumer) at e)
          | inr company ↦ (
            verified_by-of_records domain domains organisation (rw (filled, company) at e),
            company,
          )
        ]
      ]

-- The rows with the key of `d` are `d`'s, and there is one.
abbrev pub IsRow : OrganizationDomain → OrganizationDomain → Type 0
IsRow d r = (r.id ≢ d.id) ⊎ ((r.domain ≡ d.domain) × (r.organisation ≡ d.organisation))

module _ (d : OrganizationDomain) (now : ℕ) where
  abbrev kept : OrganizationDomain → Bool
  kept r = str_eq r.domain d.domain && not (is_revoked r)

  promoted-kept :
      (r : OrganizationDomain)
      → IsRow d r
      → kept (promoted d now r) ≡ true
      → (is_verified (promoted d now r) ≡ true) × ((promoted d now r).organisation ≡ d.organisation)
  unfolding promoted is_revoked is_verified
  promoted-kept r row h = ground (arith, str_eq_iff r.domain d.domain)

  promoted-kept_self :
      (r : OrganizationDomain) → IsRow d r → r.id ≡ d.id → kept (promoted d now r) ≡ true
  unfolding promoted is_revoked
  promoted-kept_self r row h = ground (arith, str_eq_iff r.domain d.domain)

  promoted_first :
      (l : List OrganizationDomain)
      → All (IsRow d) l
      → Exists (λ r. r.id ≡ d.id) l
      → (x : OrganizationDomain) × (first_verified (records_of d.domain (map (promoted d now) l))
          ≡ some x)
        × (x.organisation ≡ d.organisation)
  unfolding first_verified records_of
  promoted_first [] h k = elim k [ ]
  promoted_first (r ∷ rest) h k = elim (Bool-cases (kept (promoted d now r))) [
    | inl yes_kept ↦
        let (holds, org) = promoted-kept r h.0 yes_kept in
        (promoted d now r, rw (yes_kept, holds) refl, org)
    | inr dropped ↦
        let (x, first, org) =
          promoted_first rest h.1
            (elim k [ inl own ↦ cc (promoted-kept_self r h.0 own, dropped) | inr later ↦ later ]) in
        (x, rw dropped first, org)
  ]

  -- Once the row `d` is promoted, every address of its domain leads to its organisation, whatever
  -- other rows claimed the domain or had proved it, unless the domain is a personal one.
  pub route_for_email-promote :
      (world : World) (email : String) (t : Tables)
      → All (IsRow d) t.domains
      → Exists (λ r. r.id ≡ d.id) t.domains
      → domain_of world email ≡ d.domain
      → d.domain ≢ ""
      → is_personal world d.domain ≡ false
      → route_for_email world email (promote d now t).domains ≡ verified_by d.organisation
  unfolding route_for_email route_for_domain promote route_of_records
  route_for_email-promote world email t rows found at_domain filled company =
      let (x, first, org) = promoted_first t.domains rows found in
      rw (at_domain, company)
        (elim (Bool-cases (str_eq d.domain "")) [
          | inl empty ↦ absurd (filled ((str_eq_iff d.domain "").0 empty))
          | inr some_domain ↦ rw (some_domain, first, route_of_records, org) refl
        ])
