-- ===== src/Domains/Tests.antt =====
-- Two organisations that claim one domain.
use revenact_backend.Prelude.{
  ◌≡◌, ◌≢◌, refl, if◌then◌else◌, sym, ◌∙◌, inl, inr, str_eq, str_eq_iff, true, false, none, some,
  [], ◌∷◌, arith, member, has_code, last_part, strip_end_of, strip,
}
use revenact_backend.Domains.{
  OrganizationDomain, pending, verified, Tables, World, verify, promote, is_verified, is_personal,
  personal_domains, verified_by, route_for_email, route_for_domain, records_of, first_verified,
  is_revoked, route_of_records, domain_of,
}
use revenact_backend.Domains.Exclusive.{IsExclusive, verify-IsExclusive}
use revenact_backend.Domains.Routing.{
  Exists, Proves, route_for_email_verified, route_for_email-promote,
}

abbrev ours : OrganizationDomain
ours = record {
  id = 1;
  organisation = 7;
  domain = "acme.io";
  verification_status = pending;
  verification_token = "token-7";
  verified_at = none;
}

abbrev theirs : OrganizationDomain
theirs = record {
  id = 2;
  organisation = 8;
  domain = "acme.io";
  verification_status = verified;
  verification_token = "token-8";
  verified_at = some 5;
}

abbrev tables : Tables
tables = record { domains = ours ∷ theirs ∷ []; audit = [] }

-- The first resolver does not answer, and the second publishes our token.
abbrev world : World
world = record {
  resolve = λ resolver domain.
      if str_eq resolver "https://dns.google/resolve"
      then none
      else some ("\"revenact-site-\" \"verification=token-7\"" ∷ []);
  lower = λ s. s;
  configured_domains = [];
}

verify-IsExclusive_example : IsExclusive (verify world ours 60 tables).1.domains
unfolding is_verified
verify-IsExclusive_example =
    verify-IsExclusive world ours 60 tables (inr refl, (inr refl, tt))
      ((record { keys = omega arith; holders = inr (inr refl) }, tt), (tt, tt))

route_for_email_verified_example :
    Exists (Proves 8 (domain_of world "ana@acme.io")) tables.domains
    × (is_personal world (domain_of world "ana@acme.io") ≡ false)
unfolding route_for_email route_for_domain route_of_records first_verified records_of is_revoked
    is_verified domain_of is_personal strip_end_of last_part strip member has_code
route_for_email_verified_example =
    route_for_email_verified world "ana@acme.io" tables.domains 8 refl

filled : ours.domain ≢ ""
filled e =
    let empty : str_eq "acme.io" "" ≡ true = (str_eq_iff "acme.io" "").1 e in
    let full : str_eq "acme.io" "" ≡ false = refl in cc (sym full ∙ empty)

route_for_email-promote_example :
    route_for_email world "ana@acme.io" (promote ours 60 tables).domains ≡ verified_by 7
unfolding domain_of is_personal personal_domains strip_end_of last_part strip member has_code
route_for_email-promote_example =
    route_for_email-promote ours 60 world "ana@acme.io" tables
      (inr (refl, refl), (inl (omega arith), tt)) (inl refl) refl filled refl
