-- ===== src/Domains.antt =====
-- services/identity/domains.py: proving that an organisation controls a domain, and where an address
-- leads. The table is that of `OrganizationDomain`, in the order of creation.
pub mod Exclusive
pub mod Routing
mod Tests
use Prim.Native.String.{◌++◌}
use revenact_backend.Prelude.{
  ℕ, String, Bool, true, false, not, ◌&&◌, Option, none, some, List, [], ◌∷◌, ◌++◌ as append, map,
  ◌==◌, str_eq, if◌then◌else◌, keep_if, strip, last_part, strip_end_of, has_code, split, member,
  is_blank,
}

pub data VerificationStatus : Type 0 where
  pending verified revoked : VerificationStatus

pub record OrganizationDomain : Type 0 where
  pub id : ℕ
  pub organisation : ℕ
  pub domain : String
  pub verification_status : VerificationStatus
  pub verification_token : String
  pub verified_at : Option ℕ

-- One "domain.superseded" event.
pub record Superseded : Type 0 where
  pub organisation : ℕ
  pub target : ℕ
  pub domain : String
  pub verified_by : ℕ

pub record Tables : Type 0 where
  pub domains : List OrganizationDomain
  pub audit : List Superseded

-- `ProviderError` where no resolver could be reached.
pub data Result {ℓ} (A : Type ℓ) : Type ℓ where
  ok : A → Result A
  provider_error : Result A

-- What comes from elsewhere: the answers of a resolver for a domain (the `data` of each TXT answer, or
-- none where the call fails), `str.lower`, and the personal domains of the settings, empty
-- where they have none.
pub record World : Type 0 where
  pub resolve : String → String → Option (List String)
  pub lower : String → String
  pub configured_domains : List String

unfoldable pub is_verified : OrganizationDomain → Bool
is_verified d = elim (d.verification_status) [ verified ↦ true | _ ↦ false ]

unfoldable pub is_revoked : OrganizationDomain → Bool
is_revoked d = elim (d.verification_status) [ revoked ↦ true | _ ↦ false ]

-- `"".join(parts)`
unfoldable pub join : List String → String
join [] = ""
join (p ∷ rest) = p ++ join rest

-- One TXT answer: the quoted parts put together, or the bare text.
unfoldable pub txt_value : String → String
unfolding join
txt_value answer =
    let raw = strip answer in
    let parts = keep_if (λ p. not (is_blank p)) (split 34 raw) in
    elim parts [ [] ↦ raw | p ∷ rest ↦ join (p ∷ rest) ]

abbrev pub resolvers : List String
resolvers = "https://dns.google/resolve" ∷ "https://cloudflare-dns.com/dns-query" ∷ []

unfoldable pub expected_record : OrganizationDomain → String
expected_record d = "revenact-site-verification=" ++ d.verification_token

-- The row that is promoted, every other row of its domain that is not revoked, and the rest.
unfoldable pub is_superseded : OrganizationDomain → OrganizationDomain → Bool
unfolding is_revoked
is_superseded d other =
    str_eq other.domain d.domain && not (other.id == d.id) && not (is_revoked other)

unfoldable pub promoted : OrganizationDomain → ℕ → OrganizationDomain → OrganizationDomain
unfolding is_superseded
promoted d now other =
    if is_superseded d other
    then record other { verification_status = revoked }
    else if other.id == d.id
    then record other { verification_status = verified; verified_at = some now }
    else other

unfoldable pub superseded_event : OrganizationDomain → OrganizationDomain → Superseded
superseded_event d other = record {
  organisation = other.organisation;
  target = other.id;
  domain = other.domain;
  verified_by = d.organisation;
}

-- The transaction of `verify`, and the events after it.
unfoldable pub promote : OrganizationDomain → ℕ → Tables → Tables
unfolding promoted superseded_event
promote d now t = record {
  domains = map (promoted d now) t.domains;
  audit = append (map (superseded_event d) (keep_if (is_superseded d) t.domains)) t.audit;
}

-- `DEFAULT_PERSONAL_DOMAINS`
abbrev pub default_personal_domains : List String
default_personal_domains =
    "gmail.com" ∷ "googlemail.com" ∷ "outlook.com" ∷ "hotmail.com" ∷ "live.com" ∷ "msn.com"
    ∷ "yahoo.com" ∷ "yahoo.co.uk" ∷ "ymail.com" ∷ "icloud.com" ∷ "me.com" ∷ "mac.com" ∷ "aol.com"
    ∷ "proton.me" ∷ "protonmail.com" ∷ "pm.me" ∷ "gmx.com" ∷ "gmx.net" ∷ "mail.com" ∷ "zoho.com"
    ∷ "yandex.com" ∷ "fastmail.com" ∷ "hey.com" ∷ "tutanota.com" ∷ "duck.com" ∷ "qq.com" ∷ "163.com"
    ∷ "126.com" ∷ []

pub data DomainRoute : Type 0 where
  personal ambiguous unclaimed : DomainRoute
  verified_by claimed : ℕ → DomainRoute

-- The first verified record.
unfoldable pub first_verified : List OrganizationDomain → Option OrganizationDomain
unfolding is_verified
first_verified [] = none
first_verified (r ∷ rest) = if is_verified r then some r else first_verified rest

-- With no verified record: one claim, several, or none.
unfoldable pub route_of_claims : List OrganizationDomain → DomainRoute
route_of_claims [] = unclaimed
route_of_claims (r ∷ []) = claimed r.organisation
route_of_claims (r ∷ s ∷ rest) = ambiguous

-- `filter(domain=...).exclude(REVOKED)`
unfoldable pub records_of : String → List OrganizationDomain → List OrganizationDomain
unfolding is_revoked
records_of domain = keep_if (λ r. str_eq r.domain domain && not (is_revoked r))

unfoldable pub route_of_records : List OrganizationDomain → DomainRoute
unfolding first_verified route_of_claims
route_of_records records = elim (first_verified records) [
  | some r ↦ verified_by r.organisation
  | none ↦ route_of_claims records
]

module _ (world : World) where
  open world use {resolve, lower, configured_domains}

  -- The resolvers in order; the first that answers is used.
  unfoldable pub lookup_from : List String → String → Result (List String)
  unfolding txt_value
  lookup_from [] domain = provider_error
  lookup_from (r ∷ rest) domain =
      let later = lookup_from rest domain in
      elim (resolve r domain) [ some answers ↦ ok (map txt_value answers) | none ↦ later ]

  unfoldable pub lookup_txt : String → Result (List String)
  unfolding lookup_from
  lookup_txt domain = lookup_from resolvers domain

  -- `verify` on the values that were published.
  unfoldable pub check_values : OrganizationDomain → ℕ → List String → Tables → Result Bool × Tables
  unfolding expected_record
  check_values d now values t =
      let found = member (expected_record d) values in
      if found && not (is_verified d) then (ok found, promote d now t) else (ok found, t)

  unfoldable pub verify : OrganizationDomain → ℕ → Tables → Result Bool × Tables
  verify d now t =
      if str_eq d.verification_token "" then (ok false, t) else elim (lookup_txt d.domain) [
        | ok values ↦ check_values d now values t
        | provider_error ↦ (provider_error, t)
      ]

  unfoldable pub domain_of : String → String
  domain_of email = strip_end_of 46 (last_part 64 (lower (strip email)))

  unfoldable pub personal_domains : List String
  personal_domains = elim configured_domains [
    | [] ↦ default_personal_domains
    | d ∷ rest ↦ map (λ t. lower (strip t)) (keep_if (λ t. not (is_blank t)) (d ∷ rest))
  ]

  unfoldable pub is_personal : String → Bool
  unfolding domain_of personal_domains
  is_personal email_or_domain =
      let domain =
        if has_code 64 email_or_domain then domain_of email_or_domain else email_or_domain in
      member (lower domain) personal_domains

  unfoldable pub route_for_domain : String → List OrganizationDomain → DomainRoute
  unfolding is_personal
  route_for_domain domain domains =
      if str_eq domain ""
      then unclaimed
      else if is_personal domain
      then personal
      else route_of_records (records_of domain domains)

  unfoldable pub route_for_email : String → List OrganizationDomain → DomainRoute
  route_for_email email domains = route_for_domain (domain_of email) domains

  unfoldable pub organisation_for_email : String → List OrganizationDomain → Option ℕ
  organisation_for_email email domains = elim (route_for_email email domains) [
    | verified_by organisation ↦ some organisation
    | _ ↦ none
  ]
