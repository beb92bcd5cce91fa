-- ===== src/Admission/Handoff.antt =====
-- services/identity/login.py `issue_handoff` and `redeem_handoff`: a code is good once.
use revenact_backend.Prelude.{
  ℕ, ◌+◌, ◌<◌, String, ◌≡◌, refl, ap, ◌∙◌, true, Option, none, some, List, [], ◌∷◌, lt→ltb, str_eq,
  str_eq_iff, if◌then◌else◌, inl, inr, arith, Bool-cases,
}
use revenact_backend.Admission.Rows.{
  User, Tables, Cached, Site, login, invalid_handoff, account_disabled, pure, raise, ok, err,
}
use revenact_backend.Admission.Codes.{
  cache_get, cache_delete, cache_set, handoff_ttl, find_user, issue_handoff, session_if_active,
  session_of, redeem_handoff,
}

cache_get-cache_delete :
    {A : Type 0} (key : String) (now : ℕ) (entries : List (Cached A))
    → cache_get key now (cache_delete key entries) ≡ none
unfolding cache_get cache_delete
cache_get-cache_delete key now [] = refl
cache_get-cache_delete key now (c ∷ rest) = elim (Bool-cases (str_eq c.key key)) [
  | inl p ↦ rw p (cache_get-cache_delete key now rest)
  | inr p ↦ rw (p, p) (cache_get-cache_delete key now rest)
]

str_eq_self : (t : String) → str_eq t t ≡ true
str_eq_self t = ground (arith, str_eq_iff t t)

cache_get-cache_set :
    {A : Type 0} (key : String) (value : A) (now until : ℕ) (entries : List (Cached A))
    → now < until
    → cache_get key now (cache_set key value until entries) ≡ some value
unfolding cache_get cache_set
cache_get-cache_set key value now until entries h = rw (str_eq_self key, lt→ltb now until h) refl

session_if_active-site : (user : Option User) (site : Site) → (session_if_active user site).1 ≡ site
unfolding session_if_active
session_if_active-site none site = refl
session_if_active-site (some user) site = elim (Bool-cases (user.is_active)) [
  | inl p ↦ rw p refl
  | inr p ↦ rw p refl
]

session_of-site : (user_id : Option ℕ) (site : Site) → (session_of user_id site).1 ≡ site
unfolding session_of
session_of-site none site = refl
session_of-site (some user_id) site = session_if_active-site (find_user user_id site.db) site

-- The site after a code was redeemed.
redeemed : String → Site → Site
redeemed handoff site = record site { handoffs = cache_delete handoff site.handoffs }

redeem_handoff-site :
    (handoff : String) (site : Site) → (redeem_handoff handoff site).1 ≡ redeemed handoff site
unfolding redeem_handoff redeemed
redeem_handoff-site handoff site =
    session_of-site (cache_get handoff site.db.now site.handoffs) (redeemed handoff site)

redeem_deleted :
    (handoff : String) (site : Site) (again : Tables)
    → (redeem_handoff handoff (record (redeemed handoff site) { db = again })).0
      ≡ err (login invalid_handoff)
unfolding redeem_handoff redeemed session_of
redeem_deleted handoff site again = rw (cache_get-cache_delete handoff again.now site.handoffs) refl

-- A hand-off code that is issued to a person signs that person in within sixty seconds, whatever
-- happened to the database meanwhile, if they are still active. After any first attempt, whatever the
-- database was then and however the attempt ended, whoever redeems the code again, on whatever
-- database, is refused.
pub redeem_handoff-issue_handoff :
    (token : ℕ → String) (user u : User) (site : Site) (later attempted again : Tables)
    → later.now < site.db.now + handoff_ttl
    → find_user user.id later ≡ some u
    → u.is_active ≡ true
    → let handoff = token site.issued in
      let issued = (issue_handoff token user site).1 in
      let first = redeem_handoff handoff (record issued { db = attempted }) in
      ((issue_handoff token user site).0 ≡ ok handoff)
      × ((redeem_handoff handoff (record issued { db = later })).0 ≡ ok u)
      × ((redeem_handoff handoff (record first.1 { db = again })).0 ≡ err (login invalid_handoff))
unfolding issue_handoff redeem_handoff session_of session_if_active redeemed
redeem_handoff-issue_handoff token user u site later attempted again soon found live = (
  refl,
  signed_in,
  ap (λ (s : Site). (redeem_handoff (token site.issued) (record s { db = again })).0)
        (redeem_handoff-site (token site.issued) (issued attempted))
      ∙ redeem_deleted (token site.issued) (issued attempted) again,
)
  where
    issued : Tables → Site
    issued db = record (issue_handoff token user site).1 { db = db }

    still_active :
        (session_if_active (some u) (redeemed (token site.issued) (issued later))).0 ≡ ok u
    still_active =
        ap
          (λ b.
            ((if b then pure u else raise (login account_disabled))
              (redeemed (token site.issued) (issued later))).0)
          live

    signed_in : (redeem_handoff (token site.issued) (issued later)).0 ≡ ok u
    signed_in =
        ap (λ (o : Option ℕ). (session_of o (redeemed (token site.issued) (issued later))).0)
          (cache_get-cache_set (token site.issued) user.id later.now (site.db.now + handoff_ttl)
            site.handoffs soon)
        ∙ ap
            (λ (o : Option User).
              (session_if_active o (redeemed (token site.issued) (issued later))).0)
            found
        ∙ still_active
