-- ===== src/Admission/Codes.antt =====
-- services/identity/login.py: the single-use codes behind which a session or a verified identity waits.
use revenact_backend.Prelude.{
  ℕ, ◌+◌, ◌*◌, String, true, not, ◌&&◌, Option, none, some, List, [], ◌∷◌, ltb, ◌==◌, str_eq,
  if◌then◌else◌, keep_if,
}
use revenact_backend.Admission.Rows.{
  User, VerifiedIdentity, Tables, Cached, Site, account_disabled, invalid_handoff, invalid_setup,
  login, ok, Call, pure, raise, gets, ◌>>=◌, ◌>>◌, modify,
}
use revenact_backend.Admission.{first_where}

abbrev pub handoff_ttl : ℕ
handoff_ttl = 60

abbrev pub setup_ttl : ℕ
setup_ttl = 15 * 60

-- The cache: `get`, which finds nothing that has expired, `set` and `delete`.
module _ {A : Type 0} where
  unfoldable pub cache_get : String → ℕ → List (Cached A) → Option A
  cache_get key now [] = none
  cache_get key now (c ∷ rest) =
      if str_eq c.key key && ltb now c.until then some c.value else cache_get key now rest

  unfoldable pub cache_delete : String → List (Cached A) → List (Cached A)
  cache_delete key = keep_if (λ c. not (str_eq c.key key))

  unfoldable pub cache_set : String → A → ℕ → List (Cached A) → List (Cached A)
  unfolding cache_delete
  cache_set key value until entries =
      record { key = key; value = value; until = until } ∷ cache_delete key entries

unfoldable pub find_user : ℕ → Tables → Option User
unfolding first_where
find_user user db = first_where (λ (u : User). u.id == user) db.users

module _ (token : ℕ → String) where
  -- `issue_setup`, of which `peek_setup` makes a verified identity.
  unfoldable pub setup_of : VerifiedIdentity → VerifiedIdentity
  setup_of info = record info { email_verified = true }

  unfoldable pub issue_setup : VerifiedIdentity → Call Site String
  unfolding cache_set setup_of
  issue_setup info site = (
    ok (token site.issued),
    record site {
      setups = cache_set (token site.issued) (setup_of info) (site.db.now + setup_ttl) site.setups;
      issued = site.issued + 1;
    },
  )

  -- `issue_handoff`
  unfoldable pub issue_handoff : User → Call Site String
  unfolding cache_set
  issue_handoff user site = (
    ok (token site.issued),
    record site {
      handoffs = cache_set (token site.issued) user.id (site.db.now + handoff_ttl) site.handoffs;
      issued = site.issued + 1;
    },
  )

-- `redeem_handoff`: the session is that of the user; the code is dropped first.
unfoldable pub session_if_active : Option User → Call Site User
session_if_active none = raise (login account_disabled)
session_if_active (some user) = if user.is_active then pure user else raise (login account_disabled)

unfoldable pub session_of : Option ℕ → Call Site User
unfolding find_user session_if_active
session_of none = raise (login invalid_handoff)
session_of (some user_id) = do
  user ← gets (λ (s : Site). find_user user_id s.db)
  session_if_active user

unfoldable pub redeem_handoff : String → Call Site User
unfolding cache_get cache_delete session_of
redeem_handoff handoff = do
  user_id ← gets (λ (s : Site). cache_get handoff s.db.now s.handoffs)
  modify (λ (s : Site). record s { handoffs = cache_delete handoff s.handoffs })
  session_of user_id

-- `peek_setup` and `redeem_setup`
unfoldable pub peek_setup : String → Call Site VerifiedIdentity
unfolding cache_get
peek_setup code = do
  payload ← gets (λ (s : Site). cache_get code s.db.now s.setups)
  elim payload [ none ↦ raise (login invalid_setup) | some info ↦ pure info ]

unfoldable pub redeem_setup : String → Call Site VerifiedIdentity
unfolding peek_setup cache_delete
redeem_setup code = do
  info ← peek_setup code
  modify (λ (s : Site). record s { setups = cache_delete code s.setups })
  pure info
