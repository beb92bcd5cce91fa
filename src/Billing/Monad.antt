-- ===== src/Billing/Monad.antt =====
-- A call that reads and writes the database and may raise. What was written before a raise stays
-- written unless the call stands in a transaction, `atomic`.
use revenact_backend.Prelude.{◌≡◌, refl, ◌⊎◌, inl, inr, Bool, Option, none, some, if◌then◌else◌}
use revenact_backend.Billing.Models.{Db}

-- The codes of `BillingError`.
pub data Code : Type 0 where
  insufficient_credits duplicate_reference invalid_amount reason_required : Code
  seats_in_use insufficient_seats : Code

-- What can be raised: a `BillingError`, an exception of the ORM, or `CreditsExhausted`.
pub data Error : Type 0 where
  billing : Code → Error
  integrity_error data_error does_not_exist credits_exhausted : Error

pub data Result {ℓ} (A : Type ℓ) : Type ℓ where
  ok : A → Result A
  err : Error → Result A

abbrev pub Exec : Type 0 → Type 0
Exec A = Db → Result A × Db

module _ {A : Type 0} where
  abbrev pub pure : A → Exec A
  pure a db = (ok a, db)

  abbrev pub raise : Error → Exec A
  raise e db = (err e, db)

  abbrev pub gets : (Db → A) → Exec A
  gets f db = (ok (f db), db)

  abbrev pub or_raise : Option A → Error → Exec A
  or_raise none e = raise e
  or_raise (some a) _ = pure a

  -- How a transaction ends: a raise leaves the database as it was before, and goes to the handler.
  abbrev pub finish : (Error → Exec A) → Db → Result A × Db → Result A × Db
  finish handler before (ok a, after) = (ok a, after)
  finish handler before (err e, after) = handler e before

  -- `with transaction.atomic():`
  abbrev pub atomic : Exec A → Exec A
  atomic m db = finish raise db (m db)

  -- `try: with transaction.atomic(): ... except ...`
  abbrev pub try_atomic : Exec A → (Error → Exec A) → Exec A
  try_atomic m handler db = finish handler db (m db)

module _ {A : Type 0} where
  abbrev pub rescue : (Error → Exec A) → Result A × Db → Result A × Db
  rescue handler (ok a, db) = (ok a, db)
  rescue handler (err e, db) = handler e db

  -- `try: ... except ...` with no transaction: the handler runs on what the call left.
  abbrev pub try_call : Exec A → (Error → Exec A) → Exec A
  try_call m handler db = rescue handler (m db)

-- The rest of a block runs on what the first call left, unless that raised.
abbrev pub continue : {A B : Type 0} → (A → Exec B) → Result A × Db → Result B × Db
continue f (ok a, db) = f a db
continue f (err e, db) = (err e, db)

infixl 5 ◌>>=◌ ◌>>◌
abbrev pub ◌>>=◌ : {A B : Type 0} → Exec A → (A → Exec B) → Exec B
◌>>=◌ m f db = continue f (m db)

abbrev pub ◌>>◌ : {A B : Type 0} → Exec A → Exec B → Exec B
m >> k = m >>= λ _. k

abbrev pub raise_if : Bool → Error → Exec (Unit {0})
raise_if c e db = (if c then err e else ok tt, db)

abbrev pub modify : (Db → Db) → Exec (Unit {0})
modify f db = (ok tt, f db)

-- How a call ended.
pub Result-cases {ℓ} :
    {A : Type ℓ} (r : Result A) → ((a : A) × (r ≡ ok a)) ⊎ ((e : Error) × (r ≡ err e))
Result-cases (ok a) = inl (a, refl)
Result-cases (err e) = inr (e, refl)
