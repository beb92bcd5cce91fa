-- ===== src/Billing/Keeps.antt =====
-- Invariants of calls on the database, one rule for each way to build a call.
use revenact_backend.Prelude.{Bool, true, false, Option, none, some, if◌then◌else◌}
use revenact_backend.Billing.Models.{Db}
use revenact_backend.Billing.Monad.{
  Error, Result, ok, err, Exec, pure, raise, gets, or_raise, finish, atomic, try_atomic, continue,
  ◌>>=◌, raise_if, modify,
}

-- Whether `m` returns or raises, `P` holds after it if it held before.
pub record Keeps {A : Type 0} (P : Db → Type 0) (m : Exec A) : Type 0 where
  pub at : (db : Db) → P db → P (m db).1

module _ {P : Db → Type 0} {A : Type 0} where
  pub Keeps-pure : (a : A) → Keeps P (pure a)
  Keeps-pure a = record { at = λ db h. h }

  pub Keeps-raise : (e : Error) → Keeps P (raise {A = A} e)
  Keeps-raise e = record { at = λ db h. h }

  pub Keeps-gets : (f : Db → A) → Keeps P (gets f)
  Keeps-gets f = record { at = λ db h. h }

  pub Keeps-or_raise : (o : Option A) (e : Error) → Keeps P (or_raise o e)
  Keeps-or_raise none e = record { at = λ db h. h }
  Keeps-or_raise (some a) e = record { at = λ db h. h }

  pub Keeps-if : (b : Bool) (m n : Exec A) → Keeps P m → Keeps P n → Keeps P (if b then m else n)
  Keeps-if true m n km kn = km
  Keeps-if false m n km kn = kn

  finish-at :
      (handler : Error → Exec A) (db : Db) (r : Result A × Db)
      → P db
      → P r.1
      → ((e : Error) → Keeps P (handler e))
      → P (finish handler db r).1
  finish-at handler db (ok a, after) before h k = h
  finish-at handler db (err e, after) before h k = (k e).at db before

  pub Keeps-atomic : (m : Exec A) → Keeps P m → Keeps P (atomic m)
  Keeps-atomic m km = record {
    at = λ db h. finish-at raise db (m db) h (km.at db h) (λ e. Keeps-raise e);
  }

  pub Keeps-try_atomic :
      (m : Exec A) (handler : Error → Exec A)
      → Keeps P m
      → ((e : Error) → Keeps P (handler e))
      → Keeps P (try_atomic m handler)
  Keeps-try_atomic m handler km kh = record {
    at = λ db h. finish-at handler db (m db) h (km.at db h) kh;
  }

module _ {P : Db → Type 0} where
  pub Keeps-raise_if : (c : Bool) (e : Error) → Keeps P (raise_if c e)
  Keeps-raise_if c e = record { at = λ db h. h }

  pub Keeps-modify : (f : Db → Db) → ((db : Db) → P db → P (f db)) → Keeps P (modify f)
  Keeps-modify f k = record { at = k }

module _ {P : Db → Type 0} {A B : Type 0} where
  continue-at :
      (f : A → Exec B) (r : Result A × Db) → P r.1 → ((a : A) → Keeps P (f a)) → P (continue f r).1
  continue-at f (ok a, db) h k = (k a).at db h
  continue-at f (err e, db) h k = h

  pub Keeps-bind :
      (m : Exec A) (f : A → Exec B) → Keeps P m → ((a : A) → Keeps P (f a)) → Keeps P (m >>= f)
  Keeps-bind m f km kf = record { at = λ db h. continue-at f (m db) (km.at db h) kf }

  -- Enough for a read: what it returns is a fact about the database that the rest starts from.
  pub Keeps-gets_bind :
      (g : Db → A) (f : A → Exec B)
      → ((db : Db) → P db → P (f (g db) db).1)
      → Keeps P (gets g >>= f)
  Keeps-gets_bind g f k = record { at = k }

pub ruleset keeps_rules = (
  Keeps-pure, Keeps-raise, Keeps-gets, Keeps-or_raise, Keeps-if, Keeps-atomic, Keeps-try_atomic,
  Keeps-raise_if, Keeps-bind,
)
