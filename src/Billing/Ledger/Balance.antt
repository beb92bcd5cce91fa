-- ===== src/Billing/Ledger/Balance.antt =====
-- What makes a ledger sound, and the balance read back from it.
use revenact_backend.Prelude.{
  ℕ, ◌≤◌, ◌<◌, ◌≡◌, ◌⊎◌, inl, inr, refl, false, Option, none, some, List, [], ◌∷◌, arith, ◌==◌,
  if◌then◌else◌, All, Option-cases,
}
use revenact_backend.Prelude.Int.{ℤ, pos, ◌+ℤ◌, ◌≤ℤ◌}
use revenact_backend.Billing.Models.{CreditLedger, Db}
use revenact_backend.Billing.Ledger.{newer, latest, balance, has_reference}

-- The sum of an account's movements.
abbrev pub total : ℕ → List CreditLedger → ℤ
total account [] = pos 0
total account (r ∷ rows) =
    let rest = total account rows in if r.account == account then rest +ℤ r.amount else rest

-- `s` was written before `r`: its key is smaller, and the clock had not run past.
pub record IsBefore (r s : CreditLedger) : Type 0 where
  pub key : s.id < r.id
  pub moment : s.created_at ≤ r.created_at

-- Row by row, newest first: it comes after the rows below it, its balance is the sum up to it and
-- not negative, and its reference, if it has one, is new for its account.
abbrev pub IsLedger : List CreditLedger → Type 0
IsLedger [] = Unit
IsLedger (r ∷ rows) =
    All (IsBefore r) rows
    × (r.balance_after ≡ total r.account rows +ℤ r.amount)
    × (pos 0 ≤ℤ r.balance_after)
    × ((r.reference ≡ "") ⊎ (has_reference r.account r.reference rows ≡ false))
    × IsLedger rows

pub record IsValid (db : Db) : Type 0 where
  pub rows : IsLedger db.ledger
  pub past : All (λ r. (r.id < db.next_id) × (r.created_at ≤ db.now)) db.ledger

latest-IsBefore :
    (r : CreditLedger) (account : ℕ) (rows : List CreditLedger) {s : CreditLedger}
    → All (IsBefore r) rows
    → latest account rows ≡ some s
    → IsBefore r s
unfolding latest
latest-IsBefore r account [] h e = cc
latest-IsBefore r account (t ∷ rows) h e = elim (Option-cases (latest account rows)) [
  | inl none_left ↦ ground arith
  | inr (s', found) ↦ ground (arith, latest-IsBefore r account rows h.1 found)
]

newer-eq :
    (r : CreditLedger) (o : Option CreditLedger)
    → ((s : CreditLedger) → o ≡ some s → IsBefore r s)
    → newer r o ≡ r
unfolding newer
newer-eq r none h = refl
newer-eq r (some s) h = ground (arith, h s refl)

-- In a sound ledger the row that the ordering puts first holds the sum of the movements.
pub balance-eq-total :
    (account : ℕ) (rows : List CreditLedger)
    → IsLedger rows
    → balance account rows ≡ total account rows
unfolding balance latest
balance-eq-total account [] h = refl
balance-eq-total account (r ∷ rows) h = ground (
  arith,
  newer-eq r (latest account rows) (λ s e. latest-IsBefore r account rows h.0 e),
  balance-eq-total account rows h.4,
)
