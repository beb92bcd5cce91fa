-- ===== src/Billing/Credits.antt =====
-- services/billing/credits.py: the credits that every model call takes and a failed one gives back.
use Prim.Native.String.{◌++◌}
use revenact_backend.Prelude.{ℕ, String, Bool, true, false, Option, none, some, ◌==◌, if◌then◌else◌}
use revenact_backend.Prelude.Int.{pos}
use revenact_backend.Billing.Models.{BillingAccount}
use revenact_backend.Billing.Monad.{
  Error, billing, duplicate_reference, credits_exhausted, Exec, pure, raise, try_call, ◌>>=◌, ◌>>◌,
}
use revenact_backend.Billing.Ledger
use revenact_backend.Billing.Accounts.{Settings, Format, ensure}

-- What `charge` does with a `BillingError`; anything else goes on up.
unfoldable pub on_charge_error : Bool → Error → Exec Bool
on_charge_error enforced (billing duplicate_reference) = pure true
on_charge_error enforced (billing code) = if enforced then raise credits_exhausted else pure false
on_charge_error enforced e = raise e

-- `except ledger.BillingError: pass`
unfoldable pub pass_billing : Error → Exec (Unit {0})
pass_billing (billing code) = pure tt
pass_billing e = raise e

module _ (settings : Settings) (format : Format) where
  -- The charge itself, on the organisation's account.
  unfoldable pub charge_account : BillingAccount → String → String → Option ℕ → Exec Bool
  charge_account account purpose reference actor =
      try_call
        (do
          Ledger.consume account (pos settings.credits_per_call) ("model call: " ++ purpose)
              reference actor
          pure true)
        (on_charge_error settings.enforced)

  -- `False` with no organisation, and where a call costs nothing.
  unfoldable pub charge : Option ℕ → String → String → Option ℕ → Exec Bool
  charge none purpose reference actor = pure false
  charge (some organisation) purpose reference actor =
      if settings.credits_per_call == 0 then pure false else do
        account ← ensure settings format organisation
        charge_account account purpose reference actor

  unfoldable pub refund_account : BillingAccount → String → String → Option ℕ → Exec (Unit {0})
  refund_account account purpose reference actor =
      try_call
        (do
          Ledger.refund account (pos settings.credits_per_call)
              ("refund: failed model call: " ++ purpose) (reference ++ ":refund") actor
          pure tt)
        pass_billing

  unfoldable pub refund : Option ℕ → String → String → Option ℕ → Exec (Unit {0})
  refund none purpose reference actor = pure tt
  refund (some organisation) purpose reference actor =
      if settings.credits_per_call == 0 then pure tt else do
        account ← ensure settings format organisation
        refund_account account purpose reference actor
