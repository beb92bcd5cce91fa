-- ===== src/Segments/Validated.antt =====
-- Rules that are saved evaluate: their check is a type system for the compiler.
use revenact_backend.Prelude.{◌≡◌, refl, subst, true, is_some, List, map, All, ℕ, length, leb}
use revenact_backend.Prelude.Int.{ℤ}
use revenact_backend.Portfolio.Cursors.{Json}
use revenact_backend.Segments.Registry.{
  Kind, RecordType, a_user, a_customer, an_account, a_product, Attribute, attributes_for,
  resolve_any,
}
use revenact_backend.Segments.Blocks.{
  World, Checked, ok, raises, ◌>>◌, require, too_many, Rules, leaves, check_block, max_conditions,
}
use revenact_backend.Segments.Validation.{Reader, check_conditions, check_open, validate_rules}
use revenact_backend.Segments.Compiler.{compile_rules, entry_q}
use revenact_backend.Segments.Parts.{map_each}
use revenact_backend.Segments.Succeeds.{IsInRange, IsShort, its_value, bound, then_second}
use revenact_backend.Segments.Compiles.{check_conditions-IsChecked, entries_some, IsPrepared}

-- The attributes that the conditions of rules name.
abbrev pub named_attributes : {Number : Type 0} → List Attribute → Rules Number → List Attribute
named_attributes workspace rules =
    attributes_for workspace (map (λ c. c.field) (leaves rules.conditions))

module _ (world : World) (workspace : List Attribute) (kind : Kind) where
  open world use {Number}

  -- The ids that the conditions name, where each of them passes.
  abbrev IsChecking : Rules Number → Type 0
  IsChecking rules =
      (wanted : RecordType → List ℤ) × (check_conditions world kind
          (named_attributes workspace rules) (leaves rules.conditions)
        ≡ ok wanted)

  returned :
      (a b c d : Checked Unit) (rules others : Rules Number)
      → (a >> (b >> (c >> (d >> ok rules)))) ≡ ok others
      → rules ≡ others
  returned (ok a) (ok b) (ok c) (ok d) rules others h = cc h
  returned (raises e) b c d rules others h = absurd (cc h)
  returned (ok a) (raises e) c d rules others h = absurd (cc h)
  returned (ok a) (ok b) (raises e) d rules others h = absurd (cc h)
  returned (ok a) (ok b) (ok c) (raises e) rules others h = absurd (cc h)

  validated :
      (user : Reader) (j : Json Number) (rules : Rules Number)
      → validate_rules world j kind workspace user ≡ ok rules
      → IsChecking rules
  unfolding validate_rules
  validated user j rules h =
      let (parsed, (p, rest)) = bound (check_block j) _ rules h in
      let (wanted, (q, last)) =
        bound
          (check_conditions world kind (named_attributes workspace parsed)
            (leaves parsed.conditions))
          (λ wanted.
            check_open world a_customer (wanted a_customer) user
            >> (check_open world an_account (wanted an_account) user
                >> (check_open world a_product (wanted a_product) user
                    >> (check_open world a_user (wanted a_user) user >> ok parsed))))
          rules
          (then_second (require (leb (length (leaves parsed.conditions)) max_conditions) too_many) _
            rules rest) in
      subst IsChecking
        (returned (check_open world a_customer (wanted a_customer) user)
          (check_open world an_account (wanted an_account) user)
          (check_open world a_product (wanted a_product) user)
          (check_open world a_user (wanted a_user) user) parsed rules last)
        (wanted, q)

  -- Rules that `validate_rules` returns, for whoever saved them, compile for everyone without an
  -- exception, on every day that is more than 3650 days after the first one of the calendar and as
  -- many before the last one, where the numbers of days of their DAYS fields are less than there are
  -- days before it, and Django prepares the lookups of their conditions on the parent's fields that
  -- name no records: none of them has a number that is out of its column's range.
  pub compile_rules-validate_rules :
      (writer reader : Reader) (today : ℕ) (in_range : IsInRange today) (j : Json Number)
      (rules : Rules Number)
      → validate_rules world j kind workspace writer ≡ ok rules
      → All
          (λ c. IsShort today (resolve_any kind c.field (named_attributes workspace rules)) c.value)
          (leaves rules.conditions)
      → All (IsPrepared world (named_attributes workspace rules) kind) (leaves rules.conditions)
      → is_some (compile_rules world rules kind workspace reader today) ≡ true
  unfolding compile_rules
  compile_rules-validate_rules writer reader today in_range j rules h short ready =
      let (wanted, q) = validated writer j rules h in
      rw
        (its_value
          (map_each (entry_q world kind (named_attributes workspace rules) reader today)
            rules.conditions)
          (entries_some world today in_range (named_attributes workspace rules) reader kind
            rules.conditions
            (check_conditions-IsChecked world today in_range (named_attributes workspace rules)
              reader kind (leaves rules.conditions) wanted q short ready))).1
        refl
