-- ===== src/Segments/Queries.antt =====
-- services/segments/compiler.py: the queries that rules compile to, and what it is for a row to match.
use revenact_backend.Prelude.{
  ℕ, String, Bool, true, false, not, ◌&&◌, ◌||◌, Option, none, some, List, [], ◌∷◌, any,
}
use revenact_backend.Prelude.Int.{ℤ, eqb_ℤ}
use revenact_backend.Portfolio.Cursors.{Json, integer}
use revenact_backend.Segments.Registry.{Kind}
use revenact_backend.Segments.Blocks.{Match, all, any_of}

-- What a comparison reads: a column of the record, or an annotation that the compiler adds.
pub data Column : Type 0 where
  plain_column : String → Column
  converted_arr seat_use open_tickets last_contact last_account_contact : Column
  attribute_number attribute_value : ℕ → Column

-- What a column is compared with: a value of the rule, or a day.
pub data Operand (Number : Type 0) : Type 0 where
  given : Json Number → Operand Number
  a_date : ℕ → Operand Number

pub data Lookup : Type 0 where
  exact above below from up_to : Lookup

-- One condition of a `Q`. The bands, the churn and the renewals are the lists' own.
pub data Test (Number : Type 0) : Type 0 where
  no_record churned unowned : Test Number
  in_band : Json Number → Test Number
  in_nps : String → Test Number
  renewing account_renewing : ℕ → Test Number
  owned_by : Json Number → Test Number
  column_in : String → List (Json Number) → Test Number
  linked_to own_customer through_account on_account : List ℤ → Test Number
  is_null : Column → Test Number
  compares : Lookup → Column → Operand Number → Test Number
  among : Column → List (Json Number) → Test Number

-- `Q`; `through kind q` asks that the record's parent of a kind be in a query of the workspace's.
pub data Q (Number : Type 0) : Type 0 where
  test : Test Number → Q Number
  both either : Q Number → Q Number → Q Number
  negated : Q Number → Q Number
  through : Kind → Q Number → Q Number

module _ {Number : Type 0} where
  -- A condition no record meets.
  abbrev pub nothing : Q Number
  nothing = test no_record

  abbrev pub join : Match → Q Number → Q Number → Q Number
  join all = both
  join any_of = either

  -- `reduce(or_ if match == "any" else and_, parts, q)`
  unfoldable pub reduce : Match → Q Number → List (Q Number) → Q Number
  reduce m q [] = q
  reduce m q (p ∷ ps) = reduce m (join m q p) ps

  -- `_combine`
  unfoldable pub combine : Match → List (Q Number) → Q Number
  unfolding reduce
  combine m [] = nothing
  combine m (q ∷ qs) = reduce m q qs

-- The database: a row's owner and product, the customers that it is linked to, or that its account is,
-- its own customer and account, its parents in the workspace, and what the other conditions say of it.
pub record Database (Number : Type 0) : Type 1 where
  pub Row : Type 0
  pub pk : Row → ℤ
  pub owner : Row → Option ℤ
  pub product : Row → Option ℤ
  pub customers : Row → List ℤ
  pub own_customer_of : Row → Option ℤ
  pub account_of : Row → Option ℤ
  pub account_customers : Row → List ℤ
  pub parents : Kind → Row → List Row
  pub says : Test Number → Row → Bool

unfoldable pub is_unowned : Option ℤ → Bool
is_unowned none = true
is_unowned (some _) = false

unfoldable pub is_among : ℤ → List ℤ → Bool
is_among n [] = false
is_among n (m ∷ ms) = eqb_ℤ n m || is_among n ms

unfoldable pub is_among_opt : Option ℤ → List ℤ → Bool
unfolding is_among
is_among_opt none ids = false
is_among_opt (some n) ids = is_among n ids

unfoldable pub meets_any : List ℤ → List ℤ → Bool
unfolding is_among
meets_any [] ids = false
meets_any (n ∷ ns) ids = is_among n ids || meets_any ns ids

module _ {Number : Type 0} where
  -- Whether an id, if there is one, is the number of a value.
  unfoldable pub is_id : Option ℤ → Json Number → Bool
  is_id (some n) (integer m) = eqb_ℤ n m
  is_id _ _ = false

  unfoldable pub is_id_in : Option ℤ → List (Json Number) → Bool
  unfolding is_id
  is_id_in id [] = false
  is_id_in id (j ∷ js) = is_id id j || is_id_in id js

module _ {Number : Type 0} (db : Database Number) where
  unfoldable pub meets : Test Number → db.Row → Bool
  unfolding is_id is_id_in is_unowned is_among_opt meets_any
  meets no_record row = false
  meets unowned row = is_unowned (db.owner row)
  meets (owned_by j) row = is_id (db.owner row) j
  meets (column_in column js) row = is_id_in (db.product row) js
  meets (linked_to ids) row = meets_any (db.customers row) ids
  meets (own_customer ids) row = is_among_opt (db.own_customer_of row) ids
  meets (through_account ids) row = meets_any (db.account_customers row) ids
  meets (on_account ids) row = is_among_opt (db.account_of row) ids
  meets t row = db.says t row

  -- A row that a query matches; `~q` matches the rows that `q` does not.
  unfoldable pub matches : Q Number → db.Row → Bool
  unfolding meets
  matches (test t) row = meets t row
  matches (both p q) row = matches p row && matches q row
  matches (either p q) row = matches p row || matches q row
  matches (negated q) row = not (matches q row)
  matches (through kind q) row = any (matches q) (db.parents kind row)
