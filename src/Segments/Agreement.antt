-- ===== src/Segments/Agreement.antt =====
-- What a reader of rules reads of their ids.
use revenact_backend.Prelude.{◌≡◌, refl, Bool, true, Option, none, some, List, [], ◌∷◌, All}
use revenact_backend.Prelude.Int.{ℤ}
use revenact_backend.Portfolio.Cursors.{Json}
use revenact_backend.Segments.Registry.{Kind, RecordType, a_user, a_customer, an_account, a_product}
use revenact_backend.Segments.Blocks.{Condition, has_id}
use revenact_backend.Segments.Validation.{Reader, is_named, openable, is_for, want}
use revenact_backend.Segments.Presenting.{refs, record_of, is_key}
use revenact_backend.Segments.Ids.{IsWithin, is_key-openable, want-IsWithin, want_keeps}
use revenact_backend.Segments.Leaves.{AgreesAs}

-- The ids of a condition that are kept are those that the reader may see named.
module _ {Number : Type 0} (kind : Kind) (user : Reader) (cs : List (Condition Number)) where
  -- The ids that a reader of the conditions sees.
  abbrev pub opens_in : RecordType → ℤ → Bool
  opens_in type n = is_key n (openable type (refs kind cs type) user)

  is_for_own : (type : RecordType) → is_for (some type) type ≡ true
  unfolding is_for
  is_for_own a_user = refl
  is_for_own a_customer = refl
  is_for_own an_account = refl
  is_for_own a_product = refl

  opens_in-refs :
      (type : RecordType) (n : ℤ)
      → has_id n (refs kind cs type) ≡ true
      → opens_in type n ≡ is_named user type n
  opens_in-refs type n h = rw (is_key-openable type user n (refs kind cs type), h) refl

  within-Agrees :
      (of : Option RecordType) (j : Json Number) (wanted : RecordType → List ℤ)
      → ((type : RecordType) → IsWithin (want of j wanted type) (refs kind cs type))
      → AgreesAs user opens_in of j
  within-Agrees none j wanted h = tt
  within-Agrees (some type) j wanted h = λ n p.
      opens_in-refs type n
        (h type n (want-IsWithin type (some type) j wanted (is_for_own type) n p))

  each-Agrees :
      (ds : List (Condition Number))
      → ((type : RecordType) → IsWithin (refs kind ds type) (refs kind cs type))
      → All (λ c. AgreesAs user opens_in (record_of kind c.field) c.value) ds
  unfolding refs
  each-Agrees [] h = tt
  each-Agrees (d ∷ ds) h = (
    within-Agrees (record_of kind d.field) d.value (refs kind ds) h,
    each-Agrees ds (λ type n p.
        h type n (want_keeps type (record_of kind d.field) d.value (refs kind ds) n p)),
  )

  pub everywhere-Agrees : All (λ c. AgreesAs user opens_in (record_of kind c.field) c.value) cs
  everywhere-Agrees = each-Agrees cs (λ type n p. p)
