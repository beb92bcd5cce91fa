-- ===== src/Segments/Shows.antt =====
-- What the rules that a reader reads show of ids.
use revenact_backend.Prelude.{
  ◌≡◌, sym, ◌∙◌, inl, inr, Bool, true, false, ◌&&◌, Option, none, some, List, [], ◌∷◌, map, All,
  Bool-cases,
}
use revenact_backend.Prelude.Int.{ℤ}
use revenact_backend.Portfolio.Cursors.{
  Json, null, boolean, integer, real, text, array, object, Items, no_items, item,
}
use revenact_backend.Segments.Registry.{Kind, RecordType}
use revenact_backend.Segments.Blocks.{Condition, Rules, leaves, has_id}
use revenact_backend.Segments.Validation.{Reader, is_named}
use revenact_backend.Segments.Presenting.{
  redact, redact_items, redact_named, redact_condition, refs, record_of, names_in, present_rules,
}
use revenact_backend.Segments.Ids.{is_key-openable}
use revenact_backend.Segments.Entries.{leaves-redact_entry, redact_condition_field}
use revenact_backend.Segments.Agreement.{opens_in}

module _ {Number : Type 0} (P : ℤ → Bool) where
  unfoldable mutual
    -- Every whole number in a value, in a list in it, or in a list in that, passes a test.
    pub Shows : Json Number → Type 0
    Shows (integer n) = P n ≡ true
    Shows (array items) = AllShow items
    Shows _ = Unit

    AllShow : Items Number → Type 0
    AllShow no_items = Unit
    AllShow (item j rest) = Shows j × AllShow rest

module _ {Number : Type 0} (P R : ℤ → Bool) (h : (n : ℤ) → P n ≡ true → R n ≡ true) where
  mutual
    -- What is kept passes the test.
    unfolding Shows redact

    redacted : (j : Json Number) → Shows R (redact P j)
    redacted (integer n) = elim (Bool-cases (P n)) [ inl p ↦ rw p (h n p) | inr p ↦ rw p tt ]
    redacted (array items) = all_redacted items
    redacted null = tt
    redacted (boolean b) = tt
    redacted (real x) = tt
    redacted (text t) = tt
    redacted (object o) = tt

    all_redacted : (items : Items Number) → AllShow R (redact_items P items)
    all_redacted no_items = tt
    all_redacted (item j rest) = (redacted j, all_redacted rest)

-- The ids of a value, where they name records of a type, are those that the reader may see named.
abbrev pub ShowsAs : {Number : Type 0} → Reader → Option RecordType → Json Number → Type 0
ShowsAs user none j = Unit
ShowsAs user (some type) j = Shows (is_named user type) j

named_if_key : (b c : Bool) → (b && c) ≡ true → c ≡ true
named_if_key true c h = h
named_if_key false c h = absurd (cc h)

module _ {Number : Type 0} (kind : Kind) (user : Reader) (cs : List (Condition Number)) where
  opens_in-is_named :
      (type : RecordType) (n : ℤ)
      → opens_in kind user cs type n ≡ true
      → is_named user type n ≡ true
  opens_in-is_named type n h =
      named_if_key (has_id n (refs kind cs type)) (is_named user type n)
        (sym (is_key-openable type user n (refs kind cs type)) ∙ h)

  redact_named-ShowsAs :
      (of : Option RecordType) (c : Condition Number)
      → ShowsAs user of (redact_named (opens_in kind user cs) of c).value
  unfolding redact_named
  redact_named-ShowsAs none c = tt
  redact_named-ShowsAs (some type) c =
      redacted (opens_in kind user cs type) (is_named user type) (opens_in-is_named type) c.value

  redact_condition-ShowsAs :
      (c : Condition Number)
      → ShowsAs user
          (record_of kind (redact_condition kind (opens_in kind user cs) c).field)
          (redact_condition kind (opens_in kind user cs) c).value
  redact_condition-ShowsAs c =
      rw (redact_condition_field kind (opens_in kind user cs) c)
        (unfold redact_condition in redact_named-ShowsAs (record_of kind c.field) c)

  each-ShowsAs :
      (ds : List (Condition Number))
      → All
          (λ c. ShowsAs user (record_of kind c.field) c.value)
          (map (redact_condition kind (opens_in kind user cs)) ds)
  each-ShowsAs [] = tt
  each-ShowsAs (d ∷ ds) = (redact_condition-ShowsAs d, each-ShowsAs ds)

-- Whatever the stored rules are, a rule that someone reads shows an id of a person, an organisation, an
-- account or a product only if they may see it named.
pub present_rules-ShowsAs :
    {Number : Type 0} (rules : Rules Number) (kind : Kind) (user : Reader)
    → All
        (λ c. ShowsAs user (record_of kind c.field) c.value)
        (leaves (present_rules rules kind user).0.conditions)
unfolding present_rules names_in
present_rules-ShowsAs rules kind user =
    rw (leaves-redact_entry kind (opens_in kind user (leaves rules.conditions)) rules.conditions)
      (each-ShowsAs kind user (leaves rules.conditions) (leaves rules.conditions))
