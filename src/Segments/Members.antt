-- ===== src/Segments/Members.antt =====
-- The members of a segment by the rules that a viewer reads are those by the stored rules.
use revenact_backend.Prelude.{
  ◌≡◌, refl, sym, ◌∙◌, ap, Bool, false, ◌&&◌, Option, none, some, is_some, List, [], ◌∷◌, ◌++◌, map,
  ℕ, String, All, keep_if, weaken,
}
use revenact_backend.Prelude.Int.{pos}
use revenact_backend.Segments.Registry.{Kind, Attribute, attributes_for}
use revenact_backend.Segments.Blocks.{World, Match, Rules, leaves}
use revenact_backend.Segments.Validation.{Reader}
use revenact_backend.Segments.Presenting.{present_rules, names_in}
use revenact_backend.Segments.Queries.{Database, Q, matches}
use revenact_backend.Segments.Parts.{◌>>=◌, map_each}
use revenact_backend.Segments.Outputs.{compiled, keys, queries, names_churned}
use revenact_backend.Segments.Compiler.{entry_q, compile_rules}
use revenact_backend.Segments.Truths.{combine_bools, combine-matches}
use revenact_backend.Segments.Redaction.{is_home}
use revenact_backend.Segments.Parents.{IsAtHome}
use revenact_backend.Segments.Entries.{
  leaves-redact_entry, redact_condition_fields, names_churned-redact_condition,
}
use revenact_backend.Segments.Agreement.{opens_in, everywhere-Agrees}
use revenact_backend.Segments.Shown.{Shown, shown, entries_q-redact}
use revenact_backend.Segments.{
  Segment, Viewer, stays, selects, apply, chosen, members_of, members_queryset, pks,
}

abbrev shown_keys : List Shown → List String
shown_keys [] = []
shown_keys (s ∷ ss) = s.0 ++ shown_keys ss

abbrev shown_bools : List Shown → List Bool
shown_bools [] = []
shown_bools (s ∷ ss) = s.1 ∷ shown_bools ss

module _ {Number : Type 0} (db : Database Number) (row : db.Row) where
  abbrev show : List (List String × Q Number) → List Shown
  show es = map (λ e. (e.0, matches db e.1 row)) es

  keys-show : (es : List (List String × Q Number)) → keys es ≡ shown_keys (show es)
  unfolding keys
  keys-show [] = refl
  keys-show ((ks, q) ∷ es) = ap (λ l. ks ++ l) (keys-show es)

  queries-show :
      (es : List (List String × Q Number))
      → map (λ q. matches db q row) (queries es) ≡ shown_bools (show es)
  unfolding queries
  queries-show [] = refl
  queries-show ((ks, q) ∷ es) = ap (λ l. matches db q row ∷ l) (queries-show es)

  -- What is selected, from the keys and the truths of the conditions.
  abbrev shown_select : Match → Bool → Kind → List Shown → Bool
  shown_select m churn kind ss =
      combine_bools m (shown_bools ss) && stays db churn (shown_keys ss) kind row

  selects-compiled :
      (rules : Rules Number) (kind : Kind) (es : List (List String × Q Number))
      → selects db (compiled rules kind es) row
        ≡ shown_select rules.match (names_churned (leaves rules.conditions)) kind (show es)
  unfolding selects compiled
  selects-compiled rules kind es =
      rw (combine-matches db row rules.match (queries es), queries-show es, keys-show es) refl

keep_if-same :
    {A : Type 0} (p q : A → Bool) (xs : List A)
    → All (λ x. p x ≡ q x) xs
    → keep_if p xs ≡ keep_if q xs
keep_if-same p q [] h = refl
keep_if-same p q (x ∷ xs) h = rw (h.0, keep_if-same p q xs h.1) refl

-- A database of one row without an owner, a product or parents.
abbrev lone : (Number : Type 0) → Database Number
lone Number = record {
  Row = Unit;
  pk = λ row. pos 0;
  owner = λ row. none;
  product = λ row. none;
  customers = λ row. [];
  own_customer_of = λ row. none;
  account_of = λ row. none;
  account_customers = λ row. [];
  parents = λ kind row. [];
  says = λ t row. false;
}

lone-IsAtHome : (Number : Type 0) (user : Reader) → IsAtHome user (lone Number) tt
unfolding is_home
lone-IsAtHome Number user = ((refl, refl), λ kind. tt)

is_some-shown :
    {Number : Type 0} (db : Database Number) (row : db.Row)
    (o : Option (List (List String × Q Number)))
    → is_some (shown db row o) ≡ is_some o
is_some-shown db row none = refl
is_some-shown db row (some es) = refl

module _ {Number : Type 0} (db : Database Number) (segment : Segment Number)
    (visible : List db.Row) where
  -- Rules whose conditions have the same keys and truths on every visible row select the same members.
  members_of-shown :
      (mine theirs : Rules Number) (kind : Kind) (p q : Option (List (List String × Q Number)))
      → mine.match ≡ theirs.match
      → names_churned (leaves mine.conditions) ≡ names_churned (leaves theirs.conditions)
      → is_some p ≡ is_some q
      → All (λ row. shown db row p ≡ shown db row q) visible
      → (p >>= λ es. some (compiled mine kind es) >>= λ c. some (members_of db segment visible c))
        ≡ (q >>= λ es.
            some (compiled theirs kind es) >>= λ c. some (members_of db segment visible c))
  unfolding members_of apply
  members_of-shown mine theirs kind none none e f d h = refl
  members_of-shown mine theirs kind none (some qs) e f d h = absurd (cc d)
  members_of-shown mine theirs kind (some ps) none e f d h = absurd (cc d)
  members_of-shown mine theirs kind (some ps) (some qs) e f d h =
      ap (λ rows. some (keep_if (chosen db segment (pks db rows)) visible))
        (keep_if-same (selects db (compiled mine kind ps)) (selects db (compiled theirs kind qs))
          visible (weaken same visible h))
    where
      same :
          (row : db.Row)
          → shown db row (some ps) ≡ shown db row (some qs)
          → selects db (compiled mine kind ps) row ≡ selects db (compiled theirs kind qs) row
      same row k =
          rw (selects-compiled db row mine kind ps, selects-compiled db row theirs kind qs)
            (cc (e, f, k))

-- The segment with the rules that the viewer reads.
unfoldable pub presented :
    {Number : Type 0} {db : Database Number} → Segment Number → Viewer db → Segment Number
unfolding present_rules
presented segment viewer = record segment {
  rules = (present_rules segment.rules segment.kind viewer.reader).0;
}

module _ (world : World) (db : Database world.Number) (workspace : List Attribute) (today : ℕ)
    (segment : Segment world.Number) (viewer : Viewer db) where
  open world use {Number}

  abbrev entries_of : Rules Number → Option (List (List String × Q Number))
  entries_of rules =
      map_each
        (entry_q world segment.kind
          (attributes_for workspace (map (λ c. c.field) (leaves rules.conditions))) viewer.reader
          today)
        rules.conditions

  abbrev chosen_by : Rules Number → Option (List db.Row)
  chosen_by rules = entries_of rules >>= λ es. some (compiled rules segment.kind es) >>= λ c.
      some (members_of db segment (viewer.visible_records segment.kind) c)

  chosen_lem :
      (rules : Rules Number) (o : Option (List (List String × Q Number)))
      → (o >>= (λ es. some (compiled rules segment.kind es)) >>= λ c.
          some (members_of db segment (viewer.visible_records segment.kind) c))
        ≡ (o >>= λ es. some (compiled rules segment.kind es) >>= λ c.
            some (members_of db segment (viewer.visible_records segment.kind) c))
  chosen_lem rules none = refl
  chosen_lem rules (some es) = refl

  abbrev read_rules : Rules Number
  read_rules = (presented segment viewer).rules

  -- On a row at home, in this database or another one.
  entries_shown :
      (other : Database Number) (row : other.Row)
      → IsAtHome viewer.reader other row
      → shown other row (entries_of read_rules) ≡ shown other row (entries_of segment.rules)
  unfolding presented present_rules names_in
  entries_shown other row home =
      rw
        (
          leaves-redact_entry segment.kind
              (opens_in segment.kind viewer.reader (leaves segment.rules.conditions))
              segment.rules.conditions,
          redact_condition_fields segment.kind
              (opens_in segment.kind viewer.reader (leaves segment.rules.conditions))
              (leaves segment.rules.conditions),
        )
        (entries_q-redact world segment.kind
          (attributes_for workspace (map (λ c. c.field) (leaves segment.rules.conditions)))
          viewer.reader today
          (opens_in segment.kind viewer.reader (leaves segment.rules.conditions)) other row home
          segment.rules.conditions
          (everywhere-Agrees segment.kind viewer.reader (leaves segment.rules.conditions)))

  read_churn :
      names_churned (leaves read_rules.conditions) ≡ names_churned (leaves segment.rules.conditions)
  unfolding presented present_rules names_in
  read_churn =
      ap names_churned (
        leaves-redact_entry segment.kind
          (opens_in segment.kind viewer.reader (leaves segment.rules.conditions))
          segment.rules.conditions)
      ∙ names_churned-redact_condition segment.kind
          (opens_in segment.kind viewer.reader (leaves segment.rules.conditions))
          (leaves segment.rules.conditions)

  -- Where the viewer may see named the owner and the product of every record that they may open, and of
  -- its parents, a segment has for them the members that it would have by the rules that they read,
  -- in which every id that they may not see named is missing; and where the compilation of the stored
  -- rules raises, so does that of those that they read.
  pub members_queryset-present_rules :
      All (IsAtHome viewer.reader db) (viewer.visible_records segment.kind)
      → members_queryset world db workspace today (presented segment viewer) viewer
        ≡ members_queryset world db workspace today segment viewer
  unfolding members_queryset presented compile_rules
  members_queryset-present_rules home =
      chosen_lem read_rules (entries_of read_rules)
      ∙ members_of-shown db segment (viewer.visible_records segment.kind) read_rules segment.rules
          segment.kind (entries_of read_rules) (entries_of segment.rules) refl read_churn
          (sym (is_some-shown (lone Number) tt (entries_of read_rules))
            ∙ ap is_some (entries_shown (lone Number) tt (lone-IsAtHome Number viewer.reader))
            ∙ is_some-shown (lone Number) tt (entries_of segment.rules))
          (weaken_home (viewer.visible_records segment.kind) home)
      ∙ sym (chosen_lem segment.rules (entries_of segment.rules))
    where
      weaken_home :
          (rows : List db.Row)
          → All (IsAtHome viewer.reader db) rows
          → All
              (λ row.
                shown db row (entries_of read_rules) ≡ shown db row (entries_of segment.rules))
              rows
      weaken_home rows = weaken (entries_shown db) rows
