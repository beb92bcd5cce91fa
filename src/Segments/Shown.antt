-- ===== src/Segments/Shown.antt =====
-- The query of the rules that a reader reads, on a row of their book.
use revenact_backend.Prelude.{
  ◌≡◌, refl, ap, Bool, Option, none, some, List, [], ◌∷◌, ◌++◌, map, ℕ, String, All, weaken,
}
use revenact_backend.Prelude.Int.{ℤ}
use revenact_backend.Segments.Registry.{Kind, RecordType, Attribute}
use revenact_backend.Segments.Blocks.{World, Condition, Entry, leaf, group, leaves, leaves_of}
use revenact_backend.Segments.Validation.{Reader}
use revenact_backend.Segments.Presenting.{redact_condition, redact_entry, record_of}
use revenact_backend.Segments.Queries.{Database, Q, matches, combine}
use revenact_backend.Segments.Parts.{◌>>=◌, map_each}
use revenact_backend.Segments.Compiler.{leaf_q, entry_q}
use revenact_backend.Segments.Truths.{truth, truth_of_parts, truths_each}
use revenact_backend.Segments.Leaves.{AgreesAs}
use revenact_backend.Segments.Parents.{IsAtHome, leaf_q-redact}
use revenact_backend.Segments.Entries.{redact_condition_field, redact_condition_fields}

-- A top-level condition's keys, and its truth.
abbrev pub Shown : Type 0
Shown = List String × Bool

module _ {Number : Type 0} (db : Database Number) (row : db.Row) where
  abbrev pub shown_entry : Option (List String × Q Number) → Option Shown
  shown_entry none = none
  shown_entry (some e) = some (e.0, matches db e.1 row)

  abbrev pub shown : Option (List (List String × Q Number)) → Option (List Shown)
  shown none = none
  shown (some es) = some (map (λ e. (e.0, matches db e.1 row)) es)

  shown_cons :
      (p q : Option (List String × Q Number)) (ps qs : Option (List (List String × Q Number)))
      → shown_entry p ≡ shown_entry q
      → shown ps ≡ shown qs
      → shown (p >>= λ x. ps >>= λ xs. some (x ∷ xs))
        ≡ shown (q >>= λ x. qs >>= λ xs. some (x ∷ xs))
  shown_cons none none ps qs g h = refl
  shown_cons none (some q) ps qs g h = absurd (cc g)
  shown_cons (some p) none ps qs g h = absurd (cc g)
  shown_cons (some p) (some q) none none g h = refl
  shown_cons (some p) (some q) none (some qs) g h = absurd (cc h)
  shown_cons (some p) (some q) (some ps) none g h = absurd (cc h)
  shown_cons (some p) (some q) (some ps) (some qs) g h = cc (g, h)

  shown_with :
      (ks ls : List String) (p q : Option (Q Number))
      → ks ≡ ls
      → truth db row p ≡ truth db row q
      → shown_entry (p >>= λ x. some (ks, x)) ≡ shown_entry (q >>= λ x. some (ls, x))
  shown_with ks ls none none e h = refl
  shown_with ks ls none (some q) e h = absurd (cc h)
  shown_with ks ls (some p) none e h = absurd (cc h)
  shown_with ks ls (some p) (some q) e h = cc (e, h)

module _ (world : World) (kind : Kind) (attributes : List Attribute) (user : Reader) (today : ℕ)
    (opens : RecordType → ℤ → Bool) (db : Database world.Number) (row : db.Row)
    (home : IsAtHome user db row) where
  open world use {Number}

  abbrev pub AgreesOn : Condition Number → Type 0
  AgreesOn c = AgreesAs user opens (record_of kind c.field) c.value

  entry_q-redact :
      (e : Entry Number)
      → All AgreesOn (leaves_of e)
      → shown_entry db row (entry_q world kind attributes user today (redact_entry kind opens e))
        ≡ shown_entry db row (entry_q world kind attributes user today e)
  unfolding entry_q redact_entry leaves_of
  entry_q-redact (leaf c) h =
      shown_with db row ((redact_condition kind opens c).field ∷ []) (c.field ∷ [])
        (leaf_q world kind attributes user today (redact_condition kind opens c))
        (leaf_q world kind attributes user today c)
        (ap (λ k. k ∷ []) (redact_condition_field kind opens c))
        (leaf_q-redact world kind attributes user today opens db row home c h.0)
  entry_q-redact (group m cs) h =
      shown_with db row (map (λ c. c.field) (map (redact_condition kind opens) cs))
        (map (λ c. c.field) cs)
        (map_each (leaf_q world kind attributes user today) (map (redact_condition kind opens) cs)
          >>= λ qs. some (combine m qs))
        (map_each (leaf_q world kind attributes user today) cs >>= λ qs. some (combine m qs))
        (redact_condition_fields kind opens cs)
        (truth_of_parts db row m
          (map_each (leaf_q world kind attributes user today)
            (map (redact_condition kind opens) cs))
          (map_each (leaf_q world kind attributes user today) cs)
          (truths_each db row (leaf_q world kind attributes user today)
            (leaf_q world kind attributes user today) (redact_condition kind opens) cs
            (weaken (leaf_q-redact world kind attributes user today opens db row home) cs h)))

  All-left : (cs ds : List (Condition Number)) → All AgreesOn (cs ++ ds) → All AgreesOn cs
  All-left [] ds h = tt
  All-left (c ∷ cs) ds h = (h.0, All-left cs ds h.1)

  All-right : (cs ds : List (Condition Number)) → All AgreesOn (cs ++ ds) → All AgreesOn ds
  All-right [] ds h = h
  All-right (c ∷ cs) ds h = All-right cs ds h.1

  -- The keys of the conditions that are read, and their truths, are those of the stored ones.
  pub entries_q-redact :
      (es : List (Entry Number))
      → All AgreesOn (leaves es)
      → shown db row
          (map_each (entry_q world kind attributes user today) (map (redact_entry kind opens) es))
        ≡ shown db row (map_each (entry_q world kind attributes user today) es)
  unfolding map_each leaves
  entries_q-redact [] h = refl
  entries_q-redact (e ∷ es) h =
      shown_cons db row (entry_q world kind attributes user today (redact_entry kind opens e))
        (entry_q world kind attributes user today e)
        (map_each (entry_q world kind attributes user today) (map (redact_entry kind opens) es))
        (map_each (entry_q world kind attributes user today) es)
        (entry_q-redact e (All-left (leaves_of e) (leaves es) h))
        (entries_q-redact es (All-right (leaves_of e) (leaves es) h))
