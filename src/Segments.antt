-- ===== src/Segments.antt =====
-- services/segments/evaluate.py: a segment's members, for whoever is looking.
pub mod Registry
pub mod Blocks
pub mod Validation
pub mod Presenting
pub mod Queries
pub mod Parts
pub mod Values
pub mod Outputs
pub mod Compiler
mod Fields
mod Leaves
mod Parents
mod Entries
mod Agreement
mod Shown
mod Members
mod Checking
mod Validated
mod Compiles
mod Soundness
mod Typing
mod Succeeds
mod Shows
mod Tests
mod Ids
mod References
mod Truths
mod Redaction
use revenact_backend.Prelude.{
  ℕ, String, Bool, true, false, not, ◌&&◌, ◌||◌, Option, none, some, List, [], ◌∷◌, map, keep_if,
  member, length, if◌then◌else◌,
}
use revenact_backend.Prelude.Int.{ℤ, ltb_ℤ, eqb_ℤ}
use revenact_backend.Portfolio.Cursors.{boolean}
use revenact_backend.Segments.Registry.{Kind, customer, Attribute}
use revenact_backend.Segments.Blocks.{World, Rules}
use revenact_backend.Segments.Validation.{Reader}
use revenact_backend.Segments.Queries.{
  Database, test, churned, compares, exact, plain_column, given, matches, is_among,
}
use revenact_backend.Segments.Parts.{◌>>=◌}
use revenact_backend.Segments.Outputs.{Compiled}
use revenact_backend.Segments.Compiler.{compile_rules}

-- `Segment` and `Draft`
pub record Segment (Number : Type 0) : Type 0 where
  pub owner_id : Option ℤ
  pub kind : Kind
  pub rules : Rules Number
  pub pinned_ids : List ℤ
  pub excluded_ids : List ℤ

-- Someone who looks: what they may see named, and the records of each kind that they may open.
pub record Viewer {Number : Type 0} (db : Database Number) : Type 0 where
  pub pk : ℤ
  pub reader : Reader
  pub visible_records : Kind → List db.Row

module _ {Number : Type 0} (db : Database Number) where
  -- Whether a record stays that is churned or archived.
  unfoldable pub stays : Bool → List String → Kind → db.Row → Bool
  unfolding matches
  stays names_churned named_keys customer row =
      (names_churned || not (matches db (test churned) row))
      && (member "archived" named_keys
          || matches db (test (compares exact (plain_column "is_archived") (given (boolean false))))
              row)
  stays names_churned named_keys _ row = true

  unfoldable pub selects : Compiled Number → db.Row → Bool
  unfolding matches stays
  selects c row = matches db c.q row && stays c.names_churned c.named_keys c.kind row

  -- `Compiled.apply`
  unfoldable pub apply : Compiled Number → List db.Row → List db.Row
  unfolding selects
  apply c rows = keep_if (selects c) rows

  abbrev pub pks : List db.Row → List ℤ
  pks rows = map db.pk rows

  -- The rows that are matched or pinned, and not excluded.
  unfoldable pub chosen : Segment Number → List ℤ → db.Row → Bool
  unfolding is_among
  chosen segment matched row =
      (is_among (db.pk row) matched || is_among (db.pk row) segment.pinned_ids)
      && not (is_among (db.pk row) segment.excluded_ids)

  unfoldable pub members_of : Segment Number → List db.Row → Compiled Number → List db.Row
  unfolding apply chosen
  members_of segment visible compiled =
      keep_if (chosen segment (pks (apply compiled visible))) visible

-- `sorted(set(ids))`
unfoldable pub insert_sorted : ℤ → List ℤ → List ℤ
insert_sorted n [] = n ∷ []
insert_sorted n (m ∷ ms) =
    let rest = insert_sorted n ms in
    if ltb_ℤ n m then n ∷ m ∷ ms else if eqb_ℤ n m then m ∷ ms else m ∷ rest

unfoldable pub sorted_set : List ℤ → List ℤ
unfolding insert_sorted
sorted_set [] = []
sorted_set (n ∷ ns) = insert_sorted n (sorted_set ns)

unfoldable pub is_owner : Option ℤ → ℤ → Bool
is_owner none pk = true
is_owner (some owner) pk = eqb_ℤ owner pk

module _ (world : World) (db : Database world.Number) (workspace : List Attribute) (today : ℕ) where
  open world use {Number}

  -- `members_queryset`, which lets what the compilation raises through.
  unfoldable pub members_queryset : Segment Number → Viewer db → Option (List db.Row)
  unfolding compile_rules members_of
  members_queryset segment viewer =
      compile_rules world segment.rules segment.kind workspace viewer.reader today >>= λ compiled.
      some (members_of db segment (viewer.visible_records segment.kind) compiled)

  -- `member_ids`
  unfoldable pub member_ids : Segment Number → Viewer db → Option (List ℤ)
  unfolding members_queryset sorted_set
  member_ids segment viewer =
      members_queryset segment viewer >>= λ rows. some (sorted_set (pks db rows))

  -- `hidden_count`: how many of the owner's members the viewer cannot open.
  unfoldable pub hidden_count : Segment Number → Viewer db → Viewer db → Option ℕ
  unfolding members_queryset is_owner is_among
  hidden_count segment owner viewer =
      if is_owner segment.owner_id viewer.pk
      then some 0
      else (members_queryset segment owner >>= λ rows. some (
          length (
            keep_if
              (λ row. not (is_among (db.pk row) (pks db (viewer.visible_records segment.kind))))
              rows)))

  -- `openable_ids`
  unfoldable pub openable_ids : Kind → Viewer db → List ℤ → List ℤ
  unfolding sorted_set is_among
  openable_ids kind viewer ids =
      sorted_set (pks db (keep_if (λ row. is_among (db.pk row) ids) (viewer.visible_records kind)))
