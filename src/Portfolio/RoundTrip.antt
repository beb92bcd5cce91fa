-- ===== src/Portfolio/RoundTrip.antt =====
-- A cursor that was cut reads back as the rank that it was cut at.
use revenact_backend.Prelude.{String, ◌≡◌, refl, Option, none, some, not, is_some}
use revenact_backend.Prelude.Int.{ℤ}
use revenact_backend.Portfolio.Cursors.{
  World, IsLawful, IsReadBack, Kind, number, words, day, Value, Raw, missing, a_number, a_text,
  a_day, Section, Cursor, got, encode_cursor, decode_cursor, or_nothing, ◌>>=◌, cursor_json,
  dump_section, dump_value, read_members, find_key, as_object, as_text, as_int, load_section,
  load_value, read_float, raw_of, bucket_of,
}
use revenact_backend.Portfolio.Padding.{strip_end_of-digits, fill-digits, digits-some}

-- A sort value as a cursor carries it.
abbrev pub carried : (world : World) (kind : Kind) → Option (Value world kind) → Raw world.Number
carried world kind none = missing
carried world number (some x) = a_number x
carried world words (some t) = a_text t
carried world day (some d) = a_day d

-- The cursor of a row's rank.
abbrev pub cut :
    (world : World) (kind : Kind)
    → Option Section
    → Option (Value world kind)
    → String
    → ℤ
    → String
    → Cursor world.Number
cut world kind section value name entry_id fingerprint = record {
  section = section;
  is_missing = not (is_some value);
  value = carried world kind value;
  name = name;
  entry_id = entry_id;
  fingerprint = fingerprint;
}

module _ (world : World) (lawful : IsLawful world) where
  -- What the document of a cut reads as.
  read_members-cut :
      (kind : Kind) (section : Option Section) (value : Option (Value world kind)) (name : String)
      (entry_id : ℤ) (fingerprint : String)
      → (or_nothing (as_object (cursor_json world kind section value name entry_id fingerprint))
          >>= read_members world)
        ≡ got (cut world kind section value name entry_id fingerprint)
  unfolding cursor_json dump_section dump_value as_object read_members find_key as_text as_int
      load_section load_value raw_of bucket_of read_float
  read_members-cut kind none none name entry_id fingerprint = refl
  read_members-cut kind (some s) none name entry_id fingerprint = refl
  read_members-cut number none (some x) name entry_id fingerprint = rw (lawful.floats x) refl
  read_members-cut number (some s) (some x) name entry_id fingerprint = rw (lawful.floats x) refl
  read_members-cut words none (some x) name entry_id fingerprint = refl
  read_members-cut words (some s) (some x) name entry_id fingerprint = refl
  read_members-cut day none (some x) name entry_id fingerprint = rw (lawful.days x) refl
  read_members-cut day (some s) (some x) name entry_id fingerprint = rw (lawful.days x) refl

  -- Where what was encoded decodes, and base64 ends a text of at least one digit with at most two `=`
  -- that make its length a multiple of four, for the document of a rank: the cursor that is
  -- cut at the rank, which is stripped of its `=` and filled up again, decodes to its section, its
  -- value or that it has none, its name, its id and the list's fingerprint.
  pub decode_cursor-encode_cursor :
      (kind : Kind) (section : Option Section) (value : Option (Value world kind)) (name : String)
      (entry_id : ℤ) (fingerprint : String)
      → IsReadBack world (cursor_json world kind section value name entry_id fingerprint)
      → decode_cursor world (encode_cursor world kind section value name entry_id fingerprint)
        ≡ got (cut world kind section value name entry_id fingerprint)
  unfolding decode_cursor encode_cursor
  decode_cursor-encode_cursor kind section value name entry_id fingerprint read_back =
      rw
        (
          strip_end_of-digits read_back,
          digits-some read_back,
          fill-digits read_back,
          read_back.decoded,
        )
        (read_members-cut kind section value name entry_id fingerprint)
