-- ===== src/Portfolio/Cursors.antt =====
-- services/portfolio_core/shape.py: the cursor of a list, as a text and as the rank that it names.
use Prim.Native.String.{◌++◌}
use revenact_backend.Prelude.{
  ℕ, zero, suc, ◌-◌, ◌%◌, ◌≤◌, ◌==◌, String, ◌≡◌, ◌≢◌, Bool, true, false, not, all_codes, Option,
  none, some, str_eq, if◌then◌else◌, is_some, size, strip_end_of,
}
use revenact_backend.Prelude.Int.{ℤ, pos}
use revenact_backend.Prelude.Orders.{Order}

mutual
  -- A JSON document whose floats are `Number`s.
  pub data Json (Number : Type 0) : Type 0 where
    null : Json Number
    boolean : Bool → Json Number
    integer : ℤ → Json Number
    real : Number → Json Number
    text : String → Json Number
    array : Items Number → Json Number
    object : Members Number → Json Number

  pub data Items (Number : Type 0) : Type 0 where
    no_items : Items Number
    item : Json Number → Items Number → Items Number

  pub data Members (Number : Type 0) : Type 0 where
    no_members : Members Number
    member : String → Json Number → Members Number → Members Number

-- What `float` does: a number, one of the exceptions that `decode_cursor` catches, or the
-- OverflowError of an integer that no float is near.
pub data Loaded (A : Type 0) : Type 0 where
  loaded : A → Loaded A
  refused overflow : Loaded A

-- What the code takes from libraries. `Number` is the floats without NaN and `of_int` an integer among
-- them; `encode` is `json.dumps` and then `urlsafe_b64encode`, `decode` the way back, or none where it
-- raises one of the exceptions that are caught; `day_of` is `date.fromisoformat`.
pub record World : Type 1 where
  pub Number : Type 0
  pub order : Order Number
  pub of_int : ℤ → Number
  pub integral : Number → Option ℤ
  pub encode : Json Number → String
  pub decode : String → Option (Json Number)
  pub float : Json Number → Loaded Number
  pub iso : ℕ → String
  pub day_of : Json Number → Option ℕ

-- `"=" * n`
unfoldable pub equal_signs : ℕ → String
equal_signs zero = ""
equal_signs (suc n) = "=" ++ equal_signs n

-- `cursor + "=" * (-len(cursor) % 4)`
unfoldable pub fill : String → String
unfolding equal_signs
fill cursor = cursor ++ equal_signs ((4 - size cursor % 4) % 4)

-- The documented behaviour: `float` of a float is that float, and a date's ISO text is read back.
pub record IsLawful (world : World) : Type 0 where
  pub floats : (x : world.Number) → world.float (real x) ≡ loaded x
  pub days : (d : ℕ) → world.day_of (text (world.iso d)) ≡ some d

-- The documented behaviour on a document: what was encoded decodes, and a base64 text is at least one
-- digit, none of which is `=` (61), and then at most two `=`, which make its length a multiple of four.
pub record IsReadBack (world : World) (document : Json world.Number) : Type 0 where
  pub decoded : world.decode (world.encode document) ≡ some document
  pub digits : String
  pub padding : String
  pub written : world.encode document ≡ digits ++ padding
  pub some_digits : digits ≢ ""
  pub in_alphabet : all_codes (λ c. not (c == 61)) digits ≡ true
  pub only_signs : all_codes (λ c. c == 61) padding ≡ true
  pub short : size padding ≤ 2
  pub whole : size (digits ++ padding) % 4 ≡ 0

-- The types of the values that a list is sorted by.
pub data Kind : Type 0 where
  number words day : Kind

abbrev pub Value : World → Kind → Type 0
Value world number = world.Number
Value world words = String
Value world day = ℕ

-- A value that a cursor carries; what compares with no sort value is `other`.
pub data Raw (Number : Type 0) : Type 0 where
  missing other : Raw Number
  a_number : Number → Raw Number
  a_text : String → Raw Number
  a_day : ℕ → Raw Number

-- A section's position, and the rank that a cursor names, with its fingerprint.
abbrev pub Section : Type 0
Section = ℤ × (String × String)

pub record Cursor (Number : Type 0) : Type 0 where
  pub section : Option Section
  pub is_missing : Bool
  pub value : Raw Number
  pub name : String
  pub entry_id : ℤ
  pub fingerprint : String

-- What a read of the cursor comes to: a value, an exception that is caught, or one that is not.
pub data Read (A : Type 0) : Type 0 where
  got : A → Read A
  nothing : Read A
  escapes : Read A

infixl 5 ◌>>=◌
abbrev pub ◌>>=◌ : {A B : Type 0} → Read A → (A → Read B) → Read B
got a >>= f = f a
nothing >>= f = nothing
escapes >>= f = escapes

abbrev pub or_nothing : {A : Type 0} → Option A → Read A
or_nothing none = nothing
or_nothing (some a) = got a

module _ {Number : Type 0} where
  -- `data[key]` of the last member with that key.
  unfoldable pub find_key : String → Members Number → Option (Json Number)
  find_key key no_members = none
  find_key key (member k v rest) = elim (find_key key rest) [
    | some w ↦ some w
    | none ↦ if str_eq k key then some v else none
  ]

  unfoldable pub as_object : Json Number → Option (Members Number)
  as_object (object members) = some members
  as_object _ = none

  unfoldable pub as_text : Json Number → Option String
  as_text (text t) = some t
  as_text _ = none

  -- `isinstance(value, int)`, which a Boolean is.
  unfoldable pub as_int : Json Number → Option ℤ
  as_int (integer n) = some n
  as_int (boolean true) = some (pos 1)
  as_int (boolean false) = some (pos 0)
  as_int _ = none

  -- `_load_section`
  unfoldable pub load_section : Json Number → Read (Option Section)
  unfolding as_int as_text
  load_section (array no_items) = got none
  load_section (array (item p (item n (item k no_items)))) = do
    position ← or_nothing (as_int p)
    name ← or_nothing (as_text n)
    key ← or_nothing (as_text k)
    got (some (position, (name, key)))
  load_section _ = nothing

  unfoldable pub dump_section : Option Section → Json Number
  dump_section none = array no_items
  dump_section (some (position, (name, key))) =
      array (item (integer position) (item (text name) (item (text key) no_items)))

module _ (world : World) where
  open world use {Number, of_int, integral, encode, decode, float, iso, day_of}

  -- `data["b"] in (0, 1)`, and which of them.
  unfoldable pub bucket_of : Json Number → Option Bool
  unfolding as_int
  bucket_of (real x) = elim (integral x) [
    | some (pos zero) ↦ some false
    | some (pos (suc zero)) ↦ some true
    | _ ↦ none
  ]
  bucket_of j = elim (as_int j) [
    | some (pos zero) ↦ some false
    | some (pos (suc zero)) ↦ some true
    | _ ↦ none
  ]

  -- A value that was loaded as it stands, kind "str".
  unfoldable pub raw_of : Json Number → Raw Number
  raw_of null = missing
  raw_of (boolean b) = a_number (of_int (pos (if b then 1 else 0)))
  raw_of (integer n) = a_number (of_int n)
  raw_of (real x) = a_number x
  raw_of (text t) = a_text t
  raw_of (array _) = other
  raw_of (object _) = other

  unfoldable pub read_float : Loaded Number → Read (Raw Number)
  read_float (loaded x) = got (a_number x)
  read_float refused = nothing
  read_float overflow = escapes

  -- `_load_value`
  unfoldable pub load_value : Json Number → String → Read (Raw Number)
  unfolding raw_of read_float
  load_value raw kind =
      if str_eq kind "none"
      then got missing
      else if str_eq kind "date"
      then elim (day_of raw) [ none ↦ nothing | some d ↦ got (a_day d) ]
      else if str_eq kind "str"
      then got (raw_of raw)
      else if str_eq kind "num"
      then read_float (float raw)
      else nothing

  -- `_dump_value`: the document, and the name of its kind.
  unfoldable pub dump_value : (kind : Kind) → Option (Value world kind) → Json Number × String
  dump_value kind none = (null, "none")
  dump_value number (some x) = (real x, "num")
  dump_value words (some t) = (text t, "str")
  dump_value day (some d) = (text (iso d), "date")

  unfoldable pub cursor_json :
      (kind : Kind) → Option Section → Option (Value world kind) → String → ℤ → String → Json Number
  unfolding dump_section dump_value
  cursor_json kind section value name entry_id fingerprint = object (
      member "sec" (dump_section section) (
        member "b" (integer (if is_some value then pos 0 else pos 1)) (
          member "v" (dump_value kind value).0 (
            member "t" (text (dump_value kind value).1) (
              member "n" (text name)
                (member "id" (integer entry_id) (member "f" (text fingerprint) no_members)))))))

  -- `encode_cursor`
  unfoldable pub encode_cursor :
      (kind : Kind) → Option Section → Option (Value world kind) → String → ℤ → String → String
  unfolding cursor_json
  encode_cursor kind section value name entry_id fingerprint =
      strip_end_of 61 (encode (cursor_json kind section value name entry_id fingerprint))

  unfoldable pub read_members : Members Number → Read (Cursor Number)
  unfolding find_key load_section bucket_of load_value as_text as_int
  read_members members = do
    sec ← or_nothing (find_key "sec" members)
    section ← load_section sec
    b ← or_nothing (find_key "b" members)
    t ← or_nothing (find_key "t" members)
    bucket ← or_nothing (bucket_of b)
    v ← or_nothing (find_key "v" members)
    kind ← or_nothing (as_text t)
    value ← load_value v kind
    n ← or_nothing (find_key "n" members)
    i ← or_nothing (find_key "id" members)
    f ← or_nothing (find_key "f" members)
    name ← or_nothing (as_text n)
    entry_id ← or_nothing (as_int i)
    fingerprint ← or_nothing (as_text f)
    got (record {
      section = section;
      is_missing = bucket;
      value = value;
      name = name;
      entry_id = entry_id;
      fingerprint = fingerprint;
    })

  -- `decode_cursor`; the empty text is no cursor.
  unfoldable pub decode_cursor : String → Read (Cursor Number)
  unfolding fill as_object read_members
  decode_cursor cursor = if str_eq cursor "" then nothing else do
    document ← or_nothing (decode (fill cursor))
    members ← or_nothing (as_object document)
    read_members members
