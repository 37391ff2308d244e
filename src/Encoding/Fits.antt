-- ===== src/Encoding/Fits.antt =====
-- The values that a schema can carry: numbers in the range of their type, members of their
-- enumeration, lengths within their limits, and texts that survive.
use suplalite.Common.{ℕ, ◌+◌, ◌≤◌, ◌<◌, ◌^◌, ◌≡◌, true, false, none, some, length, All}
use suplalite.Common.Int.{pos}
use suplalite.Python.Result.{ok}
use suplalite.Python.Bytes.{Bytes}
use suplalite.Python.Word.{Ctype, InRange}
use suplalite.Python.Text.{Str, utf8, IsAscii}
use suplalite.Encoding.Schema.{
  Typ, int_flag, enum, Codec, Schema, size_for, integer, double, bytes_size, bytes_max, string_size,
  string_max, packed_array, message, entry,
}
use suplalite.Encoding.Value.{Value, Items, Attrs, empty, cons, attr, length_items}
use suplalite.Encoding.Encode.{size_value}
use suplalite.Encoding.Decode.{is_member}

abbrev pub FitsInteger : Ctype → Typ → Value → Type 0
FitsInteger c Typ.int (Value.int z) = InRange c z
FitsInteger c Typ.bool (Value.bool b) = Unit
FitsInteger c int_flag (Value.enum z) = InRange c z
FitsInteger c (enum members) (Value.enum z) = (is_member z members ≡ true) × InRange c z
FitsInteger _ _ _ = ⊥

abbrev pub AllItems : (Value → Type 0) → Items → Type 0
AllItems P empty = Unit
AllItems P (cons x xs) = P x × AllItems P xs

abbrev pub IsMessage : (Attrs → Type 0) → Value → Type 0
IsMessage P (Value.message m) = P m
IsMessage P _ = ⊥

-- A text of fixed size has no NUL and room for its encoding. A text with a size field is ASCII.
abbrev pub FitsText : ℕ → Str → Type 0
FitsText size s = record {
  encoded : Bytes;
  encodes : utf8 s ≡ ok encoded;
  room : length encoded ≤ size;
  no_nul : All (λ c. 0 < c) s;
}

abbrev mutual
  pub Fits : Codec → Value → Type 0
  Fits (integer c t) v = FitsInteger c t v
  Fits double (Value.float b) = b < 256 ^ 8
  Fits (bytes_size n) (Value.bytes b) = length b ≡ n
  Fits (bytes_max n) (Value.bytes b) = length b ≤ n
  Fits (string_size n) (Value.str s) = FitsText n s
  Fits (string_max n true) (Value.str s) = IsAscii s × (length s + 1 ≤ n)
  Fits (string_max n false) (Value.str s) = IsAscii s × (length s ≤ n)
  Fits (packed_array n s) (Value.list xs) =
      (length_items xs ≤ n) × AllItems (IsMessage (λ m. FitsFields s s m m)) xs
  Fits (message s) (Value.message m) = FitsFields s s m m
  Fits _ _ = ⊥

  -- The attributes are those of the fields that `__init__` takes, in order; each size fits its size
  -- field.
  pub FitsFields : Schema → Schema → Attrs → Attrs → Type 0
  FitsFields Schema.nil all msg Attrs.nil = Unit
  FitsFields Schema.nil all msg (attr _ _ _) = ⊥
  FitsFields (entry none init (size_for n c) rest) all msg attrs =
      record { size : ℕ; counts : size_value all msg n ≡ ok size; in_range : InRange c (pos size) }
      × FitsFields rest all msg attrs
  FitsFields (entry (some n) true c rest) all msg (attr m v attrs) =
      (m ≡ n) × Fits c v × FitsFields rest all msg attrs
  FitsFields (entry (some n) true c rest) all msg Attrs.nil = ⊥
  FitsFields (entry _ _ _ rest) all msg attrs = FitsFields rest all msg attrs

-- The messages of a class that its encoding carries.
abbrev pub FitsMessage : Schema → Attrs → Type 0
FitsMessage s msg = FitsFields s s msg msg
