-- ===== src/Encoding/Encode.antt =====
-- `encode` of suplalite/encoding.py and the encoders that it calls.
use suplalite.Common.{
  ℕ, ◌+◌, String, Bool, true, false, Option, none, some, [], ◌++◌, leb, ◌==◌, str_eq, if◌then◌else◌,
  length, replicate,
}
use suplalite.Common.Int.{pos}
use suplalite.Python.Result.{
  Result, ok, err, ◌>>=◌, ◌>>◌, assert, assertion_error, type_error, key_error,
}
use suplalite.Python.Bytes.{Bytes, ljust}
use suplalite.Python.Word.{Ctype, pack, le_bytes}
use suplalite.Python.Text.{utf8}
use suplalite.Encoding.Schema.{
  Codec, Schema, size_for, integer, double, bytes_value, bytes_size, bytes_max, string_size,
  string_max, packed_array, message, entry,
}
use suplalite.Encoding.Value.{Value, Items, Attrs, empty, cons, getattr, length_items}

-- `_encode_ctype` of an integer type: the number of an `Enum` member is its value, of a `bool` 0 or 1.
unfoldable pub encode_ctype : Ctype → Value → Result Bytes
encode_ctype c (Value.int z) = ok (pack c z)
encode_ctype c (Value.bool b) = ok (pack c (if b then pos 1 else pos 0))
encode_ctype c (Value.enum z) = ok (pack c z)
encode_ctype c _ = err type_error

-- `_encode_ctype` of `c_double`, on the bit pattern of a float
unfoldable pub encode_double : Value → Result Bytes
encode_double (Value.float bits) = ok (le_bytes 8 bits)
encode_double _ = err type_error

-- `_encode_string` of a fixed size: it pads, and it does not look at the size.
unfoldable pub encode_string_size : ℕ → Value → Result Bytes
encode_string_size size (Value.str s) = do bs ← utf8 s; ok (ljust bs size)
encode_string_size size _ = err assertion_error

-- `_encode_string` with a size field
unfoldable pub encode_string_max : ℕ → Bool → Value → Result Bytes
encode_string_max max_size null_terminated (Value.str s) = do
  bs ← utf8 s
  let value = (if null_terminated then bs ++ replicate 1 0 else bs)
  assert (leb (length value) max_size)
  ok value
encode_string_max max_size null_terminated _ = err assertion_error

-- `_encode_bytes` of a fixed size, and with a size field
unfoldable pub encode_bytes_size : ℕ → Value → Result Bytes
encode_bytes_size size (Value.bytes bs) = do assert (length bs == size); ok bs
encode_bytes_size size _ = err assertion_error

unfoldable pub encode_bytes_max : ℕ → Value → Result Bytes
encode_bytes_max max_size (Value.bytes bs) = do assert (leb (length bs) max_size); ok bs
encode_bytes_max max_size _ = err assertion_error

-- `data += encode(x)` over the items
unfoldable pub encode_items : (Value → Result Bytes) → Items → Result Bytes
encode_items enc empty = ok []
encode_items enc (cons x xs) = do b ← enc x; bs ← encode_items enc xs; ok (b ++ bs)

-- `_encode_packed_array`, given `encode` at the items' class
unfoldable pub encode_packed_array : ℕ → (Value → Result Bytes) → Value → Result Bytes
unfolding encode_items
encode_packed_array max_size enc (Value.list items) = do
  assert (leb (length_items items) max_size)
  encode_items enc items
encode_packed_array max_size enc _ = err assertion_error

-- `len(value)`: of a `str` it counts characters.
unfoldable pub len : Value → Result ℕ
len (Value.bytes bs) = ok (length bs)
len (Value.str s) = ok (length s)
len (Value.list items) = ok (length_items items)
len _ = err type_error

-- `fields_by_name[name]` (a class names each of its fields once), and whether it is a string with a terminating NUL
unfoldable pub find : Schema → String → Option Codec
find Schema.nil name = none
find (entry none i c rest) name = find rest name
find (entry (some n) i c rest) name = if str_eq n name then some c else find rest name

unfoldable pub terminator : Codec → ℕ
terminator (string_max _ true) = 1
terminator _ = 0

abbrev or_key_error : Option Codec → Result Codec
or_key_error none = err key_error
or_key_error (some c) = ok c

-- The value of the size field of `name`.
unfoldable pub size_value : Schema → Attrs → String → Result ℕ
size_value all msg name = do
  v ← getattr msg name
  c ← or_key_error (find all name)
  n ← len v
  ok (n + terminator c)

-- The attribute that a field encodes; one that `__init__` does not take has none to encode.
unfoldable pub attribute : Attrs → Option String → Bool → Result Value
attribute msg (some name) true = getattr msg name
attribute msg _ _ = err assertion_error

-- `encode(value)` of a message, given `encode` at its class
abbrev pub encode_message : (Attrs → Result Bytes) → Value → Result Bytes
encode_message enc (Value.message msg) = enc msg
encode_message enc _ = err type_error

unfoldable mutual
  -- One field, given the expanded fields of the whole message.
  pub encode_field : Codec → Schema → Option String → Bool → Attrs → Result Bytes
  encode_field (size_for target c) all name init msg = do
    n ← size_value all msg target
    encode_ctype c (Value.int (pos n))
  encode_field (bytes_value v) all name init msg = encode_bytes_size (length v) (Value.bytes v)
  encode_field (bytes_size n) all name false msg = encode_bytes_size n (Value.bytes (replicate n 0))
  encode_field (bytes_size n) all name true msg = do
    v ← attribute msg name true
    encode_bytes_size n v
  encode_field (integer c t) all name init msg = do v ← attribute msg name init; encode_ctype c v
  encode_field double all name init msg = do v ← attribute msg name init; encode_double v
  encode_field (bytes_max n) all name init msg = do
    v ← attribute msg name init
    encode_bytes_max n v
  encode_field (string_size n) all name init msg = do
    v ← attribute msg name init
    encode_string_size n v
  encode_field (string_max n t) all name init msg = do
    v ← attribute msg name init
    encode_string_max n t v
  encode_field (packed_array n s) all name init msg = do
    v ← attribute msg name init
    encode_packed_array n (encode_message (encode_fields s s)) v
  encode_field (message s) all name init msg = do
    v ← attribute msg name init
    encode_message (encode_fields s s) v

  pub encode_fields : Schema → Schema → Attrs → Result Bytes
  encode_fields Schema.nil all msg = ok []
  encode_fields (entry name init c rest) all msg = do
    b ← encode_field c all name init msg
    bs ← encode_fields rest all msg
    ok (b ++ bs)

-- `encode(msg)`
unfoldable pub encode : Schema → Attrs → Result Bytes
unfolding encode_fields encode_ctype encode_double encode_string_size encode_string_max
    encode_bytes_size encode_bytes_max encode_packed_array size_value len find terminator attribute
    getattr
encode s msg = encode_fields s s msg
