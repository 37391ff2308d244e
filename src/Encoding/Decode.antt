-- ===== src/Encoding/Decode.antt =====
-- `decode` and `partial_decode` of suplalite/encoding.py and the decoders that they call.
use suplalite.Common.{
  ℕ, zero, suc, String, Bool, true, false, ◌||◌, not, Option, none, some, List, [], ◌∷◌, ◌==◌,
  str_eq, if◌then◌else◌, length,
}
use suplalite.Common.Int.{ℤ, pos, negsuc, ◌+ℤ◌, leb_ℤ, eqb_ℤ}
use suplalite.Python.Result.{
  Result, ok, err, ◌>>=◌, ◌>>◌, assert, assertion_error, key_error, value_error,
}
use suplalite.Python.Bytes.{Bytes, slice, slice_from, index, ◌==b◌, before_nul}
use suplalite.Python.Word.{Ctype, size_of, of_word, of_le, buffer}
use suplalite.Python.Text.{utf8_decode}
use suplalite.Encoding.Schema.{
  Typ, int_flag, enum, Codec, Schema, size_for, integer, double, bytes_value, bytes_size, bytes_max,
  string_size, string_max, packed_array, message, entry,
}
use suplalite.Encoding.Value.{Value, Items, Attrs, empty, cons, attr}

unfoldable pub is_member : ℤ → List ℕ → Bool
is_member z [] = false
is_member z (n ∷ ns) = eqb_ℤ z (pos n) || is_member z ns

-- `typ(value)` on the number that was read
unfoldable pub convert : Typ → ℤ → Result Value
convert Typ.int z = ok (Value.int z)
convert Typ.bool z = ok (Value.bool (not (eqb_ℤ z (pos 0))))
convert int_flag z = ok (Value.enum z)
convert (enum members) z = if is_member z members then ok (Value.enum z) else err value_error

-- `_decode_ctype`: the value, and how many bytes it takes
unfoldable pub decode_number : Ctype → Bytes → ℤ → Result ℤ
decode_number c bs offset = do w ← buffer (size_of c) bs offset; ok (of_word c (of_le w))

unfoldable pub decode_ctype : Ctype → Typ → Bytes → ℤ → Result (Value × ℤ)
unfolding decode_number convert is_member
decode_ctype c t bs offset = do
  z ← decode_number c bs offset
  v ← convert t z
  ok (v, pos (size_of c))

unfoldable pub decode_double : Bytes → ℤ → Result (Value × ℤ)
decode_double bs offset = do w ← buffer 8 bs offset; ok (Value.float (of_le w), pos 8)

-- The numbers read from size fields, by the name of the field that they measure.
abbrev pub Sizes : Type 0
Sizes = List (String × ℤ)

-- `sizes[name]`
unfoldable pub size_at : Sizes → String → Result ℤ
size_at [] name = err key_error
size_at ((n, z) ∷ rest) name = if str_eq n name then ok z else size_at rest name

-- `assert name is not None`, then `sizes[name]`, then the check against `max_size`
unfoldable pub checked_size : Sizes → Option String → ℕ → Result ℤ
unfolding size_at
checked_size sizes none max_size = err assertion_error
checked_size sizes (some name) max_size = do
  size ← size_at sizes name
  assert (leb_ℤ size (pos max_size))
  ok size

-- `_decode_string`
unfoldable pub decode_string_size : ℕ → Bytes → ℤ → Result (Value × ℤ)
decode_string_size size bs offset = do
  s ← utf8_decode (before_nul (slice bs offset (offset +ℤ pos size)))
  ok (Value.str s, pos size)

-- `assert not null_terminated or data[offset + length] == 0`
unfoldable pub check_terminator : Bool → Bytes → ℤ → Result (Unit {0})
check_terminator false bs i = ok tt
check_terminator true bs i = do b ← index bs i; assert (b == 0)

unfoldable pub decode_string_max : Bool → ℤ → Bytes → ℤ → Result (Value × ℤ)
unfolding check_terminator
decode_string_max null_terminated size bs offset = do
  let length = (if null_terminated then size +ℤ negsuc 0 else size)
  check_terminator null_terminated bs (offset +ℤ length)
  s ← utf8_decode (slice bs offset (offset +ℤ length))
  ok (Value.str s, size)

-- `_decode_bytes`
unfoldable pub decode_bytes_value : Bytes → Bytes → ℤ → Result (Value × ℤ)
decode_bytes_value value bs offset = do
  assert (slice bs offset (offset +ℤ pos (length value)) ==b value)
  ok (Value.bytes value, pos (length value))

unfoldable pub decode_bytes_size : ℤ → Bytes → ℤ → Result (Value × ℤ)
decode_bytes_size size bs offset = ok (Value.bytes (slice bs offset (offset +ℤ size)), size)

-- `for _ in range(count)`: each item is decoded from where the last one ended.
unfoldable pub decode_items : (Bytes → Result (Value × ℤ)) → ℕ → Bytes → ℤ → ℤ → Result (Items × ℤ)
decode_items dec zero bs offset size = ok (empty, size)
decode_items dec (suc count) bs offset size = do
  (x, n) ← dec (slice_from bs (offset +ℤ size))
  (xs, total) ← decode_items dec count bs offset (size +ℤ n)
  ok (cons x xs, total)

-- `range(count)` is empty for a negative count.
abbrev pub rounds : ℤ → ℕ
rounds (pos n) = n
rounds (negsuc n) = 0

-- `_decode_packed_array`, given `decode` at the items' class
unfoldable pub decode_packed_array :
    (Bytes → Result (Value × ℤ)) → ℤ → Bytes → ℤ → Result (Value × ℤ)
unfolding decode_items
decode_packed_array dec count bs offset = do
  (items, size) ← decode_items dec (rounds count) bs offset (pos 0)
  ok (Value.list items, size)

-- `sizes[metadata["size_for"]] = args[-1]`
abbrev pub note_size : Codec → Value → Sizes → Sizes
note_size (size_for name c) (Value.int z) sizes = (name, z) ∷ sizes
note_size _ v sizes = sizes

-- `args.append(x)`, and `args.pop()` where `__init__` does not take the field; the constructor binds
-- the arguments to the remaining names in order.
abbrev pub keep : Option String → Bool → Value → Attrs → Attrs
keep (some name) true v rest = attr name v rest
keep _ _ v rest = rest

-- The message that a nested `decode` returns.
abbrev pub decode_message : Result (Attrs × ℤ) → Result (Value × ℤ)
decode_message r = do (args, total) ← r; ok (Value.message args, total)

unfoldable mutual
  -- `_decode_field`
  pub decode_field : Codec → Option String → Sizes → Bytes → ℤ → Result (Value × ℤ)
  decode_field (size_for target c) name sizes bs offset = decode_ctype c Typ.int bs offset
  decode_field (integer c t) name sizes bs offset = decode_ctype c t bs offset
  decode_field double name sizes bs offset = decode_double bs offset
  decode_field (bytes_value v) name sizes bs offset = decode_bytes_value v bs offset
  decode_field (bytes_size n) name sizes bs offset = decode_bytes_size (pos n) bs offset
  decode_field (bytes_max n) name sizes bs offset = do
    size ← checked_size sizes name n
    decode_bytes_size size bs offset
  decode_field (string_size n) name sizes bs offset = decode_string_size n bs offset
  decode_field (string_max n t) name sizes bs offset = do
    size ← checked_size sizes name n
    decode_string_max t size bs offset
  decode_field (packed_array n s) name sizes bs offset = do
    count ← checked_size sizes name n
    decode_packed_array (λ b. decode_message (decode_fields s [] b (pos 0))) count bs offset
  decode_field (message s) name sizes bs offset =
      decode_message (decode_fields s [] (slice_from bs offset) (pos 0))

  -- The loop of `decode`: the attributes, and the offset behind the last field.
  pub decode_fields : Schema → Sizes → Bytes → ℤ → Result (Attrs × ℤ)
  decode_fields Schema.nil sizes bs offset = ok (Attrs.nil, offset)
  decode_fields (entry name init c rest) sizes bs offset = do
    (x, size) ← decode_field c name sizes bs offset
    (args, total) ← decode_fields rest (note_size c x sizes) bs (offset +ℤ size)
    ok (keep name init x args, total)

-- `decode(cls, data)`
unfoldable pub decode : Schema → Bytes → Result (Attrs × ℤ)
unfolding decode_fields decode_ctype decode_double checked_size decode_string_size decode_string_max
    decode_bytes_value decode_bytes_size decode_packed_array
decode s bs = decode_fields s [] bs (pos 0)

-- `partial_decode`: the first fields alone, those that `__init__` does not take among them
unfoldable pub partial_fields : ℕ → Schema → Sizes → Bytes → ℤ → Result (List Value × ℤ)
partial_fields zero s sizes bs offset = ok ([], offset)
partial_fields (suc n) Schema.nil sizes bs offset = ok ([], offset)
partial_fields (suc n) (entry name init c rest) sizes bs offset = do
  (x, size) ← decode_field c name sizes bs offset
  (args, total) ← partial_fields n rest (note_size c x sizes) bs (offset +ℤ size)
  ok (x ∷ args, total)

unfoldable pub partial_decode : Schema → Bytes → (num_fields : ℕ) → Result (List Value × ℤ)
unfolding partial_fields decode
partial_decode s bs n = partial_fields n s [] bs (pos 0)
