-- ===== src/Encoding/Fields.antt =====
-- `fields` of suplalite/encoding.py: each field of variable size gets a size field, right in front of
-- a string or bytes, and `size_field_offset` places in front of a packed array.
use suplalite.Common.{
  ℕ, zero, suc, ◌-◌, ◌*◌, String, Bool, false, Option, none, some, leb, if◌then◌else◌,
}
use suplalite.Encoding.Schema.{
  Metadata, Class, Codec, Schema, c_int, c_double, c_bytes_value, c_bytes_size, c_bytes_max,
  c_string_size, c_string_max, c_packed_array, nested, field, size_for, integer, double,
  bytes_value, bytes_size, bytes_max, string_size, string_max, packed_array, message, entry,
}

abbrev pub length_schema : Schema → ℕ
length_schema Schema.nil = 0
length_schema (entry _ _ _ s) = suc (length_schema s)

-- `result.append((name, typ, init, metadata))`
abbrev pub push : Schema → Option String → Bool → Codec → Schema
push Schema.nil n i c = entry n i c Schema.nil
push (entry n' i' c' s) n i c = entry n' i' c' (push s n i c)

insert_at : ℕ → Schema → Option String → Bool → Codec → Schema
insert_at zero s n i c = entry n i c s
insert_at (suc k) Schema.nil n i c = entry n i c Schema.nil
insert_at (suc k) (entry n' i' c' s) n i c = entry n' i' c' (insert_at k s n i c)

-- The index that `list.insert(len - back, …)` means: a negative one counts from the end, down to 0.
insert_index : (len back : ℕ) → ℕ
insert_index len back = if leb back len then len - back else 2 * len - back

unfoldable mutual
  unfolding insert_at insert_index

  pub fields_from : Schema → Class → Schema
  fields_from result Class.nil = result
  fields_from result (field name init m rest) = fields_from (add_field result name init m) rest

  pub add_field : Schema → String → Bool → Metadata → Schema
  add_field result name init (c_int c t) = push result (some name) init (integer c t)
  add_field result name init c_double = push result (some name) init double
  add_field result name init (c_bytes_value v) = push result (some name) init (bytes_value v)
  add_field result name init (c_bytes_size n) = push result (some name) init (bytes_size n)
  add_field result name init (c_bytes_max c n) =
      push (push result none false (size_for name c)) (some name) init (bytes_max n)
  add_field result name init (c_string_size n) = push result (some name) init (string_size n)
  add_field result name init (c_string_max c n t) =
      push (push result none false (size_for name c)) (some name) init (string_max n t)
  add_field result name init (c_packed_array c n back item) =
      push
        (insert_at (insert_index (length_schema result) back) result none false (size_for name c))
        (some name) init (packed_array n (fields_from Schema.nil item))
  add_field result name init (nested cls) =
      push result (some name) init (message (fields_from Schema.nil cls))

unfoldable pub fields : Class → Schema
unfolding fields_from
fields cls = fields_from Schema.nil cls
