-- ===== src/Encoding/Schema.antt =====
-- suplalite/encoding.py: the metadata that `c_int8` .. `c_packed_array` put on a dataclass field, the
-- dataclass that carries it, and the expanded field list that `fields` makes of a dataclass.
use suplalite.Common.{ℕ, String, Bool, Option, List}
use suplalite.Python.Bytes.{Bytes}
use suplalite.Python.Word.{Ctype}

-- The annotation of an integer field: what the decoder calls on the number that it read. An `Enum`
-- accepts its members alone, an `IntFlag` any number.
pub data Typ : Type 0 where
  int bool int_flag : Typ
  enum : List ℕ → Typ

mutual
  -- One declared field's annotation and metadata. A `size_field_offset` of -k is written k: the
  -- source asserts that it is not positive. A `double` is read by its bit pattern.
  pub data Metadata : Type 0 where
    c_int : Ctype → Typ → Metadata
    c_double : Metadata
    c_bytes_value : Bytes → Metadata
    c_bytes_size : (size : ℕ) → Metadata
    c_bytes_max : (size_ctype : Ctype) (max_size : ℕ) → Metadata
    c_string_size : (size : ℕ) → Metadata
    c_string_max : (size_ctype : Ctype) (max_size : ℕ) (null_terminated : Bool) → Metadata
    c_packed_array : (size_ctype : Ctype) (max_size size_field_back : ℕ) → Class → Metadata
    nested : Class → Metadata

  -- A dataclass: its fields in order, each with its name and its `init`.
  pub data Class : Type 0 where
    nil : Class
    field : (name : String) (init : Bool) → Metadata → Class → Class

mutual
  -- The metadata of an expanded field.
  pub data Codec : Type 0 where
    size_for : (name : String) → Ctype → Codec
    integer : Ctype → Typ → Codec
    double : Codec
    bytes_value : Bytes → Codec
    bytes_size : (size : ℕ) → Codec
    bytes_max : (max_size : ℕ) → Codec
    string_size : (size : ℕ) → Codec
    string_max : (max_size : ℕ) (null_terminated : Bool) → Codec
    packed_array : (max_size : ℕ) → Schema → Codec
    message : Schema → Codec

  -- `Fields`: (name, init, metadata) triples; a size field has no name.
  pub data Schema : Type 0 where
    nil : Schema
    entry : (name : Option String) (init : Bool) → Codec → Schema → Schema
