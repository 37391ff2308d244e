-- ===== src/Encoding/Value.antt =====
-- The values that messages hold, and the attributes of a message.
use suplalite.Common.{ℕ, suc, String, str_eq, if◌then◌else◌}
use suplalite.Common.{Bool}
use suplalite.Common.Int.{ℤ}
use suplalite.Python.Result.{Result, ok, err, attribute_error, type_error}
use suplalite.Python.Bytes.{Bytes}
use suplalite.Python.Text.{Str}

mutual
  -- `enum` is a member of an `Enum` or an `IntFlag`, by its value; `float` is its bit pattern.
  pub data Value : Type 0 where
    int : ℤ → Value
    bool : Bool → Value
    enum : ℤ → Value
    float : ℕ → Value
    bytes : Bytes → Value
    str : Str → Value
    list : Items → Value
    message : Attrs → Value

  pub data Items : Type 0 where
    empty : Items
    cons : Value → Items → Items

  -- The attributes that the constructor of a dataclass takes, in their order.
  pub data Attrs : Type 0 where
    nil : Attrs
    attr : String → Value → Attrs → Attrs

-- `getattr(msg, name)`
unfoldable pub getattr : Attrs → String → Result Value
getattr nil name = err attribute_error
getattr (attr n v rest) name = if str_eq n name then ok v else getattr rest name

abbrev pub length_items : Items → ℕ
length_items empty = 0
length_items (cons x xs) = suc (length_items xs)

-- The value of a field, at the type that the class declares.
abbrev pub as_int : Value → Result ℤ
as_int (Value.int z) = ok z
as_int _ = err type_error

abbrev pub as_enum : Value → Result ℤ
as_enum (Value.enum z) = ok z
as_enum _ = err type_error

abbrev pub as_bytes : Value → Result Bytes
as_bytes (Value.bytes bs) = ok bs
as_bytes _ = err type_error
