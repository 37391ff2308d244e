-- ===== src/ChannelValues.antt =====
-- The messages of channel values of suplalite/proto.py, as suplalite/device/channels.py and
-- suplalite/server/handlers.py build and read them.
pub mod Fitting
use suplalite.Common.{ℕ, String, Bool, false}
use suplalite.Common.Int.{ℤ, pos}
use suplalite.Python.Result.{Result, ok, err, type_error, ◌>>=◌}
use suplalite.Python.Bytes.{Bytes}
use suplalite.Encoding.Schema.{Class}
use suplalite.Encoding.Value.{Value, Attrs, nil, attr, getattr, as_int}
use suplalite.Encoding.Fields.{fields}
use suplalite.Encoding.Decode.{decode}

abbrev pub relay_attrs : Bool → Attrs
relay_attrs on = attr "on" (Value.bool on) (attr "flags" (Value.enum (pos 0)) nil)

abbrev pub value_attrs : ℕ → Attrs
value_attrs bits = attr "value" (Value.float bits) nil

abbrev pub sensor_attrs : (temperature humidity : ℤ) → Attrs
sensor_attrs t h = attr "temperature" (Value.int t) (attr "humidity" (Value.int h) nil)

abbrev pub dimmer_attrs : ℤ → Attrs
dimmer_attrs b = attr "brightness" (Value.int b) nil

abbrev pub color_attrs : (brightness color_brightness r g b : ℤ) → Attrs
color_attrs w c r g b = attr "brightness" (Value.int w) (
    attr "color_brightness" (Value.int c) (
      attr "b" (Value.int b) (
        attr "g" (Value.int g) (
          attr "r" (Value.int r)
            (attr "on_off" (Value.bool false) (attr "command" (Value.int (pos 0)) nil))))))

-- `getattr` at the type that the class declares
abbrev pub as_bool : Value → Result Bool
as_bool (Value.bool b) = ok b
as_bool _ = err type_error

abbrev pub as_float : Value → Result ℕ
as_float (Value.float bits) = ok bits
as_float _ = err type_error

abbrev pub get_int : Attrs → String → Result ℤ
get_int msg name = do v ← getattr msg name; as_int v

-- `msg, _ = encoding.decode(cls, data)`
abbrev pub decoded : Class → Bytes → Result Attrs
decoded cls bs = do (msg, size) ← decode (fields cls) bs; ok msg
