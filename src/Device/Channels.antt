-- ===== src/Device/Channels.antt =====
-- suplalite/device/channels.py: what a channel of each class is.
--
-- A float is its bit pattern. What Python computes of floats, `int(x * 1000)` and `float(n) / 1000`,
-- is a parameter. A callback `on_change` is the program's: it is given by the values that it passes to
-- `do_set_value` when it is called with a value.
pub mod Codec
use suplalite.Common.{
  ℕ, ◌+◌, String, Bool, false, Option, none, some, List, [], ◌∷◌, ◌==◌, if◌then◌else◌,
}
use suplalite.Common.Int.{ℤ, pos, eqb_ℤ}
use suplalite.Python.Result.{Result, ok, err, type_error, ◌>>=◌}
use suplalite.Python.Bytes.{Bytes}
use suplalite.Encoding.Schema.{Class}
use suplalite.Encoding.Value.{Value, Attrs, nil, attr, getattr, as_int}
use suplalite.Encoding.Fields.{fields}
use suplalite.Encoding.Encode.{encode}
use suplalite.Encoding.Decode.{decode}
use suplalite.Proto.Constants.{temperature_not_available_int, humidity_not_available}
use suplalite.Proto.Values.{
  trelay_channel_value, ttemperature_channel_value, ttemperature_and_humidity_channel_value,
  tgeneral_purpose_measurement_channel_value, tdimmer_channel_value, trgbdimmer_channel_value,
}

-- `int(x * 1000)`, which raises for some floats, and `float(n) / 1000`
pub record Floats : Type 0 where
  pub thousandths : ℕ → Result ℤ
  pub of_thousandths : ℤ → ℕ

abbrev pub OnChange : Type 0 → Type 0
OnChange A = Option (A → List A)

-- The subclasses of `Channel`, with the attributes that they add
pub data Channel : Type 0 where
  relay : (value : Bool) (on_change : OnChange Bool) (func : ℕ) → Channel
  temperature : (value : Option ℕ) → Channel
  humidity : (value : Option ℕ) → Channel
  temperature_and_humidity : (temperature humidity : Option ℕ) → Channel
  general_purpose_measurement : (value : ℕ) → Channel
  dimmer : (value : ℤ) (on_change : OnChange ℤ) → Channel
  rgb_dimmer : (value : ℤ × ℤ × ℤ × ℤ) (on_change : OnChange (ℤ × ℤ × ℤ × ℤ)) → Channel
  rgbw_dimmer : (value : ℤ × ℤ × ℤ × ℤ × ℤ) (on_change : OnChange (ℤ × ℤ × ℤ × ℤ × ℤ)) → Channel

-- `ChannelType`
unfoldable pub channel_type : Channel → ℕ
channel_type (relay _ _ _) = 2900
channel_type (temperature _) = 3034
channel_type (humidity _) = 3036
channel_type (temperature_and_humidity _ _) = 3038
channel_type (general_purpose_measurement _) = 9000
channel_type (dimmer _ _) = 4000
channel_type (rgb_dimmer _ _) = 4010
channel_type (rgbw_dimmer _ _) = 4020

-- `ChannelFunc`
unfoldable pub func : Channel → ℕ
func (relay _ _ f) = f
func (temperature _) = 40
func (humidity _) = 42
func (temperature_and_humidity _ _) = 45
func (general_purpose_measurement _) = 520
func (dimmer _ _) = 180
func (rgb_dimmer _ _) = 190
func (rgbw_dimmer _ _) = 200

-- `STANDARD_TOGGLE_CAPS`
abbrev pub standard_toggle_caps : ℕ
standard_toggle_caps = 1 + 2 + 4 + 8 + 16 + 32 + 64

unfoldable pub action_trigger_caps : Channel → ℕ
action_trigger_caps (relay _ _ _) = standard_toggle_caps
action_trigger_caps (dimmer _ _) = standard_toggle_caps
action_trigger_caps (rgb_dimmer _ _) = standard_toggle_caps
action_trigger_caps (rgbw_dimmer _ _) = standard_toggle_caps
action_trigger_caps _ = 0

-- `ChannelFlag.CHANNELSTATE`
abbrev pub flags : Channel → ℕ
flags c = 0x00010000

unfoldable pub proto_version : Channel → ℕ
proto_version (temperature _) = 8
proto_version (humidity _) = 8
proto_version (temperature_and_humidity _ _) = 8
proto_version (general_purpose_measurement _) = 23
proto_version _ = 1

-- The bit pattern of -275.0
abbrev pub temperature_not_available_float : ℕ
temperature_not_available_float = 0xc071300000000000
