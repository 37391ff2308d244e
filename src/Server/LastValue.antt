-- ===== src/Server/LastValue.antt =====
-- `set_channel_value` of suplalite/server/state.py, and the last value that is worth keeping.
use suplalite.Common.{ℕ, String, true, false, Bool, ◌||◌, none, some, ◌==◌, if◌then◌else◌, not}
use suplalite.Common.Int.{pos, leb_ℤ}
use suplalite.Python.Result.{Result, ok, err, key_error, ◌>>=◌}
use suplalite.Python.Bytes.{Bytes}
use suplalite.Python.Dict.{lookup, put}
use suplalite.Encoding.Schema.{Class}
use suplalite.Encoding.Value.{Attrs, getattr, as_int}
use suplalite.Encoding.Fields.{fields}
use suplalite.Encoding.Decode.{decode}
use suplalite.Proto.Values.{tdimmer_channel_value, trgbdimmer_channel_value}
use suplalite.Server.Types.{ChannelState, ServerState, Method, eq_ℕ}

-- `ChannelType.DIMMER`, `.RGBLEDCONTROLLER` and `.DIMMERANDRGBLED`
abbrev pub dimmer : ℕ
dimmer = 4000

abbrev pub rgb_led_controller : ℕ
rgb_led_controller = 4010

abbrev pub dimmer_and_rgb_led : ℕ
dimmer_and_rgb_led = 4020

-- `msg.name > 0`
abbrev is_positive : Attrs → String → Result Bool
is_positive msg name = do v ← getattr msg name; z ← as_int v; ok (not (leb_ℤ z (pos 0)))

abbrev message_of : Class → Bytes → Result Attrs
message_of cls value = do (msg, size) ← decode (fields cls) value; ok msg

unfoldable pub dimmer_is_lit : Bytes → Result Bool
unfolding decode fields getattr
dimmer_is_lit value = do msg ← message_of tdimmer_channel_value value; is_positive msg "brightness"

unfoldable pub color_is_lit : Bytes → Result Bool
unfolding decode fields getattr
color_is_lit value = do
  msg ← message_of trgbdimmer_channel_value value
  is_positive msg "color_brightness"

unfoldable pub either_is_lit : Bytes → Result Bool
unfolding decode fields getattr
either_is_lit value = do
  msg ← message_of trgbdimmer_channel_value value
  white ← is_positive msg "brightness"
  color ← is_positive msg "color_brightness"
  ok (white || color)

-- `_should_set_last`
unfoldable pub should_set_last : (channel_type : ℕ) → Bytes → Result Bool
unfolding dimmer_is_lit color_is_lit either_is_lit
should_set_last channel_type value =
    if channel_type == dimmer
    then dimmer_is_lit value
    else if channel_type == rgb_led_controller
    then color_is_lit value
    else if channel_type == dimmer_and_rgb_led
    then either_is_lit value
    else ok false

-- `set_channel_value`: the value is set before the decoder may raise.
unfoldable pub set_channel_value : ServerState → ℕ → Bytes → Method (Unit {0})
unfolding should_set_last
set_channel_value s i value' = elim (lookup eq_ℕ s.channels i) [
  | none ↦ (err key_error, s)
  | some c ↦
      let c' : ChannelState = record c { value = value' } in
      elim (should_set_last c.type value') [
        | err e ↦ (err e, record s { channels = put eq_ℕ s.channels i c' })
        | ok false ↦ (ok tt, record s { channels = put eq_ℕ s.channels i c' })
        | ok true ↦ (
          ok tt,
          record s { channels = put eq_ℕ s.channels i (record c' { last_value = some value' }) },
        )
      ]
]
