-- ===== src/Server/Actions.antt =====
-- The values that actions on channels give, of suplalite/server/handlers.py.
use suplalite.Common.{
  ℕ, ◌-◌, ◌/◌, ◌%◌, String, str_eq, Bool, true, false, not, Option, none, some, [], ◌∷◌, ◌==◌,
  if◌then◌else◌,
}
use suplalite.Common.Int.{ℤ, pos, negsuc}
use suplalite.Python.Result.{
  Result, Error, ok, err, assertion_error, attribute_error, key_error, runtime_error,
}
use suplalite.Python.Result
use suplalite.Python.Bytes.{Bytes}
use suplalite.Encoding.Value.{Value, Attrs, nil, attr, getattr}
use suplalite.Encoding.Fields.{fields}
use suplalite.Encoding.Encode.{encode}
use suplalite.Proto.Values.{trelay_channel_value, tdimmer_channel_value, trgbdimmer_channel_value}
use suplalite.Proto.Actions.{taction_rgbw_parameters}
use suplalite.ChannelValues.{relay_attrs, dimmer_attrs, decoded, get_int, as_bool}
use suplalite.Server.Types.{ChannelState}

-- Members of `ActionType`
abbrev pub turn_on : ℕ
turn_on = 60

abbrev pub turn_off : ℕ
turn_off = 70

abbrev pub set_rgbw_parameters : ℕ
set_rgbw_parameters = 80

abbrev pub toggle : ℕ
toggle = 110

abbrev pub execute : ℕ
execute = 3000

abbrev pub encode_on : Bool → Result Bytes
encode_on on = encode (fields trelay_channel_value) (relay_attrs on)

abbrev pub decode_on : Bytes → Result Bool
decode_on bs =
    Result.◌>>=◌ (decoded trelay_channel_value bs) (λ msg. Result.◌>>=◌ (getattr msg "on") as_bool)

-- `execute_relay_action`
unfoldable pub execute_relay_action : ChannelState → (action : ℕ) → Result Bytes
unfolding encode fields getattr
execute_relay_action channel action =
    let toggled = Result.◌>>=◌ (decode_on channel.value) (λ on. encode_on (not on)) in
    if action == turn_on
    then encode_on true
    else if action == turn_off
    then encode_on false
    else if action == toggle
    then toggled
    else err runtime_error

-- `channel.last_value or ...`: an empty value counts as none.
abbrev pub last_value_or : Option Bytes → Result Bytes → Result Bytes
last_value_or none default = default
last_value_or (some []) default = default
last_value_or (some (b ∷ bs)) default = ok (b ∷ bs)

-- `assert params is not None`
abbrev pub given : Option Bytes → Result Bytes
given none = err assertion_error
given (some params) = ok params

abbrev pub encode_brightness : ℤ → Result Bytes
encode_brightness b = encode (fields tdimmer_channel_value) (dimmer_attrs b)

abbrev pub parameters : Option Bytes → Result Attrs
parameters params = Result.◌>>=◌ (given params) (λ bs. decoded taction_rgbw_parameters bs)

-- `execute_dimmer_action`
unfoldable pub execute_dimmer_action : ChannelState → (action : ℕ) → Option Bytes → Result Bytes
unfolding encode fields getattr
execute_dimmer_action channel action params =
    let as_set =
      Result.◌>>=◌ (parameters params)
        (λ msg. Result.◌>>=◌ (get_int msg "brightness") encode_brightness) in
    if action == turn_on
    then last_value_or channel.last_value (encode_brightness (pos 100))
    else if action == turn_off
    then encode_brightness (pos 0)
    else if action == set_rgbw_parameters
    then as_set
    else err runtime_error

-- `(color >> k) & 0xff`, with 2 ^ k
abbrev pub byte_at : ℤ → ℕ → ℤ
byte_at (pos n) power = pos (n / power % 256)
byte_at (negsuc n) power = pos (255 - n / power % 256)

abbrev pub color_value : (brightness color_brightness r g b : ℤ) (on_off : Bool) → Attrs
color_value w c r g b on = attr "brightness" (Value.int w) (
    attr "color_brightness" (Value.int c) (
      attr "b" (Value.int b) (
        attr "g" (Value.int g) (
          attr "r" (Value.int r)
            (attr "on_off" (Value.bool on) (attr "command" (Value.int (pos 0)) nil))))))

abbrev pub encode_color : Attrs → Result Bytes
encode_color msg = encode (fields trgbdimmer_channel_value) msg

-- `message.name = v`
unfoldable pub setattr : Attrs → String → Value → Attrs
setattr nil name v = nil
setattr (attr n u rest) name v =
    if str_eq n name then attr n v rest else attr n u (setattr rest name v)

-- `execute_rgbw_action`
unfoldable pub execute_rgbw_action :
    ChannelState → (action : ℕ) → Option Bytes → (default_brightness : ℕ) → Result Bytes
unfolding encode fields getattr setattr
execute_rgbw_action channel action params default =
    let lit =
      last_value_or channel.last_value
        (encode_color (color_value (pos default) (pos 100) (pos 0) (pos 0) (pos 0) true)) in
    let unlit =
      last_value_or channel.last_value
        (encode_color (color_value (pos 0) (pos 0) (pos 0) (pos 0) (pos 0) true)) in
    let on = Result.◌>>=◌ lit (λ value.
      Result.◌>>=◌ (decoded trgbdimmer_channel_value value)
        (λ msg. encode_color (setattr msg "on_off" (Value.bool true)))) in
    let off = Result.◌>>=◌ unlit (λ value.
      Result.◌>>=◌ (decoded trgbdimmer_channel_value value) (λ msg. encode_color (
        setattr
          (setattr (setattr msg "brightness" (Value.int (pos 0))) "color_brightness"
            (Value.int (pos 0)))
          "on_off" (Value.bool true)))) in
    let as_set = Result.◌>>=◌ (parameters params) (λ msg.
      Result.◌>>=◌ (get_int msg "brightness") (λ w.
        Result.◌>>=◌ (get_int msg "color_brightness") (λ c.
          Result.◌>>=◌ (get_int msg "color") (λ color. Result.◌>>=◌ (getattr msg "on_off") (λ v.
            Result.◌>>=◌ (as_bool v) (λ on_off. encode_color (
              color_value w c (byte_at color 65536) (byte_at color 256) (byte_at color 1)
                on_off))))))) in
    if action == turn_on
    then on
    else if action == turn_off
    then off
    else if action == set_rgbw_parameters
    then as_set
    else err runtime_error

-- The value that `execute_channel_action` finds, by `ChannelType`
unfoldable pub action_value : ChannelState → (action : ℕ) → Option Bytes → Result Bytes
unfolding execute_relay_action execute_dimmer_action execute_rgbw_action
action_value channel action params =
    if channel.type == 2900
    then execute_relay_action channel action
    else if channel.type == 4000
    then execute_dimmer_action channel action params
    else if channel.type == 4010
    then execute_rgbw_action channel action params 0
    else if channel.type == 4020
    then execute_rgbw_action channel action params 100
    else err runtime_error
