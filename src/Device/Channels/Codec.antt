-- ===== src/Device/Channels/Codec.antt =====
-- How the values of channels are encoded and set, of suplalite/device/channels.py.
use suplalite.Common.{ℕ, Bool, Option, none, some, List, [], ◌∷◌, ◌==◌, if◌then◌else◌}
use suplalite.Common.Int.{ℤ, pos, eqb_ℤ}
use suplalite.Python.Result.{Result, ok, ◌>>=◌}
use suplalite.Python.Bytes.{Bytes}
use suplalite.Encoding.Value.{getattr}
use suplalite.Encoding.Fields.{fields}
use suplalite.Encoding.Encode.{encode}
use suplalite.Proto.Constants.{temperature_not_available_int, humidity_not_available}
use suplalite.Proto.Values.{
  trelay_channel_value, ttemperature_channel_value, ttemperature_and_humidity_channel_value,
  tgeneral_purpose_measurement_channel_value, tdimmer_channel_value, trgbdimmer_channel_value,
}
use suplalite.ChannelValues.{
  relay_attrs, value_attrs, sensor_attrs, dimmer_attrs, color_attrs, as_bool, as_float, get_int,
  decoded,
}
use suplalite.Device.Channels.{
  Floats, OnChange, Channel, relay, temperature, humidity, temperature_and_humidity,
  general_purpose_measurement, dimmer, rgb_dimmer, rgbw_dimmer, temperature_not_available_float,
}

abbrev pub or_default : (default : ℕ) → Option ℕ → ℕ
or_default d none = d
or_default d (some v) = v

-- `Relay.encode` .. `RGBWDimmer.encode`, and `decode`
abbrev pub encode_relay : Bool → Result Bytes
encode_relay on = encode (fields trelay_channel_value) (relay_attrs on)

abbrev pub decode_relay : Bytes → Result Bool
decode_relay bs = do msg ← decoded trelay_channel_value bs; v ← getattr msg "on"; as_bool v

abbrev pub encode_temperature : Option ℕ → Result Bytes
encode_temperature v =
    encode (fields ttemperature_channel_value)
      (value_attrs (or_default temperature_not_available_float v))

-- Floats other than NaN and zero are equal when their bits are.
abbrev pub decode_temperature : Bytes → Result (Option ℕ)
decode_temperature bs = do
  msg ← decoded ttemperature_channel_value bs
  v ← getattr msg "value"
  f ← as_float v
  ok (if f == temperature_not_available_float then none else some f)

abbrev pub encode_measurement : ℕ → Result Bytes
encode_measurement v = encode (fields tgeneral_purpose_measurement_channel_value) (value_attrs v)

abbrev pub decode_measurement : Bytes → Result ℕ
decode_measurement bs = do
  msg ← decoded tgeneral_purpose_measurement_channel_value bs
  v ← getattr msg "value"
  as_float v

abbrev pub encode_dimmer : ℤ → Result Bytes
encode_dimmer v = encode (fields tdimmer_channel_value) (dimmer_attrs v)

abbrev pub decode_dimmer : Bytes → Result ℤ
decode_dimmer bs = do msg ← decoded tdimmer_channel_value bs; get_int msg "brightness"

abbrev pub encode_rgb : ℤ × ℤ × ℤ × ℤ → Result Bytes
encode_rgb (c, r, g, b) = encode (fields trgbdimmer_channel_value) (color_attrs (pos 0) c r g b)

abbrev pub decode_rgb : Bytes → Result (ℤ × ℤ × ℤ × ℤ)
decode_rgb bs = do
  msg ← decoded trgbdimmer_channel_value bs
  c ← get_int msg "color_brightness"
  r ← get_int msg "r"
  g ← get_int msg "g"
  b ← get_int msg "b"
  ok (c, r, g, b)

abbrev pub encode_rgbw : ℤ × ℤ × ℤ × ℤ × ℤ → Result Bytes
encode_rgbw (w, c, r, g, b) = encode (fields trgbdimmer_channel_value) (color_attrs w c r g b)

abbrev pub decode_rgbw : Bytes → Result (ℤ × ℤ × ℤ × ℤ × ℤ)
decode_rgbw bs = do
  msg ← decoded trgbdimmer_channel_value bs
  w ← get_int msg "brightness"
  c ← get_int msg "color_brightness"
  r ← get_int msg "r"
  g ← get_int msg "g"
  b ← get_int msg "b"
  ok (w, c, r, g, b)

module _ (floats : Floats) where
  -- `if value is not None: msg.field = int(value * 1000)`
  abbrev pub thousandths_or : (default : ℕ) → Option ℕ → Result ℤ
  thousandths_or d none = ok (pos d)
  thousandths_or d (some f) = floats.thousandths f

  abbrev pub unless_default : (default : ℕ) → ℤ → Option ℕ
  unless_default d z = if eqb_ℤ z (pos d) then none else some (floats.of_thousandths z)

  -- `TemperatureAndHumidity.encode`; a `Humidity` has no temperature.
  unfoldable pub encode_sensor : (temperature humidity : Option ℕ) → Result Bytes
  encode_sensor t h = do
    t' ← thousandths_or temperature_not_available_int t
    h' ← thousandths_or humidity_not_available h
    encode (fields ttemperature_and_humidity_channel_value) (sensor_attrs t' h')

  unfoldable pub decode_sensor : Bytes → Result (Option ℕ × Option ℕ)
  decode_sensor bs = do
    msg ← decoded ttemperature_and_humidity_channel_value bs
    t ← get_int msg "temperature"
    h ← get_int msg "humidity"
    ok (unless_default temperature_not_available_int t, unless_default humidity_not_available h)

  -- `Humidity.encode` and `Humidity.decode`
  abbrev pub encode_humidity : Option ℕ → Result Bytes
  encode_humidity v = encode_sensor none v

  abbrev pub decode_humidity : Bytes → Result (Option ℕ)
  decode_humidity bs = do (t, h) ← decode_sensor bs; ok h

  unfoldable pub encoded_value : Channel → Result Bytes
  unfolding encode_sensor encode fields
  encoded_value (relay v _ _) = encode_relay v
  encoded_value (temperature v) = encode_temperature v
  encoded_value (humidity v) = encode_humidity v
  encoded_value (temperature_and_humidity t h) = encode_sensor t h
  encoded_value (general_purpose_measurement v) = encode_measurement v
  encoded_value (dimmer v _) = encode_dimmer v
  encoded_value (rgb_dimmer v _) = encode_rgb v
  encoded_value (rgbw_dimmer v _) = encode_rgbw v

  -- `set_value`: the values that `do_set_value` is called with
  abbrev pub changes : {A : Type 0} → OnChange A → A → List A
  changes none v = v ∷ []
  changes (some on_change) v = on_change v

  abbrev pub each : {A : Type 0} → (A → Channel) → List A → List Channel
  each f [] = []
  each f (v ∷ vs) = f v ∷ each f vs

  -- `set_encoded_value` of each class, with the `set_value` that it calls: the channel after each `update`
  abbrev pub set_relay : OnChange Bool → (func : ℕ) → Bytes → Result (List Channel)
  set_relay f n bs = do v ← decode_relay bs; ok (each (λ x. relay x f n) (changes f v))

  abbrev pub set_temperature : Bytes → Result (List Channel)
  set_temperature bs = do v ← decode_temperature bs; ok (temperature v ∷ [])

  abbrev pub set_humidity : Bytes → Result (List Channel)
  set_humidity bs = do h ← decode_humidity bs; ok (humidity h ∷ [])

  abbrev pub set_sensor : Bytes → Result (List Channel)
  set_sensor bs = do (t, h) ← decode_sensor bs; ok (temperature_and_humidity t h ∷ [])

  abbrev pub set_measurement : Bytes → Result (List Channel)
  set_measurement bs = do v ← decode_measurement bs; ok (general_purpose_measurement v ∷ [])

  abbrev pub set_dimmer : OnChange ℤ → Bytes → Result (List Channel)
  set_dimmer f bs = do v ← decode_dimmer bs; ok (each (λ x. dimmer x f) (changes f v))

  abbrev pub set_rgb : OnChange (ℤ × ℤ × ℤ × ℤ) → Bytes → Result (List Channel)
  set_rgb f bs = do v ← decode_rgb bs; ok (each (λ x. rgb_dimmer x f) (changes f v))

  abbrev pub set_rgbw : OnChange (ℤ × ℤ × ℤ × ℤ × ℤ) → Bytes → Result (List Channel)
  set_rgbw f bs = do v ← decode_rgbw bs; ok (each (λ x. rgbw_dimmer x f) (changes f v))

  unfoldable pub set_encoded_value : Channel → Bytes → Result (List Channel)
  unfolding decode_sensor
  set_encoded_value (relay _ f n) bs = set_relay f n bs
  set_encoded_value (temperature _) bs = set_temperature bs
  set_encoded_value (humidity _) bs = set_humidity bs
  set_encoded_value (temperature_and_humidity _ _) bs = set_sensor bs
  set_encoded_value (general_purpose_measurement _) bs = set_measurement bs
  set_encoded_value (dimmer _ f) bs = set_dimmer f bs
  set_encoded_value (rgb_dimmer _ f) bs = set_rgb f bs
  set_encoded_value (rgbw_dimmer _ f) bs = set_rgbw f bs
