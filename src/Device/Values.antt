-- ===== src/Device/Values.antt =====
-- The encoded value of a channel is read back.
use suplalite.Common.{
  differs, ℕ, ◌≡◌, ◌≢◌, ◌<◌, ◌^◌, refl, Bool, false, Option, none, some, [], ◌∷◌, arith, ==_iff,
}
use suplalite.Common.Int.{ℤ, pos}
use suplalite.Python.Result.{ok}
use suplalite.Python.Bytes.{Bytes}
use suplalite.Encoding.Value.{getattr}
use suplalite.Encoding.Fields.{fields}
use suplalite.Encoding.Encode.{encode}
use suplalite.Proto.Constants.{temperature_not_available_int, humidity_not_available}
use suplalite.Proto.Values.{
  trelay_channel_value, ttemperature_channel_value, ttemperature_and_humidity_channel_value,
  tgeneral_purpose_measurement_channel_value, tdimmer_channel_value, trgbdimmer_channel_value,
}
use suplalite.Device.Channels.{
  Floats, Channel, relay, temperature, humidity, temperature_and_humidity,
  general_purpose_measurement, dimmer, rgb_dimmer, rgbw_dimmer, temperature_not_available_float,
}
use suplalite.Device.Channels.Codec.{
  encoded_value, set_encoded_value, encode_sensor, decode_sensor, thousandths_or, unless_default,
}
use suplalite.ChannelValues.{
  relay_attrs, value_attrs, sensor_attrs, dimmer_attrs, color_attrs, decoded,
}
use suplalite.ChannelValues.Fitting.{
  IsByteValue, read_back, relay-well_formed, value-well_formed, sensor-well_formed,
  dimmer-well_formed, color-well_formed, value-FitsMessage, sensor-FitsMessage, dimmer-FitsMessage,
  color-FitsMessage, relay-FitsMessage,
}

-- The values that an encoding carries: a float that is not the one that stands for none, an integer in
-- the range of its field, and a reading that `int(x * 1000)` and `float(n) / 1000` give back.
abbrev pub FitsReading : Floats → (default : ℕ) → Option ℕ → Type 0
FitsReading floats d none = Unit
FitsReading floats d (some f) =
    (n : ℕ) × (floats.thousandths f ≡ ok (pos n))
    × (n < 2 ^ 32)
    × (n ≢ d)
    × (floats.of_thousandths (pos n) ≡ f)

abbrev pub Survives : Floats → Channel → Type 0
Survives floats (relay _ f _) = f ≡ none
Survives floats (temperature none) = Unit
Survives floats (temperature (some f)) = (f < 256 ^ 8) × (f ≢ temperature_not_available_float)
Survives floats (humidity h) = FitsReading floats humidity_not_available h
Survives floats (temperature_and_humidity t h) =
    FitsReading floats temperature_not_available_int t × FitsReading floats humidity_not_available h
Survives floats (general_purpose_measurement v) = v < 256 ^ 8
Survives floats (dimmer v f) = IsByteValue v × (f ≡ none)
Survives floats (rgb_dimmer (c, r, g, b) f) =
    IsByteValue c × IsByteValue r × IsByteValue g × IsByteValue b × (f ≡ none)
Survives floats (rgbw_dimmer (w, c, r, g, b) f) =
    IsByteValue w × IsByteValue c × IsByteValue r × IsByteValue g × IsByteValue b × (f ≡ none)

-- A channel of the same class, with the value that a new one has.
abbrev pub fresh : Channel → Channel
fresh (relay _ f n) = relay false f n
fresh (temperature _) = temperature none
fresh (humidity _) = humidity none
fresh (temperature_and_humidity _ _) = temperature_and_humidity none none
fresh (general_purpose_measurement _) = general_purpose_measurement 0
fresh (dimmer _ f) = dimmer (pos 0) f
fresh (rgb_dimmer _ f) = rgb_dimmer (pos 0, pos 0, pos 0, pos 0) f
fresh (rgbw_dimmer _ f) = rgbw_dimmer (pos 0, pos 0, pos 0, pos 0, pos 0) f

module _ (floats : Floats) where
  -- A reading is written as a number, and the number is read as that reading.
  pub reading :
      (d : ℕ) (r : Option ℕ)
      → d < 2 ^ 32
      → FitsReading floats d r
      → (n : ℕ) × (n < 2 ^ 32)
        × (thousandths_or floats d r ≡ ok (pos n))
        × (unless_default floats d (pos n) ≡ r)
  reading d none small fit = (d, small, refl, rw ((==_iff d d).1 refl) refl)
  reading d (some f) small (n, e, n_small, apart, back) =
      (n, n_small, e, rw (differs n d apart, back) refl)

  abbrev pub Carried : Channel → Type 0
  Carried c =
      (bs : Bytes) × (encoded_value floats c ≡ ok bs)
      × (set_encoded_value floats (fresh c) bs ≡ ok (c ∷ []))

  relay-Carried : (v : Bool) (n : ℕ) → Carried (relay v none n)
  unfolding encoded_value set_encoded_value getattr
  relay-Carried v n =
      let (bs, wrote, read) =
        read_back trelay_channel_value (relay_attrs v) relay-well_formed (relay-FitsMessage v) in
      (bs, wrote, rw (read, set_encoded_value) refl)

  temperature-Carried : (v : Option ℕ) → Survives floats (temperature v) → Carried (temperature v)
  unfolding encoded_value set_encoded_value getattr
  temperature-Carried none fit =
      let d = temperature_not_available_float in
      let (bs, wrote, read) =
        read_back ttemperature_channel_value (value_attrs d) value-well_formed
          (value-FitsMessage d (omega arith)) in
      (bs, wrote, rw (read, set_encoded_value) refl)
  temperature-Carried (some f) (small, apart) =
      let (bs, wrote, read) =
        read_back ttemperature_channel_value (value_attrs f) value-well_formed
          (value-FitsMessage f small) in
      (
        bs,
        wrote,
        rw (read, set_encoded_value, differs f temperature_not_available_float apart) refl,
      )

  sensor-carried :
      (t h : Option ℕ)
      → FitsReading floats temperature_not_available_int t
      → FitsReading floats humidity_not_available h
      → (bs : Bytes) × (encode_sensor floats t h ≡ ok bs) × (decode_sensor floats bs ≡ ok (t, h))
  unfolding encode_sensor decode_sensor getattr
  sensor-carried t h fit_t fit_h =
      let (m, m_small, e_m, back_m) = reading temperature_not_available_int t (omega arith) fit_t in
      let (n, n_small, e_n, back_n) = reading humidity_not_available h (omega arith) fit_h in
      let (bs, wrote, read) =
        read_back ttemperature_and_humidity_channel_value (sensor_attrs (pos m) (pos n))
          sensor-well_formed (sensor-FitsMessage m n m_small n_small) in
      (bs, rw (e_m, e_n, encode_sensor) wrote, rw (read, decode_sensor, back_m, back_n) refl)

  measurement-Carried : (v : ℕ) → v < 256 ^ 8 → Carried (general_purpose_measurement v)
  unfolding encoded_value set_encoded_value getattr
  measurement-Carried v small =
      let (bs, wrote, read) =
        read_back tgeneral_purpose_measurement_channel_value (value_attrs v) value-well_formed
          (value-FitsMessage v small) in
      (bs, wrote, rw (read, set_encoded_value) refl)

  dimmer-Carried : (v : ℤ) → IsByteValue v → Carried (dimmer v none)
  unfolding encoded_value set_encoded_value getattr
  dimmer-Carried v small =
      let (bs, wrote, read) =
        read_back tdimmer_channel_value (dimmer_attrs v) dimmer-well_formed
          (dimmer-FitsMessage v small) in
      (bs, wrote, rw (read, set_encoded_value) refl)

  color-carried :
      (w c r g b : ℤ)
      → IsByteValue w
      → IsByteValue c
      → IsByteValue r
      → IsByteValue g
      → IsByteValue b
      → (bs : Bytes) × (encode (fields trgbdimmer_channel_value) (color_attrs w c r g b) ≡ ok bs)
        × (decoded trgbdimmer_channel_value bs ≡ ok (color_attrs w c r g b))
  color-carried w c r g b iw ic ir ig ib =
      read_back trgbdimmer_channel_value (color_attrs w c r g b) color-well_formed
        (color-FitsMessage w c r g b iw ic ir ig ib)

  -- A channel of any class without a callback, whose value the encoding carries: the value is encoded,
  -- and a new channel of the class that gets the encoded value becomes this channel, in one update.
  pub set_encoded_value-encoded_value :
      (c : Channel)
      → Survives floats c
      → (bs : Bytes) × (encoded_value floats c ≡ ok bs)
        × (set_encoded_value floats (fresh c) bs ≡ ok (c ∷ []))
  unfolding encoded_value set_encoded_value getattr
  set_encoded_value-encoded_value (relay v f n) e = rw e (relay-Carried v n)
  set_encoded_value-encoded_value (temperature v) fit = temperature-Carried v fit
  set_encoded_value-encoded_value (humidity v) fit =
      let (bs, wrote, read) = sensor-carried none v tt fit in
      (bs, wrote, rw (read, set_encoded_value) refl)
  set_encoded_value-encoded_value (temperature_and_humidity t h) (fit_t, fit_h) =
      let (bs, wrote, read) = sensor-carried t h fit_t fit_h in
      (bs, wrote, rw (read, set_encoded_value) refl)
  set_encoded_value-encoded_value (general_purpose_measurement v) small =
      measurement-Carried v small
  set_encoded_value-encoded_value (dimmer v f) (small, e) = rw e (dimmer-Carried v small)
  set_encoded_value-encoded_value (rgb_dimmer (c, r, g, b) f) (ic, ir, ig, ib, e) =
      let (bs, wrote, read) = color-carried (pos 0) c r g b (omega arith) ic ir ig ib in
      (bs, wrote, rw (read, set_encoded_value, e) refl)
  set_encoded_value-encoded_value (rgbw_dimmer (w, c, r, g, b) f) (iw, ic, ir, ig, ib, e) =
      let (bs, wrote, read) = color-carried w c r g b iw ic ir ig ib in
      (bs, wrote, rw (read, set_encoded_value, e) refl)
