-- ===== src/Device/Cold.antt =====
-- What becomes of a temperature below zero.
use suplalite.Common.{
  differs, ℕ, ◌-◌, ◌%◌, ◌<◌, ◌≡◌, ◌≢◌, refl, ap, ◌∙◌, Option, none, some, [], ◌∷◌, arith,
}
use suplalite.Common.Int.{ℤ, pos, negsuc}
use suplalite.Python.Result.{ok}
use suplalite.Python.Bytes.{Bytes}
use suplalite.Python.Word.{uint32, pack, to_word, le_bytes}
use suplalite.Encoding.Value.{getattr}
use suplalite.Encoding.Fields.{fields}
use suplalite.Encoding.Encode.{encode}
use suplalite.Proto.Constants.{temperature_not_available_int, humidity_not_available}
use suplalite.Proto.Values.{ttemperature_and_humidity_channel_value}
use suplalite.ChannelValues.{sensor_attrs}
use suplalite.ChannelValues.Fitting.{read_back, sensor-well_formed, sensor-FitsMessage}
use suplalite.Device.Channels.{Floats, temperature_and_humidity}
use suplalite.Device.Channels.Codec.{encoded_value, set_encoded_value, encode_sensor, decode_sensor}
use suplalite.Device.Values.{FitsReading, reading}

pack-negsuc : (n : ℕ) → n < 4294967296 → pack uint32 (negsuc n) ≡ pack uint32 (pos (4294967295 - n))
unfolding pack to_word
pack-negsuc n small =
    let e : 4294967295 - n % 4294967296 ≡ (4294967295 - n) % 4294967296 = omega arith in
    ap (le_bytes 4) e

encode-negsuc :
    (n : ℕ) (h : ℤ)
    → n < 4294967296
    → encode (fields ttemperature_and_humidity_channel_value) (sensor_attrs (negsuc n) h)
      ≡ encode
          (fields ttemperature_and_humidity_channel_value)
          (sensor_attrs (pos (4294967295 - n)) h)
unfolding encode fields
encode-negsuc n h small = rw (pack-negsuc n small) refl

-- A temperature whose thousandths are below zero, in the range of 32 bits, and another than the one that
-- stands for none, with a humidity that the encoding carries: it is encoded, and a new channel that
-- gets the encoded value has the thousandths plus 2 ^ 32 as its temperature.
pub set_encoded_value-negative :
    (floats : Floats) (t n : ℕ) (h : Option ℕ)
    → floats.thousandths t ≡ ok (negsuc n)
    → n < 4294967296
    → 4294967295 - n ≢ temperature_not_available_int
    → FitsReading floats humidity_not_available h
    → (bs : Bytes) × (encoded_value floats (temperature_and_humidity (some t) h) ≡ ok bs)
      × (set_encoded_value floats (temperature_and_humidity none none) bs
          ≡ ok (
              temperature_and_humidity (some (floats.of_thousandths (pos (4294967295 - n)))) h
              ∷ []))
unfolding encoded_value set_encoded_value encode_sensor decode_sensor getattr
set_encoded_value-negative floats t n h below small apart fit =
    let m : ℕ = 4294967295 - n in
    let (k, k_small, e, back) = reading floats humidity_not_available h (omega arith) fit in
    let (bs, wrote, read) =
      read_back ttemperature_and_humidity_channel_value (sensor_attrs (pos m) (pos k))
        sensor-well_formed (sensor-FitsMessage m k (omega arith) k_small) in
    (
      bs,
      rw (below, e, encode_sensor) (encode-negsuc n (pos k) small ∙ wrote),
      rw
          (
            read,
            set_encoded_value,
            decode_sensor,
            differs m temperature_not_available_int apart,
            back,
          )
          refl,
    )
