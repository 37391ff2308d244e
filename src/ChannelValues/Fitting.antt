-- ===== src/ChannelValues/Fitting.antt =====
-- Which messages of channel values are encoded, and are read back from their bytes.
use suplalite.Common.{ℕ, ◌≡◌, ◌<◌, ◌^◌, refl, Bool, true, [], arith, length, append-nil}
use suplalite.Common.Int.{ℤ, pos}
use suplalite.Python.Result.{ok}
use suplalite.Python.Bytes.{Bytes}
use suplalite.Python.Word.{InRange, uint8}
use suplalite.Encoding.Schema.{Class}
use suplalite.Encoding.Value.{Attrs}
use suplalite.Encoding.Fields.{fields}
use suplalite.Encoding.Encode.{encode}
use suplalite.Encoding.Decode.{decode}
use suplalite.Encoding.Fits.{FitsMessage}
use suplalite.Encoding.WellFormed.{well_formed}
use suplalite.Encoding.RoundTrip.{decode-encode}
use suplalite.Proto.Values.{
  trelay_channel_value, ttemperature_channel_value, ttemperature_and_humidity_channel_value,
  tdimmer_channel_value, trgbdimmer_channel_value,
}
use suplalite.ChannelValues.{
  relay_attrs, value_attrs, sensor_attrs, dimmer_attrs, color_attrs, decoded,
}

abbrev pub IsByteValue : ℤ → Type 0
IsByteValue z = InRange uint8 z

module _ (cls : Class) (msg : Attrs) (wf : well_formed (fields cls) ≡ true)
    (fit : FitsMessage (fields cls) msg) where
  pub read_back : (bs : Bytes) × (encode (fields cls) msg ≡ ok bs) × (decoded cls bs ≡ ok msg)
  read_back =
      let (bs, wrote, read) = decode-encode (fields cls) msg [] wf fit in
      let read' : decode (fields cls) bs ≡ ok (msg, pos (length bs)) = rw (append-nil bs) at read in
      (bs, wrote, rw read' refl)

pub relay-well_formed : well_formed (fields trelay_channel_value) ≡ true
unfolding well_formed fields
relay-well_formed = refl

pub value-well_formed : well_formed (fields ttemperature_channel_value) ≡ true
unfolding well_formed fields
value-well_formed = refl

pub sensor-well_formed : well_formed (fields ttemperature_and_humidity_channel_value) ≡ true
unfolding well_formed fields
sensor-well_formed = refl

pub dimmer-well_formed : well_formed (fields tdimmer_channel_value) ≡ true
unfolding well_formed fields
dimmer-well_formed = refl

pub color-well_formed : well_formed (fields trgbdimmer_channel_value) ≡ true
unfolding well_formed fields
color-well_formed = refl

-- The classes of the messages, with the messages that fit
pub value-FitsMessage :
    (f : ℕ) → f < 256 ^ 8 → FitsMessage (fields ttemperature_channel_value) (value_attrs f)
unfolding fields
value-FitsMessage f small = (refl, small, tt)

pub sensor-FitsMessage :
    (t h : ℕ)
    → t < 2 ^ 32
    → h < 2 ^ 32
    → FitsMessage (fields ttemperature_and_humidity_channel_value) (sensor_attrs (pos t) (pos h))
unfolding fields
sensor-FitsMessage t h t_small h_small = (refl, omega arith, (refl, omega arith, tt))

pub dimmer-FitsMessage :
    (b : ℤ) → IsByteValue b → FitsMessage (fields tdimmer_channel_value) (dimmer_attrs b)
unfolding fields
dimmer-FitsMessage b small = (refl, small, tt)

pub color-FitsMessage :
    (w c r g b : ℤ)
    → IsByteValue w
    → IsByteValue c
    → IsByteValue r
    → IsByteValue g
    → IsByteValue b
    → FitsMessage (fields trgbdimmer_channel_value) (color_attrs w c r g b)
unfolding fields
color-FitsMessage w c r g b iw ic ir ig ib =
    (refl, iw, (refl, ic, (refl, ib, (refl, ig, (refl, ir, (refl, tt, (refl, omega arith, tt)))))))

pub relay-FitsMessage : (v : Bool) → FitsMessage (fields trelay_channel_value) (relay_attrs v)
unfolding fields
relay-FitsMessage v = (refl, tt, (refl, omega arith, tt))
