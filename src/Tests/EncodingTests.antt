-- ===== src/Tests/EncodingTests.antt =====
-- A pack with one location, and a caption that is not ASCII.
use suplalite.Common.{◌≡◌, refl, true, [], ◌∷◌, ◌++◌, length, arith}
use suplalite.Common.Int.{pos}
use suplalite.Python.Result.{ok, err, assertion_error}
use suplalite.Python.Bytes.{Bytes}
use suplalite.Python.Word.{pack, uint32}
use suplalite.Python.Text.{Str, utf8, char_bytes}
use suplalite.Encoding.Value.{Value, Attrs, attr, cons, empty, getattr}
use suplalite.Encoding.Fields.{fields}
use suplalite.Encoding.Encode.{encode, size_value, find, len, terminator}
use suplalite.Encoding.Decode.{decode}
use suplalite.Encoding.WellFormed.{well_formed}
use suplalite.Encoding.Fits.{FitsMessage}
use suplalite.Encoding.RoundTrip.{decode-encode}
use suplalite.Encoding.NonAscii.{text_class, text_attrs, decode-encode_non_ascii}
use suplalite.Proto.Clients.{tsc_location_pack}
use suplalite.Proto.RoundTrip.{decode-encode-messages}

abbrev location : Attrs
location =
    attr "eol" (Value.bool true)
      (attr "id" (Value.int (pos 5)) (attr "caption" (Value.str (b'H' ∷ b'i' ∷ [])) Attrs.nil))

abbrev locations : Attrs
locations =
    attr "total_left" (Value.int (pos 0))
      (attr "items" (Value.list (cons (Value.message location) empty)) Attrs.nil)

abbrev location_bytes : Bytes
location_bytes =
    1 ∷ 0 ∷ 0 ∷ 0 ∷ 0 ∷ 0 ∷ 0 ∷ 0 ∷ 1 ∷ 5 ∷ 0 ∷ 0 ∷ 0 ∷ 3 ∷ 0 ∷ 0 ∷ 0 ∷ b'H' ∷ b'i' ∷ 0 ∷ []

-- The size field of the items stands in front of `total_left`.
encode-locations : encode (fields tsc_location_pack) locations ≡ ok location_bytes
unfolding encode fields pack utf8 char_bytes
encode-locations = refl

locations-well_formed : well_formed (fields tsc_location_pack) ≡ true
unfolding well_formed fields
locations-well_formed = refl

locations-FitsMessage : FitsMessage (fields tsc_location_pack) locations
unfolding fields size_value getattr find len terminator
locations-FitsMessage = (
  record { size = 1; counts = refl; in_range = omega arith },
  (
    refl,
    omega arith,
    (
      refl,
      (
        omega arith,
        (
          (
            refl,
            tt,
            (
              refl,
              omega arith,
              (
                record { size = 3; counts = refl; in_range = omega arith },
                (refl, ((omega arith, (omega arith, tt)), omega arith), tt),
              ),
            ),
          ),
          tt,
        ),
      ),
      tt,
    ),
  ),
)

decode-encode_example :
    (bs : Bytes) × (encode (fields tsc_location_pack) locations ≡ ok bs)
    × (decode (fields tsc_location_pack) (bs ++ 1 ∷ []) ≡ ok (locations, pos (length bs)))
decode-encode_example =
    decode-encode (fields tsc_location_pack) locations (1 ∷ []) locations-well_formed
      locations-FitsMessage

decode-encode-messages_example :
    (bs : Bytes) × (encode (fields tsc_location_pack) locations ≡ ok bs)
    × (decode (fields tsc_location_pack) (bs ++ 1 ∷ []) ≡ ok (locations, pos (length bs)))
decode-encode-messages_example =
    decode-encode-messages 22 tsc_location_pack locations (1 ∷ []) refl locations-FitsMessage

-- U+00F3, which takes two bytes
abbrev caption : Str
caption = 243 ∷ []

caption-utf8 : utf8 caption ≡ ok (195 ∷ 179 ∷ [])
unfolding utf8 char_bytes
caption-utf8 = refl

decode-encode_non_ascii_example :
    (encode (fields (text_class 401)) (text_attrs caption)
      ≡ ok (pack uint32 (pos 2) ++ ((195 ∷ 179 ∷ []) ++ 0 ∷ [])))
    × (decode
          (fields (text_class 401))
          ((pack uint32 (pos 2) ++ ((195 ∷ 179 ∷ []) ++ 0 ∷ [])) ++ [])
        ≡ err assertion_error)
decode-encode_non_ascii_example =
    decode-encode_non_ascii 401 caption (195 ∷ 179 ∷ []) [] caption-utf8 (omega arith, tt)
      (omega arith) (omega arith) (omega arith)
