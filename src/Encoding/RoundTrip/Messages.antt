-- ===== src/Encoding/RoundTrip/Messages.antt =====
-- The round trip of whole messages, by induction on the expanded fields.
use suplalite.Common.{
  ◌+◌, ◌≡◌, refl, String, true, false, none, some, List, [], ◌∷◌, ◌++◌, arith, &&-true, length,
}
use suplalite.Common.Int.{pos}
use suplalite.Python.Result.{ok}
use suplalite.Python.Bytes.{Bytes}
use suplalite.Encoding.Schema.{
  Codec, Schema, size_for, integer, double, bytes_value, bytes_size, bytes_max, string_size,
  string_max, packed_array, message, entry,
}
use suplalite.Encoding.Value.{Value, Attrs, attr, getattr, length_items}
use suplalite.Encoding.Encode.{attribute, len, encode_field, encode_fields, encode}
use suplalite.Encoding.Decode.{
  Sizes, decode_bytes_size, decode_string_max, decode_packed_array, decode_message, decode_field,
  decode_fields, decode,
}
use suplalite.Encoding.WellFormed.{
  absent, measured, well_formed_field, well_formed_fields, well_formed,
}
use suplalite.Encoding.Fits.{Fits, FitsFields, FitsMessage}
use suplalite.Encoding.At.{At-start}
use suplalite.Encoding.Scalars.{
  Carries, integer-Carries, double-Carries, bytes_size-Carries, bytes_max-Carries,
  string_size-Carries, string_max_terminated-Carries, string_max_plain-Carries,
}
use suplalite.Encoding.RoundTrip.Sizes.{
  Holds, Holds-start, Holds-note, checked_size-measured, checked_size-measured_plain, Covers,
  Covers-refl, Covers-tail,
}
use suplalite.Encoding.RoundTrip.Steps.{
  Carry-entry, Carry-message, constant_size, constant_value, size-Carries, sized, Carry-packed,
  needs_name, notes_nothing, Carry,
}

mutual
  unfolding encode_fields decode_fields well_formed_fields attribute len

  field-Carries :
      (c : Codec) (all : Schema) (known : List String) (msg : Attrs) (sizes : Sizes) (n : String)
      (v : Value)
      → well_formed_field c all known (some n) true ≡ true
      → Fits c v
      → getattr msg n ≡ ok v
      → Holds known all msg sizes
      → Carries v (encode_field c all (some n) true msg) (decode_field c (some n) sizes)
  field-Carries (size_for t c) all known msg sizes n v wf fit g held = cc
  field-Carries (integer c t) all known msg sizes n v wf fit g held =
      rw g (integer-Carries c t v fit)
  field-Carries double all known msg sizes n (Value.float b) wf fit g held =
      rw g (double-Carries b fit)
  field-Carries double all known msg sizes n _ wf fit g held = absurd fit
  field-Carries (bytes_value x) all known msg sizes n v wf fit g held = cc
  field-Carries (bytes_size k) all known msg sizes n (Value.bytes xs) wf fit g held =
      rw g (bytes_size-Carries xs k fit)
  field-Carries (bytes_size k) all known msg sizes n _ wf fit g held = absurd fit
  field-Carries (bytes_max k) all known msg sizes n (Value.bytes xs) wf fit g held = rw g (
      sized (pos (length xs)) decode_bytes_size
        (checked_size-measured_plain all msg n (Value.bytes xs) (length xs) k wf held g refl fit)
        (bytes_max-Carries xs k fit))
  field-Carries (bytes_max k) all known msg sizes n _ wf fit g held = absurd fit
  field-Carries (string_size k) all known msg sizes n (Value.str s) wf fit g held =
      rw g (string_size-Carries s k fit)
  field-Carries (string_size k) all known msg sizes n _ wf fit g held = absurd fit
  field-Carries (string_max k true) all known msg sizes n (Value.str s) wf fit g held = rw g (
      sized (pos (length s + 1)) (decode_string_max true)
        (checked_size-measured all msg n (Value.str s) (length s) 1 k wf held g refl fit.1)
        (string_max_terminated-Carries s k fit.0 fit.1))
  field-Carries (string_max k false) all known msg sizes n (Value.str s) wf fit g held = rw g (
      sized (pos (length s)) (decode_string_max false)
        (checked_size-measured_plain all msg n (Value.str s) (length s) k wf held g refl fit.1)
        (string_max_plain-Carries s k fit.0 fit.1))
  field-Carries (string_max k true) all known msg sizes n _ wf fit g held = absurd fit
  field-Carries (string_max k false) all known msg sizes n _ wf fit g held = absurd fit
  field-Carries (packed_array k s) all known msg sizes n (Value.list xs) wf fit g held =
      let (m, wf') = &&-true (measured all known n 0) _ wf in
      rw g (
        sized (pos (length_items xs))
          (decode_packed_array (λ b. decode_message (decode_fields s [] b (pos 0))))
          (checked_size-measured_plain all msg n (Value.list xs) _ k m held g refl fit.0)
          (Carry-packed s k xs
            (λ a f. fields-Carry s s [] a [] a wf' f (Covers-refl a) (Holds-start s a)) fit.0
            fit.1))
  field-Carries (packed_array k s) all known msg sizes n _ wf fit g held = absurd fit
  field-Carries (message s) all known msg sizes n (Value.message m) wf fit g held =
      rw g (Carry-message s m (fields-Carry s s [] m [] m wf fit (Covers-refl m) (Holds-start s m)))
  field-Carries (message s) all known msg sizes n _ wf fit g held = absurd fit

  fields-Carry :
      (s all : Schema) (known : List String) (msg : Attrs) (sizes : Sizes) (attrs : Attrs)
      → well_formed_fields s all known ≡ true
      → FitsFields s all msg attrs
      → Covers attrs msg
      → Holds known all msg sizes
      → Carry s all msg sizes attrs
  fields-Carry Schema.nil all known msg sizes Attrs.nil wf fit covers held = record {
    written = [];
    writes = refl;
    reads = λ bs o a. let e : o + 0 ≡ o = omega arith in rw e;
  }
  fields-Carry Schema.nil all known msg sizes (attr _ _ _) wf fit covers held = absurd fit
  fields-Carry (entry none false (size_for t c) rest) all known msg sizes attrs wf fit covers held =
      Carry-entry none false (size_for t c) rest all msg sizes _ attrs
        (size-Carries t c all msg sizes fit.0.size fit.0.counts fit.0.in_range)
        (fields-Carry rest all (t ∷ known) msg _ attrs wf fit.1 covers
          (Holds-note all msg t fit.0.size fit.0.counts held))
  fields-Carry (entry none false (bytes_value v) rest) all known msg sizes attrs wf fit covers
        held =
      Carry-entry none false (bytes_value v) rest all msg sizes _ attrs
        (constant_value v all none msg sizes)
        (fields-Carry rest all known msg sizes attrs wf fit covers held)
  fields-Carry (entry none false (bytes_size k) rest) all known msg sizes attrs wf fit covers held =
      Carry-entry none false (bytes_size k) rest all msg sizes _ attrs
        (constant_size k all none msg sizes)
        (fields-Carry rest all known msg sizes attrs wf fit covers held)
  fields-Carry (entry (some n) false (bytes_value v) rest) all known msg sizes attrs wf fit covers
        held =
      Carry-entry (some n) false (bytes_value v) rest all msg sizes _ attrs
        (constant_value v all (some n) msg sizes)
        (fields-Carry rest all known msg sizes attrs (&&-true _ _ wf).1 fit covers held)
  fields-Carry (entry (some n) false (bytes_size k) rest) all known msg sizes attrs wf fit covers
        held =
      Carry-entry (some n) false (bytes_size k) rest all msg sizes _ attrs
        (constant_size k all (some n) msg sizes)
        (fields-Carry rest all known msg sizes attrs (&&-true _ _ wf).1 fit covers held)
  fields-Carry (entry (some n) true c rest) all known msg sizes Attrs.nil wf fit covers held =
      absurd fit
  fields-Carry (entry (some n) true c rest) all known msg sizes (attr m v attrs) wf fit covers
        held =
      let (here, there) = &&-true _ _ wf in
      let (apart, wf') = &&-true (absent (some n) rest) _ there in
      let (e, e') = notes_nothing c all known n v sizes here in
      let (g, covers') = Covers-tail n v rest all msg attrs msg apart fit.2 (rw fit.0 at covers) in
      rw fit.0 (
        Carry-entry (some n) true c rest all msg sizes v attrs
          (field-Carries c all known msg sizes n v here fit.1 g held)
          (rw e (fields-Carry rest all known msg sizes attrs (rw e' at wf') fit.2 covers' held)))
  fields-Carry (entry none true c _) all known msg sizes attrs wf fit covers held =
      absurd (needs_name c all known (&&-true _ _ wf).0)
  fields-Carry (entry none false _ _) all known msg sizes attrs wf fit covers held = cc
  fields-Carry (entry (some _) false _ _) all known msg sizes attrs wf fit covers held = cc

-- For a well-formed class, any message whose values fit is encoded, and the encoding, with any bytes
-- behind it, decodes to the same message and to the offset at which it ends.
pub decode-encode :
    (s : Schema) (msg : Attrs) (post : Bytes)
    → well_formed s ≡ true
    → FitsMessage s msg
    → (bs : Bytes) × (encode s msg ≡ ok bs) × (decode s (bs ++ post) ≡ ok (msg, pos (length bs)))
unfolding encode decode well_formed
decode-encode s msg post wf fit =
    let c = fields-Carry s s [] msg [] msg wf fit (Covers-refl msg) (Holds-start s msg) in
    (
      c.written,
      c.writes,
      let e : 0 + length c.written ≡ length c.written = omega arith in
          rw e at (c.reads (c.written ++ post) 0 (At-start c.written post)),
    )
