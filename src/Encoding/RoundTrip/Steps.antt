-- ===== src/Encoding/RoundTrip/Steps.antt =====
-- One field of a message, and what the fields behind it need.
use suplalite.Common.{
  ℕ, ◌+◌, ◌≡◌, refl, String, Bool, true, false, Option, none, some, List, [], ◌++◌, arith, le→leb,
  ◌≤◌, length, length-append, replicate, length-replicate, add_assoc,
}
use suplalite.Common.Int.{ℤ, pos, +ℤ-pos}
use suplalite.Python.Result.{Result, ok, ◌>>=◌}
use suplalite.Python.Bytes.{Bytes, slice_from}
use suplalite.Python.Word.{Ctype, InRange}
use suplalite.Encoding.Schema.{Codec, Schema, size_for, bytes_value, bytes_size, entry}
use suplalite.Encoding.Value.{Value, Items, Attrs, length_items}
use suplalite.Encoding.Encode.{
  size_value, encode_packed_array, encode_message, encode_field, encode_fields,
}
use suplalite.Encoding.Decode.{
  Sizes, decode_packed_array, decode_message, decode_field, decode_fields, keep, note_size,
}
use suplalite.Encoding.WellFormed.{note_known, well_formed_field, well_formed_fields}
use suplalite.Encoding.Fits.{FitsMessage, IsMessage, AllItems}
use suplalite.Encoding.At.{At, At-start, At-left, At-right, slice_from-At}
use suplalite.Encoding.Scalars.{Carries, integer-Carries, bytes_size-Carries, bytes_value-Carries}
use suplalite.Encoding.RoundTrip.Items.{ItemCarries, items_carry}

-- The fields of `s` are written, and read back as the attributes.
pub record Carry (s all : Schema) (msg : Attrs) (sizes : Sizes) (attrs : Attrs) : Type 0 where
  pub written : Bytes
  pub writes : encode_fields s all msg ≡ ok written
  pub reads :
      (bs : Bytes) (offset : ℕ)
      → At bs offset written
      → decode_fields s sizes bs (pos offset) ≡ ok (attrs, pos (offset + length written))

-- One field in front of the others.
pub Carry-entry :
    (name : Option String) (init : Bool) (c : Codec) (s all : Schema) (msg : Attrs) (sizes : Sizes)
    (v : Value) (attrs : Attrs)
    → Carries v (encode_field c all name init msg) (decode_field c name sizes)
    → Carry s all msg (note_size c v sizes) attrs
    → Carry (entry name init c s) all msg sizes (keep name init v attrs)
Carry-entry name init c s all msg sizes v attrs first rest = record {
  written = first.written ++ rest.written;
  writes = unfold encode_fields in rw (first.writes, rest.writes);
  reads = λ bs o a.
      unfold decode_fields in
      rw (
        first.reads bs o (At-left first.written rest.written a),
        +ℤ-pos o (length first.written),
        rest.reads bs (o + length first.written) (At-right first.written rest.written a),
        length-append first.written rest.written,
        add_assoc,
      );
}

-- A message, as `decode` of nested data reads it.
pub Carry-message :
    (s : Schema) (m : Attrs)
    → Carry s s m [] m
    → Carries
        (Value.message m)
        (encode_message (encode_fields s s) (Value.message m))
        (λ bs offset. decode_message (decode_fields s [] (slice_from bs offset) (pos 0)))
Carry-message s m c = record {
  written = c.written;
  writes = c.writes;
  reads = λ bs o a.
      rw (slice_from-At c.written a, c.reads (c.written ++ a.back) 0 (At-start c.written a.back))
        (let e : 0 + length c.written ≡ length c.written = omega arith in rw e);
}

-- What a constant field encodes and decodes.
pub constant_size :
    (k : ℕ) (all : Schema) (name : Option String) (msg : Attrs) (sizes : Sizes)
    → Carries
        (Value.bytes (replicate k 0))
        (encode_field (bytes_size k) all name false msg)
        (decode_field (bytes_size k) name sizes)
unfolding encode_fields decode_fields
constant_size k all name msg sizes = bytes_size-Carries (replicate k 0) k (length-replicate k 0)

pub constant_value :
    (v : Bytes) (all : Schema) (name : Option String) (msg : Attrs) (sizes : Sizes)
    → Carries
        (Value.bytes v)
        (encode_field (bytes_value v) all name false msg)
        (decode_field (bytes_value v) name sizes)
unfolding encode_fields decode_fields
constant_value v all name msg sizes = bytes_value-Carries v

pub size-Carries :
    (t : String) (c : Ctype) (all : Schema) (msg : Attrs) (sizes : Sizes) (k : ℕ)
    → size_value all msg t ≡ ok k
    → InRange c (pos k)
    → Carries
        (Value.int (pos k))
        (encode_field (size_for t c) all none false msg)
        (decode_field (size_for t c) none sizes)
unfolding encode_fields decode_fields
size-Carries t c all msg sizes k e h = rw e (integer-Carries c _ (Value.int (pos k)) h)

-- A field with a size field decodes by the size that was noted.
pub sized :
    {v : Value} {enc : Result Bytes} {size : Result ℤ} (z : ℤ)
    (dec : ℤ → Bytes → ℤ → Result (Value × ℤ))
    → size ≡ ok z
    → Carries v enc (dec z)
    → Carries v enc (λ bs offset. size >>= λ n. dec n bs offset)
sized z dec e c = rw e c

-- The items of a packed array are messages of its class.
pub message_item :
    (s : Schema)
    → ((m : Attrs) → FitsMessage s m → Carry s s m [] m)
    → (x : Value) → IsMessage (FitsMessage s) x
    → ItemCarries
        (encode_message (encode_fields s s))
        (λ b. decode_message (decode_fields s [] b (pos 0)))
        x
message_item s each (Value.message m) fit =
    let c = each m fit in
    record {
      written = c.written;
      writes = c.writes;
      reads = λ back.
          let e : 0 + length c.written ≡ length c.written = omega arith in
          rw (c.reads (c.written ++ back) 0 (At-start c.written back), e);
    }
message_item s each _ fit = absurd fit

pub Carry-packed :
    (s : Schema) (k : ℕ) (xs : Items)
    → ((m : Attrs) → FitsMessage s m → Carry s s m [] m)
    → length_items xs ≤ k
    → AllItems (IsMessage (FitsMessage s)) xs
    → Carries
        (Value.list xs)
        (encode_packed_array k (encode_message (encode_fields s s)) (Value.list xs))
        (decode_packed_array
          (λ b. decode_message (decode_fields s [] b (pos 0)))
          (pos (length_items xs)))
unfolding encode_packed_array decode_packed_array
Carry-packed s k xs each room fit =
    let c = items_carry _ _ (IsMessage (FitsMessage s)) (message_item s each) xs fit in
    record {
      written = c.written;
      writes = rw (le→leb _ _ room) c.writes;
      reads = λ bs o a.
          let e : 0 + length c.written ≡ length c.written = omega arith in
          rw (c.reads bs o 0 (let e' : o + 0 ≡ o = omega arith in rw e' a), e);
    }

-- What `__init__` takes has a name.
pub needs_name :
    (c : Codec) (all : Schema) (known : List String)
    → ¬ (well_formed_field c all known none true ≡ true)
unfolding well_formed_fields
needs_name (size_for t c) all known h = cc
needs_name _ all known h = cc

-- Only a size field is noted.
pub notes_nothing :
    (c : Codec) (all : Schema) (known : List String) (n : String) (v : Value) (sizes : Sizes)
    → well_formed_field c all known (some n) true ≡ true
    → (note_size c v sizes ≡ sizes) × (note_known c known ≡ known)
unfolding well_formed_fields
notes_nothing (size_for t c) all known n v sizes h = cc
notes_nothing _ all known n v sizes h = (refl, refl)
