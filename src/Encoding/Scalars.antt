-- ===== src/Encoding/Scalars.antt =====
-- Each encoder of encoding.py that holds no message, read back by its decoder.
use suplalite.Common.{
  ℕ, ◌+◌, ◌-◌, ◌≤◌, ◌<◌, ◌^◌, ◌≡◌, refl, ◌∙◌, Bool, true, false, [], ◌∷◌, ◌++◌, arith,
  if◌then◌else◌, length, replicate, length-append, length-replicate, le→leb, ==-refl,
}
use suplalite.Common.Int.{ℤ, pos, negsuc, +ℤ-pos, ◌+ℤ◌}
use suplalite.Python.Result.{Result, ok}
use suplalite.Python.Bytes.{Bytes, ljust, before_nul-append, ==b-refl}
use suplalite.Python.Word.{
  Ctype, size_of, InRange, pack, to_word, le_bytes, length-le_bytes, of_le-le_bytes, to_word-lt,
  of_word-to_word,
}
use suplalite.Python.Text.{Str, IsAscii, utf8_ascii, utf8_ne_nul, utf8_decode-utf8}
use suplalite.Encoding.Schema.{Typ, int, bool, int_flag, enum}
use suplalite.Encoding.Value.{Value}
use suplalite.Encoding.Encode.{
  encode_ctype, encode_double, encode_string_size, encode_string_max, encode_bytes_size,
  encode_bytes_max,
}
use suplalite.Encoding.Decode.{
  convert, decode_number, decode_ctype, decode_double, decode_string_size, decode_string_max,
  decode_bytes_value, decode_bytes_size,
}
use suplalite.Encoding.Fits.{FitsInteger, FitsText}
use suplalite.Encoding.At.{At, At-left, At-right, slice-At, buffer-At, index-At}

-- `enc` produces bytes that `dec` reads back, wherever they stand.
pub record Carries (v : Value) (enc : Result Bytes) (dec : Bytes → ℤ → Result (Value × ℤ))
    : Type 0 where
  pub written : Bytes
  pub writes : enc ≡ ok written
  pub reads :
      (bs : Bytes) (offset : ℕ)
      → At bs offset written
      → dec bs (pos offset) ≡ ok (v, pos (length written))

pub length-pack : (c : Ctype) (z : ℤ) → length (pack c z) ≡ size_of c
unfolding pack
length-pack c z = length-le_bytes (size_of c) (to_word c z)

pub decode_number-At :
    (c : Ctype) (z : ℤ) (bs : Bytes) (offset : ℕ)
    → InRange c z
    → At bs offset (pack c z)
    → decode_number c bs (pos offset) ≡ ok z
unfolding decode_number
decode_number-At c z bs offset h a = rw (buffer-At (pack c z) a (size_of c) (length-pack c z)) (
    unfold pack in
    rw (of_le-le_bytes (size_of c) (to_word c z) (to_word-lt c z), of_word-to_word c z h))

pub decode_ctype-At :
    (c : Ctype) (t : Typ) (z : ℤ) (v : Value) (bs : Bytes) (offset : ℕ)
    → InRange c z
    → convert t z ≡ ok v
    → At bs offset (pack c z)
    → decode_ctype c t bs (pos offset) ≡ ok (v, pos (length (pack c z)))
unfolding decode_ctype
decode_ctype-At c t z v bs offset h e a =
    rw (decode_number-At c z bs offset h a, e, length-pack c z)

bool-InRange : (c : Ctype) (b : Bool) → InRange c (if b then pos 1 else pos 0)
bool-InRange Ctype.int8 b = ground arith
bool-InRange _ b = ground arith

module _ (c : Ctype) where
  pub integer-Carries :
      (t : Typ) (v : Value) → FitsInteger c t v → Carries v (encode_ctype c v) (decode_ctype c t)
  unfolding encode_ctype
  integer-Carries int (Value.int z) h = record {
    written = pack c z;
    writes = refl;
    reads = λ bs o a. decode_ctype-At c int z _ bs o h (unfold convert in refl) a;
  }
  integer-Carries bool (Value.bool b) h = record {
    written = pack c (if b then pos 1 else pos 0);
    writes = refl;
    reads = λ bs o a.
        decode_ctype-At c bool _ _ bs o (bool-InRange c b) (unfold convert in ground arith) a;
  }
  integer-Carries int_flag (Value.enum z) h = record {
    written = pack c z;
    writes = refl;
    reads = λ bs o a. decode_ctype-At c int_flag z _ bs o h (unfold convert in refl) a;
  }
  integer-Carries (enum members) (Value.enum z) h = record {
    written = pack c z;
    writes = refl;
    reads = λ bs o a. decode_ctype-At c (enum members) z _ bs o h.1 (unfold convert in rw h.0) a;
  }
  integer-Carries _ _ h = absurd h

pub double-Carries :
    (b : ℕ) → b < 256 ^ 8 → Carries (Value.float b) (encode_double (Value.float b)) decode_double
unfolding encode_double decode_double
double-Carries b h = record {
  written = le_bytes 8 b;
  writes = refl;
  reads = λ bs o a. rw (
    buffer-At (le_bytes 8 b) a 8 (length-le_bytes 8 b),
    of_le-le_bytes 8 b h,
    length-le_bytes 8 b,
  );
}

pub bytes_size-Carries :
    (xs : Bytes) (n : ℕ)
    → length xs ≡ n
    → Carries (Value.bytes xs) (encode_bytes_size n (Value.bytes xs)) (decode_bytes_size (pos n))
unfolding encode_bytes_size decode_bytes_size
bytes_size-Carries xs n h = record {
  written = xs;
  writes = rw (h, ==-refl n);
  reads = λ bs o a. rw (slice-At xs a n h, h);
}

pub bytes_max-Carries :
    (xs : Bytes) (n : ℕ)
    → length xs ≤ n
    → Carries
        (Value.bytes xs)
        (encode_bytes_max n (Value.bytes xs))
        (decode_bytes_size (pos (length xs)))
unfolding encode_bytes_max decode_bytes_size
bytes_max-Carries xs n h = record {
  written = xs;
  writes = rw (le→leb _ _ h);
  reads = λ bs o a. rw (slice-At xs a (length xs) refl);
}

pub bytes_value-Carries :
    (xs : Bytes)
    → Carries
        (Value.bytes xs)
        (encode_bytes_size (length xs) (Value.bytes xs))
        (decode_bytes_value xs)
unfolding encode_bytes_size decode_bytes_value
bytes_value-Carries xs = record {
  written = xs;
  writes = rw (==-refl (length xs));
  reads = λ bs o a. rw (slice-At xs a (length xs) refl, ==b-refl xs);
}

pub string_size-Carries :
    (s : Str) (n : ℕ)
    → FitsText n s
    → Carries (Value.str s) (encode_string_size n (Value.str s)) (decode_string_size n)
unfolding encode_string_size decode_string_size ljust
string_size-Carries s n h =
    let padded : Bytes = h.encoded ++ replicate (n - length h.encoded) 0 in
    let size : length padded ≡ n =
      length-append h.encoded _
      ∙ omega (arith, h.room, length-replicate {A = ℕ} (n - length h.encoded) 0) in
    record {
      written = padded;
      writes = rw h.encodes;
      reads = λ bs o a. rw (
        slice-At padded a n size,
        before_nul-append h.encoded _ (utf8_ne_nul s h.encoded h.encodes h.no_nul),
        utf8_decode-utf8 s h.encoded h.encodes,
        size,
      );
    }

size_pred : (n : ℕ) → pos (n + 1) +ℤ negsuc 0 ≡ pos n
unfolding ◌+ℤ◌
size_pred n = ground arith

pub string_max_terminated-Carries :
    (s : Str) (n : ℕ)
    → IsAscii s
    → length s + 1 ≤ n
    → Carries
        (Value.str s)
        (encode_string_max n true (Value.str s))
        (decode_string_max true (pos (length s + 1)))
unfolding encode_string_max decode_string_max
string_max_terminated-Carries s n ascii h = record {
  written = s ++ 0 ∷ [];
  writes = rw (utf8_ascii s ascii, length-append s (0 ∷ []), le→leb _ _ h);
  reads = λ bs o a. rw (
    size_pred (length s),
    +ℤ-pos o (length s),
    index-At 0 [] (At-right s (0 ∷ []) a),
    ← +ℤ-pos o (length s),
    slice-At s (At-left s (0 ∷ []) a) (length s) refl,
    utf8_decode-utf8 s s (utf8_ascii s ascii),
    length-append s (0 ∷ []),
  );
}

pub string_max_plain-Carries :
    (s : Str) (n : ℕ)
    → IsAscii s
    → length s ≤ n
    → Carries
        (Value.str s)
        (encode_string_max n false (Value.str s))
        (decode_string_max false (pos (length s)))
unfolding encode_string_max decode_string_max
string_max_plain-Carries s n ascii h = record {
  written = s;
  writes = rw (utf8_ascii s ascii, le→leb _ _ h);
  reads = λ bs o a. rw (slice-At s a (length s) refl, utf8_decode-utf8 s s (utf8_ascii s ascii));
}
