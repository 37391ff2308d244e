-- ===== src/Encoding/NonAscii.antt =====
-- A text with a length field: the field counts characters, and the text is sent as UTF-8.
use suplalite.Common.{
  false, ℕ, zero, suc, ◌+◌, ◌^◌, ◌≤◌, ◌<◌, ◌≡◌, refl, ap, subst, ◌∙◌, true, [], ◌∷◌, ◌++◌, arith,
  length, append_assoc, append-nil, length-append, All, le→leb, ◌==◌,
}
use suplalite.Common.Int.{pos, negsuc, leb_ℤ, +ℤ-pos, ◌+ℤ◌}
use suplalite.Python.Result.{assertion_error, ok, err}
use suplalite.Python.Bytes.{Bytes}
use suplalite.Python.Word.{uint32, pack}
use suplalite.Python.Text.{Str, utf8, utf8_ne_nul}
use suplalite.Encoding.Schema.{Typ, Class, nil, field, c_string_max}
use suplalite.Encoding.Value.{Value, Attrs, attr}
use suplalite.Encoding.Fields.{fields}
use suplalite.Encoding.Encode.{encode}
use suplalite.Encoding.Decode.{decode, size_at, convert}
use suplalite.Encoding.At.{At, At-start, At-left, At-next, index-At}
use suplalite.Encoding.Scalars.{decode_ctype-At, length-pack}

abbrev pub text_class : ℕ → Class
text_class n = field "caption" true (c_string_max uint32 n true) nil

abbrev pub text_attrs : Str → Attrs
text_attrs s = attr "caption" (Value.str s) Attrs.nil

before_one : (n : ℕ) → pos (n + 1) +ℤ negsuc 0 ≡ pos n
unfolding ◌+ℤ◌
before_one n = ground arith

-- The byte at an index, and what stands before and behind it.
record Byte (bs : Bytes) (i : ℕ) : Type 0 where
  pub front : Bytes
  pub byte : ℕ
  pub back : Bytes
  pub whole : bs ≡ front ++ byte ∷ back
  pub before : length front ≡ i
  pub positive : 0 < byte

bytes-Byte : (bs : Bytes) (i : ℕ) → All (λ b. 0 < b) bs → i < length bs → Byte bs i
bytes-Byte [] i h room = absurd (omega arith)
bytes-Byte (b ∷ bs) zero h room = record {
  front = [];
  byte = b;
  back = bs;
  whole = refl;
  before = refl;
  positive = h.0;
}
bytes-Byte (b ∷ bs) (suc i) h room =
    let r = bytes-Byte bs i h.1 (omega arith) in
    record {
      front = b ∷ r.front;
      byte = r.byte;
      back = r.back;
      whole = ap (λ t. b ∷ t) r.whole;
      before = ap suc r.before;
      positive = r.positive;
    }

-- A text without NUL whose UTF-8 encoding is longer than its number of characters, and short enough
-- for its field, is encoded with a size field that counts characters, and decoding that encoding
-- raises `AssertionError`.
pub decode-encode_non_ascii :
    (n : ℕ) (s : Str) (bs post : Bytes)
    → utf8 s ≡ ok bs
    → All (λ c. 0 < c) s
    → length s < length bs
    → length bs + 1 ≤ n
    → n < 2 ^ 32
    → (encode (fields (text_class n)) (text_attrs s)
        ≡ ok (pack uint32 (pos (length s + 1)) ++ (bs ++ 0 ∷ [])))
      × (decode
            (fields (text_class n))
            ((pack uint32 (pos (length s + 1)) ++ (bs ++ 0 ∷ [])) ++ post)
          ≡ err assertion_error)
unfolding encode decode fields size_at
decode-encode_non_ascii n s bs post e no_nul longer fits range =
    let size = pack uint32 (pos (length s + 1)) in
    let r = bytes-Byte bs (length s) (utf8_ne_nul s bs e no_nul) longer in
    let zero_byte : (r.byte == 0) ≡ false = ground (arith, r.positive) in
    let start = At-start (size ++ (bs ++ 0 ∷ [])) post in
    let range' : length s + 1 < 4294967296 = omega (arith, longer, fits, range) in
    let size_read =
      decode_ctype-At uint32 Typ.int (pos (length s + 1)) (Value.int (pos (length s + 1))) _ 0
        range' (unfold convert in refl) (At-left size _ start) in
    let l4 = length-pack uint32 (pos (length s + 1)) in
    let small : leb_ℤ (pos (length s + 1)) (pos n) ≡ true = ground (arith, longer, fits) in
    let e1 : bs ++ 0 ∷ [] ≡ r.front ++ r.byte ∷ (r.back ++ 0 ∷ []) =
      ap (λ t. t ++ 0 ∷ []) r.whole ∙ append_assoc r.front (r.byte ∷ r.back) (0 ∷ []) in
    let at_byte =
      At-next r.front (r.byte ∷ (r.back ++ 0 ∷ [])) (4 + length s) (omega (arith, r.before)) (
        subst (λ t. At ((size ++ (bs ++ 0 ∷ [])) ++ post) 4 t) e1
          (At-next size (bs ++ 0 ∷ []) 4 (omega (arith, l4)) start)) in
    (
      rw (
        e,
        le→leb (length (bs ++ 0 ∷ [])) n (omega (arith, fits, length-append bs (0 ∷ []))),
        append-nil (bs ++ 0 ∷ []),
      ),
      rw (
        size_read,
        l4,
        small,
        before_one,
        +ℤ-pos 0 4,
        +ℤ-pos 4 (length s),
        index-At r.byte (r.back ++ 0 ∷ []) at_byte,
        zero_byte,
      ),
    )
