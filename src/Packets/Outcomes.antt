-- ===== src/Packets/Outcomes.antt =====
-- The outcomes of `_have_packet` on any bytes.
use suplalite.Common.{
  false, ◌-◌, ◌≡◌, refl, true, Bool, List, [], ◌∷◌, length, ltb, Bool-cases, ◌⊎◌, inl, inr,
}
use suplalite.Common.Int.{ℤ, pos, negsuc, leb_ℤ, +ℤ-pos, ◌+ℤ◌}
use suplalite.Python.Result.{Result, Error, network_error, assertion_error, ok, err}
use suplalite.Python.Bytes.{Bytes, slice, ◌==b◌}
use suplalite.Python.Word.{Ctype, uint8, uint32, size_of}
use suplalite.Encoding.Schema.{Typ, int, enum}
use suplalite.Encoding.Value.{Value}
use suplalite.Encoding.Fields.{fields}
use suplalite.Encoding.Decode.{decode_ctype, decode_number, convert, partial_decode}
use suplalite.Proto.Constants.{tag, proto_version_min}
use suplalite.Proto.Enums.{values}
use suplalite.Proto.Calls.{call}
use suplalite.Proto.Packets.{data_packet}
use suplalite.Packets.{have_packet, check_end, check_header, minimum_packet_size}

-- A call returns one of some values or raises.
abbrev Outcome {ℓ κ} : {A : Type ℓ} {B : Type κ} → (B → A) → Result A → Type (ℓ ⊔ κ)
Outcome {B = B} f r = ((e : Error) × (r ≡ err e)) ⊎ ((b : B) × (r ≡ ok (f b)))

pub Result-cases {ℓ} : {A : Type ℓ} (r : Result A) → Outcome (λ (a : A). a) r
Result-cases (ok a) = inr (a, refl)
Result-cases (err e) = inl (e, refl)

read_int :
    (c : Ctype) (bs : Bytes) (o : ℤ)
    → Outcome (λ z. (Value.int z, pos (size_of c))) (decode_ctype c int bs o)
unfolding decode_ctype
read_int c bs o = elim (Result-cases (decode_number c bs o)) [
  | inl (e, r) ↦ inl (e, rw r)
  | inr (z, r) ↦ inr (z, rw r)
]

read_enum :
    (c : Ctype) (t : Typ) (bs : Bytes) (o : ℤ)
    → Outcome (λ v. (v, pos (size_of c))) (decode_ctype c t bs o)
unfolding decode_ctype
read_enum c t bs o = elim (Result-cases (decode_number c bs o)) [
  | inl (e, r) ↦ inl (e, rw r)
  | inr (z, r) ↦ elim (Result-cases (convert t z)) [
    | inl (e, r') ↦ inl (e, rw (r, r'))
    | inr (v, r') ↦ inr (v, rw (r, r'))
  ]
]

abbrev header_values : ℤ × ℤ × Value × ℤ → List Value × ℤ
header_values (version, rr_id, call_id, size) =
    (Value.bytes tag ∷ Value.int version ∷ Value.int rr_id ∷ call_id ∷ Value.int size ∷ [], pos 18)

-- The header's version and size are integers.
header_read : (bs : Bytes) → Outcome header_values (partial_decode (fields data_packet) bs 5)
unfolding partial_decode fields
header_read bs = elim (Bool-cases (slice bs (pos 0) (pos 0 +ℤ pos 5) ==b tag)) [
  | inr b ↦ inl (assertion_error, rw b)
  | inl b ↦ elim (read_int uint8 bs (pos 5)) [
    | inl (e, r1) ↦ inl (e, rw (b, +ℤ-pos 0 5, r1))
    | inr (version, r1) ↦ elim (read_int uint32 bs (pos 6)) [
      | inl (e, r2) ↦ inl (e, rw (b, +ℤ-pos 0 5, r1, +ℤ-pos 5 1, r2))
      | inr (rr_id, r2) ↦ elim (read_enum uint32 (enum (values call)) bs (pos 10)) [
        | inl (e, r3) ↦ inl (e, rw (b, +ℤ-pos 0 5, r1, +ℤ-pos 5 1, r2, +ℤ-pos 6 4, r3))
        | inr (call_id, r3) ↦ elim (read_int uint32 bs (pos 14)) [
          | inl (e, r4) ↦
              inl (e, rw (b, +ℤ-pos 0 5, r1, +ℤ-pos 5 1, r2, +ℤ-pos 6 4, r3, +ℤ-pos 10 4, r4))
          | inr (size, r4) ↦ inr (
            (version, rr_id, call_id, size),
            rw (b, +ℤ-pos 0 5, r1, +ℤ-pos 5 1, r2, +ℤ-pos 6 4, r3, +ℤ-pos 10 4, r4, +ℤ-pos 14 4),
          )
        ]
      ]
    ]
  ]
]

-- `_have_packet` returns a `bool` or raises `NetworkError`.
abbrev pub IsDecided : Result Bool → Type 0
IsDecided r = (r ≡ err network_error) ⊎ ((b : Bool) × (r ≡ ok b))

check_end-IsDecided : (buffer : Bytes) (expected : ℤ) → IsDecided (check_end buffer expected)
unfolding check_end
check_end-IsDecided buffer expected = elim (Bool-cases (leb_ℤ expected (pos (length buffer)))) [
  | inr e ↦ inr (false, rw (e, check_end))
  | inl e ↦
      elim (Bool-cases (slice buffer (expected +ℤ negsuc (length tag - 1)) expected ==b tag)) [
        | inl e' ↦ inr (true, rw (e, e', check_end))
        | inr e' ↦ inl (rw (e, e', check_end))
      ]
]

check_header-IsDecided :
    (buffer : Bytes) (h : ℤ × ℤ × Value × ℤ) → IsDecided (check_header buffer (header_values h).0)
unfolding check_header
check_header-IsDecided buffer (version, rr_id, call_id, size) =
    elim (Bool-cases (leb_ℤ (pos proto_version_min) version)) [
      | inr e ↦ inl (rw e)
      | inl e ↦ rw e (check_end-IsDecided buffer (pos minimum_packet_size +ℤ size))
    ]

-- Whatever the buffer holds, `_have_packet` returns or raises `NetworkError`, and nothing else.
pub have_packet-IsDecided : (buffer : Bytes) → IsDecided (have_packet buffer)
unfolding have_packet
have_packet-IsDecided buffer = elim (Bool-cases (ltb (length buffer) minimum_packet_size)) [
  | inl e ↦ inr (false, rw (e, have_packet))
  | inr e ↦ elim (Bool-cases (slice buffer (pos 0) (pos (length tag)) ==b tag)) [
    | inr e' ↦ inl (rw (e, e', have_packet))
    | inl e' ↦ elim (header_read buffer) [
      | inl (x, r) ↦ inl (rw (e, e', r, have_packet))
      | inr (h, r) ↦ rw (e, e', r, have_packet) (check_header-IsDecided buffer h)
    ]
  ]
]
