-- ===== src/Packets/Frame.antt =====
-- The bytes of a packet: start tag, version, id, call, length, data, end tag.
use suplalite.Common.{
  false, ℕ, ◌+◌, ◌^◌, ◌≤◌, ◌<◌, ◌≡◌, refl, true, [], ◌∷◌, ◌++◌, arith, length, append_assoc, le→leb,
}
use suplalite.Common.Int.{ℤ, pos, leb_ℤ, ◌+ℤ◌, +ℤ-pos}
use suplalite.Python.Result.{assertion_error, ok, err}
use suplalite.Python.Bytes.{Bytes, slice}
use suplalite.Python.Word.{Ctype, uint8, uint32, size_of, pack, InRange}
use suplalite.Encoding.Schema.{Typ, int, enum}
use suplalite.Encoding.Value.{Value}
use suplalite.Encoding.Fields.{fields}
use suplalite.Encoding.Encode.{encode}
use suplalite.Encoding.Decode.{decode, partial_decode, is_member, size_at, decode_ctype, convert}
use suplalite.Encoding.At.{At, At-start, At-left, At-next, slice-At}
use suplalite.Encoding.Scalars.{length-pack, decode_ctype-At}
use suplalite.Proto.Constants.{tag, max_data_size}
use suplalite.Proto.Enums.{values}
use suplalite.Proto.Calls.{call}
use suplalite.Proto.Packets.{data_packet}
use suplalite.Packets.{Packet, data_packet_attrs, minimum_packet_size}

-- What a packet may hold.
pub record IsPacket (version : ℤ) (rr_id : ℕ) (p : Packet) : Type 0 where
  pub version_range : InRange uint8 version
  pub rr_id_range : rr_id < 2 ^ 32
  pub known_call : is_member (pos p.call_id) (values call) ≡ true
  pub call_range : p.call_id < 2 ^ 32
  pub room : length p.payload ≤ max_data_size

abbrev pub header : (version : ℤ) (rr_id call_id size : ℕ) → Bytes
header version rr_id call_id size =
    tag
    ++ (pack uint8 version
        ++ (pack uint32 (pos rr_id) ++ (pack uint32 (pos call_id) ++ pack uint32 (pos size))))

abbrev pub frame : ℤ → ℕ → Packet → Bytes
frame version rr_id p = header version rr_id p.call_id (length p.payload) ++ (p.payload ++ tag)

pub minimum_packet_size_lem : minimum_packet_size ≡ 23
unfolding minimum_packet_size pack
minimum_packet_size_lem = refl

-- What `encode` makes of a packet.
pub encode-frame :
    (version : ℤ) (rr_id : ℕ) (p : Packet)
    → length p.payload ≤ max_data_size
    → encode (fields data_packet) (data_packet_attrs version rr_id p) ≡ ok (frame version rr_id p)
unfolding encode fields
encode-frame version rr_id p h =
    let e : length p.payload + 0 ≡ length p.payload = omega arith in
    rw (le→leb _ _ h) (rw e (simp append_assoc))

above_limit : (n : ℕ) → max_data_size < n → leb_ℤ (pos n) (pos max_data_size) ≡ false
above_limit n h = ground arith

-- A field of the header is read where it stands.
field-At :
    (c : Ctype) (t : Typ) (z : ℤ) (v : Value) (bs : Bytes) (offset : ℕ)
    → InRange c z
    → convert t z ≡ ok v
    → At bs offset (pack c z)
    → decode_ctype c t bs (pos offset) ≡ ok (v, pos (size_of c))
field-At c t z v bs offset h e a = rw (← length-pack c z) (decode_ctype-At c t z v bs offset h e a)

module _ (version : ℤ) (rr_id call_id size : ℕ) (version_range : InRange uint8 version)
    (rr_id_range : rr_id < 2 ^ 32) (known_call : is_member (pos call_id) (values call) ≡ true)
    (call_range : call_id < 2 ^ 32) (size_range : size < 2 ^ 32) where
  -- What the decoders read of a header, whatever follows it.
  pub record Header (bs : Bytes) : Type 0 where
    pub tag_read : slice bs (pos 0) (pos 0 +ℤ pos 5) ≡ tag
    pub version_read : decode_ctype uint8 int bs (pos 5) ≡ ok (Value.int version, pos 1)
    pub rr_id_read : decode_ctype uint32 int bs (pos 6) ≡ ok (Value.int (pos rr_id), pos 4)
    pub call_read :
        decode_ctype uint32 (enum (values call)) bs (pos 10) ≡ ok (Value.enum (pos call_id), pos 4)
    pub size_read : decode_ctype uint32 int bs (pos 14) ≡ ok (Value.int (pos size), pos 4)

  pub header-Header : (more : Bytes) → Header (header version rr_id call_id size ++ more)
  header-Header more =
      let a0 = At-start (header version rr_id call_id size) more in
      let a5 = At-next tag _ 5 (omega arith) a0 in
      let a6 = At-next (pack uint8 version) _ 6 (omega (arith, length-pack uint8 version)) a5 in
      let a10 =
        At-next (pack uint32 (pos rr_id)) _ 10 (omega (arith, length-pack uint32 (pos rr_id))) a6 in
      let a14 =
        At-next (pack uint32 (pos call_id)) _ 14 (omega (arith, length-pack uint32 (pos call_id)))
          a10 in
      record {
        tag_read = slice-At tag (At-left tag _ a0) 5 refl;
        version_read =
            field-At uint8 int version _ _ 5 version_range (unfold convert in refl)
              (At-left (pack uint8 version) _ a5);
        rr_id_read =
            field-At uint32 int (pos rr_id) _ _ 6 rr_id_range (unfold convert in refl)
              (At-left (pack uint32 (pos rr_id)) _ a6);
        call_read =
            field-At uint32 (enum (values call)) (pos call_id) _ _ 10 call_range
              (unfold convert in rw known_call) (At-left (pack uint32 (pos call_id)) _ a10);
        size_read = field-At uint32 int (pos size) _ _ 14 size_range (unfold convert in refl) a14;
      }

  -- The five fields in front of the data, whatever follows them.
  pub partial_decode-header :
      (more : Bytes)
      → partial_decode (fields data_packet) (header version rr_id call_id size ++ more) 5
        ≡ ok (
          Value.bytes tag
              ∷ Value.int version
              ∷ Value.int (pos rr_id)
              ∷ Value.enum (pos call_id)
              ∷ Value.int (pos size)
              ∷ [],
          pos 18,
        )
  unfolding partial_decode fields
  partial_decode-header more =
      let h = header-Header more in
      rw (
        h.tag_read,
        +ℤ-pos 0 5,
        h.version_read,
        +ℤ-pos 5 1,
        h.rr_id_read,
        +ℤ-pos 6 4,
        h.call_read,
        +ℤ-pos 10 4,
        h.size_read,
        +ℤ-pos 14 4,
      )

  -- A size above the limit is refused by an assertion.
  pub decode-header_oversize :
      (more : Bytes)
      → max_data_size < size
      → decode (fields data_packet) (header version rr_id call_id size ++ more)
        ≡ err assertion_error
  unfolding decode fields size_at
  decode-header_oversize more big =
      let h = header-Header more in
      rw (
        h.tag_read,
        +ℤ-pos 0 5,
        h.version_read,
        +ℤ-pos 5 1,
        h.rr_id_read,
        +ℤ-pos 6 4,
        h.call_read,
        +ℤ-pos 10 4,
        h.size_read,
        above_limit size big,
      )
