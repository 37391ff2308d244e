-- ===== src/Packets/Detect.antt =====
-- `_have_packet` on whole, partial and foreign data.
use suplalite.Common.{
  false, ℕ, suc, ◌+◌, ◌^◌, ◌≤◌, ◌<◌, ◌≡◌, sym, ap, ◌∙◌, true, ◌∷◌, ◌++◌, arith, length,
  append_assoc, length-append, lt→ltb, le→ltb, ltb, Bool-cases, inl, inr, ltb→lt, split_between,
}
use suplalite.Common.Int.{ℤ, pos, negsuc, leb_ℤ, ◌+ℤ◌, +ℤ-pos}
use suplalite.Python.Result.{ok}
use suplalite.Python.Bytes.{Bytes, slice, slice-append}
use suplalite.Python.Word.{uint8, InRange}
use suplalite.Encoding.Decode.{is_member}
use suplalite.Encoding.Scalars.{length-pack}
use suplalite.Proto.Constants.{tag, proto_version_min}
use suplalite.Proto.Enums.{values}
use suplalite.Proto.Calls.{call}
use suplalite.Packets.{Packet, have_packet, check_end}
use suplalite.Packets.Frame.{
  IsPacket, header, frame, minimum_packet_size_lem, partial_decode-header,
}

pub length-header :
    (version : ℤ) (rr_id call_id size : ℕ) → length (header version rr_id call_id size) ≡ 18
length-header version rr_id call_id size = simp (length-append, length-pack)

pub have_packet-short : (buffer : Bytes) → length buffer < 23 → have_packet buffer ≡ ok false
unfolding have_packet
have_packet-short buffer h = rw (minimum_packet_size_lem, lt→ltb _ _ h)

pub check_end-short :
    (buffer : Bytes) (n : ℕ) → length buffer < n → check_end buffer (pos n) ≡ ok false
unfolding check_end
check_end-short buffer n h = ground arith

module _ (version : ℤ) (rr_id call_id size : ℕ) (version_range : InRange uint8 version)
    (rr_id_range : rr_id < 2 ^ 32) (known_call : is_member (pos call_id) (values call) ≡ true)
    (call_range : call_id < 2 ^ 32) (size_range : size < 2 ^ 32)
    (supported : leb_ℤ (pos proto_version_min) version ≡ true) where
  -- Behind a good header, the end tag decides.
  pub have_packet-header :
      (more : Bytes)
      → 5 ≤ length more
      → have_packet (header version rr_id call_id size ++ more)
        ≡ check_end (header version rr_id call_id size ++ more) (pos (23 + size))
  unfolding have_packet slice
  have_packet-header more h =
      let e : ltb (length (header version rr_id call_id size ++ more)) 23 ≡ false = le→ltb _ _ (
        omega (
          arith,
          length-append (header version rr_id call_id size) more,
          length-header version rr_id call_id size,
        )) in
      rw (
        minimum_packet_size_lem,
        e,
        partial_decode-header version rr_id call_id size version_range rr_id_range known_call
            call_range size_range more,
        supported,
        +ℤ-pos 23 size,
      )

before_tag : (n : ℕ) → pos (n + 5) +ℤ negsuc 4 ≡ pos n
unfolding ◌+ℤ◌
before_tag n = ground arith

pub check_end-tag :
    (pre rest : Bytes) → check_end (pre ++ (tag ++ rest)) (pos (length pre + 5)) ≡ ok true
unfolding check_end
check_end-tag pre rest =
    let e : leb_ℤ (pos (length pre + 5)) (pos (length (pre ++ (tag ++ rest)))) ≡ true =
      ground (arith, length-append pre (tag ++ rest)) in
    rw (e, before_tag, slice-append pre tag rest)

module _ (version : ℤ) (rr_id : ℕ) (p : Packet) (good : IsPacket version rr_id p)
    (supported : leb_ℤ (pos proto_version_min) version ≡ true) where
  have_packet-body :
      (more : Bytes)
      → 5 ≤ length more
      → have_packet (header version rr_id p.call_id (length p.payload) ++ more)
        ≡ check_end
            (header version rr_id p.call_id (length p.payload) ++ more)
            (pos (23 + length p.payload))
  have_packet-body more h =
      have_packet-header version rr_id p.call_id (length p.payload) good.version_range
        good.rr_id_range good.known_call good.call_range (omega (arith, good.room)) supported more h

  -- A whole packet whose version is supported at the start of the buffer, whatever follows it, makes
  -- `_have_packet` return `True`.
  pub have_packet-frame : (rest : Bytes) → have_packet (frame version rr_id p ++ rest) ≡ ok true
  have_packet-frame rest =
      let hd = header version rr_id p.call_id (length p.payload) in
      let e : frame version rr_id p ++ rest ≡ hd ++ (p.payload ++ (tag ++ rest)) =
        append_assoc hd (p.payload ++ tag) rest
        ∙ ap (λ t. hd ++ t) (append_assoc p.payload tag rest) in
      let e' : hd ++ (p.payload ++ (tag ++ rest)) ≡ (hd ++ p.payload) ++ (tag ++ rest) =
        sym (append_assoc hd p.payload (tag ++ rest)) in
      let n : length (hd ++ p.payload) + 5 ≡ 23 + length p.payload = omega (
        arith,
        length-append hd p.payload,
        length-header version rr_id p.call_id (length p.payload),
      ) in
      ap have_packet e
      ∙ have_packet-body (p.payload ++ (tag ++ rest))
          (omega (arith, length-append p.payload (tag ++ rest)))
      ∙ rw (e', ← n) (check_end-tag (hd ++ p.payload) rest)

  long_partial :
      (part : Bytes) (b : ℕ) (rest : Bytes)
      → part ++ b ∷ rest ≡ frame version rr_id p
      → 23 ≤ length part
      → have_packet part ≡ ok false
  long_partial part b rest e h =
      let hd = header version rr_id p.call_id (length p.payload) in
      let n = length-header version rr_id p.call_id (length p.payload) in
      let (mid, e1, e2) =
        split_between part (b ∷ rest) hd (p.payload ++ tag) e (omega (arith, h, n)) in
      let l1 = length-append hd mid in
      let l2 : length p.payload + 5 ≡ length mid + suc (length rest) =
        sym (length-append p.payload tag) ∙ ap length e2 ∙ length-append mid (b ∷ rest) in
      let l3 : length part ≡ length (hd ++ mid) = ap length e1 in
      ap have_packet e1
      ∙ have_packet-body mid (omega (arith, h, n, l1, l3))
      ∙ check_end-short (hd ++ mid) (23 + length p.payload) (omega (arith, n, l1, l2))

  -- Every proper prefix of a packet whose version is supported makes `_have_packet` return `False`.
  pub have_packet-partial :
      (part : Bytes) (b : ℕ) (rest : Bytes)
      → part ++ b ∷ rest ≡ frame version rr_id p
      → have_packet part ≡ ok false
  have_packet-partial part b rest e = elim (Bool-cases (ltb (length part) 23)) [
    | inl short ↦ have_packet-short part (ltb→lt _ _ short)
    | inr long ↦ long_partial part b rest e (ground arith)
  ]
