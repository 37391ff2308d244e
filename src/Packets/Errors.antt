-- ===== src/Packets/Errors.antt =====
-- What `_have_packet` and `recv` do with data that is not a packet.
use suplalite.Common.{
  ℕ, ◌+◌, ◌^◌, ◌<◌, ◌≡◌, sym, ap, ◌∙◌, true, List, [], ◌∷◌, ◌++◌, arith, length, append_assoc,
  length-append,
}
use suplalite.Common.Int.{ℤ, pos, leb_ℤ}
use suplalite.Python.Result.{Error, assertion_error, ok, err}
use suplalite.Python.Bytes.{Bytes}
use suplalite.Python.Word.{uint8, InRange}
use suplalite.Encoding.Decode.{is_member}
use suplalite.Proto.Constants.{tag, proto_version_min, max_data_size}
use suplalite.Proto.Enums.{values}
use suplalite.Proto.Calls.{call}
use suplalite.Packets.{PacketStream, Read, received, recv, have_packet, next_packet}
use suplalite.Packets.Frame.{header, decode-header_oversize}
use suplalite.Packets.Detect.{have_packet-header, check_end-tag, length-header}

recv_refused :
    (s : PacketStream) (rs : List Read) (e : Error)
    → have_packet s.recv_buffer ≡ ok true
    → next_packet s ≡ err e
    → recv s rs ≡ err e
unfolding recv
recv_refused s [] e whole refused = rw (whole, refused)
recv_refused s (received chunk ∷ rs) e whole refused = rw (whole, refused)
recv_refused s (r ∷ rs) e whole refused = rw (whole, refused)

module _ (version : ℤ) (rr_id call_id : ℕ) (payload : Bytes) (version_range : InRange uint8 version)
    (rr_id_range : rr_id < 2 ^ 32) (known_call : is_member (pos call_id) (values call) ≡ true)
    (call_range : call_id < 2 ^ 32) (size_range : length payload < 2 ^ 32)
    (supported : leb_ℤ (pos proto_version_min) version ≡ true)
    (oversize : max_data_size < length payload) where
  -- A complete packet at the start of the buffer, with a good header but more than `MAX_DATA_SIZE`
  -- bytes of data, makes `_have_packet` return `True` and `recv` raise `AssertionError`.
  pub recv-oversize :
      (s : PacketStream) (rest : Bytes) (more : List Read)
      → s.recv_buffer ≡ header version rr_id call_id (length payload) ++ (payload ++ (tag ++ rest))
      → (have_packet s.recv_buffer ≡ ok true) × (recv s more ≡ err assertion_error)
  unfolding next_packet
  recv-oversize s rest more e =
      let hd = header version rr_id call_id (length payload) in
      let n : length (hd ++ payload) + 5 ≡ 23 + length payload =
        omega
          (arith, length-append hd payload, length-header version rr_id call_id (length payload)) in
      let whole : have_packet s.recv_buffer ≡ ok true =
        ap have_packet e
        ∙ have_packet-header version rr_id call_id (length payload) version_range rr_id_range
            known_call call_range size_range supported (payload ++ (tag ++ rest))
            (omega (arith, length-append payload (tag ++ rest)))
        ∙ rw (sym (append_assoc hd payload (tag ++ rest)), ← n)
            (check_end-tag (hd ++ payload) rest) in
      (
        whole,
        recv_refused s more assertion_error whole (
            rw (
              e,
              decode-header_oversize version rr_id call_id (length payload) version_range
                  rr_id_range known_call call_range size_range (payload ++ (tag ++ rest)) oversize,
            )),
      )
