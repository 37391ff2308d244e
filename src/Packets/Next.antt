-- ===== src/Packets/Next.antt =====
-- `_next_packet` on a buffer that starts with a packet.
use suplalite.Common.{ℕ, ◌+◌, ◌≡◌, refl, ap, true, ◌++◌, arith, length}
use suplalite.Common.Int.{ℤ, pos}
use suplalite.Python.Result.{ok}
use suplalite.Python.Bytes.{Bytes, slice_from-append}
use suplalite.Encoding.Value.{getattr}
use suplalite.Encoding.Fields.{fields}
use suplalite.Encoding.Encode.{size_value, find, len, terminator}
use suplalite.Encoding.Decode.{decode}
use suplalite.Encoding.Fits.{FitsMessage}
use suplalite.Encoding.WellFormed.{well_formed}
use suplalite.Encoding.RoundTrip.{decode-encode}
use suplalite.Proto.Constants.{proto_version}
use suplalite.Proto.Packets.{data_packet}
use suplalite.Packets.{Packet, PacketStream, next_packet, data_packet_attrs, min_ℤ}
use suplalite.Packets.Frame.{IsPacket, frame, encode-frame}

module _ (version : ℤ) (rr_id : ℕ) (p : Packet) (good : IsPacket version rr_id p) where
  packet-FitsMessage : FitsMessage (fields data_packet) (data_packet_attrs version rr_id p)
  unfolding fields size_value getattr find len terminator
  packet-FitsMessage = (
    refl,
    good.version_range,
    (
      refl,
      good.rr_id_range,
      (
        refl,
        (good.known_call, good.call_range),
        (
          record {
            size = length p.payload;
            counts = let e : length p.payload + 0 ≡ length p.payload = omega arith in ap ok e;
            in_range = omega (arith, good.room);
          },
          (refl, good.room, tt),
        ),
      ),
    ),
  )

  data_packet-well_formed : well_formed (fields data_packet) ≡ true
  unfolding well_formed fields
  data_packet-well_formed = refl

  pub decode-frame :
      (rest : Bytes)
      → decode (fields data_packet) (frame version rr_id p ++ rest)
        ≡ ok (data_packet_attrs version rr_id p, pos (length (frame version rr_id p)))
  decode-frame rest =
      let (bs, wrote, read) =
        decode-encode (fields data_packet) (data_packet_attrs version rr_id p) rest
          data_packet-well_formed packet-FitsMessage in
      let e : bs ≡ frame version rr_id p =
        let known = encode-frame version rr_id p good.room in cc in
      rw e at read

  -- The stream after a packet has been taken from it.
  pub next_packet-frame :
      (s : PacketStream) (rest : Bytes)
      → s.recv_buffer ≡ frame version rr_id p ++ rest
      → next_packet s
        ≡ ok (p, record s { recv_buffer = rest; version = min_ℤ version (pos proto_version) })
  unfolding next_packet getattr
  next_packet-frame s rest e =
      rw (e, decode-frame rest, slice_from-append (frame version rr_id p) rest)
