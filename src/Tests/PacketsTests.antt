-- ===== src/Tests/PacketsTests.antt =====
-- A ping and an empty call on one connection.
use suplalite.Common.{
  ℕ, ◌≡◌, ◌≢◌, refl, true, false, List, [], ◌∷◌, ◌++◌, length, arith, replicate, length-replicate,
  All,
}
use suplalite.Common.Int.{pos}
use suplalite.Python.Result.{ok, err, assertion_error, network_error}
use suplalite.Python.Bytes.{Bytes, slice}
use suplalite.Python.Word.{pack}
use suplalite.Encoding.Decode.{is_member}
use suplalite.Proto.Enums.{values}
use suplalite.Proto.Calls.{call}
use suplalite.Encoding.Encode.{encode}
use suplalite.Encoding.Fields.{fields}
use suplalite.Proto.Constants.{tag}
use suplalite.Packets.{
  minimum_packet_size, Packet, PacketStream, connected, received, connection_reset, have_packet,
  recv, send, advance_send_rr_id,
}
use suplalite.Packets.Frame.{IsPacket, frame, header}
use suplalite.Packets.Detect.{have_packet-frame, have_packet-partial}
use suplalite.Packets.Deliver.{Delivered, recv-frame, recv-frame_cut, joined, IsChunk}
use suplalite.Packets.Session.{
  IsRunning, IsSendable, send_each, frames, ReceivedAll, send_each-IsRunning, recv_each-send_each,
  advance_send_rr_id-IsRunning,
}
use suplalite.Packets.Outcomes.{IsDecided, have_packet-IsDecided}
use suplalite.Packets.Errors.{recv-oversize}

abbrev ping : Packet
ping = record { call_id = 40; payload = 1 ∷ 2 ∷ [] }

abbrev get_version : Packet
get_version = record { call_id = 10; payload = [] }

known_ping : is_member (pos 40) (values call) ≡ true
unfolding is_member
known_ping = refl

known_get_version : is_member (pos 10) (values call) ≡ true
unfolding is_member
known_get_version = refl

ping-IsPacket : IsPacket (pos 23) 1 ping
ping-IsPacket = record {
  version_range = omega arith;
  rr_id_range = omega arith;
  known_call = known_ping;
  call_range = omega arith;
  room = omega arith;
}

ping-IsSendable : IsSendable ping
ping-IsSendable = record { known_call = known_ping; call_range = omega arith; room = omega arith }

get_version-IsSendable : IsSendable get_version
get_version-IsSendable = record {
  known_call = known_get_version;
  call_range = omega arith;
  room = omega arith;
}

connected-IsRunning : IsRunning connected
connected-IsRunning = record {
  first_id = omega arith;
  last_id = omega arith;
  version_range = omega arith;
  supported = refl;
}

abbrev ping_bytes : Bytes
ping_bytes = tag ++ 23 ∷ 1 ∷ 0 ∷ 0 ∷ 0 ∷ 40 ∷ 0 ∷ 0 ∷ 0 ∷ 2 ∷ 0 ∷ 0 ∷ 0 ∷ 1 ∷ 2 ∷ tag

ping-frame : frame (pos 23) 1 ping ≡ ping_bytes
unfolding pack
ping-frame = refl

have_packet-frame_example : have_packet (frame (pos 23) 1 ping ++ 7 ∷ []) ≡ ok true
have_packet-frame_example = have_packet-frame (pos 23) 1 ping ping-IsPacket refl (7 ∷ [])

abbrev part : Bytes
part =
    tag
    ++ 23 ∷ 1 ∷ 0 ∷ 0 ∷ 0 ∷ 40 ∷ 0 ∷ 0 ∷ 0 ∷ 2 ∷ 0 ∷ 0 ∷ 0 ∷ 1 ∷ 2 ∷ b'S' ∷ b'U' ∷ b'P' ∷ b'L' ∷ []

part-frame : part ++ b'A' ∷ [] ≡ frame (pos 23) 1 ping
unfolding pack
part-frame = refl

have_packet-partial_example : have_packet part ≡ ok false
have_packet-partial_example =
    have_packet-partial (pos 23) 1 ping ping-IsPacket refl part b'A' [] part-frame

abbrev chunks : List Bytes
chunks =
    tag
    ∷ (23 ∷ 1 ∷ 0 ∷ [])
    ∷ (0 ∷ 0 ∷ 40 ∷ 0 ∷ 0 ∷ 0 ∷ 2 ∷ 0 ∷ 0 ∷ 0 ∷ 1 ∷ [])
    ∷ (2 ∷ tag ++ 9 ∷ [])
    ∷ []

chunks-frame : joined chunks ≡ frame (pos 23) 1 ping ++ 9 ∷ []
unfolding pack
chunks-frame = refl

chunks-IsChunk : All IsChunk chunks
chunks-IsChunk = (omega arith, (omega arith, (omega arith, (omega arith, tt))))

recv-frame_example : Delivered connected chunks (pos 23) ping (9 ∷ [])
recv-frame_example =
    recv-frame (pos 23) 1 ping ping-IsPacket refl connected chunks (9 ∷ []) chunks-IsChunk
      chunks-frame

part-frame_cut : (connected.recv_buffer ++ joined (part ∷ [])) ++ b'A' ∷ [] ≡ frame (pos 23) 1 ping
unfolding pack
part-frame_cut = refl

recv-frame_cut_example : recv connected (received part ∷ connection_reset ∷ []) ≡ err network_error
recv-frame_cut_example =
    recv-frame_cut (pos 23) 1 ping ping-IsPacket refl connected (part ∷ []) b'A' []
      (connection_reset ∷ []) (omega arith, tt) part-frame_cut tt

advance_send_rr_id-IsRunning_example :
    IsRunning (advance_send_rr_id connected)
    × ((advance_send_rr_id connected).next_send_rr_id ≢ connected.next_send_rr_id)
advance_send_rr_id-IsRunning_example = advance_send_rr_id-IsRunning connected connected-IsRunning

abbrev both : List Packet
both = ping ∷ get_version ∷ []

both-IsSendable : All IsSendable both
both-IsSendable = (ping-IsSendable, (get_version-IsSendable, tt))

send_each-IsRunning_example :
    (s : PacketStream) × (send_each connected both ≡ ok (frames connected both, s)) × IsRunning s
send_each-IsRunning_example = send_each-IsRunning connected both connected-IsRunning both-IsSendable

abbrev both_bytes : Bytes
both_bytes = ping_bytes ++ (tag ++ 23 ∷ 2 ∷ 0 ∷ 0 ∷ 0 ∷ 10 ∷ 0 ∷ 0 ∷ 0 ∷ 0 ∷ 0 ∷ 0 ∷ 0 ∷ tag)

abbrev sent : PacketStream
sent = record { recv_buffer = []; next_send_rr_id = 3; version = pos 23 }

both-send_each : send_each connected both ≡ ok (both_bytes, sent)
unfolding send_each send encode fields pack advance_send_rr_id
both-send_each = refl

recv_each-send_each_example : ReceivedAll connected both (both_bytes ∷ []) []
recv_each-send_each_example =
    recv_each-send_each connected connected sent both both_bytes (both_bytes ∷ []) []
      connected-IsRunning both-IsSendable both-send_each (omega arith, tt) refl

unfoldable zeros : ℕ → Bytes
zeros n = replicate n 0

length-zeros : (n : ℕ) → length (zeros n) ≡ n
unfolding zeros
length-zeros n = length-replicate n 0

abbrev oversize : Bytes
oversize = header (pos 23) 1 40 (length (zeros 10241)) ++ (zeros 10241 ++ (tag ++ []))

abbrev holding : PacketStream
holding = record connected { recv_buffer = oversize }

recv-oversize_example : (have_packet oversize ≡ ok true) × (recv holding [] ≡ err assertion_error)
recv-oversize_example =
    recv-oversize (pos 23) 1 40 (zeros 10241) (omega arith) (omega arith) known_ping (omega arith)
      (omega (arith, length-zeros 10241)) refl (omega (arith, length-zeros 10241)) holding [] []
      refl

have_packet-IsDecided_example : IsDecided (have_packet (b'H' ∷ b'T' ∷ b'T' ∷ b'P' ∷ part))
have_packet-IsDecided_example = have_packet-IsDecided (b'H' ∷ b'T' ∷ b'T' ∷ b'P' ∷ part)

foreign : have_packet (b'H' ∷ b'T' ∷ b'T' ∷ b'P' ∷ part) ≡ err network_error
unfolding have_packet minimum_packet_size pack slice
foreign = refl
