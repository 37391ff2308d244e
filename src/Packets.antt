-- ===== src/Packets.antt =====
-- suplalite/packets.py: calls framed as `DataPacket`s on a byte stream. The stream reader and writer
-- are asyncio's: what each read returns, and whether a write is taken, are arguments.
pub mod Frame
pub mod Detect
pub mod Next
pub mod Deliver
pub mod Session
pub mod Errors
pub mod Outcomes
use suplalite.Common.{
  ℕ, zero, suc, ◌+◌, ◌-◌, ◌^◌, Bool, true, false, not, List, [], ◌∷◌, ◌++◌, ltb, ◌==◌, get_elem?,
  none, some, if◌then◌else◌, length,
}
use suplalite.Common.Int.{ℤ, pos, ◌+ℤ◌, negsuc, leb_ℤ}
use suplalite.Python.Result.{Error, Result, ok, err, ◌>>=◌, ◌>>◌, network_error, index_error}
use suplalite.Python.Bytes.{Bytes, ◌==b◌, slice, slice_from}
use suplalite.Encoding.Schema.{Schema}
use suplalite.Encoding.Value.{Value, Attrs, nil, attr, getattr, as_int, as_enum, as_bytes}
use suplalite.Encoding.Fields.{fields}
use suplalite.Encoding.Encode.{encode}
use suplalite.Encoding.Decode.{decode, partial_decode}
use suplalite.Proto.Constants.{tag, proto_version_min, proto_version}
use suplalite.Proto.Packets.{data_packet}

abbrev pub max_rr_id : ℕ
max_rr_id = 2 ^ 31 - 1

pub record Packet : Type 0 where
  pub call_id : ℕ
  pub payload : Bytes

-- `DataPacket(version, rr_id, call_id, data)`
abbrev pub data_packet_attrs : (version : ℤ) (rr_id : ℕ) → Packet → Attrs
data_packet_attrs version rr_id p = attr "version" (Value.int version) (
    attr "rr_id" (Value.int (pos rr_id))
      (attr "call_id" (Value.enum (pos p.call_id)) (attr "data" (Value.bytes p.payload) nil)))

abbrev length_or_zero : Result Bytes → ℕ
length_or_zero (ok bs) = length bs
length_or_zero (err e) = 0

abbrev ping : Packet
ping = record { call_id = 40; payload = [] }

-- `MINIMUM_PACKET_SIZE`: the length of an encoded packet with no data.
unfoldable pub minimum_packet_size : ℕ
unfolding encode fields
minimum_packet_size =
    length_or_zero (encode (fields data_packet) (data_packet_attrs (pos 0) 0 ping))

pub record PacketStream : Type 0 where
  pub recv_buffer : Bytes
  pub next_send_rr_id : ℕ
  pub version : ℤ

abbrev pub connected : PacketStream
connected = record { recv_buffer = []; next_send_rr_id = 1; version = pos proto_version }

-- `fields[i]` of a partly decoded packet
unfoldable pub int_at : List Value → ℕ → Result ℤ
int_at vs i = elim (get_elem? vs i) [ none ↦ err index_error | some v ↦ as_int v ]

-- `except Exception: raise NetworkError`
abbrev pub or_network_error {ℓ} : {A : Type ℓ} → Result A → Result A
or_network_error (ok a) = ok a
or_network_error (err e) = err network_error

-- the end tag check of `_have_packet`, and what follows it
unfoldable pub check_end : Bytes → ℤ → Result Bool
check_end buffer expected =
    if not (leb_ℤ expected (pos (length buffer)))
    then ok false
    else if slice buffer (expected +ℤ negsuc (length tag - 1)) expected ==b tag
    then ok true
    else err network_error

unfoldable pub check_header : Bytes → List Value → Result Bool
unfolding check_end int_at minimum_packet_size
check_header buffer vs = do
  version ← int_at vs 1
  (if not (leb_ℤ (pos proto_version_min) version) then err network_error else ok tt)
  size ← int_at vs 4
  check_end buffer (pos minimum_packet_size +ℤ size)

-- `_have_packet`
unfoldable pub have_packet : Bytes → Result Bool
unfolding check_header
have_packet buffer =
    if ltb (length buffer) minimum_packet_size
    then ok false
    else if not (slice buffer (pos 0) (pos (length tag)) ==b tag)
    then err network_error
    else do
      (vs, _) ← or_network_error (partial_decode (fields data_packet) buffer 5)
      check_header buffer vs

abbrev min_ℤ : ℤ → ℤ → ℤ
min_ℤ a b = if leb_ℤ a b then a else b

-- the number of an `Enum` member, which is not negative
abbrev number : ℤ → ℕ
number (pos n) = n
number (negsuc n) = 0

-- `_next_packet`
unfoldable pub next_packet : PacketStream → Result (Packet × PacketStream)
next_packet s = do
  (msg, size) ← decode (fields data_packet) s.recv_buffer
  v ← getattr msg "version"
  version ← as_int v
  c ← getattr msg "call_id"
  call_id ← as_enum c
  d ← getattr msg "data"
  payload ← as_bytes d
  ok (
    record { call_id = number call_id; payload = payload },
    record s {
      recv_buffer = slice_from s.recv_buffer size;
      version = min_ℤ version (pos proto_version);
    },
  )

-- What a read of the stream reader gives: data, or one of the two errors that `recv` turns into a
-- `NetworkError`. After the last read of the list the stream is at its end.
pub data Read : Type 0 where
  received : Bytes → Read
  connection_reset abrupt_close : Read

abbrev Received : Type 0
Received = Packet × PacketStream × List Read

abbrev deliver : PacketStream → List Read → Result Received
deliver s reads = do (p, s') ← next_packet s; ok (p, s', reads)

abbrev on_packet : Result Bool → Result Received → Result Received → Result Received
on_packet (err e) delivered more = err e
on_packet (ok true) delivered more = delivered
on_packet (ok false) delivered more = more

-- `recv`, with the reads that it may make; the reads that it did not make come back. An empty read
-- is the end of the stream.
unfoldable pub recv : PacketStream → List Read → Result Received
recv s [] = on_packet (have_packet s.recv_buffer) (deliver s []) (err network_error)
recv s (received chunk ∷ reads) =
    let rest = recv (record s { recv_buffer = s.recv_buffer ++ chunk }) reads in
    on_packet (have_packet s.recv_buffer) (deliver s (received chunk ∷ reads))
      (if length chunk == 0 then err network_error else rest)
recv s (r ∷ reads) =
    on_packet (have_packet s.recv_buffer) (deliver s (r ∷ reads)) (err network_error)

-- `_advance_send_rr_id`
unfoldable pub advance_send_rr_id : PacketStream → PacketStream
advance_send_rr_id s = record s {
  next_send_rr_id = if ltb s.next_send_rr_id max_rr_id then s.next_send_rr_id + 1 else 1;
}

-- `send`: the bytes that go to the writer, or the error, and the stream after the call. The id
-- advances before the write, and stays advanced if the writer raises (`is_open` is false).
unfoldable pub send : PacketStream → Packet → (is_open : Bool) → Result Bytes × PacketStream
unfolding advance_send_rr_id
send s p is_open =
    elim (encode (fields data_packet) (data_packet_attrs s.version s.next_send_rr_id p)) [
      | err e ↦ (err e, s)
      | ok bs ↦ (if is_open then ok bs else err network_error, advance_send_rr_id s)
    ]
