-- ===== src/Packets/Session.antt =====
-- `send` on one side and `recv` on the other: a sequence of packets on one connection.
use suplalite.Common.{
  ℕ, zero, suc, ◌^◌, ◌≤◌, ◌<◌, ◌≡◌, ◌≢◌, refl, ap, ◌∙◌, true, List, [], ◌∷◌, ◌++◌, arith, length,
  append_assoc, All,
}
use suplalite.Common.Int.{pos, leb_ℤ}
use suplalite.Python.Result.{Result, ok, ◌>>=◌}
use suplalite.Python.Bytes.{Bytes}
use suplalite.Python.Word.{uint8, InRange}
use suplalite.Encoding.Decode.{is_member}
use suplalite.Proto.Constants.{proto_version_min, proto_version, max_data_size}
use suplalite.Proto.Enums.{values}
use suplalite.Proto.Calls.{call}
use suplalite.Packets.{Packet, PacketStream, max_rr_id, Read, recv, send, advance_send_rr_id, min_ℤ}
use suplalite.Packets.Frame.{IsPacket, frame, encode-frame}
use suplalite.Packets.Deliver.{recv-frame, reads, joined, IsChunk}

-- A stream between two calls: its next id is one of 1 .. 2^31 - 1, and its version is supported.
pub record IsRunning (s : PacketStream) : Type 0 where
  pub first_id : 1 ≤ s.next_send_rr_id
  pub last_id : s.next_send_rr_id ≤ max_rr_id
  pub version_range : InRange uint8 s.version
  pub supported : leb_ℤ (pos proto_version_min) s.version ≡ true

-- A packet that can be sent.
pub record IsSendable (p : Packet) : Type 0 where
  pub known_call : is_member (pos p.call_id) (values call) ≡ true
  pub call_range : p.call_id < 2 ^ 32
  pub room : length p.payload ≤ max_data_size

IsRunning-IsPacket :
    (s : PacketStream) (p : Packet)
    → IsRunning s
    → IsSendable p
    → IsPacket s.version s.next_send_rr_id p
IsRunning-IsPacket s p running good = record {
  version_range = running.version_range;
  rr_id_range = omega (arith, running.last_id);
  known_call = good.known_call;
  call_range = good.call_range;
  room = good.room;
}

-- `send` writes one frame, and then its id advances.
pub send-frame :
    (s : PacketStream) (p : Packet)
    → length p.payload ≤ max_data_size
    → send s p true ≡ (ok (frame s.version s.next_send_rr_id p), advance_send_rr_id s)
unfolding send
send-frame s p room = rw (encode-frame s.version s.next_send_rr_id p room, send)

-- A running stream stays running when its id advances, so the id stays within 1 .. 2^31 - 1, and the
-- id changes.
pub advance_send_rr_id-IsRunning :
    (s : PacketStream)
    → IsRunning s
    → IsRunning (advance_send_rr_id s)
      × ((advance_send_rr_id s).next_send_rr_id ≢ s.next_send_rr_id)
unfolding advance_send_rr_id
advance_send_rr_id-IsRunning s running = (
  record {
    first_id = ground (arith, running.first_id);
    last_id = ground (arith, running.last_id);
    version_range = running.version_range;
    supported = running.supported;
  },
  λ e. ground (arith, e, running.last_id, running.first_id),
)

-- `send` for each packet in turn, on an open connection: the bytes written.
unfoldable pub send_each : PacketStream → List Packet → Result (Bytes × PacketStream)
send_each s [] = ok ([], s)
send_each s (p ∷ ps) =
    let (written, s') = send s p true in
    do bs ← written; (more, s'') ← send_each s' ps; ok (bs ++ more, s'')

-- As many calls of `recv`.
unfoldable pub recv_each :
    ℕ → PacketStream → List Read → Result (List Packet × PacketStream × List Read)
recv_each zero s rs = ok ([], s, rs)
recv_each (suc n) s rs = do
  (p, s', rs') ← recv s rs
  (ps, s'', rs'') ← recv_each n s' rs'
  ok (p ∷ ps, s'', rs'')

-- The frames of a sequence of packets, by themselves.
unfoldable pub frames : PacketStream → List Packet → Bytes
frames s [] = []
frames s (p ∷ ps) = frame s.version s.next_send_rr_id p ++ frames (advance_send_rr_id s) ps

-- On a running stream every sequence of packets that can be sent is sent, as the frames of the
-- packets in their order, and the stream stays running.
pub send_each-IsRunning :
    (s : PacketStream) (ps : List Packet)
    → IsRunning s
    → All IsSendable ps
    → (s' : PacketStream) × (send_each s ps ≡ ok (frames s ps, s')) × IsRunning s'
unfolding send_each frames
send_each-IsRunning s [] running good = (s, refl, running)
send_each-IsRunning s (p ∷ ps) running good =
    let (s', sent, running') =
      send_each-IsRunning (advance_send_rr_id s) ps (advance_send_rr_id-IsRunning s running).0
        good.1 in
    (s', rw (send-frame s p good.0.room, sent), running')

-- What the receiver has after as many calls as packets were sent.
pub record ReceivedAll (r : PacketStream) (ps : List Packet) (chunks : List Bytes) (rest : Bytes)
    : Type 0 where
  pub after : PacketStream
  pub left : List Bytes
  pub returns : recv_each (length ps) r (reads chunks) ≡ ok (ps, after, reads left)
  pub unread : after.recv_buffer ++ joined left ≡ rest

recv_each-frames :
    (s r : PacketStream) (ps : List Packet) (chunks : List Bytes) (rest : Bytes)
    → IsRunning s
    → All IsSendable ps
    → All IsChunk chunks
    → r.recv_buffer ++ joined chunks ≡ frames s ps ++ rest
    → ReceivedAll r ps chunks rest
unfolding recv_each frames
recv_each-frames s r [] chunks rest running good h e = record {
  after = r;
  left = chunks;
  returns = refl;
  unread = e;
}
recv_each-frames s r (p ∷ ps) chunks rest running good h e =
    let more = frames (advance_send_rr_id s) ps in
    let d =
      recv-frame s.version s.next_send_rr_id p (IsRunning-IsPacket s p running good.0)
        running.supported r chunks (more ++ rest) h
        (e ∙ append_assoc (frame s.version s.next_send_rr_id p) more rest) in
    let a =
      recv_each-frames (advance_send_rr_id s)
        (record r { recv_buffer = d.buffer; version = min_ℤ s.version (pos proto_version) }) ps
        d.left rest (advance_send_rr_id-IsRunning s running).0 good.1 d.nonempty d.unread in
    record {
      after = a.after;
      left = a.left;
      returns = rw (d.returns, a.returns);
      unread = a.unread;
    }

-- When a running stream has sent a sequence of packets that can be sent, and a stream holds and will
-- read their bytes, cut into non-empty reads in any way, and more bytes behind them, then as many
-- calls of `recv` return the same packets in the same order and leave what is behind them.
pub recv_each-send_each :
    (s r s' : PacketStream) (ps : List Packet) (written : Bytes) (chunks : List Bytes)
    (rest : Bytes)
    → IsRunning s
    → All IsSendable ps
    → send_each s ps ≡ ok (written, s')
    → All IsChunk chunks
    → r.recv_buffer ++ joined chunks ≡ written ++ rest
    → ReceivedAll r ps chunks rest
recv_each-send_each s r s' ps written chunks rest running good sent h e =
    let (_, sent', _) = send_each-IsRunning s ps running good in
    let e' : written ≡ frames s ps = cc in
    recv_each-frames s r ps chunks rest running good h (e ∙ ap (λ t. t ++ rest) e')
