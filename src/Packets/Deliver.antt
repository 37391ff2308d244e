-- ===== src/Packets/Deliver.antt =====
-- `recv` on a stream that carries a packet, in whatever pieces.
use suplalite.Common.{
  false, ℕ, ◌≤◌, ◌<◌, ◌≡◌, sym, ap, ◌∙◌, true, List, [], ◌∷◌, ◌++◌, arith, length, append_assoc,
  append-nil, length-append, ltb, Bool-cases, inl, inr, ltb→lt, split_between, map, All, ◌==◌,
}
use suplalite.Common.Int.{ℤ, pos, leb_ℤ}
use suplalite.Python.Result.{network_error, ok, err}
use suplalite.Python.Bytes.{Bytes}
use suplalite.Proto.Constants.{proto_version, proto_version_min}
use suplalite.Packets.{Packet, PacketStream, have_packet, min_ℤ, Read, received, recv}
use suplalite.Packets.Frame.{IsPacket, frame}
use suplalite.Packets.Detect.{have_packet-frame, have_packet-partial}
use suplalite.Packets.Next.{next_packet-frame}

-- Reads that each bring something.
abbrev pub reads : List Bytes → List Read
reads chunks = map received chunks

abbrev pub IsChunk : Bytes → Type 0
IsChunk chunk = 0 < length chunk

abbrev pub joined : List Bytes → Bytes
joined [] = []
joined (chunk ∷ chunks) = chunk ++ joined chunks

-- The stream is at its end, or the connection is lost, at the first of these reads.
abbrev pub IsBroken : List Read → Type 0
IsBroken [] = Unit
IsBroken (received [] ∷ _) = Unit
IsBroken (received (_ ∷ _) ∷ _) = ⊥
IsBroken (_ ∷ _) = Unit

-- The result of `recv`: the packet, the stream after it, and what it has left unread.
pub record Delivered (s : PacketStream) (chunks : List Bytes) (version : ℤ) (p : Packet)
    (rest : Bytes) : Type 0 where
  pub buffer : Bytes
  pub left : List Bytes
  pub returns :
      recv s (reads chunks)
      ≡ ok (
        p,
        record s { recv_buffer = buffer; version = min_ℤ version (pos proto_version) },
        reads left,
      )
  pub unread : buffer ++ joined left ≡ rest
  pub nonempty : All IsChunk left

module _ (version : ℤ) (rr_id : ℕ) (p : Packet) (good : IsPacket version rr_id p)
    (supported : leb_ℤ (pos proto_version_min) version ≡ true) where
  recv_whole :
      (s : PacketStream) (chunks : List Bytes) (mid : Bytes)
      → s.recv_buffer ≡ frame version rr_id p ++ mid
      → recv s (reads chunks)
        ≡ ok (
          p,
          record s { recv_buffer = mid; version = min_ℤ version (pos proto_version) },
          reads chunks,
        )
  unfolding recv
  recv_whole s [] mid e = rw (
    ap have_packet e,
    have_packet-frame version rr_id p good supported mid,
    next_packet-frame version rr_id p good s mid e,
  )
  recv_whole s (chunk ∷ chunks) mid e = rw (
    ap have_packet e,
    have_packet-frame version rr_id p good supported mid,
    next_packet-frame version rr_id p good s mid e,
  )

  recv_more :
      (s : PacketStream) (chunk : Bytes) (chunks : List Bytes) (rest : Bytes)
      → have_packet s.recv_buffer ≡ ok false
      → IsChunk chunk
      → Delivered (record s { recv_buffer = s.recv_buffer ++ chunk }) chunks version p rest
      → Delivered s (chunk ∷ chunks) version p rest
  unfolding recv
  recv_more s chunk chunks rest e h d =
      let nonempty : (length chunk == 0) ≡ false = ground arith in
      record {
        buffer = d.buffer;
        left = d.left;
        returns = rw (e, nonempty) d.returns;
        unread = d.unread;
        nonempty = d.nonempty;
      }

  partial_buffer :
      (buffer more rest : Bytes)
      → length buffer < length (frame version rr_id p)
      → buffer ++ more ≡ frame version rr_id p ++ rest
      → have_packet buffer ≡ ok false
  partial_buffer buffer more rest h e =
      let (mid, e1, e2) =
        split_between (frame version rr_id p) rest buffer more (sym e) (omega (arith, h)) in
      elim mid as (λ m. frame version rr_id p ≡ buffer ++ m → have_packet buffer ≡ ok false) [
        | [] ↦ λ e3. absurd (omega (arith, h, ap length e3, length-append buffer []))
        | b ∷ m ↦ λ e3. have_packet-partial version rr_id p good supported buffer b m (sym e3)
      ]
        e1

  recv_now :
      (s : PacketStream) (chunks : List Bytes) (rest : Bytes)
      → All IsChunk chunks
      → s.recv_buffer ++ joined chunks ≡ frame version rr_id p ++ rest
      → length (frame version rr_id p) ≤ length s.recv_buffer
      → Delivered s chunks version p rest
  recv_now s chunks rest h e long =
      let (mid, e1, e2) =
        split_between s.recv_buffer (joined chunks) (frame version rr_id p) rest e long in
      record {
        buffer = mid;
        left = chunks;
        returns = recv_whole s chunks mid e1;
        unread = sym e2;
        nonempty = h;
      }

  -- However the bytes of a packet are cut into reads that each bring something, and whatever follows
  -- it, `recv` returns the packet, leaves what follows it for the next call, in its buffer and in the
  -- reads that it has not made, and takes the version of the packet, at most the server's.
  pub recv-frame :
      (s : PacketStream) (chunks : List Bytes) (rest : Bytes)
      → All IsChunk chunks
      → s.recv_buffer ++ joined chunks ≡ frame version rr_id p ++ rest
      → Delivered s chunks version p rest
  recv-frame s [] rest h e = recv_now s [] rest h e (
      omega (
        arith,
        ap length e,
        length-append s.recv_buffer [],
        length-append (frame version rr_id p) rest,
      ))
  recv-frame s (chunk ∷ chunks) rest h e =
      elim (Bool-cases (ltb (length s.recv_buffer) (length (frame version rr_id p)))) [
        | inl short ↦
            recv_more s chunk chunks rest
              (partial_buffer s.recv_buffer (chunk ++ joined chunks) rest (ltb→lt _ _ short) e) h.0
              (recv-frame (record s { recv_buffer = s.recv_buffer ++ chunk }) chunks rest h.1
                (append_assoc s.recv_buffer chunk (joined chunks) ∙ e))
        | inr long ↦ recv_now s (chunk ∷ chunks) rest h e (ground arith)
      ]

  cut_here :
      (buffer : Bytes) (b : ℕ) (rest : Bytes)
      → (buffer ++ []) ++ b ∷ rest ≡ frame version rr_id p
      → have_packet buffer ≡ ok false
  cut_here buffer b rest e =
      have_packet-partial version rr_id p good supported buffer b rest
        (ap (λ t. t ++ b ∷ rest) (sym (append-nil buffer)) ∙ e)

  -- When the stream ends or is reset after non-empty reads that hold a proper prefix of a packet whose
  -- version is supported, `recv` raises `NetworkError`.
  pub recv-frame_cut :
      (s : PacketStream) (chunks : List Bytes) (b : ℕ) (rest : Bytes) (broken : List Read)
      → All IsChunk chunks
      → (s.recv_buffer ++ joined chunks) ++ b ∷ rest ≡ frame version rr_id p
      → IsBroken broken
      → recv s (reads chunks ++ broken) ≡ err network_error
  unfolding recv
  recv-frame_cut s [] b rest [] h e _ = rw (cut_here s.recv_buffer b rest e)
  recv-frame_cut s [] b rest (received [] ∷ broken) h e _ = rw (cut_here s.recv_buffer b rest e)
  recv-frame_cut s [] b rest (received (x ∷ xs) ∷ broken) h e ends = absurd ends
  recv-frame_cut s [] b rest (r ∷ broken) h e _ = rw (cut_here s.recv_buffer b rest e)
  recv-frame_cut s (chunk ∷ chunks) b rest broken h e ends =
      let nonempty : (length chunk == 0) ≡ false = ground (arith, h.0) in
      let e1 : s.recv_buffer ++ ((chunk ++ joined chunks) ++ b ∷ rest) ≡ frame version rr_id p =
        sym (append_assoc s.recv_buffer (chunk ++ joined chunks) (b ∷ rest)) ∙ e in
      let short : length s.recv_buffer < length (frame version rr_id p) = omega (
        arith,
        ap length e1,
        length-append s.recv_buffer ((chunk ++ joined chunks) ++ b ∷ rest),
        length-append (chunk ++ joined chunks) (b ∷ rest),
      ) in
      rw
        (
          partial_buffer s.recv_buffer ((chunk ++ joined chunks) ++ b ∷ rest) [] short
              (e1 ∙ sym (append-nil (frame version rr_id p))),
          nonempty,
        )
        (recv-frame_cut (record s { recv_buffer = s.recv_buffer ++ chunk }) chunks b rest broken h.1
          (ap (λ t. t ++ b ∷ rest) (append_assoc s.recv_buffer chunk (joined chunks)) ∙ e) ends)
