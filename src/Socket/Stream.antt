-- ===== src/Socket/Stream.antt =====
-- socket_stream.cpp: the control messages of a stream, its end, and how received bytes are stored.
use pico_lan.Prelude.{ℕ, zero, suc, ◌+◌, Bool, true, false, List, [], ◌∷◌, u8, if◌then◌else◌}
use pico_lan.Etk.{Etk}
use pico_lan.Etk.Items.{append_all}
use pico_lan.Serialiser.Sender.{Sender}
use pico_lan.Serialiser.Pack.{Packet}
use pico_lan.Serialiser.Pack
use pico_lan.Serialiser.Pack.Datagram.{DatagramPack}
use pico_lan.Socket.{
  SocketStream, ConnectionState, closed, listening, open_state, msg_ack, msg_syn, msg_close,
}

module _ ⦃E : Etk⦄ where
  abbrev is_state : ConnectionState → ConnectionState → Bool
  is_state closed closed = true
  is_state listening listening = true
  is_state open_state open_state = true
  is_state _ _ = false

  -- A datagram pack to the other end of the stream, with the bytes that `append` adds one by one.
  abbrev pub stream_pack : ℕ → SocketStream → List ℕ → DatagramPack
  stream_pack address s bytes = record {
    ttl = 6;
    source_addr = address;
    dest_addr = s.remote;
    port = s.remote_port;
    payload = append_all E.payload E.payload.empty bytes;
  }

  -- `sequence_number++` after it is put in the packet.
  unfoldable pub send_syn : ℕ → SocketStream → Sender → SocketStream × Sender
  send_syn address s tx = (
    record s { sequence_number = u8 (s.sequence_number + 1) },
    Pack.Datagram.send (stream_pack address s (msg_syn ∷ s.sequence_number ∷ s.port ∷ [])) tx,
  )

  unfoldable pub send_ack : ℕ → SocketStream → Sender → Sender
  send_ack address s tx =
      Pack.Datagram.send (stream_pack address s (msg_ack ∷ s.remote_sequence ∷ [])) tx

  -- The state is set before it is compared with LISTENING, so that test never holds.
  unfoldable pub disconnect : ℕ → SocketStream → Sender → SocketStream × Sender
  disconnect address s tx =
      if is_state s.state closed
      then (s, tx)
      else let s1 = record s { state = closed } in
        if is_state s1.state listening then (s1, tx) else (
          s1,
          Pack.Datagram.send (stream_pack address s1 (msg_close ∷ s1.sequence_number ∷ [])) tx,
        )

  unfoldable pub is_closed : SocketStream → Bool
  is_closed s = is_state s.state closed

  unfoldable pub connected : SocketStream → Bool
  connected s = is_state s.state open_state

  -- `ringbuf.put(data[i++])`, with `n` rounds left.
  unfoldable pub store : (ℕ → ℕ) → ℕ → ℕ → E.ring.Rep → E.ring.Rep
  store buffer i zero ring = ring
  store buffer i (suc n) ring = store buffer (i + 1) n (E.ring.put ring (buffer i))
