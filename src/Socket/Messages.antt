-- ===== src/Socket/Messages.antt =====
-- The payloads that a stream is given, and what an in-order receiver makes of a run of DATA messages.
use pico_lan.Prelude.{
  ℕ, zero, suc, ◌+◌, ◌-◌, ◌≤◌, ◌≡◌, sym, ap, ◌∙◌, List, [], ◌∷◌, ◌++◌, append_assoc, append-nil,
  ◌==◌, if◌then◌else◌, u8, slice, arith,
}
use pico_lan.Etk.{Etk}
use pico_lan.Serialiser.Sender.{Sender}
use pico_lan.Etk.Items.{append_all}
use pico_lan.Serialiser.Framing.{frame}
use pico_lan.Serialiser.Wire.{content}
use pico_lan.Serialiser.Pack.{Packet}
use pico_lan.Socket.{SocketStream, open_state, msg_data, msg_ack}
use pico_lan.Socket.Stream.{send_ack, store}
use pico_lan.Socket.Client
use pico_lan.Socket.Server

module _ ⦃E : Etk⦄ where
  open E.ring use {queue, room, put, queue-put, room-put}

  -- Bytes that fit are queued in order.
  pub store-queue :
      (buffer : ℕ → ℕ) (i n : ℕ) (r : E.ring.Rep)
      → n ≤ room r
      → (queue (store buffer i n r) ≡ queue r ++ slice buffer i n)
        × (room (store buffer i n r) + n ≡ room r)
  unfolding store
  store-queue buffer i zero r h = (sym (append-nil (queue r)), omega arith)
  store-queue buffer i (suc n) r h =
      let (q, k) =
        store-queue buffer (i + 1) n (put r (buffer i)) (omega (arith, room-put r (buffer i))) in
      (
        q
            ∙ ap (λ xs. xs ++ slice buffer (i + 1) n) (queue-put r (buffer i) (omega arith))
            ∙ append_assoc (queue r) (buffer i ∷ []) (slice buffer (i + 1) n),
        omega (arith, k, room-put r (buffer i)),
      )

  -- The payload of a datagram: the receive buffer and the number of bytes in it.
  pub record Message : Type 0 where
    pub buffer : ℕ → ℕ
    pub len : ℕ

  abbrev pub number_of : Message → ℕ
  number_of m = m.buffer 1

  -- The bytes behind the message type and the sequence number.
  abbrev pub body_of : Message → List ℕ
  body_of m = slice m.buffer 2 (m.len - 2)

  abbrev pub IsData : Message → Type 0
  IsData m = m.buffer 0 ≡ msg_data

  abbrev pub with_body : SocketStream → Message → ℕ → SocketStream
  with_body s m n = record s {
    socket = record s.socket { ringbuf = store m.buffer 2 (m.len - 2) s.ringbuf };
    remote_sequence = n;
  }

  -- An open server that hears DATA from its own client.
  pub server_on_data :
      (address r : ℕ) (s : SocketStream) (tx : Sender) (m : Message)
      → s.state ≡ open_state
      → s.remote ≡ r
      → IsData m
      → let s' =
          if number_of m == u8 (s.remote_sequence + 1)
          then with_body s m (u8 (s.remote_sequence + 1))
          else s in
        Server.on_data address s tx r m.buffer m.len ≡ (s', send_ack address s' tx)
  unfolding Server.on_data
  server_on_data address r s tx m live same is_data = ground arith

  -- A client too, but it compares with the sum that does not wrap.
  pub client_on_data :
      (address r : ℕ) (s : SocketStream) (tx : Sender) (m : Message)
      → s.state ≡ open_state
      → s.remote ≡ r
      → IsData m
      → let s' =
          if number_of m == s.remote_sequence + 1
          then with_body s m (u8 (s.remote_sequence + 1))
          else s in
        Client.on_data address s tx r m.buffer m.len ≡ (s', send_ack address s' tx)
  unfolding Client.on_data
  client_on_data address r s tx m live same is_data = ground arith

  -- The specification: what has been received in order, and the number of the last message of it.
  abbrev pub next_number : ℕ → Message → ℕ
  next_number n m = if number_of m == u8 (n + 1) then u8 (n + 1) else n

  abbrev pub next_bytes : ℕ → Message → List ℕ
  next_bytes n m = if number_of m == u8 (n + 1) then body_of m else []

  abbrev pub last_number : ℕ → List Message → ℕ
  last_number n [] = n
  last_number n (m ∷ ms) = last_number (next_number n m) ms

  abbrev pub in_order : ℕ → List Message → List ℕ
  in_order n [] = []
  in_order n (m ∷ ms) = next_bytes n m ++ in_order (next_number n m) ms

  -- The frame that acknowledges the message number `n`.
  unfoldable pub ack_frame : ℕ → ℕ → ℕ → ℕ → List ℕ
  ack_frame address remote port n = frame (
      content (
        Packet.datagram (record {
          ttl = 6;
          source_addr = address;
          dest_addr = remote;
          port = port;
          payload = append_all E.payload E.payload.empty (msg_ack ∷ n ∷ []);
        })))

  -- One acknowledgement for each message, of the last one received in order.
  abbrev pub ack_frames : ℕ → ℕ → ℕ → ℕ → List Message → List ℕ
  ack_frames address remote port n [] = []
  ack_frames address remote port n (m ∷ ms) =
      ack_frame address remote port (next_number n m)
      ++ ack_frames address remote port (next_number n m) ms

  abbrev pub total : List Message → ℕ
  total [] = 0
  total (m ∷ ms) = (m.len - 2) + total ms

  -- Messages that reach a server one after the other.
  unfoldable pub serve_all : ℕ → ℕ → List Message → SocketStream → Sender → SocketStream × Sender
  serve_all address r [] s tx = (s, tx)
  serve_all address r (m ∷ ms) s tx =
      let (s', tx') = Server.on_data address s tx r m.buffer m.len in serve_all address r ms s' tx'
