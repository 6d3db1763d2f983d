-- ===== src/Socket/Receiving.antt =====
-- What a stream makes of the DATA messages that it is sent: an in-order, exactly-once receiver.
use pico_lan.Prelude.{
  ℕ, ◌+◌, ◌-◌, ◌≤◌, ◌≡◌, refl, sym, ap, ap₂, ◌∙◌, Bool, true, false, List, [], ◌∷◌, ◌++◌,
  append_assoc, append-nil, ◌==◌, if◌then◌else◌, u8, arith, All,
}
use pico_lan.Etk.{Etk}
use pico_lan.Serialiser.Sender.{Sender}
use pico_lan.Serialiser.Wire.{datagram-Sends}
use pico_lan.Socket.{SocketStream, open_state, msg_ack}
use pico_lan.Socket.Stream.{send_ack, stream_pack}
use pico_lan.Socket.Server
use pico_lan.Socket.Messages.{
  store-queue, Message, number_of, body_of, IsData, with_body, server_on_data, next_number,
  next_bytes, last_number, in_order, ack_frame, ack_frames, total, serve_all,
}

module _ ⦃E : Etk⦄ where
  open E.ring use {queue, room}

  send_ack-sent :
      (address : ℕ) (s : SocketStream) (tx : Sender)
      → (send_ack address s tx).sent
        ≡ tx.sent ++ ack_frame address s.remote s.remote_port s.remote_sequence
  unfolding send_ack ack_frame
  send_ack-sent address s tx =
      (datagram-Sends (stream_pack address s (msg_ack ∷ s.remote_sequence ∷ [])) tx).on_wire

  -- What one message changes.
  pub record Received (address : ℕ) (s s' : SocketStream) (tx tx' : Sender) (n' : ℕ)
      (bytes : List ℕ) (used : ℕ) : Type 0 where
    pub still_open : s'.state ≡ open_state
    pub same_remote : s'.remote ≡ s.remote
    pub same_port : s'.remote_port ≡ s.remote_port
    pub number : s'.remote_sequence ≡ n'
    pub stored : queue s'.ringbuf ≡ queue s.ringbuf ++ bytes
    pub left : room s.ringbuf ≤ room s'.ringbuf + used
    pub acked : tx'.sent ≡ tx.sent ++ ack_frame address s.remote s.remote_port n'

  -- The two outcomes of a DATA message, acknowledged alike.
  step-Received :
      (address n : ℕ) (s : SocketStream) (tx : Sender) (m : Message) (b : Bool)
      → s.state ≡ open_state
      → m.len - 2 ≤ room s.ringbuf
      → let s' = if b then with_body s m n else s in
        Received address s s' tx
          (send_ack address s' tx)
          (if b then n else s.remote_sequence)
          (if b then body_of m else [])
          (m.len - 2)
  step-Received address n s tx m true live fits = record {
    still_open = live;
    same_remote = refl;
    same_port = refl;
    number = refl;
    stored = (store-queue m.buffer 2 (m.len - 2) s.ringbuf fits).0;
    left = omega (arith, (store-queue m.buffer 2 (m.len - 2) s.ringbuf fits).1);
    acked = send_ack-sent address (with_body s m n) tx;
  }
  step-Received address n s tx m false live fits = record {
    still_open = live;
    same_remote = refl;
    same_port = refl;
    number = refl;
    stored = sym (append-nil (queue s.ringbuf));
    left = omega arith;
    acked = send_ack-sent address s tx;
  }

  server-Received :
      (address r : ℕ) (s : SocketStream) (tx : Sender) (m : Message)
      → s.state ≡ open_state
      → s.remote ≡ r
      → IsData m
      → m.len - 2 ≤ room s.ringbuf
      → let (s', tx') = Server.on_data address s tx r m.buffer m.len in
        Received address s s' tx tx'
          (next_number s.remote_sequence m)
          (next_bytes s.remote_sequence m)
          (m.len - 2)
  server-Received address r s tx m live same is_data fits =
      rw (server_on_data address r s tx m live same is_data) (
        step-Received address (u8 (s.remote_sequence + 1)) s tx m
          (number_of m == u8 (s.remote_sequence + 1)) live fits)

  -- What a run of messages leaves.
  pub record ReceivedAll (address : ℕ) (s s' : SocketStream) (tx tx' : Sender) (ms : List Message)
      : Type 0 where
    pub still_open : s'.state ≡ open_state
    pub number : s'.remote_sequence ≡ last_number s.remote_sequence ms
    pub stored : queue s'.ringbuf ≡ queue s.ringbuf ++ in_order s.remote_sequence ms
    pub acked : tx'.sent ≡ tx.sent ++ ack_frames address s.remote s.remote_port s.remote_sequence ms

  -- One message and the run that follows it.
  joined :
      (address : ℕ) (s s1 s2 : SocketStream) (tx tx1 tx2 : Sender) (m : Message) (ms : List Message)
      → Received address s s1 tx tx1
          (next_number s.remote_sequence m)
          (next_bytes s.remote_sequence m)
          (m.len - 2)
      → ReceivedAll address s1 s2 tx1 tx2 ms
      → ReceivedAll address s s2 tx tx2 (m ∷ ms)
  joined address s s1 s2 tx tx1 tx2 m ms one rest = record {
    still_open = rest.still_open;
    number = rest.number ∙ ap (λ n. last_number n ms) one.number;
    stored =
        rest.stored
        ∙ ap₂ (λ xs n. xs ++ in_order n ms) one.stored one.number
        ∙ append_assoc (queue s.ringbuf) (next_bytes s.remote_sequence m) _;
    acked =
        rest.acked
        ∙ ap₂ (λ xs n. xs ++ ack_frames address s1.remote s1.remote_port n ms) one.acked one.number
        ∙ ap₂
            (λ r p.
              (tx.sent
                ++ ack_frame address s.remote s.remote_port (next_number s.remote_sequence m))
              ++ ack_frames address r p (next_number s.remote_sequence m) ms)
            one.same_remote one.same_port
        ∙ append_assoc tx.sent _ _;
  }

  -- Whatever DATA messages an open server hears from its client, in whatever order and however often
  -- repeated, as long as the ring buffer has room for the bytes of all of them: the connection stays open, the
  -- buffer has gained the bytes of just those that carried the next number (modulo 256) when they
  -- came, in that order, and each message has been answered by one acknowledgement of the last number
  -- received in order.
  pub serve_all-ReceivedAll :
      (address r : ℕ) (ms : List Message) (s : SocketStream) (tx : Sender)
      → s.state ≡ open_state
      → s.remote ≡ r
      → All IsData ms
      → total ms ≤ room s.ringbuf
      → let (s', tx') = serve_all address r ms s tx in ReceivedAll address s s' tx tx' ms
  unfolding serve_all
  serve_all-ReceivedAll address r [] s tx live same is_data fits = record {
    still_open = live;
    number = refl;
    stored = sym (append-nil (queue s.ringbuf));
    acked = sym (append-nil tx.sent);
  }
  serve_all-ReceivedAll address r (m ∷ ms) s tx live same is_data fits =
      joined address s _ _ tx _ _ m ms one (
        serve_all-ReceivedAll address r ms (Server.on_data address s tx r m.buffer m.len).0
          (Server.on_data address s tx r m.buffer m.len).1 one.still_open (one.same_remote ∙ same)
          is_data.1 (omega (arith, one.left)))
    where
      one :
          let (s', tx') = Server.on_data address s tx r m.buffer m.len in
          Received address s s' tx tx'
            (next_number s.remote_sequence m)
            (next_bytes s.remote_sequence m)
            (m.len - 2)
      one = server-Received address r s tx m live same is_data.0 (omega arith)
