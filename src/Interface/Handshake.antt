-- ===== src/Interface/Handshake.antt =====
-- A client that connects and a server that accepts: the three-way handshake over two lines.
pub mod Messages
pub mod Control
use pico_lan.Prelude.{
  ℕ, ◌+◌, ◌-◌, ◌≤◌, ◌<◌, ◌≡◌, refl, sym, ap, subst, ◌∙◌, Bool, true, false, not, Option, none, some,
  List, [], ◌∷◌, ◌++◌, append_assoc, ltb, if◌then◌else◌, u8, ◌>>=◌, arith,
}
use pico_lan.Etk.{Etk}
use pico_lan.Serialiser.Sender.{Sender}
use pico_lan.Serialiser.Pack.{Packet}
use pico_lan.Serialiser.Pack
use pico_lan.Serialiser.Wire.{datagram-Sends}
use pico_lan.Socket.{
  Socket, SocketStream, ok, ConnectionState, closed, syn_sent, listening, syn_recved, pending,
  open_state, msg_ack, msg_syn,
}
use pico_lan.Socket.Stream.{send_syn, send_ack, is_closed, connected, stream_pack}
use pico_lan.Socket.Server.{connection_pending}
use pico_lan.Interface.{Interface, AnySocket, read}
use pico_lan.Interface.Waiting.{Round, elapsed}
use pico_lan.Interface.Connecting.{
  is_waiting, stream_of, put_stream, Waited, left, wait_while, Connecting, returned, connect_start,
  connect_end, connect, accept_start, accept_end, accept,
}
use pico_lan.Interface.Hearing.{wire, read-then, carrying}
use Messages.{Has, Heard, put_client, put_server}
use Control.{client_hears_ack, client_hears_syn, server_hears_syn, server_hears_ack}

-- A round in which `bytes` arrive, with the clock at `t` behind it.
abbrev pub round : ℕ → List ℕ → Round
round t bytes = record { before = t; arrived = bytes; after = t }

module _ ⦃E : Etk⦄ where
  -- One round that ends the loop in time.
  pub wait_while-left :
      (waits : ConnectionState) (r : Round) (rs : List Round) (start l : ℕ) (i j : Interface)
      (s : SocketStream)
      → read i r.arrived ≡ some j
      → stream_of (j.heap l) ≡ some s
      → elapsed r.after start ≤ s.timeout
      → is_waiting waits s.state ≡ false
      → wait_while waits (r ∷ rs) start l i ≡ some (left j)
  unfolding wait_while
  wait_while-left waits r rs start l i j s e there early moved =
      rw e (rw there (rw moved (ground arith)))

  pub connect_lem :
      (l r port start : ℕ) (rs : List Round) (i : Interface) (c : SocketStream)
      → i.heap l ≡ AnySocket.client c
      → c.state ≡ closed
      → connect l r port start rs i
        ≡ (do w ← wait_while syn_sent rs start l (connect_start l r port c i); connect_end l w)
  unfolding connect is_closed
  connect_lem l r port start rs i c there e = rw there (rw e refl)

  pub accept_lem :
      (l start : ℕ) (rs : List Round) (i : Interface) (v : SocketStream)
      → i.heap l ≡ AnySocket.server v
      → v.state ≡ syn_recved
      → accept l start rs i
        ≡ (do w ← wait_while pending rs start l (accept_start l v i); accept_end l w)
  unfolding accept connection_pending
  accept_lem l start rs i v there e = rw there (rw e refl)

  -- The streams on the way. First the client's, with its SYN sent to port `port` of `r`.
  abbrev pub asking : SocketStream → ℕ → ℕ → SocketStream
  asking c r port = record c {
    socket = record c.socket { remote = r };
    remote_port = port;
    sequence_number = u8 (c.sequence_number + 1);
    state = syn_sent;
  }

  -- The server's, with a SYN that carried the number `n` and the port `port` from `r`.
  abbrev pub asked : SocketStream → ℕ → ℕ → ℕ → SocketStream
  asked v r n port = record v {
    socket = record v.socket { remote = r };
    remote_sequence = n;
    remote_port = port;
    state = syn_recved;
  }

  -- The server's when it waits for the client's ACK.
  abbrev pub answering : SocketStream → SocketStream
  answering v = record v { sequence_number = u8 (v.sequence_number + 1); state = pending }

  abbrev pub client_end : Interface → SocketStream → SocketStream → SocketStream
  client_end b c v = record (asking c b.address v.port) {
    remote_sequence = v.sequence_number;
    state = open_state;
  }

  abbrev pub server_end : Interface → SocketStream → SocketStream → SocketStream
  server_end a c v = record (answering (asked v a.address c.sequence_number c.port)) {
    state = open_state;
  }

  -- What the first part of `connect` leaves, and what it puts on a fresh line.
  pub connect_start-Has :
      (a : Interface) (l r port : ℕ) (c : SocketStream)
      → Has a l (AnySocket.client c)
      → Has (connect_start l r port c a) l (AnySocket.client (asking c r port))
  unfolding connect_start
  connect_start-Has a l r port c h = put_client a l c (asking c r port) _ h refl

  pub connect_start-sent :
      (a : Interface) (l r port : ℕ) (c : SocketStream)
      → a.tx.sent ≡ []
      → (connect_start l r port c a).tx.sent
        ≡ wire (
            Packet.datagram (carrying a.address r port (msg_syn ∷ c.sequence_number ∷ c.port ∷ [])))
  unfolding connect_start
  connect_start-sent a l r port c fresh =
      (datagram-Sends (carrying a.address r port (msg_syn ∷ c.sequence_number ∷ c.port ∷ []))
        a.tx).on_wire
      ∙ ap
          (λ xs.
            xs
            ++ wire (
                Packet.datagram
                  (carrying a.address r port (msg_syn ∷ c.sequence_number ∷ c.port ∷ []))))
          fresh

  pub accept_start-Has :
      (b : Interface) (l : ℕ) (v : SocketStream)
      → Has b l (AnySocket.server v)
      → Has (accept_start l v b) l (AnySocket.server (answering v))
  unfolding accept_start
  accept_start-Has b l v h = put_server b l v (answering v) _ h refl

  abbrev pub ack_from : Interface → SocketStream → Packet
  ack_from b v =
      Packet.datagram (carrying b.address v.remote v.remote_port (msg_ack ∷ v.remote_sequence ∷ []))

  abbrev pub syn_from : Interface → SocketStream → Packet
  syn_from b v =
      Packet.datagram
        (carrying b.address v.remote v.remote_port (msg_syn ∷ v.sequence_number ∷ v.port ∷ []))

  pub accept_start-sent :
      (b : Interface) (l : ℕ) (v : SocketStream)
      → b.tx.sent ≡ []
      → (accept_start l v b).tx.sent ≡ wire (ack_from b v) ++ wire (syn_from b v)
  unfolding accept_start
  accept_start-sent b l v fresh =
      (datagram-Sends
        (carrying b.address v.remote v.remote_port (msg_syn ∷ v.sequence_number ∷ v.port ∷ []))
        (Pack.Datagram.send
          (carrying b.address v.remote v.remote_port (msg_ack ∷ v.remote_sequence ∷ []))
          b.tx)).on_wire
      ∙ ap (λ xs. xs ++ wire (syn_from b v))
          ((datagram-Sends
              (carrying b.address v.remote v.remote_port (msg_ack ∷ v.remote_sequence ∷ []))
              b.tx).on_wire
            ∙ ap (λ xs. xs ++ wire (ack_from b v)) fresh)

  pub stream_of-Has-client :
      {i : Interface} {l : ℕ} {c : SocketStream}
      → Has i l (AnySocket.client c)
      → stream_of (i.heap l) ≡ some c
  stream_of-Has-client h = ap stream_of h.there

  pub stream_of-Has-server :
      {i : Interface} {l : ℕ} {c : SocketStream}
      → Has i l (AnySocket.server c)
      → stream_of (i.heap l) ≡ some c
  stream_of-Has-server h = ap stream_of h.there

  -- The end of `connect` when the SYN has come.
  pub connect_end-ok :
      (i : Interface) (l : ℕ) (c : SocketStream)
      → Has i l (AnySocket.client c)
      → c.state ≡ syn_recved
      → connect_end l (left i)
        ≡ some (
            returned ok
              (put_stream l (record c { state = open_state }, send_ack i.address c i.tx) i))
  unfolding connect_end connection_pending
  connect_end-ok i l c h e = rw h.there (rw e refl)

  pub accept_end-ok :
      (i : Interface) (l : ℕ) (v : SocketStream)
      → Has i l (AnySocket.server v)
      → v.state ≡ open_state
      → accept_end l (left i) ≡ some (returned ok i)
  unfolding accept_end connected
  accept_end-ok i l v h e = rw h.there (rw e refl)

  pub send_ack-sent :
      (i : Interface) (c : SocketStream)
      → (send_ack i.address c i.tx).sent ≡ i.tx.sent ++ wire (ack_from i c)
  unfolding send_ack
  send_ack-sent i c =
      (datagram-Sends (carrying i.address c.remote c.remote_port (msg_ack ∷ c.remote_sequence ∷ []))
        i.tx).on_wire
