-- ===== src/Interface/Bursts/Served.antt =====
-- A server that reads the packets of a burst, one after the other.
use pico_lan.Prelude.{
  ℕ, zero, suc, ◌+◌, ◌-◌, ◌≤◌, ◌≡◌, sym, ap, ◌∙◌, List, [], ◌∷◌, ◌++◌, length, ◌==◌, ==_iff,
  if◌then◌else◌, u8, slice, arith,
}
use pico_lan.Etk.{Etk}
use pico_lan.Etk.Items.{append_all}
use pico_lan.Serialiser.Sender.{Sender}
use pico_lan.Serialiser.Pack.{Packet}
use pico_lan.Socket.{SocketStream, open_state, msg_ack, msg_data}
use pico_lan.Socket.Stream.{send_ack, store}
use pico_lan.Socket.Server
use pico_lan.Socket.Messages.{Message, with_body, server_on_data, store-queue}
use pico_lan.Interface.{Interface, AnySocket}
use pico_lan.Interface.Remote.{arrive-server}
use pico_lan.Interface.Hearing.{wire, carrying, payload-get, payload-size}
use pico_lan.Interface.Handshake.Messages.{
  Has, Heard, hears_as, first_byte, second_byte, tail_of, server_port, from, payload_of,
}
use pico_lan.Interface.Bursts.Positions.{part}

-- The number that the server has after a packet with the number `n`.
abbrev pub heard : ℕ → ℕ → ℕ
heard r n = if n == u8 (r + 1) then n else r

-- The number behind `k` packets of a burst from index `i` on.
abbrev pub number_after : ℕ → ℕ → ℕ → ℕ → ℕ
number_after q zero i r = r
number_after q (suc k) i r = number_after q k (i + 1) (heard r (u8 (q + (i + 1))))

-- The bytes of those packets that come as the next ones.
abbrev pub taken : (ℕ → ℕ) → ℕ → ℕ → ℕ → ℕ → ℕ → ℕ → List ℕ
taken bytes len q zero i r p = []
taken bytes len q (suc k) i r p =
    (if u8 (q + (i + 1)) == u8 (r + 1) then slice bytes p (part len p) else [])
    ++ taken bytes len q k (i + 1) (heard r (u8 (q + (i + 1)))) (p + part len p)

module _ ⦃E : Etk⦄ where
  open E.ring use {queue, room}

  abbrev pub ack_wire : ℕ → ℕ → ℕ → ℕ → List ℕ
  ack_wire address dest port n =
      wire (Packet.datagram (carrying address dest port (msg_ack ∷ n ∷ [])))

  -- The acknowledgements of a burst.
  abbrev pub ack_wires : ℕ → ℕ → ℕ → ℕ → ℕ → ℕ → ℕ → List ℕ
  ack_wires address dest port q zero i r = []
  ack_wires address dest port q (suc k) i r =
      ack_wire address dest port (heard r (u8 (q + (i + 1))))
      ++ ack_wires address dest port q k (i + 1) (heard r (u8 (q + (i + 1))))

  -- The server that has taken `xs` as the body of the message number `n`.
  abbrev pub took : SocketStream → ℕ → List ℕ → SocketStream
  took v n xs = record v {
    socket = record v.socket {
      ringbuf =
          store (payload_of (msg_data ∷ n ∷ xs)) 2
            (E.payload.size (append_all E.payload E.payload.empty (msg_data ∷ n ∷ xs)) - 2)
            v.ringbuf;
    };
    remote_sequence = n;
  }

  pub took_lem :
      (v : SocketStream) (n : ℕ) (xs : List ℕ)
      → length xs ≤ 52
      → length xs ≤ room v.ringbuf
      → (queue (took v n xs).ringbuf ≡ queue v.ringbuf ++ xs)
        × (room (took v n xs).ringbuf + length xs ≡ room v.ringbuf)
  took_lem v n xs fit holds =
      let buffer = payload_of (msg_data ∷ n ∷ xs) in
      let size : E.payload.size (append_all E.payload E.payload.empty (msg_data ∷ n ∷ xs)) - 2
          ≡ length xs =
        omega (arith, payload-size (msg_data ∷ n ∷ xs) (omega arith)) in
      let (q, k) = store-queue buffer 2 (length xs) v.ringbuf holds in
      rw size (
        q
            ∙ ap (λ ys. queue v.ringbuf ++ tail_of (tail_of ys))
                (payload-get (msg_data ∷ n ∷ xs) (omega arith)),
        k,
      )

  server_data_next :
      (address : ℕ) (v : SocketStream) (tx : Sender) (r n : ℕ) (m : Message)
      → v.state ≡ open_state
      → v.remote ≡ r
      → m.buffer 0 ≡ msg_data
      → m.buffer 1 ≡ n
      → n ≡ u8 (v.remote_sequence + 1)
      → Server.on_data address v tx r m.buffer m.len
        ≡ (with_body v m n, send_ack address (with_body v m n) tx)
  server_data_next address v tx r n m live same is_data number next =
      server_on_data address r v tx m live same is_data
      ∙ rw ((==_iff (m.buffer 1) (u8 (v.remote_sequence + 1))).1 (number ∙ next))
          (ap (λ x. (with_body v m x, send_ack address (with_body v m x) tx)) (sym next))

  pub server_hears_next :
      (i : Interface) (l source n : ℕ) (xs : List ℕ) (v : SocketStream)
      → Has i l (AnySocket.server v)
      → v.state ≡ open_state
      → v.remote ≡ source
      → n ≡ u8 (v.remote_sequence + 1)
      → length xs ≤ 52
      → (j : Interface) × Heard i j l
          (carrying source i.address v.port (msg_data ∷ n ∷ xs))
          (AnySocket.server (took v n xs))
          (send_ack i.address (took v n xs) i.tx)
  server_hears_next i l source n xs v h e same next fit =
      let pack = carrying source i.address v.port (msg_data ∷ n ∷ xs) in
      let m : Message = record {
        buffer = payload_of (msg_data ∷ n ∷ xs);
        len = E.payload.size pack.payload;
      } in
      hears_as i l source v.port (msg_data ∷ n ∷ xs) (AnySocket.server v)
        (AnySocket.server (took v n xs)) _ h (server_port v) (omega arith)
        (arrive-server pack i v
          ∙ ap (λ q. (AnySocket.server q.0, q.1))
              (ap (λ r. Server.on_data i.address (from v r) i.tx source m.buffer m.len) (sym same)
                ∙ server_data_next i.address v i.tx source n m e same
                    (first_byte msg_data (n ∷ xs) (omega arith))
                    (second_byte msg_data n xs (omega arith)) next))
