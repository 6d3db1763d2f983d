-- ===== src/Interface/Letters.antt =====
-- Datagram::write at one interface and the datagram socket that it reaches at another.
use pico_lan.Prelude.{
  ℕ, ◌+◌, ◌/◌, ◌%◌, ◌≤◌, ◌<◌, ◌≡◌, ◌≢◌, refl, ap, ◌∙◌, some, List, [], ◌++◌, slice, length,
  length-slice, ne→==, arith,
}
use pico_lan.Etk.{Etk}
use pico_lan.Etk.Items.{append_all}
use pico_lan.Serialiser.Sender
use pico_lan.Serialiser.Wire.{send-Sends}
use pico_lan.Serialiser.Pack.{Packet}
use pico_lan.Socket.{Socket}
use pico_lan.Socket.Stream
use pico_lan.Socket.Messages.{store-queue}
use pico_lan.Interface.{Interface, AnySocket, base, port_of, send_packet, read}
use pico_lan.Interface.Writing.{chunk_sz, chunk, write_chunks, write, flush}
use pico_lan.Interface.Remote.{arrive-datagram}
use pico_lan.Interface.Hearing.{wire, carrying, payload-get, payload-size}
use pico_lan.Interface.Handshake.Messages.{Has, hears_as}

module _ ⦃E : Etk⦄ where
  open E.ring use {queue, room}

  -- Data shorter than a chunk goes out as one packet, and the line is flushed behind it.
  write_one :
      (dest port : ℕ) (bytes : ℕ → ℕ) (len : ℕ) (a : Interface)
      → 0 < len
      → len < chunk_sz
      → write dest port bytes len a
        ≡ flush (send_packet (Packet.datagram (chunk a.address dest port bytes 0 len)) a)
  unfolding write write_chunks flush
  write_one dest port bytes len a some_bytes short =
      let none_full : len / 58 ≡ 0 = omega arith in
      let rest : len % 58 ≡ len = omega arith in
      let not_none : len ≢ 0 = λ e. omega arith in
      rw none_full (rw rest (rw (ne→== len 0 not_none) refl))

  write_one-sent :
      (p : Packet) (a : Interface) → a.tx.sent ≡ [] → (flush (send_packet p a)).tx.sent ≡ wire p
  unfolding flush send_packet Sender.flush
  write_one-sent p a fresh = (send-Sends p a.tx).on_wire ∙ ap (λ xs. xs ++ wire p) fresh

  -- The bytes that a datagram socket has gained.
  pub gained :
      (d : Socket) (bytes : List ℕ)
      → length bytes ≤ 54
      → length bytes ≤ room d.ringbuf
      → let payload = append_all E.payload E.payload.empty bytes in
        queue (Stream.store (E.payload.get payload) 0 (E.payload.size payload) d.ringbuf)
        ≡ queue d.ringbuf ++ bytes
  gained d bytes fit holds =
      let get = E.payload.get (append_all E.payload E.payload.empty bytes) in
      ap (λ n. queue (Stream.store get 0 n d.ringbuf)) (payload-size bytes fit)
      ∙ (store-queue get 0 (length bytes) d.ringbuf holds).0
      ∙ ap (λ xs. queue d.ringbuf ++ xs) (payload-get bytes fit)

  pub gained_room :
      (d : Socket) (bytes : List ℕ)
      → length bytes ≤ 54
      → length bytes ≤ room d.ringbuf
      → let payload = append_all E.payload E.payload.empty bytes in
        room (Stream.store (E.payload.get payload) 0 (E.payload.size payload) d.ringbuf)
          + length bytes
        ≡ room d.ringbuf
  gained_room d bytes fit holds =
      let get = E.payload.get (append_all E.payload E.payload.empty bytes) in
      ap (λ n. room (Stream.store get 0 n d.ringbuf) + length bytes) (payload-size bytes fit)
      ∙ (store-queue get 0 (length bytes) d.ringbuf holds).1

  pub datagram_port : (d : Socket) → port_of (AnySocket.datagram d) ≡ d.port
  unfolding base
  datagram_port d = refl

  -- `write` of 1 to 54 bytes to the port of a datagram socket at another interface: when that
  -- interface has read what was sent, the socket has gained just those bytes, in order, and knows the
  -- sender's address, and nothing was sent back. The socket is the one bound socket on its port and its
  -- ring buffer has room for the bytes; the line is fresh, and the parser waits for no escaped byte.
  pub write-delivered :
      (a b : Interface) (l len : ℕ) (bytes : ℕ → ℕ) (d : Socket)
      → Has b l (AnySocket.datagram d)
      → 0 < len
      → len ≤ 54
      → len ≤ room d.ringbuf
      → a.tx.sent ≡ []
      → (b1 : Interface) × (d1 : Socket) × (read b (write b.address d.port bytes len a).tx.sent
          ≡ some b1)
        × (b1.heap l ≡ AnySocket.datagram d1)
        × (queue d1.ringbuf ≡ queue d.ringbuf ++ slice bytes 0 len)
        × (d1.remote ≡ a.address)
        × (b1.tx ≡ b.tx)
  write-delivered a b l len bytes d h some_bytes fit holds fresh =
      let n : length (slice bytes 0 len) ≡ len = length-slice bytes 0 len in
      let p = carrying a.address b.address d.port (slice bytes 0 len) in
      let (b1, g) =
        hears_as b l a.address d.port (slice bytes 0 len) (AnySocket.datagram d) _ _ h
          (datagram_port d) (omega (arith, n)) (arrive-datagram p b d) in
      (
        b1,
        _,
        ap (λ i. read b i.tx.sent) (write_one b.address d.port bytes len a some_bytes (omega arith))
            ∙ ap (read b) (write_one-sent (Packet.datagram p) a fresh)
            ∙ g.reads,
        g.has.there,
        gained d (slice bytes 0 len) (omega (arith, n)) (omega (arith, n)),
        refl,
        g.line,
      )
