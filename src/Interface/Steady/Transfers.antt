-- ===== src/Interface/Steady/Transfers.antt =====
-- The reads and writes of the sockets leave the ports and the bound sockets as they are.
use pico_lan.Prelude.{
  ℕ, zero, suc, ◌+◌, ◌/◌, ◌%◌, ◌≡◌, refl, Bool, true, false, some, List, [], ◌∷◌, ltb, not, ◌==◌,
  if◌then◌else◌, u8, leb, length, ◌>>=◌, Every, Every->>=, Every-if, Every-some,
}
use pico_lan.Etk.{Etk}
use pico_lan.Socket.{SocketStream}
use pico_lan.Socket.Stream.{connected}
use pico_lan.Interface.{Interface, AnySocket, base, with_base, port_of, read}
use pico_lan.Interface.Waiting.{Round, elapsed}
use pico_lan.Interface.Connecting.{stream_of}
use pico_lan.Interface.Writing
use pico_lan.Interface.Writing.{chunk, chunk_sz, write_chunks, write, subscribe}
use pico_lan.Interface.Delivery.{update-port}
use pico_lan.Interface.Reading.{
  Call, available, TimedRead, got, nothing, unfinished, take_byte, timed_read, ReadResult, finished,
  not_yet, with_byte, read_bytes, count_empty, StreamRead, failed, filled, pending_read,
  stream_read_end, stream_read,
}
use pico_lan.Interface.Steady.{
  KeepsPorts, KeepsPorts-refl, KeepsPorts-trans, Keeps, Every-trans, send_packet-KeepsPorts,
  read-KeepsPorts_one, put_stream-KeepsPorts,
}
use pico_lan.Interface.Steady.Loops.{disconnect-port}

module _ ⦃E : Etk⦄ where
  write_chunks-KeepsPorts :
      (n i dest port : ℕ) (bytes : ℕ → ℕ) (iface : Interface)
      → KeepsPorts iface (write_chunks n i dest port bytes iface)
  unfolding write_chunks
  write_chunks-KeepsPorts zero i dest port bytes iface = KeepsPorts-refl iface
  write_chunks-KeepsPorts (suc n) i dest port bytes iface =
      KeepsPorts-trans (send_packet-KeepsPorts _ iface)
        (write_chunks-KeepsPorts n (i + 1) dest port bytes _)

  flush-KeepsPorts : (i : Interface) → KeepsPorts i (Writing.flush i)
  unfolding Writing.flush
  flush-KeepsPorts i = record { same_sockets = refl; same_ports = λ l. refl }

  pub KeepsPorts-choice :
      {i j k : Interface} (b : Bool)
      → KeepsPorts i j
      → KeepsPorts i k
      → KeepsPorts i (if b then j else k)
  KeepsPorts-choice true g h = g
  KeepsPorts-choice false g h = h

  pub write-KeepsPorts :
      (dest port : ℕ) (bytes : ℕ → ℕ) (len : ℕ) (i : Interface)
      → KeepsPorts i (write dest port bytes len i)
  unfolding write
  write-KeepsPorts dest port bytes len i =
      let sent = write_chunks-KeepsPorts (len / 58) 0 dest port bytes i in
      KeepsPorts-trans
        (KeepsPorts-choice (len % 58 == 0) sent
          (KeepsPorts-trans sent (send_packet-KeepsPorts _ _)))
        (flush-KeepsPorts _)

  pub subscribe-KeepsPorts : (l : ℕ) (sub : Bool) (i : Interface) → KeepsPorts i (subscribe l sub i)
  unfolding subscribe
  subscribe-KeepsPorts l sub i = KeepsPorts-trans (send_packet-KeepsPorts _ i) (flush-KeepsPorts _)

  abbrev of_timed : TimedRead → Interface
  of_timed (got b i) = i
  of_timed (nothing i) = i
  of_timed (unfinished i) = i

  abbrev pub of_result : ReadResult → Interface
  of_result (finished bs i) = i
  of_result (not_yet bs i) = i

  abbrev pub of_stream_read : StreamRead → Interface
  of_stream_read (failed e i) = i
  of_stream_read (filled bs i) = i
  of_stream_read (pending_read bs i) = i

  with_ring-port :
      (s : AnySocket) (ring : E.ring.Rep)
      → port_of (with_base s (record (base s) { ringbuf = ring })) ≡ port_of s
  unfolding base with_base
  with_ring-port (AnySocket.datagram s) ring = refl
  with_ring-port (AnySocket.client s) ring = refl
  with_ring-port (AnySocket.server s) ring = refl

  take_byte-KeepsPorts : (l : ℕ) (i : Interface) → KeepsPorts i (of_timed (take_byte l i))
  unfolding take_byte
  take_byte-KeepsPorts l i = record {
    same_sockets = refl;
    same_ports = λ k. update-port i.heap l k _ (with_ring-port (i.heap l) _);
  }

  timed_read-Keeps :
      (rs : List Round) (start l : ℕ) (i : Interface)
      → Every (Keeps of_timed i) (timed_read rs start l i)
  unfolding timed_read
  timed_read-Keeps [] start l i =
      Every-if (Keeps of_timed i) (ltb 0 (available l i)) _ _ (take_byte-KeepsPorts l i)
        (KeepsPorts-refl i)
  timed_read-Keeps (r ∷ rs) start l i =
      Every-if (Keeps of_timed i) (ltb 0 (available l i)) _ _ (take_byte-KeepsPorts l i) (
        Every->>= (Keeps of_timed i) (read i r.arrived) _ (λ j e.
          Every-if (Keeps of_timed i) (ltb (elapsed r.after start) (base (j.heap l)).timeout) _ _
            (Every-trans of_timed (timed_read rs start l j) (read-KeepsPorts_one i j r.arrived e)
              (timed_read-Keeps rs start l j))
            (read-KeepsPorts_one i j r.arrived e)))

  with_byte-KeepsPorts :
      (b : ℕ) {i : Interface} (r : ReadResult)
      → KeepsPorts i (of_result r)
      → KeepsPorts i (of_result (with_byte b r))
  unfolding with_byte
  with_byte-KeepsPorts b (finished bs j) h = h
  with_byte-KeepsPorts b (not_yet bs j) h = h

  pub read_bytes-Keeps :
      (calls : List Call) (n l : ℕ) (i : Interface)
      → Every (Keeps of_result i) (read_bytes calls n l i)
  unfolding read_bytes
  read_bytes-Keeps calls zero l i = KeepsPorts-refl i
  read_bytes-Keeps [] (suc n) l i = KeepsPorts-refl i
  read_bytes-Keeps (c ∷ cs) (suc n) l i =
      Every->>= (Keeps of_result i) (timed_read c.rounds c.start l i) _ (λ t e.
        next (read_bytes-Keeps cs n l) t
          (Every-some (Keeps of_timed i) _ t (timed_read-Keeps c.rounds c.start l i) e))
    where
      next :
          ((j : Interface) → Every (Keeps of_result j) (read_bytes cs n l j))
          → (t : TimedRead) → KeepsPorts i (of_timed t)
          → Every (Keeps of_result i) (elim t [
            | got b j ↦ (do rest ← read_bytes cs n l j; some (with_byte b rest))
            | nothing j ↦ some (finished [] j)
            | unfinished j ↦ some (not_yet [] j)
          ])
      next again (got b j) h = Every->>= (Keeps of_result i) (read_bytes cs n l j) _ (λ rest e.
          with_byte-KeepsPorts b rest
            (KeepsPorts-trans h (Every-some (Keeps of_result j) _ rest (again j) e)))
      next again (nothing j) h = h
      next again (unfinished j) h = h

  count_empty-KeepsPorts :
      (l : ℕ) (s : SocketStream) (i : Interface)
      → stream_of (i.heap l) ≡ some s
      → KeepsPorts i (count_empty l s i)
  unfolding count_empty
  count_empty-KeepsPorts l s i there =
      KeepsPorts-choice (leb 3 (u8 (s.zero_read_count + 1)))
        (put_stream-KeepsPorts l _ _ i s there (disconnect-port i.address _ i.tx))
        (put_stream-KeepsPorts l _ _ i s there refl)

  stream_read_end-Keeps :
      (l : ℕ) (r : ReadResult) → Every (Keeps of_stream_read (of_result r)) (stream_read_end l r)
  unfolding stream_read_end
  stream_read_end-Keeps l (not_yet bs i) = KeepsPorts-refl i
  stream_read_end-Keeps l (finished bs i) =
      Every->>= (Keeps of_stream_read i) (stream_of (i.heap l)) _ (λ s there.
        KeepsPorts-choice (length bs == 0) (count_empty-KeepsPorts l s i there) (KeepsPorts-refl i))

  pub stream_read-Keeps :
      (calls : List Call) (n l : ℕ) (i : Interface)
      → Every (Keeps of_stream_read i) (stream_read calls n l i)
  unfolding stream_read
  stream_read-Keeps calls n l i =
      Every->>= (Keeps of_stream_read i) (stream_of (i.heap l)) _ (λ s there.
        Every-if (Keeps of_stream_read i) (not (connected s)) _ _ (KeepsPorts-refl i) (
          Every->>= (Keeps of_stream_read i) (read_bytes calls n l i) _ (λ r e.
            Every-trans of_stream_read (stream_read_end l r)
              (Every-some (Keeps of_result i) _ r (read_bytes-Keeps calls n l i) e)
              (stream_read_end-Keeps l r))))
