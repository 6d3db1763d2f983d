-- ===== src/Interface/Cuts/Mailed.antt =====
-- A datagram socket that reads what Datagram::write has put on the line.
use pico_lan.Prelude.{
  ℕ, zero, suc, ◌+◌, ◌*◌, ◌/◌, ◌%◌, ◌≤◌, ◌≡◌, refl, sym, ap, ap₂, subst, ◌∙◌, some, List, [], ◌++◌,
  append-nil, append_assoc, slice, length, length-append, length-slice, ne→==, ==_iff, arith,
  ℕ_discrete,
}
use pico_lan.Etk.{Etk}
use pico_lan.Etk.Items.{IgnoresFull}
use pico_lan.Serialiser.Pack.{Packet}
use pico_lan.Socket.{Socket}
use pico_lan.Socket.Stream
use pico_lan.Interface.{Interface, AnySocket, read}
use pico_lan.Interface.Writing.{write}
use pico_lan.Interface.Remote.{arrive-datagram}
use pico_lan.Interface.Hearing.{wire, carrying, read-then}
use pico_lan.Interface.Handshake.Messages.{Has, hears_as}
use pico_lan.Interface.Letters.{gained, gained_room, datagram_port}
use pico_lan.Interface.Bursts.{min}
use pico_lan.Interface.Cuts.{kept_chunks, kept, chunk_frames, write_frames, write-sent}

module _ ⦃E : Etk⦄ where
  open E.ring use {queue, room}

  -- The datagram socket `d` at `b` reads `frames` and takes `got`.
  pub record Mailed (b : Interface) (l : ℕ) (d : Socket) (frames got : List ℕ) : Type 0 where
    pub after : Interface
    pub socket : Socket
    pub reads : read b frames ≡ some after
    pub has : Has after l (AnySocket.datagram socket)
    pub gains : queue socket.ringbuf ≡ queue d.ringbuf ++ got
    pub left : room socket.ringbuf + length got ≡ room d.ringbuf
    pub same_port : socket.port ≡ d.port
    pub line : after.tx ≡ b.tx
    pub here : after.address ≡ b.address

  Mailed-none :
      (b : Interface) (l : ℕ) (d : Socket) → Has b l (AnySocket.datagram d) → Mailed b l d [] []
  Mailed-none b l d h = record {
    after = b;
    socket = d;
    reads = unfold read in refl;
    has = h;
    gains = sym (append-nil (queue d.ringbuf));
    left = omega arith;
    same_port = refl;
    line = refl;
    here = refl;
  }

  Mailed-then :
      {b : Interface} {l : ℕ} {d : Socket} {xs ys got more : List ℕ} (s : Mailed b l d xs got)
      → Mailed s.after l s.socket ys more
      → Mailed b l d (xs ++ ys) (got ++ more)
  Mailed-then {b = b} {d = d} {xs = xs} {ys = ys} {got = got} {more = more} s t = record {
    after = t.after;
    socket = t.socket;
    reads = read-then b xs ys s.after s.reads ∙ t.reads;
    has = t.has;
    gains = t.gains ∙ ap (λ q. q ++ more) s.gains ∙ append_assoc (queue d.ringbuf) got more;
    left = omega (arith, t.left, s.left, length-append got more);
    same_port = t.same_port ∙ s.same_port;
    line = t.line ∙ s.line;
    here = t.here ∙ s.here;
  }

  Mailed-one :
      (b : Interface) (l source dest port : ℕ) (xs : List ℕ) (d : Socket)
      → Has b l (AnySocket.datagram d)
      → dest ≡ b.address
      → port ≡ d.port
      → length xs ≤ 54
      → length xs ≤ room d.ringbuf
      → Mailed b l d (wire (Packet.datagram (carrying source dest port xs))) xs
  Mailed-one b l source dest port xs d h to_b to_port fit holds =
      let p = carrying source b.address d.port xs in
      let (b1, g) =
        hears_as b l source d.port xs (AnySocket.datagram d) _ _ h (datagram_port d) fit
          (arrive-datagram p b d) in
      record {
        after = b1;
        socket = record d {
          remote = source;
          ringbuf = Stream.store (E.payload.get p.payload) 0 (E.payload.size p.payload) d.ringbuf;
        };
        reads =
            ap₂ (λ a r. read b (wire (Packet.datagram (carrying source a r xs)))) to_b to_port
            ∙ g.reads;
        has = g.has;
        gains = gained d xs fit holds;
        left = gained_room d xs fit holds;
        same_port = refl;
        line = g.line;
        here = g.here;
      }

  chunk_frames-Mailed :
      (n i source dest port : ℕ) (bytes : ℕ → ℕ) (b : Interface) (l : ℕ) (d : Socket)
      → Has b l (AnySocket.datagram d)
      → dest ≡ b.address
      → port ≡ d.port
      → length (kept_chunks bytes n i) ≤ room d.ringbuf
      → Mailed b l d (chunk_frames source dest port bytes n i) (kept_chunks bytes n i)
  chunk_frames-Mailed zero i source dest port bytes b l d h to_b to_port holds = Mailed-none b l d h
  chunk_frames-Mailed (suc n) i source dest port bytes b l d h to_b to_port holds =
      let now = slice bytes (i * 58) 54 in
      let later = kept_chunks bytes n (i + 1) in
      let one =
        Mailed-one b l source dest port now d h to_b to_port
          (omega (arith, length-slice bytes (i * 58) 54))
          (omega (arith, holds, length-append now later)) in
      Mailed-then one (
        chunk_frames-Mailed n (i + 1) source dest port bytes one.after l one.socket one.has
          (to_b ∙ sym one.here) (to_port ∙ sym one.same_port)
          (omega (arith, holds, one.left, length-append now later)))

  write_frames-Mailed :
      (source dest port len : ℕ) (bytes : ℕ → ℕ) (b : Interface) (l : ℕ) (d : Socket)
      → Has b l (AnySocket.datagram d)
      → dest ≡ b.address
      → port ≡ d.port
      → length (kept bytes len) ≤ room d.ringbuf
      → Mailed b l d (write_frames source dest port bytes len) (kept bytes len)
  write_frames-Mailed source dest port len bytes b l d h to_b to_port holds =
      let whole = kept_chunks bytes (len / 58) 0 in
      let part = slice bytes (len / 58 * 58) (min 54 (len % 58)) in
      let first =
        chunk_frames-Mailed (len / 58) 0 source dest port bytes b l d h to_b to_port
          (omega (arith, holds, length-append whole part)) in
      Mailed-then first (elim (ℕ_discrete (len % 58) 0) [
        | yes e ↦ rw ((==_iff (len % 58) 0).1 e) (
            subst (Mailed first.after l first.socket [])
              (sym (ap (slice bytes (len / 58 * 58)) {y = 0} (none e)))
              (Mailed-none first.after l first.socket first.has))
        | no ne ↦ rw (ne→== (len % 58) 0 ne) (
            Mailed-one first.after l source dest port part first.socket first.has
              (to_b ∙ sym first.here) (to_port ∙ sym first.same_port)
              (omega
                (arith, length-slice bytes (len / 58 * 58) (min 54 (len % 58)), at_most (len % 58)))
              (omega (arith, holds, first.left, length-append whole part)))
      ])
    where
      none : len % 58 ≡ 0 → min 54 (len % 58) ≡ 0
      none e = ground arith

      at_most : (m : ℕ) → min 54 m ≤ 54
      at_most m = ground arith

  -- `write` of any number of bytes to the port of a datagram socket at another interface: when that
  -- interface has read what was sent, the socket has gained the first 54 bytes of each chunk of 58,
  -- and the first 54 at most of what is left behind the last full chunk, in order; the other bytes are
  -- lost, and nothing is sent back. A payload that is full ignores what is appended. The socket is the
  -- one bound socket on its port and its ring buffer has room for the bytes that arrive; the line is fresh, and the parser waits
  -- for no escaped byte.
  pub write-Mailed :
      (a b : Interface) (l len : ℕ) (bytes : ℕ → ℕ) (d : Socket)
      → IgnoresFull E.payload
      → Has b l (AnySocket.datagram d)
      → length (kept bytes len) ≤ room d.ringbuf
      → a.tx.sent ≡ []
      → Mailed b l d (write b.address d.port bytes len a).tx.sent (kept bytes len)
  write-Mailed a b l len bytes d drops h holds fresh =
      subst (λ xs. Mailed b l d xs (kept bytes len))
        (sym (write-sent b.address d.port len bytes a drops fresh))
        (write_frames-Mailed a.address b.address d.port len bytes b l d h refl refl holds)
