-- ===== src/Interface/Bursts/Reception.antt =====
-- What a server has taken and acknowledged when it has read a whole burst.
use pico_lan.Prelude.{
  ℕ, zero, suc, ◌+◌, ◌≤◌, ◌≡◌, ◌≢◌, refl, sym, subst, ap, ap₂, ◌∙◌, some, List, [], ◌∷◌, ◌++◌,
  append-nil, append_assoc, length, length-append, length-slice, ◌==◌, ==_iff, ne→==, if◌then◌else◌,
  u8, slice, arith, ℕ_discrete,
}
use pico_lan.Etk.{Etk}
use pico_lan.Serialiser.Pack.{Packet}
use pico_lan.Socket.{SocketStream, open_state, msg_data}
use pico_lan.Interface.{Interface, AnySocket, read}
use pico_lan.Interface.Hearing.{wire, read-then, carrying}
use pico_lan.Interface.Handshake.{send_ack-sent}
use pico_lan.Interface.Handshake.Messages.{Has}
use pico_lan.Interface.Bursts.Positions.{part}
use pico_lan.Interface.Bursts.Frames.{burst_frames}
use pico_lan.Interface.Bursts.OpenMessages.{server_hears_other}
use pico_lan.Interface.Bursts.Served.{
  heard, number_after, taken, ack_wire, ack_wires, took, took_lem, server_hears_next,
}

module _ ⦃E : Etk⦄ where
  open E.ring use {queue, room}

  -- The open server `v` at `b` reads `frames`: it takes `got`, ends at the number `number` and answers
  -- with `acks`.
  pub record Served (b : Interface) (l : ℕ) (v : SocketStream) (frames got : List ℕ) (number : ℕ)
      (acks : List ℕ) : Type 0 where
    pub after : Interface
    pub stream : SocketStream
    pub reads : read b frames ≡ some after
    pub has : Has after l (AnySocket.server stream)
    pub live : stream.state ≡ open_state
    pub gained : queue stream.ringbuf ≡ queue v.ringbuf ++ got
    pub left : room stream.ringbuf + length got ≡ room v.ringbuf
    pub at : stream.remote_sequence ≡ number
    pub line : after.tx.sent ≡ b.tx.sent ++ acks
    pub here : after.address ≡ b.address
    pub same_remote : stream.remote ≡ v.remote
    pub same_remote_port : stream.remote_port ≡ v.remote_port
    pub same_port : stream.port ≡ v.port
    pub same_sequence : stream.sequence_number ≡ v.sequence_number

  -- Two parts of what is read.
  Served-then :
      {b : Interface} {l : ℕ} {v : SocketStream} {xs ys got more : List ℕ} {n m : ℕ}
      {acks later : List ℕ} (s : Served b l v xs got n acks)
      → Served s.after l s.stream ys more m later
      → Served b l v (xs ++ ys) (got ++ more) m (acks ++ later)
  Served-then {b = b} {v = v} {xs = xs} {ys = ys} {got = got} {more = more} {acks = acks}
        {later = later} s t =
      record {
        after = t.after;
        stream = t.stream;
        reads = read-then b xs ys s.after s.reads ∙ t.reads;
        has = t.has;
        live = t.live;
        gained = t.gained ∙ ap (λ q. q ++ more) s.gained ∙ append_assoc (queue v.ringbuf) got more;
        left = omega (arith, t.left, s.left, length-append got more);
        at = t.at;
        line = t.line ∙ ap (λ q. q ++ later) s.line ∙ append_assoc b.tx.sent acks later;
        here = t.here ∙ s.here;
        same_remote = t.same_remote ∙ s.same_remote;
        same_remote_port = t.same_remote_port ∙ s.same_remote_port;
        same_port = t.same_port ∙ s.same_port;
        same_sequence = t.same_sequence ∙ s.same_sequence;
      }

  Served-next :
      (b : Interface) (l source dest port n : ℕ) (xs : List ℕ) (v : SocketStream)
      → Has b l (AnySocket.server v)
      → v.state ≡ open_state
      → v.remote ≡ source
      → dest ≡ b.address
      → port ≡ v.port
      → n ≡ u8 (v.remote_sequence + 1)
      → length xs ≤ 52
      → length xs ≤ room v.ringbuf
      → Served b l v
          (wire (Packet.datagram (carrying source dest port (msg_data ∷ n ∷ xs))))
          xs
          n
          (ack_wire b.address v.remote v.remote_port n)
  Served-next b l source dest port n xs v h live same to_b to_port next fit holds =
      let (j, g) = server_hears_next b l source n xs v h live same next fit in
      let (q, k) = took_lem v n xs fit holds in
      record {
        after = j;
        stream = took v n xs;
        reads =
            ap₂ (λ d r. read b (wire (Packet.datagram (carrying source d r (msg_data ∷ n ∷ xs)))))
              to_b to_port
            ∙ g.reads;
        has = g.has;
        live = live;
        gained = q;
        left = k;
        at = refl;
        line = ap (λ x. x.sent) g.line ∙ send_ack-sent b (took v n xs);
        here = g.here;
        same_remote = refl;
        same_remote_port = refl;
        same_port = refl;
        same_sequence = refl;
      }

  Served-other :
      (b : Interface) (l source dest port n : ℕ) (xs : List ℕ) (v : SocketStream)
      → Has b l (AnySocket.server v)
      → v.state ≡ open_state
      → v.remote ≡ source
      → dest ≡ b.address
      → port ≡ v.port
      → n ≢ u8 (v.remote_sequence + 1)
      → length xs ≤ 52
      → Served b l v
          (wire (Packet.datagram (carrying source dest port (msg_data ∷ n ∷ xs))))
          []
          v.remote_sequence
          (ack_wire b.address v.remote v.remote_port v.remote_sequence)
  Served-other b l source dest port n xs v h live same to_b to_port other fit =
      let (j, g) = server_hears_other b l source n xs v h live same other fit in
      record {
        after = j;
        stream = v;
        reads =
            ap₂ (λ d r. read b (wire (Packet.datagram (carrying source d r (msg_data ∷ n ∷ xs)))))
              to_b to_port
            ∙ g.reads;
        has = g.has;
        live = live;
        gained = sym (append-nil (queue v.ringbuf));
        left = omega arith;
        at = refl;
        line = ap (λ x. x.sent) g.line ∙ send_ack-sent b v;
        here = g.here;
        same_remote = refl;
        same_remote_port = refl;
        same_port = refl;
        same_sequence = refl;
      }

  -- One message, the next one or another.
  Served-one :
      (b : Interface) (l source dest port n : ℕ) (xs : List ℕ) (v : SocketStream)
      → Has b l (AnySocket.server v)
      → v.state ≡ open_state
      → v.remote ≡ source
      → dest ≡ b.address
      → port ≡ v.port
      → length xs ≤ 52
      → length (if n == u8 (v.remote_sequence + 1) then xs else []) ≤ room v.ringbuf
      → Served b l v
          (wire (Packet.datagram (carrying source dest port (msg_data ∷ n ∷ xs))))
          (if n == u8 (v.remote_sequence + 1) then xs else [])
          (heard v.remote_sequence n)
          (ack_wire b.address v.remote v.remote_port (heard v.remote_sequence n))
  Served-one b l source dest port n xs v h live same to_b to_port fit holds =
      elim (ℕ_discrete n (u8 (v.remote_sequence + 1))) [
        | yes e ↦ rw ((==_iff n (u8 (v.remote_sequence + 1))).1 e) (
            Served-next b l source dest port n xs v h live same to_b to_port e fit (
              subst (λ t. length (if t then xs else []) ≤ room v.ringbuf)
                ((==_iff n (u8 (v.remote_sequence + 1))).1 e) holds))
        | no ne ↦
            rw (ne→== n (u8 (v.remote_sequence + 1)) ne)
              (Served-other b l source dest port n xs v h live same to_b to_port ne fit)
      ]

  part_lem : (len p : ℕ) (bytes : ℕ → ℕ) → length (slice bytes p (part len p)) ≡ part len p
  part_lem len p bytes = length-slice bytes p (part len p)

  part_le : (len p : ℕ) → part len p ≤ 52
  part_le len p = ground arith

  -- A server with room for what it takes reads `k` packets from index `i` on.
  pub burst_frames-Served :
      (k i p len source : ℕ) (bytes : ℕ → ℕ) (c v : SocketStream) (b : Interface) (l : ℕ)
      → Has b l (AnySocket.server v)
      → v.state ≡ open_state
      → v.remote ≡ source
      → c.remote ≡ b.address
      → c.remote_port ≡ v.port
      → length (taken bytes len c.sequence_number k i v.remote_sequence p) ≤ room v.ringbuf
      → Served b l v
          (burst_frames source c bytes len k i p)
          (taken bytes len c.sequence_number k i v.remote_sequence p)
          (number_after c.sequence_number k i v.remote_sequence)
          (ack_wires b.address v.remote v.remote_port c.sequence_number k i v.remote_sequence)
  burst_frames-Served zero i p len source bytes c v b l h live same to_b to_port holds = record {
    after = b;
    stream = v;
    reads = unfold read in refl;
    has = h;
    live = live;
    gained = sym (append-nil (queue v.ringbuf));
    left = omega arith;
    at = refl;
    line = sym (append-nil b.tx.sent);
    here = refl;
    same_remote = refl;
    same_remote_port = refl;
    same_port = refl;
    same_sequence = refl;
  }
  burst_frames-Served (suc k) i p len source bytes c v b l h live same to_b to_port holds =
      let xs = slice bytes p (part len p) in
      let p1 = p + part len p in
      let q = c.sequence_number in
      let n = u8 (q + (i + 1)) in
      let now = if n == u8 (v.remote_sequence + 1) then xs else [] in
      let later = taken bytes len q k (i + 1) (heard v.remote_sequence n) p1 in
      let one =
        Served-one b l source c.remote c.remote_port n xs v h live same to_b to_port
          (omega (arith, part_lem len p bytes, part_le len p))
          (omega (arith, holds, length-append now later)) in
      let rest =
        burst_frames-Served k (i + 1) p1 len source bytes c one.stream one.after l one.has one.live
          (one.same_remote ∙ same) (to_b ∙ sym one.here) (to_port ∙ sym one.same_port)
          (subst (λ m. length (taken bytes len q k (i + 1) m p1) ≤ room one.stream.ringbuf)
            (sym one.at) (omega (arith, holds, one.left, length-append now later))) in
      let frames = burst_frames source c bytes len k (i + 1) p1 in
      Served-then one (
        subst
          (λ m.
            Served one.after l one.stream frames (taken bytes len q k (i + 1) m p1)
              (number_after q k (i + 1) m)
              (ack_wires b.address v.remote v.remote_port q k (i + 1) m))
          one.at
          (subst
            (λ m.
              Served one.after l one.stream frames
                (taken bytes len q k (i + 1) one.stream.remote_sequence p1)
                (number_after q k (i + 1) one.stream.remote_sequence) m)
            (ap₂
                (λ a d. ack_wires a d one.stream.remote_port q k (i + 1) one.stream.remote_sequence)
                one.here one.same_remote
              ∙ ap (λ d. ack_wires b.address v.remote d q k (i + 1) one.stream.remote_sequence)
                  one.same_remote_port)
            rest))
