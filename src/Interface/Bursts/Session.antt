-- ===== src/Interface/Bursts/Session.antt =====
-- Several writes, one behind the other, on a connection.
use pico_lan.Prelude.{
  ℕ, ◌+◌, ◌-◌, ◌<◌, ◌≤◌, ◌≡◌, ◌≢◌, sym, ap, ◌∙◌, subst, some, List, [], ◌∷◌, ◌++◌, append-nil,
  append_assoc, length-slice, u8, slice, arith,
}
use pico_lan.Etk.{Etk}
use pico_lan.Socket.{SocketStream}
use pico_lan.Interface.{Interface, read}
use pico_lan.Interface.Waiting.{Round}
use pico_lan.Interface.Bursts.{packets_to_send, wrote, stream_write}
use pico_lan.Interface.Bursts.Positions.{more_packets}
use pico_lan.Interface.Bursts.Exchange.{Joined, answered}
use pico_lan.Interface.Bursts.Whole.{Writes, stream_write-Writes, stream_write_again-Writes}

-- A write and what it meets: the clock behind its packets and behind the round in which the answers
-- come, and the rounds behind that one.
pub record Outgoing : Type 0 where
  pub bytes : ℕ → ℕ
  pub len : ℕ
  pub start : ℕ
  pub answered_at : ℕ
  pub rest : List Round

-- Each write has 1 to 208 bytes, and the number of its last packet is not 255; `q` is the sequence
-- number before the first one.
abbrev pub Sendable : ℕ → List Outgoing → Type 0
Sendable q [] = Unit
Sendable q (w ∷ ws) =
    (0 < w.len)
    × (w.len ≤ 208)
    × (u8 (q + packets_to_send w.len) ≢ 255)
    × Sendable (u8 (q + more_packets w.len)) ws

abbrev pub total : List Outgoing → ℕ
total [] = 0
total (w ∷ ws) = w.len + total ws

-- All bytes but the first 52 of each write.
abbrev pub without_first : List Outgoing → List ℕ
without_first [] = []
without_first (w ∷ ws) = slice w.bytes 52 (w.len - 52) ++ without_first ws

module _ ⦃E : Etk⦄ where
  open E.ring use {queue, room}

  -- The writes of the stream `la` at the first interface return the numbers of their bytes, when the
  -- second interface reads what each has sent and its answers come back; `a` and `b` become `a2` and
  -- `b2`.
  pub data Talk (la : ℕ)
      : Interface → Interface → List Outgoing → Interface → Interface → Type 0 where
    over : {a b : Interface} → Talk la a b [] a b
    says :
        {a b a1 b1 a2 b2 : Interface} {w : Outgoing} {ws : List Outgoing} (frames answers : List ℕ)
        → stream_write (answered w.start w.answered_at answers w.rest ∷ []) la w.bytes w.len a
          ≡ some (wrote w.len a1)
        → a1.tx.sent ≡ a.tx.sent ++ frames
        → read b frames ≡ some b1
        → b1.tx.sent ≡ b.tx.sent ++ answers
        → Talk la a1 b1 ws a2 b2
        → Talk la a b (w ∷ ws) a2 b2

  -- A session of writes behind which the server has gained `got`.
  pub record Session (a b : Interface) (la lb : ℕ) (ws : List Outgoing) (got : List ℕ)
      (v : SocketStream) : Type 0 where
    pub a2 : Interface
    pub b2 : Interface
    pub c2 : SocketStream
    pub v2 : SocketStream
    pub talk : Talk la a b ws a2 b2
    pub joined : Joined a2 b2 la lb c2 v2
    pub gained : queue v2.ringbuf ≡ queue v.ringbuf ++ got

  -- One write, then others.
  Session-says :
      (a b : Interface) (la lb : ℕ) (w : Outgoing) (ws : List Outgoing) (got more : List ℕ)
      (c v : SocketStream)
      (x : Writes a b la lb w.start w.answered_at w.len w.bytes got w.rest [] c v)
      → Session x.a2 x.b1 la lb ws more x.v1
      → Session a b la lb (w ∷ ws) (got ++ more) v
  Session-says a b la lb w ws got more c v x s = record {
    a2 = s.a2;
    b2 = s.b2;
    c2 = s.c2;
    v2 = s.v2;
    talk = says x.frames x.answers x.returns x.sends x.heard x.replies s.talk;
    joined = s.joined;
    gained = s.gained ∙ ap (λ q. q ++ more) x.gained ∙ append_assoc (queue v.ringbuf) got more;
  }

  later_writes-Session :
      (a b : Interface) (la lb : ℕ) (ws : List Outgoing) (c v : SocketStream)
      → Joined a b la lb c v
      → v.remote_sequence ≡ u8 (c.sequence_number + 1)
      → c.sequence_number < 256
      → Sendable c.sequence_number ws
      → total ws ≤ room v.ringbuf
      → Session a b la lb ws (without_first ws) v
  later_writes-Session a b la lb [] c v h behind byte sendable holds = record {
    a2 = a;
    b2 = b;
    c2 = c;
    v2 = v;
    talk = over;
    joined = h;
    gained = sym (append-nil (queue v.ringbuf));
  }
  later_writes-Session a b la lb (w ∷ ws) c v h behind byte (some_bytes, fits, ne, sendable) holds =
      let got = slice w.bytes 52 (w.len - 52) in
      let x =
        stream_write_again-Writes a b la lb w.start w.answered_at w.len w.bytes w.rest [] c v h
          behind byte ne some_bytes fits (omega arith) in
      Session-says a b la lb w ws got (without_first ws) c v x (
        later_writes-Session x.a2 x.b1 la lb ws x.c2 x.v1 x.joined x.numbers
          (omega (arith, x.counted)) (subst (λ q. Sendable q ws) (sym x.counted) sendable)
          (omega (arith, x.left, length-slice w.bytes 52 (w.len - 52), holds)))

  -- On a connection whose two ends agree on the last number, any sequence of writes of 1 to 208 bytes
  -- returns the number of bytes each time, though the server takes all bytes of the first write only,
  -- and loses the first 52 bytes of each later one. The server's answers to each write come in one
  -- round, and nothing comes while the packets are sent; the server's ring buffer has room for
  -- the bytes of all writes; and
  -- the number of the last packet of a write is never 255.
  pub writes-Session :
      (a b : Interface) (la lb : ℕ) (w : Outgoing) (ws : List Outgoing) (c v : SocketStream)
      → Joined a b la lb c v
      → v.remote_sequence ≡ c.sequence_number
      → c.sequence_number < 256
      → Sendable c.sequence_number (w ∷ ws)
      → total (w ∷ ws) ≤ room v.ringbuf
      → Session a b la lb (w ∷ ws) (slice w.bytes 0 w.len ++ without_first ws) v
  writes-Session a b la lb w ws c v h agree byte (some_bytes, fits, ne, sendable) holds =
      let x =
        stream_write-Writes a b la lb w.start w.answered_at w.len w.bytes w.rest [] c v h agree byte
          ne some_bytes fits (omega arith) in
      Session-says a b la lb w ws (slice w.bytes 0 w.len) (without_first ws) c v x (
        later_writes-Session x.a2 x.b1 la lb ws x.c2 x.v1 x.joined x.numbers
          (omega (arith, x.counted)) (subst (λ q. Sendable q ws) (sym x.counted) sendable)
          (omega (arith, x.left, length-slice w.bytes 0 w.len, holds)))
