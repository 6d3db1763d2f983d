-- ===== src/Interface/Bursts/Whole.antt =====
-- A write of up to four packets on a connection whose two ends agree on the numbers, and one on a
-- connection as such a write leaves it.
use pico_lan.Prelude.{
  ℕ, ◌+◌, ◌-◌, ◌<◌, ◌≤◌, ◌≡◌, ◌≢◌, subst, ap, ◌∙◌, some, List, ◌∷◌, ◌++◌, length, u8, slice, ne→==,
  arith,
}
use pico_lan.Etk.{Etk}
use pico_lan.Socket.{SocketStream, open_state}
use pico_lan.Socket.Stream.{connected}
use pico_lan.Interface.{Interface, read}
use pico_lan.Interface.Waiting.{Round}
use pico_lan.Interface.Connecting.{stream_of}
use pico_lan.Interface.Bursts.{Burst, packets_to_send, burst, go_on, wrote, bursts, stream_write}
use pico_lan.Interface.Bursts.Positions.{more_packets}
use pico_lan.Interface.Bursts.Exchange.{Joined, answered}
use pico_lan.Interface.Bursts.Turns.{burst_part, Turn, in_step-Turn, one_behind-Turn}

one_burst : (len : ℕ) → len ≤ 208 → burst_part len 0 ≡ len
one_burst len fits = ground arith

module _ ⦃E : Etk⦄ where
  open E.ring use {queue, room}

  pub stream_write-wrote :
      (env : Burst) (envs : List Burst) (l len : ℕ) (bytes : ℕ → ℕ) (a j : Interface)
      (c : SocketStream)
      → stream_of (a.heap l) ≡ some c
      → c.state ≡ open_state
      → 0 < len
      → burst env l bytes len 0 0 a ≡ some (go_on len 0 j)
      → stream_write (env ∷ envs) l bytes len a ≡ some (wrote len j)
  unfolding stream_write bursts connected
  stream_write-wrote env envs l len bytes a j c here live some_bytes e =
      rw here (rw live (rw (ne→== len 0 (λ z. omega arith)) (rw e (ground arith))))

  -- `write` returns `len` when the answers to what it has sent have come in one round; the server that
  -- has read it has gained `got` and has the number behind that of the client. They are still connected.
  pub record Writes (a b : Interface) (la lb start t len : ℕ) (bytes : ℕ → ℕ) (got : List ℕ)
      (rest : List Round) (envs : List Burst) (c v : SocketStream) : Type 0 where
    pub a2 : Interface
    pub b1 : Interface
    pub c2 : SocketStream
    pub v1 : SocketStream
    pub frames : List ℕ
    pub answers : List ℕ
    pub returns :
        stream_write (answered start t answers rest ∷ envs) la bytes len a ≡ some (wrote len a2)
    pub sends : a2.tx.sent ≡ a.tx.sent ++ frames
    pub heard : read b frames ≡ some b1
    pub replies : b1.tx.sent ≡ b.tx.sent ++ answers
    pub joined : Joined a2 b1 la lb c2 v1
    pub gained : queue v1.ringbuf ≡ queue v.ringbuf ++ got
    pub left : room v1.ringbuf + length got ≡ room v.ringbuf
    pub numbers : v1.remote_sequence ≡ u8 (c2.sequence_number + 1)
    pub counted : c2.sequence_number ≡ u8 (c.sequence_number + more_packets len)

  -- The write that is one burst.
  Turn-Writes :
      (a b : Interface) (la lb start t len : ℕ) (bytes : ℕ → ℕ) (got : List ℕ) (rest : List Round)
      (envs : List Burst) (c v : SocketStream)
      → Joined a b la lb c v
      → Turn a b la lb start t len 0 bytes got rest c v
      → 0 < len
      → len ≤ 208
      → Writes a b la lb start t len bytes got rest envs c v
  Turn-Writes a b la lb start t len bytes got rest envs c v h x some_bytes fits = record {
    a2 = x.a1;
    b1 = x.b1;
    c2 = x.c1;
    v1 = x.v1;
    frames = x.frames;
    answers = x.answers;
    returns =
        stream_write-wrote (answered start t x.answers rest) envs la len bytes a x.a1 c
          (ap stream_of h.client_here.there) h.client_open some_bytes
          (x.ends ∙ ap (λ m. some (go_on m 0 x.a1)) {y = len} (omega (arith, one_burst len fits)));
    sends = x.sends;
    heard = x.heard;
    replies = x.replies;
    joined = x.joined;
    gained = x.gained;
    left = x.left;
    numbers = x.numbers;
    counted = x.counted ∙ ap (λ n. u8 (c.sequence_number + more_packets n)) {y = len} (omega arith);
  }

  -- On a connection whose two ends agree on the last number, a write of 1 to 208 bytes returns the
  -- number of bytes, and the server that reads its packets takes just those bytes, in order. The
  -- server's answers come in one round, and nothing comes while the packets are sent; the ring
  -- buffer of the server has room for the bytes; and the last packet's number is not 255.
  pub stream_write-Writes :
      (a b : Interface) (la lb start t len : ℕ) (bytes : ℕ → ℕ) (rest : List Round)
      (envs : List Burst) (c v : SocketStream)
      → Joined a b la lb c v
      → v.remote_sequence ≡ c.sequence_number
      → c.sequence_number < 256
      → u8 (c.sequence_number + packets_to_send len) ≢ 255
      → 0 < len
      → len ≤ 208
      → len ≤ room v.ringbuf
      → Writes a b la lb start t len bytes (slice bytes 0 len) rest envs c v
  stream_write-Writes a b la lb start t len bytes rest envs c v h agree byte ne some_bytes fits
        holds =
      let whole : burst_part len 0 ≡ len = one_burst len fits in
      Turn-Writes a b la lb start t len bytes (slice bytes 0 len) rest envs c v h
        (subst (λ n. Turn a b la lb start t len 0 bytes (slice bytes 0 n) rest c v) whole
          (in_step-Turn a b la lb start t len 0 bytes rest c v h agree byte
            (λ z.
              ne (ap (λ n. u8 (c.sequence_number + packets_to_send n)) {x = len} (omega arith) ∙ z))
            some_bytes (omega (arith, whole, holds))))
        some_bytes fits

  -- A write of 1 to 208 bytes on a connection on which the server's number is one more than that of
  -- the client, as each successful write leaves it: `write` returns the number of bytes though the
  -- server takes none of the first packet, which has the first 52 bytes, and only the others. The
  -- server's answers come in one round, and nothing comes while the packets are sent; the ring
  -- buffer of the server has room for the bytes; and the last packet's number is not 255.
  pub stream_write_again-Writes :
      (a b : Interface) (la lb start t len : ℕ) (bytes : ℕ → ℕ) (rest : List Round)
      (envs : List Burst) (c v : SocketStream)
      → Joined a b la lb c v
      → v.remote_sequence ≡ u8 (c.sequence_number + 1)
      → c.sequence_number < 256
      → u8 (c.sequence_number + packets_to_send len) ≢ 255
      → 0 < len
      → len ≤ 208
      → len ≤ room v.ringbuf
      → Writes a b la lb start t len bytes (slice bytes 52 (len - 52)) rest envs c v
  stream_write_again-Writes a b la lb start t len bytes rest envs c v h behind byte ne some_bytes
        fits holds =
      let whole : burst_part len 0 ≡ len = one_burst len fits in
      Turn-Writes a b la lb start t len bytes (slice bytes 52 (len - 52)) rest envs c v h
        (subst (λ n. Turn a b la lb start t len 0 bytes (slice bytes 52 (n - 52)) rest c v) whole
          (one_behind-Turn a b la lb start t len 0 bytes rest c v h behind byte
            (λ z.
              ne (ap (λ n. u8 (c.sequence_number + packets_to_send n)) {x = len} (omega arith) ∙ z))
            some_bytes (omega (arith, whole, holds))))
        some_bytes fits
