-- ===== src/Interface/Bursts/Long.antt =====
-- A write of any length: its bursts one behind the other.
use pico_lan.Prelude.{
  ℕ, ◌+◌, ◌-◌, ◌*◌, ◌<◌, ◌≤◌, ◌≡◌, ◌≢◌, refl, sym, ap, ◌∙◌, some, List, [], ◌∷◌, ◌++◌, append-nil,
  append_assoc, length, length-slice, ==_iff, ne→==, slice, arith,
}
use pico_lan.Etk.{Etk}
use pico_lan.Socket.{SocketStream}
use pico_lan.Interface.{Interface, read}
use pico_lan.Interface.Waiting.{Round}
use pico_lan.Interface.Connecting.{stream_of}
use pico_lan.Interface.Bursts.{Burst, burst, go_on, wrote, bursts, stream_write}
use pico_lan.Interface.Bursts.Exchange.{Joined, answered}
use pico_lan.Interface.Bursts.Positions.{packets_to_send_lem}
use pico_lan.Interface.Bursts.Silence.{stream_write-bursts}
use pico_lan.Interface.Bursts.Turns.{burst_part, Turn, in_step-Turn, one_behind-Turn}

-- The clock behind the packets of a burst and behind the round in which its answers come, and the
-- rounds behind that one.
pub record Timing : Type 0 where
  pub start : ℕ
  pub answered_at : ℕ
  pub rest : List Round

-- The bytes from position `p` on in bursts of 208, but for the first 52 of each burst.
abbrev pub later_bursts : (ℕ → ℕ) → ℕ → ℕ → List Timing → List ℕ
later_bursts bytes len p [] = []
later_bursts bytes len p (t ∷ ts) =
    slice bytes (p + 52) (burst_part len p - 52) ++ later_bursts bytes len (p + burst_part len p) ts

burst_part_le : (len p : ℕ) → burst_part len p ≤ len - p
burst_part_le len p = ground arith

module _ ⦃E : Etk⦄ where
  open E.ring use {queue, room}

  -- The bursts of a write from a position on, one for each timing, where the second interface reads
  -- what each burst has sent and its answers come back at that timing; `a` and `b` become `a2` and `b2`.
  -- What the bursts meet is fixed by the timings and by the bytes that the second interface sends.
  pub data Bursting (la len : ℕ) (bytes : ℕ → ℕ)
      : ℕ → Interface → Interface → List Timing → List Burst → Interface → Interface → Type 0 where
    last :
        {p : ℕ} {a b a1 b1 : Interface} (t : Timing) (frames answers : List ℕ)
        → burst (answered t.start t.answered_at answers t.rest) la bytes len p 0 a
          ≡ some (go_on len 0 a1)
        → a1.tx.sent ≡ a.tx.sent ++ frames
        → read b frames ≡ some b1
        → b1.tx.sent ≡ b.tx.sent ++ answers
        → Bursting la len bytes p a b
            (t ∷ [])
            (answered t.start t.answered_at answers t.rest ∷ [])
            a1
            b1
    further :
        {p : ℕ} {a b a1 b1 a2 b2 : Interface} {ts : List Timing} {envs : List Burst} (t : Timing)
        (q : ℕ) (frames answers : List ℕ)
        → burst (answered t.start t.answered_at answers t.rest) la bytes len p 0 a
          ≡ some (go_on q 0 a1)
        → q ≢ len
        → a1.tx.sent ≡ a.tx.sent ++ frames
        → read b frames ≡ some b1
        → b1.tx.sent ≡ b.tx.sent ++ answers
        → Bursting la len bytes q a1 b1 ts envs a2 b2
        → Bursting la len bytes p a b
            (t ∷ ts)
            (answered t.start t.answered_at answers t.rest ∷ envs)
            a2
            b2

  bursts-last :
      (env : Burst) (envs : List Burst) (l len p : ℕ) (bytes : ℕ → ℕ) (i j : Interface)
      → burst env l bytes len p 0 i ≡ some (go_on len 0 j)
      → bursts (env ∷ envs) l bytes len p 0 i ≡ some (wrote len j)
  unfolding bursts
  bursts-last env envs l len p bytes i j e = rw e (rw ((==_iff len len).1 refl) refl)

  bursts-further :
      (env : Burst) (envs : List Burst) (l len p q : ℕ) (bytes : ℕ → ℕ) (i j : Interface)
      → burst env l bytes len p 0 i ≡ some (go_on q 0 j)
      → q ≢ len
      → bursts (env ∷ envs) l bytes len p 0 i ≡ bursts envs l bytes len q 0 j
  unfolding bursts
  bursts-further env envs l len p q bytes i j e ne = rw e (rw (ne→== q len ne) refl)

  Bursting-wrote :
      (la len : ℕ) (bytes : ℕ → ℕ) (p : ℕ) (a b a2 b2 : Interface) (ts : List Timing)
      (envs : List Burst)
      → Bursting la len bytes p a b ts envs a2 b2
      → bursts envs la bytes len p 0 a ≡ some (wrote len a2)
  Bursting-wrote la len bytes p a b a2 b2 _ _ (last t frames answers ends sends heard replies) =
      bursts-last (answered t.start t.answered_at answers t.rest) [] la len p bytes a a2 ends
  Bursting-wrote la len bytes p a b a2 b2 _ _
        (further {a1 = a1} {b1 = b1} {ts = ts} {envs = envs} t q frames answers ends ne sends heard
          replies others) =
      bursts-further (answered t.start t.answered_at answers t.rest) envs la len p q bytes a a1 ends
        ne
      ∙ Bursting-wrote la len bytes q a1 b1 a2 b2 ts envs others

  -- The bursts from position `p` on at the timings `ts`, behind which the server has gained `got`.
  pub record Flow (a b : Interface) (la lb len p : ℕ) (bytes : ℕ → ℕ) (got : List ℕ)
      (ts : List Timing) (v : SocketStream) : Type 0 where
    pub envs : List Burst
    pub a2 : Interface
    pub b2 : Interface
    pub c2 : SocketStream
    pub v2 : SocketStream
    pub bursting : Bursting la len bytes p a b ts envs a2 b2
    pub joined : Joined a2 b2 la lb c2 v2
    pub gained : queue v2.ringbuf ≡ queue v.ringbuf ++ got

  -- One burst, then those for the other timings, if there are any.
  Flow-from :
      (a b : Interface) (la lb len p : ℕ) (bytes : ℕ → ℕ) (got : List ℕ) (t : Timing)
      (ts : List Timing) (c v : SocketStream)
      → Turn a b la lb t.start t.answered_at len p bytes got t.rest c v
      → c.sequence_number + 4 + 4 * length ts < 255
      → p < len
      → len - p ≤ 208 + 208 * length ts
      → 208 * length ts < len - p
      → length got ≤ burst_part len p
      → len - p ≤ room v.ringbuf
      → Flow a b la lb len p bytes
          (got ++ later_bursts bytes len (p + burst_part len p) ts)
          (t ∷ ts)
          v
  Flow-from a b la lb len p bytes got t [] c v x small more few needed some_of holds = record {
    envs = _;
    a2 = x.a1;
    b2 = x.b1;
    c2 = x.c1;
    v2 = x.v1;
    bursting =
        last t x.frames x.answers (x.ends ∙ ap (λ m. some (go_on m 0 x.a1)) (ground arith)) x.sends
          x.heard x.replies;
    joined = x.joined;
    gained = x.gained ∙ ap (λ xs. queue v.ringbuf ++ xs) (sym (append-nil got));
  }
  Flow-from a b la lb len p bytes got t (t2 ∷ ts) c v x small more few needed some_of holds =
      let p1 = p + burst_part len p in
      let full : burst_part len p ≡ 208 = ground arith in
      let (count, packets) = packets_to_send_lem (len - p) (omega arith) in
      let slow : x.c1.sequence_number ≤ c.sequence_number + 3 = omega (arith, x.counted, packets) in
      let p1_lt : p1 < len = omega (arith, full, needed) in
      let space : len - p1 ≤ room x.v1.ringbuf = omega (arith, x.left, some_of, holds, full) in
      let got2 = slice bytes (p1 + 52) (burst_part len p1 - 52) in
      let (next_count, next_few) = packets_to_send_lem (len - p1) (omega arith) in
      let next =
        one_behind-Turn x.a1 x.b1 la lb t2.start t2.answered_at len p1 bytes t2.rest x.c1 x.v1
          x.joined x.numbers (omega (arith, small, slow))
          (λ z. omega (arith, z, small, slow, next_count, next_few)) p1_lt
          (omega (arith, burst_part_le len p1, space)) in
      let rest =
        Flow-from x.a1 x.b1 la lb len p1 bytes got2 t2 ts x.c1 x.v1 next
          (omega (arith, small, slow)) p1_lt (omega (arith, full, few))
          (omega (arith, full, needed))
          (omega (arith, length-slice bytes (p1 + 52) (burst_part len p1 - 52))) space in
      record {
        envs = _;
        a2 = rest.a2;
        b2 = rest.b2;
        c2 = rest.c2;
        v2 = rest.v2;
        bursting =
            further t p1 x.frames x.answers x.ends (λ z. omega (arith, p1_lt)) x.sends x.heard
              x.replies rest.bursting;
        joined = rest.joined;
        gained =
            rest.gained
            ∙ ap (λ xs. xs ++ (got2 ++ later_bursts bytes len (p1 + burst_part len p1) ts)) x.gained
            ∙ append_assoc (queue v.ringbuf) got _;
      }

  -- On a connection whose two ends agree on the last number, whatever the timing of each burst, a
  -- write returns the number of bytes when the server's answers to each burst come in one round at that
  -- timing and nothing comes while packets are sent. The server has then taken all bytes of the first
  -- burst, the first 208 at most, and of each later burst of 208 bytes at most all but the first 52.
  -- There is one timing for each burst, the server's ring buffer has room for all bytes of the write,
  -- and the numbers of the packets stay below 255.
  pub stream_write-Flow :
      (a b : Interface) (la lb len : ℕ) (bytes : ℕ → ℕ) (t : Timing) (ts : List Timing)
      (c v : SocketStream)
      → Joined a b la lb c v
      → v.remote_sequence ≡ c.sequence_number
      → c.sequence_number + 4 + 4 * length ts < 255
      → len ≤ 208 + 208 * length ts
      → 208 * length ts < len
      → len ≤ room v.ringbuf
      → (f : Flow a b la lb len 0 bytes
          (slice bytes 0 (burst_part len 0) ++ later_bursts bytes len (0 + burst_part len 0) ts)
          (t ∷ ts)
          v)
        × (stream_write f.envs la bytes len a ≡ some (wrote len f.a2))
  stream_write-Flow a b la lb len bytes t ts c v h agree small few needed holds =
      let (count, packets) = packets_to_send_lem (len - 0) (omega (arith, needed)) in
      let x =
        in_step-Turn a b la lb t.start t.answered_at len 0 bytes t.rest c v h agree
          (omega (arith, small)) (λ z. omega (arith, z, small, count, packets))
          (omega (arith, needed)) (omega (arith, burst_part_le len 0, holds)) in
      let f =
        Flow-from a b la lb len 0 bytes (slice bytes 0 (burst_part len 0)) t ts c v x small
          (omega (arith, needed)) (omega (arith, few)) (omega (arith, needed))
          (omega (arith, length-slice bytes 0 (burst_part len 0))) (omega (arith, holds)) in
      (
        f,
        stream_write-bursts f.envs la len bytes a c (ap stream_of h.client_here.there) h.client_open
              (omega (arith, needed))
            ∙ Bursting-wrote la len bytes 0 a b f.a2 f.b2 (t ∷ ts) f.envs f.bursting,
      )
