-- ===== src/Interface/Bursts/Turns.antt =====
-- One burst of a write from any position on, as the client and the server see it.
use pico_lan.Prelude.{
  ℕ, zero, suc, ◌+◌, ◌-◌, ◌*◌, ◌<◌, ◌≤◌, ◌≡◌, ◌≢◌, refl, sym, ap, ap₂, ◌∙◌, some, List, ◌++◌,
  length, length-slice, u8, slice, arith, dec_lt,
}
use pico_lan.Etk.{Etk}
use pico_lan.Socket.{SocketStream}
use pico_lan.Interface.{Interface, read}
use pico_lan.Interface.Waiting.{Round}
use pico_lan.Interface.Connecting.{put_stream}
use pico_lan.Interface.Handshake.Messages.{put_client}
use pico_lan.Interface.Bursts.{min, packets_to_send, burst, go_on}
use pico_lan.Interface.Bursts.Positions.{part, more_packets, packets_to_send_lem}
use pico_lan.Interface.Bursts.Frames.{burst_frames}
use pico_lan.Interface.Bursts.Acked.{gone, pos_after-gone, in_step, one_behind}
use pico_lan.Interface.Bursts.Ending.{burst-answered}
use pico_lan.Interface.Bursts.Exchange.{Joined, Exchange, answered, burst-Exchange, Exchange-Joined}

-- The number of bytes in the burst that starts at position `p` of `len`.
abbrev pub burst_part : ℕ → ℕ → ℕ
burst_part len p = min 208 (len - p)

gone_lem : (len m p : ℕ) → gone len m p ≡ min (52 * m) (len - p)
gone_lem len zero p = ground arith
gone_lem len (suc m) p = ap (λ n. part len p + n) (gone_lem len m (p + part len p)) ∙ ground arith

packets_to_send-min : (left : ℕ) → min (52 * packets_to_send left) left ≡ min 208 left
unfolding packets_to_send
packets_to_send-min left = ground arith

gone-burst_part :
    (len p k : ℕ) → packets_to_send (len - p) ≡ suc k → gone len (suc k) p ≡ burst_part len p
gone-burst_part len p k count =
    gone_lem len (suc k) p
    ∙ ap (λ m. min (52 * m) (len - p)) (sym count)
    ∙ packets_to_send-min (len - p)

-- The bytes of the packets behind the first one of a burst.
others :
    (bytes : ℕ → ℕ) (len p k : ℕ)
    → packets_to_send (len - p) ≡ suc k
    → slice bytes (p + part len p) (gone len k (p + part len p))
      ≡ slice bytes (p + 52) (burst_part len p - 52)
others bytes len p k count = elim (dec_lt (len - p) 52) [
  | yes short ↦
      ap (slice bytes (p + part len p)) {y = 0} (omega (arith, all, whole short, small short))
      ∙ sym (ap (slice bytes (p + 52)) {y = 0} (omega (arith, small short)))
  | no long ↦
      ap₂ (slice bytes) (ap (λ n. p + n) (first (omega arith)))
        (omega (arith, all, first (omega arith)))
]
  where
    all : part len p + gone len k (p + part len p) ≡ burst_part len p
    all = gone-burst_part len p k count

    first : 52 ≤ len - p → part len p ≡ 52
    first h = ground arith

    whole : len - p < 52 → part len p ≡ len - p
    whole h = ground arith

    small : len - p < 52 → burst_part len p ≡ len - p
    small h = ground arith

module _ ⦃E : Etk⦄ where
  open E.ring use {queue, room}

  -- The burst from `p` on whose answers have come in one round: the server that has read it has gained
  -- `got` and has the number behind that of the client. They are still connected.
  pub record Turn (a b : Interface) (la lb start t len p : ℕ) (bytes : ℕ → ℕ) (got : List ℕ)
      (rest : List Round) (c v : SocketStream) : Type 0 where
    pub a1 : Interface
    pub b1 : Interface
    pub c1 : SocketStream
    pub v1 : SocketStream
    pub frames : List ℕ
    pub answers : List ℕ
    pub ends :
        burst (answered start t answers rest) la bytes len p 0 a
        ≡ some (go_on (p + burst_part len p) 0 a1)
    pub sends : a1.tx.sent ≡ a.tx.sent ++ frames
    pub heard : read b frames ≡ some b1
    pub replies : b1.tx.sent ≡ b.tx.sent ++ answers
    pub joined : Joined a1 b1 la lb c1 v1
    pub gained : queue v1.ringbuf ≡ queue v.ringbuf ++ got
    pub left : room v1.ringbuf + length got ≡ room v.ringbuf
    pub numbers : v1.remote_sequence ≡ u8 (c1.sequence_number + 1)
    pub counted : c1.sequence_number ≡ u8 (c.sequence_number + more_packets (len - p))

  Exchange-Turn :
      (a b : Interface) (la lb start t len p k n : ℕ) (bytes : ℕ → ℕ) (got : List ℕ)
      (rest : List Round) (c v : SocketStream)
      → Joined a b la lb c v
      → Exchange a b la lb start t len p k n bytes got rest c v
      → packets_to_send (len - p) ≡ suc k
      → k < 4
      → c.sequence_number < 256
      → n ≡ u8 (c.sequence_number + suc k)
      → n ≢ 255
      → Turn a b la lb start t len p bytes got rest c v
  Exchange-Turn a b la lb start t len p k n bytes got rest c v h x count few byte e ne =
      let c2 : SocketStream = record c {
        last_recved_ack = n;
        sequence_number = u8 (c.sequence_number + k);
      } in
      let a2 = put_stream la (c2, x.acked.after.tx) x.acked.after in
      record {
        a1 = a2;
        b1 = x.served.after;
        c1 = c2;
        v1 = x.served.stream;
        frames = burst_frames a.address c bytes len (suc k) 0 p;
        answers = x.answers;
        ends =
            burst-answered la start t len p n k bytes x.answers rest a c x.sent x.acked count few
              byte e ne (x.final ∙ sym e)
            ∙ ap (λ m. some (go_on m 0 a2))
                (pos_after-gone len (suc k) p ∙ ap (λ m. p + m) (gone-burst_part len p k count));
        sends = x.on_line;
        heard = x.served.reads;
        replies = x.served.line;
        joined =
            Exchange-Joined a b a2 la lb start t len p k n bytes got rest c c2 v h x
              (put_client x.acked.after la _ c2 x.acked.after.tx x.acked.has refl) x.here
              (refl, refl, refl);
        gained = x.served.gained;
        left = x.served.left;
        numbers = x.served.at ∙ e ∙ omega arith;
        counted = ap (λ m. u8 (c.sequence_number + m)) (omega (arith, count));
      }

  -- A burst on a connection whose two ends agree on the number.
  pub in_step-Turn :
      (a b : Interface) (la lb start t len p : ℕ) (bytes : ℕ → ℕ) (rest : List Round)
      (c v : SocketStream)
      → Joined a b la lb c v
      → v.remote_sequence ≡ c.sequence_number
      → c.sequence_number < 256
      → u8 (c.sequence_number + packets_to_send (len - p)) ≢ 255
      → p < len
      → burst_part len p ≤ room v.ringbuf
      → Turn a b la lb start t len p bytes (slice bytes p (burst_part len p)) rest c v
  in_step-Turn a b la lb start t len p bytes rest c v h agree byte ne more holds =
      let k = more_packets (len - p) in
      let q = c.sequence_number in
      let got = slice bytes p (burst_part len p) in
      let (count, few) = packets_to_send_lem (len - p) (omega arith) in
      let (at, all) = in_step bytes len q (suc k) 0 v.remote_sequence p (omega (arith, agree)) in
      Exchange-Turn a b la lb start t len p k (u8 (q + suc k)) bytes got rest c v h
        (burst-Exchange a b la lb start t len p k (u8 (q + suc k)) bytes got rest c v h
          (at ∙ ap u8 {x = q + (0 + suc k)} (omega arith))
          (all ∙ ap (slice bytes p) (gone-burst_part len p k count))
          (omega (arith, length-slice bytes p (burst_part len p), holds)))
        count few byte refl (λ z. ne (ap (λ m. u8 (q + m)) count ∙ z))

  -- A burst on a connection on which the server has the number of the first packet already.
  pub one_behind-Turn :
      (a b : Interface) (la lb start t len p : ℕ) (bytes : ℕ → ℕ) (rest : List Round)
      (c v : SocketStream)
      → Joined a b la lb c v
      → v.remote_sequence ≡ u8 (c.sequence_number + 1)
      → c.sequence_number < 256
      → u8 (c.sequence_number + packets_to_send (len - p)) ≢ 255
      → p < len
      → burst_part len p ≤ room v.ringbuf
      → Turn a b la lb start t len p bytes (slice bytes (p + 52) (burst_part len p - 52)) rest c v
  one_behind-Turn a b la lb start t len p bytes rest c v h behind byte ne more holds =
      let k = more_packets (len - p) in
      let q = c.sequence_number in
      let got = slice bytes (p + 52) (burst_part len p - 52) in
      let (count, few) = packets_to_send_lem (len - p) (omega arith) in
      let (at, all) =
        one_behind bytes len q k 0 v.remote_sequence p (behind ∙ ap u8 (omega arith)) in
      Exchange-Turn a b la lb start t len p k (u8 (q + suc k)) bytes got rest c v h
        (burst-Exchange a b la lb start t len p k (u8 (q + suc k)) bytes got rest c v h
          (at ∙ ap u8 {x = q + (0 + suc k)} (omega arith)) (all ∙ others bytes len p k count)
          (omega (arith, length-slice bytes (p + 52) (burst_part len p - 52), holds)))
        count few byte refl (λ z. ne (ap (λ m. u8 (q + m)) count ∙ z))
