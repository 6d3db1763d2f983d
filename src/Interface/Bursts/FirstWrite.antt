-- ===== src/Interface/Bursts/FirstWrite.antt =====
-- The first write on a connection: its sequence number is one ahead of what the other end expects.
use pico_lan.Prelude.{
  ℕ, suc, ◌+◌, ◌<◌, ◌≡◌, ap, ◌∙◌, refl, ◌++◌, some, List, [], ◌∷◌, append-nil, arith,
}
use pico_lan.Etk.{Etk}
use pico_lan.Socket.{SocketStream, ack_out_of_sequence}
use pico_lan.Interface.{Interface, read}
use pico_lan.Interface.Waiting.{Round, elapsed}
use pico_lan.Interface.Connecting.{stream_of}
use pico_lan.Interface.Reading.Queue.{Silent}
use pico_lan.Interface.Bursts.{Burst, failed, stream_write}
use pico_lan.Interface.Bursts.Positions.{more_packets, packets_to_send_lem}
use pico_lan.Interface.Bursts.Acked.{one_ahead}
use pico_lan.Interface.Bursts.Parts.{stream_write-given_up}
use pico_lan.Interface.Bursts.Ending.{burst_unknown}
use pico_lan.Interface.Bursts.Exchange.{Joined, answered, burst-Exchange, Exchange-Joined}
use pico_lan.Interface.Bursts.Frames.{burst_frames}

module _ ⦃E : Etk⦄ where
  open E.ring use {queue}

  -- `write` fails when the server's answers have come in one round, and the server that has read what
  -- was sent has gained nothing and expects the same number as before. They are still connected.
  pub record FirstWrite (a b : Interface) (la lb start t len : ℕ) (bytes : ℕ → ℕ)
      (quiet : List Round) (envs : List Burst) (c v : SocketStream) : Type 0 where
    pub a2 : Interface
    pub b1 : Interface
    pub c2 : SocketStream
    pub v1 : SocketStream
    pub frames : List ℕ
    pub answers : List ℕ
    pub fails :
        stream_write (answered start t answers quiet ∷ envs) la bytes len a
        ≡ some (failed ack_out_of_sequence a2)
    pub sends : a2.tx.sent ≡ a.tx.sent ++ frames
    pub heard : read b frames ≡ some b1
    pub replies : b1.tx.sent ≡ b.tx.sent ++ answers
    pub joined : Joined a2 b1 la lb c2 v1
    pub nothing : queue v1.ringbuf ≡ queue v.ringbuf
    pub same_number : v1.remote_sequence ≡ v.remote_sequence

  -- A client and a server are connected as `connect` and `accept` leave them: the client's sequence
  -- number is one more than the number that the server has of it (which is below 255). The first write
  -- of any bytes is then in vain: the server takes none of them and keeps its number, and `write`
  -- returns ACK_OUT_OF_SEQUENCE when the server's answers to the first burst have come in one round,
  -- before the timeout, and nothing more comes. Nothing comes while the packets are sent.
  pub stream_write-FirstWrite :
      (a b : Interface) (la lb start t len : ℕ) (bytes : ℕ → ℕ) (quiet : List Round)
      (envs : List Burst) (c v : SocketStream)
      → Joined a b la lb c v
      → c.sequence_number ≡ v.remote_sequence + 1
      → v.remote_sequence < 255
      → 0 < len
      → elapsed t start < c.timeout
      → Silent c.timeout start quiet
      → FirstWrite a b la lb start t len bytes quiet envs c v
  stream_write-FirstWrite a b la lb start t len bytes quiet envs c v h ahead small some_bytes early
        silent =
      let k = more_packets len in
      let q = c.sequence_number in
      let n = v.remote_sequence in
      let (count, few) = packets_to_send_lem len some_bytes in
      let (same, none) = one_ahead bytes len q (suc k) 0 n 0 ahead (omega (arith, few)) in
      let x =
        burst-Exchange a b la lb start t len 0 k n bytes [] quiet c v h same none (omega arith) in
      let c2 : SocketStream = record c { last_recved_ack = n } in
      record {
        a2 = x.acked.after;
        b1 = x.served.after;
        c2 = c2;
        v1 = x.served.stream;
        frames = burst_frames a.address c bytes len (suc k) 0 0;
        answers = x.answers;
        fails =
            stream_write-given_up (answered start t x.answers quiet) envs la len bytes a
              x.acked.after c (ap stream_of h.client_here.there) h.client_open some_bytes
              (burst_unknown la start t len n k bytes x.answers quiet a c x.sent x.acked count few
                (λ j lt z. omega arith) (λ z. omega arith) (λ z. omega arith) x.final early silent);
        sends = x.on_line;
        heard = x.served.reads;
        replies = x.served.line;
        joined =
            Exchange-Joined a b x.acked.after la lb start t len 0 k n bytes [] quiet c c2 v h x
              x.acked.has x.here (refl, refl, refl);
        nothing = x.served.gained ∙ append-nil (queue v.ringbuf);
        same_number = x.served.at;
      }
