-- ===== src/Interface/Bursts/Unheard.antt =====
-- A burst on a connection on which nothing arrives any more.
use pico_lan.Prelude.{
  ℕ, suc, ◌+◌, ◌<◌, ◌≡◌, ◌≢◌, sym, ap, ◌∙◌, some, [], ◌++◌, ==_iff, if◌then◌else◌, ◌==◌, false, u8,
  ◌>>=◌, arith,
}
use pico_lan.Etk.{Etk}
use pico_lan.Socket.{SocketStream, timeout, ack_out_of_sequence}
use pico_lan.Interface.{Interface, AnySocket}
use pico_lan.Interface.Connecting.{stream_of}
use pico_lan.Interface.Handshake.Messages.{Has}
use pico_lan.Interface.Reading.Queue.{Silent}
use pico_lan.Interface.Bursts.{
  Burst, BurstEnd, packets_to_send, Sending, check_acks, burst_end, burst, go_on, give_up, find_pos,
  frame_burst_sz,
}
use pico_lan.Interface.Bursts.Parts.{wait_ack-Silent, burst_end-ended}
use pico_lan.Interface.Bursts.Positions.{more_packets, packets_to_send_lem, found_none}
use pico_lan.Interface.Bursts.Frames.{Sent, send_frames-Sent, final_after-last, burst_frames}
use pico_lan.Interface.Bursts.Starting.{starting, burst_waits}
use pico_lan.Interface.Bursts.Ending.{check_acks-lost}

module _ ⦃E : Etk⦄ where
  -- A burst during which nothing arrives, and whose rounds go up to the timeout.
  abbrev pub Unheard : ℕ → Burst → Type 0
  Unheard limit env = ((j : ℕ) → env.arrived j ≡ []) × Silent limit env.start env.rounds

  -- What the test of the acknowledgements comes to when none has come.
  abbrev pub tried : ℕ → Interface → BurstEnd
  tried tries j = if tries + 1 == 3 then give_up timeout j else go_on 0 (tries + 1) j

  check_acks-unheard :
      (l tries : ℕ) (w : Sending) (s : SocketStream)
      → stream_of (w.iface.heap l) ≡ some s
      → s.last_recved_ack ≡ s.sequence_number
      → check_acks l 0 tries w ≡ some (tried tries w.iface)
  unfolding check_acks
  check_acks-unheard l tries w s here same = rw here (rw ((==_iff _ _).1 same) (ground arith))

  -- One burst behind `tries` others, in vain.
  pub record Vain (env : Burst) (la len tries : ℕ) (bytes : ℕ → ℕ) (c : SocketStream)
      (a : Interface) : Type 0 where
    pub after : Interface
    pub ends : burst env la bytes len 0 tries a ≡ some (tried tries after)
    pub has : Has after la (AnySocket.client c)
    pub line :
        after.tx.sent ≡ a.tx.sent ++ burst_frames a.address c bytes len (suc (more_packets len)) 0 0
    pub here : after.address ≡ a.address

  pub burst-Vain :
      (env : Burst) (la len tries : ℕ) (bytes : ℕ → ℕ) (c : SocketStream) (a : Interface)
      → Has a la (AnySocket.client c)
      → c.last_recved_ack ≡ c.sequence_number
      → c.sequence_number < 256
      → 0 < len
      → Unheard c.timeout env
      → Vain env la len tries bytes c a
  burst-Vain env la len tries bytes c a h same byte some_bytes (none, silent) =
      let k = more_packets len in
      let (count, few) = packets_to_send_lem len some_bytes in
      let sent : Sent env la len (suc k) 0 bytes c (starting a) =
        send_frames-Sent env la len (suc k) 0 bytes c (starting a) h none in
      let final : sent.after.final_seq ≡ u8 (c.sequence_number + suc k) =
        sent.final
        ∙ final_after-last c.sequence_number k 0 0
        ∙ ap u8 {x = c.sequence_number + (0 + suc k)} (omega arith) in
      record {
        after = sent.after.iface;
        ends =
            burst_waits env la len k tries bytes a c sent count
            ∙ ap (λ o. do ended ← o; burst_end la 0 tries sent.after ended)
                (wait_ack-Silent env.rounds env.start sent.after.final_seq la sent.after.iface c
                  (ap stream_of sent.has.there) (λ z. omega arith) silent)
            ∙ burst_end-ended la 0 tries sent.after sent.after.iface
            ∙ check_acks-unheard la tries sent.after c (ap stream_of sent.has.there) same;
        has = sent.has;
        line = sent.line;
        here = sent.here;
      }

  -- A burst in vain behind an acknowledgement of another packet.
  pub burst-lost :
      (env : Burst) (la len : ℕ) (bytes : ℕ → ℕ) (c : SocketStream) (a : Interface)
      → Has a la (AnySocket.client c)
      → c.last_recved_ack ≢ c.sequence_number
      → ((j : ℕ) → j < 4 → c.last_recved_ack ≢ u8 (c.sequence_number + (j + 1)))
      → c.last_recved_ack ≢ 255
      → 0 < len
      → Unheard c.timeout env
      → (j : Interface) × (burst env la bytes len 0 0 a ≡ some (give_up ack_out_of_sequence j))
        × (j.heap la ≡ AnySocket.client c)
        × (j.tx.sent ≡ a.tx.sent ++ burst_frames a.address c bytes len (packets_to_send len) 0 0)
  burst-lost env la len bytes c a h old differs ne some_bytes (none, silent) =
      let k = more_packets len in
      let q = c.sequence_number in
      let n = c.last_recved_ack in
      let (count, few) = packets_to_send_lem len some_bytes in
      let sent : Sent env la len (suc k) 0 bytes c (starting a) =
        send_frames-Sent env la len (suc k) 0 bytes c (starting a) h none in
      let w = sent.after in
      let there : stream_of (w.iface.heap la) ≡ some c = ap stream_of sent.has.there in
      let other : n ≢ w.final_seq = λ z.
        differs k few
          (z ∙ sent.final ∙ final_after-last q k 0 0 ∙ ap u8 {x = q + (0 + suc k)} (omega arith)) in
      (
        w.iface,
        burst_waits env la len k 0 bytes a c sent count
            ∙ ap (λ o. do ended ← o; burst_end la 0 0 w ended)
                (wait_ack-Silent env.rounds env.start w.final_seq la w.iface c there other silent)
            ∙ burst_end-ended la 0 0 w w.iface
            ∙ check_acks-lost la 0 0 w c there old (
                ap (λ f. find_pos f n frame_burst_sz 0 (false, w.bytes_pos, q)) sent.tuples
                ∙ found_none len 0 q k n w.bytes_pos q few differs ne),
        sent.has.there,
        sent.line ∙ ap (λ m. a.tx.sent ++ burst_frames a.address c bytes len m 0 0) (sym count),
      )
