-- ===== src/Interface/Bursts/Ending.antt =====
-- How a burst ends when its acknowledgements have come in one round.
use pico_lan.Prelude.{
  ℕ, suc, ◌+◌, ◌-◌, ◌<◌, ◌≤◌, ◌≡◌, ◌≢◌, refl, sym, ap, ◌∙◌, true, false, some, List, [], ◌∷◌,
  ==_iff, ne→==, u8, ◌>>=◌, arith,
}
use pico_lan.Etk.{Etk}
use pico_lan.Socket.{SocketStream, ack_out_of_sequence}
use pico_lan.Interface.{Interface, read}
use pico_lan.Interface.Waiting.{Round, elapsed}
use pico_lan.Interface.Connecting.{stream_of, put_stream}
use pico_lan.Interface.Handshake.{round}
use pico_lan.Interface.Reading.Queue.{Silent}
use pico_lan.Interface.Bursts.{
  Burst, packets_to_send, Sending, wait_ack, find_pos, check_acks, burst_end, burst, go_on, give_up,
  frame_burst_sz,
}
use pico_lan.Interface.Bursts.Positions.{
  pos_after, pos_after-all, tuples_after, tuples_after-pos, at_first, found-last, found_none,
  packets_to_send-enough,
}
use pico_lan.Interface.Bursts.Parts.{burst_end-ended, wait_ack-Silent, wait_ack-round}
use pico_lan.Interface.Bursts.Frames.{Sent}
use pico_lan.Interface.Bursts.Acked.{Acked}
use pico_lan.Interface.Bursts.Starting.{
  from_position, starting, burst_waits_from, from_start, burst_waits,
}

module _ ⦃E : Etk⦄ where
  wait_ack-last :
      (r : Round) (rs : List Round) (start final l : ℕ) (i j : Interface) (s : SocketStream)
      → read i r.arrived ≡ some j
      → stream_of (j.heap l) ≡ some s
      → s.last_recved_ack ≡ final
      → wait_ack (r ∷ rs) start final l i ≡ some (j, true)
  unfolding wait_ack
  wait_ack-last r rs start final l i j s e here same =
      rw e (rw here (rw ((==_iff s.last_recved_ack final).1 same) refl))

  check_acks-found :
      (l p count pos seq : ℕ) (w : Sending) (s : SocketStream)
      → stream_of (w.iface.heap l) ≡ some s
      → s.last_recved_ack ≢ s.sequence_number
      → find_pos w.frame_byte_pos s.last_recved_ack frame_burst_sz 0
          (false, w.bytes_pos, s.sequence_number)
        ≡ (true, pos, seq)
      → check_acks l p count w
        ≡ some (
            go_on pos count (put_stream l (record s { sequence_number = seq }, w.iface.tx) w.iface))
  unfolding check_acks
  check_acks-found l p count pos seq w s here ne found = rw here (rw (ne→== _ _ ne) (rw found refl))

  pub check_acks-lost :
      (l p count : ℕ) (w : Sending) (s : SocketStream)
      → stream_of (w.iface.heap l) ≡ some s
      → s.last_recved_ack ≢ s.sequence_number
      → find_pos w.frame_byte_pos s.last_recved_ack frame_burst_sz 0
          (false, w.bytes_pos, s.sequence_number)
        ≡ (false, w.bytes_pos, s.sequence_number)
      → check_acks l p count w ≡ some (give_up ack_out_of_sequence w.iface)
  unfolding check_acks
  check_acks-lost l p count w s here ne found = rw here (rw (ne→== _ _ ne) (rw found refl))

  -- The burst from position `p` on that has put `sent` on the line and whose last acknowledgement is that of its last packet.
  pub burst-answered :
      (la start t len p n k : ℕ) (bytes : ℕ → ℕ) (acks : List ℕ) (rest : List Round) (a : Interface)
      (c : SocketStream)
      (sent : Sent
        (record { arrived = λ i. []; start = start; rounds = round t acks ∷ rest })
        la
        len
        (suc k)
        0
        bytes
        c
        (from_position p a))
      (acked : Acked sent.after.iface la c acks n)
      → packets_to_send (len - p) ≡ suc k
      → k < 4
      → c.sequence_number < 256
      → n ≡ u8 (c.sequence_number + suc k)
      → n ≢ 255
      → sent.after.final_seq ≡ n
      → burst
          (record { arrived = λ i. []; start = start; rounds = round t acks ∷ rest })
          la
          bytes
          len
          p
          0
          a
        ≡ some (
            go_on (pos_after len (suc k) p) 0 (
              put_stream la
                (
                  record c { last_recved_ack = n; sequence_number = u8 (c.sequence_number + k) },
                  acked.after.tx,
                )
                acked.after))
  burst-answered la start t len p n k bytes acks rest a c sent acked count few byte e ne last =
      let env : Burst = record { arrived = λ i. []; start = start; rounds = round t acks ∷ rest } in
      let q = c.sequence_number in
      let c2 : SocketStream = record c { last_recved_ack = n } in
      let tuples = tuples_after len q (suc k) 0 p at_first in
      burst_waits_from env la len p k 0 bytes a c sent count
      ∙ ap (λ o. do ended ← o; burst_end la p 0 sent.after ended)
          (wait_ack-last (round t acks) rest start sent.after.final_seq la sent.after.iface
            acked.after c2 acked.reads (ap stream_of acked.has.there) (sym last))
      ∙ burst_end-ended la p 0 sent.after acked.after
      ∙ check_acks-found la p 0 (tuples k).pos (u8 (q + k))
          (record sent.after { iface = acked.after }) c2 (ap stream_of acked.has.there)
          (λ z. omega arith)
          (ap (λ f. find_pos f n frame_burst_sz 0 (false, sent.after.bytes_pos, q)) sent.tuples
            ∙ found-last len p q k n sent.after.bytes_pos q few e ne)
      ∙ ap
          (λ m. some (
            go_on m 0 (
              put_stream la (record c2 { sequence_number = u8 (q + k) }, acked.after.tx)
                acked.after)))
          (ap (λ j. (tuples j).pos) {y = 0 + k} (omega arith)
            ∙ tuples_after-pos len q k 0 p at_first)

  -- The same for the whole of what is written.
  pub burst-acknowledged :
      (la start t len n k : ℕ) (bytes : ℕ → ℕ) (acks : List ℕ) (rest : List Round) (a : Interface)
      (c : SocketStream)
      (sent : Sent
        (record { arrived = λ i. []; start = start; rounds = round t acks ∷ rest })
        la
        len
        (suc k)
        0
        bytes
        c
        (starting a))
      (acked : Acked sent.after.iface la c acks n)
      → packets_to_send len ≡ suc k
      → k < 4
      → len ≤ 208
      → c.sequence_number < 256
      → n ≡ u8 (c.sequence_number + suc k)
      → n ≢ 255
      → sent.after.final_seq ≡ n
      → burst
          (record { arrived = λ i. []; start = start; rounds = round t acks ∷ rest })
          la
          bytes
          len
          0
          0
          a
        ≡ some (
            go_on len 0 (
              put_stream la
                (
                  record c { last_recved_ack = n; sequence_number = u8 (c.sequence_number + k) },
                  acked.after.tx,
                )
                acked.after))
  burst-acknowledged la start t len n k bytes acks rest a c sent acked count few fits byte e ne
        last =
      burst-answered la start t len 0 n k bytes acks rest a c sent acked (from_start len ∙ count)
        few byte e ne last
      ∙ ap
          (λ m. some (
            go_on m 0 (
              put_stream la
                (
                  record c { last_recved_ack = n; sequence_number = u8 (c.sequence_number + k) },
                  acked.after.tx,
                )
                acked.after)))
          (pos_after-all len (suc k) 0 (omega arith)
            (omega (arith, packets_to_send-enough len fits, count)))

  -- The burst whose last acknowledgement is that of none of its packets.
  pub burst_unknown :
      (la start t len n k : ℕ) (bytes : ℕ → ℕ) (acks : List ℕ) (quiet : List Round) (a : Interface)
      (c : SocketStream)
      (sent : Sent
        (record { arrived = λ i. []; start = start; rounds = round t acks ∷ quiet })
        la
        len
        (suc k)
        0
        bytes
        c
        (starting a))
      (acked : Acked sent.after.iface la c acks n)
      → packets_to_send len ≡ suc k
      → k < 4
      → ((j : ℕ) → j < 4 → n ≢ u8 (c.sequence_number + (j + 1)))
      → n ≢ 255
      → n ≢ c.sequence_number
      → sent.after.final_seq ≡ u8 (c.sequence_number + suc k)
      → elapsed t start < c.timeout
      → Silent c.timeout start quiet
      → burst
          (record { arrived = λ i. []; start = start; rounds = round t acks ∷ quiet })
          la
          bytes
          len
          0
          0
          a
        ≡ some (give_up ack_out_of_sequence acked.after)
  burst_unknown la start t len n k bytes acks quiet a c sent acked count few differs ne old last
        early silent =
      let env : Burst = record {
        arrived = λ i. [];
        start = start;
        rounds = round t acks ∷ quiet;
      } in
      let q = c.sequence_number in
      let c2 : SocketStream = record c { last_recved_ack = n } in
      let other : n ≢ sent.after.final_seq = λ z. differs k few (z ∙ last ∙ ap u8 (omega arith)) in
      burst_waits env la len k 0 bytes a c sent count
      ∙ ap (λ o. do ended ← o; burst_end la 0 0 sent.after ended)
          (wait_ack-round (round t acks) quiet start sent.after.final_seq la sent.after.iface
              acked.after c2 acked.reads (ap stream_of acked.has.there) other early
            ∙ wait_ack-Silent quiet start sent.after.final_seq la acked.after c2
                (ap stream_of acked.has.there) other silent)
      ∙ burst_end-ended la 0 0 sent.after acked.after
      ∙ check_acks-lost la 0 0 (record sent.after { iface = acked.after }) c2
          (ap stream_of acked.has.there) old
          (ap (λ f. find_pos f n frame_burst_sz 0 (false, sent.after.bytes_pos, q)) sent.tuples
            ∙ found_none len 0 q k n sent.after.bytes_pos q few differs ne)
