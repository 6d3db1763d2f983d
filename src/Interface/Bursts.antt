-- ===== src/Interface/Bursts.antt =====
-- socket_stream.cpp: SocketStream::write, which sends its data in bursts of up to four packets and
-- reads the acknowledgements after each burst.
pub mod OpenMessages
pub mod Parts
pub mod Positions
pub mod Frames
pub mod Served
pub mod Reception
pub mod Acked
pub mod Starting
pub mod Ending
pub mod Exchange
pub mod FirstWrite
pub mod Whole
pub mod Unanswered
pub mod Unheard
pub mod Silence
pub mod Session
pub mod Turns
pub mod Long
use pico_lan.Prelude.{
  ℕ, zero, suc, ◌+◌, ◌-◌, ◌/◌, ◌%◌, not, Bool, true, false, Option, some, List, [], ◌∷◌, ltb, ◌==◌,
  if◌then◌else◌, u8, update, slice, ◌>>=◌,
}
use pico_lan.Etk.{Etk}
use pico_lan.Serialiser.Pack.{Packet}
use pico_lan.Socket.{Error, timeout, bad_state, ack_out_of_sequence, msg_data}
use pico_lan.Socket.Stream.{connected, stream_pack}
use pico_lan.Interface.{Interface, send_packet, read}
use pico_lan.Interface.Waiting.{Round, elapsed}
use pico_lan.Interface.Connecting.{stream_of, put_stream}

abbrev pub bytes_per_frame : ℕ
bytes_per_frame = 52

abbrev pub frame_burst_sz : ℕ
frame_burst_sz = 4

-- `min`.
abbrev pub min : ℕ → ℕ → ℕ
min a b = if ltb a b then a else b

-- struct seq_tuple.
pub record SeqTuple : Type 0 where
  pub seq : ℕ
  pub pos : ℕ

-- `seq_tuple(-1, 0)`: the constructor takes a uint8_t, so the -1 is 255.
abbrev pub cleared : SeqTuple
cleared = record { seq = 255; pos = 0 }

-- What one burst meets: the bytes that are read before each packet, the clock behind the last one, and
-- the rounds of the loop that waits for acknowledgements.
pub record Burst : Type 0 where
  pub arrived : ℕ → List ℕ
  pub start : ℕ
  pub rounds : List Round

-- The number of packets of a burst with `left` bytes to go.
unfoldable pub packets_to_send : ℕ → ℕ
packets_to_send left =
    let n = left / bytes_per_frame in
    let m = if left % bytes_per_frame == 0 then n else n + 1 in
    if ltb frame_burst_sz m then frame_burst_sz else m

module _ ⦃E : Etk⦄ where
  -- What is known when the packets of a burst have been sent.
  pub record Sending : Type 0 where
    pub iface : Interface
    pub bytes_pos : ℕ
    pub frame_byte_pos : ℕ → SeqTuple
    pub final_seq : ℕ

  -- One round of the loop over the packets: `i` is its index.
  unfoldable pub send_frame : Burst → ℕ → (ℕ → ℕ) → ℕ → ℕ → Sending → Option Sending
  unfolding send_packet
  send_frame env l bytes len i w = do
    s ← stream_of (w.iface.heap l)
    let seq = u8 (s.sequence_number + (i + 1))
    let n = min bytes_per_frame (len - w.bytes_pos)
    let pack = stream_pack w.iface.address s (msg_data ∷ seq ∷ slice bytes w.bytes_pos n)
    j ← read w.iface (env.arrived i)
    some (record w {
      iface = send_packet (Packet.datagram pack) j;
      bytes_pos = w.bytes_pos + n;
      frame_byte_pos = update w.frame_byte_pos i (record { seq = seq; pos = w.bytes_pos + n });
      final_seq = seq;
    })

  -- The loop over the packets from index `i` on, with `k` rounds left.
  unfoldable pub send_frames : Burst → ℕ → (ℕ → ℕ) → ℕ → ℕ → ℕ → Sending → Option Sending
  send_frames env l bytes len zero i w = some w
  send_frames env l bytes len (suc k) i w = do
    w1 ← send_frame env l bytes len i w
    send_frames env l bytes len k (i + 1) w1

  -- The loop that waits for the last acknowledgement: the interface behind it, and whether it has ended.
  unfoldable pub wait_ack : List Round → ℕ → ℕ → ℕ → Interface → Option (Interface × Bool)
  wait_ack [] start final l i = some (i, false)
  wait_ack (r ∷ rs) start final l i = do
    j ← read i r.arrived
    s ← stream_of (j.heap l)
    let rest = wait_ack rs start final l j
    if s.last_recved_ack == final
        then some (j, true)
        else if ltb (elapsed r.after start) s.timeout
        then rest
        else some (j, true)

  -- The loop over the four tuples from index `i` on, with `k` rounds left: whether some tuple has the
  -- number of the last acknowledgement, the position, and the sequence number.
  unfoldable pub find_pos : (ℕ → SeqTuple) → ℕ → ℕ → ℕ → Bool × ℕ × ℕ → Bool × ℕ × ℕ
  find_pos tuples ack zero i found = found
  find_pos tuples ack (suc k) i (found, bytes_pos, sequence) = find_pos tuples ack k (i + 1) (
      if ack == (tuples i).seq
      then (true, (tuples i).pos, u8 (sequence + i))
      else (found, bytes_pos, sequence))

  -- What a burst comes to.
  pub data BurstEnd : Type 0 where
    go_on : ℕ → ℕ → Interface → BurstEnd
    give_up : Error → Interface → BurstEnd
    still_waiting : Interface → BurstEnd

  -- The test of the acknowledgements. The first number of `go_on` is `bytes_pos`, the second the count
  -- of bursts without any acknowledgement.
  unfoldable pub check_acks : ℕ → ℕ → ℕ → Sending → Option BurstEnd
  unfolding find_pos
  check_acks l initial_byte_pos no_ack_count w = do
    s ← stream_of (w.iface.heap l)
    let (found, pos, sequence) =
        find_pos w.frame_byte_pos s.last_recved_ack frame_burst_sz 0
          (false, w.bytes_pos, s.sequence_number)
    if s.last_recved_ack == s.sequence_number
        then (if no_ack_count + 1 == 3
            then some (give_up timeout w.iface)
            else some (go_on initial_byte_pos (no_ack_count + 1) w.iface))
        else if not found
        then some (give_up ack_out_of_sequence w.iface)
        else some (
            go_on pos no_ack_count
              (put_stream l (record s { sequence_number = sequence }, w.iface.tx) w.iface))

  unfoldable pub burst_end : ℕ → ℕ → ℕ → Sending → Interface × Bool → Option BurstEnd
  unfolding check_acks
  burst_end l initial_byte_pos no_ack_count w (i, true) =
      check_acks l initial_byte_pos no_ack_count (record w { iface = i })
  burst_end l initial_byte_pos no_ack_count w (i, false) = some (still_waiting i)

  -- One burst.
  unfoldable pub burst : Burst → ℕ → (ℕ → ℕ) → ℕ → ℕ → ℕ → Interface → Option BurstEnd
  unfolding packets_to_send send_frames wait_ack burst_end
  burst env l bytes len bytes_pos no_ack_count i = do
    w ←
        send_frames env l bytes len (packets_to_send (len - bytes_pos)) 0 (record {
          iface = i;
          bytes_pos = bytes_pos;
          frame_byte_pos = λ k. cleared;
          final_seq = 0;
        })
    ended ← wait_ack env.rounds env.start w.final_seq l w.iface
    burst_end l bytes_pos no_ack_count w ended

  -- The result of `write`: the number of bytes, an error, or none yet.
  pub data Written : Type 0 where
    wrote : ℕ → Interface → Written
    failed : Error → Interface → Written
    writing : Interface → Written

  -- The bursts, as many as the environment has.
  unfoldable pub bursts : List Burst → ℕ → (ℕ → ℕ) → ℕ → ℕ → ℕ → Interface → Option Written
  unfolding burst
  bursts [] l bytes len bytes_pos no_ack_count i = some (writing i)
  bursts (env ∷ envs) l bytes len bytes_pos no_ack_count i = do
    e ← burst env l bytes len bytes_pos no_ack_count i
    elim e [
      | go_on pos count j ↦
          (let rest = bursts envs l bytes len pos count j in
            if pos == len then some (wrote pos j) else rest)
      | give_up error j ↦ some (failed error j)
      | still_waiting j ↦ some (writing j)
    ]

  -- SocketStream::write(bytes, len) of the stream behind `l`.
  unfoldable pub stream_write : List Burst → ℕ → (ℕ → ℕ) → ℕ → Interface → Option Written
  unfolding bursts
  stream_write envs l bytes len i = do
    s ← stream_of (i.heap l)
    if not (connected s)
        then some (failed bad_state i)
        else if len == 0
        then some (wrote 0 i)
        else bursts envs l bytes len 0 0 i
