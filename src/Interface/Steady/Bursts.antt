-- ===== src/Interface/Steady/Bursts.antt =====
-- The write of a stream leaves the ports and the bound sockets as they are.
use pico_lan.Prelude.{
  ℕ, zero, suc, ◌+◌, refl, Bool, true, false, some, List, [], ◌∷◌, ltb, not, ◌==◌, if◌then◌else◌,
  Every, Every->>=, Every-if, Every-some,
}
use pico_lan.Etk.{Etk}
use pico_lan.Socket.{SocketStream}
use pico_lan.Socket.Stream.{connected}
use pico_lan.Interface.{Interface, read}
use pico_lan.Interface.Waiting.{Round, elapsed}
use pico_lan.Interface.Connecting.{stream_of}
use pico_lan.Interface.Bursts.{
  Burst, Sending, send_frame, send_frames, wait_ack, find_pos, frame_burst_sz, check_acks, BurstEnd,
  go_on, give_up, still_waiting, burst_end, burst, Written, wrote, failed, writing, bursts,
  stream_write,
}
use pico_lan.Interface.Steady.{
  KeepsPorts, KeepsPorts-refl, KeepsPorts-trans, Keeps, Every-trans, send_packet-KeepsPorts,
  read-KeepsPorts_one, put_stream-KeepsPorts,
}

module _ ⦃E : Etk⦄ where
  abbrev of_sending : Sending → Interface
  of_sending w = w.iface

  abbrev of_pair : Interface × Bool → Interface
  of_pair (i, b) = i

  abbrev of_end : BurstEnd → Interface
  of_end (go_on p n i) = i
  of_end (give_up e i) = i
  of_end (still_waiting i) = i

  abbrev pub of_written : Written → Interface
  of_written (wrote n i) = i
  of_written (failed e i) = i
  of_written (writing i) = i

  send_frame-Keeps :
      (env : Burst) (l : ℕ) (bytes : ℕ → ℕ) (len i : ℕ) (w : Sending)
      → Every (Keeps of_sending w.iface) (send_frame env l bytes len i w)
  unfolding send_frame
  send_frame-Keeps env l bytes len i w =
      Every->>= (Keeps of_sending w.iface) (stream_of (w.iface.heap l)) _ (λ s there.
        Every->>= (Keeps of_sending w.iface) (read w.iface (env.arrived i)) _ (λ j e.
          KeepsPorts-trans (read-KeepsPorts_one w.iface j (env.arrived i) e)
            (send_packet-KeepsPorts _ j)))

  send_frames-Keeps :
      (env : Burst) (l : ℕ) (bytes : ℕ → ℕ) (len k i : ℕ) (w : Sending)
      → Every (Keeps of_sending w.iface) (send_frames env l bytes len k i w)
  unfolding send_frames
  send_frames-Keeps env l bytes len zero i w = KeepsPorts-refl w.iface
  send_frames-Keeps env l bytes len (suc k) i w =
      Every->>= (Keeps of_sending w.iface) (send_frame env l bytes len i w) _ (λ w1 e.
        Every-trans of_sending (send_frames env l bytes len k (i + 1) w1)
          (Every-some (Keeps of_sending w.iface) _ w1 (send_frame-Keeps env l bytes len i w) e)
          (send_frames-Keeps env l bytes len k (i + 1) w1))

  wait_ack-Keeps :
      (rs : List Round) (start final l : ℕ) (i : Interface)
      → Every (Keeps of_pair i) (wait_ack rs start final l i)
  unfolding wait_ack
  wait_ack-Keeps [] start final l i = KeepsPorts-refl i
  wait_ack-Keeps (r ∷ rs) start final l i = Every->>= (Keeps of_pair i) (read i r.arrived) _ (λ j e.
      Every->>= (Keeps of_pair i) (stream_of (j.heap l)) _ (λ s there.
        Every-if (Keeps of_pair i) (s.last_recved_ack == final) _ _
          (read-KeepsPorts_one i j r.arrived e)
          (Every-if (Keeps of_pair i) (ltb (elapsed r.after start) s.timeout) _ _
            (Every-trans of_pair (wait_ack rs start final l j) (read-KeepsPorts_one i j r.arrived e)
              (wait_ack-Keeps rs start final l j))
            (read-KeepsPorts_one i j r.arrived e))))

  check_acks-Keeps : (l p n : ℕ) (w : Sending) → Every (Keeps of_end w.iface) (check_acks l p n w)
  unfolding check_acks
  check_acks-Keeps l p n w =
      Every->>= (Keeps of_end w.iface) (stream_of (w.iface.heap l)) _ (λ s there.
        Every-if (Keeps of_end w.iface) (s.last_recved_ack == s.sequence_number) _ _
          (Every-if (Keeps of_end w.iface) (n + 1 == 3) _ _ (KeepsPorts-refl w.iface)
            (KeepsPorts-refl w.iface))
          (Every-if (Keeps of_end w.iface) (not (found s).0) _ _ (KeepsPorts-refl w.iface) (
            put_stream-KeepsPorts l (record s { sequence_number = (found s).2 }) w.iface.tx w.iface
              s there refl)))
    where
      found : SocketStream → Bool × ℕ × ℕ
      found s =
          find_pos w.frame_byte_pos s.last_recved_ack frame_burst_sz 0
            (false, w.bytes_pos, s.sequence_number)

  burst_end-Keeps :
      (l p n : ℕ) (w : Sending) (ended : Interface × Bool)
      → Every (Keeps of_end (of_pair ended)) (burst_end l p n w ended)
  unfolding burst_end
  burst_end-Keeps l p n w (i, true) = check_acks-Keeps l p n (record w { iface = i })
  burst_end-Keeps l p n w (i, false) = KeepsPorts-refl i

  burst-Keeps :
      (env : Burst) (l : ℕ) (bytes : ℕ → ℕ) (len p n : ℕ) (i : Interface)
      → Every (Keeps of_end i) (burst env l bytes len p n i)
  unfolding burst
  burst-Keeps env l bytes len p n i =
      Every->>= (Keeps of_end i) (send_frames env l bytes len _ 0 _) _ (λ w e.
        Every->>= (Keeps of_end i) (wait_ack env.rounds env.start w.final_seq l w.iface) _ (λ q h.
          Every-trans of_end (burst_end l p n w q)
            (KeepsPorts-trans
              (Every-some (Keeps of_sending i) _ w (send_frames-Keeps env l bytes len _ 0 _) e)
              (Every-some (Keeps of_pair w.iface) _ q
                (wait_ack-Keeps env.rounds env.start w.final_seq l w.iface) h))
            (burst_end-Keeps l p n w q)))

  bursts-Keeps :
      (envs : List Burst) (l : ℕ) (bytes : ℕ → ℕ) (len p n : ℕ) (i : Interface)
      → Every (Keeps of_written i) (bursts envs l bytes len p n i)
  unfolding bursts
  bursts-Keeps [] l bytes len p n i = KeepsPorts-refl i
  bursts-Keeps (env ∷ envs) l bytes len p n i =
      Every->>= (Keeps of_written i) (burst env l bytes len p n i) _ (λ e same.
        next (bursts-Keeps envs l bytes len) e
          (Every-some (Keeps of_end i) _ e (burst-Keeps env l bytes len p n i) same))
    where
      next :
          ((q m : ℕ) (j : Interface) → Every (Keeps of_written j) (bursts envs l bytes len q m j))
          → (e : BurstEnd) → KeepsPorts i (of_end e)
          → Every (Keeps of_written i) (elim e [
            | go_on pos count j ↦
                (let rest = bursts envs l bytes len pos count j in
                  if pos == len then some (wrote pos j) else rest)
            | give_up error j ↦ some (failed error j)
            | still_waiting j ↦ some (writing j)
          ])
      next again (go_on pos count j) h =
          Every-if (Keeps of_written i) (pos == len) _ _ h
            (Every-trans of_written (bursts envs l bytes len pos count j) h (again pos count j))
      next again (give_up error j) h = h
      next again (still_waiting j) h = h

  pub stream_write-Keeps :
      (envs : List Burst) (l : ℕ) (bytes : ℕ → ℕ) (len : ℕ) (i : Interface)
      → Every (Keeps of_written i) (stream_write envs l bytes len i)
  unfolding stream_write
  stream_write-Keeps envs l bytes len i =
      Every->>= (Keeps of_written i) (stream_of (i.heap l)) _ (λ s there.
        Every-if (Keeps of_written i) (not (connected s)) _ _ (KeepsPorts-refl i) (
          Every-if (Keeps of_written i) (len == 0) _ _ (KeepsPorts-refl i)
            (bursts-Keeps envs l bytes len 0 0 i)))
