-- ===== src/Interface/Bursts/Parts.antt =====
-- The first burst of a write, taken apart.
use pico_lan.Prelude.{
  ℕ, ◌≤◌, ◌-◌, ◌<◌, ◌≡◌, ◌≢◌, refl, true, some, List, [], ◌∷◌, inl, inr, lt→ltb, ne→==, ◌>>=◌,
  arith,
}
use pico_lan.Etk.{Etk}
use pico_lan.Socket.{SocketStream, ack_out_of_sequence, open_state}
use pico_lan.Socket.Stream.{connected}
use pico_lan.Interface.{Interface, read}
use pico_lan.Interface.Waiting.{Round, elapsed}
use pico_lan.Interface.Connecting.{stream_of}
use pico_lan.Interface.Reading.Queue.{Silent}
use pico_lan.Interface.Bursts.{
  cleared, Burst, packets_to_send, Sending, send_frames, wait_ack, check_acks, burst_end, burst,
  give_up, failed, bursts, stream_write,
}

pub packets_one : (len : ℕ) → 0 < len → len ≤ 52 → packets_to_send len ≡ 1
unfolding packets_to_send
packets_one len h fit = ground arith

module _ ⦃E : Etk⦄ where
  pub wait_ack-Silent :
      (rs : List Round) (start final l : ℕ) (i : Interface) (s : SocketStream)
      → stream_of (i.heap l) ≡ some s
      → s.last_recved_ack ≢ final
      → Silent s.timeout start rs
      → wait_ack rs start final l i ≡ some (i, true)
  unfolding wait_ack read
  wait_ack-Silent [] start final l i s here ne h = absurd h
  wait_ack-Silent (r ∷ rs) start final l i s here ne (brings, inl late) =
      rw brings (rw here (rw (ne→== _ _ ne) (ground arith)))
  wait_ack-Silent (r ∷ rs) start final l i s here ne (brings, inr (early, h)) = rw brings (
      rw here (
        rw (ne→== _ _ ne) (rw (lt→ltb _ _ early) (wait_ack-Silent rs start final l i s here ne h))))

  pub wait_ack-round :
      (r : Round) (rs : List Round) (start final l : ℕ) (i j : Interface) (s : SocketStream)
      → read i r.arrived ≡ some j
      → stream_of (j.heap l) ≡ some s
      → s.last_recved_ack ≢ final
      → elapsed r.after start < s.timeout
      → wait_ack (r ∷ rs) start final l i ≡ wait_ack rs start final l j
  unfolding wait_ack
  wait_ack-round r rs start final l i j s e here ne early =
      rw e (rw here (rw (ne→== _ _ ne) (rw (lt→ltb _ _ early) refl)))

  pub burst_end-ended :
      (l p k : ℕ) (w : Sending) (j : Interface)
      → burst_end l p k w (j, true) ≡ check_acks l p k (record w { iface = j })
  unfolding burst_end
  burst_end-ended l p k w j = refl

  pub burst_lem :
      (env : Burst) (l len p count : ℕ) (bytes : ℕ → ℕ) (a : Interface)
      → burst env l bytes len p count a ≡ (do
        w ←
            send_frames env l bytes len
              (packets_to_send (len - p))
              0
              (record { iface = a; bytes_pos = p; frame_byte_pos = λ k. cleared; final_seq = 0 })
        ended ← wait_ack env.rounds env.start w.final_seq l w.iface
        burst_end l p count w ended)
  unfolding burst
  burst_lem env l len p count bytes a = refl

  pub stream_write-given_up :
      (env : Burst) (envs : List Burst) (l len : ℕ) (bytes : ℕ → ℕ) (a j : Interface)
      (c : SocketStream)
      → stream_of (a.heap l) ≡ some c
      → c.state ≡ open_state
      → 0 < len
      → burst env l bytes len 0 0 a ≡ some (give_up ack_out_of_sequence j)
      → stream_write (env ∷ envs) l bytes len a ≡ some (failed ack_out_of_sequence j)
  unfolding stream_write bursts connected
  stream_write-given_up env envs l len bytes a j c here live some_bytes e =
      rw here (rw live (rw (ne→== len 0 (λ z. omega arith)) (rw e refl)))
