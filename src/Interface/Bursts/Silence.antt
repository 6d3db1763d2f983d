-- ===== src/Interface/Bursts/Silence.antt =====
-- A write on a connection on which nothing arrives any more, up to its result.
use pico_lan.Prelude.{
  ℕ, suc, ◌+◌, ◌<◌, ◌≡◌, ◌≢◌, refl, sym, ap, ap₂, ◌∙◌, some, List, ◌∷◌, ◌++◌, append_assoc, ne→==,
  ◌⊎◌, inl, inr, ℕ_discrete, u8, arith,
}
use pico_lan.Etk.{Etk}
use pico_lan.Socket.{SocketStream, open_state, timeout, ack_out_of_sequence}
use pico_lan.Socket.Stream.{connected}
use pico_lan.Interface.{Interface, AnySocket}
use pico_lan.Interface.Connecting.{stream_of}
use pico_lan.Interface.Handshake.Messages.{Has}
use pico_lan.Interface.Bursts.{
  Burst, packets_to_send, burst, go_on, give_up, failed, bursts, stream_write,
}
use pico_lan.Interface.Bursts.Parts.{stream_write-given_up}
use pico_lan.Interface.Bursts.Positions.{more_packets, packets_to_send_lem}
use pico_lan.Interface.Bursts.Frames.{burst_frames}
use pico_lan.Interface.Bursts.Unheard.{Unheard, burst-Vain, burst-lost}

abbrev pub thrice : List ℕ → List ℕ
thrice xs = xs ++ (xs ++ xs)

module _ ⦃E : Etk⦄ where
  bursts-again :
      (env : Burst) (envs : List Burst) (l len tries : ℕ) (bytes : ℕ → ℕ) (i j : Interface)
      → burst env l bytes len 0 tries i ≡ some (go_on 0 (tries + 1) j)
      → 0 < len
      → bursts (env ∷ envs) l bytes len 0 tries i ≡ bursts envs l bytes len 0 (tries + 1) j
  unfolding bursts
  bursts-again env envs l len tries bytes i j e some_bytes =
      rw e (rw (ne→== 0 len (λ z. omega arith)) refl)

  bursts-given_up :
      (env : Burst) (envs : List Burst) (l len tries : ℕ) (bytes : ℕ → ℕ) (i j : Interface)
      → burst env l bytes len 0 tries i ≡ some (give_up timeout j)
      → bursts (env ∷ envs) l bytes len 0 tries i ≡ some (failed timeout j)
  unfolding bursts
  bursts-given_up env envs l len tries bytes i j e = rw e refl

  pub stream_write-bursts :
      (envs : List Burst) (l len : ℕ) (bytes : ℕ → ℕ) (a : Interface) (c : SocketStream)
      → stream_of (a.heap l) ≡ some c
      → c.state ≡ open_state
      → 0 < len
      → stream_write envs l bytes len a ≡ bursts envs l bytes len 0 0 a
  unfolding stream_write connected
  stream_write-bursts envs l len bytes a c here live some_bytes =
      rw here (rw live (rw (ne→== len 0 (λ z. omega arith)) refl))

  stream_write-thrice :
      (a : Interface) (la len : ℕ) (bytes : ℕ → ℕ) (one two three : Burst) (envs : List Burst)
      (c : SocketStream)
      → Has a la (AnySocket.client c)
      → c.state ≡ open_state
      → c.last_recved_ack ≡ c.sequence_number
      → c.sequence_number < 256
      → 0 < len
      → Unheard c.timeout one
      → Unheard c.timeout two
      → Unheard c.timeout three
      → (j : Interface) × (stream_write (one ∷ two ∷ three ∷ envs) la bytes len a
          ≡ some (failed timeout j))
        × (j.heap la ≡ AnySocket.client c)
        × (j.tx.sent
            ≡ a.tx.sent ++ thrice (burst_frames a.address c bytes len (packets_to_send len) 0 0))
  stream_write-thrice a la len bytes one two three envs c h live same byte some_bytes un1 un2 un3 =
      let v1 = burst-Vain one la len 0 bytes c a h same byte some_bytes un1 in
      let v2 = burst-Vain two la len 1 bytes c v1.after v1.has same byte some_bytes un2 in
      let v3 = burst-Vain three la len 2 bytes c v2.after v2.has same byte some_bytes un3 in
      let frames : ℕ → List ℕ = λ n. burst_frames n c bytes len (suc (more_packets len)) 0 0 in
      (
        v3.after,
        stream_write-bursts _ la len bytes a c (ap stream_of h.there) live some_bytes
            ∙ bursts-again one _ la len 0 bytes a v1.after v1.ends some_bytes
            ∙ bursts-again two _ la len 1 bytes v1.after v2.after v2.ends some_bytes
            ∙ bursts-given_up three envs la len 2 bytes v2.after v3.after v3.ends,
        v3.has.there,
        v3.line
            ∙ ap₂ (λ xs n. xs ++ frames n) (v2.line ∙ ap₂ (λ xs n. xs ++ frames n) v1.line v1.here)
                (v2.here ∙ v1.here)
            ∙ append_assoc (a.tx.sent ++ frames a.address) (frames a.address) (frames a.address)
            ∙ append_assoc a.tx.sent (frames a.address) (frames a.address ++ frames a.address)
            ∙ ap (λ m. a.tx.sent ++ thrice (burst_frames a.address c bytes len m 0 0))
                (sym (packets_to_send_lem len some_bytes).0),
      )

  -- A write of any bytes to an open client on which nothing arrives any more, where the last
  -- acknowledged number is none of the four behind the client's sequence number, nor 255, leaves the
  -- client as it was. Where it is the sequence number, the write sends the packets of its first burst
  -- three times, each time waiting for the timeout, and returns TIMEOUT; otherwise it sends them once,
  -- waits for the timeout and returns ACK_OUT_OF_SEQUENCE.
  pub stream_write-Unheard :
      (a : Interface) (la len : ℕ) (bytes : ℕ → ℕ) (one two three : Burst) (envs : List Burst)
      (c : SocketStream)
      → Has a la (AnySocket.client c)
      → c.state ≡ open_state
      → ((j : ℕ) → j < 4 → c.last_recved_ack ≢ u8 (c.sequence_number + (j + 1)))
      → c.last_recved_ack ≢ 255
      → c.sequence_number < 256
      → 0 < len
      → Unheard c.timeout one
      → Unheard c.timeout two
      → Unheard c.timeout three
      → let frames = burst_frames a.address c bytes len (packets_to_send len) 0 0 in
        let outcome = stream_write (one ∷ two ∷ three ∷ envs) la bytes len a in
        (j : Interface) × (j.heap la ≡ AnySocket.client c)
        × ((c.last_recved_ack ≡ c.sequence_number)
              × (outcome ≡ some (failed timeout j))
              × (j.tx.sent ≡ a.tx.sent ++ thrice frames)
            ⊎ (c.last_recved_ack ≢ c.sequence_number)
              × (outcome ≡ some (failed ack_out_of_sequence j))
              × (j.tx.sent ≡ a.tx.sent ++ frames))
  stream_write-Unheard a la len bytes one two three envs c h live differs ne byte some_bytes un1 un2
        un3 =
      elim (ℕ_discrete c.last_recved_ack c.sequence_number) [
        | yes same ↦
            (let (j, ends, there, line) =
                stream_write-thrice a la len bytes one two three envs c h live same byte some_bytes
                  un1 un2 un3 in
              (j, there, inl (same, ends, line)))
        | no old ↦
            (let (j, ends, there, line) =
                burst-lost one la len bytes c a h old differs ne some_bytes un1 in
              (
                j,
                there,
                inr (
                  old,
                  stream_write-given_up one (two ∷ three ∷ envs) la len bytes a j c
                      (ap stream_of h.there) live some_bytes ends,
                  line,
                ),
              ))
      ]
