-- ===== src/Interface/Bursts/Starting.antt =====
-- A burst up to the loop that waits for its acknowledgements.
use pico_lan.Prelude.{ℕ, suc, ◌-◌, ◌≡◌, ap, ◌∙◌, ◌>>=◌, arith}
use pico_lan.Etk.{Etk}
use pico_lan.Socket.{SocketStream}
use pico_lan.Interface.{Interface}
use pico_lan.Interface.Bursts.{
  cleared, Burst, packets_to_send, Sending, send_frames, wait_ack, burst_end, burst,
}
use pico_lan.Interface.Bursts.Parts.{burst_lem}
use pico_lan.Interface.Bursts.Frames.{Sent}

module _ ⦃E : Etk⦄ where
  -- What the loop over the packets starts with.
  abbrev pub from_position : ℕ → Interface → Sending
  from_position p a = record {
    iface = a;
    bytes_pos = p;
    frame_byte_pos = λ k. cleared;
    final_seq = 0;
  }

  abbrev pub starting : Interface → Sending
  starting a = from_position 0 a

  -- A burst from position `p` on, up to the loop that waits.
  pub burst_waits_from :
      (env : Burst) (la len p k tries : ℕ) (bytes : ℕ → ℕ) (a : Interface) (c : SocketStream)
      (sent : Sent env la len (suc k) 0 bytes c (from_position p a))
      → packets_to_send (len - p) ≡ suc k
      → burst env la bytes len p tries a ≡ (do
        ended ← wait_ack env.rounds env.start sent.after.final_seq la sent.after.iface
        burst_end la p tries sent.after ended)
  burst_waits_from env la len p k tries bytes a c sent count =
      burst_lem env la len p tries bytes a
      ∙ ap
          (λ m. do
            w ← send_frames env la bytes len m 0 (from_position p a)
            ended ← wait_ack env.rounds env.start w.final_seq la w.iface
            burst_end la p tries w ended)
          count
      ∙ ap
          (λ o. do
            w ← o
            ended ← wait_ack env.rounds env.start w.final_seq la w.iface
            burst_end la p tries w ended)
          sent.runs

  pub from_start : (len : ℕ) → packets_to_send (len - 0) ≡ packets_to_send len
  from_start len = ap packets_to_send (omega arith)

  pub burst_waits :
      (env : Burst) (la len k tries : ℕ) (bytes : ℕ → ℕ) (a : Interface) (c : SocketStream)
      (sent : Sent env la len (suc k) 0 bytes c (starting a))
      → packets_to_send len ≡ suc k
      → burst env la bytes len 0 tries a ≡ (do
        ended ← wait_ack env.rounds env.start sent.after.final_seq la sent.after.iface
        burst_end la 0 tries sent.after ended)
  burst_waits env la len k tries bytes a c sent count =
      burst_waits_from env la len 0 k tries bytes a c sent (from_start len ∙ count)
