-- ===== src/Interface/Bursts/Unanswered.antt =====
-- A write on a connection on which a write has succeeded before, and which has been lost since.
use pico_lan.Prelude.{
  ℕ, ◌+◌, ◌<◌, ◌≤◌, ◌≡◌, ◌≢◌, refl, sym, ap, ◌∙◌, some, List, [], ◌∷◌, ◌++◌, u8, arith,
}
use pico_lan.Etk.{Etk}
use pico_lan.Socket.{SocketStream, open_state}
use pico_lan.Interface.{Interface, AnySocket, read}
use pico_lan.Interface.Waiting.{Round}
use pico_lan.Interface.Connecting.{stream_of, put_stream}
use pico_lan.Interface.Handshake.Messages.{Has}
use pico_lan.Interface.Bursts.{Burst, packets_to_send, wrote, stream_write}
use pico_lan.Interface.Bursts.Parts.{packets_one}
use pico_lan.Interface.Bursts.Frames.{Sent, send_frames-Sent, burst_frames}
use pico_lan.Interface.Bursts.Acked.{Acked}
use pico_lan.Interface.Bursts.Starting.{starting}
use pico_lan.Interface.Bursts.Ending.{burst-acknowledged}
use pico_lan.Interface.Bursts.Exchange.{answered}
use pico_lan.Interface.Bursts.Whole.{stream_write-wrote}

module _ ⦃E : Etk⦄ where
  read_none : (i : Interface) → read i [] ≡ some i
  unfolding read
  read_none i = refl

  -- Where the last acknowledged number is one more than the client's sequence number, a write of
  -- 1 to 52 bytes to an open client returns the number of bytes in its first round though nothing
  -- has arrived: its packet, which is sent, has the number that was acknowledged before. The number
  -- is not 255, and nothing arrives while the packet is sent.
  pub stream_write-unanswered :
      (a : Interface) (la start t len : ℕ) (bytes : ℕ → ℕ) (rest : List Round) (envs : List Burst)
      (c : SocketStream)
      → Has a la (AnySocket.client c)
      → c.state ≡ open_state
      → c.last_recved_ack ≡ u8 (c.sequence_number + 1)
      → c.sequence_number < 256
      → c.last_recved_ack ≢ 255
      → 0 < len
      → len ≤ 52
      → (a2 : Interface) × (stream_write (answered start t [] rest ∷ envs) la bytes len a
          ≡ some (wrote len a2))
        × (a2.tx.sent ≡ a.tx.sent ++ burst_frames a.address c bytes len 1 0 0)
  stream_write-unanswered a la start t len bytes rest envs c h live stale byte ne some_bytes fits =
      let env : Burst = answered start t [] rest in
      let n : ℕ = c.last_recved_ack in
      let one : packets_to_send len ≡ 1 = packets_one len some_bytes fits in
      let sent : Sent env la len 1 0 bytes c (starting a) =
        send_frames-Sent env la len 1 0 bytes c (starting a) h (λ j. refl) in
      let acked : Acked sent.after.iface la c [] n = record {
        after = sent.after.iface;
        reads = read_none sent.after.iface;
        has = sent.has;
        line = refl;
        here = refl;
      } in
      let a2 : Interface =
        put_stream la
          (
            record c { last_recved_ack = n; sequence_number = u8 (c.sequence_number + 0) },
            sent.after.iface.tx,
          )
          sent.after.iface in
      (
        a2,
        stream_write-wrote env envs la len bytes a a2 c (ap stream_of h.there) live some_bytes (
            burst-acknowledged la start t len n 0 bytes [] rest a c sent acked one (omega arith)
              (omega arith) byte stale ne (sent.final ∙ sym stale)),
        sent.line,
      )
