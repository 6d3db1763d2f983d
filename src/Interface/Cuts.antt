-- ===== src/Interface/Cuts.antt =====
-- Datagram::write of any length: its packets carry at most 54 of the 58 bytes of a chunk.
pub mod Mailed
use pico_lan.Prelude.{
  ℕ, zero, suc, ◌+◌, ◌-◌, ◌*◌, ◌/◌, ◌%◌, ◌≤◌, ◌<◌, ◌≡◌, ◌≢◌, refl, sym, ap, ap₂, subst, ◌∙◌, some,
  List, [], ◌∷◌, ◌++◌, append-nil, append_assoc, slice, length, length-append, length-slice,
  slice-append, ne→==, ==_iff, if◌then◌else◌, arith, dec_lt, ℕ_discrete, ◌==◌,
}
use pico_lan.Etk.{Etk}
use pico_lan.Etk.Items.{
  items, append_all, length-items, items-append_all_empty, IgnoresFull, items-append_all_cut,
}
use pico_lan.Serialiser.Sender
use pico_lan.Serialiser.Framing.{frame}
use pico_lan.Serialiser.Wire.{content, body, send-Sends}
use pico_lan.Serialiser.Pack.{Packet}
use pico_lan.Socket.{Socket}
use pico_lan.Socket.Stream
use pico_lan.Socket.Messages.{store-queue}
use pico_lan.Interface.{Interface, AnySocket, base, port_of, send_packet, read}
use pico_lan.Interface.Writing.{chunk_sz, chunk, write_chunks, write, flush}
use pico_lan.Interface.Remote.{arrive-datagram}
use pico_lan.Interface.Hearing.{wire, carrying, read-then}
use pico_lan.Interface.Handshake.Messages.{Has, hears_as}
use pico_lan.Interface.Letters.{gained, datagram_port}
use pico_lan.Interface.Bursts.{min}

-- The bytes of the packets of the chunks from `i` on.
abbrev pub kept_chunks : (ℕ → ℕ) → ℕ → ℕ → List ℕ
kept_chunks bytes zero i = []
kept_chunks bytes (suc n) i = slice bytes (i * 58) 54 ++ kept_chunks bytes n (i + 1)

-- Of each chunk of 58 bytes the first 54, and of the rest the first 54 at most.
abbrev pub kept : (ℕ → ℕ) → ℕ → List ℕ
kept bytes len = kept_chunks bytes (len / 58) 0 ++ slice bytes (len / 58 * 58) (min 54 (len % 58))

module _ ⦃E : Etk⦄ where
  open E.ring use {queue, room}

  chunk_items :
      (bytes : ℕ → ℕ) (k n : ℕ)
      → IgnoresFull E.payload
      → items E.payload (append_all E.payload E.payload.empty (slice bytes k n))
        ≡ slice bytes k (min 54 n)
  chunk_items bytes k n drops = elim (dec_lt 54 n) [
    | yes long ↦
        ap (λ m. items E.payload (append_all E.payload E.payload.empty (slice bytes k m)))
          {y = 54 + (n - 54)} (omega arith)
        ∙ ap (λ xs. items E.payload (append_all E.payload E.payload.empty xs))
            (slice-append bytes k 54 (n - 54))
        ∙ items-append_all_cut E.payload (slice bytes k 54) (slice bytes (k + 54) (n - 54)) drops
            (length-slice bytes k 54)
        ∙ ap (slice bytes k) {x = 54} (cut_long long)
    | no short ↦
        items-append_all_empty E.payload (slice bytes k n) (omega (arith, length-slice bytes k n))
        ∙ ap (slice bytes k) (cut_short (omega arith))
  ]
    where
      cut_long : 54 < n → 54 ≡ min 54 n
      cut_long h = ground arith

      cut_short : n ≤ 54 → n ≡ min 54 n
      cut_short h = ground arith

  -- A packet of a chunk looks on the line like one that was filled with the bytes kept.
  wire-chunk :
      (address dest port : ℕ) (bytes : ℕ → ℕ) (k n : ℕ)
      → IgnoresFull E.payload
      → wire (Packet.datagram (chunk address dest port bytes k n))
        ≡ wire (Packet.datagram (carrying address dest port (slice bytes k (min 54 n))))
  unfolding content body
  wire-chunk address dest port bytes k n drops =
      let kept_bytes = slice bytes k (min 54 n) in
      let full = append_all E.payload E.payload.empty (slice bytes k n) in
      let short = append_all E.payload E.payload.empty kept_bytes in
      let same : items E.payload full ≡ items E.payload short =
        chunk_items bytes k n drops
        ∙ sym (
            items-append_all_empty E.payload kept_bytes
              (omega (arith, length-slice bytes k (min 54 n), min_le n))) in
      let sizes : E.payload.size full ≡ E.payload.size short =
        sym (length-items E.payload full) ∙ ap length same ∙ length-items E.payload short in
      ap₂
        (λ s xs.
          let fields : List ℕ = 6 ∷ address ∷ dest ∷ port ∷ s ∷ xs in
          frame (5 ∷ length fields ∷ fields))
        sizes same
    where
      min_le : (m : ℕ) → min 54 m ≤ 54
      min_le m = ground arith

  -- What the loop over the chunks puts on the line.
  abbrev pub chunk_frames : ℕ → ℕ → ℕ → (ℕ → ℕ) → ℕ → ℕ → List ℕ
  chunk_frames address dest port bytes zero i = []
  chunk_frames address dest port bytes (suc n) i =
      wire (Packet.datagram (carrying address dest port (slice bytes (i * 58) 54)))
      ++ chunk_frames address dest port bytes n (i + 1)

  send_packet_lem :
      (p : Packet) (a : Interface)
      → ((send_packet p a).tx.sent ≡ a.tx.sent ++ wire p) × ((send_packet p a).address ≡ a.address)
  unfolding send_packet
  send_packet_lem p a = ((send-Sends p a.tx).on_wire, refl)

  write_chunks-sent :
      (n i dest port : ℕ) (bytes : ℕ → ℕ) (a : Interface)
      → IgnoresFull E.payload
      → ((write_chunks n i dest port bytes a).tx.sent
          ≡ a.tx.sent ++ chunk_frames a.address dest port bytes n i)
        × ((write_chunks n i dest port bytes a).address ≡ a.address)
  unfolding write_chunks
  write_chunks-sent zero i dest port bytes a drops = (sym (append-nil a.tx.sent), refl)
  write_chunks-sent (suc n) i dest port bytes a drops =
      let p = Packet.datagram (chunk a.address dest port bytes (i * 58) 58) in
      let (line, here) = send_packet_lem p a in
      let (more, there) = write_chunks-sent n (i + 1) dest port bytes (send_packet p a) drops in
      (
        more
            ∙ ap₂ (λ xs s. xs ++ chunk_frames s dest port bytes n (i + 1))
                (line
                  ∙ ap (λ ys. a.tx.sent ++ ys)
                      (wire-chunk a.address dest port bytes (i * 58) 58 drops))
                here
            ∙ append_assoc a.tx.sent _ (chunk_frames a.address dest port bytes n (i + 1)),
        there ∙ here,
      )

  -- The frames of the packets of a write.
  abbrev pub write_frames : ℕ → ℕ → ℕ → (ℕ → ℕ) → ℕ → List ℕ
  write_frames address dest port bytes len =
      chunk_frames address dest port bytes (len / 58) 0
      ++ (if len % 58 == 0
          then []
          else wire (
              Packet.datagram
                (carrying address dest port (slice bytes (len / 58 * 58) (min 54 (len % 58))))))

  write_whole :
      (dest port len : ℕ) (bytes : ℕ → ℕ) (a : Interface)
      → len % 58 ≡ 0
      → (write dest port bytes len a).tx.sent
        ≡ (write_chunks (len / 58) 0 dest port bytes a).tx.sent
  unfolding write flush Sender.flush
  write_whole dest port len bytes a e = rw ((==_iff (len % 58) 0).1 e) refl

  write_part :
      (dest port len : ℕ) (bytes : ℕ → ℕ) (a : Interface)
      → len % 58 ≢ 0
      → let sent = write_chunks (len / 58) 0 dest port bytes a in
        (write dest port bytes len a).tx.sent
        ≡ (send_packet
            (Packet.datagram (chunk sent.address dest port bytes (len / 58 * 58) (len % 58)))
            sent).tx.sent
  unfolding write flush Sender.flush
  write_part dest port len bytes a ne = rw (ne→== (len % 58) 0 ne) refl

  pub write-sent :
      (dest port len : ℕ) (bytes : ℕ → ℕ) (a : Interface)
      → IgnoresFull E.payload
      → a.tx.sent ≡ []
      → (write dest port bytes len a).tx.sent ≡ write_frames a.address dest port bytes len
  write-sent dest port len bytes a drops fresh =
      let n = len / 58 in
      let sent = write_chunks n 0 dest port bytes a in
      let (line, here) = write_chunks-sent n 0 dest port bytes a drops in
      let on_line : sent.tx.sent ≡ chunk_frames a.address dest port bytes n 0 =
        line ∙ ap (λ xs. xs ++ chunk_frames a.address dest port bytes n 0) fresh in
      elim (ℕ_discrete (len % 58) 0) [
        | yes e ↦
            write_whole dest port len bytes a e
            ∙ on_line
            ∙ sym (append-nil (chunk_frames a.address dest port bytes n 0))
            ∙ ap (λ t. chunk_frames a.address dest port bytes n 0 ++ (if t then [] else last))
                (sym ((==_iff (len % 58) 0).1 e))
        | no ne ↦
            write_part dest port len bytes a ne
            ∙ (send_packet_lem
                (Packet.datagram (chunk sent.address dest port bytes (n * 58) (len % 58))) sent).0
            ∙ ap₂ ◌++◌ on_line (
                wire-chunk sent.address dest port bytes (n * 58) (len % 58) drops
                ∙ ap
                    (λ s. wire (
                      Packet.datagram
                        (carrying s dest port (slice bytes (n * 58) (min 54 (len % 58))))))
                    here)
            ∙ ap (λ t. chunk_frames a.address dest port bytes n 0 ++ (if t then [] else last))
                (sym (ne→== (len % 58) 0 ne))
      ]
    where
      last : List ℕ
      last = wire (
          Packet.datagram
            (carrying a.address dest port (slice bytes (len / 58 * 58) (min 54 (len % 58)))))
