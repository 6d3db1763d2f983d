-- ===== src/Serialiser/RoundTrip.antt =====
-- Packets that are sent over a line are received at the other end.
use pico_lan.Prelude.{
  ℕ, ◌≤◌, ◌<◌, ◌≡◌, refl, sym, ap, ◌∙◌, false, some, List, [], ◌∷◌, ◌++◌, append_assoc, append-nil,
  ◌>>=◌, length, map, All, arith, fill,
}
use pico_lan.Etk.{Etk}
use pico_lan.Etk.Items.{items, items-append_all_empty, length-items}
use pico_lan.AddressField.{get_addr}
use pico_lan.AddressField.Copy.{get_addr-copy}
use pico_lan.Serialiser.Sender.{Sender}
use pico_lan.Serialiser.Framing.{frame, checksum}
use pico_lan.Serialiser.Pack.{Packet, send}
use pico_lan.Serialiser.Wire.{packet_id, body, content, length-body, send-Sends}
use pico_lan.Serialiser.Parser.{Parser, read_all, read_data, body_window}
use pico_lan.Serialiser.Parser.Steps.{clean, after, idle}
use pico_lan.Serialiser.Parser.Frames.{read_all-frame}
use pico_lan.Serialiser.Parser.Decode.{received, Fits, read_data-content}

module _ ⦃E : Etk⦄ where
  -- Two packets that no handler can tell apart: the same class and fields, where a payload is known
  -- by its elements and an address field by the addresses in it.
  abbrev pub Same : Packet → Packet → Type 0
  Same (Packet.addr p) (Packet.addr q) =
      (a : ℕ) → a < 256 → get_addr q.address_field a ≡ get_addr p.address_field a
  Same (Packet.datagram p) (Packet.datagram q) =
      (q.ttl ≡ p.ttl)
      × (q.source_addr ≡ p.source_addr)
      × (q.dest_addr ≡ p.dest_addr)
      × (q.port ≡ p.port)
      × (items E.payload q.payload ≡ items E.payload p.payload)
  Same p q = q ≡ p

  abbrev pub AllSame : List Packet → List Packet → Type 0
  AllSame [] [] = Unit
  AllSame (p ∷ ps) (q ∷ qs) = Same p q × AllSame ps qs
  AllSame _ _ = ⊥

  received-Same : (p : Packet) → Same p (received p)
  unfolding received
  received-Same (Packet.get_addr_list p) = refl
  received-Same (Packet.addr p) = λ a h. get_addr-copy p.address_field a h
  received-Same (Packet.ping p) = refl
  received-Same (Packet.ping_echo p) = refl
  received-Same (Packet.datagram p) = (
    refl,
    refl,
    refl,
    refl,
    items-append_all_empty E.payload (items E.payload p.payload)
        (omega (arith, length-items E.payload p.payload, E.payload.size-le-cap p.payload)),
  )
  received-Same (Packet.subscribe p) = refl

  map-received-AllSame : (ps : List Packet) → AllSame ps (map received ps)
  map-received-AllSame [] = tt
  map-received-AllSame (p ∷ ps) = (received-Same p, map-received-AllSame ps)

  packet_id-lt : (p : Packet) → packet_id p < 7
  unfolding packet_id
  packet_id-lt (Packet.get_addr_list p) = omega arith
  packet_id-lt (Packet.addr p) = omega arith
  packet_id-lt (Packet.ping p) = omega arith
  packet_id-lt (Packet.ping_echo p) = omega arith
  packet_id-lt (Packet.datagram p) = omega arith
  packet_id-lt (Packet.subscribe p) = omega arith

  -- The parser after a packet: it waits for the next one.
  abbrev settled : Parser → Packet → Parser
  settled r p =
      idle (packet_id p) (checksum (content p)) (length (body p)) (fill r.data_buf 0 (content p))

  frame_of_body :
      (r : Parser) (i : ℕ) (bs cs : List ℕ) (q : Packet)
      → i < 7
      → (1 ≤ length bs) × (length bs ≤ 59)
      → read_data i (body_window (fill r.data_buf 0 (i ∷ length bs ∷ bs))) ≡ some (some q)
      → read_all (clean r) (frame (i ∷ length bs ∷ bs) ++ cs)
        ≡ after
            (some (
              idle i
                  (checksum (i ∷ length bs ∷ bs))
                  (length bs)
                  (fill r.data_buf 0 (i ∷ length bs ∷ bs)),
              some q,
            ))
            cs
  frame_of_body r i [] cs q known (low, high) decoded = absurd (omega arith)
  frame_of_body r i (x ∷ xs) cs q known (low, high) decoded =
      read_all-frame r i x xs cs (some q) known (omega arith) decoded

  read_all-content :
      (r : Parser) (p : Packet) (cs : List ℕ)
      → Fits p
      → read_all (clean r) (frame (content p) ++ cs)
        ≡ after (some (settled r p, some (received p))) cs
  unfolding content
  read_all-content r p cs fits =
      frame_of_body r (packet_id p) (body p) cs (received p) (packet_id-lt p) (length-body p)
        (unfold content in read_data-content p r.data_buf fits)

  -- Sending packets one after the other.
  unfoldable pub send_all : Sender → List Packet → Sender
  send_all s [] = s
  send_all s (p ∷ ps) = send_all (send p s) ps

  abbrev frames : List Packet → List ℕ
  frames [] = []
  frames (p ∷ ps) = frame (content p) ++ frames ps

  send_all-frames : (s : Sender) (ps : List Packet) → (send_all s ps).sent ≡ s.sent ++ frames ps
  unfolding send_all
  send_all-frames s [] = sym (append-nil s.sent)
  send_all-frames s (p ∷ ps) =
      send_all-frames (send p s) ps
      ∙ ap (λ xs. xs ++ frames ps) (send-Sends p s).on_wire
      ∙ append_assoc s.sent (frame (content p)) (frames ps)

  after_packets :
      (r : Parser) (ps : List Packet)
      → All Fits ps
      → (r' : Parser) × (r'.stuff_flag ≡ false)
        × (read_all (clean r) (frames ps) ≡ some (r', map received ps))
  after_packets r [] h = (clean r, refl, unfold read_all in refl)
  after_packets r (p ∷ ps) (hp, hps) =
      let (r', steady, rest) = after_packets (settled r p) ps hps in
      (
        r',
        steady,
        read_all-content r p (frames ps) hp
            ∙ ap (λ o. do (r2, ms) ← o; some (r2, received p ∷ ms)) rest,
      )

  -- The bytes that a sender puts on a fresh line for any sequence of packets are parsed, whatever the
  -- parser did before (it must only not wait for an escaped byte), into as many packets in the same
  -- order, each the same as the one that was sent, with no access outside the receive buffer. The
  -- payload of a ping is taken to fit its uint16.
  pub read_all-send_all :
      (s : Sender) (r : Parser) (ps : List Packet)
      → s.sent ≡ []
      → r.stuff_flag ≡ false
      → All Fits ps
      → (r' : Parser) × (qs : List Packet) × (read_all r (send_all s ps).sent ≡ some (r', qs))
        × AllSame ps qs
        × (r'.stuff_flag ≡ false)
  read_all-send_all s r ps fresh steady fits =
      let (r', calm, run) = after_packets r ps fits in
      (
        r',
        map received ps,
        ap (λ b. read_all (record r { stuff_flag = b }) (send_all s ps).sent) steady
            ∙ ap (read_all (clean r)) (send_all-frames s ps ∙ ap (λ xs. xs ++ frames ps) fresh)
            ∙ run,
        map-received-AllSame ps,
        calm,
      )

  -- One packet on a fresh line, as the receiver builds it.
  pub read_all-send :
      (s : Sender) (r : Parser) (p : Packet)
      → s.sent ≡ []
      → r.stuff_flag ≡ false
      → Fits p
      → (r' : Parser) × (read_all r (send p s).sent ≡ some (r', received p ∷ []))
        × (r'.stuff_flag ≡ false)
  unfolding send_all
  read_all-send s r p fresh steady fits =
      let (r', calm, run) = after_packets r (p ∷ []) (fits, tt) in
      (
        r',
        ap (λ b. read_all (record r { stuff_flag = b }) (send_all s (p ∷ [])).sent) steady
            ∙ ap (read_all (clean r))
                (send_all-frames s (p ∷ []) ∙ ap (λ xs. xs ++ frames (p ∷ [])) fresh)
            ∙ run,
        calm,
      )
