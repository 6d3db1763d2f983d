-- ===== src/Serialiser/Wire.antt =====
-- The bytes that a packet of each class carries, and that `send()` frames just those.
use pico_lan.Prelude.{
  ℕ, zero, suc, ◌+◌, ◌/◌, ◌%◌, ◌≤◌, ◌≡◌, refl, ap₂, ◌∙◌, List, [], ◌∷◌, length, slice, length-slice,
  u8, arith,
}
use pico_lan.Etk.{Etk}
use pico_lan.Etk.Items.{items, length-items}
use pico_lan.AddressField.{AddressField, get_byte}
use pico_lan.Serialiser.Sender.{Sender, put, put_all}
use pico_lan.Serialiser.Framing.{Sends, send_body, send_body-Sends}
use pico_lan.Serialiser.Pack
use pico_lan.Serialiser.Pack.{Packet, send}
use pico_lan.Serialiser.Pack.Addr.{put_bitfields}

module _ ⦃E : Etk⦄ where
  unfoldable pub packet_id : Packet → ℕ
  packet_id (Packet.get_addr_list p) = 1
  packet_id (Packet.addr p) = 2
  packet_id (Packet.ping p) = 3
  packet_id (Packet.ping_echo p) = 4
  packet_id (Packet.datagram p) = 5
  packet_id (Packet.subscribe p) = 6

  -- The fields in the order in which they are written.
  unfoldable pub body : Packet → List ℕ
  body (Packet.get_addr_list p) = p.ttl ∷ []
  body (Packet.addr p) = slice (get_byte p.address_field) 0 32
  body (Packet.ping p) =
      p.ttl ∷ p.source_addr ∷ p.dest_addr ∷ (p.payload % 256) ∷ (p.payload / 256 % 256) ∷ []
  body (Packet.ping_echo p) =
      p.ttl ∷ p.source_addr ∷ p.dest_addr ∷ (p.payload % 256) ∷ (p.payload / 256 % 256) ∷ []
  body (Packet.datagram p) =
      p.ttl
      ∷ p.source_addr
      ∷ p.dest_addr
      ∷ p.port
      ∷ E.payload.size p.payload
      ∷ items E.payload p.payload
  body (Packet.subscribe p) = p.ttl ∷ p.port ∷ p.addr ∷ p.subscribe ∷ []

  -- Identifier, size and fields: what the checksum runs over.
  unfoldable pub content : Packet → List ℕ
  unfolding packet_id body
  content p = packet_id p ∷ length (body p) ∷ body p

  put_bitfields_lem :
      (n i : ℕ) (f : AddressField) (s : Sender)
      → put_bitfields n i f s ≡ put_all s (slice (get_byte f) i n)
  unfolding put_bitfields put_all
  put_bitfields_lem zero i f s = refl
  put_bitfields_lem (suc n) i f s = put_bitfields_lem n (i + 1) f (put s (get_byte f i))

  -- No body is longer than 59 bytes, so its size fits the receive buffer behind the two header
  -- bytes.
  pub length-body : (p : Packet) → (1 ≤ length (body p)) × (length (body p) ≤ 59)
  unfolding body
  length-body (Packet.get_addr_list p) = omega arith
  length-body (Packet.addr p) = omega (arith, length-slice (get_byte p.address_field) 0 32)
  length-body (Packet.ping p) = omega arith
  length-body (Packet.ping_echo p) = omega arith
  length-body (Packet.datagram p) =
      omega (arith, length-items E.payload p.payload, E.payload.size-le-cap p.payload)
  length-body (Packet.subscribe p) = omega arith

  -- A datagram pack with the two lengths that it writes left open.
  abbrev send_sized : Pack.Datagram.DatagramPack → ℕ → ℕ → Sender → Sender
  send_sized p total n s =
      send_body 5 total
        (p.ttl ∷ p.source_addr ∷ p.dest_addr ∷ p.port ∷ n ∷ slice (E.payload.get p.payload) 0 n) s

  datagram_send :
      (p : Pack.Datagram.DatagramPack) (s : Sender)
      → Pack.Datagram.send p s
        ≡ send_sized p (Pack.Datagram.size p) (u8 (E.payload.size p.payload)) s
  unfolding Pack.Datagram.send send_body put_all
  datagram_send p s = refl

  -- Both lengths fit a byte, as a payload has 54 elements at most.
  datagram_sizes :
      (p : Pack.Datagram.DatagramPack)
      → (Pack.Datagram.size p ≡ suc (suc (suc (suc (suc (E.payload.size p.payload))))))
        × (u8 (E.payload.size p.payload) ≡ E.payload.size p.payload)
  unfolding Pack.Datagram.size
  datagram_sizes p = omega (arith, E.payload.size-le-cap p.payload)

  send-eq-send_body :
      (p : Packet) (s : Sender) → send p s ≡ send_body (packet_id p) (length (body p)) (body p) s
  unfolding send send_body packet_id body put_all
  send-eq-send_body (Packet.get_addr_list p) s = refl
  send-eq-send_body (Packet.addr p) s = refl
  send-eq-send_body (Packet.ping p) s = refl
  send-eq-send_body (Packet.ping_echo p) s = refl
  send-eq-send_body (Packet.datagram p) s =
      datagram_send p s
      ∙ ap₂ (λ a b. send_sized p a b s) (datagram_sizes p).0 (datagram_sizes p).1
      ∙ rw (length-items E.payload p.payload)
  send-eq-send_body (Packet.subscribe p) s = refl

  -- `send()` of any packet puts one frame on the wire, which carries the identifier, the size of the
  -- fields and the fields, and flushes the line.
  pub send-Sends : (p : Packet) (s : Sender) → Sends s (send p s) (content p)
  unfolding content
  send-Sends p s =
      rw (send-eq-send_body p s) (send_body-Sends (packet_id p) (length (body p)) (body p) s)

  pub datagram-Sends :
      (p : Pack.Datagram.DatagramPack) (s : Sender)
      → Sends s (Pack.Datagram.send p s) (content (Packet.datagram p))
  datagram-Sends p s = unfold send in send-Sends (Packet.datagram p) s
