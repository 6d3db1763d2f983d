-- ===== src/Serialiser/Parser/Decode.antt =====
-- What `read_data` makes of a buffer that holds the bytes of a packet.
use pico_lan.Prelude.{
  ℕ, zero, suc, ◌+◌, ◌*◌, ◌/◌, ◌%◌, ◌≤◌, ◌<◌, ◌≡◌, refl, sym, ap, ◌∙◌, some, [], ◌∷◌, ◌>>=◌, fill,
  slice, slice-fill, fill_below, slice_shift, length, arith,
}
use pico_lan.Etk.{Etk}
use pico_lan.Etk.Items.{items, append_all, length-items}
use pico_lan.AddressField.{new}
use pico_lan.AddressField.Copy.{copy}
use pico_lan.Serialiser.Reader.{Window, read_u8, read_elements}
use pico_lan.Serialiser.Pack
use pico_lan.Serialiser.Pack.{Packet}
use pico_lan.Serialiser.Wire.{packet_id, body, content}
use pico_lan.Serialiser.Parser.{read_data, body_window}

module _ ⦃E : Etk⦄ where
  open E.payload use {Rep, empty, size, get, append}

  read_u8_lem :
      (w : Window) (pos : ℕ) → w.len ≡ 62 → pos < 62 → read_u8 w pos ≡ some (w.at pos, pos + 1)
  unfolding read_u8
  read_u8_lem w pos hw h = ground arith

  pub read_elements_lem :
      (w : Window) (n pos : ℕ) (l : Rep)
      → w.len ≡ 62
      → pos + n ≤ 62
      → read_elements w n pos l ≡ some (append_all E.payload l (slice w.at pos n), pos + n)
  unfolding read_elements append_all
  read_elements_lem w zero pos l hw h = ap (λ t. some (l, t)) (omega arith)
  read_elements_lem w (suc n) pos l hw h = rw (read_u8_lem w pos hw (omega arith)) (
      read_elements_lem w n (pos + 1) (append l (w.at pos)) hw (omega arith)
      ∙ ap (λ t. some (append_all E.payload (append l (w.at pos)) (slice w.at (pos + 1) n), t))
          (omega arith))

  -- A datagram pack from any buffer whose inner length byte keeps within it.
  pub datagram-from_bytes :
      (buf : ℕ → ℕ)
      → buf 6 ≤ 57
      → Pack.Datagram.from_bytes (body_window buf)
        ≡ some (record {
          ttl = buf 2;
          source_addr = buf 3;
          dest_addr = buf 4;
          port = buf 5;
          payload = append_all E.payload empty (slice (body_window buf).at 5 (buf 6));
        })
  unfolding Pack.Datagram.from_bytes
  datagram-from_bytes buf h =
      rw (read_elements_lem (body_window buf) (buf 6) 5 empty refl (omega arith))

  -- The packet that the receiver builds: its payload and its address field are new objects.
  unfoldable pub received : Packet → Packet
  received (Packet.get_addr_list p) = Packet.get_addr_list p
  received (Packet.addr p) =
      Packet.addr (record p { address_field = copy 32 0 p.address_field new })
  received (Packet.ping p) = Packet.ping p
  received (Packet.ping_echo p) = Packet.ping_echo p
  received (Packet.datagram p) =
      Packet.datagram
        (record p { payload = append_all E.payload empty (items E.payload p.payload) })
  received (Packet.subscribe p) = Packet.subscribe p

  -- A ping's payload is a uint16.
  abbrev pub Fits : Packet → Type 0
  Fits (Packet.ping p) = p.payload < 65536
  Fits (Packet.ping_echo p) = p.payload < 65536
  Fits _ = Unit

  two_bytes : (c : ℕ) → c < 65536 → c % 256 + c / 256 % 256 * 256 ≡ c
  two_bytes c h = omega arith

  -- The header fields and the payload of a datagram in the buffer.
  datagram_held :
      (p : Pack.Datagram.DatagramPack) (buf : ℕ → ℕ)
      → let held = fill buf 0 (content (Packet.datagram p)) in
        (held 2 ≡ p.ttl)
        × (held 3 ≡ p.source_addr)
        × (held 4 ≡ p.dest_addr)
        × (held 5 ≡ p.port)
        × (held 6 ≡ size p.payload)
        × (slice (body_window held).at 5 (size p.payload) ≡ items E.payload p.payload)
  unfolding fill content
  datagram_held p buf = (
    below 2 (omega arith),
    below 3 (omega arith),
    below 4 (omega arith),
    below 5 (omega arith),
    below 6 (omega arith),
    slice_shift _ held 5 7 (size p.payload) (λ i h. ap held (omega arith))
        ∙ ap (slice held 7) (sym (length-items E.payload p.payload))
        ∙ slice-fill front 7 (items E.payload p.payload),
  )
    where
      front : ℕ → ℕ
      front = fill buf 0 (
          packet_id (Packet.datagram p)
          ∷ length (body (Packet.datagram p))
          ∷ p.ttl
          ∷ p.source_addr
          ∷ p.dest_addr
          ∷ p.port
          ∷ size p.payload
          ∷ [])

      held : ℕ → ℕ
      held = fill front 7 (items E.payload p.payload)

      below : (i : ℕ) → i < 7 → held i ≡ front i
      below i h = fill_below front 7 (items E.payload p.payload) i h

  datagram_decoded :
      (p : Pack.Datagram.DatagramPack) (buf : ℕ → ℕ)
      → (buf 2 ≡ p.ttl)
        × (buf 3 ≡ p.source_addr)
        × (buf 4 ≡ p.dest_addr)
        × (buf 5 ≡ p.port)
        × (buf 6 ≡ size p.payload)
        × (slice (body_window buf).at 5 (size p.payload) ≡ items E.payload p.payload)
      → Pack.Datagram.from_bytes (body_window buf)
        ≡ some (record p { payload = append_all E.payload empty (items E.payload p.payload) })
  datagram_decoded p buf (e2, e3, e4, e5, e6, es) =
      datagram-from_bytes buf (omega (arith, e6, E.payload.size-le-cap p.payload)) ∙ λ i.
      some (record {
        ttl = e2 i;
        source_addr = e3 i;
        dest_addr = e4 i;
        port = e5 i;
        payload = append_all E.payload empty ((ap (slice (body_window buf).at 5) e6 ∙ es) i);
      })

  read_data-datagram :
      (w : Window)
      → read_data 5 w ≡ (do p ← Pack.Datagram.from_bytes w; some (some (Packet.datagram p)))
  unfolding read_data
  read_data-datagram w = refl

  -- `read_data` on the bytes of a packet gives the packet.
  pub read_data-content :
      (p : Packet) (buf : ℕ → ℕ)
      → Fits p
      → read_data (packet_id p) (body_window (fill buf 0 (content p))) ≡ some (some (received p))
  unfolding packet_id content body read_data received fill
  read_data-content (Packet.get_addr_list p) buf h = refl
  read_data-content (Packet.addr p) buf h = unfold copy in refl
  read_data-content (Packet.ping p) buf h =
      ap (λ c. some (some (Packet.ping (record p { payload = c })))) (two_bytes p.payload h)
  read_data-content (Packet.ping_echo p) buf h =
      ap (λ c. some (some (Packet.ping_echo (record p { payload = c })))) (two_bytes p.payload h)
  read_data-content (Packet.datagram p) buf h =
      read_data-datagram (body_window (fill buf 0 (content (Packet.datagram p))))
      ∙ ap (λ r. do q ← r; some (some (Packet.datagram q)))
          (datagram_decoded p (fill buf 0 (content (Packet.datagram p))) (datagram_held p buf))
  read_data-content (Packet.subscribe p) buf h = refl
