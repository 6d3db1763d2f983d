-- ===== src/Interface/Echo.antt =====
-- A ping that crosses the line and comes back.
use pico_lan.Prelude.{ℕ, ◌<◌, ◌≡◌, refl, ap, ◌∙◌, false, some, [], ◌∷◌}
use pico_lan.Etk.{Etk}
use pico_lan.Serialiser.Parser.{Parser}
use pico_lan.Serialiser.Parser.Decode.{received, Fits}
use pico_lan.Serialiser.Pack.{Packet, send}
use pico_lan.Serialiser.RoundTrip.{read_all-send}
use pico_lan.Interface.{Interface, send_packet, handle, read}
use pico_lan.Interface.Arrivals.{with_rx, handle_all, read-handle_all}

module _ ⦃E : Etk⦄ where
  send_packet-sent : (p : Packet) (i : Interface) → (send_packet p i).tx.sent ≡ (send p i.tx).sent
  unfolding send_packet
  send_packet-sent p i = refl

  -- One packet that an interface with a fresh line sends is handled by the interface at the other
  -- end.
  pub read-send_packet :
      (p : Packet) (a b : Interface)
      → a.tx.sent ≡ []
      → b.rx.stuff_flag ≡ false
      → Fits p
      → (r : Parser) × (read b (send_packet p a).tx.sent ≡ some (with_rx (handle (received p) b) r))
        × (r.stuff_flag ≡ false)
  unfolding handle_all
  read-send_packet p a b fresh steady fits =
      let (r, run, calm) = read_all-send a.tx b.rx p fresh steady fits in
      (
        r,
        ap (read b) (send_packet-sent p a)
            ∙ read-handle_all b (send p a.tx).sent r (received p ∷ []) run,
        calm,
      )

  -- The packet that `ping` sends.
  abbrev pub ping_packet : Interface → ℕ → ℕ → Packet
  ping_packet a dest payload =
      Packet.ping (record { ttl = 6; source_addr = a.address; dest_addr = dest; payload = payload })

  abbrev pub echo_packet : Interface → ℕ → ℕ → Packet
  echo_packet b source payload =
      Packet.ping_echo
        (record { ttl = 6; source_addr = b.address; dest_addr = source; payload = payload })

  handle-ping :
      (a b : Interface) (dest payload : ℕ)
      → handle (received (ping_packet a dest payload)) b
        ≡ send_packet (echo_packet b a.address payload) b
  unfolding handle received send_packet
  handle-ping a b dest payload = refl

  handle-echo :
      (a b : Interface) (source payload : ℕ)
      → handle (received (echo_packet b source payload)) a
        ≡ record a { ping_echo_payload = payload }
  unfolding handle received
  handle-echo a b source payload = refl

  -- A ping that one interface sends makes the other one send just an echo, addressed to the first and
  -- with the same payload; and the first, when it reads that, holds the payload that its `ping` waits
  -- for. Both lines are taken to be fresh and neither parser to wait for an escaped byte.
  pub ping_echoed :
      (a b : Interface) (dest payload : ℕ)
      → a.tx.sent ≡ []
      → b.tx.sent ≡ []
      → a.rx.stuff_flag ≡ false
      → b.rx.stuff_flag ≡ false
      → payload < 65536
      → let a1 = send_packet (ping_packet a dest payload) a in
        (b1 : Interface) × (a2 : Interface) × (read b a1.tx.sent ≡ some b1)
        × (b1.tx ≡ send (echo_packet b a.address payload) b.tx)
        × (read a1 b1.tx.sent ≡ some a2)
        × (a2.ping_echo_payload ≡ payload)
  unfolding send_packet
  ping_echoed a b dest payload fresh_a fresh_b steady_a steady_b fits =
      let a1 : Interface = send_packet (ping_packet a dest payload) a in
      let (r1, there, calm1) =
        read-send_packet (ping_packet a dest payload) a b fresh_a steady_b fits in
      let (r2, back, calm2) =
        read-send_packet (echo_packet b a.address payload) b a1 fresh_b steady_a fits in
      (
        with_rx (send_packet (echo_packet b a.address payload) b) r1,
        with_rx (record a1 { ping_echo_payload = payload }) r2,
        there ∙ ap (λ i. some (with_rx i r1)) (handle-ping a b dest payload),
        refl,
        back ∙ ap (λ i. some (with_rx i r2)) (handle-echo a1 b a.address payload),
        refl,
      )
