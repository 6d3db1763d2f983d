-- ===== src/Socket/Wrap.antt =====
-- Client and server at the point where the sequence number wraps round.
use pico_lan.Prelude.{ℕ, ◌<◌, ◌≡◌, refl, ap, ◌∙◌, List, [], ◌∷◌, arith, All}
use pico_lan.Etk.{Etk}
use pico_lan.Serialiser.Sender.{Sender}
use pico_lan.Socket.{SocketStream, open_state}
use pico_lan.Socket.Client
use pico_lan.Socket.Server
use pico_lan.Socket.Stream.{send_ack}
use pico_lan.Socket.Messages.{Message, number_of, IsData, client_on_data}

module _ ⦃E : Etk⦄ where
  -- Below the last sequence number an open client does with any message just what an open server
  -- does: the same stream and the same bytes on the wire.
  pub client-eq-server :
      (address r : ℕ) (s : SocketStream) (tx : Sender) (m : Message)
      → s.state ≡ open_state
      → s.remote_sequence < 255
      → Client.on_data address s tx r m.buffer m.len ≡ Server.on_data address s tx r m.buffer m.len
  unfolding Client.on_data Server.on_data
  client-eq-server address r s tx m live below = ground arith

  -- Messages that reach a client one after the other.
  unfoldable pub hear_all : ℕ → ℕ → List Message → SocketStream → Sender → SocketStream × Sender
  hear_all address r [] s tx = (s, tx)
  hear_all address r (m ∷ ms) s tx =
      let (s', tx') = Client.on_data address s tx r m.buffer m.len in hear_all address r ms s' tx'

  deaf :
      (address r : ℕ) (s : SocketStream) (tx : Sender) (m : Message)
      → s.state ≡ open_state
      → s.remote ≡ r
      → s.remote_sequence ≡ 255
      → IsData m
      → number_of m < 256
      → Client.on_data address s tx r m.buffer m.len ≡ (s, send_ack address s tx)
  deaf address r s tx m live same last is_data byte =
      client_on_data address r s tx m live same is_data ∙ ground arith

  abbrev pub IsByteData : Message → Type 0
  IsByteData m = IsData m × (number_of m < 256)

  -- An open client that has received the message number 255 takes no DATA message ever after: no
  -- sequence of messages whose numbers are bytes changes anything of the stream, its buffer included.
  pub hear_all-wrapped :
      (address r : ℕ) (ms : List Message) (s : SocketStream) (tx : Sender)
      → s.state ≡ open_state
      → s.remote ≡ r
      → s.remote_sequence ≡ 255
      → All IsByteData ms
      → (hear_all address r ms s tx).0 ≡ s
  unfolding hear_all
  hear_all-wrapped address r [] s tx live same last bytes = refl
  hear_all-wrapped address r (m ∷ ms) s tx live same last ((is_data, byte), rest) =
      ap (λ p. (hear_all address r ms p.0 p.1).0)
        (deaf address r s tx m live same last is_data byte)
      ∙ hear_all-wrapped address r ms s (send_ack address s tx) live same last rest
