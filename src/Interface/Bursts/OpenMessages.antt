-- ===== src/Interface/Bursts/OpenMessages.antt =====
-- What two messages do to an open stream: DATA that is not the next one, and an acknowledgement.
use pico_lan.Prelude.{ℕ, ◌+◌, ◌≤◌, ◌≡◌, ◌≢◌, refl, sym, ap, ◌∙◌, List, [], ◌∷◌, u8, length, arith}
use pico_lan.Etk.{Etk}
use pico_lan.Serialiser.Sender.{Sender}
use pico_lan.Socket.{SocketStream, open_state, msg_ack, msg_data}
use pico_lan.Socket.Stream.{send_ack}
use pico_lan.Socket.Client
use pico_lan.Socket.Server
use pico_lan.Interface.{Interface, AnySocket}
use pico_lan.Interface.Remote.{arrive-client, arrive-server}
use pico_lan.Interface.Hearing.{carrying}
use pico_lan.Interface.Handshake.Messages.{
  Has, Heard, hears_as, first_byte, second_byte, client_port, server_port, from, payload_of,
}

module _ ⦃E : Etk⦄ where
  -- An open server that hears DATA with a number that is not the next one keeps its state and
  -- acknowledges the last number again.
  server_data_other :
      (address : ℕ) (v : SocketStream) (tx : Sender) (r : ℕ) (buffer : ℕ → ℕ) (len n : ℕ)
      → v.state ≡ open_state
      → v.remote ≡ r
      → buffer 0 ≡ msg_data
      → buffer 1 ≡ n
      → n ≢ u8 (v.remote_sequence + 1)
      → Server.on_data address v tx r buffer len ≡ (v, send_ack address v tx)
  unfolding Server.on_data
  server_data_other address v tx r buffer len n e same h hn ne = ground arith

  client_open_ack :
      (address : ℕ) (c : SocketStream) (tx : Sender) (r : ℕ) (buffer : ℕ → ℕ) (len n : ℕ)
      → c.state ≡ open_state
      → c.remote ≡ r
      → buffer 0 ≡ msg_ack
      → buffer 1 ≡ n
      → Client.on_data address c tx r buffer len ≡ (record c { last_recved_ack = n }, tx)
  unfolding Client.on_data
  client_open_ack address c tx r buffer len n e same h hn = ground arith

  pub server_hears_other :
      (i : Interface) (l source n : ℕ) (xs : List ℕ) (v : SocketStream)
      → Has i l (AnySocket.server v)
      → v.state ≡ open_state
      → v.remote ≡ source
      → n ≢ u8 (v.remote_sequence + 1)
      → length xs ≤ 52
      → (j : Interface) × Heard i j l
          (carrying source i.address v.port (msg_data ∷ n ∷ xs))
          (AnySocket.server v)
          (send_ack i.address v i.tx)
  server_hears_other i l source n xs v h e same ne fit =
      hears_as i l source v.port (msg_data ∷ n ∷ xs) (AnySocket.server v) (AnySocket.server v) _ h
        (server_port v) (omega arith)
        (arrive-server (carrying source i.address v.port (msg_data ∷ n ∷ xs)) i v
          ∙ ap (λ q. (AnySocket.server q.0, q.1))
              (ap
                  (λ r.
                    Server.on_data i.address (from v r) i.tx source (payload_of (msg_data ∷ n ∷ xs))
                      (E.payload.size
                        (carrying source i.address v.port (msg_data ∷ n ∷ xs)).payload))
                  (sym same)
                ∙ server_data_other i.address v i.tx source _ _ n e same
                    (first_byte msg_data (n ∷ xs) (omega arith))
                    (second_byte msg_data n xs (omega arith)) ne))

  pub client_hears_ack_open :
      (i : Interface) (l source n : ℕ) (c : SocketStream)
      → Has i l (AnySocket.client c)
      → c.state ≡ open_state
      → c.remote ≡ source
      → (j : Interface) × Heard i j l
          (carrying source i.address c.port (msg_ack ∷ n ∷ []))
          (AnySocket.client (record c { last_recved_ack = n }))
          i.tx
  client_hears_ack_open i l source n c h e same =
      hears_as i l source c.port (msg_ack ∷ n ∷ []) (AnySocket.client c) _ i.tx h (client_port c)
        (omega arith)
        (arrive-client (carrying source i.address c.port (msg_ack ∷ n ∷ [])) i c
          ∙ ap (λ q. (AnySocket.client q.0, q.1))
              (client_open_ack i.address (from c source) i.tx source _ _ n e refl
                  (first_byte msg_ack (n ∷ []) (omega arith))
                  (second_byte msg_ack n [] (omega arith))
                ∙ ap (λ r. (record (from c r) { last_recved_ack = n }, i.tx)) (sym same)))
