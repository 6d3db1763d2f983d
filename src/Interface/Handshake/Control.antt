-- ===== src/Interface/Handshake/Control.antt =====
-- What the SYN and ACK messages of the handshake do to the two streams.
use pico_lan.Prelude.{ℕ, ◌≡◌, refl, sym, ap, ◌∙◌, [], ◌∷◌, arith}
use pico_lan.Etk.{Etk}
use pico_lan.Serialiser.Sender.{Sender}
use pico_lan.Socket.{
  SocketStream, syn_sent, listening, syn_recved, pending, open_state, msg_ack, msg_syn,
}
use pico_lan.Socket.Client
use pico_lan.Socket.Server
use pico_lan.Interface.{Interface, AnySocket}
use pico_lan.Interface.Remote.{arrive-client, arrive-server}
use pico_lan.Interface.Hearing.{carrying}
use pico_lan.Interface.Handshake.Messages.{
  Has, Heard, hears_as, first_byte, second_byte, third_byte, from, client_port, server_port,
}

module _ ⦃E : Etk⦄ where
  -- What `on_data` makes of the control messages.
  client_ack :
      (address : ℕ) (c : SocketStream) (tx : Sender) (r : ℕ) (buffer : ℕ → ℕ) (len : ℕ)
      → c.state ≡ syn_sent
      → c.remote ≡ r
      → buffer 0 ≡ msg_ack
      → Client.on_data address c tx r buffer len ≡ (c, tx)
  unfolding Client.on_data
  client_ack address c tx r buffer len e same h = ground arith

  client_syn :
      (address : ℕ) (c : SocketStream) (tx : Sender) (r : ℕ) (buffer : ℕ → ℕ) (len n : ℕ)
      → c.state ≡ syn_sent
      → c.remote ≡ r
      → buffer 0 ≡ msg_syn
      → buffer 1 ≡ n
      → Client.on_data address c tx r buffer len
        ≡ (record c { remote_sequence = n; state = syn_recved }, tx)
  unfolding Client.on_data
  client_syn address c tx r buffer len n e same h hn = ground arith

  server_syn :
      (address : ℕ) (v : SocketStream) (tx : Sender) (r : ℕ) (buffer : ℕ → ℕ) (len n port : ℕ)
      → v.state ≡ listening
      → v.remote ≡ r
      → buffer 0 ≡ msg_syn
      → buffer 1 ≡ n
      → buffer 2 ≡ port
      → Server.on_data address v tx r buffer len
        ≡ (record v { remote_sequence = n; remote_port = port; state = syn_recved }, tx)
  unfolding Server.on_data
  server_syn address v tx r buffer len n port e same h hn hp = ground arith

  server_ack :
      (address : ℕ) (v : SocketStream) (tx : Sender) (r : ℕ) (buffer : ℕ → ℕ) (len : ℕ)
      → v.state ≡ pending
      → v.remote ≡ r
      → buffer 0 ≡ msg_ack
      → Server.on_data address v tx r buffer len ≡ (record v { state = open_state }, tx)
  unfolding Server.on_data
  server_ack address v tx r buffer len e same h = ground arith

  -- A client that waits for a SYN message passes an ACK message over.
  pub client_hears_ack :
      (i : Interface) (l source n : ℕ) (c : SocketStream)
      → Has i l (AnySocket.client c)
      → c.state ≡ syn_sent
      → c.remote ≡ source
      → (j : Interface) × Heard i j l
          (carrying source i.address c.port (msg_ack ∷ n ∷ []))
          (AnySocket.client c)
          i.tx
  client_hears_ack i l source n c h e same =
      hears_as i l source c.port (msg_ack ∷ n ∷ []) (AnySocket.client c) (AnySocket.client c) i.tx h
        (client_port c) (omega arith)
        (arrive-client (carrying source i.address c.port (msg_ack ∷ n ∷ [])) i c
          ∙ ap (λ q. (AnySocket.client q.0, q.1))
              (client_ack i.address (from c source) i.tx source _ _ e refl
                  (first_byte msg_ack (n ∷ []) (omega arith))
                ∙ ap (λ r. (from c r, i.tx)) (sym same)))

  pub client_hears_syn :
      (i : Interface) (l source n port : ℕ) (c : SocketStream)
      → Has i l (AnySocket.client c)
      → c.state ≡ syn_sent
      → c.remote ≡ source
      → (j : Interface) × Heard i j l
          (carrying source i.address c.port (msg_syn ∷ n ∷ port ∷ []))
          (AnySocket.client (record c { remote_sequence = n; state = syn_recved }))
          i.tx
  client_hears_syn i l source n port c h e same =
      hears_as i l source c.port (msg_syn ∷ n ∷ port ∷ []) (AnySocket.client c) _ i.tx h
        (client_port c) (omega arith)
        (arrive-client (carrying source i.address c.port (msg_syn ∷ n ∷ port ∷ [])) i c
          ∙ ap (λ q. (AnySocket.client q.0, q.1))
              (client_syn i.address (from c source) i.tx source _ _ n e refl
                  (first_byte msg_syn (n ∷ port ∷ []) (omega arith))
                  (second_byte msg_syn n (port ∷ []) (omega arith))
                ∙ ap (λ r. (record (from c r) { remote_sequence = n; state = syn_recved }, i.tx))
                    (sym same)))

  -- A listening server takes the sender of a SYN message for its client.
  pub server_hears_syn :
      (i : Interface) (l source n port : ℕ) (v : SocketStream)
      → Has i l (AnySocket.server v)
      → v.state ≡ listening
      → (j : Interface) × Heard i j l
          (carrying source i.address v.port (msg_syn ∷ n ∷ port ∷ []))
          (AnySocket.server (record (from v source) {
            remote_sequence = n;
            remote_port = port;
            state = syn_recved;
          }))
          i.tx
  server_hears_syn i l source n port v h e =
      hears_as i l source v.port (msg_syn ∷ n ∷ port ∷ []) (AnySocket.server v) _ i.tx h
        (server_port v) (omega arith)
        (arrive-server (carrying source i.address v.port (msg_syn ∷ n ∷ port ∷ [])) i v
          ∙ ap (λ q. (AnySocket.server q.0, q.1))
              (server_syn i.address (from v source) i.tx source _ _ n port e refl
                (first_byte msg_syn (n ∷ port ∷ []) (omega arith))
                (second_byte msg_syn n (port ∷ []) (omega arith))
                (third_byte msg_syn n port [] (omega arith))))

  pub server_hears_ack :
      (i : Interface) (l source n : ℕ) (v : SocketStream)
      → Has i l (AnySocket.server v)
      → v.state ≡ pending
      → v.remote ≡ source
      → (j : Interface) × Heard i j l
          (carrying source i.address v.port (msg_ack ∷ n ∷ []))
          (AnySocket.server (record v { state = open_state }))
          i.tx
  server_hears_ack i l source n v h e same =
      hears_as i l source v.port (msg_ack ∷ n ∷ []) (AnySocket.server v) _ i.tx h (server_port v)
        (omega arith)
        (arrive-server (carrying source i.address v.port (msg_ack ∷ n ∷ [])) i v
          ∙ ap (λ q. (AnySocket.server q.0, q.1))
              (server_ack i.address (from v source) i.tx source _ _ e refl
                  (first_byte msg_ack (n ∷ []) (omega arith))
                ∙ ap (λ r. (record (from v r) { state = open_state }, i.tx)) (sym same)))
