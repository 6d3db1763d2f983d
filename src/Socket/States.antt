-- ===== src/Socket/States.antt =====
-- The connection states that a message can lead to, and what it leaves alone.
use pico_lan.Prelude.{ℕ, ◌≡◌, ◌≢◌, refl, ◌⊎◌, arith}
use pico_lan.Etk.{Etk}
use pico_lan.Serialiser.Sender.{Sender}
use pico_lan.Socket.{
  SocketStream, ConnectionState, closed, syn_sent, listening, syn_recved, pending, open_state,
  msg_ack, msg_syn, msg_data, msg_close,
}
use pico_lan.Socket.Client
use pico_lan.Socket.Server
use pico_lan.Socket.Messages.{Message}

-- Where a message of type `kind` can take a client, from each state.
abbrev pub ClientMay : ℕ → ConnectionState → ConnectionState → Type 0
ClientMay kind syn_sent c =
    (c ≡ syn_sent) ⊎ (c ≡ syn_recved) × (kind ≡ msg_syn) ⊎ (c ≡ closed) × (kind ≡ msg_close)
ClientMay kind syn_recved c = (c ≡ syn_recved) ⊎ (c ≡ closed) × (kind ≡ msg_close)
ClientMay kind open_state c = (c ≡ open_state) ⊎ (c ≡ closed) × (kind ≡ msg_close)
ClientMay kind closed c = c ≡ closed
ClientMay kind listening c = c ≡ listening
ClientMay kind pending c = c ≡ pending

-- Where it can take a server.
abbrev pub ServerMay : ℕ → ConnectionState → ConnectionState → Type 0
ServerMay kind listening c = (c ≡ listening) ⊎ (c ≡ syn_recved) × (kind ≡ msg_syn)
ServerMay kind syn_recved c = (c ≡ syn_recved) ⊎ (c ≡ closed) × (kind ≡ msg_close)
ServerMay kind pending c =
    (c ≡ pending) ⊎ (c ≡ open_state) × (kind ≡ msg_ack) ⊎ (c ≡ closed) × (kind ≡ msg_close)
ServerMay kind open_state c = (c ≡ open_state) ⊎ (c ≡ closed) × (kind ≡ msg_close)
ServerMay kind closed c = c ≡ closed
ServerMay kind syn_sent c = c ≡ syn_sent

module _ ⦃E : Etk⦄ where
  client_may :
      (st : ConnectionState) (address : ℕ) (s : SocketStream) (tx : Sender) (r : ℕ) (m : Message)
      → s.state ≡ st
      → ClientMay (m.buffer 0) st (Client.on_data address s tx r m.buffer m.len).0.state
  unfolding Client.on_data
  client_may closed address s tx r m e = ground arith
  client_may syn_sent address s tx r m e = ground arith
  client_may listening address s tx r m e = ground arith
  client_may syn_recved address s tx r m e = ground arith
  client_may pending address s tx r m e = ground arith
  client_may open_state address s tx r m e = ground arith

  server_may :
      (st : ConnectionState) (address : ℕ) (s : SocketStream) (tx : Sender) (r : ℕ) (m : Message)
      → s.state ≡ st
      → ServerMay (m.buffer 0) st (Server.on_data address s tx r m.buffer m.len).0.state
  unfolding Server.on_data
  server_may closed address s tx r m e = ground arith
  server_may syn_sent address s tx r m e = ground arith
  server_may listening address s tx r m e = ground arith
  server_may syn_recved address s tx r m e = ground arith
  server_may pending address s tx r m e = ground arith
  server_may open_state address s tx r m e = ground arith

  -- A message from anyone takes a client along the transitions of ClientMay only, and a server along
  -- those of ServerMay: the state changes on SYN (out of SYN_SENT, or out of LISTENING), on ACK (out of
  -- PENDING, for a server) and on CLOSE, each out of the states named there, and never otherwise.
  pub on_data-May :
      (address : ℕ) (s : SocketStream) (tx : Sender) (r : ℕ) (m : Message)
      → ClientMay (m.buffer 0) s.state (Client.on_data address s tx r m.buffer m.len).0.state
        × ServerMay (m.buffer 0) s.state (Server.on_data address s tx r m.buffer m.len).0.state
  on_data-May address s tx r m =
      (client_may s.state address s tx r m refl, server_may s.state address s tx r m refl)

  -- What `on_data` is given and gives: only a DATA message to an open connection is answered, and
  -- only such a message changes what `read` can fetch.
  abbrev pub Quiet : SocketStream × Sender → SocketStream → Sender → Type 0
  Quiet (s', tx') s tx = (tx' ≡ tx) × (s'.ringbuf ≡ s.ringbuf)

  -- On a message that is not DATA, and on any message outside the open state, neither a client nor a
  -- server sends anything or touches its ring buffer, whoever sent the message.
  pub on_data-Quiet :
      (address : ℕ) (s : SocketStream) (tx : Sender) (r : ℕ) (m : Message)
      → (m.buffer 0 ≢ msg_data) ⊎ (s.state ≢ open_state)
      → Quiet (Client.on_data address s tx r m.buffer m.len) s tx
        × Quiet (Server.on_data address s tx r m.buffer m.len) s tx
  unfolding Client.on_data Server.on_data
  on_data-Quiet address s tx r m h = ground arith
