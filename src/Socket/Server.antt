-- ===== src/Socket/Server.antt =====
-- server.cpp: what a server does with the payload of a datagram, and how it starts to listen.
use pico_lan.Prelude.{ℕ, ◌+◌, ◌-◌, Bool, true, false, not, ◌==◌, if◌then◌else◌, u8}
use pico_lan.Etk.{Etk}
use pico_lan.Serialiser.Sender.{Sender}
use pico_lan.Socket.{
  SocketStream, Error, ok, bad_state, ConnectionState, closed, syn_sent, listening, syn_recved,
  pending, open_state, msg_ack, msg_syn, msg_data, msg_close,
}
use pico_lan.Socket.Stream.{send_ack, store}

module _ ⦃E : Etk⦄ where
  listen_in : ConnectionState → SocketStream → SocketStream × Error
  listen_in closed s = (record s { state = listening }, ok)
  listen_in _ s = (s, bad_state)

  unfoldable pub listen : SocketStream → SocketStream × Error
  unfolding listen_in
  listen s = listen_in s.state s

  is_syn_recved : ConnectionState → Bool
  is_syn_recved syn_recved = true
  is_syn_recved _ = false

  unfoldable pub connection_pending : SocketStream → Bool
  unfolding is_syn_recved
  connection_pending s = is_syn_recved s.state

  abbrev store_body : (ℕ → ℕ) → ℕ → SocketStream → SocketStream
  store_body buffer len s = record s {
    socket = record s.socket { ringbuf = store buffer 2 (len - 2) s.ringbuf };
  }

  -- The sender of a SYN becomes the other end.
  unfoldable pub on_listening : SocketStream → ℕ → (ℕ → ℕ) → SocketStream
  on_listening s r buffer =
      if buffer 0 == msg_syn
      then record s {
        socket = record s.socket { remote = r };
        remote_sequence = buffer 1;
        remote_port = buffer 2;
        state = syn_recved;
      }
      else s

  unfoldable pub on_syn_recved : SocketStream → ℕ → (ℕ → ℕ) → ℕ → SocketStream
  on_syn_recved s r buffer len =
      if not (len == 2)
      then s
      else if not (s.remote == r)
      then s
      else if buffer 0 == msg_close
      then record s { state = closed }
      else s

  unfoldable pub on_pending : SocketStream → ℕ → (ℕ → ℕ) → SocketStream
  on_pending s r buffer =
      if not (s.remote == r)
      then s
      else let s1 = if buffer 0 == msg_ack then record s { state = open_state } else s in
        if buffer 0 == msg_close then record s1 { state = closed } else s1

  unfoldable pub on_open : ℕ → SocketStream → Sender → ℕ → (ℕ → ℕ) → ℕ → SocketStream × Sender
  on_open address s tx r buffer len =
      if not (s.remote == r)
      then (s, tx)
      else let s1 = if buffer 0 == msg_close then record s { state = closed } else s in
        let s2 = if buffer 0 == msg_ack then record s1 { last_recved_ack = buffer 1 } else s1 in
        if buffer 0 == msg_data
        then (let next_sequence = u8 (s2.remote_sequence + 1) in
            let s3 =
              if buffer 1 == next_sequence
              then store_body buffer len (record s2 { remote_sequence = next_sequence })
              else s2 in
            (s3, send_ack address s3 tx))
        else (s2, tx)

  unfoldable pub by_state :
      ConnectionState → ℕ → SocketStream → Sender → ℕ → (ℕ → ℕ) → ℕ → SocketStream × Sender
  unfolding on_listening on_syn_recved on_pending on_open
  by_state closed address s tx r buffer len = (s, tx)
  by_state listening address s tx r buffer len = (on_listening s r buffer, tx)
  by_state syn_recved address s tx r buffer len = (on_syn_recved s r buffer len, tx)
  by_state pending address s tx r buffer len = (on_pending s r buffer, tx)
  by_state open_state address s tx r buffer len = on_open address s tx r buffer len
  by_state syn_sent address s tx r buffer len = (s, tx)

  -- Server::on_data. `address` is that of the interface, whose sender is `tx`.
  unfoldable pub on_data : ℕ → SocketStream → Sender → ℕ → (ℕ → ℕ) → ℕ → SocketStream × Sender
  unfolding by_state
  on_data address s tx r buffer len = by_state s.state address s tx r buffer len
