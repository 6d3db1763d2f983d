-- ===== src/Socket/Client.antt =====
-- client.cpp: what a client does with the payload of a datagram.
use pico_lan.Prelude.{ℕ, ◌+◌, ◌-◌, not, ◌==◌, if◌then◌else◌, u8}
use pico_lan.Etk.{Etk}
use pico_lan.Serialiser.Sender.{Sender}
use pico_lan.Socket.{
  SocketStream, ConnectionState, closed, syn_sent, listening, syn_recved, pending, open_state,
  msg_ack, msg_syn, msg_data, msg_close,
}
use pico_lan.Socket.Stream.{send_ack, store}

module _ ⦃E : Etk⦄ where
  -- `ringbuf.put(data[i])` for i from 2 to len - 1.
  abbrev store_body : (ℕ → ℕ) → ℕ → SocketStream → SocketStream
  store_body buffer len s = record s {
    socket = record s.socket { ringbuf = store buffer 2 (len - 2) s.ringbuf };
  }

  unfoldable pub on_syn_sent : SocketStream → (ℕ → ℕ) → SocketStream
  on_syn_sent s buffer =
      if buffer 0 == msg_syn
      then record s { remote_sequence = buffer 1; state = syn_recved }
      else if buffer 0 == msg_close
      then record s { state = closed }
      else s

  unfoldable pub on_syn_recved : SocketStream → (ℕ → ℕ) → SocketStream
  on_syn_recved s buffer = if buffer 0 == msg_close then record s { state = closed } else s

  -- `data[1] == (remote_sequence+1)` compares ints: the sum does not wrap.
  unfoldable pub on_open : ℕ → SocketStream → Sender → (ℕ → ℕ) → ℕ → SocketStream × Sender
  on_open address s tx buffer len =
      let s1 = if buffer 0 == msg_close then record s { state = closed } else s in
      let s2 = if buffer 0 == msg_ack then record s1 { last_recved_ack = buffer 1 } else s1 in
      if buffer 0 == msg_data
      then (let s3 =
            if buffer 1 == s2.remote_sequence + 1
            then store_body buffer len (record s2 { remote_sequence = u8 (s2.remote_sequence + 1) })
            else s2 in
          (s3, send_ack address s3 tx))
      else (s2, tx)

  unfoldable pub by_state :
      ConnectionState → ℕ → SocketStream → Sender → (ℕ → ℕ) → ℕ → SocketStream × Sender
  unfolding on_syn_sent on_syn_recved on_open
  by_state closed address s tx buffer len = (s, tx)
  by_state syn_sent address s tx buffer len = (on_syn_sent s buffer, tx)
  by_state syn_recved address s tx buffer len = (on_syn_recved s buffer, tx)
  by_state open_state address s tx buffer len = on_open address s tx buffer len
  by_state listening address s tx buffer len = (s, tx)
  by_state pending address s tx buffer len = (s, tx)

  -- Client::on_data. `address` is that of the interface, whose sender is `tx`.
  unfoldable pub on_data : ℕ → SocketStream → Sender → ℕ → (ℕ → ℕ) → ℕ → SocketStream × Sender
  unfolding by_state
  on_data address s tx r buffer len =
      if not (s.remote == r) then (s, tx) else by_state s.state address s tx buffer len
