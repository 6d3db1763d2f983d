-- ===== src/Interface/Connecting.antt =====
-- client.cpp and server.cpp: how a connection is made, Client::connect and Server::accept, on a socket
-- behind a pointer of the interface that it is bound to.
use pico_lan.Prelude.{
  ℕ, Bool, true, false, not, Option, none, some, List, [], ◌∷◌, ltb, if◌then◌else◌, update, ◌>>=◌,
}
use pico_lan.Etk.{Etk}
use pico_lan.Serialiser.Sender.{Sender}
use pico_lan.Socket.{
  SocketStream, Error, ok, timeout, bad_state, ConnectionState, closed, syn_sent, pending,
  open_state,
}
use pico_lan.Socket.Stream.{send_syn, send_ack, disconnect, is_closed, connected}
use pico_lan.Socket.Server.{connection_pending}
use pico_lan.Interface.{Interface, AnySocket, read}
use pico_lan.Interface.Waiting.{Round, elapsed}

abbrev pub is_waiting : ConnectionState → ConnectionState → Bool
is_waiting syn_sent syn_sent = true
is_waiting pending pending = true
is_waiting _ _ = false

module _ ⦃E : Etk⦄ where
  -- The stream behind a pointer. A datagram socket is none, and has none of the operations below.
  abbrev pub stream_of : AnySocket → Option SocketStream
  stream_of (AnySocket.datagram s) = none
  stream_of (AnySocket.client s) = some s
  stream_of (AnySocket.server s) = some s

  abbrev pub with_stream : AnySocket → SocketStream → AnySocket
  with_stream (AnySocket.datagram d) s = AnySocket.datagram d
  with_stream (AnySocket.client c) s = AnySocket.client s
  with_stream (AnySocket.server c) s = AnySocket.server s

  -- What an operation of a stream leaves: its stream and the sender.
  abbrev pub put_stream : ℕ → SocketStream × Sender → Interface → Interface
  put_stream l (s, tx) i = record i { tx = tx; heap = update i.heap l (with_stream (i.heap l) s) }

  -- How the waiting loop ends, or where it stands when its rounds are used up.
  pub data Waited : Type 0 where
    left expired unfinished : Interface → Waited

  -- `do { iface->read(); ... if(dt > timeout) ...; } while(state == waits)`.
  unfoldable pub wait_while : ConnectionState → List Round → ℕ → ℕ → Interface → Option Waited
  wait_while waits [] start l i = some (unfinished i)
  wait_while waits (r ∷ rs) start l i = do
    j ← read i r.arrived
    s ← stream_of (j.heap l)
    let rest = wait_while waits rs start l j
    if ltb s.timeout (elapsed r.after start)
        then some (expired j)
        else if is_waiting waits s.state
        then rest
        else some (left j)

  -- The result of `connect` or `accept`, or no result yet.
  pub data Connecting : Type 0 where
    returned : Error → Interface → Connecting
    not_yet : Interface → Connecting

  -- What `connect` does behind its loop.
  unfoldable pub connect_end : ℕ → Waited → Option Connecting
  unfolding send_ack disconnect
  connect_end l (unfinished i) = some (not_yet i)
  connect_end l (expired i) = do
    s ← stream_of (i.heap l)
    some (returned timeout (put_stream l (record s { state = closed }, i.tx) i))
  connect_end l (left i) = do
    s ← stream_of (i.heap l)
    if not (connection_pending s)
        then some (returned bad_state (put_stream l (disconnect i.address s i.tx) i))
        else some (
            returned ok
              (put_stream l (record s { state = open_state }, send_ack i.address s i.tx) i))

  -- What it does before its loop: the SYN message is sent.
  unfoldable pub connect_start : ℕ → ℕ → ℕ → SocketStream → Interface → Interface
  unfolding send_syn
  connect_start l r port s i =
      let s1 = record s { socket = record s.socket { remote = r }; remote_port = port } in
      let (s2, tx2) = send_syn i.address s1 i.tx in
      put_stream l (record s2 { state = syn_sent }, tx2) i

  -- Client::connect(r, port) of the client behind `l`; `start` is the clock before the loop.
  unfoldable pub connect : ℕ → ℕ → ℕ → ℕ → List Round → Interface → Option Connecting
  unfolding connect_start connect_end wait_while
  connect l r port start rounds i = do
    s ← stream_of (i.heap l)
    if not (is_closed s) then some (returned bad_state i) else (do
      w ← wait_while syn_sent rounds start l (connect_start l r port s i)
      connect_end l w)

  unfoldable pub accept_end : ℕ → Waited → Option Connecting
  unfolding disconnect
  accept_end l (unfinished i) = some (not_yet i)
  accept_end l (expired i) = do
    s ← stream_of (i.heap l)
    some (returned timeout (put_stream l (disconnect i.address s i.tx) i))
  accept_end l (left i) = do
    s ← stream_of (i.heap l)
    if not (connected s)
        then some (returned bad_state (put_stream l (disconnect i.address s i.tx) i))
        else some (returned ok i)

  -- The ACK and the SYN message that answer the client's SYN.
  unfoldable pub accept_start : ℕ → SocketStream → Interface → Interface
  unfolding send_syn send_ack
  accept_start l s i =
      let (s2, tx2) = send_syn i.address s (send_ack i.address s i.tx) in
      put_stream l (record s2 { state = pending }, tx2) i

  -- Server::accept() of the server behind `l`.
  unfoldable pub accept : ℕ → ℕ → List Round → Interface → Option Connecting
  unfolding accept_start accept_end wait_while
  accept l start rounds i = do
    s ← stream_of (i.heap l)
    if connection_pending s
        then (do w ← wait_while pending rounds start l (accept_start l s i); accept_end l w)
        else some (returned bad_state i)
