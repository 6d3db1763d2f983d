-- ===== src/Interface/Steady/Loops.antt =====
-- The operations that wait for something leave the ports and the bound sockets as they are.
use pico_lan.Prelude.{
  ℕ, ◌≡◌, refl, Bool, Option, some, List, [], ◌∷◌, ltb, not, ◌==◌, ◌>>=◌, Every, Every->>=,
  Every-if, Every-some, arith,
}
use pico_lan.Etk.{Etk}
use pico_lan.Serialiser.Sender.{Sender}
use pico_lan.Serialiser.Pack.{Packet}
use pico_lan.Socket.{SocketStream, ConnectionState}
use pico_lan.Socket.Stream.{send_syn, disconnect, is_closed, connected}
use pico_lan.Socket.Server.{connection_pending}
use pico_lan.Interface.{Interface, read}
use pico_lan.Interface.Waiting.{
  Round, elapsed, Outcome, done, timed_out, waiting, ping_loop, ping, addr_list_loop, get_addr_list,
}
use pico_lan.Interface.Connecting.{
  is_waiting, stream_of, Waited, left, expired, unfinished, wait_while, Connecting, returned,
  not_yet, connect_end, connect_start, connect, accept_end, accept_start, accept,
}
use pico_lan.Interface.Steady.{
  KeepsPorts, KeepsPorts-refl, KeepsPorts-trans, Keeps, Every-trans, send_packet-KeepsPorts,
  read-KeepsPorts_one, put_stream-KeepsPorts,
}

module _ ⦃E : Etk⦄ where
  -- The interface of each result.
  abbrev pub of_outcome : Outcome → Interface
  of_outcome (done t i) = i
  of_outcome (timed_out i) = i
  of_outcome (waiting i) = i

  abbrev of_waited : Waited → Interface
  of_waited (left i) = i
  of_waited (expired i) = i
  of_waited (unfinished i) = i

  abbrev pub of_connecting : Connecting → Interface
  of_connecting (returned e i) = i
  of_connecting (not_yet i) = i

  ping_loop-Keeps :
      (rs : List Round) (start timeout payload : ℕ) (i : Interface)
      → Every (Keeps of_outcome i) (ping_loop rs start timeout payload i)
  unfolding ping_loop
  ping_loop-Keeps [] start timeout payload i = KeepsPorts-refl i
  ping_loop-Keeps (r ∷ rs) start timeout payload i =
      Every-if (Keeps of_outcome i) (ltb (elapsed r.before start) timeout) _ _
        (Every->>= (Keeps of_outcome i) (read i r.arrived) _ (λ j e.
          Every-if (Keeps of_outcome i) (j.ping_echo_payload == payload) _ _
            (read-KeepsPorts_one i j r.arrived e)
            (Every-trans of_outcome (ping_loop rs start timeout payload j)
              (read-KeepsPorts_one i j r.arrived e) (ping_loop-Keeps rs start timeout payload j))))
        (KeepsPorts-refl i)

  addr_list_loop-Keeps :
      (rs : List Round) (start timeout : ℕ) (i : Interface)
      → Every (Keeps of_outcome i) (addr_list_loop rs start timeout i)
  unfolding addr_list_loop
  addr_list_loop-Keeps [] start timeout i = KeepsPorts-refl i
  addr_list_loop-Keeps (r ∷ rs) start timeout i =
      Every-if (Keeps of_outcome i) (ltb (elapsed r.before start) timeout) _ _
        (Every->>= (Keeps of_outcome i) (read i r.arrived) _ (λ j e.
          Every-if (Keeps of_outcome i) j.addr_list_recved _ _ (read-KeepsPorts_one i j r.arrived e)
            (Every-trans of_outcome (addr_list_loop rs start timeout j)
              (read-KeepsPorts_one i j r.arrived e) (addr_list_loop-Keeps rs start timeout j))))
        (KeepsPorts-refl i)

  pub ping-Keeps :
      (dest timeout now start : ℕ) (rs : List Round) (i : Interface)
      → Every (Keeps of_outcome i) (ping dest timeout now start rs i)
  unfolding ping
  ping-Keeps dest timeout now start rs i =
      Every-trans of_outcome _ (send_packet-KeepsPorts _ i) (ping_loop-Keeps rs start timeout _ _)

  pub get_addr_list-Keeps :
      (timeout start : ℕ) (rs : List Round) (i : Interface)
      → Every (Keeps of_outcome i) (get_addr_list timeout start rs i)
  unfolding get_addr_list
  get_addr_list-Keeps timeout start rs i =
      let unset : Interface = record i { addr_list_recved = Bool.false } in
      Every-trans of_outcome _
        (KeepsPorts-trans (record { same_sockets = refl; same_ports = λ l. refl })
          (send_packet-KeepsPorts (Packet.get_addr_list (record { ttl = 6 })) unset))
        (addr_list_loop-Keeps rs start timeout _)

  wait_while-Keeps :
      (waits : ConnectionState) (rs : List Round) (start l : ℕ) (i : Interface)
      → Every (Keeps of_waited i) (wait_while waits rs start l i)
  unfolding wait_while
  wait_while-Keeps waits [] start l i = KeepsPorts-refl i
  wait_while-Keeps waits (r ∷ rs) start l i =
      Every->>= (Keeps of_waited i) (read i r.arrived) _ (λ j e.
        Every->>= (Keeps of_waited i) (stream_of (j.heap l)) _ (λ s there.
          Every-if (Keeps of_waited i) (ltb s.timeout (elapsed r.after start)) _ _
            (read-KeepsPorts_one i j r.arrived e)
            (Every-if (Keeps of_waited i) (is_waiting waits s.state) _ _
              (Every-trans of_waited (wait_while waits rs start l j)
                (read-KeepsPorts_one i j r.arrived e) (wait_while-Keeps waits rs start l j))
              (read-KeepsPorts_one i j r.arrived e))))

  -- The control messages leave the port of the stream.
  pub disconnect-port :
      (address : ℕ) (s : SocketStream) (tx : Sender) → (disconnect address s tx).0.port ≡ s.port
  unfolding disconnect
  disconnect-port address s tx = ground arith

  connect_end-Keeps :
      (l : ℕ) (w : Waited) → Every (Keeps of_connecting (of_waited w)) (connect_end l w)
  unfolding connect_end
  connect_end-Keeps l (unfinished i) = KeepsPorts-refl i
  connect_end-Keeps l (expired i) =
      Every->>= (Keeps of_connecting i) (stream_of (i.heap l)) _
        (λ s there. put_stream-KeepsPorts l _ i.tx i s there refl)
  connect_end-Keeps l (left i) =
      Every->>= (Keeps of_connecting i) (stream_of (i.heap l)) _ (λ s there.
        Every-if (Keeps of_connecting i) (not (connection_pending s)) _ _
          (put_stream-KeepsPorts l _ _ i s there (disconnect-port i.address s i.tx))
          (put_stream-KeepsPorts l _ _ i s there refl))

  accept_end-Keeps :
      (l : ℕ) (w : Waited) → Every (Keeps of_connecting (of_waited w)) (accept_end l w)
  unfolding accept_end
  accept_end-Keeps l (unfinished i) = KeepsPorts-refl i
  accept_end-Keeps l (expired i) =
      Every->>= (Keeps of_connecting i) (stream_of (i.heap l)) _
        (λ s there. put_stream-KeepsPorts l _ _ i s there (disconnect-port i.address s i.tx))
  accept_end-Keeps l (left i) =
      Every->>= (Keeps of_connecting i) (stream_of (i.heap l)) _ (λ s there.
        Every-if (Keeps of_connecting i) (not (connected s)) _ _
          (put_stream-KeepsPorts l _ _ i s there (disconnect-port i.address s i.tx))
          (KeepsPorts-refl i))

  connect_start-KeepsPorts :
      (l r port : ℕ) (s : SocketStream) (i : Interface)
      → stream_of (i.heap l) ≡ some s
      → KeepsPorts i (connect_start l r port s i)
  unfolding connect_start send_syn
  connect_start-KeepsPorts l r port s i there = put_stream-KeepsPorts l _ _ i s there refl

  accept_start-KeepsPorts :
      (l : ℕ) (s : SocketStream) (i : Interface)
      → stream_of (i.heap l) ≡ some s
      → KeepsPorts i (accept_start l s i)
  unfolding accept_start send_syn
  accept_start-KeepsPorts l s i there = put_stream-KeepsPorts l _ _ i s there refl

  -- The loop and what is done behind it.
  waited-Keeps :
      {i j : Interface} (l start : ℕ) (waits : ConnectionState) (rs : List Round)
      (finish : ℕ → Waited → Option Connecting)
      → ((w : Waited) → Every (Keeps of_connecting (of_waited w)) (finish l w))
      → KeepsPorts i j
      → Every (Keeps of_connecting i) (wait_while waits rs start l j >>= finish l)
  waited-Keeps {i = i} {j = j} l start waits rs finish ends begins =
      Every->>= (Keeps of_connecting i) (wait_while waits rs start l j) (finish l) (λ w e.
        Every-trans of_connecting (finish l w)
          (KeepsPorts-trans begins (
            Every-some (Keeps of_waited j) (wait_while waits rs start l j) w
              (wait_while-Keeps waits rs start l j) e))
          (ends w))

  pub connect-Keeps :
      (l r port start : ℕ) (rs : List Round) (i : Interface)
      → Every (Keeps of_connecting i) (connect l r port start rs i)
  unfolding connect
  connect-Keeps l r port start rs i =
      Every->>= (Keeps of_connecting i) (stream_of (i.heap l)) _ (λ s there.
        Every-if (Keeps of_connecting i) (not (is_closed s)) _ _ (KeepsPorts-refl i) (
          waited-Keeps l start ConnectionState.syn_sent rs connect_end (connect_end-Keeps l)
            (connect_start-KeepsPorts l r port s i there)))

  pub accept-Keeps :
      (l start : ℕ) (rs : List Round) (i : Interface)
      → Every (Keeps of_connecting i) (accept l start rs i)
  unfolding accept
  accept-Keeps l start rs i = Every->>= (Keeps of_connecting i) (stream_of (i.heap l)) _ (λ s there.
      Every-if (Keeps of_connecting i) (connection_pending s) _ _
        (waited-Keeps l start ConnectionState.pending rs accept_end (accept_end-Keeps l)
          (accept_start-KeepsPorts l s i there))
        (KeepsPorts-refl i))
