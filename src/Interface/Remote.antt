-- ===== src/Interface/Remote.antt =====
-- The handler and what a socket remembers as its other end.
use pico_lan.Prelude.{ℕ, ◌≡◌, refl, sym, ap, ◌∙◌, update, arith}
use pico_lan.Etk.{Etk}
use pico_lan.Serialiser.Sender.{Sender}
use pico_lan.Serialiser.Pack.Datagram.{DatagramPack}
use pico_lan.Socket.{Socket, SocketStream, closed, open_state, msg_close}
use pico_lan.Socket.Stream.{store}
use pico_lan.Socket.Client
use pico_lan.Socket.Server
use pico_lan.Interface.{Interface, AnySocket, base, with_base, port_of, on_data, deliver}
use pico_lan.Interface.Delivery.{
  with_remote, arrive, reached, deliver_hit, arrive_at, update_self, with_remote-port,
}

module _ ⦃E : Etk⦄ where
  with_remote_twice : (s : AnySocket) (x y : ℕ) → with_remote (with_remote s x) y ≡ with_remote s y
  unfolding base with_base
  with_remote_twice (AnySocket.datagram s) x y = refl
  with_remote_twice (AnySocket.client s) x y = refl
  with_remote_twice (AnySocket.server s) x y = refl

  -- What a socket remembers as its other end has no effect on what a datagram does to it: the handler
  -- overwrites it with the sender's address before `on_data` compares the two.
  pub deliver-any_remote :
      (p : DatagramPack) (l x : ℕ) (i : Interface)
      → port_of (i.heap l) ≡ p.port
      → (deliver p l i).heap l
        ≡ (deliver p l (record i { heap = update i.heap l (with_remote (i.heap l) x) })).heap l
  deliver-any_remote p l x i e =
      ap (λ j. j.heap l) (deliver_hit p l i e)
      ∙ update_self i.heap l (reached p l i).0
      ∙ ap (λ s. (arrive_at p i s).0) (sym (with_remote_twice (i.heap l) x p.source_addr))
      ∙ ap (λ s. (arrive p i s).0) (sym (update_self i.heap l (with_remote (i.heap l) x)))
      ∙ sym (update_self changed.heap l (reached p l changed).0)
      ∙ sym (ap (λ j. j.heap l) (deliver_hit p l changed moved))
    where
      changed : Interface
      changed = record i { heap = update i.heap l (with_remote (i.heap l) x) }

      moved : port_of (changed.heap l) ≡ p.port
      moved =
          ap port_of (update_self i.heap l (with_remote (i.heap l) x))
          ∙ with_remote-port (i.heap l) x
          ∙ e

  client_port : (s : SocketStream) → port_of (AnySocket.client s) ≡ s.port
  unfolding base
  client_port s = refl

  pub arrive-datagram :
      (p : DatagramPack) (i : Interface) (s : Socket)
      → arrive p i (AnySocket.datagram s) ≡ (
        AnySocket.datagram (record s {
          remote = p.source_addr;
          ringbuf = store (E.payload.get p.payload) 0 (E.payload.size p.payload) s.ringbuf;
        }),
        i.tx,
      )
  unfolding on_data with_base base
  arrive-datagram p i s = refl

  pub arrive-client :
      (p : DatagramPack) (i : Interface) (s : SocketStream)
      → arrive p i (AnySocket.client s) ≡ (
          let (s', tx') =
            Client.on_data i.address
              (record s { socket = record s.socket { remote = p.source_addr } })
              i.tx
              p.source_addr
              (E.payload.get p.payload)
              (E.payload.size p.payload) in
          (AnySocket.client s', tx'))
  unfolding on_data with_base base
  arrive-client p i s = refl

  pub arrive-server :
      (p : DatagramPack) (i : Interface) (s : SocketStream)
      → arrive p i (AnySocket.server s) ≡ (
          let (s', tx') =
            Server.on_data i.address
              (record s { socket = record s.socket { remote = p.source_addr } })
              i.tx
              p.source_addr
              (E.payload.get p.payload)
              (E.payload.size p.payload) in
          (AnySocket.server s', tx'))
  unfolding on_data with_base base
  arrive-server p i s = refl

  client_close :
      (address : ℕ) (s : SocketStream) (tx : Sender) (r : ℕ) (buffer : ℕ → ℕ) (len : ℕ)
      → s.state ≡ open_state
      → s.remote ≡ r
      → buffer 0 ≡ msg_close
      → ((Client.on_data address s tx r buffer len).0.state ≡ closed)
        × ((Client.on_data address s tx r buffer len).0.remote ≡ s.remote)
  unfolding Client.on_data
  client_close address s tx r buffer len live same hangs_up = ground arith

  -- A client with an open connection to any address is closed by a datagram on its port that holds a
  -- CLOSE message, whatever address that comes from, and takes that address for its other end.
  pub deliver_closes :
      (p : DatagramPack) (l : ℕ) (i : Interface) (s : SocketStream)
      → i.heap l ≡ AnySocket.client s
      → s.state ≡ open_state
      → s.port ≡ p.port
      → E.payload.get p.payload 0 ≡ msg_close
      → (s' : SocketStream) × ((deliver p l i).heap l ≡ AnySocket.client s')
        × (s'.state ≡ closed)
        × (s'.remote ≡ p.source_addr)
  deliver_closes p l i s here live on_port hangs_up =
      let s1 : SocketStream = record s { socket = record s.socket { remote = p.source_addr } } in
      let (shut, there) =
        client_close i.address s1 i.tx p.source_addr (E.payload.get p.payload)
          (E.payload.size p.payload) live refl hangs_up in
      (
        _,
        ap (λ j. j.heap l) (deliver_hit p l i (ap port_of here ∙ client_port s ∙ on_port))
            ∙ update_self i.heap l (reached p l i).0
            ∙ ap (λ t. (arrive p i t).0) here
            ∙ ap (λ q. q.0) (arrive-client p i s),
        shut,
        there,
      )
