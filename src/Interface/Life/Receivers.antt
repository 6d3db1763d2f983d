-- ===== src/Interface/Life/Receivers.antt =====
-- What every state that a program can bring an interface to has in common.
use pico_lan.Prelude.{
  ℕ, ◌≡◌, refl, sym, ap, subst, ◌∙◌, Option, some, List, [], ◌∷◌, ◌++◌, update, if◌then◌else◌, inl,
  inr, Bool-cases, arith, ◌⊎◌, Every, Every-some, ℕ_discrete, slice,
}
use pico_lan.Etk.{Etk}
use pico_lan.Etk.Items.{items, IgnoresFull}
use pico_lan.Serialiser.Pack.{Packet}
use pico_lan.Serialiser.Pack.Datagram.{DatagramPack}
use pico_lan.Socket.{SocketStream, set_timeout}
use pico_lan.Socket.Stream.{disconnect}
use pico_lan.Socket.Server.{listen}
use pico_lan.Interface.{
  Interface, AnySocket, base, with_base, port_of, new_interface, set_address, deliver_all, handle,
}
use pico_lan.Interface.Arrivals.{for_us, datagram_pack_handler_lem, handle-datagram}
use pico_lan.Interface.Connecting.{stream_of}
use pico_lan.Interface.Delivery.{
  Elsewhere, update-port, reached, handle-datagram_one, deliver_all_miss,
}
use pico_lan.Interface.Ports.{Distinct}
use pico_lan.Interface.Steady.{
  KeepsPorts, KeepsPorts-trans, Keeps, send_packet-KeepsPorts, read-KeepsPorts_one,
  put_stream-KeepsPorts,
}
use pico_lan.Interface.Steady.Loops.{
  disconnect-port, of_outcome, of_connecting, ping-Keeps, get_addr_list-Keeps, connect-Keeps,
  accept-Keeps,
}
use pico_lan.Interface.Steady.Transfers.{
  of_result, of_stream_read, write-KeepsPorts, subscribe-KeepsPorts, read_bytes-Keeps,
  stream_read-Keeps,
}
use pico_lan.Interface.Steady.Bursts.{of_written, stream_write-Keeps}
use pico_lan.Interface.Life.{
  Step, binds, unbinds, destroys, addresses, reads, pings, lists, times, takes, writes, subscribes,
  listens, connects, accepts, disconnects, stream_reads, stream_writes, Reach, constructed, later,
}
use pico_lan.Interface.Life.Sockets.{
  HasDistinctPorts, KeepsPorts-HasDistinctPorts, unbind_socket-HasDistinctPorts,
  destroy-HasDistinctPorts, bind-HasDistinctPorts,
}

module _ ⦃E : Etk⦄ where
  set_address-KeepsPorts : (n : ℕ) (i : Interface) → KeepsPorts i (set_address n i)
  unfolding set_address
  set_address-KeepsPorts n i =
      KeepsPorts-trans {j = record i { address = n }}
        (record { same_sockets = refl; same_ports = λ l. refl }) (send_packet-KeepsPorts _ _)

  listen-port : (s : SocketStream) → (listen s).0.port ≡ s.port
  unfolding listen
  listen-port s = ground arith

  set_timeout-port :
      (s : AnySocket) (t : ℕ) → port_of (with_base s (set_timeout t (base s))) ≡ port_of s
  unfolding base with_base set_timeout
  set_timeout-port (AnySocket.datagram s) t = refl
  set_timeout-port (AnySocket.client s) t = refl
  set_timeout-port (AnySocket.server s) t = refl

  times-KeepsPorts :
      (l t : ℕ) (i : Interface)
      → KeepsPorts i (record i {
        heap = update i.heap l (with_base (i.heap l) (set_timeout t (base (i.heap l))));
      })
  times-KeepsPorts l t i = record {
    same_sockets = refl;
    same_ports = λ k. update-port i.heap l k _ (set_timeout-port (i.heap l) t);
  }

  -- The result of an operation that returns in some state or other.
  kept :
      {A : Type 0} (view : A → Interface) (i : Interface) (o : A) (m : Option A)
      → Every (Keeps view i) m
      → m ≡ some o
      → HasDistinctPorts i
      → HasDistinctPorts (view o)
  kept view i o m h e d = KeepsPorts-HasDistinctPorts (Every-some (Keeps view i) m o h e) d

  Step-HasDistinctPorts :
      {i j : Interface} → IgnoresFull E.sockets → Step i j → HasDistinctPorts i → HasDistinctPorts j
  Step-HasDistinctPorts {i} drops (binds l) d = bind-HasDistinctPorts l i drops d
  Step-HasDistinctPorts {i} drops (unbinds l) d = unbind_socket-HasDistinctPorts l i d
  Step-HasDistinctPorts {i} drops (destroys l) d = destroy-HasDistinctPorts l i d
  Step-HasDistinctPorts {i} drops (addresses n) d =
      KeepsPorts-HasDistinctPorts (set_address-KeepsPorts n i) d
  Step-HasDistinctPorts {i} drops (reads cs {j} e) d =
      KeepsPorts-HasDistinctPorts (read-KeepsPorts_one i j cs e) d
  Step-HasDistinctPorts {i} drops (pings dest t now start rs o e) d =
      kept of_outcome i o _ (ping-Keeps dest t now start rs i) e d
  Step-HasDistinctPorts {i} drops (lists t start rs o e) d =
      kept of_outcome i o _ (get_addr_list-Keeps t start rs i) e d
  Step-HasDistinctPorts {i} drops (times l t) d =
      KeepsPorts-HasDistinctPorts (times-KeepsPorts l t i) d
  Step-HasDistinctPorts {i} drops (takes calls n l r e) d =
      kept of_result i r _ (read_bytes-Keeps calls n l i) e d
  Step-HasDistinctPorts {i} drops (writes dest port bytes len) d =
      KeepsPorts-HasDistinctPorts (write-KeepsPorts dest port bytes len i) d
  Step-HasDistinctPorts {i} drops (subscribes l sub) d =
      KeepsPorts-HasDistinctPorts (subscribe-KeepsPorts l sub i) d
  Step-HasDistinctPorts {i} drops (listens l s there) d =
      KeepsPorts-HasDistinctPorts
        (put_stream-KeepsPorts l (listen s).0 i.tx i s (ap stream_of there) (listen-port s)) d
  Step-HasDistinctPorts {i} drops (connects l r port start rs c e) d =
      kept of_connecting i c _ (connect-Keeps l r port start rs i) e d
  Step-HasDistinctPorts {i} drops (accepts l start rs c e) d =
      kept of_connecting i c _ (accept-Keeps l start rs i) e d
  Step-HasDistinctPorts {i} drops (disconnects l s there) d =
      KeepsPorts-HasDistinctPorts
        (put_stream-KeepsPorts l (disconnect i.address s i.tx).0 (disconnect i.address s i.tx).1 i s
          there (disconnect-port i.address s i.tx))
        d
  Step-HasDistinctPorts {i} drops (stream_reads calls n l r e) d =
      kept of_stream_read i r _ (stream_read-Keeps calls n l i) e d
  Step-HasDistinctPorts {i} drops (stream_writes envs l bytes len w e) d =
      kept of_written i w _ (stream_write-Keeps envs l bytes len i) e d

  new_interface-HasDistinctPorts :
      (any_address : ℕ) (any_bytes : ℕ → ℕ) (heap : ℕ → AnySocket)
      → HasDistinctPorts (new_interface any_address any_bytes heap)
  unfolding new_interface
  new_interface-HasDistinctPorts any_address any_bytes heap =
      subst (λ n. Distinct heap (slice (E.sockets.get E.sockets.empty) 0 n))
        (sym E.sockets.size-empty) tt

  -- Whatever calls a program has made since it constructed the interface, in any order and whatever
  -- has arrived, the sockets that are bound to it are on different ports. A list of sockets that is
  -- full ignores what is appended.
  pub Reach-HasDistinctPorts :
      {any_address : ℕ} {any_bytes : ℕ → ℕ} {heap : ℕ → AnySocket} {i : Interface}
      → IgnoresFull E.sockets
      → Reach any_address any_bytes heap i
      → HasDistinctPorts i
  Reach-HasDistinctPorts {any_address} {any_bytes} {heap} drops constructed =
      new_interface-HasDistinctPorts any_address any_bytes heap
  Reach-HasDistinctPorts drops (later r step) =
      Step-HasDistinctPorts drops step (Reach-HasDistinctPorts drops r)

  -- The place of the one socket on a port, or none.
  abbrev Found : (ℕ → AnySocket) → ℕ → List ℕ → Type 0
  Found heap port ls =
      (front : List ℕ) × (l : ℕ) × (back : List ℕ) × (ls ≡ front ++ (l ∷ back))
      × (port_of (heap l) ≡ port)
      × Elsewhere heap port front
      × Elsewhere heap port back

  find_port :
      (heap : ℕ → AnySocket) (port : ℕ) (ls : List ℕ)
      → Distinct heap ls
      → Elsewhere heap port ls ⊎ Found heap port ls
  find_port heap port [] d = inl tt
  find_port heap port (k ∷ ks) (d, ds) = elim (ℕ_discrete (port_of (heap k)) port) [
    | yes e ↦ inr ([], k, ks, refl, e, tt, subst (λ n. Elsewhere heap n ks) e d)
    | no ne ↦ elim (find_port heap port ks ds) [
      | inl none ↦ inl (ne, none)
      | inr (front, l, back, listed, e, before, behind) ↦
          inr (k ∷ front, l, back, ap (λ xs. k ∷ xs) listed, e, (ne, before), behind)
    ]
  ]

  -- The handler of a datagram changes at most one socket, which is on the datagram's port, and what is
  -- sent, in every state that a program can bring an interface to. A list of sockets that is full
  -- ignores what is appended.
  pub Reach-one_receiver :
      {any_address : ℕ} {any_bytes : ℕ → ℕ} {heap : ℕ → AnySocket} {i : Interface}
      (p : DatagramPack)
      → IgnoresFull E.sockets
      → Reach any_address any_bytes heap i
      → (handle (Packet.datagram p) i ≡ i)
        ⊎ ((l : ℕ) × (port_of (i.heap l) ≡ p.port)
            × (handle (Packet.datagram p) i
                ≡ record i { tx = (reached p l i).1; heap = update i.heap l (reached p l i).0 }))
  Reach-one_receiver {i = i} p drops r = elim (Bool-cases (for_us p i)) [
    | inr other ↦ inl (
        handle-datagram p i
        ∙ datagram_pack_handler_lem p i
        ∙ ap (λ t. if t then deliver_all p (items E.sockets i.sockets) i else i) other)
    | inl ours ↦
        elim (find_port i.heap p.port (items E.sockets i.sockets)
          (Reach-HasDistinctPorts drops r)) [
            | inl none ↦ inl (
                handle-datagram p i
                ∙ datagram_pack_handler_lem p i
                ∙ ap (λ t. if t then deliver_all p (items E.sockets i.sockets) i else i) ours
                ∙ deliver_all_miss p (items E.sockets i.sockets) i none)
            | inr (front, l, back, listed, e, before, behind) ↦ inr (
              l,
              e,
              handle-datagram_one p front back l i listed e before behind
                  ∙ ap
                      (λ t.
                        if t
                        then record i {
                          tx = (reached p l i).1;
                          heap = update i.heap l (reached p l i).0;
                        }
                        else i)
                      ours,
            )
          ]
  ]
