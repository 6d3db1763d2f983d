-- ===== src/Interface/Delivery.antt =====
-- Which sockets a datagram reaches.
use pico_lan.Prelude.{
  ℕ, ◌≡◌, ◌≢◌, refl, sym, ap, ◌∙◌, List, [], ◌∷◌, ◌==◌, if◌then◌else◌, update, arith, Bool-cases,
  inl, inr, All, ◌++◌, ==_iff, ne→==,
}
use pico_lan.Etk.{Etk}
use pico_lan.Etk.Items.{items}
use pico_lan.Serialiser.Sender.{Sender}
use pico_lan.Serialiser.Pack.{Packet}
use pico_lan.Serialiser.Pack.Datagram.{DatagramPack}
use pico_lan.Socket.{SocketStream}
use pico_lan.Socket.Client
use pico_lan.Socket.Server
use pico_lan.Interface.{
  Interface, AnySocket, base, with_base, port_of, on_data, deliver, deliver_all, handle,
}
use pico_lan.Interface.Arrivals.{
  for_us, deliver_all-cons, datagram_pack_handler_lem, handle-datagram,
}

module _ ⦃E : Etk⦄ where
  -- `on_data` leaves the port of a socket, so a datagram does.
  client-port :
      (address : ℕ) (s : SocketStream) (tx : Sender) (r : ℕ) (buffer : ℕ → ℕ) (len : ℕ)
      → (Client.on_data address s tx r buffer len).0.port ≡ s.port
  unfolding Client.on_data
  client-port address s tx r buffer len = ground arith

  server-port :
      (address : ℕ) (s : SocketStream) (tx : Sender) (r : ℕ) (buffer : ℕ → ℕ) (len : ℕ)
      → (Server.on_data address s tx r buffer len).0.port ≡ s.port
  unfolding Server.on_data
  server-port address s tx r buffer len = ground arith

  on_data-port :
      (address : ℕ) (s : AnySocket) (tx : Sender) (r : ℕ) (buffer : ℕ → ℕ) (len : ℕ)
      → port_of (on_data address s tx r buffer len).0 ≡ port_of s
  unfolding on_data base
  on_data-port address (AnySocket.datagram s) tx r buffer len = refl
  on_data-port address (AnySocket.client s) tx r buffer len = client-port address s tx r buffer len
  on_data-port address (AnySocket.server s) tx r buffer len = server-port address s tx r buffer len

  pub with_remote-port :
      (s : AnySocket) (r : ℕ) → port_of (with_base s (record (base s) { remote = r })) ≡ port_of s
  unfolding base with_base
  with_remote-port (AnySocket.datagram s) r = refl
  with_remote-port (AnySocket.client s) r = refl
  with_remote-port (AnySocket.server s) r = refl

  abbrev pub with_remote : AnySocket → ℕ → AnySocket
  with_remote s r = with_base s (record (base s) { remote = r })

  -- What the loop over the sockets does with a socket `s` on the port of the datagram.
  abbrev pub arrive : DatagramPack → Interface → AnySocket → AnySocket × Sender
  arrive p i s =
      on_data i.address (with_remote s p.source_addr) i.tx p.source_addr (E.payload.get p.payload)
        (E.payload.size p.payload)

  abbrev pub reached : DatagramPack → ℕ → Interface → AnySocket × Sender
  reached p l i = arrive p i (i.heap l)

  pub deliver_lem :
      (p : DatagramPack) (l : ℕ) (i : Interface)
      → deliver p l i ≡ (
          if port_of (i.heap l) == p.port
          then record i { tx = (reached p l i).1; heap = update i.heap l (reached p l i).0 }
          else i)
  unfolding deliver
  deliver_lem p l i = refl

  abbrev pub arrive_at : DatagramPack → Interface → AnySocket → AnySocket × Sender
  arrive_at p i s =
      on_data i.address s i.tx p.source_addr (E.payload.get p.payload) (E.payload.size p.payload)

  pub update_self : (heap : ℕ → AnySocket) (l : ℕ) (s : AnySocket) → update heap l s l ≡ s
  update_self heap l s = ap (λ b. if b then s else heap l) ((==_iff l l).1 refl)

  -- A socket on another port is passed over.
  deliver_miss :
      (p : DatagramPack) (l : ℕ) (i : Interface) → port_of (i.heap l) ≢ p.port → deliver p l i ≡ i
  deliver_miss p l i ne =
      deliver_lem p l i
      ∙ ap
          (λ b.
            if b
            then record i { tx = (reached p l i).1; heap = update i.heap l (reached p l i).0 }
            else i)
          (ne→== (port_of (i.heap l)) p.port ne)

  pub deliver_hit :
      (p : DatagramPack) (l : ℕ) (i : Interface)
      → port_of (i.heap l) ≡ p.port
      → deliver p l i
        ≡ record i { tx = (reached p l i).1; heap = update i.heap l (reached p l i).0 }
  deliver_hit p l i e =
      deliver_lem p l i
      ∙ ap
          (λ b.
            if b
            then record i { tx = (reached p l i).1; heap = update i.heap l (reached p l i).0 }
            else i)
          ((==_iff _ _).1 e)

  pub reached-port :
      (p : DatagramPack) (l : ℕ) (i : Interface) → port_of (reached p l i).0 ≡ port_of (i.heap l)
  reached-port p l i =
      on_data-port i.address _ i.tx p.source_addr (E.payload.get p.payload)
        (E.payload.size p.payload)
      ∙ with_remote-port (i.heap l) p.source_addr

  pub update-port :
      (heap : ℕ → AnySocket) (l k : ℕ) (s : AnySocket)
      → port_of s ≡ port_of (heap l)
      → port_of (update heap l s k) ≡ port_of (heap k)
  update-port heap l k s e = elim (Bool-cases (k == l)) [
    | inl same ↦ rw same (e ∙ ap (λ j. port_of (heap j)) (sym ((==_iff k l).0 same)))
    | inr other ↦ rw other
  ]

  -- The sockets with the pointers `ls` are on other ports than `port`.
  abbrev pub Elsewhere : (ℕ → AnySocket) → ℕ → List ℕ → Type 0
  Elsewhere heap port ls = All (λ l. port_of (heap l) ≢ port) ls

  pub deliver_all_miss :
      (p : DatagramPack) (ls : List ℕ) (i : Interface)
      → Elsewhere i.heap p.port ls
      → deliver_all p ls i ≡ i
  deliver_all_miss p [] i h = unfold deliver_all in refl
  deliver_all_miss p (l ∷ ls) i (h, hs) =
      deliver_all-cons p l ls i
      ∙ ap (deliver_all p ls) (deliver_miss p l i h)
      ∙ deliver_all_miss p ls i hs

  pub Elsewhere-update :
      (heap : ℕ → AnySocket) (port l : ℕ) (s : AnySocket) (ls : List ℕ)
      → port_of s ≡ port_of (heap l)
      → Elsewhere heap port ls
      → Elsewhere (update heap l s) port ls
  Elsewhere-update heap port l s [] e h = tt
  Elsewhere-update heap port l s (k ∷ ks) e (h, hs) =
      (λ q. h (sym (update-port heap l k s e) ∙ q), Elsewhere-update heap port l s ks e hs)

  -- Exactly one socket on the port: it alone is reached.
  pub deliver_all_one :
      (p : DatagramPack) (front back : List ℕ) (l : ℕ) (i : Interface)
      → port_of (i.heap l) ≡ p.port
      → Elsewhere i.heap p.port front
      → Elsewhere i.heap p.port back
      → deliver_all p (front ++ (l ∷ back)) i
        ≡ record i { tx = (reached p l i).1; heap = update i.heap l (reached p l i).0 }
  deliver_all_one p [] back l i e hf hb =
      deliver_all-cons p l back i
      ∙ ap (deliver_all p back) (deliver_hit p l i e)
      ∙ deliver_all_miss p back _
          (Elsewhere-update i.heap p.port l (reached p l i).0 back (reached-port p l i) hb)
  deliver_all_one p (k ∷ front) back l i e (hk, hf) hb =
      deliver_all-cons p k (front ++ (l ∷ back)) i
      ∙ ap (deliver_all p (front ++ (l ∷ back))) (deliver_miss p k i hk)
      ∙ deliver_all_one p front back l i e hf hb

  -- A datagram for another address changes nothing. One for this address, for broadcast or for
  -- multicast goes to the one bound socket on its port, whose `on_data` gives the new socket and what
  -- is sent; every other socket, the parser, the address and the list of sockets stay as they are.
  pub handle-datagram_one :
      (p : DatagramPack) (front back : List ℕ) (l : ℕ) (i : Interface)
      → items E.sockets i.sockets ≡ front ++ (l ∷ back)
      → port_of (i.heap l) ≡ p.port
      → Elsewhere i.heap p.port front
      → Elsewhere i.heap p.port back
      → handle (Packet.datagram p) i ≡ (
          if for_us p i
          then record i { tx = (reached p l i).1; heap = update i.heap l (reached p l i).0 }
          else i)
  handle-datagram_one p front back l i bound e hf hb =
      handle-datagram p i
      ∙ datagram_pack_handler_lem p i
      ∙ ap (λ j. if for_us p i then j else i)
          (ap (λ ls. deliver_all p ls i) bound ∙ deliver_all_one p front back l i e hf hb)
