-- ===== src/Interface/Steady.antt =====
-- No message changes the port of a socket, or which sockets are bound.
pub mod Loops
pub mod Transfers
pub mod Bursts
use pico_lan.Prelude.{
  ℕ, ◌≡◌, refl, sym, ap, subst, ◌∙◌, Bool, true, false, Option, none, some, List, [], ◌∷◌, ◌==◌,
  if◌then◌else◌, update, ◌>>=◌, Every, Every->>=, Every-some,
}
use pico_lan.Etk.{Etk}
use pico_lan.Etk.Items.{items}
use pico_lan.Serialiser.Sender.{Sender}
use pico_lan.Serialiser.Parser
use pico_lan.Serialiser.Parser.{Parser}
use pico_lan.Serialiser.Pack.{Packet}
use pico_lan.Serialiser.Pack.Datagram.{DatagramPack}
use pico_lan.Socket.{SocketStream}
use pico_lan.Interface.{
  Interface, AnySocket, base, port_of, send_packet, get_addr_list_pack_handler, ping_pack_handler,
  datagram_pack_handler, deliver, deliver_all, handle, handle_option, read,
}
use pico_lan.Interface.Connecting.{stream_of, with_stream, put_stream}
use pico_lan.Interface.Arrivals.{
  with_rx, for_us, datagram_pack_handler_lem, deliver_all-cons, read-cons,
}
use pico_lan.Interface.Delivery.{reached, reached-port, deliver_lem, update-port}

module _ ⦃E : Etk⦄ where
  -- The same sockets are bound in `j` as in `i`, and every socket has its port still.
  pub record KeepsPorts (i j : Interface) : Type 0 where
    pub same_sockets : j.sockets ≡ i.sockets
    pub same_ports : (l : ℕ) → port_of (j.heap l) ≡ port_of (i.heap l)

  pub KeepsPorts-refl : (i : Interface) → KeepsPorts i i
  KeepsPorts-refl i = record { same_sockets = refl; same_ports = λ l. refl }

  pub KeepsPorts-trans : {i j k : Interface} → KeepsPorts i j → KeepsPorts j k → KeepsPorts i k
  KeepsPorts-trans g h = record {
    same_sockets = h.same_sockets ∙ g.same_sockets;
    same_ports = λ l. h.same_ports l ∙ g.same_ports l;
  }

  pub send_packet-KeepsPorts : (p : Packet) (i : Interface) → KeepsPorts i (send_packet p i)
  unfolding send_packet
  send_packet-KeepsPorts p i = record { same_sockets = refl; same_ports = λ l. refl }

  KeepsPorts-if :
      {i j k : Interface} (b : Bool)
      → KeepsPorts i j
      → KeepsPorts i k
      → KeepsPorts i (if b then j else k)
  KeepsPorts-if true g h = g
  KeepsPorts-if false g h = h

  deliver-KeepsPorts : (p : DatagramPack) (l : ℕ) (i : Interface) → KeepsPorts i (deliver p l i)
  deliver-KeepsPorts p l i = subst (KeepsPorts i) (sym (deliver_lem p l i)) (
      KeepsPorts-if (port_of (i.heap l) == p.port)
        (record {
          same_sockets = refl;
          same_ports = λ k. update-port i.heap l k (reached p l i).0 (reached-port p l i);
        })
        (KeepsPorts-refl i))

  deliver_all-KeepsPorts :
      (p : DatagramPack) (ls : List ℕ) (i : Interface) → KeepsPorts i (deliver_all p ls i)
  deliver_all-KeepsPorts p [] i = unfold deliver_all in KeepsPorts-refl i
  deliver_all-KeepsPorts p (l ∷ ls) i =
      subst (KeepsPorts i) (sym (deliver_all-cons p l ls i))
        (KeepsPorts-trans (deliver-KeepsPorts p l i) (deliver_all-KeepsPorts p ls (deliver p l i)))

  datagram_pack_handler-KeepsPorts :
      (p : DatagramPack) (i : Interface) → KeepsPorts i (datagram_pack_handler p i)
  datagram_pack_handler-KeepsPorts p i =
      subst (KeepsPorts i) (sym (datagram_pack_handler_lem p i)) (
        KeepsPorts-if (for_us p i) (deliver_all-KeepsPorts p (items E.sockets i.sockets) i)
          (KeepsPorts-refl i))

  handle-KeepsPorts : (p : Packet) (i : Interface) → KeepsPorts i (handle p i)
  unfolding handle get_addr_list_pack_handler ping_pack_handler send_packet
  handle-KeepsPorts (Packet.get_addr_list p) i = record {
    same_sockets = refl;
    same_ports = λ l. refl;
  }
  handle-KeepsPorts (Packet.addr p) i = record { same_sockets = refl; same_ports = λ l. refl }
  handle-KeepsPorts (Packet.ping p) i = record { same_sockets = refl; same_ports = λ l. refl }
  handle-KeepsPorts (Packet.ping_echo p) i = record { same_sockets = refl; same_ports = λ l. refl }
  handle-KeepsPorts (Packet.datagram p) i = datagram_pack_handler-KeepsPorts p i
  handle-KeepsPorts (Packet.subscribe p) i = KeepsPorts-refl i

  handle_option-KeepsPorts :
      (m : Option Packet) (i : Interface) (r : Parser)
      → KeepsPorts i (handle_option m (with_rx i r))
  unfolding handle_option
  handle_option-KeepsPorts none i r = record { same_sockets = refl; same_ports = λ l. refl }
  handle_option-KeepsPorts (some p) i r =
      KeepsPorts-trans (record { same_sockets = refl; same_ports = λ l. refl })
        (handle-KeepsPorts p (with_rx i r))

  -- The interface of a result, which `view` gives, keeps the ports of `i`.
  abbrev pub Keeps : {A : Type 0} → (A → Interface) → Interface → A → Type 0
  Keeps view i a = KeepsPorts i (view a)

  pub Every-trans :
      {A : Type 0} (view : A → Interface) {i j : Interface} (m : Option A)
      → KeepsPorts i j
      → Every (Keeps view j) m
      → Every (Keeps view i) m
  Every-trans view none g h = tt
  Every-trans view (some k) g h = KeepsPorts-trans g h

  pub read-KeepsPorts : (i : Interface) (cs : List ℕ) → Every (KeepsPorts i) (read i cs)
  read-KeepsPorts i [] = unfold read in KeepsPorts-refl i
  read-KeepsPorts i (c ∷ cs) = subst (Every (KeepsPorts i)) (sym (read-cons i c cs)) (
      Every->>= (KeepsPorts i) (Parser.read i.rx c)
        (λ (r, m). read (handle_option m (with_rx i r)) cs)
        (λ (r, m) e.
          Every-trans (λ j. j) (read (handle_option m (with_rx i r)) cs)
            (handle_option-KeepsPorts m i r) (read-KeepsPorts (handle_option m (with_rx i r)) cs)))

  pub read-KeepsPorts_one : (i j : Interface) (cs : List ℕ) → read i cs ≡ some j → KeepsPorts i j
  read-KeepsPorts_one i j cs e = Every-some (KeepsPorts i) (read i cs) j (read-KeepsPorts i cs) e

  port_or_zero : Option SocketStream → ℕ
  port_or_zero none = 0
  port_or_zero (some s) = s.port

  with_stream-port :
      (x : AnySocket) (s old : SocketStream)
      → stream_of x ≡ some old
      → s.port ≡ old.port
      → port_of (with_stream x s) ≡ port_of x
  unfolding base port_or_zero
  with_stream-port (AnySocket.datagram d) s old e same = refl
  with_stream-port (AnySocket.client c) s old e same = same ∙ sym (ap port_or_zero e)
  with_stream-port (AnySocket.server c) s old e same = same ∙ sym (ap port_or_zero e)

  -- A stream that is put back with its port.
  pub put_stream-KeepsPorts :
      (l : ℕ) (s : SocketStream) (tx : Sender) (i : Interface) (old : SocketStream)
      → stream_of (i.heap l) ≡ some old
      → s.port ≡ old.port
      → KeepsPorts i (put_stream l (s, tx) i)
  put_stream-KeepsPorts l s tx i old there same = record {
    same_sockets = refl;
    same_ports = λ k.
        update-port i.heap l k (with_stream (i.heap l) s)
          (with_stream-port (i.heap l) s old there same);
  }
