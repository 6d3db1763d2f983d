-- ===== src/Interface.antt =====
-- picolan.h: the class Interface, which joins the parser, the sender and the bound sockets.
pub mod Binding
pub mod Arrivals
pub mod Echo
pub mod Delivery
pub mod Remote
pub mod Ports
pub mod Steady
pub mod Life
pub mod Rebinding
pub mod Waiting
pub mod Connecting
pub mod Writing
pub mod Hearing
pub mod Handshake
pub mod Agreement
pub mod Letters
pub mod Cuts
pub mod Reading
pub mod Bursts
mod Tests
mod Exchanges
mod Trials
mod Writes
use pico_lan.Prelude.{
  ℕ, zero, suc, ◌+◌, ◌-◌, Bool, true, false, not, ◌&&◌, ◌||◌, Option, none, some, List, [], ◌∷◌,
  ◌==◌, if◌then◌else◌, u8, update, ◌>>=◌,
}
use pico_lan.Etk.{Etk}
use pico_lan.Etk.Items.{items}
use pico_lan.AddressField
use pico_lan.AddressField.{AddressField, set_addr, get_addr}
use pico_lan.Serialiser.Sender.{Sender}
use pico_lan.Serialiser.Parser
use pico_lan.Serialiser.Parser.{Parser}
use pico_lan.Serialiser.Pack
use pico_lan.Serialiser.Pack.{Packet}
use pico_lan.Serialiser.Pack.Datagram.{DatagramPack}
use pico_lan.Serialiser.Pack.Ping.{PingPack}
use pico_lan.Serialiser.Pack.PingEcho.{PingEchoPack}
use pico_lan.Serialiser.Pack.Addr.{AddrPack}
use pico_lan.Socket.{Socket, SocketStream}
use pico_lan.Socket.Stream.{store}
use pico_lan.Socket.Client
use pico_lan.Socket.Server

abbrev pub multicast_addr : ℕ
multicast_addr = 0xFE

abbrev pub broadcast_addr : ℕ
broadcast_addr = 0xFF

module _ ⦃E : Etk⦄ where
  -- An object of a class derived from Socket.
  pub data AnySocket : Type 0 where
    datagram : Socket → AnySocket
    client : SocketStream → AnySocket
    server : SocketStream → AnySocket

  unfoldable pub base : AnySocket → Socket
  base (datagram s) = s
  base (client s) = s.socket
  base (server s) = s.socket

  unfoldable pub with_base : AnySocket → Socket → AnySocket
  with_base (datagram s) b = datagram b
  with_base (client s) b = client (record s { socket = b })
  with_base (server s) b = server (record s { socket = b })

  abbrev pub port_of : AnySocket → ℕ
  port_of s = (base s).port

  -- An interface and the sockets of the program: `sockets` holds pointers, which are keys of `heap`.
  pub record Interface : Type 0 where
    pub rx : Parser
    pub tx : Sender
    pub address : ℕ  -- uint8
    pub ping_echo_payload : ℕ  -- uint16
    pub addr_list_recved : Bool
    pub addr_field : AddressField
    pub sockets : E.sockets.Rep
    pub heap : ℕ → AnySocket

  -- The constructor. The address and the parser's buffer start with whatever was there; `heap` has the
  -- sockets of the program.
  unfoldable pub new_interface : ℕ → (ℕ → ℕ) → (ℕ → AnySocket) → Interface
  new_interface any_address any_bytes heap = record {
    rx = Parser.new any_bytes;
    tx = record { sum1 = 0; sum2 = 0; sent = []; flushed = 0 };
    address = any_address;
    ping_echo_payload = 0;
    addr_list_recved = false;
    addr_field = AddressField.new;
    sockets = E.sockets.empty;
    heap = heap;
  }

  unfoldable pub get_address : Interface → ℕ
  get_address i = i.address

  unfoldable pub send_packet : Packet → Interface → Interface
  send_packet p i = record i { tx = Pack.send p i.tx }

  unfoldable pub set_address : ℕ → Interface → Interface
  unfolding send_packet
  set_address addr i =
      send_packet (Packet.addr (record { address_field = set_addr AddressField.new addr true }))
        (record i { address = addr })

  unfoldable pub lookup_addr_list : Interface → ℕ → Bool
  lookup_addr_list i addr = get_addr i.addr_field addr

  unfoldable pub get_addr_list_pack_handler : Interface → Interface
  unfolding send_packet
  get_addr_list_pack_handler i =
      send_packet
        (Packet.addr (record { address_field = set_addr AddressField.new i.address true })) i

  unfoldable pub addr_pack_handler : AddrPack → Interface → Interface
  addr_pack_handler p i = record i { addr_field = p.address_field; addr_list_recved = true }

  unfoldable pub ping_pack_handler : PingPack → Interface → Interface
  unfolding send_packet
  ping_pack_handler p i =
      send_packet
        (Packet.ping_echo (record {
          ttl = 6;
          source_addr = i.address;
          dest_addr = p.source_addr;
          payload = p.payload;
        }))
        i

  unfoldable pub ping_echo_pack_handler : PingEchoPack → Interface → Interface
  ping_echo_pack_handler p i = record i { ping_echo_payload = p.payload }

  -- Datagram::on_data.
  unfoldable pub datagram_on_data : Socket → ℕ → (ℕ → ℕ) → ℕ → Socket
  datagram_on_data s r buffer len = record s { remote = r; ringbuf = store buffer 0 len s.ringbuf }

  -- The virtual `on_data`.
  unfoldable pub on_data : ℕ → AnySocket → Sender → ℕ → (ℕ → ℕ) → ℕ → AnySocket × Sender
  unfolding datagram_on_data
  on_data address (datagram s) tx r buffer len = (datagram (datagram_on_data s r buffer len), tx)
  on_data address (client s) tx r buffer len =
      let (s', tx') = Client.on_data address s tx r buffer len in (client s', tx')
  on_data address (server s) tx r buffer len =
      let (s', tx') = Server.on_data address s tx r buffer len in (server s', tx')

  -- The body of the loop over the sockets: `remote` is set before `on_data` is called.
  unfoldable pub deliver : DatagramPack → ℕ → Interface → Interface
  unfolding base with_base
  deliver p l i =
      let s = i.heap l in
      if port_of s == p.port
      then (let s1 = with_base s (record (base s) { remote = p.source_addr }) in
          let (s2, tx') =
            on_data i.address s1 i.tx p.source_addr (E.payload.get p.payload)
              (E.payload.size p.payload) in
          record i { tx = tx'; heap = update i.heap l s2 })
      else i

  unfoldable pub deliver_all : DatagramPack → List ℕ → Interface → Interface
  unfolding deliver
  deliver_all p [] i = i
  deliver_all p (l ∷ ls) i = deliver_all p ls (deliver p l i)

  unfoldable pub datagram_pack_handler : DatagramPack → Interface → Interface
  unfolding deliver_all
  datagram_pack_handler p i =
      if p.dest_addr == i.address || p.dest_addr == broadcast_addr || p.dest_addr == multicast_addr
      then deliver_all p (items E.sockets i.sockets) i
      else i

  -- The handler that `read_data` calls for a packet.
  unfoldable pub handle : Packet → Interface → Interface
  unfolding get_addr_list_pack_handler addr_pack_handler ping_pack_handler ping_echo_pack_handler
      datagram_pack_handler
  handle (Packet.get_addr_list p) i = get_addr_list_pack_handler i
  handle (Packet.addr p) i = addr_pack_handler p i
  handle (Packet.ping p) i = ping_pack_handler p i
  handle (Packet.ping_echo p) i = ping_echo_pack_handler p i
  handle (Packet.datagram p) i = datagram_pack_handler p i
  handle (Packet.subscribe p) i = i

  unfoldable pub handle_option : Option Packet → Interface → Interface
  unfolding handle
  handle_option none i = i
  handle_option (some p) i = handle p i

  -- Interface::read over the bytes that have arrived. The parser's own state is not touched by a
  -- handler, so the packet is handled after the byte.
  unfoldable pub read : Interface → List ℕ → Option Interface
  unfolding handle_option
  read i [] = some i
  read i (c ∷ cs) = do
    (rx', m) ← Parser.read i.rx c
    read (handle_option m (record i { rx = rx' })) cs
