-- ===== src/Serialiser/Pack.antt =====
-- The packet classes of serialiser.h.
pub mod GetAddrList
pub mod Addr
pub mod Ping
pub mod PingEcho
pub mod Datagram
pub mod Subscribe
use pico_lan.Prelude.{ℕ}
use pico_lan.Etk.{Etk}
use GetAddrList.{GetAddrListPack}
use Addr.{AddrPack}
use Ping.{PingPack}
use PingEcho.{PingEchoPack}
use Datagram.{DatagramPack}
use Subscribe.{SubscribePack}
use pico_lan.Serialiser.Sender.{Sender}

module _ ⦃E : Etk⦄ where
  -- A packet of any class: what `read_data` hands to the handler of that class.
  pub data Packet : Type 0 where
    get_addr_list : GetAddrListPack → Packet
    addr : AddrPack → Packet
    ping : PingPack → Packet
    ping_echo : PingEchoPack → Packet
    datagram : DatagramPack → Packet
    subscribe : SubscribePack → Packet

  -- The virtual `base_pack::send()`.
  unfoldable pub send : Packet → Sender → Sender
  unfolding GetAddrList.send Addr.send Ping.send PingEcho.send Datagram.send Subscribe.send
  send (get_addr_list p) s = GetAddrList.send p s
  send (addr p) s = Addr.send p s
  send (ping p) s = Ping.send p s
  send (ping_echo p) s = PingEcho.send p s
  send (datagram p) s = Datagram.send p s
  send (subscribe p) s = Subscribe.send p s
