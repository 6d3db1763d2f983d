-- ===== src/Interface/Tests.antt =====
-- The theorems on interfaces at concrete ones.
use pico_lan.Prelude.{
  ℕ, zero, suc, ◌<◌, ◌≡◌, ◌≢◌, refl, sym, false, true, [], ◌∷◌, if◌then◌else◌, update, slice, arith,
}
use pico_lan.Etk.Sample.{sample}
use pico_lan.AddressField
use pico_lan.Serialiser.Sender.{Sender}
use pico_lan.Serialiser.Pack.{Packet}
use pico_lan.Serialiser.Pack.Datagram.{DatagramPack}
use pico_lan.Serialiser.Parser
use pico_lan.Serialiser.Parser.{Parser, read_all}
use pico_lan.Socket.{Socket, SocketStream, closed, open_state, msg_close}
use pico_lan.Interface.{Interface, AnySocket, base, handle, deliver}
use pico_lan.Interface.Arrivals.{for_us}
use pico_lan.Interface.Delivery.{reached, with_remote, handle-datagram_one}
use pico_lan.Interface.Remote.{deliver-any_remote, deliver_closes}
use pico_lan.Interface.Binding.{bind, unbind_socket}
use pico_lan.Interface.Ports.{BindResult, bind-Distinct, unbind_socket-removes}

abbrev line : Sender
line = record { sum1 = 0; sum2 = 0; sent = []; flushed = 0 }

abbrev socket : ℕ → Socket
socket port = record { bound = true; remote = 4; port = port; timeout = 1000; ringbuf = ([], 16) }

abbrev stream : SocketStream
stream = record {
  socket = socket 81;
  state = open_state;
  zero_read_count = 0;
  sequence_number = 9;
  remote_sequence = 254;
  remote_port = 81;
  last_recved_ack = 0;
}

-- A datagram socket on port 80 behind pointer 0, a client on port 81 behind pointer 1, and a datagram
-- socket on port 82 behind every other one.
abbrev objects : ℕ → AnySocket
objects zero = AnySocket.datagram (socket 80)
objects (suc zero) = AnySocket.client stream
objects (suc (suc n)) = AnySocket.datagram (socket 82)

abbrev node : Interface
node = record {
  rx = Parser.new (λ i. 0);
  tx = line;
  address = 7;
  ping_echo_payload = 0;
  addr_list_recved = false;
  addr_field = AddressField.new;
  sockets = 0 ∷ 1 ∷ [];
  heap = objects;
}

-- A stranger's CLOSE on port 81.
abbrev hang_up : DatagramPack
hang_up = record {
  ttl = 6;
  source_addr = 66;
  dest_addr = 7;
  port = 81;
  payload = msg_close ∷ 0 ∷ [];
}

port_80_ne : (n : ℕ) → n ≡ 81 → 80 ≢ n
port_80_ne n h e = omega arith

handle-datagram_one_example : handle (Packet.datagram hang_up) node ≡ (
    if for_us hang_up node
    then record node {
      tx = (reached hang_up 1 node).1;
      heap = update objects 1 (reached hang_up 1 node).0;
    }
    else node)
unfolding base
handle-datagram_one_example =
    handle-datagram_one hang_up (0 ∷ []) [] 1 node refl refl (port_80_ne 81 refl, tt) tt

deliver-any_remote_example :
    (deliver hang_up 1 node).heap 1
    ≡ (deliver hang_up 1
          (record node { heap = update objects 1 (with_remote (objects 1) 66) })).heap
        1
unfolding base
deliver-any_remote_example = deliver-any_remote hang_up 1 66 node refl

deliver_closes_example :
    (s' : SocketStream) × ((deliver hang_up 1 node).heap 1 ≡ AnySocket.client s')
    × (s'.state ≡ closed)
    × (s'.remote ≡ 66)
deliver_closes_example = deliver_closes hang_up 1 node stream refl refl refl refl

bind-Distinct_example : BindResult 2 node (bind 2 node)
unfolding base
bind-Distinct_example =
    bind-Distinct 2 node (omega arith) ((λ e. port_80_ne 81 refl (sym e), tt), (tt, tt))

unbind_socket-removes_example :
    slice
      (sample.sockets.get (unbind_socket 0 node).sockets)
      0
      (sample.sockets.size (unbind_socket 0 node).sockets)
    ≡ 1 ∷ []
unfolding base
unbind_socket-removes_example = unbind_socket-removes 0 0 1 node refl refl others
  where
    others :
        (j : ℕ)
        → j < 2
        → j ≢ 0
        → Socket.port (base (objects (sample.sockets.get (0 ∷ 1 ∷ []) j))) ≢ 80
    others zero p ne = absurd (ne refl)
    others (suc zero) p ne = λ e. port_80_ne 81 refl (sym e)
    others (suc (suc j)) p ne = absurd (omega arith)
