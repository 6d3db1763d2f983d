-- ===== src/Interface/Life/Tests.antt =====
-- Tests: the theorems on a program's use of an interface, for a program that binds two sockets and
-- reads a datagram.
use pico_lan.Prelude.{
  ℕ, zero, suc, ◌≡◌, refl, List, [], ◌∷◌, ◌⊎◌, update, ◌<◌, ◌≢◌, ◌++◌, true, arith,
}
use pico_lan.Etk.Sample.{sample, sockets-IgnoresFull}
use pico_lan.Etk.Items.{append_all, items}
use pico_lan.Serialiser.Pack.{Packet}
use pico_lan.Serialiser.Pack.Datagram.{DatagramPack}
use pico_lan.Socket.{new_datagram, new_socket}
use pico_lan.Interface.{Interface, AnySocket, base, with_base, port_of, new_interface, handle}
use pico_lan.Interface.Binding.{bind, unbind_socket, unbind_from}
use pico_lan.Interface.Reading.{destroy}
use pico_lan.Interface.Rebinding.{bind-unlisted, destroy-bind}
use pico_lan.Interface.Delivery.{reached, Elsewhere}
use pico_lan.Interface.Life.{Reach, constructed, later, binds}
use pico_lan.Interface.Life.Sockets.{HasDistinctPorts}
use pico_lan.Interface.Life.Receivers.{Reach-HasDistinctPorts, Reach-one_receiver}

-- Two sockets on port 80 and one on port 81.
abbrev program : ℕ → AnySocket
program zero = AnySocket.datagram (new_datagram ([], 8) 80)
program (suc zero) = AnySocket.datagram (new_datagram ([], 8) 80)
program n = AnySocket.datagram (new_datagram ([], 8) 81)

abbrev fresh : Interface
fresh = new_interface 0 (λ i. 0) program

abbrev in_use : Interface
in_use = (bind 2 (bind 1 (bind 0 fresh).0).0).0

in_use_reached : Reach 0 (λ i. 0) program in_use
in_use_reached = later (later (later constructed (binds 0)) (binds 1)) (binds 2)

Reach-HasDistinctPorts_example : HasDistinctPorts in_use
Reach-HasDistinctPorts_example = Reach-HasDistinctPorts sockets-IgnoresFull in_use_reached

abbrev message : DatagramPack
message = record {
  ttl = 6;
  source_addr = 9;
  dest_addr = 0;
  port = 81;
  payload = append_all sample.payload [] (1 ∷ 2 ∷ []);
}

Reach-one_receiver_example :
    (handle (Packet.datagram message) in_use ≡ in_use)
    ⊎ ((l : ℕ) × (port_of (in_use.heap l) ≡ 81)
        × (handle (Packet.datagram message) in_use ≡ record in_use {
          tx = (reached message l in_use).1;
          heap = update in_use.heap l (reached message l in_use).0;
        }))
Reach-one_receiver_example = Reach-one_receiver message sockets-IgnoresFull in_use_reached

-- Sixteen sockets, each on the port of its number, and a seventeenth.
abbrev crowd : ℕ → AnySocket
crowd l = AnySocket.datagram (new_datagram ([], 8) l)

abbrev sixteen : List ℕ
sixteen = 0 ∷ 1 ∷ 2 ∷ 3 ∷ 4 ∷ 5 ∷ 6 ∷ 7 ∷ 8 ∷ 9 ∷ 10 ∷ 11 ∷ 12 ∷ 13 ∷ 14 ∷ 15 ∷ []

abbrev crowded : Interface
crowded = record (new_interface 0 (λ i. 0) crowd) { sockets = sixteen }

away : (l : ℕ) → l < 16 → port_of (crowd l) ≢ port_of (crowd 16)
unfolding base new_datagram new_socket
away l h e = omega arith

all_away : Elsewhere crowd (port_of (crowd 16)) sixteen
all_away = (
  away 0 (omega arith),
  (
    away 1 (omega arith),
    (
      away 2 (omega arith),
      (
        away 3 (omega arith),
        (
          away 4 (omega arith),
          (
            away 5 (omega arith),
            (
              away 6 (omega arith),
              (
                away 7 (omega arith),
                (
                  away 8 (omega arith),
                  (
                    away 9 (omega arith),
                    (
                      away 10 (omega arith),
                      (
                        away 11 (omega arith),
                        (
                          away 12 (omega arith),
                          (
                            away 13 (omega arith),
                            (away 14 (omega arith), (away 15 (omega arith), tt)),
                          ),
                        ),
                      ),
                    ),
                  ),
                ),
              ),
            ),
          ),
        ),
      ),
    ),
  ),
)

abbrev to_sixteen : DatagramPack
to_sixteen = record message { port = 16 }

to_sixteen-port : to_sixteen.port ≡ port_of (crowded.heap 16)
unfolding base new_datagram new_socket new_interface
to_sixteen-port = refl

bind-unlisted_example :
    let (j, bound) = bind 16 crowded in
    (bound ≡ true)
    × (items sample.sockets j.sockets ≡ sixteen)
    × (handle (Packet.datagram to_sixteen) j ≡ j)
unfolding new_interface
bind-unlisted_example =
    bind-unlisted 16 crowded to_sixteen sockets-IgnoresFull refl all_away to_sixteen-port

-- The socket 0 has been bound and destroyed; the socket 1 is on its port too.
abbrev destroyed : Interface
destroyed = destroy 0 (bind 0 fresh).0

destroyed-marked : (base (destroyed.heap 0)).bound ≡ true
unfolding base with_base bind destroy unbind_socket unbind_from new_interface new_datagram
destroyed-marked = refl

destroyed-ports : port_of (destroyed.heap 0) ≡ port_of (destroyed.heap 1)
unfolding base with_base bind destroy unbind_socket unbind_from new_interface new_datagram
    new_socket
destroyed-ports = refl

destroyed-room : sample.sockets.size destroyed.sockets < 16
unfolding base with_base bind destroy unbind_socket unbind_from new_interface new_datagram
    new_socket
destroyed-room = omega arith

destroyed-away :
    Elsewhere destroyed.heap (port_of (destroyed.heap 1)) (items sample.sockets destroyed.sockets)
unfolding base with_base bind destroy unbind_socket unbind_from new_interface new_datagram
    new_socket
destroyed-away = tt

destroy-bind_example :
    let (j, bound) = bind 1 destroyed in
    (bound ≡ true)
    × (items sample.sockets j.sockets ≡ items sample.sockets destroyed.sockets ++ (1 ∷ []))
    × (items sample.sockets (destroy 0 j).sockets ≡ items sample.sockets destroyed.sockets)
destroy-bind_example =
    destroy-bind 0 1 destroyed (λ e. omega arith) destroyed-marked destroyed-ports destroyed-room
      destroyed-away
