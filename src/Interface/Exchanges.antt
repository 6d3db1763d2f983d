-- ===== src/Interface/Exchanges.antt =====
-- Tests: the theorems on pings, connections and datagrams between two concrete interfaces.
use pico_lan.Prelude.{
  ℕ, zero, suc, ◌≡◌, ◌≢◌, refl, sym, false, true, some, [], ◌∷◌, ◌∙◌, inl, inr, arith,
}
use pico_lan.Etk.Sample.{sample}
use pico_lan.AddressField
use pico_lan.Serialiser.Sender.{Sender}
use pico_lan.Serialiser.Pack.{send}
use pico_lan.Serialiser.Parser
use pico_lan.Socket.{Socket, SocketStream, closed, listening}
use pico_lan.Interface.{Interface, AnySocket, base, read, send_packet}
use pico_lan.Interface.Echo.{ping_packet, echo_packet}
use pico_lan.Interface.Waiting.{Round, done, waiting, ping, get_addr_list}
use pico_lan.Interface.Waiting.Answers.{ping-answered, ping-stale, ping-returns}
use pico_lan.Interface.Handshake.Messages.{Has}
use pico_lan.Interface.Agreement.{Connects, connect-accept}
use pico_lan.Interface.Writing.{write}
use pico_lan.Interface.Letters.{write-delivered}

abbrev line : Sender
line = record { sum1 = 0; sum2 = 0; sent = []; flushed = 0 }

abbrev socket : ℕ → Socket
socket port = record { bound = true; remote = 0; port = port; timeout = 1000; ringbuf = ([], 16) }

-- A client on port 40.
abbrev caller : SocketStream
caller = record {
  socket = socket 40;
  state = closed;
  zero_read_count = 0;
  sequence_number = 255;
  remote_sequence = 0;
  remote_port = 0;
  last_recved_ack = 0;
}

-- A server on port 81.
abbrev callee : SocketStream
callee = record caller { socket = socket 81; state = listening; sequence_number = 1 }

-- The object under test is behind pointer 1; a datagram socket on port 80 is bound before it.
abbrev node : ℕ → AnySocket → Interface
node address s = record {
  rx = Parser.new (λ i. 0);
  tx = line;
  address = address;
  ping_echo_payload = 0;
  addr_list_recved = false;
  addr_field = AddressField.new;
  sockets = 0 ∷ 1 ∷ [];
  heap = objects;
}
  where
    objects : ℕ → AnySocket
    objects zero = AnySocket.datagram (socket 80)
    objects (suc n) = s

ports_differ : (n : ℕ) → n ≡ 80 → (m : ℕ) → m ≢ 80 → n ≢ m
ports_differ n e m ne q = ne (sym q ∙ e)

caller-Has : Has (node 7 (AnySocket.client caller)) 1 (AnySocket.client caller)
unfolding base
caller-Has = record {
  bound = record {
    front = 0 ∷ [];
    back = [];
    listed = refl;
    none_before = (ports_differ 80 refl 40 (λ e. omega arith), tt);
    none_behind = tt;
  };
  steady = refl;
  there = refl;
}

callee-Has : Has (node 9 (AnySocket.server callee)) 1 (AnySocket.server callee)
unfolding base
callee-Has = record {
  bound = record {
    front = 0 ∷ [];
    back = [];
    listed = refl;
    none_before = (ports_differ 80 refl 81 (λ e. omega arith), tt);
    none_behind = tt;
  };
  steady = refl;
  there = refl;
}

-- The clock wraps round while the client waits.
connect-accept_example :
    Connects
      (node 7 (AnySocket.client caller))
      (node 9 (AnySocket.server callee))
      1
      1
      4294967290
      100
      5
      120
      []
      []
      caller
      callee
connect-accept_example =
    connect-accept (node 7 (AnySocket.client caller)) (node 9 (AnySocket.server callee)) 1 1
      4294967290 100 5 120 [] [] caller callee caller-Has callee-Has refl refl refl refl
      (omega arith) (omega arith)

abbrev a : Interface
a = node 7 (AnySocket.client caller)

abbrev b : Interface
b = node 9 (AnySocket.server callee)

abbrev quiet : Round
quiet = record { before = 1000; arrived = []; after = 1001 }

abbrev answer : Round
answer = record { before = 1002; arrived = (send (echo_packet b 7 1000) line).sent; after = 1004 }

ping-answered_example :
    (b1 : Interface) × (a2 : Interface) × (read b (send_packet (ping_packet a 9 1000) a).tx.sent
      ≡ some b1)
    × (b1.tx.sent ≡ answer.arrived)
    × (ping 9 500 1000 1000 (quiet ∷ answer ∷ []) a ≡ some (done 4 a2))
ping-answered_example =
    ping-answered a b 9 500 1000 1000 (quiet ∷ []) [] answer refl refl refl refl (λ e. omega arith)
      ((omega arith, refl), tt) (omega arith) refl

-- At time 65536 the payload is 0 again.
abbrev late : Round
late = record { before = 65536; arrived = []; after = 65537 }

ping-stale_example : (a2 : Interface) × (ping 9 500 65536 65536 (late ∷ []) a ≡ some (done 1 a2))
ping-stale_example = ping-stale a 9 500 65536 65536 [] late refl (omega arith, refl)

ping-returns_example :
    (ping 9 1 1000 1000 (quiet ∷ answer ∷ []) a ≢ some (waiting a))
    × (get_addr_list 1 1000 (quiet ∷ answer ∷ []) a ≢ some (waiting a))
ping-returns_example =
    ping-returns (quiet ∷ answer ∷ []) 9 1000 1000 1 a a (inr (inl (omega arith)))

abbrev word : ℕ → ℕ
word zero = 104
word n = 105

abbrev box : Interface
box = node 9 (AnySocket.datagram (socket 82))

box-Has : Has box 1 (AnySocket.datagram (socket 82))
unfolding base
box-Has = record {
  bound = record {
    front = 0 ∷ [];
    back = [];
    listed = refl;
    none_before = (ports_differ 80 refl 82 (λ e. omega arith), tt);
    none_behind = tt;
  };
  steady = refl;
  there = refl;
}

write-delivered_example :
    (b1 : Interface) × (d1 : Socket) × (read box (write 9 82 word 2 a).tx.sent ≡ some b1)
    × (b1.heap 1 ≡ AnySocket.datagram d1)
    × (d1.ringbuf.0 ≡ 104 ∷ 105 ∷ [])
    × (d1.remote ≡ 7)
    × (b1.tx ≡ line)
write-delivered_example =
    write-delivered a box 1 2 word (socket 82) box-Has (omega arith) (omega arith) (omega arith)
      refl
