-- ===== src/Interface/Trials.antt =====
-- Tests: the theorems on reading at a concrete client.
use pico_lan.Prelude.{
  ℕ, ◌<◌, ◌≡◌, ◌⊎◌, inl, inr, refl, false, true, some, List, [], ◌∷◌, ◌++◌, arith,
}
use pico_lan.Etk.Sample.{sample}
use pico_lan.AddressField
use pico_lan.Serialiser.Sender.{Sender}
use pico_lan.Serialiser.Pack.{Packet}
use pico_lan.Serialiser.Parser
use pico_lan.Socket.{Socket, SocketStream, closed, open_state, msg_close}
use pico_lan.Socket.Stream.{stream_pack}
use pico_lan.Interface.{Interface, AnySocket, base}
use pico_lan.Interface.Hearing.{wire}
use pico_lan.Interface.Reading.{Call, available, finished, filled, read_bytes, stream_read}
use pico_lan.Interface.Reading.Queue.{Reads, read_bytes-Reads}
use pico_lan.Interface.Reading.Idle.{stream_read-Silent}

abbrev line : Sender
line = record { sum1 = 0; sum2 = 0; sent = []; flushed = 0 }

abbrev socket : List ℕ → Socket
socket bytes = record { bound = true; remote = 4; port = 80; timeout = 1000; ringbuf = (bytes, 16) }

-- A client that has twice read nothing.
abbrev client : List ℕ → SocketStream
client bytes = record {
  socket = socket bytes;
  state = open_state;
  zero_read_count = 2;
  sequence_number = 9;
  remote_sequence = 254;
  remote_port = 81;
  last_recved_ack = 0;
}

abbrev node : List ℕ → Interface
node bytes = record {
  rx = Parser.new (λ i. 0);
  tx = line;
  address = 7;
  ping_echo_payload = 0;
  addr_list_recved = false;
  addr_field = AddressField.new;
  sockets = 0 ∷ [];
  heap = λ l. AnySocket.client (client bytes);
}

abbrev full : Interface
full = node (1 ∷ 2 ∷ 3 ∷ [])

abbrev at_once : Call
at_once = record { start = 5; rounds = [] }

three_there : available 0 full ≡ 3
unfolding available base
three_there = refl

read_bytes-Reads_example :
    (bs : List ℕ) × (j : Interface) × (read_bytes (at_once ∷ at_once ∷ []) 2 0 full
      ≡ some (finished bs j))
    × Reads 0 2 full j bs
read_bytes-Reads_example =
    read_bytes-Reads (at_once ∷ at_once ∷ []) 2 0 full (omega arith) (omega (arith, three_there))

abbrev idle : Interface
idle = node []

abbrev in_vain : Call
in_vain = record {
  start = 100;
  rounds =
      record { before = 0; arrived = []; after = 600 }
      ∷ record { before = 0; arrived = []; after = 1100 }
      ∷ [];
}

none_there : available 0 idle ≡ 0
unfolding available base
none_there = refl

stream_read-Silent_example :
    (j : Interface) × (stream_read (in_vain ∷ []) 4 0 idle ≡ some (filled [] j))
    × (((client []).zero_read_count < 2)
          × (j.heap 0 ≡ AnySocket.client (record (client []) { zero_read_count = 3 }))
          × (j.tx ≡ line)
        ⊎ ((client []).zero_read_count ≡ 2)
          × (j.heap 0
              ≡ AnySocket.client (record (client []) { zero_read_count = 0; state = closed }))
          × (j.tx.sent
              ≡ [] ++ wire (Packet.datagram (stream_pack 7 (client []) (msg_close ∷ 9 ∷ [])))))
stream_read-Silent_example =
    stream_read-Silent in_vain [] 3 0 idle (client []) refl refl none_there
      (refl, inr (omega arith, (refl, inl (omega arith)))) (omega arith)
