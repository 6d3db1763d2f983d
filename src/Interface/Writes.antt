-- ===== src/Interface/Writes.antt =====
-- Tests: the theorems on the write of a stream at concrete connections.
use pico_lan.Prelude.{
  ℕ, zero, inl, refl, false, true, List, [], ◌∷◌, arith, ◌+◌, ◌≢◌, ◌≡◌, ◌++◌, some, ◌⊎◌, u8, slice,
}
use pico_lan.Etk.Sample.{sample, payload-IgnoresFull}
use pico_lan.AddressField
use pico_lan.Serialiser.Sender.{Sender}
use pico_lan.Serialiser.Parser
use pico_lan.Socket.{Socket, SocketStream, open_state, timeout, ack_out_of_sequence}
use pico_lan.Interface.{Interface, AnySocket}
use pico_lan.Interface.Waiting.{Round}
use pico_lan.Interface.Handshake.Messages.{Has}
use pico_lan.Interface.Bursts.{Burst, packets_to_send, wrote, failed, stream_write}
use pico_lan.Interface.Writing.{write}
use pico_lan.Interface.Cuts.{kept}
use pico_lan.Interface.Cuts.Mailed.{Mailed, write-Mailed}
use pico_lan.Interface.Bursts.Exchange.{Joined, answered}
use pico_lan.Interface.Bursts.Frames.{burst_frames}
use pico_lan.Interface.Bursts.Long.{Timing, Flow, stream_write-Flow}
use pico_lan.Interface.Bursts.Unheard.{Unheard}
use pico_lan.Interface.Bursts.Silence.{thrice, stream_write-Unheard}
use pico_lan.Interface.Bursts.Unanswered.{stream_write-unanswered}
use pico_lan.Interface.Bursts.Whole.{Writes, stream_write-Writes}
use pico_lan.Interface.Bursts.Session.{Outgoing, Sendable, Session, writes-Session}
use pico_lan.Interface.Bursts.FirstWrite.{FirstWrite, stream_write-FirstWrite}

abbrev line : Sender
line = record { sum1 = 0; sum2 = 0; sent = []; flushed = 0 }

abbrev socket : ℕ → ℕ → Socket
socket remote port = record {
  bound = true;
  remote = remote;
  port = port;
  timeout = 1000;
  ringbuf = ([], 300);
}

abbrev caller : SocketStream
caller = record {
  socket = socket 9 40;
  state = open_state;
  zero_read_count = 0;
  sequence_number = 2;
  remote_sequence = 1;
  remote_port = 81;
  last_recved_ack = 0;
}

abbrev callee : SocketStream
callee = record caller { socket = socket 7 81; remote_port = 40 }

abbrev node : ℕ → AnySocket → Interface
node address s = record {
  rx = Parser.new (λ i. 0);
  tx = line;
  address = address;
  ping_echo_payload = 0;
  addr_list_recved = false;
  addr_field = AddressField.new;
  sockets = 0 ∷ [];
  heap = λ l. s;
}

bound_alone : (address : ℕ) (s : AnySocket) → Has (node address s) 0 s
bound_alone address s = record {
  bound = record { front = []; back = []; listed = refl; none_before = tt; none_behind = tt };
  steady = refl;
  there = refl;
}

abbrev word : ℕ → ℕ
word zero = 104
word n = 105

-- The two ends of an open connection, where the caller's number is `n` and the callee's `m`.
abbrev caller_at : ℕ → SocketStream
caller_at n = record caller { sequence_number = n }

abbrev callee_at : ℕ → SocketStream
callee_at m = record callee { remote_sequence = m }

joined :
    (n m : ℕ)
    → Joined
        (node 7 (AnySocket.client (caller_at n)))
        (node 9 (AnySocket.server (callee_at m)))
        0
        0
        (caller_at n)
        (callee_at m)
joined n m = record {
  client_here = bound_alone 7 (AnySocket.client (caller_at n));
  server_here = bound_alone 9 (AnySocket.server (callee_at m));
  client_open = refl;
  server_open = refl;
  to_server = refl;
  to_client = refl;
  server_port = refl;
  client_port = refl;
}

two_packets : u8 (5 + packets_to_send 60) ≢ 255
unfolding packets_to_send
two_packets e = omega arith

abbrev nothing_more : List Round
nothing_more = record { before = 0; arrived = []; after = 1200 } ∷ []

stream_write-FirstWrite_example :
    FirstWrite
      (node 7 (AnySocket.client (caller_at 2)))
      (node 9 (AnySocket.server (callee_at 1)))
      0
      0
      100
      120
      60
      word
      nothing_more
      []
      (caller_at 2)
      (callee_at 1)
stream_write-FirstWrite_example =
    stream_write-FirstWrite (node 7 (AnySocket.client (caller_at 2)))
      (node 9 (AnySocket.server (callee_at 1))) 0 0 100 120 60 word nothing_more [] (caller_at 2)
      (callee_at 1) (joined 2 1) refl (omega arith) (omega arith) (omega arith)
      (refl, inl (omega arith))

-- A write of 60 bytes, in two packets.
stream_write-Writes_example :
    Writes
      (node 7 (AnySocket.client (caller_at 5)))
      (node 9 (AnySocket.server (callee_at 5)))
      0
      0
      100
      120
      60
      word
      (slice word 0 60)
      nothing_more
      []
      (caller_at 5)
      (callee_at 5)
stream_write-Writes_example =
    stream_write-Writes (node 7 (AnySocket.client (caller_at 5)))
      (node 9 (AnySocket.server (callee_at 5))) 0 0 100 120 60 word nothing_more [] (caller_at 5)
      (callee_at 5) (joined 5 5) refl (omega arith) two_packets (omega arith) (omega arith)
      (omega arith)

-- A write of 60 bytes and another of 100, of which the first 52 are lost.
abbrev sixty : Outgoing
sixty = record { bytes = word; len = 60; start = 100; answered_at = 120; rest = nothing_more }

abbrev hundred : Outgoing
hundred = record { bytes = word; len = 100; start = 140; answered_at = 150; rest = nothing_more }

sendable : Sendable 5 (sixty ∷ hundred ∷ [])
unfolding packets_to_send
sendable = (
  omega arith,
  omega arith,
  (λ e. omega arith),
  (omega arith, omega arith, (λ e. omega arith), tt),
)

writes-Session_example :
    Session
      (node 7 (AnySocket.client (caller_at 5)))
      (node 9 (AnySocket.server (callee_at 5)))
      0
      0
      (sixty ∷ hundred ∷ [])
      (slice word 0 60 ++ slice word 52 48 ++ [])
      (callee_at 5)
writes-Session_example =
    writes-Session (node 7 (AnySocket.client (caller_at 5)))
      (node 9 (AnySocket.server (callee_at 5))) 0 0 sixty (hundred ∷ []) (caller_at 5) (callee_at 5)
      (joined 5 5) refl (omega arith) sendable (omega arith)

abbrev first_burst : Timing
first_burst = record { start = 100; answered_at = 120; rest = nothing_more }

abbrev second_burst : Timing
second_burst = record { start = 140; answered_at = 150; rest = nothing_more }

-- A write of 280 bytes in two bursts, of which the second has lost its first 52 bytes.
stream_write-Flow_example :
    (f : Flow
      (node 7 (AnySocket.client (caller_at 5)))
      (node 9 (AnySocket.server (callee_at 5)))
      0
      0
      280
      0
      word
      (slice word 0 208 ++ slice word 260 20 ++ [])
      (first_burst ∷ second_burst ∷ [])
      (callee_at 5))
    × (stream_write f.envs 0 word 280 (node 7 (AnySocket.client (caller_at 5)))
        ≡ some (wrote 280 f.a2))
stream_write-Flow_example =
    stream_write-Flow (node 7 (AnySocket.client (caller_at 5)))
      (node 9 (AnySocket.server (callee_at 5))) 0 0 280 word first_burst (second_burst ∷ [])
      (caller_at 5) (callee_at 5) (joined 5 5) refl (omega arith) (omega arith) (omega arith)
      (omega arith)

-- A client on which a write has succeeded with the number 7.
abbrev written : SocketStream
written = record (caller_at 6) { last_recved_ack = 7 }

-- Two more bytes, for which no acknowledgement comes.
stream_write-unanswered_example :
    (a2 : Interface) × (stream_write
        (answered 100 120 [] [] ∷ [])
        0
        word
        2
        (node 7 (AnySocket.client written))
      ≡ some (wrote 2 a2))
    × (a2.tx.sent ≡ [] ++ burst_frames 7 written word 2 1 0 0)
stream_write-unanswered_example =
    stream_write-unanswered (node 7 (AnySocket.client written)) 0 100 120 2 word [] [] written
      (bound_alone 7 (AnySocket.client written)) refl refl (omega arith) (omega arith) (omega arith)
      (omega arith)

abbrev silence : Burst
silence = record {
  arrived = λ i. [];
  start = 100;
  rounds = record { before = 0; arrived = []; after = 1100 } ∷ [];
}

unheard : Unheard 1000 silence
unheard = ((λ j. refl), (refl, inl (omega arith)))

-- Two bytes from a client with the sequence number 2, whose last acknowledgement is 0.
stream_write-Unheard_example :
    let frames = burst_frames 7 caller word 2 (packets_to_send 2) 0 0 in
    let outcome =
      stream_write (silence ∷ silence ∷ silence ∷ []) 0 word 2 (node 7 (AnySocket.client caller)) in
    (j : Interface) × (j.heap 0 ≡ AnySocket.client caller)
    × ((caller.last_recved_ack ≡ caller.sequence_number)
          × (outcome ≡ some (failed timeout j))
          × (j.tx.sent ≡ [] ++ thrice frames)
        ⊎ (caller.last_recved_ack ≢ caller.sequence_number)
          × (outcome ≡ some (failed ack_out_of_sequence j))
          × (j.tx.sent ≡ [] ++ frames))
stream_write-Unheard_example =
    stream_write-Unheard (node 7 (AnySocket.client caller)) 0 2 word silence silence silence []
      caller (bound_alone 7 (AnySocket.client caller)) refl (λ j lt e. omega arith) (omega arith)
      (omega arith) (omega arith) unheard unheard unheard

-- A datagram of 60 bytes: the bytes 54 to 57 are lost.
write-Mailed_example :
    Mailed
      (node 9 (AnySocket.datagram (socket 0 81)))
      0
      (socket 0 81)
      (write 9 81 word 60 (node 7 (AnySocket.client caller))).tx.sent
      (kept word 60)
write-Mailed_example =
    write-Mailed (node 7 (AnySocket.client caller)) (node 9 (AnySocket.datagram (socket 0 81))) 0 60
      word (socket 0 81) payload-IgnoresFull (bound_alone 9 (AnySocket.datagram (socket 0 81)))
      (omega arith) refl
