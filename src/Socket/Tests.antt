-- ===== src/Socket/Tests.antt =====
-- The theorems on streams at concrete messages.
use pico_lan.Prelude.{ℕ, zero, suc, ◌≡◌, inl, refl, true, List, [], ◌∷◌, arith}
use pico_lan.Etk.Sample.{sample}
use pico_lan.Serialiser.Sender.{Sender}
use pico_lan.Socket.{Socket, SocketStream, open_state, listening, msg_data, msg_syn}
use pico_lan.Socket.Client
use pico_lan.Socket.Server
use pico_lan.Socket.Receiving.{ReceivedAll, serve_all-ReceivedAll}
use pico_lan.Socket.Messages.{Message, serve_all}
use pico_lan.Socket.Wrap.{client-eq-server, hear_all, hear_all-wrapped}
use pico_lan.Socket.States.{ClientMay, ServerMay, Quiet, on_data-May, on_data-Quiet}

abbrev line : Sender
line = record { sum1 = 0; sum2 = 0; sent = []; flushed = 0 }

abbrev socket : Socket
socket = record { bound = true; remote = 4; port = 80; timeout = 1000; ringbuf = ([], 16) }

abbrev stream : SocketStream
stream = record {
  socket = socket;
  state = open_state;
  zero_read_count = 0;
  sequence_number = 9;
  remote_sequence = 254;
  remote_port = 81;
  last_recved_ack = 0;
}

abbrev bytes : ℕ → ℕ → ℕ → ℕ → ℕ
bytes a b c zero = a
bytes a b c (suc zero) = b
bytes a b c (suc (suc i)) = c

abbrev datum : ℕ → ℕ → Message
datum number content = record { buffer = bytes msg_data number content; len = 3 }

-- The number 255, the number 0 that follows it, and 255 once more.
abbrev three : List Message
three = datum 255 7 ∷ datum 0 8 ∷ datum 255 7 ∷ []

serve_all-ReceivedAll_example :
    ReceivedAll 1 stream
      (serve_all 1 4 three stream line).0
      line
      (serve_all 1 4 three stream line).1
      three
serve_all-ReceivedAll_example =
    serve_all-ReceivedAll 1 4 three stream line refl refl (refl, (refl, (refl, tt))) (omega arith)

abbrev last : SocketStream
last = record stream { remote_sequence = 255 }

hear_all-wrapped_example : (hear_all 1 4 three last line).0 ≡ last
hear_all-wrapped_example =
    hear_all-wrapped 1 4 three last line refl refl refl
      ((refl, omega arith), ((refl, omega arith), ((refl, omega arith), tt)))

client-eq-server_example :
    Client.on_data 1 stream line 4 (datum 255 7).buffer 3
    ≡ Server.on_data 1 stream line 4 (datum 255 7).buffer 3
client-eq-server_example = client-eq-server 1 4 stream line (datum 255 7) refl (omega arith)

abbrev waiting : SocketStream
waiting = record stream { state = listening }

abbrev syn : Message
syn = record { buffer = bytes msg_syn 12 81; len = 3 }

on_data-May_example :
    ClientMay msg_syn listening (Client.on_data 1 waiting line 4 syn.buffer 3).0.state
    × ServerMay msg_syn listening (Server.on_data 1 waiting line 4 syn.buffer 3).0.state
on_data-May_example = on_data-May 1 waiting line 4 syn

-- A SYN that comes from the other end to a listening stream: a server goes on, and nothing is sent.
on_data-Quiet_example :
    Quiet (Client.on_data 1 waiting line 4 syn.buffer 3) waiting line
    × Quiet (Server.on_data 1 waiting line 4 syn.buffer 3) waiting line
on_data-Quiet_example = on_data-Quiet 1 waiting line 4 syn (inl (λ e. omega arith))
