-- ===== src/Socket.antt =====
-- socket.h and socket_stream.h: what a socket keeps, and the error numbers.
pub mod Stream
pub mod Client
pub mod Server
pub mod Messages
pub mod Receiving
pub mod Wrap
pub mod States
mod Tests
use pico_lan.Prelude.{ℕ, Bool, ◌==◌}
use pico_lan.Etk.{Etk}

-- namespace Error.
pub data Error : Type 0 where
  ok timeout bad_state ack_out_of_sequence : Error

-- CONNECTION_STATE.
pub data ConnectionState : Type 0 where
  closed syn_sent listening syn_recved pending open_state : ConnectionState

-- namespace MESSAGE_TYPE.
abbrev pub msg_ack : ℕ
msg_ack = 0

abbrev pub msg_syn : ℕ
msg_syn = 1

abbrev pub msg_data : ℕ
msg_data = 2

abbrev pub msg_close : ℕ
msg_close = 3

module _ ⦃E : Etk⦄ where
  -- class Socket. `bound` tells whether `iface` is set.
  pub record Socket : Type 0 where
    pub bound : Bool
    pub remote : ℕ
    pub port : ℕ
    pub timeout : ℕ  -- uint16
    pub ringbuf : E.ring.Rep

  -- The constructor and the member initialisers; the ring buffer stands over the caller's storage.
  unfoldable pub new_socket : E.ring.Rep → ℕ → Socket
  new_socket ring port = record {
    bound = Bool.false;
    remote = 0;
    port = port;
    timeout = 1000;
    ringbuf = ring;
  }

  -- class SocketStream, which Client and Server extend without further members.
  pub record SocketStream : Type 0 where
    pub socket : Socket
    pub open socket use *
    pub state : ConnectionState
    pub zero_read_count : ℕ  -- uint8
    pub sequence_number : ℕ  -- uint8
    pub remote_sequence : ℕ  -- uint8
    pub remote_port : ℕ  -- uint8
    pub last_recved_ack : ℕ  -- uint8

  -- The constructor of SocketStream. `remote_sequence` and `remote_port` start with whatever
  -- was there.
  unfoldable pub new_stream : E.ring.Rep → ℕ → ℕ → ℕ → SocketStream
  unfolding new_socket
  new_stream ring port any_sequence any_port = record {
    socket = new_socket ring port;
    state = closed;
    zero_read_count = 0;
    sequence_number = 1;
    remote_sequence = any_sequence;
    remote_port = any_port;
    last_recved_ack = 0;
  }

  -- The constructors of Client and Server, which set the state again.
  unfoldable pub new_client : E.ring.Rep → ℕ → ℕ → ℕ → SocketStream
  unfolding new_stream
  new_client ring port any_sequence any_port = record (new_stream ring port any_sequence any_port) {
    state = closed;
  }

  unfoldable pub new_server : E.ring.Rep → ℕ → ℕ → ℕ → SocketStream
  unfolding new_stream
  new_server ring port any_sequence any_port = record (new_stream ring port any_sequence any_port) {
    state = closed;
  }

  -- The constructor of Datagram.
  unfoldable pub new_datagram : E.ring.Rep → ℕ → Socket
  unfolding new_socket
  new_datagram ring port = new_socket ring port

  unfoldable pub get_remote : Socket → ℕ
  get_remote s = s.remote

  -- The parameter is a uint16.
  unfoldable pub set_timeout : ℕ → Socket → Socket
  set_timeout t s = record s { timeout = t }

  unfoldable pub get_timeout : Socket → ℕ
  get_timeout s = s.timeout

  -- Of Client and of Server.
  unfoldable pub get_remote_port : SocketStream → ℕ
  get_remote_port s = s.remote_port
