-- ===== src/Lib.antt =====
-- PicoLAN: a packet network over serial lines, for Arduino and Linux. This library models the
-- program and proves what makes its parts correct. The build that is modelled is the one without
-- PICOLAN_NODE_BINDING. The paths below are from the root of the repository.
--
--   serialiser.h writes packets as frames and parses the bytes that arrive. A frame is 0xAB, then
--     the identifier of the packet's class, the size of its fields, the fields and a 16-bit Fletcher
--     checksum, then 0xAC; between the two marks a byte 0xAA, 0xAB or 0xAC is escaped by 0xAA.
--   picolan.h joins the parser, the sender and the sockets bound to an interface:
--     `Interface::read` feeds the parser, whose packets go to a handler; a datagram goes on to the
--     sockets on its port.
--   socket.h, datagram.cpp, socket_stream.cpp, client.cpp and server.cpp are the sockets:
--     datagrams without a connection, and clients and servers that number and acknowledge their
--     messages.
--   address_field.h is a set of addresses, one bit for each.
--
-- Which file models which part:
--
--   Prelude and its children: tests on numbers as Booleans, machine-width sums, arrays as
--     functions and their slices, the chaining of results that may fail.
--   Etk: the classes List, Bits and RingBuffer of the etk library. That library is not in the
--     repository, so each is a record of the operations that are called and of the laws that the
--     callers rely on, and a parameter of every definition that uses it. Etk/Items reads such a list
--     as a list of its elements; Etk/Sample is one implementation, on which the tests run.
--   AddressField: the class AddressField. AddressField/Laws and AddressField/Copy have its laws.
--   Serialiser/Sender: the sending half of ParserSerialiser (start, finish, send_byte, the
--     checksum) and the members of base_pack that write fields. Serialiser/Reader: from_bytes for
--     the types of field that the packets use. Serialiser/Numbers: the unions and the overloads of
--     to_bytes and from_bytes for numbers of every width, with the round trip in Numbers/Fields;
--     Serialiser/Values: those for floats and for StaticString. Serialiser/Pack and its children:
--     the six packet classes, each with its size, send and from_bytes. Serialiser/Parser: the
--     receiving half, one definition for each case of the switch in ParserSerialiser::read; on_start
--     is MSG_STATE_START and so on, add_byte, check_checksum and read_data have their names.
--   Serialiser/Framing and Serialiser/Wire say what a frame is, without the sender, and
--     Serialiser/Checksum what its checksum detects. Serialiser/Parser/Steps, Frames and Decode
--     follow the parser over a frame; Safety, Overrun, LongList and Reject are about frames of any
--     contents; Serialiser/RoundTrip and Serialiser/Corruption join the two sides.
--   Socket: the members of Socket and SocketStream. Socket/Stream: send_syn, send_ack, disconnect,
--     closed and connected. Socket/Client and Socket/Server: on_data, with one definition for each
--     state, and listen. Socket/Messages says what an in-order receiver is; Socket/Receiving, Wrap
--     and States have the proofs.
--   Interface: the class Interface with its handlers and read. Interface/Binding: bind and
--     unbind_socket. Interface/Waiting: ping and get_addr_list. Interface/Connecting: connect and
--     accept. Interface/Writing: the write and subscribe of a datagram socket. Interface/Reading:
--     available, timedRead, read and destroy of a socket and the read of a stream. Interface/Bursts:
--     the write of a stream; its children follow the packets of a burst (Positions, Frames), the
--     server that reads them (Served, Reception) and the client that reads the answers (Starting,
--     Acked, Ending, Exchange), up to the theorems in FirstWrite, Whole, Session, Long, Unanswered
--     and Silence. Turns is one burst from any position. Interface/Cuts: what a datagram of any
--     length delivers. Interface/Steady and Interface/Life: the calls that a program can make, in
--     any order, and what stays true; Interface/Rebinding: two limits of binding.
--     Interface/Arrivals, Echo, Delivery, Remote, Ports, Hearing, Handshake, Agreement and Letters
--     have the proofs, as have the children of Waiting, Reading and Bursts.
--
-- State is passed explicitly: an operation takes the record of the object and gives the new one. An
-- interface holds the parser, the sender and a list of pointers to sockets, which are keys of its
-- `heap`; a socket is a Datagram, a Client or a Server, and its virtual `on_data` is a function by
-- clauses on these. The sockets' calls of iface->create_packet and send become operations on the
-- sender that they are given and give back.
--
-- A number of w bits is a natural number, with the wrap-around written out where the code can reach
-- it. Bytes are numbers, and the hypothesis that one is below 256 stands where it is used. The
-- unions u16b and u32b are read in little-endian order, which is that of the program's targets. An
-- array is a function on all indices; an access to `data_buf` of the parser outside its 64 bytes,
-- which C++ leaves undefined, gives `none`. A loop that waits takes a list of rounds, each with the
-- bytes that have arrived and what the clock reads; when the rounds are used up it is still
-- waiting. The clock is Arduino's, a number of milliseconds of 32 bits that wraps round; the Linux
-- clock of ulan_time.h gives the same differences for 49 days. The serial line is the list of the
-- bytes written to it with the count of those flushed, and a list of the bytes that arrive.
--
-- The code stores what arrives in a ring buffer without a test that there is room, and what etk
-- does with a full one is not known here: the theorems on stored bytes suppose that there is room,
-- and say so.
--
-- No definition needs fuel but the loop of unbind_socket, which has as many rounds as the list has
-- elements at its start: each round moves the index on by one, and the list does not grow.
--
-- Not modelled: the serial drivers and the clock, which are not in the repository or are calls of
-- the system; the build with PICOLAN_NODE_BINDING. The bits of a float, etk::StaticString and
-- etk::Rope::c_strlen are parameters of the definitions that use them; that a full etk::List
-- ignores an append is a named hypothesis, IgnoresFull, of the theorems that need it.
pub mod Prelude
pub mod Etk
pub mod AddressField
pub mod Serialiser
pub mod Socket
pub mod Interface
