-- ===== src/Interface/Reading.antt =====
-- socket.cpp and socket_stream.cpp: reading from the socket behind a pointer, with a timeout.
pub mod Queue
pub mod Idle
use pico_lan.Prelude.{
  ℕ, zero, suc, ◌+◌, not, Option, some, List, [], ◌∷◌, ltb, leb, ◌==◌, if◌then◌else◌, u8, update,
  length, ◌>>=◌,
}
use pico_lan.Etk.{Etk}
use pico_lan.Socket.{Socket, SocketStream, Error, ok, bad_state}
use pico_lan.Socket.Stream.{connected, disconnect}
use pico_lan.Interface.{Interface, AnySocket, base, with_base, read}
use pico_lan.Interface.Binding.{unbind_socket}
use pico_lan.Interface.Waiting.{Round, elapsed}
use pico_lan.Interface.Connecting.{stream_of, put_stream}

-- One call of `timedRead`: the clock at its start and the rounds of its loop.
pub record Call : Type 0 where
  pub start : ℕ
  pub rounds : List Round

module _ ⦃E : Etk⦄ where
  -- available().
  unfoldable pub available : ℕ → Interface → ℕ
  unfolding base
  available l i = E.ring.available (base (i.heap l)).ringbuf

  -- How `timedRead` ends, or where it stands when its rounds are used up.
  pub data TimedRead : Type 0 where
    got : ℕ → Interface → TimedRead
    nothing : Interface → TimedRead
    unfinished : Interface → TimedRead

  -- `return ringbuf.get()`.
  unfoldable pub take_byte : ℕ → Interface → TimedRead
  unfolding base with_base
  take_byte l i =
      let s = i.heap l in
      let (b, ring) = E.ring.get (base s).ringbuf in
      got b (record i { heap = update i.heap l (with_base s (record (base s) { ringbuf = ring })) })

  unfoldable pub timed_read : List Round → ℕ → ℕ → Interface → Option TimedRead
  unfolding available take_byte base
  timed_read [] start l i =
      if ltb 0 (available l i) then some (take_byte l i) else some (unfinished i)
  timed_read (r ∷ rs) start l i = if ltb 0 (available l i) then some (take_byte l i) else (do
    j ← read i r.arrived
    let rest = timed_read rs start l j
    if ltb (elapsed r.after start) (base (j.heap l)).timeout then rest else some (nothing j))

  -- The bytes that have been read, when `read` has returned and when it has not yet.
  pub data ReadResult : Type 0 where
    finished : List ℕ → Interface → ReadResult
    not_yet : List ℕ → Interface → ReadResult

  unfoldable pub with_byte : ℕ → ReadResult → ReadResult
  with_byte b (finished bs i) = finished (b ∷ bs) i
  with_byte b (not_yet bs i) = not_yet (b ∷ bs) i

  -- Socket::read(buffer, len), with the bytes that it puts in the buffer; their number is returned.
  unfoldable pub read_bytes : List Call → ℕ → ℕ → Interface → Option ReadResult
  unfolding timed_read with_byte
  read_bytes calls zero l i = some (finished [] i)
  read_bytes [] (suc n) l i = some (not_yet [] i)
  read_bytes (c ∷ cs) (suc n) l i = do
    t ← timed_read c.rounds c.start l i
    elim t [
      | got b j ↦ (do rest ← read_bytes cs n l j; some (with_byte b rest))
      | nothing j ↦ some (finished [] j)
      | unfinished j ↦ some (not_yet [] j)
    ]

  -- What SocketStream::read does when nothing was read.
  unfoldable pub count_empty : ℕ → SocketStream → Interface → Interface
  unfolding disconnect
  count_empty l s i =
      let s1 = record s { zero_read_count = u8 (s.zero_read_count + 1) } in
      if leb 3 s1.zero_read_count
      then (let (s2, tx) = disconnect i.address s1 i.tx in
          put_stream l (record s2 { zero_read_count = 0 }, tx) i)
      else put_stream l (s1, i.tx) i

  -- The result of SocketStream::read: an error, or the bytes.
  pub data StreamRead : Type 0 where
    failed : Error → Interface → StreamRead
    filled : List ℕ → Interface → StreamRead
    pending_read : List ℕ → Interface → StreamRead

  unfoldable pub stream_read_end : ℕ → ReadResult → Option StreamRead
  unfolding count_empty
  stream_read_end l (not_yet bs i) = some (pending_read bs i)
  stream_read_end l (finished bs i) = do
    s ← stream_of (i.heap l)
    some (filled bs (if length bs == 0 then count_empty l s i else i))

  -- SocketStream::read(buffer, len) of the stream behind `l`.
  unfoldable pub stream_read : List Call → ℕ → ℕ → Interface → Option StreamRead
  unfolding read_bytes stream_read_end
  stream_read calls n l i = do
    s ← stream_of (i.heap l)
    if not (connected s)
        then some (failed bad_state i)
        else (do result ← read_bytes calls n l i; stream_read_end l result)

  -- destroy(), which the destructor does too.
  unfoldable pub destroy : ℕ → Interface → Interface
  unfolding unbind_socket base
  destroy l i = if (base (i.heap l)).bound then unbind_socket l i else i
