-- ===== src/Interface/Life.antt =====
-- A program that uses one interface: any sequence of calls of its operations and those of its sockets.
pub mod Sockets
pub mod Receivers
mod Tests
use pico_lan.Prelude.{ℕ, ◌≡◌, Bool, Option, some, List, update}
use pico_lan.Etk.{Etk}
use pico_lan.Socket.{SocketStream, set_timeout}
use pico_lan.Socket.Stream.{disconnect}
use pico_lan.Socket.Server.{listen}
use pico_lan.Interface.{Interface, AnySocket, base, with_base, new_interface, set_address, read}
use pico_lan.Interface.Binding.{bind, unbind_socket}
use pico_lan.Interface.Waiting.{Round, Outcome, ping, get_addr_list}
use pico_lan.Interface.Connecting.{stream_of, put_stream, Connecting, connect, accept}
use pico_lan.Interface.Writing.{write, subscribe}
use pico_lan.Interface.Reading.{Call, ReadResult, read_bytes, StreamRead, stream_read, destroy}
use pico_lan.Interface.Bursts.{Burst, Written, stream_write}
use pico_lan.Interface.Steady.Loops.{of_outcome, of_connecting}
use pico_lan.Interface.Steady.Transfers.{of_result, of_stream_read}
use pico_lan.Interface.Steady.Bursts.{of_written}

module _ ⦃E : Etk⦄ where
  -- One call, in whatever the clock says and whatever arrives meanwhile, that makes no access outside
  -- the receive buffer. The pointer `l` is that of any socket of the program, bound or not.
  pub data Step (i : Interface) : Interface → Type 0 where
    binds : (l : ℕ) → Step i (bind l i).0
    unbinds : (l : ℕ) → Step i (unbind_socket l i)
    destroys : (l : ℕ) → Step i (destroy l i)
    addresses : (address : ℕ) → Step i (set_address address i)
    reads : (cs : List ℕ) {j : Interface} → read i cs ≡ some j → Step i j
    pings :
        (dest timeout now start : ℕ) (rs : List Round) (o : Outcome)
        → ping dest timeout now start rs i ≡ some o
        → Step i (of_outcome o)
    lists :
        (timeout start : ℕ) (rs : List Round) (o : Outcome)
        → get_addr_list timeout start rs i ≡ some o
        → Step i (of_outcome o)
    times :
        (l t : ℕ)
        → Step i (record i {
          heap = update i.heap l (with_base (i.heap l) (set_timeout t (base (i.heap l))));
        })
    takes :
        (calls : List Call) (n l : ℕ) (r : ReadResult)
        → read_bytes calls n l i ≡ some r
        → Step i (of_result r)
    writes : (dest port : ℕ) (bytes : ℕ → ℕ) (len : ℕ) → Step i (write dest port bytes len i)
    subscribes : (l : ℕ) (sub : Bool) → Step i (subscribe l sub i)
    listens :
        (l : ℕ) (s : SocketStream)
        → i.heap l ≡ AnySocket.server s
        → Step i (put_stream l ((listen s).0, i.tx) i)
    connects :
        (l r port start : ℕ) (rs : List Round) (c : Connecting)
        → connect l r port start rs i ≡ some c
        → Step i (of_connecting c)
    accepts :
        (l start : ℕ) (rs : List Round) (c : Connecting)
        → accept l start rs i ≡ some c
        → Step i (of_connecting c)
    disconnects :
        (l : ℕ) (s : SocketStream)
        → stream_of (i.heap l) ≡ some s
        → Step i (put_stream l (disconnect i.address s i.tx) i)
    stream_reads :
        (calls : List Call) (n l : ℕ) (r : StreamRead)
        → stream_read calls n l i ≡ some r
        → Step i (of_stream_read r)
    stream_writes :
        (envs : List Burst) (l : ℕ) (bytes : ℕ → ℕ) (len : ℕ) (w : Written)
        → stream_write envs l bytes len i ≡ some w
        → Step i (of_written w)

  -- What the interface can have become since its constructor.
  pub data Reach (any_address : ℕ) (any_bytes : ℕ → ℕ) (heap : ℕ → AnySocket)
      : Interface → Type 0 where
    constructed : Reach any_address any_bytes heap (new_interface any_address any_bytes heap)
    later :
        {i j : Interface}
        → Reach any_address any_bytes heap i
        → Step i j
        → Reach any_address any_bytes heap j
