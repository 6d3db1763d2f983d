-- ===== src/Serialiser/Parser.antt =====
-- serialiser.h, the receiving half of ParserSerialiser: a state machine that is fed one byte at a
-- time and hands over each packet whose checksum fits. `none` is an access outside `data_buf`.
pub mod Steps
pub mod Frames
pub mod Decode
pub mod Safety
pub mod Overrun
pub mod LongList
pub mod Reject
use pico_lan.Prelude.{
  ℕ, zero, suc, ◌+◌, ◌*◌, ◌%◌, bit_or, Bool, true, false, not, ◌&&◌, ◌||◌, Option, none, some, List,
  [], ◌∷◌, ◌++◌, ◌>>=◌, ltb, leb, ◌==◌, if◌then◌else◌, u8, u16, update, option_to_list,
}
use pico_lan.Etk.{Etk}
use pico_lan.Serialiser.Reader.{Window}
use pico_lan.Serialiser.Pack
use pico_lan.Serialiser.Pack.{Packet}

pub data MsgState : Type 0 where
  start id size body check_1 check_2 : MsgState

abbrev pub max_packet_length : ℕ
max_packet_length = 64

-- `PACKETS::NULL_PACK`.
abbrev pub null_pack : ℕ
null_pack = 7

pub record Parser : Type 0 where
  pub state : MsgState
  pub stuff_flag : Bool
  pub msg_id : ℕ  -- uint16
  pub checksum_in : ℕ  -- uint16
  pub data_length : ℕ  -- uint8
  pub data_pos : ℕ  -- uint8
  pub data_buf : ℕ → ℕ  -- `max_packet_length` bytes

-- The member initialisers; the contents of `data_buf` are whatever was there.
abbrev pub new : (ℕ → ℕ) → Parser
new garbage = record {
  state = start;
  stuff_flag = false;
  msg_id = 0;
  checksum_in = 0;
  data_length = 0;
  data_pos = 0;
  data_buf = garbage;
}

unfoldable pub add_byte : Parser → ℕ → Option Parser
add_byte p c =
    if ltb p.data_pos max_packet_length
    then some
        (record p { data_buf = update p.data_buf p.data_pos c; data_pos = u8 (p.data_pos + 1) })
    else none

-- The loop of `check_checksum` from index `i`, with `n` rounds left.
unfoldable pub checksum_loop : (ℕ → ℕ) → ℕ → ℕ → ℕ → ℕ → ℕ × ℕ
checksum_loop buf zero i s1 s2 = (s1, s2)
checksum_loop buf (suc n) i s1 s2 =
    let t = (s1 + buf i) % 255 in checksum_loop buf n (i + 1) t ((s2 + t) % 255)

unfoldable pub check_checksum : Parser → Option Bool
unfolding checksum_loop
check_checksum p =
    let len = p.data_length + 2 in
    let (s1, s2) = checksum_loop p.data_buf len 0 0 0 in
    let cs = u16 (bit_or (s2 * 256) s1) in
    if leb len max_packet_length then some (cs == p.checksum_in) else none

-- `&(data_buf[2])`.
abbrev pub body_window : (ℕ → ℕ) → Window
body_window buf = record { at = λ i. buf (i + 2); len = 62 }

module _ ⦃E : Etk⦄ where
  -- The `switch` over `msg_id`, with the packet that the handler is given; no class has any other
  -- number.
  unfoldable pub read_data : ℕ → Window → Option (Option Packet)
  unfolding Pack.GetAddrList.from_bytes Pack.Addr.from_bytes Pack.Ping.from_bytes
      Pack.PingEcho.from_bytes Pack.Datagram.from_bytes Pack.Subscribe.from_bytes
  read_data msg_id w =
      if msg_id == Pack.GetAddrList.id
      then (do p ← Pack.GetAddrList.from_bytes w; some (some (Packet.get_addr_list p)))
      else if msg_id == Pack.Addr.id
      then (do p ← Pack.Addr.from_bytes w; some (some (Packet.addr p)))
      else if msg_id == Pack.Ping.id
      then (do p ← Pack.Ping.from_bytes w; some (some (Packet.ping p)))
      else if msg_id == Pack.PingEcho.id
      then (do p ← Pack.PingEcho.from_bytes w; some (some (Packet.ping_echo p)))
      else if msg_id == Pack.Datagram.id
      then (do p ← Pack.Datagram.from_bytes w; some (some (Packet.datagram p)))
      else if msg_id == Pack.Subscribe.id
      then (do p ← Pack.Subscribe.from_bytes w; some (some (Packet.subscribe p)))
      else some none

  -- The six cases of the `switch` of `read`. Each gives the parser after the byte, and the packet
  -- that a handler was called with.
  unfoldable pub on_start : Parser → ℕ → Option (Parser × Option Packet)
  on_start p c = some (record p { data_pos = 0; state = if c == 0xAB then id else p.state }, none)

  unfoldable pub on_id : Parser → ℕ → Option (Parser × Option Packet)
  unfolding add_byte
  on_id p c =
      let p1 = record p { msg_id = c } in
      if leb null_pack c
      then some (record p1 { state = start }, none)
      else (do p2 ← add_byte p1 c; some (record p2 { state = size }, none))

  unfoldable pub on_size : Parser → ℕ → Option (Parser × Option Packet)
  unfolding add_byte
  on_size p c = do
    p1 ← add_byte p c
    some (record p1 { data_length = c; state = if c == 0 then check_1 else body }, none)

  unfoldable pub on_data : Parser → ℕ → Option (Parser × Option Packet)
  unfolding add_byte
  on_data p c = do
    p1 ← add_byte p c
    some (
      record p1 { state = if leb (p1.data_length + 2) p1.data_pos then check_1 else p1.state },
      none,
    )

  unfoldable pub on_check_1 : Parser → ℕ → Option (Parser × Option Packet)
  on_check_1 p c = some (record p { checksum_in = c; state = check_2 }, none)

  unfoldable pub on_check_2 : Parser → ℕ → Option (Parser × Option Packet)
  unfolding check_checksum read_data
  on_check_2 p c = do
    let p1 = record p { checksum_in = u16 (p.checksum_in + c * 256) }
    good ← check_checksum p1
    m ← (if good then read_data p1.msg_id (body_window p1.data_buf) else some none)
    some (record p1 { state = start }, m)

  unfoldable pub dispatch : MsgState → Parser → ℕ → Option (Parser × Option Packet)
  unfolding on_start on_id on_size on_data on_check_1 on_check_2
  dispatch start p c = on_start p c
  dispatch id p c = on_id p c
  dispatch size p c = on_size p c
  dispatch body p c = on_data p c
  dispatch check_1 p c = on_check_1 p c
  dispatch check_2 p c = on_check_2 p c

  -- An unescaped 0xAB or 0xAC puts the parser back to the start, in every state.
  unfoldable pub resync : Parser → ℕ → Parser
  resync p c =
      if not p.stuff_flag && (c == 0xAB || c == 0xAC) then record p { state = start } else p

  unfoldable pub read : Parser → ℕ → Option (Parser × Option Packet)
  unfolding dispatch resync
  read p c =
      if c == 0xAA && not p.stuff_flag
      then some (record p { stuff_flag = true }, none)
      else let p1 = record (resync p c) { stuff_flag = false } in dispatch p1.state p1 c

  -- Interface::read: `while(available()) ParserSerialiser::read(get())` over the bytes that have
  -- arrived, with the packets handed over in order.
  unfoldable pub read_all : Parser → List ℕ → Option (Parser × List Packet)
  unfolding read
  read_all p [] = some (p, [])
  read_all p (c ∷ cs) = do
    (p1, m) ← read p c
    (p2, ms) ← read_all p1 cs
    some (p2, option_to_list m ++ ms)
