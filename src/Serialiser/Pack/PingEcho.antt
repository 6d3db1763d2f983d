-- ===== src/Serialiser/Pack/PingEcho.antt =====
-- serialiser.h, class ping_echo_pack.
use pico_lan.Prelude.{ℕ, Option, some, ◌>>=◌}
use pico_lan.Serialiser.Sender.{Sender, gen_header, to_bytes_u8, to_bytes_u16, finish}
use pico_lan.Serialiser.Reader.{Window, read_u8, read_u16}

pub record PingEchoPack : Type 0 where
  pub ttl : ℕ
  pub source_addr : ℕ
  pub dest_addr : ℕ
  pub payload : ℕ  -- uint16

abbrev pub id : ℕ
id = 4

-- The sum of the sizes of the fields.
abbrev pub size : ℕ
size = 5

unfoldable pub send : PingEchoPack → Sender → Sender
unfolding gen_header to_bytes_u8 to_bytes_u16 finish
send p s =
    let s1 = gen_header id size s in
    let s2 = to_bytes_u8 s1 p.ttl in
    let s3 = to_bytes_u8 s2 p.source_addr in
    let s4 = to_bytes_u8 s3 p.dest_addr in let s5 = to_bytes_u16 s4 p.payload in finish s5

unfoldable pub from_bytes : Window → Option PingEchoPack
unfolding read_u8 read_u16
from_bytes w = do
  (ttl, pos1) ← read_u8 w 0
  (source_addr, pos2) ← read_u8 w pos1
  (dest_addr, pos3) ← read_u8 w pos2
  (payload, pos4) ← read_u16 w pos3
  some (record { ttl = ttl; source_addr = source_addr; dest_addr = dest_addr; payload = payload })
