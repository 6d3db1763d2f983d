-- ===== src/Serialiser/Pack/GetAddrList.antt =====
-- serialiser.h, class get_addr_list_pack.
use pico_lan.Prelude.{ℕ, Option, some, ◌>>=◌}
use pico_lan.Serialiser.Sender.{Sender, gen_header, to_bytes_u8, finish}
use pico_lan.Serialiser.Reader.{Window, read_u8}

pub record GetAddrListPack : Type 0 where
  pub ttl : ℕ

abbrev pub id : ℕ
id = 1

abbrev pub size : ℕ
size = 1

unfoldable pub send : GetAddrListPack → Sender → Sender
unfolding gen_header to_bytes_u8 finish
send p s = finish (to_bytes_u8 (gen_header id size s) p.ttl)

unfoldable pub from_bytes : Window → Option GetAddrListPack
unfolding read_u8
from_bytes w = do (ttl, pos1) ← read_u8 w 0; some (record { ttl = ttl })
