-- ===== src/Serialiser/Pack/Subscribe.antt =====
-- serialiser.h, class subscribe_pack.
use pico_lan.Prelude.{ℕ, Option, some, ◌>>=◌}
use pico_lan.Serialiser.Sender.{Sender, gen_header, to_bytes_u8, finish}
use pico_lan.Serialiser.Reader.{Window, read_u8}

pub record SubscribePack : Type 0 where
  pub ttl : ℕ
  pub addr : ℕ
  pub port : ℕ
  pub subscribe : ℕ

-- The default member initialisers.
abbrev pub new : SubscribePack
new = record { ttl = 6; addr = 0; port = 0; subscribe = 1 }

abbrev pub id : ℕ
id = 6

abbrev pub size : ℕ
size = 4

unfoldable pub send : SubscribePack → Sender → Sender
unfolding gen_header to_bytes_u8 finish
send p s =
    let s1 = gen_header id size s in
    let s2 = to_bytes_u8 s1 p.ttl in
    let s3 = to_bytes_u8 s2 p.port in
    let s4 = to_bytes_u8 s3 p.addr in let s5 = to_bytes_u8 s4 p.subscribe in finish s5

unfoldable pub from_bytes : Window → Option SubscribePack
unfolding read_u8
from_bytes w = do
  (ttl, pos1) ← read_u8 w 0
  (port, pos2) ← read_u8 w pos1
  (addr, pos3) ← read_u8 w pos2
  (subscribe, pos4) ← read_u8 w pos3
  some (record { ttl = ttl; addr = addr; port = port; subscribe = subscribe })
