-- ===== src/Serialiser/Pack/Datagram.antt =====
-- serialiser.h, class datagram_pack.
use pico_lan.Prelude.{ℕ, ◌+◌, Option, some, ◌>>=◌, u8, slice}
use pico_lan.Etk.{Etk}
use pico_lan.Serialiser.Sender.{Sender, gen_header, to_bytes_u8, put, put_all, finish}
use pico_lan.Serialiser.Reader.{Window, read_u8, read_list}

module _ ⦃E : Etk⦄ where
  open E.payload use {Rep, empty}

  pub record DatagramPack : Type 0 where
    pub ttl : ℕ
    pub source_addr : ℕ
    pub dest_addr : ℕ
    pub port : ℕ
    pub payload : Rep

  abbrev pub id : ℕ
  id = 5

  -- Four one-byte fields, the payload and its length; the result is a uint8.
  unfoldable pub size : DatagramPack → ℕ
  size p = u8 (4 + E.payload.size p.payload + 1)

  -- `to_bytes(etk::List<uint8, SZ>&)`: the length as a uint8, then that many elements.
  unfoldable pub to_bytes : Rep → Sender → Sender
  unfolding put put_all
  to_bytes l s = let sz = u8 (E.payload.size l) in put_all (put s sz) (slice (E.payload.get l) 0 sz)

  unfoldable pub send : DatagramPack → Sender → Sender
  unfolding gen_header to_bytes_u8 to_bytes finish size
  send p s =
      let s1 = gen_header id (size p) s in
      let s2 = to_bytes_u8 s1 p.ttl in
      let s3 = to_bytes_u8 s2 p.source_addr in
      let s4 = to_bytes_u8 s3 p.dest_addr in
      let s5 = to_bytes_u8 s4 p.port in let s6 = to_bytes p.payload s5 in finish s6

  -- The payload of a new pack is empty.
  unfoldable pub from_bytes : Window → Option DatagramPack
  unfolding read_u8 read_list
  from_bytes w = do
    (ttl, pos1) ← read_u8 w 0
    (source_addr, pos2) ← read_u8 w pos1
    (dest_addr, pos3) ← read_u8 w pos2
    (port, pos4) ← read_u8 w pos3
    (payload, pos5) ← read_list w pos4 empty
    some (record {
      ttl = ttl;
      source_addr = source_addr;
      dest_addr = dest_addr;
      port = port;
      payload = payload;
    })
