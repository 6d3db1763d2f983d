-- ===== src/Serialiser/Sender.antt =====
-- serialiser.h, the sending half: the members of ParserSerialiser that `base_pack` calls while a
-- packet is written, and the members of `base_pack` that call them. Multi-byte fields go through
-- the unions u16b and u32b, which are little-endian on the program's targets.
use pico_lan.Prelude.{
  ℕ, ◌+◌, ◌*◌, ◌/◌, ◌%◌, bit_or, List, [], ◌∷◌, ◌++◌, Bool, ◌&&◌, leb, u16, length, if◌then◌else◌,
}

-- The sending state: the running checksum, the bytes handed to the serial line, and how many of
-- them the last flush has pushed out.
pub record Sender : Type 0 where
  pub sum1 : ℕ
  pub sum2 : ℕ
  pub sent : List ℕ
  pub flushed : ℕ

-- The virtual `put(uint8)`, which Interface implements by a write to the serial line.
unfoldable pub put_raw : Sender → ℕ → Sender
put_raw s b = record s { sent = s.sent ++ (b ∷ []) }

-- The virtual `flush()`, which Interface implements by a flush of the serial line.
unfoldable pub flush : Sender → Sender
flush s = record s { flushed = length s.sent }

unfoldable pub reset_checksum : Sender → Sender
reset_checksum s = record s { sum1 = 0; sum2 = 0 }

unfoldable pub start : Sender → Sender
unfolding put_raw reset_checksum
start s = put_raw (reset_checksum s) 0xAB

unfoldable pub finish_frame : Sender → Sender
unfolding put_raw flush
finish_frame s = flush (put_raw s 0xAC)

unfoldable pub step_checksum : Sender → ℕ → Sender
step_checksum s b =
    let s1 = (s.sum1 + b) % 255 in record s { sum1 = s1; sum2 = (s.sum2 + s1) % 255 }

unfoldable pub finish_checksum : Sender → ℕ
finish_checksum s = u16 (bit_or (s.sum2 * 256) s.sum1)

abbrev pub is_special : ℕ → Bool
is_special b = leb 0xAA b && leb b 0xAC

unfoldable pub send_byte : Sender → ℕ → Sender
unfolding put_raw step_checksum
send_byte s b = step_checksum (put_raw (if is_special b then put_raw s 0xAA else s) b) b

-- `base_pack::put`.
unfoldable pub put : Sender → ℕ → Sender
unfolding send_byte
put s b = send_byte s b

unfoldable pub gen_header : ℕ → ℕ → Sender → Sender
unfolding start put
gen_header id size s = put (put (start s) id) size

unfoldable pub to_bytes_u8 : Sender → ℕ → Sender
unfolding put
to_bytes_u8 s u = put s u

unfoldable pub to_bytes_u16 : Sender → ℕ → Sender
unfolding put
to_bytes_u16 s u = put (put s (u % 256)) (u / 256 % 256)

-- The loop of `to_bytes(etk::List<uint8, SZ>&)` over the elements.
unfoldable pub put_all : Sender → List ℕ → Sender
unfolding put
put_all s [] = s
put_all s (b ∷ bs) = put_all (put s b) bs

unfoldable pub finish : Sender → Sender
unfolding put finish_checksum finish_frame
finish s = let c = finish_checksum s in finish_frame (put (put s (c % 256)) (c / 256 % 256))
