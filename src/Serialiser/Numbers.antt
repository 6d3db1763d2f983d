-- ===== src/Serialiser/Numbers.antt =====
-- serialiser.h, the unions u16b, u32b and u64b, and the overloads of `to_bytes` and `from_bytes` of
-- `base_pack` for the numbers. The unions are little-endian.
pub mod Fields
use pico_lan.Prelude.{ℕ, zero, suc, ◌+◌, ◌*◌, ◌/◌, ◌%◌, Option, some, ◌>>=◌, List, [], ◌∷◌}
use pico_lan.Prelude.Int.{ℤ, pos, negsuc, pattern, signed}
use pico_lan.Serialiser.Sender.{Sender, put, to_bytes_u8, to_bytes_u16}
use pico_lan.Serialiser.Reader.{Window, read_u8, read_u16}

-- `ub.bytes[k]` when `ub.u` is `u`.
abbrev pub union_byte : ℕ → ℕ → ℕ
union_byte u zero = u % 256
union_byte u (suc k) = union_byte (u / 256) k

-- `ub.u` when `ub.bytes` are these.
abbrev pub union_value : List ℕ → ℕ
union_value [] = 0
union_value (b ∷ bs) = b + union_value bs * 256

unfoldable pub to_bytes_u32 : Sender → ℕ → Sender
unfolding put
to_bytes_u32 s u =
    put (put (put (put s (union_byte u 0)) (union_byte u 1)) (union_byte u 2)) (union_byte u 3)

unfoldable pub to_bytes_u64 : Sender → ℕ → Sender
unfolding put
to_bytes_u64 s u =
    let s4 =
      put (put (put (put s (union_byte u 0)) (union_byte u 1)) (union_byte u 2)) (union_byte u 3) in
    put (put (put (put s4 (union_byte u 4)) (union_byte u 5)) (union_byte u 6)) (union_byte u 7)

-- `put(i)`, where the int8 becomes a uint8.
unfoldable pub to_bytes_i8 : Sender → ℤ → Sender
unfolding put
to_bytes_i8 s i = put s (pattern 8 i)

unfoldable pub to_bytes_i16 : Sender → ℤ → Sender
unfolding put
to_bytes_i16 s i = let u = pattern 16 i in put (put s (union_byte u 0)) (union_byte u 1)

unfoldable pub to_bytes_i32 : Sender → ℤ → Sender
unfolding put
to_bytes_i32 s i =
    let u = pattern 32 i in
    put (put (put (put s (union_byte u 0)) (union_byte u 1)) (union_byte u 2)) (union_byte u 3)

unfoldable pub to_bytes_i64 : Sender → ℤ → Sender
unfolding put
to_bytes_i64 s i =
    let u = pattern 64 i in
    let s4 =
      put (put (put (put s (union_byte u 0)) (union_byte u 1)) (union_byte u 2)) (union_byte u 3) in
    put (put (put (put s4 (union_byte u 4)) (union_byte u 5)) (union_byte u 6)) (union_byte u 7)

-- `n` times `ub.bytes[i] = bytes[pos++]`.
unfoldable pub read_union : Window → ℕ → ℕ → Option (List ℕ × ℕ)
unfolding read_u8
read_union w zero p = some ([], p)
read_union w (suc n) p = do (b, p1) ← read_u8 w p; (bs, p2) ← read_union w n p1; some (b ∷ bs, p2)

unfoldable pub read_u32 : Window → ℕ → Option (ℕ × ℕ)
unfolding read_union
read_u32 w p = do (bs, p1) ← read_union w 4 p; some (union_value bs, p1)

unfoldable pub read_u64 : Window → ℕ → Option (ℕ × ℕ)
unfolding read_union
read_u64 w p = do (bs, p1) ← read_union w 8 p; some (union_value bs, p1)

unfoldable pub read_i8 : Window → ℕ → Option (ℤ × ℕ)
unfolding read_u8
read_i8 w p = do (b, p1) ← read_u8 w p; some (signed 8 b, p1)

unfoldable pub read_i16 : Window → ℕ → Option (ℤ × ℕ)
unfolding read_union
read_i16 w p = do (bs, p1) ← read_union w 2 p; some (signed 16 (union_value bs), p1)

unfoldable pub read_i32 : Window → ℕ → Option (ℤ × ℕ)
unfolding read_union
read_i32 w p = do (bs, p1) ← read_union w 4 p; some (signed 32 (union_value bs), p1)

unfoldable pub read_i64 : Window → ℕ → Option (ℤ × ℕ)
unfolding read_union
read_i64 w p = do (bs, p1) ← read_union w 8 p; some (signed 64 (union_value bs), p1)

-- The type of a field, by which C++ chooses the overload.
pub data Kind : Type 0 where
  uint8 int8 uint16 int16 uint32 int32 uint64 int64 : Kind

unfoldable pub to_bytes : Kind → Sender → ℤ → Sender
unfolding to_bytes_u8 to_bytes_u16 to_bytes_u32 to_bytes_u64 to_bytes_i8 to_bytes_i16 to_bytes_i32
    to_bytes_i64
to_bytes uint8 s x = to_bytes_u8 s (pattern 8 x)
to_bytes int8 s x = to_bytes_i8 s x
to_bytes uint16 s x = to_bytes_u16 s (pattern 16 x)
to_bytes int16 s x = to_bytes_i16 s x
to_bytes uint32 s x = to_bytes_u32 s (pattern 32 x)
to_bytes int32 s x = to_bytes_i32 s x
to_bytes uint64 s x = to_bytes_u64 s (pattern 64 x)
to_bytes int64 s x = to_bytes_i64 s x

abbrev pub unsigned : Option (ℕ × ℕ) → Option (ℤ × ℕ)
unsigned o = do (n, p1) ← o; some (pos n, p1)

unfoldable pub from_bytes : Kind → Window → ℕ → Option (ℤ × ℕ)
unfolding read_u8 read_u16 read_u32 read_u64 read_i8 read_i16 read_i32 read_i64
from_bytes uint8 w p = unsigned (read_u8 w p)
from_bytes int8 w p = read_i8 w p
from_bytes uint16 w p = unsigned (read_u16 w p)
from_bytes int16 w p = read_i16 w p
from_bytes uint32 w p = unsigned (read_u32 w p)
from_bytes int32 w p = read_i32 w p
from_bytes uint64 w p = unsigned (read_u64 w p)
from_bytes int64 w p = read_i64 w p
