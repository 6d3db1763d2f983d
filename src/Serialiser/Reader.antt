-- ===== src/Serialiser/Reader.antt =====
-- serialiser.h, the `from_bytes` overloads of `base_pack`: each reads a field from an array of
-- bytes at `pos` and moves `pos` on. Multi-byte fields are little-endian.
use pico_lan.Prelude.{ℕ, zero, suc, ◌+◌, ◌*◌, Option, none, some, ◌>>=◌, ltb, u16, if◌then◌else◌}
use pico_lan.Etk.{Etk}
use pico_lan.AddressField.{AddressField, set_byte, get_num_bytes}

-- A `uint8*` into an array: what it points at, and how many bytes there are up to the array's end.
pub record Window : Type 0 where
  pub at : ℕ → ℕ
  pub len : ℕ

-- A read of `bytes[pos++]`, where `pos` is a uint16; `none` is a read behind the array.
unfoldable pub read_u8 : Window → ℕ → Option (ℕ × ℕ)
read_u8 w pos = if ltb pos w.len then some (w.at pos, u16 (pos + 1)) else none

unfoldable pub read_u16 : Window → ℕ → Option (ℕ × ℕ)
unfolding read_u8
read_u16 w pos = do
  (b0, pos1) ← read_u8 w pos
  (b1, pos2) ← read_u8 w pos1
  some (b0 + b1 * 256, pos2)

module _ ⦃E : Etk⦄ where
  -- `for(i = 0; i < sz; i++) lst.append(bytes[pos++])`, with `n` rounds left.
  unfoldable pub read_elements : Window → ℕ → ℕ → E.payload.Rep → Option (E.payload.Rep × ℕ)
  unfolding read_u8
  read_elements w zero pos l = some (l, pos)
  read_elements w (suc n) pos l = do
    (b, pos') ← read_u8 w pos
    read_elements w n pos' (E.payload.append l b)

  unfoldable pub read_list : Window → ℕ → E.payload.Rep → Option (E.payload.Rep × ℕ)
  unfolding read_u8 read_elements
  read_list w pos l = do (sz, pos') ← read_u8 w pos; read_elements w sz pos' l

  -- `for(i = 0; i < len; i++) af.get_bitfield(i).set(bytes[pos++])`, with `n` rounds left.
  unfoldable pub read_bitfields : Window → ℕ → ℕ → ℕ → AddressField → Option (AddressField × ℕ)
  unfolding read_u8
  read_bitfields w zero i pos f = some (f, pos)
  read_bitfields w (suc n) i pos f = do
    (b, pos') ← read_u8 w pos
    read_bitfields w n (i + 1) pos' (set_byte f i b)

  unfoldable pub read_address_field : Window → ℕ → AddressField → Option (AddressField × ℕ)
  unfolding read_bitfields
  read_address_field w pos f = read_bitfields w get_num_bytes 0 pos f
