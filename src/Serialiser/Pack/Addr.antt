-- ===== src/Serialiser/Pack/Addr.antt =====
-- serialiser.h, class addr_pack.
use pico_lan.Prelude.{ℕ, zero, suc, ◌+◌, Option, some, ◌>>=◌}
use pico_lan.Etk.{Etk}
use pico_lan.AddressField.{AddressField, new, get_byte, get_num_bytes}
use pico_lan.Serialiser.Sender.{Sender, gen_header, put, finish}
use pico_lan.Serialiser.Reader.{Window, read_address_field}

module _ ⦃E : Etk⦄ where
  pub record AddrPack : Type 0 where
    pub address_field : AddressField

  abbrev pub id : ℕ
  id = 2

  -- `sizeof(address_field)`: 32 one-byte bit fields.
  abbrev pub size : ℕ
  size = 32

  -- The loop of `to_bytes(AddressField)`, with `n` rounds left.
  unfoldable pub put_bitfields : ℕ → ℕ → AddressField → Sender → Sender
  put_bitfields zero i f s = s
  put_bitfields (suc n) i f s = put_bitfields n (i + 1) f (put s (get_byte f i))

  unfoldable pub to_bytes : AddressField → Sender → Sender
  unfolding put_bitfields
  to_bytes f s = put_bitfields get_num_bytes 0 f s

  unfoldable pub send : AddrPack → Sender → Sender
  unfolding gen_header to_bytes finish
  send p s = finish (to_bytes p.address_field (gen_header id size s))

  -- The field of a new pack is a new, empty address field.
  unfoldable pub from_bytes : Window → Option AddrPack
  unfolding read_address_field
  from_bytes w = do (f, pos1) ← read_address_field w 0 new; some (record { address_field = f })
