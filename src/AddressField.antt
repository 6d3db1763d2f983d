-- ===== src/AddressField.antt =====
-- address_field.h: a set of addresses, one bit for each of the 256, in 32 bytes.
pub mod Laws
pub mod Copy
mod Tests
use pico_lan.Prelude.{ℕ, ◌/◌, ◌%◌, Bool, update}
use pico_lan.Etk.{Etk}

module _ ⦃E : Etk⦄ where
  open E.bits use {Rep, fresh, set, get, set_bit, read_bit}

  -- `bits[NUM_BYTES]`. Every access below is at an index under 32, as `addr` is a uint8.
  pub record AddressField : Type 0 where
    pub bits : ℕ → Rep

  abbrev pub num_bytes : ℕ
  num_bytes = 32

  abbrev pub get_num_bytes : ℕ
  get_num_bytes = num_bytes

  -- The constructor: `bits[i].set(0)` for each i.
  unfoldable pub new : AddressField
  new = record { bits = λ i. set fresh 0 }

  unfoldable pub set_addr : AddressField → ℕ → Bool → AddressField
  set_addr f addr b = record f {
    bits = update f.bits (addr / 8) (set_bit (f.bits (addr / 8)) (addr % 8) b);
  }

  unfoldable pub get_addr : AddressField → ℕ → Bool
  get_addr f addr = read_bit (f.bits (addr / 8)) (addr % 8)

  -- `get_bitfield(a).get()` and `get_bitfield(a).set(v)`.
  unfoldable pub get_byte : AddressField → ℕ → ℕ
  get_byte f a = get (f.bits (a % num_bytes))

  unfoldable pub set_byte : AddressField → ℕ → ℕ → AddressField
  set_byte f a v = record f {
    bits = update f.bits (a % num_bytes) (set (f.bits (a % num_bytes)) v);
  }
