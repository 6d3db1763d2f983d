-- ===== src/AddressField/Laws.antt =====
-- The address field is a set of addresses: what `set_addr` changes, and what it leaves.
use pico_lan.Prelude.{ℕ, ◌/◌, ◌%◌, ◌≡◌, Bool, false, ◌==◌, if◌then◌else◌, arith}
use pico_lan.Etk.{Etk}
use pico_lan.AddressField.{AddressField, new, set_addr, get_addr}

module _ ⦃E : Etk⦄ where
  open E.bits use {read_bit, read_bit-set_zero, read_bit-set_bit_same, read_bit-set_bit_other}

  -- A new field holds no address.
  pub get_addr-new : (addr : ℕ) → get_addr new addr ≡ false
  unfolding get_addr new
  get_addr-new addr = read_bit-set_zero _ (addr % 8) (omega arith)

  -- After `set_addr(addr, b)`, `get_addr` answers `b` at `addr`, and what it answered before at
  -- every other address.
  pub get_addr-set_addr :
      (f : AddressField) (addr other : ℕ) (b : Bool)
      → get_addr (set_addr f addr b) other ≡ (if other == addr then b else get_addr f other)
  unfolding get_addr set_addr
  get_addr-set_addr f addr other b = ground (
    arith,
    read_bit-set_bit_same (f.bits (addr / 8)) (addr % 8) b,
    read_bit-set_bit_other (f.bits (addr / 8)) (addr % 8) (other % 8) b,
  )
