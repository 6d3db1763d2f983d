-- ===== src/AddressField/Copy.antt =====
-- An address field that is sent byte by byte and received into a new field holds the same addresses.
use pico_lan.Prelude.{ℕ, zero, suc, ◌+◌, ◌/◌, ◌%◌, ◌≤◌, ◌<◌, ◌≡◌, refl, ap, ◌∙◌, ℕ_discrete, arith}
use pico_lan.Etk.{Etk}
use pico_lan.AddressField.{AddressField, new, get_byte, set_byte, get_addr}

module _ ⦃E : Etk⦄ where
  open E.bits use {set, get, read_bit, read_bit-set-get}

  -- `n` bytes of `f`, from byte `i` on, written over those of `g`.
  unfoldable pub copy : ℕ → ℕ → AddressField → AddressField → AddressField
  copy zero i f g = g
  copy (suc n) i f g = copy n (i + 1) f (set_byte g i (get_byte f i))

  copy_before :
      (n i j : ℕ) (f g : AddressField) → i + n ≤ 32 → j < i → (copy n i f g).bits j ≡ g.bits j
  unfolding copy set_byte
  copy_before zero i j f g h p = refl
  copy_before (suc n) i j f g h p =
      copy_before n (i + 1) j f _ (omega arith) (omega arith) ∙ ground arith

  copy_bits :
      (n i k : ℕ) (f g : AddressField)
      → i + n ≤ 32
      → i ≤ k
      → k < i + n
      → (copy n i f g).bits k ≡ set (g.bits k) (get (f.bits k))
  unfolding copy set_byte get_byte
  copy_bits zero i k f g h p q = absurd (omega arith)
  copy_bits (suc n) i k f g h p q = elim (ℕ_discrete k i) [
    | yes e ↦
        copy_before n (i + 1) k f (set_byte g i (get_byte f i)) (omega arith) (omega arith)
        ∙ ground arith
    | no ne ↦
        copy_bits n (i + 1) k f (set_byte g i (get_byte f i)) (omega arith) (omega arith)
          (omega arith)
        ∙ ground arith
  ]

  -- Every address of `f`, and no other, is in the copy.
  pub get_addr-copy :
      (f : AddressField) (addr : ℕ) → addr < 256 → get_addr (copy 32 0 f new) addr ≡ get_addr f addr
  unfolding get_addr
  get_addr-copy f addr h =
      ap (λ r. read_bit r (addr % 8))
        (copy_bits 32 0 (addr / 8) f new (omega arith) (omega arith) (omega arith))
      ∙ read_bit-set-get _ (f.bits (addr / 8)) (addr % 8) (omega arith)
