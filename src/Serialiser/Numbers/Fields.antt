-- ===== src/Serialiser/Numbers/Fields.antt =====
-- A number that is written as a field is read back from the bytes of the field.
use pico_lan.Prelude.{
  ℕ, zero, suc, ◌+◌, ◌-◌, ◌*◌, ◌/◌, ◌%◌, ◌^◌, ◌≤◌, ◌<◌, ◌≡◌, refl, sym, ap, ap₂, subst, ◌∙◌, some,
  List, [], ◌∷◌, length, slice, arith,
}
use pico_lan.Prelude.Int.{ℤ, pos, negsuc, pattern, signed}
use pico_lan.Serialiser.Sender.{Sender, put, put_all, to_bytes_u8, to_bytes_u16}
use pico_lan.Serialiser.Reader.{Window, read_u8, read_u16}
use pico_lan.Serialiser.Numbers.{
  union_value, read_union, read_u32, read_u64, read_i8, read_i16, read_i32, read_i64, Kind, uint8,
  int8, uint16, int16, uint32, int32, uint64, int64, to_bytes, to_bytes_u32, to_bytes_u64,
  to_bytes_i8, to_bytes_i16, to_bytes_i32, to_bytes_i64, from_bytes,
}

-- The bytes of a word of `n` bytes, the low one first.
abbrev pub word_bytes : ℕ → ℕ → List ℕ
word_bytes zero u = []
word_bytes (suc n) u = (u % 256) ∷ word_bytes n (u / 256)

abbrev pub width : Kind → ℕ
width uint8 = 1
width int8 = 1
width uint16 = 2
width int16 = 2
width uint32 = 4
width int32 = 4
width uint64 = 8
width int64 = 8

-- The values of a kind.
abbrev Unsigned : ℕ → ℤ → Type 0
Unsigned w (pos n) = n < 2 ^ w
Unsigned w (negsuc n) = ⊥

abbrev Signed : ℕ → ℤ → Type 0
Signed w (pos n) = n < 2 ^ (w - 1)
Signed w (negsuc n) = n < 2 ^ (w - 1)

abbrev pub InRange : Kind → ℤ → Type 0
InRange uint8 x = Unsigned 8 x
InRange int8 x = Signed 8 x
InRange uint16 x = Unsigned 16 x
InRange int16 x = Signed 16 x
InRange uint32 x = Unsigned 32 x
InRange int32 x = Signed 32 x
InRange uint64 x = Unsigned 64 x
InRange int64 x = Signed 64 x

-- The bytes of a field: the pattern of the value, low byte first.
abbrev pub field_bytes : Kind → ℤ → List ℕ
field_bytes k x = word_bytes (width k) (pattern (8 * width k) x)

-- The window has these bytes at this position, and `pos` does not wrap round there.
pub record Holds (w : Window) (p : ℕ) (bs : List ℕ) : Type 0 where
  pub there : slice w.at p (length bs) ≡ bs
  pub within : p + length bs ≤ w.len
  pub small : w.len < 65536

length-word_bytes : (n u : ℕ) → length (word_bytes n u) ≡ n
length-word_bytes zero u = refl
length-word_bytes (suc n) u = ap suc (length-word_bytes n (u / 256))

pattern_low : (x : ℤ) → (pattern 8 x < 256) → pattern 8 x % 256 ≡ pattern 8 x
pattern_low x h = omega arith

pattern-InRange : (k : Kind) (x : ℤ) → InRange k x → pattern (8 * width k) x < 2 ^ (8 * width k)
pattern-InRange uint8 x h = ground arith
pattern-InRange int8 x h = ground arith
pattern-InRange uint16 x h = ground arith
pattern-InRange int16 x h = ground arith
pattern-InRange uint32 x h = ground arith
pattern-InRange int32 x h = ground arith
pattern-InRange uint64 x h = ground arith
pattern-InRange int64 x h = ground arith

written :
    (k : Kind) (x : ℤ) (s : Sender) → InRange k x → to_bytes k s x ≡ put_all s (field_bytes k x)
unfolding to_bytes to_bytes_u8 to_bytes_i8 to_bytes_u16 to_bytes_i16 to_bytes_u32 to_bytes_i32
    to_bytes_u64 to_bytes_i64 put_all
written uint8 x s h = ap (put s) (sym (pattern_low x (pattern-InRange uint8 x h)))
written int8 x s h = ap (put s) (sym (pattern_low x (pattern-InRange int8 x h)))
written uint16 x s h = refl
written int16 x s h = refl
written uint32 x s h = refl
written int32 x s h = refl
written uint64 x s h = refl
written int64 x s h = refl

pub read_u8_lem :
    (w : Window) (p : ℕ) → p < w.len → w.len < 65536 → read_u8 w p ≡ some (w.at p, p + 1)
unfolding read_u8
read_u8_lem w p h small = ground arith

pub read_union_lem :
    (n : ℕ) (w : Window) (p : ℕ)
    → p + n ≤ w.len
    → w.len < 65536
    → read_union w n p ≡ some (slice w.at p n, p + n)
unfolding read_union
read_union_lem zero w p h small = ap (λ q. some ([], q)) (omega arith)
read_union_lem (suc n) w p h small = rw (read_u8_lem w p (omega arith) small) (
    rw (read_union_lem n w (p + 1) (omega arith) small)
      (ap (λ q. some (slice w.at p (suc n), q)) (omega arith)))

-- A word that `n` bytes can hold.
abbrev pub FitsIn : ℕ → ℕ → Type 0
FitsIn zero u = u ≡ 0
FitsIn (suc n) u = FitsIn n (u / 256)

pub union_value-word_bytes : (n u : ℕ) → FitsIn n u → union_value (word_bytes n u) ≡ u
union_value-word_bytes zero u h = sym h
union_value-word_bytes (suc n) u h = omega (arith, union_value-word_bytes n (u / 256) h)

-- The value that the bytes of a field stand for.
read_back :
    (k : Kind) (x : ℤ) → InRange k x → union_value (field_bytes k x) ≡ pattern (8 * width k) x
read_back uint8 x h =
    union_value-word_bytes 1 (pattern 8 x) (omega (arith, pattern-InRange uint8 x h))
read_back int8 x h =
    union_value-word_bytes 1 (pattern 8 x) (omega (arith, pattern-InRange int8 x h))
read_back uint16 x h =
    union_value-word_bytes 2 (pattern 16 x) (omega (arith, pattern-InRange uint16 x h))
read_back int16 x h =
    union_value-word_bytes 2 (pattern 16 x) (omega (arith, pattern-InRange int16 x h))
read_back uint32 x h =
    union_value-word_bytes 4 (pattern 32 x) (omega (arith, pattern-InRange uint32 x h))
read_back int32 x h =
    union_value-word_bytes 4 (pattern 32 x) (omega (arith, pattern-InRange int32 x h))
read_back uint64 x h =
    union_value-word_bytes 8 (pattern 64 x) (omega (arith, pattern-InRange uint64 x h))
read_back int64 x h =
    union_value-word_bytes 8 (pattern 64 x) (omega (arith, pattern-InRange int64 x h))

-- What the pattern of a value of this kind stands for.
abbrev decoded : Kind → ℕ → ℤ
decoded uint8 u = pos u
decoded int8 u = signed 8 u
decoded uint16 u = pos u
decoded int16 u = signed 16 u
decoded uint32 u = pos u
decoded int32 u = signed 32 u
decoded uint64 u = pos u
decoded int64 u = signed 64 u

decoded-pattern : (k : Kind) (x : ℤ) → InRange k x → decoded k (pattern (8 * width k) x) ≡ x
decoded-pattern uint8 x h = ground arith
decoded-pattern int8 x h = ground arith
decoded-pattern uint16 x h = ground arith
decoded-pattern int16 x h = ground arith
decoded-pattern uint32 x h = ground arith
decoded-pattern int32 x h = ground arith
decoded-pattern uint64 x h = ground arith
decoded-pattern int64 x h = ground arith

-- Reading a field of `k` is decoding the union of as many bytes.
from_bytes_lem :
    (k : Kind) (w : Window) (p : ℕ)
    → p + width k ≤ w.len
    → w.len < 65536
    → from_bytes k w p ≡ some (decoded k (union_value (slice w.at p (width k))), p + width k)
unfolding from_bytes read_u16 read_u32 read_u64 read_i8 read_i16 read_i32 read_i64
from_bytes_lem uint8 w p h small =
    rw (read_u8_lem w p (omega arith) small) (ap (λ u. some (pos u, p + 1)) (omega arith))
from_bytes_lem int8 w p h small =
    rw (read_u8_lem w p (omega arith) small) (ap (λ u. some (signed 8 u, p + 1)) (omega arith))
from_bytes_lem uint16 w p h small = rw (read_u8_lem w p (omega arith) small) (
    rw (read_u8_lem w (p + 1) (omega arith) small)
      (ap₂ (λ u q. some (pos u, q)) (omega arith) (omega arith)))
from_bytes_lem int16 w p h small = rw (read_union_lem 2 w p h small) refl
from_bytes_lem uint32 w p h small = rw (read_union_lem 4 w p h small) refl
from_bytes_lem int32 w p h small = rw (read_union_lem 4 w p h small) refl
from_bytes_lem uint64 w p h small = rw (read_union_lem 8 w p h small) refl
from_bytes_lem int64 w p h small = rw (read_union_lem 8 w p h small) refl

-- A number of any of the eight types, within the range of its type, is written as its bytes in two's
-- complement, the low one first; and where a buffer of less than 65536 bytes holds these bytes, the
-- overload of `from_bytes` for the same type reads the number and moves the position behind them.
pub from_bytes-to_bytes :
    (k : Kind) (x : ℤ) (s : Sender) (w : Window) (p : ℕ)
    → InRange k x
    → Holds w p (field_bytes k x)
    → (to_bytes k s x ≡ put_all s (field_bytes k x)) × (from_bytes k w p ≡ some (x, p + width k))
from_bytes-to_bytes k x s w p h held =
    let n : length (field_bytes k x) ≡ width k =
      length-word_bytes (width k) (pattern (8 * width k) x) in
    (
      written k x s h,
      from_bytes_lem k w p (subst (λ m. p + m ≤ w.len) n held.within) held.small
          ∙ ap (λ u. some (decoded k u, p + width k))
              (ap (λ m. union_value (slice w.at p m)) (sym n)
                ∙ ap union_value held.there
                ∙ read_back k x h)
          ∙ ap (λ y. some (y, p + width k)) (decoded-pattern k x h),
    )
