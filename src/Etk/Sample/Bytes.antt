-- ===== src/Etk/Sample/Bytes.antt =====
-- A byte as the function from bit numbers to bits.
use pico_lan.Prelude.{
  ℕ, zero, suc, ◌+◌, ◌*◌, ◌/◌, ◌%◌, ◌^◌, ◌<◌, ◌≡◌, ◌≢◌, refl, Bool, true, false, ◌==◌, update,
  arith, ap, ◌∙◌,
}
use native.Mathlib.Nat.{pow-suc}
use pico_lan.Etk.{Bits8}

abbrev pub bit_value : Bool → ℕ
bit_value true = 1
bit_value false = 0

-- The number of the first `n` bits, lowest first, and the bits of a number.
abbrev pub value : ℕ → (ℕ → Bool) → ℕ
value zero f = 0
value (suc n) f = bit_value (f 0) + 2 * value n (λ i. f (suc i))

abbrev pub bit_at : ℕ → ℕ → Bool
bit_at v zero = v % 2 == 1
bit_at v (suc i) = bit_at (v / 2) i

pub bit_at-value : (n : ℕ) (f : ℕ → Bool) (i : ℕ) → i < n → bit_at (value n f) i ≡ f i
bit_at-value zero f i h = absurd (omega arith)
bit_at-value (suc n) f zero h = ground arith
bit_at-value (suc n) f (suc i) h =
    ap (λ v. bit_at v i) (half (f 0)) ∙ bit_at-value n (λ j. f (suc j)) i (omega arith)
  where
    half : (b : Bool) → (bit_value b + 2 * value n (λ j. f (suc j))) / 2 ≡ value n (λ j. f (suc j))
    half true = omega arith
    half false = omega arith

pub value-bit_at : (n v : ℕ) → v < 2 ^ n → value n (bit_at v) ≡ v
value-bit_at zero v h = omega arith
value-bit_at (suc n) v h = ground (arith, value-bit_at n (v / 2) (omega (arith, pow-suc 2 n)))

pub value-lt : (n : ℕ) (f : ℕ → Bool) → value n f < 2 ^ n
value-lt zero f = omega arith
value-lt (suc n) f = ground (arith, value-lt n (λ i. f (suc i)), pow-suc 2 n)

pub bit_at-zero : (i : ℕ) → bit_at 0 i ≡ false
bit_at-zero zero = refl
bit_at-zero (suc i) = bit_at-zero i

pub update_same : (f : ℕ → Bool) (i : ℕ) (b : Bool) → update f i b i ≡ b
update_same f i b = ground arith

pub update_other : (f : ℕ → Bool) (i j : ℕ) (b : Bool) → i ≢ j → update f i b j ≡ f j
update_other f i j b h = ground arith

abbrev pub bits_of : Bits8
bits_of = record {
  Rep = ℕ → Bool;
  fresh = λ i. false;
  set = λ r v. bit_at v;
  get = λ r. value 8 r;
  set_bit = λ r i b. update r i b;
  read_bit = λ r i. r i;
  get-lt = λ r. value-lt 8 r;
  get-set = λ r v h. value-bit_at 8 v h;
  read_bit-set_zero = λ r i h. bit_at-zero i;
  read_bit-set-get = λ r s i h. bit_at-value 8 s i h;
  read_bit-set_bit_same = λ r i b h. update_same r i b;
  read_bit-set_bit_other = λ r i j b h k ne. update_other r i j b ne;
}
