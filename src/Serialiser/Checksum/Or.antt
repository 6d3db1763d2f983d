-- ===== src/Serialiser/Checksum/Or.antt =====
-- `(a << 8) | b` for a byte `b`, from the digits that the native `bit_or` stands for.
use Prim.Native.Nat.{max, digits, bit_or-bitwise}
use native.Mathlib.Nat.{pow-suc}
use pico_lan.Prelude.{
  ℕ, zero, suc, ◌+◌, ◌*◌, ◌/◌, ◌%◌, ◌^◌, ◌≤◌, ◌<◌, ◌≡◌, refl, ap, ◌∙◌, bit_or, arith,
}

abbrev or_digits : ℕ → ℕ → ℕ → ℕ
or_digits fuel a b = digits (λ d. d) max fuel a b

-- As many rounds as the number is large are enough, and more change nothing.
or_digits_fuel : (m n a b : ℕ) → a ≤ m → a ≤ n → or_digits m a b ≡ or_digits n a b
or_digits_fuel zero zero a b h k = refl
or_digits_fuel zero (suc n) zero b h k = refl
or_digits_fuel zero (suc n) (suc a) b h k = absurd (omega arith)
or_digits_fuel (suc m) zero zero b h k = refl
or_digits_fuel (suc m) zero (suc a) b h k = absurd (omega arith)
or_digits_fuel (suc m) (suc n) zero b h k = refl
or_digits_fuel (suc m) (suc n) (suc a) b h k =
    omega (arith, or_digits_fuel m n (suc a / 2) (b / 2) (omega arith) (omega arith))

zero-bit_or : (b : ℕ) → bit_or 0 b ≡ b
zero-bit_or b = bit_or-bitwise 0 b

-- The lowest digit of a disjunction, and the rest.
bit_or_halves : (a b : ℕ) → bit_or a b ≡ bit_or (a / 2) (b / 2) * 2 + max (a % 2) (b % 2)
bit_or_halves zero b = omega (arith, zero-bit_or b, zero-bit_or (b / 2))
bit_or_halves (suc a) b = omega (
  arith,
  bit_or-bitwise (suc a) b,
  bit_or-bitwise (suc a / 2) (b / 2),
  or_digits_fuel a (suc a / 2) (suc a / 2) (b / 2) (omega arith) (omega arith),
)

bit_or-zero_fuel : (n a : ℕ) → a ≤ n → bit_or a 0 ≡ a
bit_or-zero_fuel n zero h = zero-bit_or 0
bit_or-zero_fuel zero (suc a) h = absurd (omega arith)
bit_or-zero_fuel (suc n) (suc a) h =
    omega (arith, bit_or_halves (suc a) 0, bit_or-zero_fuel n (suc a / 2) (omega arith))

bit_or_shifted : (k a b : ℕ) → b < 2 ^ k → bit_or (a * 2 ^ k) b ≡ a * 2 ^ k + b
bit_or_shifted zero a b h =
    let none_left : b ≡ 0 = omega arith in
    rw none_left (bit_or-zero_fuel (a * 1) (a * 1) (omega arith) ∙ omega arith)
bit_or_shifted (suc k) a b h =
    let twice : a * 2 ^ suc k ≡ a * 2 ^ k * 2 = omega (arith, ap (λ t. a * t) (pow-suc 2 k)) in
    let half : a * 2 ^ k * 2 / 2 ≡ a * 2 ^ k = omega arith in
    rw twice (
      bit_or_halves (a * 2 ^ k * 2) b
      ∙ rw half (omega (arith, bit_or_shifted k a (b / 2) (omega (arith, pow-suc 2 k)))))

pub bit_or_bytes : (a b : ℕ) → b < 256 → bit_or (a * 256) b ≡ a * 256 + b
bit_or_bytes a b h = bit_or_shifted 8 a b h
