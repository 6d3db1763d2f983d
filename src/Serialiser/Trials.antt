-- ===== src/Serialiser/Trials.antt =====
-- Fields of each type written and read at concrete values.
use pico_lan.Prelude.{
  ℕ, ◌+◌, ◌^◌, ◌≡◌, refl, some, List, [], ◌>>=◌, ◌∷◌, fill, update, ◌==◌, ◌≢◌, ◌<◌, Bool, true,
  false, arith,
}
use pico_lan.Prelude.Int.{ℤ, negsuc}
use pico_lan.Serialiser.Sender.{Sender, put_all}
use pico_lan.Serialiser.Reader.{Window}
use pico_lan.Serialiser.Numbers.{int32, to_bytes, from_bytes}
use pico_lan.Serialiser.Numbers.Fields.{Holds, field_bytes, word_bytes, from_bytes-to_bytes}
use pico_lan.Serialiser.Values.{
  FloatBits, StaticString, letters, read_float, read_string, to_bytes_float, to_bytes_string,
  read_float-to_bytes_float, read_string-to_bytes_string,
}

abbrev quiet : Sender
quiet = record { sum1 = 0; sum2 = 0; sent = []; flushed = 0 }

-- Ten bytes, of which those from 3 on are these.
abbrev buffer : List ℕ → Window
buffer bs = record { at = fill (λ i. 0) 3 bs; len = 10 }

-- -2 as an int32.
abbrev minus_two : ℤ
minus_two = negsuc 1

minus_two_there : Holds (buffer (0xFE ∷ 0xFF ∷ 0xFF ∷ 0xFF ∷ [])) 3 (field_bytes int32 minus_two)
unfolding fill
minus_two_there = record { there = refl; within = omega arith; small = omega arith }

from_bytes-to_bytes_example :
    (to_bytes int32 quiet minus_two ≡ put_all quiet (field_bytes int32 minus_two))
    × (from_bytes int32 (buffer (0xFE ∷ 0xFF ∷ 0xFF ∷ 0xFF ∷ [])) 3 ≡ some (minus_two, 7))
from_bytes-to_bytes_example =
    from_bytes-to_bytes int32 minus_two quiet (buffer (0xFE ∷ 0xFF ∷ 0xFF ∷ 0xFF ∷ [])) 3
      (omega arith) minus_two_there

-- The floats 0.0 and 1.0.
abbrev bits_of : Bool → ℕ
bits_of false = 0
bits_of true = 0x3F800000

bits_of-lt : (f : Bool) → bits_of f < 2 ^ 32
bits_of-lt false = omega arith
bits_of-lt true = omega arith

bits_of_lem : (f : Bool) → (bits_of f == 0x3F800000) ≡ f
bits_of_lem false = refl
bits_of_lem true = refl

abbrev floats : FloatBits
floats = record {
  Rep = Bool;
  bits = bits_of;
  of_bits = λ u. u == 0x3F800000;
  bits-lt = bits_of-lt;
  of_bits-bits = bits_of_lem;
}

one_read : read_float floats (buffer (0 ∷ 0 ∷ 0x80 ∷ 0x3F ∷ [])) 3 ≡ some (true, 7)
unfolding read_float fill
one_read = refl

one_there : Holds (buffer (0 ∷ 0 ∷ 0x80 ∷ 0x3F ∷ [])) 3 (word_bytes 4 (floats.bits true))
unfolding fill
one_there = record { there = refl; within = omega arith; small = omega arith }

read_float-to_bytes_float_example :
    (to_bytes_float floats quiet true ≡ put_all quiet (word_bytes 4 (floats.bits true)))
    × (read_float floats (buffer (0 ∷ 0 ∷ 0x80 ∷ 0x3F ∷ [])) 3 ≡ some (true, 7))
read_float-to_bytes_float_example =
    read_float-to_bytes_float floats true quiet (buffer (0 ∷ 0 ∷ 0x80 ∷ 0x3F ∷ [])) 3 one_there

update-same : (s : ℕ → ℕ) (i b : ℕ) → update s i b i ≡ b
update-same s i b = ground arith

update-other : (s : ℕ → ℕ) (i j b : ℕ) → i ≢ j → update s i b j ≡ s j
update-other s i j b h = ground arith

abbrev strings : StaticString
strings = record {
  Rep = ℕ → ℕ;
  get = λ s i. s i;
  set = λ s i b. update s i b;
  get-set_same = update-same;
  get-set_other = update-other;
}

-- "Hey", and a string of which nothing is known.
abbrev hey : ℕ → ℕ
hey = fill (λ i. 0) 0 (72 ∷ 101 ∷ 121 ∷ [])

abbrev blank : ℕ → ℕ
blank i = i + 1

hey_read :
    (do
      (got, p) ← read_string strings 3 (buffer (72 ∷ 101 ∷ 121 ∷ [])) 3 blank
      some (letters strings got 0 3))
    ≡ some (letters strings hey 0 3)
unfolding read_string fill
hey_read = refl

hey_there : Holds (buffer (72 ∷ 101 ∷ 121 ∷ [])) 3 (letters strings hey 0 3)
unfolding fill
hey_there = record { there = refl; within = omega arith; small = omega arith }

read_string-to_bytes_string_example :
    (to_bytes_string strings 3 quiet hey ≡ put_all quiet (letters strings hey 0 3))
    × ((got : ℕ → ℕ) × (read_string strings 3 (buffer (72 ∷ 101 ∷ 121 ∷ [])) 3 blank
          ≡ some (got, 6))
        × (letters strings got 0 3 ≡ letters strings hey 0 3))
read_string-to_bytes_string_example =
    read_string-to_bytes_string strings 3 hey blank quiet (buffer (72 ∷ 101 ∷ 121 ∷ [])) 3 hey_there
