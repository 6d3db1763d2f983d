-- ===== src/Serialiser/Values.antt =====
-- serialiser.h, the overloads of `to_bytes` and `from_bytes` of `base_pack` for float and for
-- etk::StaticString. The representation of a float belongs to the machine and StaticString to the
-- etk library, so both are parameters.
use pico_lan.Prelude.{
  ℕ, zero, suc, ◌+◌, ◌^◌, ◌≤◌, ◌<◌, ◌≡◌, ◌≢◌, refl, sym, ap, ap₂, subst, ◌∙◌, Option, some, ◌>>=◌,
  List, ◌∷◌, length, slice, length-slice, arith,
}
use pico_lan.Serialiser.Sender.{Sender, put, put_all}
use pico_lan.Serialiser.Reader.{Window, read_u8}
use pico_lan.Serialiser.Numbers.{union_byte, union_value, read_union}
use pico_lan.Serialiser.Numbers.Fields.{
  word_bytes, Holds, read_union_lem, read_u8_lem, union_value-word_bytes,
}

-- A float and the 32 bits that stand for it, as the members `f` and `u` of u32b share them.
pub record FloatBits : Type 1 where
  pub Rep : Type 0
  pub bits : Rep → ℕ
  pub of_bits : ℕ → Rep
  pub bits-lt : (f : Rep) → bits f < 2 ^ 32
  pub of_bits-bits : (f : Rep) → of_bits (bits f) ≡ f

-- etk::StaticString<SZ>: an array of characters, with `s[i]` read and written.
pub record StaticString : Type 1 where
  pub Rep : Type 0
  pub get : Rep → ℕ → ℕ
  pub set : Rep → ℕ → ℕ → Rep
  pub get-set_same : (s : Rep) (i b : ℕ) → get (set s i b) i ≡ b
  pub get-set_other : (s : Rep) (i j b : ℕ) → i ≢ j → get (set s i b) j ≡ get s j

module _ (F : FloatBits) where
  -- `for(i = 0; i < 4; i++) put(ub.bytes[i])`, with `n` rounds left.
  unfoldable pub put_union : Sender → ℕ → ℕ → ℕ → Sender
  unfolding put
  put_union s u i zero = s
  put_union s u i (suc n) = put_union (put s (union_byte u i)) u (i + 1) n

  unfoldable pub to_bytes_float : Sender → F.Rep → Sender
  unfolding put_union
  to_bytes_float s f = put_union s (F.bits f) 0 4

  unfoldable pub read_float : Window → ℕ → Option (F.Rep × ℕ)
  unfolding read_union
  read_float w p = do (bs, p1) ← read_union w 4 p; some (F.of_bits (union_value bs), p1)

  -- A float is written as the four bytes of its bits, the low one first, and read back from them where
  -- a buffer of less than 65536 bytes holds them. The bits are 32 and determine the float.
  pub read_float-to_bytes_float :
      (f : F.Rep) (s : Sender) (w : Window) (p : ℕ)
      → Holds w p (word_bytes 4 (F.bits f))
      → (to_bytes_float s f ≡ put_all s (word_bytes 4 (F.bits f)))
        × (read_float w p ≡ some (f, p + 4))
  unfolding to_bytes_float put_union put_all read_float
  read_float-to_bytes_float f s w p held = (
    refl,
    rw (read_union_lem 4 w p held.within held.small) (
        ap (λ u. some (F.of_bits u, p + 4))
          (ap union_value held.there
            ∙ union_value-word_bytes 4 (F.bits f) (omega (arith, F.bits-lt f)))
        ∙ ap (λ g. some (g, p + 4)) (F.of_bits-bits f)),
  )

module _ (T : StaticString) where
  -- The characters of a string from `i` on.
  abbrev pub letters : T.Rep → ℕ → ℕ → List ℕ
  letters str i n = slice (T.get str) i n

  -- `for(i = 0; i < SZ; i++) put(str[i])`, with `n` rounds left.
  unfoldable pub put_letters : Sender → T.Rep → ℕ → ℕ → Sender
  unfolding put
  put_letters s str i zero = s
  put_letters s str i (suc n) = put_letters (put s (T.get str i)) str (i + 1) n

  unfoldable pub to_bytes_string : ℕ → Sender → T.Rep → Sender
  unfolding put_letters
  to_bytes_string sz s str = put_letters s str 0 sz

  -- `for(i = 0; i < SZ; i++) str[i] = bytes[pos++]`, with `n` rounds left.
  unfoldable pub read_letters : Window → ℕ → ℕ → ℕ → T.Rep → Option (T.Rep × ℕ)
  unfolding read_u8
  read_letters w zero i p str = some (str, p)
  read_letters w (suc n) i p str = do
    (b, p1) ← read_u8 w p
    read_letters w n (i + 1) p1 (T.set str i b)

  unfoldable pub read_string : ℕ → Window → ℕ → T.Rep → Option (T.Rep × ℕ)
  unfolding read_letters
  read_string sz w p str = read_letters w sz 0 p str

  put_letters_lem :
      (n i : ℕ) (s : Sender) (str : T.Rep) → put_letters s str i n ≡ put_all s (letters str i n)
  unfolding put_letters put_all
  put_letters_lem zero i s str = refl
  put_letters_lem (suc n) i s str = put_letters_lem n (i + 1) (put s (T.get str i)) str

  -- What the loop of `from_bytes` leaves in the string: the characters before stay.
  record Filled (w : Window) (n i p : ℕ) (str : T.Rep) : Type 0 where
    after : T.Rep
    returns : read_letters w n i p str ≡ some (after, p + n)
    before : (j : ℕ) → j < i → T.get after j ≡ T.get str j
    filled : letters after i n ≡ slice w.at p n

  read_letters-Filled :
      (w : Window) (n i p : ℕ) (str : T.Rep) → p + n ≤ w.len → w.len < 65536 → Filled w n i p str
  unfolding read_letters
  read_letters-Filled w zero i p str h small = record {
    after = str;
    returns = ap (λ q. some (str, q)) (omega arith);
    before = λ j lt. refl;
    filled = refl;
  }
  read_letters-Filled w (suc n) i p str h small =
      let str1 = T.set str i (w.at p) in
      let rest = read_letters-Filled w n (i + 1) (p + 1) str1 (omega arith) small in
      record {
        after = rest.after;
        returns =
            rw (read_u8_lem w p (omega arith) small)
              (rest.returns ∙ ap (λ q. some (rest.after, q)) (omega arith));
        before = λ j lt.
            rest.before j (omega arith) ∙ T.get-set_other str i j (w.at p) (λ e. omega arith);
        filled = ap₂ ◌∷◌ (rest.before i (omega arith) ∙ T.get-set_same str i (w.at p)) rest.filled;
      }

  -- A StaticString of `sz` characters is written as its characters, and where a buffer of less than
  -- 65536 bytes holds these, reading into any other string gives one of the same characters. A character
  -- that is set is the one read there, and setting it leaves the others.
  pub read_string-to_bytes_string :
      (sz : ℕ) (str old : T.Rep) (s : Sender) (w : Window) (p : ℕ)
      → Holds w p (letters str 0 sz)
      → (to_bytes_string sz s str ≡ put_all s (letters str 0 sz))
        × ((str' : T.Rep) × (read_string sz w p old ≡ some (str', p + sz))
            × (letters str' 0 sz ≡ letters str 0 sz))
  unfolding to_bytes_string read_string
  read_string-to_bytes_string sz str old s w p held =
      let n : length (letters str 0 sz) ≡ sz = length-slice (T.get str) 0 sz in
      let got =
        read_letters-Filled w sz 0 p old (subst (λ m. p + m ≤ w.len) n held.within) held.small in
      (
        put_letters_lem sz 0 s str,
        (got.after, got.returns, got.filled ∙ ap (slice w.at p) (sym n) ∙ held.there),
      )
