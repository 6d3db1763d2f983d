-- ===== src/Serialiser/Parser/Overrun.antt =====
-- Frames that make the parser write or read outside its buffer.
use pico_lan.Prelude.{
  ℕ, ◌+◌, ◌≤◌, ◌<◌, ◌≡◌, refl, ap, ◌∙◌, false, none, some, List, [], ◌∷◌, ◌++◌, length, update,
  arith,
}
use pico_lan.Etk.{Etk}
use pico_lan.Serialiser.Framing.{stuff}
use pico_lan.Serialiser.Parser.{Parser, id, size, body, read_all, dispatch}
use pico_lan.Serialiser.Parser.Steps.{
  clean, after, read_all-cons, read_all-stuff, read_all-step, after-none, parser, step_start,
  step_id, step_size,
}

module _ ⦃E : Etk⦄ where
  -- While the buffer has room, and the size byte says that more is to come, a byte is stored.
  step_data_long :
      (i ci n k x : ℕ) (buf : ℕ → ℕ)
      → 63 ≤ n
      → k < 64
      → dispatch body (parser body i ci n k buf) x
        ≡ some (parser body i ci n (k + 1) (update buf k x), none)
  unfolding dispatch
  step_data_long i ci n k x buf h room = ground arith

  step_data_out : (i ci n x : ℕ) (buf : ℕ → ℕ) → dispatch body (parser body i ci n 64 buf) x ≡ none
  unfolding dispatch
  step_data_out i ci n x buf = refl

  read_all-long :
      (i ci n k x : ℕ) (buf : ℕ → ℕ) (xs cs : List ℕ)
      → 63 ≤ n
      → k + length xs ≡ 64
      → read_all (parser body i ci n k buf) (stuff (x ∷ xs) ++ cs) ≡ none
  read_all-long i ci n k x buf [] cs h e =
      let full : k ≡ 64 = omega arith in
      rw full (
        read_all-stuff (parser body i ci n 64 buf) x cs
        ∙ ap (λ r. after r cs) (step_data_out i ci n x buf))
  read_all-long i ci n k x buf (y ∷ ys) cs h e =
      read_all-step (parser body i ci n k buf) _ x (y ∷ ys) cs
        (step_data_long i ci n k x buf h (omega arith))
      ∙ read_all-long i ci n (k + 1) y (update buf k x) ys cs h (omega arith)

  -- Whatever the parser did before (without a pending escape), a frame of a known class whose size
  -- byte is 63 or more runs over the receive buffer: the 63rd byte behind the size byte is stored
  -- outside it.
  pub read_all-overrun :
      (r : Parser) (i n x : ℕ) (xs cs : List ℕ)
      → r.stuff_flag ≡ false
      → i < 7
      → 63 ≤ n
      → length (x ∷ xs) ≡ 63
      → read_all r (0xAB ∷ stuff (i ∷ n ∷ x ∷ xs) ++ cs) ≡ none
  read_all-overrun r i n x xs cs steady known long filled =
      ap (λ b. read_all (record r { stuff_flag = b }) (0xAB ∷ stuff (i ∷ n ∷ x ∷ xs) ++ cs)) steady
      ∙ read_all-cons (clean r) 0xAB (stuff (i ∷ n ∷ x ∷ xs) ++ cs)
      ∙ ap (λ q. after q (stuff (i ∷ n ∷ x ∷ xs) ++ cs)) (step_start r)
      ∙ after-none _ (stuff (i ∷ n ∷ x ∷ xs) ++ cs)
      ∙ read_all-step (parser id r.msg_id r.checksum_in r.data_length 0 r.data_buf) _ i (n ∷ x ∷ xs)
          cs (step_id i r.msg_id r.checksum_in r.data_length r.data_buf known)
      ∙ read_all-step (parser size i r.checksum_in r.data_length 1 (update r.data_buf 0 i)) _ n
          (x ∷ xs) cs
          (step_size i r.checksum_in r.data_length n (update r.data_buf 0 i) (omega arith))
      ∙ read_all-long i r.checksum_in n 2 x (update (update r.data_buf 0 i) 1 n) xs cs long
          (omega arith)
