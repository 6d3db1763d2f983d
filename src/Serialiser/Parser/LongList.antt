-- ===== src/Serialiser/Parser/LongList.antt =====
-- A datagram whose length byte says more than the receive buffer holds.
use pico_lan.Prelude.{
  ℕ, zero, suc, ◌+◌, ◌/◌, ◌%◌, ◌≤◌, ◌<◌, ◌≡◌, refl, sym, ap, ◌∙◌, false, none, some, List, [], ◌∷◌,
  ◌++◌, fill, fill_below, length, arith, ℕ_discrete,
}
use pico_lan.Etk.{Etk}
use pico_lan.Serialiser.Reader.{Window, read_u8, read_elements}
use pico_lan.Serialiser.Framing.{checksum, checksum_bytes, frame}
use pico_lan.Serialiser.Pack
use pico_lan.Serialiser.Pack.{Packet}
use pico_lan.Serialiser.Parser.{Parser, check_1, check_2, read_all, read_data, body_window}
use pico_lan.Serialiser.Parser.Steps.{
  after, read_all-stuff, read_all-step, parser, step_check_1, step_check_2_out, two_bytes,
  checksum-lt,
}
use pico_lan.Serialiser.Parser.Frames.{read_all-fields, held}

module _ ⦃E : Etk⦄ where
  read_u8-inside :
      (w : Window) (pos : ℕ) → w.len ≡ 62 → pos < 62 → read_u8 w pos ≡ some (w.at pos, pos + 1)
  unfolding read_u8
  read_u8-inside w pos hw h = ground arith

  read_elements_out :
      (w : Window) (n pos : ℕ) (l : E.payload.Rep)
      → w.len ≡ 62
      → pos ≤ 62
      → 62 < pos + n
      → read_elements w n pos l ≡ none
  unfolding read_elements read_u8
  read_elements_out w zero pos l hw le far = absurd (omega arith)
  read_elements_out w (suc n) pos l hw le far = elim (ℕ_discrete pos 62) [
    | yes e ↦ ground arith
    | no ne ↦ rw (read_u8-inside w pos hw (omega arith)) (
        read_elements_out w n (pos + 1) (E.payload.append l (w.at pos)) hw (omega arith)
          (omega arith))
  ]

  read_data_out : (buf : ℕ → ℕ) → 57 < buf 6 → read_data 5 (body_window buf) ≡ none
  unfolding read_data Pack.Datagram.from_bytes
  read_data_out buf far =
      rw
        (read_elements_out (body_window buf) (buf 6) 5 E.payload.empty refl (omega arith)
          (omega arith))
        refl

  length_byte :
      (a : ℕ → ℕ) (x0 x1 x2 x3 x4 x5 n : ℕ) (xs : List ℕ)
      → fill a 0 (x0 ∷ x1 ∷ x2 ∷ x3 ∷ x4 ∷ x5 ∷ n ∷ xs) 6 ≡ n
  unfolding fill
  length_byte a x0 x1 x2 x3 x4 x5 n xs = fill_below _ 7 xs 6 (omega arith) ∙ refl

  -- Whatever the parser did before (without a pending escape), a datagram frame with a right checksum
  -- whose list has a length byte of 58 or more makes the parser read outside the receive buffer.
  pub read_all-long_list :
      (r : Parser) (ttl source dest port n : ℕ) (xs cs : List ℕ)
      → r.stuff_flag ≡ false
      → 57 < n
      → length xs ≤ 57
      → let fields : List ℕ = ttl ∷ source ∷ dest ∷ port ∷ n ∷ xs in
        read_all r (frame (5 ∷ length fields ∷ fields) ++ cs) ≡ none
  read_all-long_list r ttl source dest port n xs cs steady far fit =
      let rest : List ℕ = source ∷ dest ∷ port ∷ n ∷ xs in
      let size : ℕ = suc (length rest) in
      let bytes : List ℕ = 5 ∷ size ∷ ttl ∷ rest in
      let sum : ℕ = checksum bytes in
      let buf : ℕ → ℕ = fill r.data_buf 0 bytes in
      ap (λ b. read_all (record r { stuff_flag = b }) (frame bytes ++ cs)) steady
      ∙ read_all-fields r 5 ttl rest (checksum_bytes bytes) cs (omega arith) (omega arith)
      ∙ read_all-step (parser check_1 5 r.checksum_in size (size + 2) buf) _ (sum % 256)
          (sum / 256 % 256 ∷ []) (0xAC ∷ cs)
          (step_check_1 5 r.checksum_in size (size + 2) (sum % 256) buf)
      ∙ read_all-stuff (parser check_2 5 (sum % 256) size (size + 2) buf) (sum / 256 % 256)
          (0xAC ∷ cs)
      ∙ ap (λ o. after o (0xAC ∷ cs))
          (step_check_2_out 5 (sum % 256) size (size + 2) (sum / 256 % 256) buf (omega arith)
            (ap checksum (held r.data_buf 5 ttl rest) ∙ sym (two_bytes sum (checksum-lt bytes)))
            (read_data_out buf
              (omega (arith, far, length_byte r.data_buf 5 size ttl source dest port n xs))))
