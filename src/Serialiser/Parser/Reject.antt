-- ===== src/Serialiser/Parser/Reject.antt =====
-- Frames that the parser turns away.
use pico_lan.Prelude.{
  ℕ, suc, ◌+◌, ◌*◌, ◌≤◌, ◌<◌, ◌≡◌, ◌≢◌, sym, ap, ◌∙◌, false, none, some, List, [], ◌∷◌, ◌++◌, ◌==◌,
  length, u16, fill, slice, arith,
}
use pico_lan.Etk.{Etk}
use pico_lan.Serialiser.Framing.{stuff, checksum}
use pico_lan.Serialiser.Parser.{Parser, start, check_1, check_2, read_all, dispatch}
use pico_lan.Serialiser.Parser.Steps.{
  after, after-none, read_all-stuff, read_all-step, parser, idle, step_check_1, check_checksum_lem,
}
use pico_lan.Serialiser.Parser.Frames.{read_all-fields, read_all-end, held}

module _ ⦃E : Etk⦄ where
  step_check_2_wrong :
      (i ci n pos c : ℕ) (buf : ℕ → ℕ)
      → n ≤ 62
      → checksum (slice buf 0 (n + 2)) ≢ u16 (ci + c * 256)
      → dispatch check_2 (parser check_2 i ci n pos buf) c
        ≡ some (parser start i (u16 (ci + c * 256)) n pos buf, none)
  unfolding dispatch
  step_check_2_wrong i ci n pos c buf fit differ =
      rw (check_checksum_lem i (u16 (ci + c * 256)) n pos buf fit, wrong)
    where
      wrong : (checksum (slice buf 0 (n + 2)) == u16 (ci + c * 256)) ≡ false
      wrong = ground arith

  -- A frame of a known class with 1 to 62 bytes of fields, whose last two bytes are not the checksum
  -- of what stands before them, is dropped: no handler is called, whatever the fields are and whatever
  -- the parser did before, as long as it waits for no escaped byte, and it waits for the next frame.
  pub read_all-wrong_checksum :
      (r : Parser) (i x low high : ℕ) (xs cs : List ℕ)
      → r.stuff_flag ≡ false
      → i < 7
      → length (x ∷ xs) ≤ 62
      → low < 256
      → high < 256
      → low + high * 256 ≢ checksum (i ∷ length (x ∷ xs) ∷ x ∷ xs)
      → read_all r (
          (0xAB ∷ stuff ((i ∷ length (x ∷ xs) ∷ x ∷ xs) ++ (low ∷ high ∷ [])) ++ (0xAC ∷ [])) ++ cs)
        ≡ read_all
            (idle i
              (low + high * 256)
              (length (x ∷ xs))
              (fill r.data_buf 0 (i ∷ length (x ∷ xs) ∷ x ∷ xs)))
            cs
  read_all-wrong_checksum r i x low high xs cs steady known fit bl bh differ =
      ap
        (λ b.
          read_all (record r { stuff_flag = b })
            ((0xAB ∷ stuff (bytes ++ (low ∷ high ∷ [])) ++ (0xAC ∷ [])) ++ cs))
        steady
      ∙ read_all-fields r i x xs (low ∷ high ∷ []) cs known fit
      ∙ read_all-step (parser check_1 i r.checksum_in n (n + 2) buf) _ low (high ∷ []) (0xAC ∷ cs)
          (step_check_1 i r.checksum_in n (n + 2) low buf)
      ∙ read_all-stuff (parser check_2 i low n (n + 2) buf) high (0xAC ∷ cs)
      ∙ ap (λ o. after o (0xAC ∷ cs))
          (step_check_2_wrong i low n (n + 2) high buf fit
            (λ e. differ (sym (sym (ap checksum (held r.data_buf i x xs)) ∙ e ∙ small))))
      ∙ after-none _ (0xAC ∷ cs)
      ∙ read_all-end i (u16 (low + high * 256)) n (n + 2) buf cs
      ∙ ap (λ c. read_all (idle i c n buf) cs) small
    where
      n : ℕ
      n = suc (length xs)

      bytes : List ℕ
      bytes = i ∷ n ∷ x ∷ xs

      buf : ℕ → ℕ
      buf = fill r.data_buf 0 bytes

      small : u16 (low + high * 256) ≡ low + high * 256
      small = omega arith
