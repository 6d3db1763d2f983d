-- ===== src/Serialiser/Parser/Frames.antt =====
-- The parser on a frame: from any state without a pending escape, it comes to the checksum with
-- the frame's bytes in its buffer, and then hands over what `read_data` makes of them.
use pico_lan.Prelude.{
  ℕ, suc, ◌+◌, ◌*◌, ◌/◌, ◌%◌, ◌≤◌, ◌<◌, ◌≡◌, sym, ap, ◌∙◌, Option, some, List, [], ◌∷◌, ◌++◌,
  append_assoc, ◌>>=◌, u16, update, fill, slice, slice-fill, length, option_to_list, arith,
}
use pico_lan.Etk.{Etk}
use pico_lan.Serialiser.Framing.{stuff, checksum, checksum_bytes, frame}
use pico_lan.Serialiser.Pack.{Packet}
use pico_lan.Serialiser.Parser.{
  Parser, start, id, size, body, check_1, check_2, read_all, read_data, body_window,
}
use pico_lan.Serialiser.Parser.Steps.{
  clean, after, read_all-cons, after-none, read_all-stuff, read_all-step, parser, idle, step_start,
  step_id, step_size, step_data, step_data_last, step_check_1, step_check_2, step_end, two_bytes,
  checksum-lt,
}

module _ ⦃E : Etk⦄ where
  -- The body: each byte goes to the next place of the buffer, and the last one leads on to the
  -- checksum.
  read_all-body :
      (i ci n k x : ℕ) (buf : ℕ → ℕ) (xs zs cs : List ℕ)
      → k + length xs ≡ n + 1
      → n ≤ 62
      → read_all (parser body i ci n k buf) (stuff ((x ∷ xs) ++ zs) ++ cs)
        ≡ read_all (parser check_1 i ci n (n + 2) (fill buf k (x ∷ xs))) (stuff zs ++ cs)
  unfolding fill
  read_all-body i ci n k x buf [] zs cs e fit =
      let last : k ≡ n + 1 = omega arith in
      rw last
        (read_all-step (parser body i ci n (n + 1) buf) _ x zs cs (step_data_last i ci n x buf fit))
  read_all-body i ci n k x buf (y ∷ ys) zs cs e fit =
      read_all-step (parser body i ci n k buf) _ x ((y ∷ ys) ++ zs) cs
        (step_data i ci n k x buf (omega arith) fit)
      ∙ read_all-body i ci n (k + 1) y (update buf k x) ys zs cs (omega arith) fit

  pub read_all-end :
      (i ci n pos : ℕ) (buf : ℕ → ℕ) (cs : List ℕ)
      → read_all (parser start i ci n pos buf) (0xAC ∷ cs) ≡ read_all (idle i ci n buf) cs
  read_all-end i ci n pos buf cs =
      read_all-cons (parser start i ci n pos buf) 0xAC cs
      ∙ ap (λ r. after r cs) (step_end i ci n pos buf)
      ∙ after-none (idle i ci n buf) cs

  read_all-start :
      (p : Parser) (bs cs : List ℕ)
      → read_all (clean p) ((0xAB ∷ bs ++ (0xAC ∷ [])) ++ cs)
        ≡ read_all (parser id p.msg_id p.checksum_in p.data_length 0 p.data_buf) (bs ++ (0xAC ∷ cs))
  read_all-start p bs cs =
      read_all-cons (clean p) 0xAB ((bs ++ (0xAC ∷ [])) ++ cs)
      ∙ ap (λ r. after r ((bs ++ (0xAC ∷ [])) ++ cs)) (step_start p)
      ∙ after-none _ ((bs ++ (0xAC ∷ [])) ++ cs)
      ∙ ap (read_all (parser id p.msg_id p.checksum_in p.data_length 0 p.data_buf))
          (append_assoc bs (0xAC ∷ []) cs)

  -- The two checksum bytes and the end of the frame.
  read_all-checks :
      (i ci n : ℕ) (buf : ℕ → ℕ) (bs cs : List ℕ) (m : Option Packet)
      → n ≤ 62
      → slice buf 0 (n + 2) ≡ bs
      → read_data i (body_window buf) ≡ some m
      → read_all (parser check_1 i ci n (n + 2) buf) (stuff (checksum_bytes bs) ++ (0xAC ∷ cs))
        ≡ after (some (idle i (checksum bs) n buf, m)) cs
  read_all-checks i ci n buf bs cs m fit held decoded =
      read_all-step (parser check_1 i ci n (n + 2) buf) _ low (high ∷ []) (0xAC ∷ cs)
        (step_check_1 i ci n (n + 2) low buf)
      ∙ read_all-stuff (parser check_2 i low n (n + 2) buf) high (0xAC ∷ cs)
      ∙ ap (λ r. after r (0xAC ∷ cs))
          (step_check_2 i low n (n + 2) high buf fit (ap checksum held ∙ sym sums) decoded)
      ∙ ap (λ r. do (p2, ms) ← r; some (p2, option_to_list m ++ ms))
          (read_all-end i (u16 (low + high * 256)) n (n + 2) buf cs
            ∙ ap (λ c. read_all (idle i c n buf) cs) sums)
    where
      low : ℕ
      low = checksum bs % 256

      high : ℕ
      high = checksum bs / 256 % 256

      sums : u16 (low + high * 256) ≡ checksum bs
      sums = two_bytes (checksum bs) (checksum-lt bs)

  -- A frame up to its checksum: header and body are in the buffer.
  pub read_all-fields :
      (p : Parser) (i x : ℕ) (xs zs cs : List ℕ)
      → i < 7
      → suc (length xs) ≤ 62
      → read_all
          (clean p)
          ((0xAB ∷ stuff ((i ∷ suc (length xs) ∷ x ∷ xs) ++ zs) ++ (0xAC ∷ [])) ++ cs)
        ≡ read_all
            (parser check_1 i p.checksum_in
              (suc (length xs))
              (suc (length xs) + 2)
              (fill p.data_buf 0 (i ∷ suc (length xs) ∷ x ∷ xs)))
            (stuff zs ++ (0xAC ∷ cs))
  unfolding fill
  read_all-fields p i x xs zs cs known fit =
      read_all-start p (stuff ((i ∷ n ∷ x ∷ xs) ++ zs)) cs
      ∙ read_all-step (parser id p.msg_id p.checksum_in p.data_length 0 p.data_buf) _ i
          (n ∷ (x ∷ xs) ++ zs) (0xAC ∷ cs)
          (step_id i p.msg_id p.checksum_in p.data_length p.data_buf known)
      ∙ read_all-step (parser size i p.checksum_in p.data_length 1 (update p.data_buf 0 i)) _ n
          ((x ∷ xs) ++ zs) (0xAC ∷ cs)
          (step_size i p.checksum_in p.data_length n (update p.data_buf 0 i) (omega arith))
      ∙ read_all-body i p.checksum_in n 2 x (update (update p.data_buf 0 i) 1 n) xs zs (0xAC ∷ cs)
          (omega arith) fit
    where
      n : ℕ
      n = suc (length xs)

  -- The bytes of a frame stand at the start of the buffer.
  pub held :
      (buf : ℕ → ℕ) (i x : ℕ) (xs : List ℕ)
      → let bytes = i ∷ suc (length xs) ∷ x ∷ xs in
        slice (fill buf 0 bytes) 0 (suc (length xs) + 2) ≡ bytes
  held buf i x xs =
      let bytes : List ℕ = i ∷ suc (length xs) ∷ x ∷ xs in
      ap (slice (fill buf 0 bytes) 0) {y = length bytes} (omega arith) ∙ slice-fill buf 0 bytes

  -- A whole frame, whatever the parser was doing: the packet is handed over, and the parser waits
  -- for the next frame.
  pub read_all-frame :
      (p : Parser) (i x : ℕ) (xs cs : List ℕ) (m : Option Packet)
      → i < 7
      → suc (length xs) ≤ 62
      → read_data i (body_window (fill p.data_buf 0 (i ∷ suc (length xs) ∷ x ∷ xs))) ≡ some m
      → read_all (clean p) (frame (i ∷ suc (length xs) ∷ x ∷ xs) ++ cs)
        ≡ after
            (some (
              idle i
                  (checksum (i ∷ suc (length xs) ∷ x ∷ xs))
                  (suc (length xs))
                  (fill p.data_buf 0 (i ∷ suc (length xs) ∷ x ∷ xs)),
              m,
            ))
            cs
  read_all-frame p i x xs cs m known fit decoded =
      let bytes : List ℕ = i ∷ suc (length xs) ∷ x ∷ xs in
      read_all-fields p i x xs (checksum_bytes bytes) cs known fit
      ∙ read_all-checks i p.checksum_in (suc (length xs)) (fill p.data_buf 0 bytes) bytes cs m fit
          (held p.data_buf i x xs) decoded
