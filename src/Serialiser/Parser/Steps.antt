-- ===== src/Serialiser/Parser/Steps.antt =====
-- One byte at a time: a stuffed byte is one step of the state machine, and what that step is in
-- each state on the way through a frame.
use pico_lan.Prelude.{
  ℕ, zero, suc, ◌+◌, ◌*◌, ◌/◌, ◌%◌, ◌≤◌, ◌<◌, ◌≡◌, ◌≢◌, refl, ap, ◌∙◌, true, false, Option, none,
  some, List, [], ◌∷◌, ◌++◌, append_assoc, ◌>>=◌, ◌==◌, ==_iff, u16, update, slice, option_to_list,
  arith, Bool-cases, inl, inr,
}
use pico_lan.Etk.{Etk}
use pico_lan.Serialiser.Sender.{is_special}
use pico_lan.Serialiser.Framing.{stuff, stuff-append, fletcher, checksum}
use pico_lan.Serialiser.Pack.{Packet}
use pico_lan.Serialiser.Parser.{
  Parser, MsgState, start, id, size, body, check_1, check_2, read, read_all, dispatch, resync,
  read_data, body_window, check_checksum, checksum_loop,
}

-- A parser that is not in the middle of an escape.
abbrev pub clean : Parser → Parser
clean p = record p { stuff_flag = false }

module _ ⦃E : Etk⦄ where
  abbrev pub Outcome : Type 0
  Outcome = Option (Parser × Option Packet)

  -- What reading goes on to after a byte.
  abbrev pub after : Outcome → List ℕ → Option (Parser × List Packet)
  after r cs = do (p1, m) ← r; (p2, ms) ← read_all p1 cs; some (p2, option_to_list m ++ ms)

  pub read_all-cons : (p : Parser) (c : ℕ) (cs : List ℕ) → read_all p (c ∷ cs) ≡ after (read p c) cs
  unfolding read_all
  read_all-cons p c cs = refl

  pair_η : (r : Option (Parser × List Packet)) → (do (p2, ms) ← r; some (p2, ms)) ≡ r
  pair_η none = refl
  pair_η (some (p, ms)) = refl

  pub after-none : (p : Parser) (cs : List ℕ) → after (some (p, none)) cs ≡ read_all p cs
  after-none p cs = pair_η (read_all p cs)

  read_plain :
      (p : Parser) (b : ℕ) → is_special b ≡ false → read (clean p) b ≡ dispatch p.state (clean p) b
  unfolding read resync
  read_plain p b h = ground arith

  read_escape : (p : Parser) → read (clean p) 0xAA ≡ some (record p { stuff_flag = true }, none)
  unfolding read
  read_escape p = refl

  read_escaped :
      (p : Parser) (b : ℕ) → read (record p { stuff_flag = true }) b ≡ dispatch p.state (clean p) b
  unfolding read resync
  read_escaped p b = ground arith

  -- A byte in its stuffed form reaches the `switch` in the state that the parser was in.
  pub read_all-stuff :
      (p : Parser) (b : ℕ) (cs : List ℕ)
      → read_all (clean p) (stuff (b ∷ []) ++ cs) ≡ after (dispatch p.state (clean p) b) cs
  unfolding stuff
  read_all-stuff p b cs = elim (Bool-cases (is_special b)) [
    | inl yes_special ↦ rw yes_special (
        read_all-cons (clean p) 0xAA (b ∷ cs)
        ∙ ap (λ r. after r (b ∷ cs)) (read_escape p)
        ∙ after-none (record p { stuff_flag = true }) (b ∷ cs)
        ∙ read_all-cons (record p { stuff_flag = true }) b cs
        ∙ ap (λ r. after r cs) (read_escaped p b))
    | inr not_special ↦
        rw not_special
          (read_all-cons (clean p) b cs ∙ ap (λ r. after r cs) (read_plain p b not_special))
  ]

  -- A step that hands over no packet.
  pub read_all-step :
      (p q : Parser) (b : ℕ) (bs cs : List ℕ)
      → dispatch p.state (clean p) b ≡ some (q, none)
      → read_all (clean p) (stuff (b ∷ bs) ++ cs) ≡ read_all q (stuff bs ++ cs)
  read_all-step p q b bs cs e =
      ap (λ xs. read_all (clean p) (xs ++ cs)) (stuff-append (b ∷ []) bs)
      ∙ ap (read_all (clean p)) (append_assoc (stuff (b ∷ [])) (stuff bs) cs)
      ∙ read_all-stuff p b (stuff bs ++ cs)
      ∙ ap (λ r. after r (stuff bs ++ cs)) e
      ∙ after-none q (stuff bs ++ cs)

  -- The parser between two bytes of a frame.
  abbrev pub parser : MsgState → ℕ → ℕ → ℕ → ℕ → (ℕ → ℕ) → Parser
  parser st i ci n pos buf = record {
    state = st;
    stuff_flag = false;
    msg_id = i;
    checksum_in = ci;
    data_length = n;
    data_pos = pos;
    data_buf = buf;
  }

  pub step_start :
      (p : Parser)
      → read (clean p) 0xAB
        ≡ some (parser id p.msg_id p.checksum_in p.data_length 0 p.data_buf, none)
  unfolding read
  step_start p = refl

  pub step_id :
      (i i0 ci n : ℕ) (buf : ℕ → ℕ)
      → i < 7
      → dispatch id (parser id i0 ci n 0 buf) i ≡ some (parser size i ci n 1 (update buf 0 i), none)
  unfolding dispatch
  step_id i i0 ci n buf h = ground arith

  pub step_size :
      (i ci n0 n : ℕ) (buf : ℕ → ℕ)
      → n ≢ 0
      → dispatch size (parser size i ci n0 1 buf) n
        ≡ some (parser body i ci n 2 (update buf 1 n), none)
  unfolding dispatch
  step_size i ci n0 n buf h = ground arith

  pub step_data :
      (i ci n k x : ℕ) (buf : ℕ → ℕ)
      → k < n + 1
      → n ≤ 62
      → dispatch body (parser body i ci n k buf) x
        ≡ some (parser body i ci n (k + 1) (update buf k x), none)
  unfolding dispatch
  step_data i ci n k x buf h fit = ground arith

  pub step_data_last :
      (i ci n x : ℕ) (buf : ℕ → ℕ)
      → n ≤ 62
      → dispatch body (parser body i ci n (n + 1) buf) x
        ≡ some (parser check_1 i ci n (n + 2) (update buf (n + 1) x), none)
  unfolding dispatch
  step_data_last i ci n x buf fit = ground arith

  -- The checksum loop over the buffer is the checksum of the bytes in it.
  checksum_loop-fletcher :
      (buf : ℕ → ℕ) (n i s1 s2 : ℕ) → checksum_loop buf n i s1 s2 ≡ fletcher s1 s2 (slice buf i n)
  unfolding checksum_loop fletcher
  checksum_loop-fletcher buf zero i s1 s2 = refl
  checksum_loop-fletcher buf (suc n) i s1 s2 = checksum_loop-fletcher buf n (i + 1) _ _

  pub check_checksum_lem :
      (i ci n pos : ℕ) (buf : ℕ → ℕ)
      → n ≤ 62
      → check_checksum (parser check_2 i ci n pos buf) ≡ some (checksum (slice buf 0 (n + 2)) == ci)
  unfolding check_checksum checksum
  check_checksum_lem i ci n pos buf fit =
      rw (checksum_loop-fletcher buf (n + 2) 0 0 0) (ground arith)

  -- A parser that waits for a frame, with whatever the last one left behind.
  abbrev pub idle : ℕ → ℕ → ℕ → (ℕ → ℕ) → Parser
  idle i ci n buf = parser start i ci n 0 buf

  pub step_check_1 :
      (i ci n pos c : ℕ) (buf : ℕ → ℕ)
      → dispatch check_1 (parser check_1 i ci n pos buf) c
        ≡ some (parser check_2 i c n pos buf, none)
  unfolding dispatch
  step_check_1 i ci n pos c buf = refl

  -- The second checksum byte: the packet is handed over if the two sums agree.
  pub step_check_2 :
      (i ci n pos c : ℕ) (buf : ℕ → ℕ) {m : Option Packet}
      → n ≤ 62
      → checksum (slice buf 0 (n + 2)) ≡ u16 (ci + c * 256)
      → read_data i (body_window buf) ≡ some m
      → dispatch check_2 (parser check_2 i ci n pos buf) c
        ≡ some (parser start i (u16 (ci + c * 256)) n pos buf, m)
  unfolding dispatch
  step_check_2 i ci n pos c buf {m} fit sums decoded =
      rw (check_checksum_lem i (u16 (ci + c * 256)) n pos buf fit, (==_iff _ _).1 sums, decoded)

  -- A read outside the buffer.
  pub step_check_2_out :
      (i ci n pos c : ℕ) (buf : ℕ → ℕ)
      → n ≤ 62
      → checksum (slice buf 0 (n + 2)) ≡ u16 (ci + c * 256)
      → read_data i (body_window buf) ≡ none
      → dispatch check_2 (parser check_2 i ci n pos buf) c ≡ none
  unfolding dispatch
  step_check_2_out i ci n pos c buf fit sums out =
      rw (check_checksum_lem i (u16 (ci + c * 256)) n pos buf fit, (==_iff _ _).1 sums, out)

  pub step_end :
      (i ci n pos : ℕ) (buf : ℕ → ℕ)
      → read (parser start i ci n pos buf) 0xAC ≡ some (idle i ci n buf, none)
  unfolding read
  step_end i ci n pos buf = refl

  pub two_bytes : (c : ℕ) → c < 65536 → u16 (c % 256 + c / 256 % 256 * 256) ≡ c
  two_bytes c h = omega arith

  pub checksum-lt : (bs : List ℕ) → checksum bs < 65536
  unfolding checksum
  checksum-lt bs = omega arith
