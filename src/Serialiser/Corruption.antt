-- ===== src/Serialiser/Corruption.antt =====
-- Frames whose fields the checksum shows to have changed.
use pico_lan.Prelude.{
  ℕ, ◌+◌, ◌*◌, ◌/◌, ◌%◌, ◌≤◌, ◌<◌, ◌≡◌, ◌≢◌, refl, sym, ap, ◌∙◌, false, List, [], ◌∷◌, ◌++◌, length,
  append_assoc, subst, length-append, fill, arith,
}
use pico_lan.Etk.{Etk}
use pico_lan.Serialiser.Framing.{stuff, stuff-append, frame, checksum, checksum_bytes}
use pico_lan.Serialiser.Sender.{is_special}
use pico_lan.Serialiser.Checksum.{checksum-changed_byte, checksum-swapped_bytes}
use pico_lan.Serialiser.Parser.{Parser, read_all}
use pico_lan.Serialiser.Parser.Steps.{idle, checksum-lt}
use pico_lan.Serialiser.Parser.Reject.{read_all-wrong_checksum}

stuff_plain : (x : ℕ) (ys : List ℕ) → is_special x ≡ false → stuff (x ∷ ys) ≡ x ∷ stuff ys
unfolding stuff
stuff_plain x ys plain = rw plain refl

module _ ⦃E : Etk⦄ where
  -- A frame with the bytes `bs` in the place of its fields and any two bytes as its checksum.
  abbrev pub frame_with : ℕ → List ℕ → ℕ → ℕ → List ℕ
  frame_with i bs low high = 0xAB ∷ stuff ((i ∷ length bs ∷ bs) ++ (low ∷ high ∷ [])) ++ (0xAC ∷ [])

  dropped :
      (r : Parser) (i low high : ℕ) (bs cs : List ℕ)
      → r.stuff_flag ≡ false
      → i < 7
      → 1 ≤ length bs
      → length bs ≤ 62
      → low < 256
      → high < 256
      → low + high * 256 ≢ checksum (i ∷ length bs ∷ bs)
      → read_all r (frame_with i bs low high ++ cs)
        ≡ read_all
            (idle i (low + high * 256) (length bs) (fill r.data_buf 0 (i ∷ length bs ∷ bs)))
            cs
  dropped r i low high [] cs steady known some_bytes fit bl bh differ = absurd (omega arith)
  dropped r i low high (x ∷ xs) cs steady known some_bytes fit bl bh differ =
      read_all-wrong_checksum r i x low high xs cs steady known fit bl bh differ

  recombined : (c : ℕ) → c < 65536 → c % 256 + c / 256 % 256 * 256 ≡ c
  recombined c h = omega arith

  same_length :
      (front back : List ℕ) (x y : ℕ) → length (front ++ (x ∷ back)) ≡ length (front ++ (y ∷ back))
  same_length front back x y =
      omega (arith, length-append front (x ∷ back), length-append front (y ∷ back))

  -- The frame that carries `y` in the place of the field `x`, with the checksum of the fields sent.
  read_all-changed_field :
      (r : Parser) (i x y : ℕ) (front back cs : List ℕ)
      → r.stuff_flag ≡ false
      → i < 7
      → length (front ++ (x ∷ back)) ≤ 62
      → x % 255 ≢ y % 255
      → let sent = checksum (i ∷ length (front ++ (x ∷ back)) ∷ front ++ (x ∷ back)) in
        let got = front ++ (y ∷ back) in
        read_all r (frame_with i got (sent % 256) (sent / 256 % 256) ++ cs)
        ≡ read_all (idle i sent (length got) (fill r.data_buf 0 (i ∷ length got ∷ got))) cs
  read_all-changed_field r i x y front back cs steady known fit ne =
      dropped r i (sent % 256) (sent / 256 % 256) got cs steady known
        (omega (arith, length-append front (y ∷ back))) (omega (arith, same_length front back x y))
        (omega arith) (omega arith) (λ e. differ (sym whole ∙ e))
      ∙ ap (λ c. read_all (idle i c (length got) (fill r.data_buf 0 (i ∷ length got ∷ got))) cs)
          whole
    where
      sent : ℕ
      sent = checksum (i ∷ length (front ++ (x ∷ back)) ∷ front ++ (x ∷ back))

      got : List ℕ
      got = front ++ (y ∷ back)

      whole : sent % 256 + sent / 256 % 256 * 256 ≡ sent
      whole = recombined sent (checksum-lt (i ∷ length (front ++ (x ∷ back)) ∷ front ++ (x ∷ back)))

      differ : sent ≢ checksum (i ∷ length got ∷ got)
      differ e =
          checksum-changed_byte (i ∷ length (front ++ (x ∷ back)) ∷ front) back x y ne
            (e ∙ ap (λ n. checksum (i ∷ n ∷ got)) (sym (same_length front back x y)))

  -- Where an unescaped byte of the fields stands on the wire.
  wire_split :
      (i n x : ℕ) (front back sums : List ℕ)
      → is_special x ≡ false
      → 0xAB ∷ stuff ((i ∷ n ∷ front ++ (x ∷ back)) ++ sums) ++ (0xAC ∷ [])
        ≡ (0xAB ∷ stuff (i ∷ n ∷ front)) ++ (x ∷ stuff (back ++ sums) ++ (0xAC ∷ []))
  wire_split i n x front back sums plain =
      ap (λ t. 0xAB ∷ stuff t ++ (0xAC ∷ [])) (append_assoc (i ∷ n ∷ front) (x ∷ back) sums)
      ∙ ap (λ t. 0xAB ∷ t ++ (0xAC ∷ []))
          (stuff-append (i ∷ n ∷ front) (x ∷ (back ++ sums))
            ∙ ap (λ t. stuff (i ∷ n ∷ front) ++ t) (stuff_plain x (back ++ sums) plain))
      ∙ append_assoc (0xAB ∷ stuff (i ∷ n ∷ front)) (x ∷ stuff (back ++ sums)) (0xAC ∷ [])

  -- One byte `x` of the fields of a known packet class, which is sent unescaped, arrives as `y`, and
  -- all else of the frame arrives as it was sent. Neither byte is 0xAA, 0xAB or 0xAC, and they differ
  -- modulo 255, as all bytes but 0 and 255 do; there are at most 62 bytes of fields, and the parser waits
  -- for no escaped byte. The frame is then dropped: no handler is called, and the parser goes on to
  -- what follows.
  pub read_all-changed_byte :
      (r : Parser) (i x y : ℕ) (front back cs : List ℕ)
      → r.stuff_flag ≡ false
      → i < 7
      → length (front ++ (x ∷ back)) ≤ 62
      → x % 255 ≢ y % 255
      → is_special x ≡ false
      → is_special y ≡ false
      → let n = length (front ++ (x ∷ back)) in
        let bytes = i ∷ n ∷ front ++ (x ∷ back) in
        let before = 0xAB ∷ stuff (i ∷ n ∷ front) in
        let behind = stuff (back ++ checksum_bytes bytes) ++ (0xAC ∷ []) in
        (frame bytes ≡ before ++ (x ∷ behind))
        × (read_all r ((before ++ (y ∷ behind)) ++ cs)
            ≡ read_all
                (idle i (checksum bytes) n (fill r.data_buf 0 (i ∷ n ∷ front ++ (y ∷ back))))
                cs)
  read_all-changed_byte r i x y front back cs steady known fit ne plain_x plain_y =
      let n = length (front ++ (x ∷ back)) in
      let sent = checksum (i ∷ n ∷ front ++ (x ∷ back)) in
      let sums : List ℕ = (sent % 256) ∷ (sent / 256 % 256) ∷ [] in
      let same : length (front ++ (y ∷ back)) ≡ n = sym (same_length front back x y) in
      (
        wire_split i n x front back sums plain_x,
        ap (λ w. read_all r (w ++ cs)) (sym (wire_split i n y front back sums plain_y))
            ∙ subst
                (λ m.
                  read_all r
                    ((0xAB ∷ stuff ((i ∷ m ∷ front ++ (y ∷ back)) ++ sums) ++ (0xAC ∷ [])) ++ cs)
                  ≡ read_all (idle i sent m (fill r.data_buf 0 (i ∷ m ∷ front ++ (y ∷ back)))) cs)
                same (read_all-changed_field r i x y front back cs steady known fit ne),
      )

  -- Two neighbouring bytes of a packet's fields have changed places before they were stuffed. Unless they are equal
  -- modulo 255, the frame is dropped: no handler is called, and the parser goes on to what follows.
  pub read_all-swapped_bytes :
      (r : Parser) (i x y : ℕ) (front back cs : List ℕ)
      → r.stuff_flag ≡ false
      → i < 7
      → length (front ++ (x ∷ y ∷ back)) ≤ 62
      → x % 255 ≢ y % 255
      → let sent = checksum (i ∷ length (front ++ (x ∷ y ∷ back)) ∷ front ++ (x ∷ y ∷ back)) in
        let got = front ++ (y ∷ x ∷ back) in
        read_all r (frame_with i got (sent % 256) (sent / 256 % 256) ++ cs)
        ≡ read_all (idle i sent (length got) (fill r.data_buf 0 (i ∷ length got ∷ got))) cs
  read_all-swapped_bytes r i x y front back cs steady known fit ne =
      dropped r i (sent % 256) (sent / 256 % 256) got cs steady known
        (omega (arith, length-append front (y ∷ x ∷ back))) (omega (arith, same)) (omega arith)
        (omega arith) (λ e. differ (sym whole ∙ e))
      ∙ ap (λ c. read_all (idle i c (length got) (fill r.data_buf 0 (i ∷ length got ∷ got))) cs)
          whole
    where
      sent : ℕ
      sent = checksum (i ∷ length (front ++ (x ∷ y ∷ back)) ∷ front ++ (x ∷ y ∷ back))

      got : List ℕ
      got = front ++ (y ∷ x ∷ back)

      same : length (front ++ (x ∷ y ∷ back)) ≡ length got
      same = omega (arith, length-append front (x ∷ y ∷ back), length-append front (y ∷ x ∷ back))

      whole : sent % 256 + sent / 256 % 256 * 256 ≡ sent
      whole =
          recombined sent
            (checksum-lt (i ∷ length (front ++ (x ∷ y ∷ back)) ∷ front ++ (x ∷ y ∷ back)))

      differ : sent ≢ checksum (i ∷ length got ∷ got)
      differ e =
          checksum-swapped_bytes (i ∷ length (front ++ (x ∷ y ∷ back)) ∷ front) back x y ne
            (e ∙ ap (λ n. checksum (i ∷ n ∷ got)) (sym same))
