-- ===== src/Serialiser/Parser/Safety.antt =====
-- When the parser keeps within its receive buffer.
use pico_lan.Prelude.{
  ℕ, ◌+◌, ◌*◌, ◌≤◌, ◌<◌, ◌≡◌, refl, Bool, true, false, not, ◌&&◌, ◌||◌, Option, none, some, ◌>>=◌,
  ◌==◌, if◌then◌else◌, arith, u16, ne→==, ℕ_discrete, inl, inr, Bool-cases,
}
use pico_lan.Etk.{Etk}
use pico_lan.Serialiser.Sender.{is_special}
use pico_lan.Serialiser.Pack.{Packet}
use pico_lan.Serialiser.Parser.{
  Parser, MsgState, start, id, size, body, check_1, check_2, read, dispatch, read_data, body_window,
  check_checksum, on_start, on_id, on_size, on_data, on_check_1, on_check_2, resync,
}
use pico_lan.Serialiser.Parser.Decode.{read_elements_lem}

-- What the position and the length are in each state.
abbrev pub Placed : MsgState → ℕ → ℕ → Type 0
Placed start len pos = Unit
Placed id len pos = pos ≡ 0
Placed size len pos = pos ≡ 1
Placed body len pos = (2 ≤ pos) × (pos < len + 2) × (len ≤ 62)
Placed check_1 len pos = len ≤ 62
Placed check_2 len pos = len ≤ 62

abbrev pub IsPlaced : Parser → Type 0
IsPlaced p = Placed p.state p.data_length p.data_pos

-- The byte belongs to the contents of a frame: it is escaped, or none of the three special bytes.
abbrev pub IsContent : Parser → ℕ → Type 0
IsContent p c = (not p.stuff_flag && is_special c) ≡ false

-- The two lengths in a frame that the parser trusts: the size byte in the header, and, when the last
-- byte of a datagram's frame comes, the length of its payload, which stands behind four other fields.
pub record Trusted (p : Parser) (c : ℕ) : Type 0 where
  pub size_fits : p.state ≡ size → IsContent p c → c ≤ 62
  pub payload_fits : p.state ≡ check_2 → IsContent p c → p.msg_id ≡ 5 → p.data_buf 6 ≤ 57

abbrev Defined {ℓ} : {A : Type ℓ} → Option A → Type 0
Defined none = ⊥
Defined (some a) = Unit

Defined-if {ℓ} :
    {A : Type ℓ} (b : Bool) (x y : Option A) → Defined x → Defined y → Defined (if b then x else y)
Defined-if true x y dx dy = dx
Defined-if false x y dx dy = dy

module _ ⦃E : Etk⦄ where
  -- A step that keeps within the buffer and leads to a well-placed parser.
  abbrev Keeps : Option (Parser × Option Packet) → Type 0
  Keeps none = ⊥
  Keeps (some (p, m)) = IsPlaced p

  on_start-Keeps : (p : Parser) (c : ℕ) → p.state ≡ start → Keeps (on_start p c)
  unfolding on_start
  on_start-Keeps p c h = ground arith

  on_id-Keeps : (p : Parser) (c : ℕ) → p.data_pos ≡ 0 → Keeps (on_id p c)
  unfolding on_id
  on_id-Keeps p c h = ground arith

  on_size-Keeps : (p : Parser) (c : ℕ) → p.data_pos ≡ 1 → c ≤ 62 → Keeps (on_size p c)
  unfolding on_size
  on_size-Keeps p c h fit = ground arith

  on_data-Keeps :
      (p : Parser) (c : ℕ)
      → p.state ≡ body
      → 2 ≤ p.data_pos
      → p.data_pos < p.data_length + 2
      → p.data_length ≤ 62
      → Keeps (on_data p c)
  unfolding on_data
  on_data-Keeps p c s low high fit = ground arith

  on_check_1-Keeps : (p : Parser) (c : ℕ) → p.data_length ≤ 62 → Keeps (on_check_1 p c)
  unfolding on_check_1
  on_check_1-Keeps p c h = h

  -- Decoding a buffer reads within it, if the payload of a datagram does.
  read_data-Defined :
      (i : ℕ) (buf : ℕ → ℕ) → (i ≡ 5 → buf 6 ≤ 57) → Defined (read_data i (body_window buf))
  unfolding read_data
  read_data-Defined i buf fit = elim (ℕ_discrete i 5) [
    | yes e ↦
        rw
          (read_elements_lem (body_window buf) (buf 6) 5 E.payload.empty refl
            (omega (arith, fit e)))
          (Defined-if (i == 1) _ _ tt (
            Defined-if (i == 2) _ _ tt (
              Defined-if (i == 3) _ _ tt (
                Defined-if (i == 4) _ _ tt
                  (Defined-if (i == 5) _ _ tt (Defined-if (i == 6) _ _ tt tt))))))
    | no ne ↦ rw (ne→== i 5 ne) (
        Defined-if (i == 1) _ _ tt (
          Defined-if (i == 2) _ _ tt (
            Defined-if (i == 3) _ _ tt
              (Defined-if (i == 4) _ _ tt (Defined-if (i == 6) _ _ tt tt)))))
  ]

  check_checksum-Defined : (p : Parser) → p.data_length ≤ 62 → Defined (check_checksum p)
  unfolding check_checksum
  check_checksum-Defined p h = ground arith

  finish_check :
      (p : Parser) (good : Option Bool) (found : Option (Option Packet))
      → Defined good
      → Defined found
      → Keeps
          (do b ← good; m ← (if b then found else some none); some (record p { state = start }, m))
  finish_check p none found dg df = dg
  finish_check p (some b) none dg df = absurd df
  finish_check p (some true) (some m) dg df = tt
  finish_check p (some false) (some m) dg df = tt

  on_check_2-Keeps :
      (p : Parser) (c : ℕ)
      → p.data_length ≤ 62
      → (p.msg_id ≡ 5 → p.data_buf 6 ≤ 57)
      → Keeps (on_check_2 p c)
  on_check_2-Keeps p c fit inner =
      unfold on_check_2 in
      finish_check (record p { checksum_in = u16 (p.checksum_in + c * 256) }) _ _
        (check_checksum-Defined (record p { checksum_in = u16 (p.checksum_in + c * 256) }) fit)
        (read_data-Defined p.msg_id p.data_buf inner)

  -- On each state of a well-placed parser with trusted lengths.
  dispatch-Keeps :
      (st : MsgState) (p : Parser) (c : ℕ)
      → p.state ≡ st
      → Placed st p.data_length p.data_pos
      → (st ≡ size → c ≤ 62)
      → (st ≡ check_2 → p.msg_id ≡ 5 → p.data_buf 6 ≤ 57)
      → Keeps (dispatch st p c)
  unfolding dispatch
  dispatch-Keeps start p c e h t u = on_start-Keeps p c e
  dispatch-Keeps id p c e h t u = on_id-Keeps p c h
  dispatch-Keeps size p c e h t u = on_size-Keeps p c h (t refl)
  dispatch-Keeps body p c e (low, high, fit) t u = on_data-Keeps p c e low high fit
  dispatch-Keeps check_1 p c e h t u = on_check_1-Keeps p c h
  dispatch-Keeps check_2 p c e h t u = on_check_2-Keeps p c h (u refl)

  Keeps-result :
      (o : Option (Parser × Option Packet))
      → Keeps o
      → (p : Parser) × (m : Option Packet) × (o ≡ some (p, m)) × IsPlaced p
  Keeps-result none h = absurd h
  Keeps-result (some (p, m)) h = (p, m, refl, h)

  -- An unescaped 0xAB or 0xAC leads to the start, whatever the frame.
  mark-Keeps :
      (p : Parser) (c : ℕ)
      → (not p.stuff_flag && (c == 0xAB || c == 0xAC)) ≡ true
      → let q = record (resync p c) { stuff_flag = false } in Keeps (dispatch q.state q c)
  unfolding resync
  mark-Keeps p c e = rw e (
      dispatch-Keeps start (record p { state = start; stuff_flag = false }) c refl tt (λ z. cc)
        (λ z. cc))

  content-Keeps :
      (p : Parser) (c : ℕ)
      → IsPlaced p
      → Trusted p c
      → IsContent p c
      → (not p.stuff_flag && (c == 0xAB || c == 0xAC)) ≡ false
      → let q = record (resync p c) { stuff_flag = false } in Keeps (dispatch q.state q c)
  unfolding resync
  content-Keeps p c h t content e = rw e (
      dispatch-Keeps p.state (record p { stuff_flag = false }) c refl h (λ s. t.size_fits s content)
        (λ s. t.payload_fits s content))

  content_lem :
      (p : Parser) (c : ℕ)
      → (c == 0xAA && not p.stuff_flag) ≡ false
      → (not p.stuff_flag && (c == 0xAB || c == 0xAC)) ≡ false
      → IsContent p c
  content_lem p c e f = ground arith

  read-Keeps : (p : Parser) (c : ℕ) → IsPlaced p → Trusted p c → Keeps (read p c)
  unfolding read
  read-Keeps p c placed trusted = elim (Bool-cases (c == 0xAA && not p.stuff_flag)) [
    | inl e ↦ rw e placed
    | inr e ↦ rw e (elim (Bool-cases (not p.stuff_flag && (c == 0xAB || c == 0xAC))) [
      | inl f ↦ mark-Keeps p c f
      | inr f ↦ content-Keeps p c placed trusted (content_lem p c e f) f
    ])
  ]

  -- A parser whose position fits its state reads any byte with no access outside the receive
  -- buffer, and its position fits its state again, provided that the byte, when it is the size byte of
  -- a frame, is at most 62, and, when it is the last one of a datagram's frame, the length byte of the
  -- datagram's payload is at most 57.
  pub read-IsPlaced :
      (p : Parser) (c : ℕ)
      → IsPlaced p
      → Trusted p c
      → (p' : Parser) × (m : Option Packet) × (read p c ≡ some (p', m)) × IsPlaced p'
  read-IsPlaced p c placed trusted = Keeps-result (read p c) (read-Keeps p c placed trusted)
