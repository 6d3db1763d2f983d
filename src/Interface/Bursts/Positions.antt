-- ===== src/Interface/Bursts/Positions.antt =====
-- The numbers and positions that a burst keeps for its packets, and the search among them.
use pico_lan.Prelude.{
  ℕ, zero, suc, ◌+◌, ◌-◌, ◌*◌, ◌≤◌, ◌<◌, ◌≡◌, ◌≢◌, refl, sym, ap, ◌∙◌, Bool, true, false, ==_iff,
  ne→==, u8, update, arith, ℕ_discrete, dec_lt,
}
use pico_lan.Etk.{Etk}
use pico_lan.Interface.Bursts.{min, SeqTuple, cleared, packets_to_send, find_pos, frame_burst_sz}

-- The number of bytes in the packet that starts at position `p` of `len`.
abbrev pub part : ℕ → ℕ → ℕ
part len p = min 52 (len - p)

-- The position behind `k` packets.
abbrev pub pos_after : ℕ → ℕ → ℕ → ℕ
pos_after len zero p = p
pos_after len (suc k) p = pos_after len k (p + part len p)

pub pos_after-all : (len k p : ℕ) → p ≤ len → len ≤ p + 52 * k → pos_after len k p ≡ len
pos_after-all len zero p le fits = omega arith
pos_after-all len (suc k) p le fits =
    pos_after-all len k (p + part len p) (ground arith) (ground arith)

-- The numbers and positions that are kept for the packets from index `i` on.
abbrev pub tuples_after : ℕ → ℕ → ℕ → ℕ → ℕ → (ℕ → SeqTuple) → ℕ → SeqTuple
tuples_after len q zero i p t = t
tuples_after len q (suc k) i p t =
    tuples_after len q k (i + 1) (p + part len p)
      (update t i (record { seq = u8 (q + (i + 1)); pos = p + part len p }))

pub tuples_after_below :
    (len q k i p : ℕ) (t : ℕ → SeqTuple) (j : ℕ) → j < i → tuples_after len q k i p t j ≡ t j
tuples_after_below len q zero i p t j h = refl
tuples_after_below len q (suc k) i p t j h =
    tuples_after_below len q k (i + 1) (p + part len p) _ j (omega arith) ∙ ground arith

pub tuples_after_behind :
    (len q k i p : ℕ) (t : ℕ → SeqTuple) (j : ℕ) → i + k ≤ j → tuples_after len q k i p t j ≡ t j
tuples_after_behind len q zero i p t j h = refl
tuples_after_behind len q (suc k) i p t j h =
    tuples_after_behind len q k (i + 1) (p + part len p) _ j (omega arith) ∙ ground arith

pub tuples_after-seq :
    (len q k i p : ℕ) (t : ℕ → SeqTuple) (j : ℕ)
    → i ≤ j
    → j < i + k
    → (tuples_after len q k i p t j).seq ≡ u8 (q + (j + 1))
tuples_after-seq len q zero i p t j h g = absurd (omega arith)
tuples_after-seq len q (suc k) i p t j h g = elim (ℕ_discrete i j) [
  | yes e ↦
      ap (λ s. s.seq) (tuples_after_below len q k (i + 1) (p + part len p) _ j (omega arith))
      ∙ ground arith
  | no ne ↦ tuples_after-seq len q k (i + 1) (p + part len p) _ j (omega arith) (omega arith)
]

-- The last packet's position is that behind all.
pub tuples_after-pos :
    (len q k i p : ℕ) (t : ℕ → SeqTuple)
    → (tuples_after len q (suc k) i p t (i + k)).pos ≡ pos_after len (suc k) p
tuples_after-pos len q zero i p t = ground arith
tuples_after-pos len q (suc k) i p t =
    ap (λ j. (tuples_after len q (suc (suc k)) i p t j).pos) (omega arith)
    ∙ tuples_after-pos len q k (i + 1) (p + part len p) _

-- The number of packets of a burst, less one.
abbrev pub more_packets : ℕ → ℕ
more_packets len = packets_to_send len - 1

pub packets_to_send_lem :
    (len : ℕ) → 0 < len → (packets_to_send len ≡ suc (more_packets len)) × (more_packets len < 4)
unfolding packets_to_send
packets_to_send_lem len h = (ground arith, ground arith)

pub packets_to_send-enough : (len : ℕ) → len ≤ 208 → len ≤ 52 * packets_to_send len
unfolding packets_to_send
packets_to_send-enough len h = ground arith

abbrev pub at_first : ℕ → SeqTuple
at_first j = cleared

module _ ⦃E : Etk⦄ where
  pub find_pos_none :
      (t : ℕ → SeqTuple) (ack k i : ℕ) (found : Bool × ℕ × ℕ)
      → ((j : ℕ) → i ≤ j → j < i + k → ack ≢ (t j).seq)
      → find_pos t ack k i found ≡ found
  unfolding find_pos
  find_pos_none t ack zero i found h = refl
  find_pos_none t ack (suc k) i found h =
      rw (ne→== ack (t i).seq (h i (omega arith) (omega arith)))
        (find_pos_none t ack k (i + 1) found (λ j a b. h j (omega arith) (omega arith)))

  pub find_pos_one :
      (t : ℕ → SeqTuple) (ack k i m p s : ℕ) (found : Bool)
      → i ≤ m
      → m < i + k
      → ack ≡ (t m).seq
      → ((j : ℕ) → i ≤ j → j < i + k → j ≢ m → ack ≢ (t j).seq)
      → find_pos t ack k i (found, p, s) ≡ (true, (t m).pos, u8 (s + m))
  unfolding find_pos
  find_pos_one t ack zero i m p s found a b e h = absurd (omega arith)
  find_pos_one t ack (suc k) i m p s found a b e h = elim (ℕ_discrete i m) [
    | yes at ↦ rw ((==_iff ack (t i).seq).1 (e ∙ ap (λ j. (t j).seq) (sym at))) (
        find_pos_none t ack k (i + 1) _ (λ j x y. h j (omega arith) (omega arith) (omega arith))
        ∙ ap (λ j. (true, (t j).pos, u8 (s + j))) at)
    | no before ↦ rw (ne→== ack (t i).seq (h i (omega arith) (omega arith) before)) (
        find_pos_one t ack k (i + 1) m p s found (omega arith) (omega arith) e
          (λ j x y. h j (omega arith) (omega arith)))
  ]

  -- The search in the tuples of a burst of `suc k` packets behind the number `q`, from position `p0` on, of which one has the number `n`.
  pub found-last :
      (len p0 q k n p s : ℕ)
      → k < 4
      → n ≡ u8 (q + suc k)
      → n ≢ 255
      → find_pos (tuples_after len q (suc k) 0 p0 at_first) n frame_burst_sz 0 (false, p, s)
        ≡ (true, (tuples_after len q (suc k) 0 p0 at_first k).pos, u8 (s + k))
  found-last len p0 q k n p s few e ne =
      let t = tuples_after len q (suc k) 0 p0 at_first in
      find_pos_one t n frame_burst_sz 0 k p s false (omega arith) (omega arith)
        (e
          ∙ ap u8 (omega arith)
          ∙ sym (tuples_after-seq len q (suc k) 0 p0 at_first k (omega arith) (omega arith)))
        (λ j lo hi other. elim (dec_lt j (suc k)) [
          | yes sent ↦ (λ z.
              differs j sent other
                (z ∙ tuples_after-seq len q (suc k) 0 p0 at_first j (omega arith) (omega arith)))
          | no unsent ↦ (λ z. ne (
              z
              ∙ ap (λ x. x.seq) (tuples_after_behind len q (suc k) 0 p0 at_first j (omega arith))))
        ])
    where
      differs : (j : ℕ) → j < suc k → j ≢ k → n ≢ u8 (q + (j + 1))
      differs j lt other z = omega arith

  pub found_none :
      (len p0 q k n p s : ℕ)
      → k < 4
      → ((j : ℕ) → j < 4 → n ≢ u8 (q + (j + 1)))
      → n ≢ 255
      → find_pos (tuples_after len q (suc k) 0 p0 at_first) n frame_burst_sz 0 (false, p, s)
        ≡ (false, p, s)
  found_none len p0 q k n p s few differs ne =
      let t = tuples_after len q (suc k) 0 p0 at_first in
      find_pos_none t n frame_burst_sz 0 (false, p, s)
        (λ j lo hi. elim (dec_lt j (suc k)) [
          | yes sent ↦ (λ z.
              differs j (omega arith)
                (z ∙ tuples_after-seq len q (suc k) 0 p0 at_first j (omega arith) (omega arith)))
          | no unsent ↦ (λ z. ne (
              z
              ∙ ap (λ x. x.seq) (tuples_after_behind len q (suc k) 0 p0 at_first j (omega arith))))
        ])
