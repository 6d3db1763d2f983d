-- ===== src/Etk/Sample/Rings.antt =====
-- A queue beside the number of places that are left.
use pico_lan.Prelude.{
  ℕ, zero, suc, ◌<◌, ◌≡◌, refl, List, [], ◌∷◌, ◌++◌, length, length-append, arith,
}
use pico_lan.Etk.{RingBuffer}

abbrev pub Ring : Type 0
Ring = List ℕ × ℕ

abbrev pub put : Ring → ℕ → Ring
put (q, zero) b = (q, zero)
put (q, suc n) b = (q ++ (b ∷ []), n)

abbrev pub get : Ring → ℕ × Ring
get ([], n) = (0, ([], n))
get (b ∷ q, n) = (b, (q, suc n))

pub available-put : (r : Ring) (b : ℕ) → 0 < r.1 → length (put r b).0 ≡ suc (length r.0)
available-put (q, zero) b h = absurd (omega arith)
available-put (q, suc n) b h = omega (arith, length-append q (b ∷ []))

pub queue-put : (r : Ring) (b : ℕ) → 0 < r.1 → (put r b).0 ≡ r.0 ++ (b ∷ [])
queue-put (q, zero) b h = absurd (omega arith)
queue-put (q, suc n) b h = refl

pub room-put : (r : Ring) (b : ℕ) → 0 < r.1 → suc (put r b).1 ≡ r.1
room-put (q, zero) b h = absurd (omega arith)
room-put (q, suc n) b h = refl

pub queue_none : (r : Ring) → length r.0 ≡ 0 → r.0 ≡ []
queue_none ([], n) h = refl
queue_none (b ∷ q, n) h = absurd (omega arith)

pub queue-get : (r : Ring) → 0 < length r.0 → r.0 ≡ (get r).0 ∷ (get r).1.0
queue-get ([], n) h = absurd (omega arith)
queue-get (b ∷ q, n) h = refl

pub available-get : (r : Ring) → 0 < length r.0 → suc (length (get r).1.0) ≡ length r.0
available-get ([], n) h = absurd (omega arith)
available-get (b ∷ q, n) h = refl

abbrev pub ring_of : RingBuffer
ring_of = record {
  Rep = Ring;
  put = put;
  get = get;
  available = λ r. length r.0;
  room = λ r. r.1;
  queue = λ r. r.0;
  available-put = available-put;
  queue-put = queue-put;
  room-put = room-put;
  queue_none = queue_none;
  queue-get = queue-get;
  available-get = available-get;
}
