-- ===== src/Etk.antt =====
-- The classes of the etk library that the program uses. Their code is not in the repository, so
-- they are a parameter of every definition that uses them: each record below gives the operations
-- that are called and what the callers rely on.
pub mod Items
pub mod Sample
use pico_lan.Prelude.{ℕ, suc, ◌+◌, ◌<◌, ◌≤◌, ◌≡◌, ◌≢◌, Bool, false, List, [], ◌∷◌, ◌++◌}

-- etk::List<A, cap>: at most `cap` elements, `append` adds one at the end while there is room.
pub record EtkList (A : Type 0) (cap : ℕ) : Type 1 where
  pub Rep : Type 0
  pub empty : Rep
  pub append : Rep → A → Rep
  pub remove : Rep → ℕ → Rep
  pub size : Rep → ℕ
  pub get : Rep → ℕ → A
  pub size-le-cap : (l : Rep) → size l ≤ cap
  pub size-empty : size empty ≡ 0
  pub size-append : (l : Rep) (a : A) → size l < cap → size (append l a) ≡ suc (size l)
  pub get-append_last : (l : Rep) (a : A) → size l < cap → get (append l a) (size l) ≡ a
  pub get-append_old :
      (l : Rep) (a : A) (i : ℕ) → size l < cap → i < size l → get (append l a) i ≡ get l i
  pub size-remove : (l : Rep) (i : ℕ) → i < size l → suc (size (remove l i)) ≡ size l
  pub get-remove_before : (l : Rep) (i j : ℕ) → i < size l → j < i → get (remove l i) j ≡ get l j
  pub get-remove_after :
      (l : Rep) (i j : ℕ) → i ≤ j → suc j < size l → get (remove l i) j ≡ get l (suc j)

-- etk::Bits<uint8>: a byte whose bits are read and written one by one.
pub record Bits8 : Type 1 where
  pub Rep : Type 0
  pub fresh : Rep
  pub set : Rep → ℕ → Rep
  pub get : Rep → ℕ
  pub set_bit : Rep → ℕ → Bool → Rep
  pub read_bit : Rep → ℕ → Bool
  pub get-lt : (r : Rep) → get r < 256
  pub get-set : (r : Rep) (v : ℕ) → v < 256 → get (set r v) ≡ v
  pub read_bit-set_zero : (r : Rep) (i : ℕ) → i < 8 → read_bit (set r 0) i ≡ false
  pub read_bit-set-get : (r s : Rep) (i : ℕ) → i < 8 → read_bit (set r (get s)) i ≡ read_bit s i
  pub read_bit-set_bit_same : (r : Rep) (i : ℕ) (b : Bool) → i < 8 → read_bit (set_bit r i b) i ≡ b
  pub read_bit-set_bit_other :
      (r : Rep) (i j : ℕ) (b : Bool)
      → i < 8
      → j < 8
      → i ≢ j
      → read_bit (set_bit r i b) j ≡ read_bit r j

-- etk::RingBuffer<uint8_t>: a first-in first-out queue with a bounded number of free places.
pub record RingBuffer : Type 1 where
  pub Rep : Type 0
  pub put : Rep → ℕ → Rep
  pub get : Rep → ℕ × Rep
  pub available : Rep → ℕ
  pub room : Rep → ℕ
  pub queue : Rep → List ℕ
  pub available-put : (r : Rep) (b : ℕ) → 0 < room r → available (put r b) ≡ suc (available r)
  pub queue-put : (r : Rep) (b : ℕ) → 0 < room r → queue (put r b) ≡ queue r ++ (b ∷ [])
  pub room-put : (r : Rep) (b : ℕ) → 0 < room r → suc (room (put r b)) ≡ room r
  pub queue_none : (r : Rep) → available r ≡ 0 → queue r ≡ []
  pub queue-get : (r : Rep) → 0 < available r → queue r ≡ (get r).0 ∷ queue (get r).1
  pub available-get : (r : Rep) → 0 < available r → suc (available (get r).1) ≡ available r

pub record Etk : Type 1 where
  pub payload : EtkList ℕ 54
  pub sockets : EtkList ℕ 16
  pub bits : Bits8
  pub ring : RingBuffer
