-- ===== src/Serialiser/Checksum.antt =====
-- What the checksum of a frame detects.
mod Or
use pico_lan.Prelude.{
  ℕ, suc, ◌+◌, ◌*◌, ◌%◌, ◌<◌, ◌≡◌, ◌≢◌, refl, sym, ap, ◌∙◌, bit_or, u16, List, [], ◌∷◌, ◌++◌, arith,
}
use pico_lan.Serialiser.Framing.{fletcher, checksum}
use Or.{bit_or_bytes}

fletcher-append :
    (s1 s2 : ℕ) (xs ys : List ℕ)
    → fletcher s1 s2 (xs ++ ys) ≡ fletcher (fletcher s1 s2 xs).0 (fletcher s1 s2 xs).1 ys
unfolding fletcher
fletcher-append s1 s2 [] ys = refl
fletcher-append s1 s2 (x ∷ xs) ys =
    fletcher-append ((s1 + x) % 255) ((s2 + (s1 + x) % 255) % 255) xs ys

fletcher-lt :
    (s1 s2 : ℕ) (bs : List ℕ)
    → s1 < 255
    → s2 < 255
    → ((fletcher s1 s2 bs).0 < 255) × ((fletcher s1 s2 bs).1 < 255)
unfolding fletcher
fletcher-lt s1 s2 [] h k = (h, k)
fletcher-lt s1 s2 (b ∷ bs) h k =
    fletcher-lt ((s1 + b) % 255) ((s2 + (s1 + b) % 255) % 255) bs (omega arith) (omega arith)

-- First sums that differ stay different.
fletcher-first_ne :
    (s1 s2 t1 t2 : ℕ) (bs : List ℕ)
    → s1 < 255
    → t1 < 255
    → s1 ≢ t1
    → (fletcher s1 s2 bs).0 ≢ (fletcher t1 t2 bs).0
unfolding fletcher
fletcher-first_ne s1 s2 t1 t2 [] h k ne = ne
fletcher-first_ne s1 s2 t1 t2 (b ∷ bs) h k ne =
    fletcher-first_ne ((s1 + b) % 255) ((s2 + (s1 + b) % 255) % 255) ((t1 + b) % 255)
      ((t2 + (t1 + b) % 255) % 255) bs (omega arith) (omega arith) (omega arith)

-- So do second sums beside the same first sum.
fletcher-second_ne :
    (s1 s2 t2 : ℕ) (bs : List ℕ)
    → s2 < 255
    → t2 < 255
    → s2 ≢ t2
    → (fletcher s1 s2 bs).1 ≢ (fletcher s1 t2 bs).1
unfolding fletcher
fletcher-second_ne s1 s2 t2 [] h k ne = ne
fletcher-second_ne s1 s2 t2 (b ∷ bs) h k ne =
    fletcher-second_ne ((s1 + b) % 255) ((s2 + (s1 + b) % 255) % 255) ((t2 + (s1 + b) % 255) % 255)
      bs (omega arith) (omega arith) (omega arith)

-- The checksum determines both sums.
checksum-sums :
    (xs ys : List ℕ)
    → checksum xs ≡ checksum ys
    → ((fletcher 0 0 xs).0 ≡ (fletcher 0 0 ys).0) × ((fletcher 0 0 xs).1 ≡ (fletcher 0 0 ys).1)
unfolding checksum
checksum-sums xs ys e =
    let (x1, x2) = fletcher-lt 0 0 xs (omega arith) (omega arith) in
    let (y1, y2) = fletcher-lt 0 0 ys (omega arith) (omega arith) in
    omega (
      arith,
      e,
      bit_or_bytes (fletcher 0 0 xs).1 (fletcher 0 0 xs).0 (omega arith),
      bit_or_bytes (fletcher 0 0 ys).1 (fletcher 0 0 ys).0 (omega arith),
    )

-- A byte that is changed into one that differs from it modulo 255 changes the checksum.
pub checksum-changed_byte :
    (front back : List ℕ) (x y : ℕ)
    → x % 255 ≢ y % 255
    → checksum (front ++ (x ∷ back)) ≢ checksum (front ++ (y ∷ back))
checksum-changed_byte front back x y ne e =
    fletcher-first_ne ((s1 + x) % 255) ((s2 + (s1 + x) % 255) % 255) ((s1 + y) % 255)
      ((s2 + (s1 + y) % 255) % 255) back (omega arith) (omega arith) (omega arith)
      (sym (ap (λ p. p.0) (split x)) ∙ (checksum-sums _ _ e).0 ∙ ap (λ p. p.0) (split y))
  where
    s1 : ℕ
    s1 = (fletcher 0 0 front).0

    s2 : ℕ
    s2 = (fletcher 0 0 front).1

    split :
        (z : ℕ)
        → fletcher 0 0 (front ++ (z ∷ back))
          ≡ fletcher ((s1 + z) % 255) ((s2 + (s1 + z) % 255) % 255) back
    split z = fletcher-append 0 0 front (z ∷ back) ∙ unfold fletcher in refl

-- Two neighbouring bytes that differ modulo 255 cannot change places unnoticed.
pub checksum-swapped_bytes :
    (front back : List ℕ) (x y : ℕ)
    → x % 255 ≢ y % 255
    → checksum (front ++ (x ∷ y ∷ back)) ≢ checksum (front ++ (y ∷ x ∷ back))
checksum-swapped_bytes front back x y ne e =
    fletcher-second_ne (first x y) (second x y) (second y x) back (omega arith) (omega arith)
      (omega arith)
      (sym (ap (λ p. p.1) (split x y))
        ∙ (checksum-sums _ _ e).1
        ∙ ap (λ p. p.1) (split y x)
        ∙ ap (λ t. (fletcher t (second y x) back).1) same)
  where
    s1 : ℕ
    s1 = (fletcher 0 0 front).0

    s2 : ℕ
    s2 = (fletcher 0 0 front).1

    first : ℕ → ℕ → ℕ
    first z w = ((s1 + z) % 255 + w) % 255

    second : ℕ → ℕ → ℕ
    second z w = ((s2 + (s1 + z) % 255) % 255 + first z w) % 255

    same : first y x ≡ first x y
    same = omega arith

    split :
        (z w : ℕ) → fletcher 0 0 (front ++ (z ∷ w ∷ back)) ≡ fletcher (first z w) (second z w) back
    split z w = fletcher-append 0 0 front (z ∷ w ∷ back) ∙ unfold fletcher in refl
