-- ===== src/Prelude/Lists.antt =====
-- Lists over the native numbers, and arrays as functions of the index.
use Prim.Native.Nat.{ℕ, zero, suc, ◌+◌, ◌<◌, ◌≤◌}
use mathlib.Core.Path.{◌≡◌, refl, ap, ap₂, ◌∙◌, subst}
use mathlib.Core.List.{List, [], ◌∷◌, ◌++◌}
use mathlib.Core.Option.{Option, none, some}
use native.Mathlib.Omega.{arith}
use pico_lan.Prelude.Tests.{◌==◌, if◌then◌else◌}

module _ {ℓ} {A : Type ℓ} where
  abbrev pub length : List A → ℕ
  length [] = 0
  length (x ∷ xs) = suc (length xs)

  pub length-append : (xs ys : List A) → length (xs ++ ys) ≡ length xs + length ys
  length-append [] ys = omega arith
  length-append (x ∷ xs) ys = omega (arith, length-append xs ys)

  abbrev pub option_to_list : Option A → List A
  option_to_list none = []
  option_to_list (some a) = a ∷ []

abbrev pub All {ℓ κ} : {A : Type ℓ} → (A → Type κ) → List A → Type κ
All P [] = Unit
All P (x ∷ xs) = P x × All P xs

-- Array write `a[i] = v`.
abbrev pub update {ℓ} : {A : Type ℓ} → (ℕ → A) → ℕ → A → ℕ → A
update a i v j = if j == i then v else a j

-- The `n` elements of an array from index `k` on.
abbrev pub slice {ℓ} : {A : Type ℓ} → (ℕ → A) → ℕ → ℕ → List A
slice a k zero = []
slice a k (suc n) = a k ∷ slice a (k + 1) n

module _ {ℓ} {A : Type ℓ} where
  pub length-slice : (a : ℕ → A) (k n : ℕ) → length (slice a k n) ≡ n
  length-slice a k zero = refl
  length-slice a k (suc n) = ap suc (length-slice a (k + 1) n)

  -- Two arrays that agree on a range have the same slice there.
  pub slice_ext :
      (a b : ℕ → A) (k n : ℕ)
      → ((i : ℕ) → k ≤ i → i < k + n → a i ≡ b i)
      → slice a k n ≡ slice b k n
  slice_ext a b k zero h = refl
  slice_ext a b k (suc n) h =
      ap₂ ◌∷◌ (h k (omega arith) (omega arith))
        (slice_ext a b (k + 1) n (λ i p q. h i (omega arith) (omega arith)))

  -- A write outside a range leaves its slice.
  pub slice-update_ne :
      (a : ℕ → A) (k n i : ℕ) (v : A) → i < k → slice (update a i v) k n ≡ slice a k n
  slice-update_ne a k n i v h = slice_ext (update a i v) a k n (λ j p q. ground arith)

  -- Consecutive array writes `a[k] = x; a[k + 1] = y; ...`.
  unfoldable pub fill : (ℕ → A) → ℕ → List A → ℕ → A
  fill a k [] = a
  fill a k (x ∷ xs) = fill (update a k x) (k + 1) xs

  pub fill_below : (a : ℕ → A) (k : ℕ) (xs : List A) (i : ℕ) → i < k → fill a k xs i ≡ a i
  unfolding fill
  fill_below a k [] i h = refl
  fill_below a k (x ∷ xs) i h = fill_below (update a k x) (k + 1) xs i (omega arith) ∙ ground arith

  pub slice-fill : (a : ℕ → A) (k : ℕ) (xs : List A) → slice (fill a k xs) k (length xs) ≡ xs
  unfolding fill
  slice-fill a k [] = refl
  slice-fill a k (x ∷ xs) =
      ap₂ ◌∷◌ (fill_below (update a k x) (k + 1) xs k (omega arith) ∙ ground arith)
        (slice-fill (update a k x) (k + 1) xs)

  pub fill-append :
      (a : ℕ → A) (k : ℕ) (xs ys : List A)
      → fill a k (xs ++ ys) ≡ fill (fill a k xs) (k + length xs) ys
  unfolding fill
  fill-append a k [] ys = ap (λ j. fill a j ys) (omega arith)
  fill-append a k (x ∷ xs) ys =
      fill-append (update a k x) (k + 1) xs ys
      ∙ ap (λ j. fill (fill (update a k x) (k + 1) xs) j ys) (omega arith)

  -- A slice as the map of a shifted array.
  pub slice_shift :
      (a b : ℕ → A) (k j n : ℕ)
      → ((i : ℕ) → i < n → a (k + i) ≡ b (j + i))
      → slice a k n ≡ slice b j n
  slice_shift a b k j zero h = refl
  slice_shift a b k j (suc n) h =
      ap₂ ◌∷◌ (subst (λ t. a t ≡ b (j + 0)) (omega arith) (h 0 (omega arith)) ∙ ap b (omega arith))
        (slice_shift a b (k + 1) (j + 1) n
          (λ i p. ap a (omega arith) ∙ h (suc i) (omega arith) ∙ ap b (omega arith)))

  pub slice-snoc : (a : ℕ → A) (k n : ℕ) → slice a k (suc n) ≡ slice a k n ++ (a (k + n) ∷ [])
  slice-snoc a k zero = ap (λ i. a i ∷ []) (omega arith)
  slice-snoc a k (suc n) =
      ap (λ xs. a k ∷ xs)
        (slice-snoc a (k + 1) n ∙ ap (λ i. slice a (k + 1) n ++ (a i ∷ [])) (omega arith))

  pub slice-append : (a : ℕ → A) (k m n : ℕ) → slice a k (m + n) ≡ slice a k m ++ slice a (k + m) n
  slice-append a k zero n = ap₂ (slice a) (omega arith) (omega arith)
  slice-append a k (suc m) n =
      ap (slice a k) {y = suc (m + n)} (omega arith)
      ∙ ap (λ xs. a k ∷ xs)
          (slice-append a (k + 1) m n ∙ ap (λ j. slice a (k + 1) m ++ slice a j n) (omega arith))
