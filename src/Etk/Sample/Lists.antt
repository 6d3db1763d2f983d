-- ===== src/Etk/Sample/Lists.antt =====
-- A bounded list: what stands behind the first `cap` elements is not looked at.
use pico_lan.Prelude.{
  ℕ, zero, suc, ◌<◌, ◌≤◌, ◌≡◌, refl, ap, ◌∙◌, List, [], ◌∷◌, ◌++◌, length, length-append, slice,
  ltb, false, if◌then◌else◌, arith,
}
use pico_lan.Etk.{EtkList}
use pico_lan.Etk.Items.{IgnoresFull}

module _ {A : Type 0} where
  abbrev pub take : ℕ → List A → List A
  take zero xs = []
  take (suc n) [] = []
  take (suc n) (x ∷ xs) = x ∷ take n xs

  abbrev pub get_or : List A → ℕ → A → A
  get_or [] i d = d
  get_or (x ∷ xs) zero d = x
  get_or (x ∷ xs) (suc i) d = get_or xs i d

  abbrev pub remove_at : List A → ℕ → List A
  remove_at [] i = []
  remove_at (x ∷ xs) zero = xs
  remove_at (x ∷ xs) (suc i) = x ∷ remove_at xs i

  abbrev pub append_in : ℕ → List A → A → List A
  append_in cap xs a = if ltb (length xs) cap then xs ++ (a ∷ []) else xs

  pub length-take : (n : ℕ) (xs : List A) → length (take n xs) ≤ n
  length-take zero xs = omega arith
  length-take (suc n) [] = omega arith
  length-take (suc n) (x ∷ xs) = omega (arith, length-take n xs)

  pub take_all : (n : ℕ) (xs : List A) → length xs ≤ n → take n xs ≡ xs
  take_all zero [] h = refl
  take_all zero (x ∷ xs) h = absurd (omega arith)
  take_all (suc n) [] h = refl
  take_all (suc n) (x ∷ xs) h = ap (λ t. x ∷ t) (take_all n xs (omega arith))

  pub get_or-append_last : (xs : List A) (a d : A) → get_or (xs ++ (a ∷ [])) (length xs) d ≡ a
  get_or-append_last [] a d = refl
  get_or-append_last (x ∷ xs) a d = get_or-append_last xs a d

  pub get_or-append_old :
      (xs : List A) (a d : A) (i : ℕ) → i < length xs → get_or (xs ++ (a ∷ [])) i d ≡ get_or xs i d
  get_or-append_old [] a d i h = absurd (omega arith)
  get_or-append_old (x ∷ xs) a d zero h = refl
  get_or-append_old (x ∷ xs) a d (suc i) h = get_or-append_old xs a d i (omega arith)

  pub length-remove_at :
      (xs : List A) (i : ℕ) → i < length xs → suc (length (remove_at xs i)) ≡ length xs
  length-remove_at [] i h = absurd (omega arith)
  length-remove_at (x ∷ xs) zero h = refl
  length-remove_at (x ∷ xs) (suc i) h = ap suc (length-remove_at xs i (omega arith))

  pub length-remove_at-le : (xs : List A) (i : ℕ) → length (remove_at xs i) ≤ length xs
  length-remove_at-le [] i = omega arith
  length-remove_at-le (x ∷ xs) zero = omega arith
  length-remove_at-le (x ∷ xs) (suc i) = omega (arith, length-remove_at-le xs i)

  pub get_or-remove_before :
      (xs : List A) (i j : ℕ) (d : A) → j < i → get_or (remove_at xs i) j d ≡ get_or xs j d
  get_or-remove_before [] i j d h = refl
  get_or-remove_before (x ∷ xs) zero j d h = absurd (omega arith)
  get_or-remove_before (x ∷ xs) (suc i) zero d h = refl
  get_or-remove_before (x ∷ xs) (suc i) (suc j) d h = get_or-remove_before xs i j d (omega arith)

  pub get_or-remove_after :
      (xs : List A) (i j : ℕ) (d : A) → i ≤ j → get_or (remove_at xs i) j d ≡ get_or xs (suc j) d
  get_or-remove_after [] i j d h = refl
  get_or-remove_after (x ∷ xs) zero j d h = refl
  get_or-remove_after (x ∷ xs) (suc i) zero d h = absurd (omega arith)
  get_or-remove_after (x ∷ xs) (suc i) (suc j) d h = get_or-remove_after xs i j d (omega arith)

  pub append_in-room :
      (cap : ℕ) (xs : List A) (a : A) → length xs < cap → append_in cap xs a ≡ xs ++ (a ∷ [])
  append_in-room cap xs a h = ground arith

  pub take-append_in :
      (cap : ℕ) (xs : List A) (a : A)
      → length xs < cap
      → take cap (append_in cap xs a) ≡ xs ++ (a ∷ [])
  take-append_in cap xs a h =
      ap (take cap) (append_in-room cap xs a h)
      ∙ take_all cap (xs ++ (a ∷ [])) (omega (arith, length-append xs (a ∷ [])))

  pub take-remove_at :
      (cap : ℕ) (xs : List A) (i : ℕ) → length xs ≤ cap → take cap (remove_at xs i) ≡ remove_at xs i
  take-remove_at cap xs i h =
      take_all cap (remove_at xs i) (omega (arith, length-remove_at-le xs i))

abbrev pub list_of : (A : Type 0) (cap : ℕ) → A → EtkList A cap
list_of A cap d = record {
  Rep = List A;
  empty = [];
  append = λ l a. append_in cap (take cap l) a;
  remove = λ l i. remove_at (take cap l) i;
  size = λ l. length (take cap l);
  get = λ l i. get_or (take cap l) i d;
  size-le-cap = λ l. length-take cap l;
  size-empty = ap length (take_all cap [] (omega arith));
  size-append = λ l a h.
      ap length (take-append_in cap (take cap l) a h)
      ∙ length-append (take cap l) (a ∷ [])
      ∙ omega arith;
  get-append_last = λ l a h.
      ap (λ t. get_or t (length (take cap l)) d) (take-append_in cap (take cap l) a h)
      ∙ get_or-append_last (take cap l) a d;
  get-append_old = λ l a i h p.
      ap (λ t. get_or t i d) (take-append_in cap (take cap l) a h)
      ∙ get_or-append_old (take cap l) a d i p;
  size-remove = λ l i h.
      ap (λ t. suc (length t)) (take-remove_at cap (take cap l) i (length-take cap l))
      ∙ length-remove_at (take cap l) i h;
  get-remove_before = λ l i j h p.
      ap (λ t. get_or t j d) (take-remove_at cap (take cap l) i (length-take cap l))
      ∙ get_or-remove_before (take cap l) i j d p;
  get-remove_after = λ l i j h p.
      ap (λ t. get_or t j d) (take-remove_at cap (take cap l) i (length-take cap l))
      ∙ get_or-remove_after (take cap l) i j d h;
}

-- A full list keeps its elements when something is appended.
pub append_in_full :
    {A : Type 0} (cap : ℕ) (xs : List A) (a : A)
    → length (take cap xs) ≡ cap
    → take cap (append_in cap (take cap xs) a) ≡ take cap xs
append_in_full cap xs a full =
    ap (λ b. take cap (if b then take cap xs ++ (a ∷ []) else take cap xs))
      (none_below (length (take cap xs)) full)
    ∙ take_all cap (take cap xs) (length-take cap xs)
  where
    none_below : (n : ℕ) → n ≡ cap → ltb n cap ≡ false
    none_below n e = ground arith

pub list_of-IgnoresFull : (A : Type 0) (cap : ℕ) (d : A) → IgnoresFull (list_of A cap d)
list_of-IgnoresFull A cap d l a full =
    ap (λ xs. slice (λ i. get_or xs i d) 0 (length xs)) (append_in_full cap l a full)
