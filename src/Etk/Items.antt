-- ===== src/Etk/Items.antt =====
-- The elements of an etk::List in order, and lists filled by repeated `append`.
use pico_lan.Prelude.{
  ℕ, ◌+◌, ◌≤◌, ◌<◌, ◌≡◌, refl, sym, ap, ap₂, ◌∙◌, List, [], ◌∷◌, ◌++◌, length, slice, slice_ext,
  slice-snoc, slice-append, slice_shift, suc, append-nil, append_assoc, arith, length-slice,
}
use pico_lan.Etk.{EtkList}

module _ {A : Type 0} {cap : ℕ} (L : EtkList A cap) where
  open L use {
    Rep, empty, append, remove, size, get, size-empty, size-append, size-remove, get-append_last,
    get-append_old, get-remove_before, get-remove_after,
  }

  abbrev pub items : Rep → List A
  items l = slice (get l) 0 (size l)

  -- `for(...) lst.append(x)`.
  unfoldable pub append_all : Rep → List A → Rep
  append_all l [] = l
  append_all l (x ∷ xs) = append_all (append l x) xs

  pub length-items : (l : Rep) → length (items l) ≡ size l
  length-items l = length-slice (get l) 0 (size l)

  -- Appending to a list with room adds one element at the end.
  pub items-append : (l : Rep) (a : A) → size l < cap → items (append l a) ≡ items l ++ (a ∷ [])
  items-append l a h =
      ap (λ n. slice (get (append l a)) 0 n) (size-append l a h)
      ∙ slice-snoc (get (append l a)) 0 (size l)
      ∙ ap₂ (λ xs x. xs ++ (x ∷ []))
          (slice_ext (get (append l a)) (get l) 0 (size l)
            (λ i p q. get-append_old l a i h (omega arith)))
          (ap (get (append l a)) (omega arith) ∙ get-append_last l a h)

  -- Filling an empty list with at most `cap` elements gives a list of just those.
  pub items-append_all :
      (l : Rep) (xs : List A) → size l + length xs ≤ cap → items (append_all l xs) ≡ items l ++ xs
  unfolding append_all
  items-append_all l [] h = sym (append-nil (items l))
  items-append_all l (x ∷ xs) h =
      items-append_all (append l x) xs (omega (arith, size-append l x (omega arith)))
      ∙ rw (items-append l x (omega arith)) (append_assoc (items l) (x ∷ []) xs)

  pub items-append_all_empty : (xs : List A) → length xs ≤ cap → items (append_all empty xs) ≡ xs
  items-append_all_empty xs h =
      items-append_all empty xs (omega (arith, size-empty))
      ∙ ap (λ n. slice (get empty) 0 n ++ xs) size-empty

  -- Removing the element at index `i` leaves the others in their order.
  pub items-remove :
      (l : Rep) (i rest : ℕ)
      → size l ≡ i + suc rest
      → items (remove l i) ≡ slice (get l) 0 i ++ slice (get l) (i + 1) rest
  items-remove l i rest e =
      ap (λ n. slice (get (remove l i)) 0 n) (omega (arith, size-remove l i (omega arith)))
      ∙ slice-append (get (remove l i)) 0 i rest
      ∙ ap₂ ◌++◌
          (slice_ext (get (remove l i)) (get l) 0 i
            (λ j p q. get-remove_before l i j (omega arith) (omega arith)))
          (slice_shift (get (remove l i)) (get l) (0 + i) (i + 1) rest (λ j p.
            ap (get (remove l i)) {y = i + j} (omega arith)
            ∙ get-remove_after l i (i + j) (omega arith) (omega arith)
            ∙ ap (get l) (omega arith)))

  -- A list without room that is appended to keeps its elements.
  abbrev pub IgnoresFull : Type 0
  IgnoresFull = (l : Rep) (a : A) → size l ≡ cap → items (append l a) ≡ items l

  same_size : (l m : Rep) → items l ≡ items m → size l ≡ size m
  same_size l m e = sym (length-items l) ∙ ap length e ∙ length-items m

  -- A full list keeps its elements whatever is appended.
  items-append_all_full :
      (l : Rep) (xs : List A) → IgnoresFull → size l ≡ cap → items (append_all l xs) ≡ items l
  unfolding append_all
  items-append_all_full l [] drops full = refl
  items-append_all_full l (x ∷ xs) drops full =
      let same = drops l x full in
      items-append_all_full (append l x) xs drops (same_size (append l x) l same ∙ full) ∙ same

  append_all-append :
      (l : Rep) (xs ys : List A) → append_all l (xs ++ ys) ≡ append_all (append_all l xs) ys
  unfolding append_all
  append_all-append l [] ys = refl
  append_all-append l (x ∷ xs) ys = append_all-append (append l x) xs ys

  -- Filling an empty list with at least `cap` elements keeps the first `cap` of them.
  pub items-append_all_cut :
      (xs ys : List A) → IgnoresFull → length xs ≡ cap → items (append_all empty (xs ++ ys)) ≡ xs
  items-append_all_cut xs ys drops full =
      let filled = items-append_all_empty xs (omega (arith, full)) in
      ap items (append_all-append empty xs ys)
      ∙ items-append_all_full (append_all empty xs) ys drops
          (sym (length-items (append_all empty xs)) ∙ ap length filled ∙ full)
      ∙ filled
