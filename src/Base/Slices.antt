-- ===== src/Base/Slices.antt =====
-- Parts of a buffer, `xs[i:j]`, and `copy` into one.
use Prim.Native.Nat.{ℕ, zero, suc, ◌+◌, ◌-◌, ◌≤◌}
use mathlib.Core.Path.{◌≡◌, refl, sym, ap, ap₂, ◌∙◌}
use mathlib.Core.List.{List, [], ◌∷◌, ◌++◌}
use native.Mathlib.Omega.{arith}
use anyproxy.Base.Lists.{
  length, take, drop, length-take, length-drop, length-append, take-append_eq, drop-append_eq,
  take-append-drop,
}

module _ {A : Type 0} where
  -- `xs[i:j]`
  abbrev pub slice : ℕ → ℕ → List A → List A
  slice i j xs = take (j - i) (drop i xs)

  -- `copy(xs[i:], ys)`, where the copy fits
  abbrev pub write_at : List A → ℕ → List A → List A
  write_at xs i ys = take i xs ++ (ys ++ drop (i + length ys) xs)

  pub take-add : (i j : ℕ) (xs : List A) → take (i + j) xs ≡ take i xs ++ take j (drop i xs)
  take-add zero j xs = ap (λ k. take k xs) {x = 0 + j} {y = j} (omega arith)
  take-add (suc i) j [] =
      ap (λ k. take {A = A} k []) {x = suc i + j} {y = suc (i + j)} (omega arith) ∙ sym (empty j)
    where
      empty : (k : ℕ) → take {A = A} k [] ≡ []
      empty zero = refl
      empty (suc k) = refl
  take-add (suc i) j (x ∷ xs) =
      ap (λ k. take k (x ∷ xs)) {x = suc i + j} {y = suc (i + j)} (omega arith)
      ∙ ap (◌∷◌ x) (take-add i j xs)

  pub drop-add : (i j : ℕ) (xs : List A) → drop (i + j) xs ≡ drop j (drop i xs)
  drop-add zero j xs = ap (λ k. drop k xs) {x = 0 + j} {y = j} (omega arith)
  drop-add (suc i) j [] =
      ap (λ k. drop {A = A} k []) {x = suc i + j} {y = suc (i + j)} (omega arith) ∙ sym (empty j)
    where
      empty : (k : ℕ) → drop {A = A} k [] ≡ []
      empty zero = refl
      empty (suc k) = refl
  drop-add (suc i) j (x ∷ xs) =
      ap (λ k. drop k (x ∷ xs)) {x = suc i + j} {y = suc (i + j)} (omega arith) ∙ drop-add i j xs

  pub length-slice : (i j : ℕ) (xs : List A) → j ≤ length xs → length (slice i j xs) ≡ j - i
  length-slice i j xs h = omega (arith, length-take (j - i) (drop i xs), length-drop i xs)

  pub slice-split :
      (i k j : ℕ) (xs : List A) → i ≤ k → k ≤ j → slice i j xs ≡ slice i k xs ++ slice k j xs
  slice-split i k j xs h l =
      ap (λ n. take n (drop i xs)) {x = j - i} {y = (k - i) + (j - k)} (omega arith)
      ∙ take-add (k - i) (j - k) (drop i xs)
      ∙ ap (λ t. slice i k xs ++ take (j - k) t)
          (sym (drop-add i (k - i) xs)
            ∙ ap (λ n. drop n xs) {x = i + (k - i)} {y = k} (omega arith))

  pub slice_empty : (i : ℕ) (xs : List A) → slice i i xs ≡ []
  slice_empty i xs = ap (λ n. take n (drop i xs)) {x = i - i} {y = 0} (omega arith)

  pub length-write_at :
      (xs ys : List A) (i : ℕ) → i + length ys ≤ length xs → length (write_at xs i ys) ≡ length xs
  length-write_at xs ys i h = omega (
    arith,
    length-append (take i xs) (ys ++ drop (i + length ys) xs),
    length-append ys (drop (i + length ys) xs),
    length-take i xs,
    length-drop (i + length ys) xs,
  )

  take-append_le : (n : ℕ) (xs ys : List A) → n ≤ length xs → take n (xs ++ ys) ≡ take n xs
  take-append_le zero xs ys h = refl
  take-append_le (suc n) [] ys h = elim h [ ]
  take-append_le (suc n) (x ∷ xs) ys h = ap (◌∷◌ x) (take-append_le n xs ys (omega arith))

  drop-append_le : (n : ℕ) (xs ys : List A) → n ≤ length xs → drop n (xs ++ ys) ≡ drop n xs ++ ys
  drop-append_le zero xs ys h = refl
  drop-append_le (suc n) [] ys h = elim h [ ]
  drop-append_le (suc n) (x ∷ xs) ys h = drop-append_le n xs ys (omega arith)

  pub slice-append_left :
      (i j : ℕ) (xs ys : List A)
      → i ≤ length xs
      → j ≤ length xs
      → slice i j (xs ++ ys) ≡ slice i j xs
  slice-append_left i j xs ys h l =
      ap (take (j - i)) (drop-append_le i xs ys h)
      ∙ take-append_le (j - i) (drop i xs) ys (omega (arith, length-drop i xs))

  -- What is copied stands behind what stood before it.
  pub slice-write_at :
      (xs ys : List A) (r i : ℕ)
      → r ≤ i
      → i + length ys ≤ length xs
      → slice r (i + length ys) (write_at xs i ys) ≡ slice r i xs ++ ys
  slice-write_at xs ys r i h l =
      let rest = ys ++ drop (i + length ys) xs in
      let front : length (take i xs) ≡ i = omega (arith, length-take i xs) in
      let before : slice r i (take i xs ++ rest) ≡ slice r i xs =
        slice-append_left r i (take i xs) rest (omega arith) (omega arith)
        ∙ sym (slice-append_left r i (take i xs) (drop i xs) (omega arith) (omega arith))
        ∙ ap (slice r i) (take-append-drop i xs) in
      let copied : slice i (i + length ys) (take i xs ++ rest) ≡ ys =
        ap (take (i + length ys - i)) (drop-append_eq (take i xs) rest i (sym front))
        ∙ take-append_eq ys (drop (i + length ys) xs) (i + length ys - i) (omega arith) in
      slice-split r i (i + length ys) (take i xs ++ rest) h (omega arith) ∙ ap₂ ◌++◌ before copied
