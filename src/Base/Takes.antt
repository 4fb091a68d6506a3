-- ===== src/Base/Takes.antt =====
-- Laws of `take` and `drop` on appended and nested lists.
use Prim.Native.Nat.{ℕ, zero, suc, ◌+◌, ◌-◌, ◌≤◌, min}
use mathlib.Core.Path.{◌≡◌, refl, ap, ap₂, ◌∙◌, sym}
use mathlib.Core.List.{List, [], ◌∷◌, ◌++◌}
use native.Mathlib.Omega.{arith}
use native.Mathlib.Decide.{dec_le}
use redis_proxy.Base.Lists.{
  length, take, drop, take-nil, drop-nil, drop-all, take-all, length-take, length-drop,
}

module _ {ℓ} {A : Type ℓ} where
  pub take-append_le : (n : ℕ) (xs ys : List A) → n ≤ length xs → take n (xs ++ ys) ≡ take n xs
  take-append_le zero xs ys h = refl
  take-append_le (suc n) [] ys h = absurd (omega arith)
  take-append_le (suc n) (x ∷ xs) ys h = ap (◌∷◌ x) (take-append_le n xs ys (omega arith))

  pub drop-append_le :
      (n : ℕ) (xs ys : List A) → n ≤ length xs → drop n (xs ++ ys) ≡ drop n xs ++ ys
  drop-append_le zero xs ys h = refl
  drop-append_le (suc n) [] ys h = absurd (omega arith)
  drop-append_le (suc n) (x ∷ xs) ys h = drop-append_le n xs ys (omega arith)

  pub take-append_ge :
      (n : ℕ) (xs ys : List A) → length xs ≤ n → take n (xs ++ ys) ≡ xs ++ take (n - length xs) ys
  take-append_ge n [] ys h = ap (λ k. take k ys) (omega arith)
  take-append_ge zero (x ∷ xs) ys h = absurd (omega arith)
  take-append_ge (suc n) (x ∷ xs) ys h =
      ap (◌∷◌ x) (take-append_ge n xs ys (omega arith) ∙ ap (λ k. xs ++ take k ys) (omega arith))

  pub drop-append_ge :
      (n : ℕ) (xs ys : List A) → length xs ≤ n → drop n (xs ++ ys) ≡ drop (n - length xs) ys
  drop-append_ge n [] ys h = ap (λ k. drop k ys) (omega arith)
  drop-append_ge zero (x ∷ xs) ys h = absurd (omega arith)
  drop-append_ge (suc n) (x ∷ xs) ys h =
      drop-append_ge n xs ys (omega arith) ∙ ap (λ k. drop k ys) (omega arith)

  pub drop-take : (n m : ℕ) (xs : List A) → drop n (take m xs) ≡ take (m - n) (drop n xs)
  drop-take zero m xs = ap (λ k. take k xs) (omega arith)
  drop-take (suc n) zero xs =
      ap (λ k. take k (drop (suc n) xs)) {x = 0} {y = 0 - suc n} (omega arith)
  drop-take (suc n) (suc m) [] = sym (take-nil (suc m - suc n))
  drop-take (suc n) (suc m) (x ∷ xs) =
      drop-take n m xs ∙ ap (λ k. take k (drop n xs)) {x = m - n} {y = suc m - suc n} (omega arith)

  pub drop-drop : (n m : ℕ) (xs : List A) → drop n (drop m xs) ≡ drop (m + n) xs
  drop-drop n zero xs = ap (λ k. drop k xs) (omega arith)
  drop-drop n (suc m) [] = drop-nil n ∙ sym (drop-nil (suc m + n))
  drop-drop n (suc m) (x ∷ xs) =
      drop-drop n m xs ∙ ap (λ k. drop k (x ∷ xs)) {x = suc (m + n)} {y = suc m + n} (omega arith)

  pub take-take_le : (n m : ℕ) (xs : List A) → n ≤ m → take n (take m xs) ≡ take n xs
  take-take_le zero m xs h = refl
  take-take_le (suc n) zero xs h = absurd (omega arith)
  take-take_le (suc n) (suc m) [] h = refl
  take-take_le (suc n) (suc m) (x ∷ xs) h = ap (◌∷◌ x) (take-take_le n m xs (omega arith))

  pub take-add : (n m : ℕ) (xs : List A) → take (n + m) xs ≡ take n xs ++ take m (drop n xs)
  take-add zero m xs = ap (λ k. take k xs) (omega arith)
  take-add (suc n) m [] = take-nil (suc n + m) ∙ sym (take-nil m)
  take-add (suc n) m (x ∷ xs) =
      ap (λ k. take k (x ∷ xs)) {x = suc n + m} {y = suc (n + m)} (omega arith)
      ∙ ap (◌∷◌ x) (take-add n m xs)

  -- A range that ends before `e` is read from the first `e` entries.
  pub range-prefix :
      (o n e : ℕ) (xs : List A) → o + n ≤ e → take n (drop o xs) ≡ take n (drop o (take e xs))
  range-prefix o n e xs h =
      sym (take-take_le n (e - o) (drop o xs) (omega arith)) ∙ ap (take n) (sym (drop-take o e xs))

  -- Bytes put behind the first `e` lengthen a range that ends there.
  pub range-extend :
      (o e : ℕ) (xs src rest : List A)
      → o ≤ e
      → e ≤ length xs
      → take (e + length src - o) (drop o (take e xs ++ (src ++ rest)))
        ≡ take (e - o) (drop o xs) ++ src
  range-extend o e xs src rest h k =
      ap (take (e + length src - o))
        (drop-append_le o (take e xs) (src ++ rest) (omega (arith, length-take e xs)))
      ∙ (take-append_ge (e + length src - o) (drop o (take e xs)) (src ++ rest)
            (omega (arith, seen))
          ∙ ap₂ ◌++◌ (drop-take o e xs) tail)
    where
      seen : length (drop o (take e xs)) ≡ e - o
      seen = omega (arith, length-take e xs, length-drop o (take e xs))

      tail : take (e + length src - o - length (drop o (take e xs))) (src ++ rest) ≡ src
      tail =
          ap (λ k. take k (src ++ rest)) {y = length src} (omega (arith, seen))
          ∙ (take-append_le (length src) src rest (omega arith)
              ∙ take-all (length src) src (omega arith))

  -- A range with its first `n` bytes taken off.
  pub range-shrink :
      (o n e : ℕ) (xs : List A)
      → o ≤ e
      → take (e - min e (o + n)) (drop (min e (o + n)) xs) ≡ drop n (take (e - o) (drop o xs))
  range-shrink o n e xs h = elim (dec_le (o + n) e) [
    | yes p ↦
        ap₂ (λ a b. take a (drop b xs)) {y = e - o - n} {v = o + n} (omega arith) (omega arith)
        ∙ sym (drop-take n (e - o) (drop o xs) ∙ ap (take (e - o - n)) (drop-drop n o xs))
    | no p ↦
        ap (λ a. take a (drop (min e (o + n)) xs)) {y = 0} (omega arith)
        ∙ sym
            (drop-all n (take (e - o) (drop o xs)) (omega (arith, length-take (e - o) (drop o xs))))
  ]

  pub take-min_length : (n : ℕ) (xs : List A) → take (min n (length xs)) xs ≡ take n xs
  take-min_length n xs = elim (dec_le (length xs) n) [
    | yes p ↦ take-all (min n (length xs)) xs (omega arith) ∙ sym (take-all n xs p)
    | no p ↦ ap (λ k. take k xs) {x = min n (length xs)} {y = n} (omega arith)
  ]
