-- ===== src/Prelude/Slices.antt =====
-- `take` and `drop` of joined lists, at native lengths.
use Prim.Native.Nat.{ℕ, zero, suc, ◌+◌, ◌≤◌}
use mathlib.Core.Path.{◌≡◌, refl, ap, sym, ◌∙◌}
use mathlib.Core.List.{List, [], ◌∷◌, ◌++◌}
use native.Mathlib.Omega.{arith}
use shujugongxiang.Prelude.Lists.{length, take, drop}

module _ {ℓ} {A : Type ℓ} where
  drop_nil : (n : ℕ) → drop {A = A} n [] ≡ []
  drop_nil zero = refl
  drop_nil (suc n) = refl

  take_nil : (n : ℕ) → take {A = A} n [] ≡ []
  take_nil zero = refl
  take_nil (suc n) = refl

  pub take_all : (n : ℕ) (xs : List A) → length xs ≤ n → take n xs ≡ xs
  take_all zero [] h = refl
  take_all zero (x ∷ xs) h = absurd (omega arith)
  take_all (suc n) [] h = refl
  take_all (suc n) (x ∷ xs) h = ap (λ t. x ∷ t) (take_all n xs (omega arith))

  pub drop_all : (n : ℕ) (xs : List A) → length xs ≤ n → drop n xs ≡ []
  drop_all zero [] h = refl
  drop_all zero (x ∷ xs) h = absurd (omega arith)
  drop_all (suc n) [] h = refl
  drop_all (suc n) (x ∷ xs) h = drop_all n xs (omega arith)

  pub take-append_le : (n : ℕ) (xs ys : List A) → n ≤ length xs → take n (xs ++ ys) ≡ take n xs
  take-append_le zero xs ys h = refl
  take-append_le (suc n) [] ys h = absurd (omega arith)
  take-append_le (suc n) (x ∷ xs) ys h = ap (λ t. x ∷ t) (take-append_le n xs ys (omega arith))

  pub drop-append_le :
      (n : ℕ) (xs ys : List A) → n ≤ length xs → drop n (xs ++ ys) ≡ drop n xs ++ ys
  drop-append_le zero xs ys h = refl
  drop-append_le (suc n) [] ys h = absurd (omega arith)
  drop-append_le (suc n) (x ∷ xs) ys h = drop-append_le n xs ys (omega arith)

  -- The first `n + m` elements, where `n` is the length of the first list.
  pub take-append_ge :
      (n m : ℕ) (xs ys : List A) → length xs ≡ n → take (n + m) (xs ++ ys) ≡ xs ++ take m ys
  take-append_ge n m [] ys e = ap (λ (k : ℕ). take k ys) (omega arith)
  take-append_ge zero m (x ∷ xs) ys e = absurd (omega arith)
  take-append_ge (suc n) m (x ∷ xs) ys e =
      let shift : suc n + m ≡ suc (n + m) = omega arith in
      rw shift (ap (λ t. x ∷ t) (take-append_ge n m xs ys (omega arith)))

  pub drop-append_ge :
      (n m : ℕ) (xs ys : List A) → length xs ≡ n → drop (n + m) (xs ++ ys) ≡ drop m ys
  drop-append_ge n m [] ys e = ap (λ (k : ℕ). drop k ys) (omega arith)
  drop-append_ge zero m (x ∷ xs) ys e = absurd (omega arith)
  drop-append_ge (suc n) m (x ∷ xs) ys e =
      let shift : suc n + m ≡ suc (n + m) = omega arith in
      rw shift (drop-append_ge n m xs ys (omega arith))

  pub drop-drop : (n m : ℕ) (xs : List A) → drop n (drop m xs) ≡ drop (m + n) xs
  drop-drop n zero xs = ap (λ (k : ℕ). drop k xs) (omega arith)
  drop-drop n (suc m) [] = drop_nil n ∙ sym (drop_nil (suc m + n))
  drop-drop n (suc m) (x ∷ xs) =
      let shift : suc m + n ≡ suc (m + n) = omega arith in rw shift (drop-drop n m xs)

  -- A prefix of `n + m` elements is a prefix of `n` and the next `m`.
  pub take_split : (n m : ℕ) (xs : List A) → take (n + m) xs ≡ take n xs ++ take m (drop n xs)
  take_split zero m xs = ap (λ (k : ℕ). take k xs) (omega arith)
  take_split (suc n) m [] = take_nil (suc n + m) ∙ sym (take_nil m)
  take_split (suc n) m (x ∷ xs) =
      let shift : suc n + m ≡ suc (n + m) = omega arith in
      rw shift (ap (λ t. x ∷ t) (take_split n m xs))
