-- ===== src/Common/Recent.antt =====
-- Slices that are cut to their last elements whenever they grow.
use Prim.Native.Nat.{ℕ, zero, suc, ◌-◌, ◌≤◌}
use mathlib.Core.Path.{◌≡◌, refl, sym, ap, ◌∙◌}
use mathlib.Core.Logic.{inl, inr}
use mathlib.Core.List.{List, [], ◌∷◌, ◌++◌}
use native.Mathlib.Omega.{arith}
use cloud_credit_system.Common.Tests.{ltb, if◌then◌else◌, Bool-cases}
use cloud_credit_system.Common.Lists.{length, drop, length-append}

module _ {ℓ} {A : Type ℓ} where
  -- `if len(xs) > n { xs = xs[len(xs)-n:] }`
  unfoldable pub keep_last : ℕ → List A → List A
  keep_last n xs = if ltb n (length xs) then drop (length xs - n) xs else xs

  drop_as : (j k : ℕ) (xs : List A) → j ≡ k → drop j xs ≡ drop k xs
  drop_as j k xs e = ap (λ i. drop i xs) e

  length-drop : (n : ℕ) (xs : List A) → length (drop n xs) ≡ length xs - n
  length-drop zero xs = omega arith
  length-drop (suc n) [] = omega arith
  length-drop (suc n) (x ∷ xs) = omega (arith, length-drop n xs)

  drop-drop : (n : ℕ) (xs : List A) → drop (suc n) xs ≡ drop 1 (drop n xs)
  drop-drop zero xs = refl
  drop-drop (suc n) [] = refl
  drop-drop (suc n) (x ∷ xs) = drop-drop n xs

  drop-append : (n : ℕ) (xs ys : List A) → n ≤ length xs → drop n (xs ++ ys) ≡ drop n xs ++ ys
  drop-append zero xs ys h = refl
  drop-append (suc n) [] ys h = absurd (omega (arith, h))
  drop-append (suc n) (x ∷ xs) ys h = drop-append n xs ys (omega (arith, h))

  pub length-keep_last : (n : ℕ) (xs : List A) → length (keep_last n xs) ≤ n
  unfolding keep_last
  length-keep_last n xs = elim (Bool-cases (ltb n (length xs))) [
    | inl longer ↦ rw longer (grind (arith, length-drop (length xs - n) xs, longer))
    | inr short ↦ rw short (ground (arith, short))
  ]

  -- A list that has more than `n` elements is cut before its last `n`.
  cut : (n : ℕ) (xs : List A) → n ≤ length xs → keep_last n xs ≡ drop (length xs - n) xs
  unfolding keep_last
  cut n xs h = elim (Bool-cases (ltb n (length xs))) [
    | inl longer ↦ rw longer refl
    | inr short ↦ rw short (drop_as 0 (length xs - n) xs (ground (arith, short, h)))
  ]

  -- One more element after the last `n`.
  one_more :
      (n : ℕ) (d : List A) (x : A)
      → length d ≡ n
      → keep_last n (d ++ (x ∷ [])) ≡ drop 1 (d ++ (x ∷ []))
  one_more n d x h =
      let size = length-append d (x ∷ []) in
      cut n (d ++ (x ∷ [])) (omega (arith, size, h))
      ∙ drop_as (length (d ++ (x ∷ [])) - n) 1 (d ++ (x ∷ [])) (omega (arith, size, h))

  -- Cutting after every element leaves what cutting once does.
  pub keep_last-append :
      (n : ℕ) (xs : List A) (x : A)
      → keep_last n (keep_last n xs ++ (x ∷ [])) ≡ keep_last n (xs ++ (x ∷ []))
  unfolding keep_last
  keep_last-append n xs x = elim (Bool-cases (ltb n (length xs))) [
    | inr short ↦ rw short refl
    | inl longer ↦
        let k = length xs - n in
        let size = length-append xs (x ∷ []) in
        ap (λ ys. keep_last n (ys ++ (x ∷ []))) (cut n xs (ground (arith, longer)))
        ∙ one_more n (drop k xs) x (ground (arith, length-drop k xs, longer))
        ∙ ap (drop 1) (sym (drop-append k xs (x ∷ []) (omega arith)))
        ∙ sym (drop-drop k (xs ++ (x ∷ [])))
        ∙ drop_as (suc k) (length (xs ++ (x ∷ [])) - n) (xs ++ (x ∷ []))
            (ground (arith, size, longer))
        ∙ sym (cut n (xs ++ (x ∷ [])) (ground (arith, size, longer)))
  ]
