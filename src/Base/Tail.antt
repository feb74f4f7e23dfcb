-- ===== src/Base/Tail.antt =====
-- The last items of a list, and lists that are kept to a length by dropping from the front.
use Prim.Native.Nat.{ℕ, zero, suc, ◌+◌, ◌-◌, ◌≤◌}
use mathlib.Core.Path.{◌≡◌, refl, sym, ap, ◌∙◌}
use mathlib.Core.List.{List, [], ◌∷◌, ◌++◌}
use native.Mathlib.Omega.{arith}
use sardeenz.Base.Tests.{◌==◌, if◌then◌else◌}
use sardeenz.Base.Lists.{length, drop, length-drop, length-append}

module _ {ℓ} {A : Type ℓ} where
  -- The last `n` items, or all if there are no more.
  abbrev pub last_items : ℕ → List A → List A
  last_items n xs = drop (length xs - n) xs

  -- `xs.slice(-n)`, which is the whole array for 0.
  abbrev pub slice_back : ℕ → List A → List A
  slice_back n xs = if n == 0 then xs else last_items n xs

  pub length-last_items-le : (n : ℕ) (xs : List A) → length (last_items n xs) ≤ n
  length-last_items-le n xs = omega (arith, length-drop (length xs - n) xs)

  pub drop-zero : (n : ℕ) (xs : List A) → n ≡ 0 → drop n xs ≡ xs
  drop-zero zero xs h = refl
  drop-zero (suc n) xs h = absurd (omega arith)

  pub drop-append : (n : ℕ) (xs ys : List A) → n ≤ length xs → drop n (xs ++ ys) ≡ drop n xs ++ ys
  drop-append zero xs ys h = refl
  drop-append (suc n) [] ys h = absurd (omega arith)
  drop-append (suc n) (x ∷ xs) ys h = drop-append n xs ys (omega arith)

  pub drop_nil : (n : ℕ) → drop {A = A} n [] ≡ []
  drop_nil zero = refl
  drop_nil (suc n) = refl

  pub drop-drop : (m n : ℕ) (xs : List A) → drop m (drop n xs) ≡ drop (n + m) xs
  drop-drop m zero xs = ap (λ (k : ℕ). drop k xs) (omega arith)
  drop-drop m (suc n) [] = drop_nil m ∙ sym (drop_nil (suc n + m))
  drop-drop m (suc n) (x ∷ xs) =
      let step : suc (n + m) ≡ suc n + m = omega arith in
      drop-drop m n xs ∙ ap (λ (k : ℕ). drop k (x ∷ xs)) step

  -- To keep the last items at every step keeps the last items of all.
  pub last_items-append :
      (n : ℕ) (xs ys : List A) → last_items n (last_items n xs ++ ys) ≡ last_items n (xs ++ ys)
  last_items-append n xs ys =
      let a = length xs - n in
      let joined = drop-append a xs ys (omega arith) in
      let count : a + (length (drop a xs ++ ys) - n) ≡ length (xs ++ ys) - n =
        omega (arith, length-append (drop a xs) ys, length-append xs ys, length-drop a xs) in
      ap (drop (length (drop a xs ++ ys) - n)) (sym joined)
      ∙ drop-drop (length (drop a xs ++ ys) - n) a (xs ++ ys)
      ∙ ap (λ (k : ℕ). drop k (xs ++ ys)) count
