-- ===== src/Benchmarks/Statistics/Order.antt =====
-- benchmark-runner.ts, `percentile`: the value grows with the index.
use native.Mathlib.Nat.{mul-le-mul_left}
use sardeenz.Base.{
  leb, ◌==◌, Bool-cases, length, All, ℕ, zero, suc, ◌+◌, ◌-◌, ◌*◌, ◌/◌, ◌%◌, ◌≤◌, ◌<◌, ◌≡◌, refl,
  inl, inr, true, List, [], ◌∷◌, arith,
}
use sardeenz.Base.Sort.{Sorted}
use sardeenz.Benchmarks.Statistics.{at, between, le_num}

first_le :
    (x : ℕ) (xs : List ℕ) (j : ℕ) → All (λ y. leb x y ≡ true) xs → j < length xs → x ≤ at xs j
unfolding at
first_le x [] j h k = absurd (omega arith)
first_le x (y ∷ ys) zero h k = ground arith
first_le x (y ∷ ys) (suc j) h k = first_le x ys j h.1 (omega arith)

-- In a sorted list a later value is not smaller.
pub at_mono : (xs : List ℕ) (i j : ℕ) → Sorted le_num xs → i ≤ j → j < length xs → at xs i ≤ at xs j
unfolding at
at_mono [] i j s h k = absurd (omega arith)
at_mono (x ∷ xs) zero zero s h k = omega arith
at_mono (x ∷ xs) zero (suc j) s h k = first_le x xs j s.0 (omega arith)
at_mono (x ∷ xs) (suc i) zero s h k = absurd (omega arith)
at_mono (x ∷ xs) (suc i) (suc j) s h k = at_mono xs i j s.1 (omega arith) (omega arith)

-- The value between two neighbours, without the test for a whole index.
line : (a b rest : ℕ) → ℕ
line a b rest = 100 * a + (b - a) * rest

between-line :
    (xs : List ℕ) (s : ℕ) → between xs s ≡ line (at xs (s / 100)) (at xs (s / 100 + 1)) (s % 100)
unfolding between line
between-line xs s = elim (Bool-cases (s % 100 == 0)) [
  | inl e ↦ rw (e, between) (let k : s % 100 ≡ 0 = ground arith in rw k (omega arith))
  | inr e ↦ rw (e, between) refl
]

line_mono : (a b r t : ℕ) → r ≤ t → line a b r ≤ line a b t
unfolding line
line_mono a b r t h = omega (arith, mul-le-mul_left (b - a) h)

line_le : (a b r : ℕ) → a ≤ b → r ≤ 100 → line a b r ≤ 100 * b
unfolding line
line_le a b r h k = omega (arith, mul-le-mul_left (b - a) k)

le_line : (a b r : ℕ) → 100 * a ≤ line a b r
unfolding line
le_line a b r = omega arith

same_cell :
    (xs : List ℕ) (k s t : ℕ) → s / 100 ≡ k → t / 100 ≡ k → s ≤ t → between xs s ≤ between xs t
same_cell xs k s t e f h =
    rw (between-line xs s, between-line xs t, e, f)
      (line_mono (at xs k) (at xs (k + 1)) (s % 100) (t % 100) (omega arith))

next_cell :
    (xs : List ℕ) (s t : ℕ)
    → Sorted le_num xs
    → s / 100 < t / 100
    → t / 100 < length xs
    → between xs s ≤ between xs t
next_cell xs s t o h k =
    let a = at xs (s / 100) in
    let b = at xs (s / 100 + 1) in
    let c = at xs (t / 100) in
    let near : a ≤ b = at_mono xs (s / 100) (s / 100 + 1) o (omega arith) (omega arith) in
    let far : b ≤ c = at_mono xs (s / 100 + 1) (t / 100) o (omega arith) k in
    let low : line a b (s % 100) ≤ 100 * b = line_le a b (s % 100) near (omega arith) in
    let high : 100 * c ≤ line c (at xs (t / 100 + 1)) (t % 100) = le_line c _ (t % 100) in
    rw (between-line xs s, between-line xs t) (omega (arith, low, high, far))

pub between_mono :
    (xs : List ℕ) (s t : ℕ)
    → Sorted le_num xs
    → s ≤ t
    → t / 100 < length xs
    → between xs s ≤ between xs t
between_mono xs s t o h k = elim (Bool-cases (s / 100 == t / 100)) [
  | inl e ↦ same_cell xs (t / 100) s t (ground arith) refl h
  | inr e ↦ next_cell xs s t o (ground arith) k
]

pub between_whole : (xs : List ℕ) (i : ℕ) → between xs (i * 100) ≡ 100 * at xs i
unfolding between
between_whole xs i =
    let a : i * 100 / 100 ≡ i = omega arith in
    let b : i * 100 % 100 ≡ 0 = omega arith in rw (a, b) refl
