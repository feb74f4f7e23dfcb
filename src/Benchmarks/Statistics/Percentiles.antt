-- ===== src/Benchmarks/Statistics/Percentiles.antt =====
-- benchmark-runner.ts: what the statistics of a scenario satisfy.
use native.Mathlib.Nat.{mul-le-mul_right}
use native.Mathlib.Nat.{mul-le-mul_right}
use sardeenz.Base.{
  ltb, leb, ◌==◌, Bool-cases, length, filter, All, length-filter-le, ℕ, suc, ◌+◌, ◌-◌, ◌*◌, ◌≤◌,
  min, max, ◌≡◌, refl, ap, ◌∙◌, subst, inl, inr, Bool, true, false, not, some, List, [], ◌∷◌, arith,
}
use sardeenz.Base.Sort.{sort, Sorted, sort-Sorted}
use sardeenz.Base.Sort.{sort}
use sardeenz.Benchmarks.Statistics.{
  summary_of, summary_of_sorted, summarize, RequestResult, goodput, calculate_metrics, total,
  Summary, at, between, percentile, le_num, least, greatest,
}
use sardeenz.Benchmarks.Statistics.Order.{between_mono, between_whole}

sort_num-Sorted : (xs : List ℕ) → Sorted le_num (sort le_num xs)
sort_num-Sorted =
    sort-Sorted le_num
      (λ a b. elim (Bool-cases (leb a b)) [ inl e ↦ inl e | inr e ↦ inr (ground arith) ])
      (λ a b c h k. ground arith)

percentile_cons :
    (x : ℕ) (xs : List ℕ) (p : ℕ) → percentile (x ∷ xs) p ≡ between (x ∷ xs) (p * length xs)
unfolding percentile
percentile_cons x xs p =
    let z : (suc (length xs) == 0) ≡ false = ground arith in
    let d : suc (length xs) - 1 ≡ length xs = omega arith in rw (z, d) refl

percentile_mono :
    (x : ℕ) (xs : List ℕ) (p q : ℕ)
    → Sorted le_num (x ∷ xs)
    → p ≤ q
    → q ≤ 100
    → percentile (x ∷ xs) p ≤ percentile (x ∷ xs) q
percentile_mono x xs p q o h k =
    rw (percentile_cons x xs p, percentile_cons x xs q)
      (between_mono (x ∷ xs) (p * length xs) (q * length xs) o (mul-le-mul_right (length xs) h)
        (omega (arith, mul-le-mul_right (length xs) k)))

percentile_zero : (x : ℕ) (xs : List ℕ) → percentile (x ∷ xs) 0 ≡ 100 * x
unfolding at
percentile_zero x xs =
    let e : 0 * length xs ≡ 0 * 100 = omega arith in
    percentile_cons x xs 0 ∙ ap (between (x ∷ xs)) e ∙ between_whole (x ∷ xs) 0

percentile_hundred : (x : ℕ) (xs : List ℕ) → percentile (x ∷ xs) 100 ≡ 100 * at (x ∷ xs) (length xs)
percentile_hundred x xs =
    let e : 100 * length xs ≡ length xs * 100 = omega arith in
    percentile_cons x xs 100 ∙ ap (between (x ∷ xs)) e ∙ between_whole (x ∷ xs) (length xs)

-- The first of a sorted list is its least, and the last its greatest.
least_first : (x : ℕ) (xs : List ℕ) → All (λ y. leb x y ≡ true) xs → least x xs ≡ x
unfolding least
least_first x [] h = refl
least_first x (y ∷ ys) h = let e : min x y ≡ x = ground arith in rw e (least_first x ys h.1)

greatest_last :
    (x : ℕ) (xs : List ℕ) → Sorted le_num (x ∷ xs) → greatest x xs ≡ at (x ∷ xs) (length xs)
unfolding greatest at
greatest_last x [] h = refl
greatest_last x (y ∷ ys) h = let e : max x y ≡ y = ground arith in rw e (greatest_last y ys h.1)

-- The statistics of one kind of values, in order: the least, the percentiles and the greatest. The
-- percentiles are held a hundredfold.
pub record IsOrdered (s : Summary) : Type 0 where
  pub low : 100 * s.least ≤ s.p50
  pub p90_ok : s.p50 ≤ s.p90
  pub p95_ok : s.p90 ≤ s.p95
  pub p99_ok : s.p95 ≤ s.p99
  pub high : s.p99 ≤ 100 * s.greatest
  pub low_average : s.average.1 * s.least ≤ s.average.0
  pub high_average : s.average.0 ≤ s.average.1 * s.greatest

total_low : (a : ℕ) (xs : List ℕ) → All (λ y. leb a y ≡ true) xs → length xs * a ≤ total xs
unfolding total
total_low a [] h = omega arith
total_low a (x ∷ xs) h = let k : a ≤ x = ground arith in omega (arith, total_low a xs h.1, k)

total_high : (a : ℕ) (xs : List ℕ) → All (λ y. leb y a ≡ true) xs → total xs ≤ length xs * a
unfolding total
total_high a [] h = omega arith
total_high a (x ∷ xs) h = let k : x ≤ a = ground arith in omega (arith, total_high a xs h.1, k)

greatest_ge : (a : ℕ) (xs : List ℕ) → a ≤ greatest a xs
unfolding greatest
greatest_ge a [] = omega arith
greatest_ge a (x ∷ xs) = omega (arith, greatest_ge (max a x) xs)

greatest_above : (a : ℕ) (xs : List ℕ) → All (λ y. leb y (greatest a xs) ≡ true) xs
unfolding greatest
greatest_above a [] = tt
greatest_above a (x ∷ xs) = (ground (arith, greatest_ge (max a x) xs), greatest_above (max a x) xs)

summary_of-IsOrdered : (x : ℕ) (xs : List ℕ) → Sorted le_num (x ∷ xs) → IsOrdered (summary_of x xs)
summary_of-IsOrdered x xs o = record {
  low =
      rw (least_first x xs o.0, ← percentile_zero x xs)
        (percentile_mono x xs 0 50 o (omega arith) (omega arith));
  p90_ok = percentile_mono x xs 50 90 o (omega arith) (omega arith);
  p95_ok = percentile_mono x xs 90 95 o (omega arith) (omega arith);
  p99_ok = percentile_mono x xs 95 99 o (omega arith) (omega arith);
  high =
      rw (greatest_last x xs o, ← percentile_hundred x xs)
        (percentile_mono x xs 99 100 o (omega arith) (omega arith));
  low_average = rw (least_first x xs o.0) (total_low x (x ∷ xs) (ground arith, o.0));
  high_average =
      total_high (greatest x xs) (x ∷ xs) (ground (arith, greatest_ge x xs), greatest_above x xs);
}

from_some : (a b : Summary) → some a ≡ some b → a ≡ b
from_some a b h = cc

summary_of_sorted-IsOrdered :
    (xs : List ℕ) (s : Summary) → Sorted le_num xs → summary_of_sorted xs ≡ some s → IsOrdered s
unfolding summary_of_sorted
summary_of_sorted-IsOrdered [] s o h = cc
summary_of_sorted-IsOrdered (x ∷ xs) s o h =
    subst IsOrdered (from_some (summary_of x xs) s h) (summary_of-IsOrdered x xs o)

-- The statistics of any values that there are: the least is at most each percentile and the average, the
-- percentiles grow, and the greatest is at least each of them. (With no values there are none.)
pub summarize-IsOrdered : (values : List ℕ) (s : Summary) → summarize values ≡ some s → IsOrdered s
unfolding summarize
summarize-IsOrdered values s h =
    summary_of_sorted-IsOrdered (sort le_num values) s (sort_num-Sorted values) h

filter-not :
    (p : RequestResult → Bool) (xs : List RequestResult)
    → length (filter p xs) + length (filter (λ x. not (p x)) xs) ≡ length xs
filter-not p [] = omega arith
filter-not p (x ∷ xs) = ground (arith, filter-not p xs)

-- The counts add up: each request succeeded or failed, and at most the successful ones are in time.
pub calculate_metrics_counts :
    (results : List RequestResult) (sla : ℕ)
    → let m = calculate_metrics results (some sla) in
      (m.successful_requests + m.failed_requests ≡ m.total_requests)
      × (m.goodput_count
          ≡ some (length (filter (λ r. ltb r.total_latency sla) (filter (λ r. r.success) results))))
      × (length (filter (λ r. ltb r.total_latency sla) (filter (λ r. r.success) results))
          ≤ m.successful_requests)
unfolding calculate_metrics goodput
calculate_metrics_counts results sla = (
  filter-not (λ r. r.success) results,
  refl,
  length-filter-le (λ r. ltb r.total_latency sla) (filter (λ r. r.success) results),
)
