-- ===== src/Benchmarks/Statistics.antt =====
-- apps/backend/src/services/benchmark-runner.ts, `percentile` and `calculateMetrics`. Latencies and rates are
-- whole numbers of a unit that is small enough. A percentile is a hundredth of what is computed here, which
-- keeps it whole; an average and a rate are the pair of a sum and what it is divided by. The rounding of
-- floating-point numbers is left out.
pub mod Order
pub mod Percentiles
use sardeenz.Base.{
  ltb, leb, ◌==◌, if◌then◌else◌, length, get_elem?, filter, ℕ, ◌+◌, ◌-◌, ◌*◌, ◌/◌, ◌%◌, min, max,
  Bool, not, Option, none, some, List, [], ◌∷◌, map,
}
use sardeenz.Base.Sort.{sort}

abbrev or_zero : Option ℕ → ℕ
or_zero none = 0
or_zero (some n) = n

-- `sorted[i]`.
unfoldable pub at : List ℕ → ℕ → ℕ
unfolding or_zero
at xs i = or_zero (get_elem? xs i)

-- A hundred times the value at `scaled` hundredths of an index.
unfoldable pub between : List ℕ → ℕ → ℕ
between xs scaled =
    let lower = scaled / 100 in
    let rest = scaled % 100 in
    if rest == 0
    then 100 * at xs lower
    else 100 * at xs lower + (at xs (lower + 1) - at xs lower) * rest

-- A hundred times `percentile(sorted, p)`.
unfoldable pub percentile : List ℕ → ℕ → ℕ
percentile sorted p = if length sorted == 0 then 0 else between sorted (p * (length sorted - 1))

abbrev pub le_num : ℕ → ℕ → Bool
le_num a b = leb a b

-- `Math.min(...values)` and `Math.max(...values)`, from a first value on.
unfoldable pub least : ℕ → List ℕ → ℕ
least a [] = a
least a (x ∷ xs) = least (min a x) xs

unfoldable pub greatest : ℕ → List ℕ → ℕ
greatest a [] = a
greatest a (x ∷ xs) = greatest (max a x) xs

unfoldable pub total : List ℕ → ℕ
total [] = 0
total (x ∷ xs) = x + total xs

pub record Summary : Type 0 where
  pub least : ℕ
  pub greatest : ℕ
  pub average : ℕ × ℕ
  pub p50 : ℕ
  pub p90 : ℕ
  pub p95 : ℕ
  pub p99 : ℕ

abbrev pub summary_of : ℕ → List ℕ → Summary
summary_of x xs = record {
  least = least x xs;
  greatest = greatest x xs;
  average = (total (x ∷ xs), length (x ∷ xs));
  p50 = percentile (x ∷ xs) 50;
  p90 = percentile (x ∷ xs) 90;
  p95 = percentile (x ∷ xs) 95;
  p99 = percentile (x ∷ xs) 99;
}

unfoldable pub summary_of_sorted : List ℕ → Option Summary
summary_of_sorted [] = none
summary_of_sorted (x ∷ xs) = some (summary_of x xs)

-- Seven fields of the metrics, for the values of one kind.
unfoldable pub summarize : List ℕ → Option Summary
summarize values = summary_of_sorted (sort le_num values)

pub record RequestResult : Type 0 where
  pub sequence : ℕ
  pub ttft : Option ℕ
  pub total_latency : ℕ
  pub completion_tokens : Option ℕ
  pub tokens_per_second : Option ℕ
  pub success : Bool

-- `filter((v) => v !== undefined)`.
unfoldable pub present : List (Option ℕ) → List ℕ
present [] = []
present (none ∷ os) = present os
present (some n ∷ os) = n ∷ present os

pub record Metrics : Type 0 where
  pub ttft : Option Summary
  pub tps : Option Summary
  pub e2e : Option Summary
  pub goodput_count : Option ℕ
  pub goodput_percent : Option (ℕ × ℕ)
  pub total_requests : ℕ
  pub successful_requests : ℕ
  pub failed_requests : ℕ
  pub requests_per_time : Option (ℕ × ℕ)
  pub tokens_per_time : Option (ℕ × ℕ)

-- A quotient, where its divisor is not 0.
abbrev pub quotient : ℕ → ℕ → Option (ℕ × ℕ)
quotient a b = if b == 0 then none else some (a, b)

abbrev some_positive : ℕ → Option (ℕ × ℕ) → Option (ℕ × ℕ)
some_positive a o = if a == 0 then none else o

unfoldable pub goodput : Option ℕ → List RequestResult → Option ℕ
goodput none successful = none
goodput (some sla) successful = some (length (filter (λ r. ltb r.total_latency sla) successful))

abbrev pub percent_of : ℕ → Option ℕ → Option (ℕ × ℕ)
percent_of n none = none
percent_of n (some count) = some (if n == 0 then (0, 1) else (count * 100, n))

unfoldable pub calculate_metrics : List RequestResult → Option ℕ → Metrics
unfolding some_positive or_zero
calculate_metrics results sla =
    let successful = filter (λ r. r.success) results in
    let failed = filter (λ r. not r.success) results in
    let time = total (map (λ r. r.total_latency) successful) in
    let tokens = total (map (λ r. or_zero r.completion_tokens) successful) in
    let good = goodput sla successful in
    record {
      ttft = summarize (present (map (λ r. r.ttft) successful));
      tps = summarize (present (map (λ r. r.tokens_per_second) successful));
      e2e = summarize (map (λ r. r.total_latency) successful);
      goodput_count = good;
      goodput_percent = percent_of (length results) good;
      total_requests = length results;
      successful_requests = length successful;
      failed_requests = length failed;
      requests_per_time = quotient (length results) time;
      tokens_per_time = some_positive tokens (quotient tokens time);
    }
