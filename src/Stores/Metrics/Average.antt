-- ===== src/Stores/Metrics/Average.antt =====
-- metrics-store.ts: the average response time.
use sardeenz.Base.{
  ◌==◌, same_refl, length, ℕ, suc, ◌+◌, ◌-◌, ◌*◌, ◌<◌, String, ◌≡◌, refl, subst, Bool, true, false,
  some, List, [], ◌∷◌, arith, string_key, string_key,
}
use sardeenz.Base.Dict.{get-modify}
use sardeenz.Stores.Metrics.{
  recorded, record_request, get, MetricsStore, next_mean, not_a_number, Mean, missing, ratio,
  ResourceMetrics, MetricsStore, recorded, record_request,
}

abbrev pub idle : ResourceMetrics
idle = record {
  active_connections = 0;
  total_requests = 0;
  successful_requests = 0;
  failed_requests = 0;
  average = missing;
}

-- Requests that succeed, with their durations.
unfoldable pub record_successes : String → List ℕ → MetricsStore → MetricsStore
record_successes path [] s = s
record_successes path (d ∷ ds) s = record_successes path ds (record_request path true d s)

abbrev pub succeed : List ℕ → ResourceMetrics → ResourceMetrics
succeed [] m = m
succeed (d ∷ ds) m = succeed ds (recorded true d m)

unfoldable pub sum : List ℕ → ℕ
sum [] = 0
sum (d ∷ ds) = d + sum ds

-- The fraction is `t / k`.
pub record IsMean (a : Mean) (t k : ℕ) : Type 0 where
  pub top : ℕ
  pub bottom : ℕ
  pub is_ratio : a ≡ ratio top bottom
  pub positive : 0 < bottom
  pub exact : top * k ≡ bottom * t

cross : (n d x t k : ℕ) → n * k ≡ d * t → (n * k + x * d) * (k + 1) ≡ d * (k + 1) * (x + t)
cross n d x t k h = rw (h) (grind arith)

next-IsMean : (a : Mean) (x t k : ℕ) → IsMean a t k → IsMean (next_mean a (k + 1) x) (x + t) (k + 1)
unfolding next_mean
next-IsMean a x t k h =
    let z : (k + 1 == 0) ≡ false = ground arith in
    let m : k + 1 - 1 ≡ k = omega arith in
    rw (h.is_ratio, z, m)
      (record {
        top = h.top * k + x * h.bottom;
        bottom = h.bottom * (k + 1);
        is_ratio = refl;
        positive = grind (arith, h.positive);
        exact = cross h.top h.bottom x t k h.exact;
      })

succeed-IsMean :
    (ds : List ℕ) (m : ResourceMetrics) (t : ℕ)
    → IsMean m.average t m.successful_requests
    → IsMean (succeed ds m).average (sum ds + t) (length ds + m.successful_requests)
unfolding sum
succeed-IsMean [] m t h =
    let p : 0 + t ≡ t = omega arith in
    let q : 0 + m.successful_requests ≡ m.successful_requests = omega arith in rw (p, q) h
succeed-IsMean (d ∷ ds) m t h =
    let k = m.successful_requests in
    let p : sum ds + (d + t) ≡ d + sum ds + t = omega arith in
    let q : length ds + (k + 1) ≡ suc (length ds) + k = omega arith in
    subst (λ n. IsMean (succeed ds (recorded true d m)).average n (suc (length ds) + k)) p
      (subst (λ n. IsMean (succeed ds (recorded true d m)).average (sum ds + (d + t)) n) q
        (succeed-IsMean ds (recorded true d m) (d + t) (next-IsMean m.average d t k h)))

get-recorded :
    (path : String) (ok : Bool) (d : ℕ) (s : MetricsStore) (m : ResourceMetrics)
    → get path s ≡ some m
    → get path (record_request path ok d s) ≡ some (recorded ok d m)
unfolding record_request get
get-recorded path ok d s m h =
    ground (arith, get-modify path path (recorded ok d) s.metrics, same_refl {K = String} path)

get-record_successes :
    (path : String) (ds : List ℕ) (s : MetricsStore) (m : ResourceMetrics)
    → get path s ≡ some m
    → get path (record_successes path ds s) ≡ some (succeed ds m)
unfolding record_successes record_request get
get-record_successes path [] s m h = h
get-record_successes path (d ∷ ds) s m h =
    get-record_successes path ds (record_request path true d s) (recorded true d m)
      (get-recorded path true d s m h)

-- After requests that all succeed, one at least, the average response time of a model that had none
-- before is the sum of their durations divided by their number.
pub record_successes-IsMean :
    (path : String) (d : ℕ) (ds : List ℕ) (s : MetricsStore)
    → get path s ≡ some idle
    → (m : ResourceMetrics) × (get path (record_successes path (d ∷ ds) s) ≡ some m)
      × IsMean m.average (sum (d ∷ ds)) (length (d ∷ ds))
unfolding sum next_mean
record_successes-IsMean path d ds s h =
    let one = recorded true d idle in
    let p : sum ds + d ≡ d + sum ds = omega arith in
    let q : length ds + 1 ≡ suc (length ds) = omega arith in
    (
      succeed (d ∷ ds) idle,
      get-record_successes path (d ∷ ds) s idle h,
      subst (λ n. IsMean (succeed ds one).average n (suc (length ds))) p
          (subst (λ n. IsMean (succeed ds one).average (sum ds + d) n) q
            (succeed-IsMean ds one d (record {
              top = d;
              bottom = 1;
              is_ratio = refl;
              positive = omega arith;
              exact = omega arith;
            }))),
    )

-- Two failures and no success leave a model whose average response time is not a number.
pub record_failures :
    (path : String) (d e : ℕ) (s : MetricsStore)
    → get path s ≡ some idle
    → (m : ResourceMetrics) × (get path
          (record_request path false e (record_request path false d s))
        ≡ some m)
      × (m.average ≡ not_a_number)
unfolding next_mean
record_failures path d e s h = (
  recorded false e (recorded false d idle),
  get-recorded path false e (record_request path false d s) (recorded false d idle)
      (get-recorded path false d s idle h),
  refl,
)
