-- ===== src/Gpus/Selector/Window.antt =====
-- gpu-selector.ts: the windows of a tensor-parallel model, and that the chosen GPUs are there.
use sardeenz.Base.Sort.{length-sort}
use sardeenz.Base.{
  ltb, leb, ◌==◌, if◌then◌else◌, Bool-cases, length, get_elem?, ℕ, zero, suc, ◌+◌, ◌-◌, ◌≤◌, ◌<◌,
  ◌≡◌, refl, inl, inr, false, some, List, [], ◌∷◌, arith,
}
use sardeenz.Gpus.Selector.{best_window, sorted_by_index, GpuStatus, window, scan}

-- What the scan keeps and finds: the best is a window among those seen, and none of the rest is larger.
scan-best :
    (tp : ℕ) (gpus : List GpuStatus) (start n : ℕ) (best : ℕ × ℕ)
    → let r = scan tp gpus start n best in
      (best.1 ≤ r.1) × ((k : ℕ) → start ≤ k → k < start + n → window tp k gpus ≤ r.1)
unfolding scan
scan-best tp gpus start zero best = (omega arith, λ k l h. absurd (omega arith))
scan-best tp gpus start (suc n) best =
    let total = window tp start gpus in
    let next : ℕ × ℕ = if ltb best.1 total then (start, total) else best in
    let rest = scan-best tp gpus (start + 1) n next in
    let r = scan tp gpus (start + 1) n next in
    let up : best.1 ≤ next.1 = ground arith in
    let here : total ≤ next.1 = ground arith in
    (
      omega (arith, up, rest.0),
      λ k l h. elim (Bool-cases (k == start)) [
        | inl e ↦ let at : k ≡ start = ground (arith, e) in rw at (omega (arith, here, rest.0))
        | inr e ↦
            let after_start : start + 1 ≤ k = ground (arith, e, l) in
            rest.1 k after_start (omega (arith, h))
      ],
    )

-- The memory of the best is that of the window at its start.
scan-attains :
    (tp : ℕ) (gpus : List GpuStatus) (start n : ℕ) (best : ℕ × ℕ)
    → best.1 ≤ window tp best.0 gpus
    → let r = scan tp gpus start n best in r.1 ≤ window tp r.0 gpus
unfolding scan
scan-attains tp gpus start zero best h = h
scan-attains tp gpus start (suc n) best h = elim (Bool-cases (ltb best.1 (window tp start gpus))) [
  | inl e ↦
      rw (e, scan) (scan-attains tp gpus (start + 1) n (start, window tp start gpus) (omega arith))
  | inr e ↦ rw (e, scan) (scan-attains tp gpus (start + 1) n best h)
]

scan-start :
    (tp : ℕ) (gpus : List GpuStatus) (start n limit : ℕ) (best : ℕ × ℕ)
    → start + n ≤ limit + 1
    → best.0 ≤ limit
    → (scan tp gpus start n best).0 ≤ limit
unfolding scan
scan-start tp gpus start zero limit best h b = b
scan-start tp gpus start (suc n) limit best h b =
    scan-start tp gpus (start + 1) n limit _ (omega arith) (ground (arith, h, b))

pub get_elem?-in {ℓ} :
    {A : Type ℓ} (xs : List A) (i : ℕ) → i < length xs → (x : A) × (get_elem? xs i ≡ some x)
get_elem?-in [] i h = absurd (omega arith)
get_elem?-in (x ∷ xs) zero h = (x, refl)
get_elem?-in (x ∷ xs) (suc i) h = get_elem?-in xs i (omega arith)

pub length-sorted_by_index : (gpus : List GpuStatus) → length (sorted_by_index gpus) ≡ length gpus
unfolding sorted_by_index
length-sorted_by_index gpus = length-sort (λ a b. leb a.index b.index) gpus

-- For a size that the GPUs allow, the recommended window is one of theirs, in the order of their indices,
-- and no window of that size has more free memory.
pub best_window_best :
    (tp : ℕ) (gpus : List GpuStatus)
    → 1 ≤ tp
    → tp ≤ length gpus
    → let sorted = sorted_by_index gpus in
      (start : ℕ) × (g : GpuStatus) × (best_window tp gpus ≡ some (g.index, window tp start sorted))
      × (get_elem? sorted start ≡ some g)
      × (start + tp ≤ length gpus)
      × ((k : ℕ) → k + tp ≤ length gpus → window tp k sorted ≤ window tp start sorted)
unfolding best_window
best_window_best tp gpus one few =
    let sorted = sorted_by_index gpus in
    let same_length = length-sorted_by_index gpus in
    let n = length sorted - tp + 1 in
    let r = scan tp sorted 0 n (0, 0) in
    let low : r.0 ≤ length sorted - tp =
      scan-start tp sorted 0 n (length sorted - tp) (0, 0) (omega arith) (omega arith) in
    let inside : r.0 < length sorted = omega (arith, low, one, few, same_length) in
    let (g, at) = get_elem?-in sorted r.0 inside in
    let most = (scan-best tp sorted 0 n (0, 0)).1 in
    let start_seen = most r.0 (omega arith) (omega (arith, low)) in
    let attained : r.1 ≡ window tp r.0 sorted =
      omega (arith, start_seen, scan-attains tp sorted 0 n (0, 0) (omega arith)) in
    let enough : ltb (length gpus) tp ≡ false = ground (arith, few) in
    (
      r.0,
      g,
      rw (enough, at, attained) refl,
      at,
      omega (arith, low, few, same_length),
      λ k h. rw⁻¹ attained (most k (omega arith) (omega (arith, h, same_length))),
    )
