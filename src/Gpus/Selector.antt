-- ===== src/Gpus/Selector.antt =====
-- apps/backend/src/services/gpu-selector.ts: the choice of GPUs for a model. The answer of nvidia-smi is an
-- argument; a GPU reports at most as much memory used as it has. A thrown error is `none`; memory is in MiB.
pub mod Window
pub mod Found
mod Examples
use sardeenz.Base.{
  ltb, leb, ◌==◌, if◌then◌else◌, length, get_elem?, take, drop, any, ℕ, zero, suc, ◌+◌, ◌-◌, Bool,
  true, ◌&&◌, Option, none, some, List, [], ◌∷◌,
}
use sardeenz.Base.Sort.{sort}

pub record GpuStatus : Type 0 where
  pub index : ℕ
  pub memory_total_mb : ℕ
  pub memory_used_mb : ℕ

abbrev pub free : GpuStatus → ℕ
free g = g.memory_total_mb - g.memory_used_mb

-- `[...gpus].sort((a, b) => a.index - b.index)`.
unfoldable pub sorted_by_index : List GpuStatus → List GpuStatus
sorted_by_index = sort (λ a b. leb a.index b.index)

unfoldable pub free_of : List GpuStatus → ℕ
free_of [] = 0
free_of (g ∷ gs) = free g + free_of gs

-- `freeTotal` for the GPUs from number `start` on.
abbrev pub window : ℕ → ℕ → List GpuStatus → ℕ
window tp start gpus = free_of (take tp (drop start gpus))

-- The loop over `start`, for `n` more windows, with the best start and its memory so far.
unfoldable pub scan : ℕ → List GpuStatus → ℕ → ℕ → ℕ × ℕ → ℕ × ℕ
scan tp gpus start zero best = best
scan tp gpus start (suc n) best =
    let total = window tp start gpus in
    scan tp gpus (start + 1) n (if ltb best.1 total then (start, total) else best)

-- The first GPU in the order of free memory.
unfoldable pub most_free : List GpuStatus → Option (ℕ × ℕ)
most_free gpus = elim (sort (λ a b. leb (free b) (free a)) gpus) [
  | [] ↦ none
  | g ∷ gs ↦ some (g.index, free g)
]

unfoldable pub best_window : ℕ → List GpuStatus → Option (ℕ × ℕ)
best_window tp gpus =
    if ltb (length gpus) tp
    then none
    else let sorted = sorted_by_index gpus in
      let best = scan tp sorted 0 (length sorted - tp + 1) (0, 0) in
      elim (get_elem? sorted best.0) [ none ↦ none | some g ↦ some (g.index, best.1) ]

-- `getRecommendedGpu`: the id and its free memory. With a size of 0 the end of the window is not there.
unfoldable pub get_recommended_gpu : ℕ → List GpuStatus → Option (ℕ × ℕ)
get_recommended_gpu zero gpus = none
get_recommended_gpu (suc zero) gpus = most_free gpus
get_recommended_gpu (suc (suc n)) gpus = best_window (suc (suc n)) gpus

-- An available GPU has this index.
abbrev pub has_index : List GpuStatus → ℕ → Bool
has_index gpus id = any (λ g. g.index == id) gpus

unfoldable pub all_found : List GpuStatus → List ℕ → Bool
all_found gpus [] = true
all_found gpus (id ∷ ids) = has_index gpus id && all_found gpus ids

unfoldable pub validate_gpu_selection : List GpuStatus → List ℕ → ℕ → Option (List ℕ)
validate_gpu_selection gpus [] tp = none
validate_gpu_selection gpus (id ∷ ids) tp =
    if all_found gpus (id ∷ ids)
    then (if ltb 1 tp && ltb (length (id ∷ ids)) tp
        then none
        else some (if ltb 1 tp then take tp (id ∷ ids) else take 1 (id ∷ ids)))
    else none

-- `Array.from({ length: n }, (_, i) => start + i)`.
unfoldable pub ids_from : ℕ → ℕ → List ℕ
ids_from start zero = []
ids_from start (suc n) = start ∷ ids_from (start + 1) n

abbrev pub recommended_ids : ℕ → Option (ℕ × ℕ) → Option (List ℕ)
recommended_ids tp none = none
recommended_ids tp (some (id, mb)) = some (if ltb 1 tp then ids_from id tp else id ∷ [])

-- `getTargetGpus`; no ids are chosen automatically.
unfoldable pub get_target_gpus : List GpuStatus → List ℕ → ℕ → Option (List ℕ)
get_target_gpus gpus [] tp = recommended_ids tp (get_recommended_gpu tp gpus)
get_target_gpus gpus (id ∷ ids) tp = validate_gpu_selection gpus (id ∷ ids) tp
