-- ===== src/Gpus/Selector/Examples.antt =====
-- gpu-selector.ts: the theorems at concrete inputs.
use sardeenz.Base.{length, get_elem?, ℕ, zero, suc, ◌+◌, ◌≤◌, ◌≡◌, refl, some, List, [], ◌∷◌, arith}
use sardeenz.Base.Sort.{sort, insert}
use sardeenz.Gpus.Selector.{
  GpuStatus, sorted_by_index, window, scan, free_of, best_window, get_recommended_gpu,
  get_target_gpus, ids_from,
}
use sardeenz.Gpus.Selector.Window.{best_window_best}
use sardeenz.Gpus.Selector.Found.{IsNumbered, AllFound, get_target_gpus-AllFound}

abbrev card : ℕ → ℕ → GpuStatus
card i used = record { index = i; memory_total_mb = 24_576; memory_used_mb = used }

abbrev three : List GpuStatus
three = card 2 0 ∷ card 0 20_000 ∷ card 1 1000 ∷ []

three-IsNumbered : IsNumbered three
unfolding sorted_by_index sort insert
three-IsNumbered zero g e = ground (arith, e)
three-IsNumbered (suc zero) g e = ground (arith, e)
three-IsNumbered (suc (suc zero)) g e = ground (arith, e)
three-IsNumbered (suc (suc (suc k))) g e = cc

best_window_best_example :
    let sorted = sorted_by_index three in
    (start : ℕ) × (g : GpuStatus) × (best_window 2 three ≡ some (g.index, window 2 start sorted))
    × (get_elem? sorted start ≡ some g)
    × (start + 2 ≤ length three)
    × ((k : ℕ) → k + 2 ≤ length three → window 2 k sorted ≤ window 2 start sorted)
best_window_best_example = best_window_best 2 three (omega arith) (omega arith)

chosen_two : get_target_gpus three [] 2 ≡ some (1 ∷ 2 ∷ [])
unfolding get_target_gpus get_recommended_gpu best_window scan free_of ids_from sorted_by_index sort
    insert
chosen_two = refl

get_target_gpus-AllFound_example : AllFound three (1 ∷ 2 ∷ [])
get_target_gpus-AllFound_example =
    get_target_gpus-AllFound three [] 2 (1 ∷ 2 ∷ []) three-IsNumbered chosen_two
