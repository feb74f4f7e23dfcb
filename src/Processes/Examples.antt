-- ===== src/Processes/Examples.antt =====
-- memory-monitor.ts and orphan-detector.ts: the theorems at concrete inputs.
use sardeenz.Models.Samples.{serving}
use sardeenz.Models.Store.{ModelInstance}
use sardeenz.Models.Store.Index
use sardeenz.Base.Dict
use sardeenz.Base.{
  ◌==◌, string_discrete, length, ℕ, ◌+◌, ◌≡◌, refl, Bool, true, false, none, some, List, [], ◌∷◌,
}
use sardeenz.Models.Store
use sardeenz.Processes.Children.{Process, find_gpu_child_pid}
use sardeenz.Processes.Children.Search.{Descends}
use sardeenz.Processes.Children.Found.{find_gpu_child_pid_lem}
use sardeenz.Processes.Orphans.{
  Later, is_tracked, is_vllm, kill_each, kill_orphan, Moment, scan, kill_all_orphans,
}
use sardeenz.Processes.Orphans.Signals.{Follows, kill_all_orphans-signals}

abbrev table : List Process
table =
    record { pid = 10; parent = 1 }
    ∷ record { pid = 11; parent = 10 }
    ∷ record { pid = 12; parent = 11 }
    ∷ []

abbrev uses_gpu : ℕ → Bool
uses_gpu pid = pid == 12

find_gpu_child_pid_lem_example :
    ((d : ℕ)
      → find_gpu_child_pid table uses_gpu 10 ≡ some d
      → (uses_gpu d ≡ true) × Descends table 10 d)
    × (find_gpu_child_pid table uses_gpu 10 ≡ none
        → (d : ℕ) → Descends table 10 d
        → uses_gpu d ≡ false)
find_gpu_child_pid_lem_example = find_gpu_child_pid_lem table uses_gpu 10

-- The first process is the engine core of an instance by the time of its kill.
abbrev owner : ModelInstance
owner = record serving { engine_core_pid = some 20 }

abbrev moment : ℕ → Moment
moment pid = record {
  vllm = 20 ∷ 21 ∷ [];
  store = Index.write_all (Index.sets owner ∷ []) Store.new;
  allowed = true;
}

abbrev later : ℕ → Later
later pid = record { survives = pid == 21; kill_allowed = true }

kill_all_orphans-signals_example :
    let k = kill_all_orphans (20 ∷ 21 ∷ []) Store.new moment later in
    Follows moment none k.signals
    × (length k.killed + length k.failed ≡ length (scan (20 ∷ 21 ∷ []) Store.new))
kill_all_orphans-signals_example = kill_all_orphans-signals (20 ∷ 21 ∷ []) Store.new moment later

-- Only the other process is killed.
killed_one : (kill_all_orphans (20 ∷ 21 ∷ []) Store.new moment later).killed ≡ 21 ∷ []
unfolding kill_all_orphans kill_each kill_orphan scan is_tracked is_vllm Store.get_all Store.new
    Store.set Index.write Index.write_all Dict.set string_discrete
killed_one = refl
