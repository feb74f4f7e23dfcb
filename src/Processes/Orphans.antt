-- ===== src/Processes/Orphans.antt =====
-- apps/backend/src/services/orphan-detector.ts: vLLM processes that no instance of the model store owns. What `ps`
-- lists, read as process ids, and what becomes of a signal, are the environment's; both, and the store, are
-- read anew for each process that is killed.
pub mod Signals
use sardeenz.Base.{
  ◌==◌, if◌then◌else◌, filter, any, ℕ, Bool, true, false, not, ◌||◌, Option, none, some, List, [],
  ◌∷◌, ◌++◌,
}
use sardeenz.Models.Store.{ModelStore, get_all}

-- `i.engineCorePid === pid`.
abbrev pub is_pid : Option ℕ → ℕ → Bool
is_pid none pid = false
is_pid (some p) pid = p == pid

unfoldable pub is_tracked : ModelStore → ℕ → Bool
unfolding is_pid
is_tracked store pid =
    any (λ i. (i.process_id == pid) || is_pid i.engine_core_pid pid) (get_all store)

-- `scan`: the process ids of the orphans. (An `engineCorePid` of 0 is not a process.)
unfoldable pub scan : List ℕ → ModelStore → List ℕ
scan vllm store = filter (λ pid. not (is_tracked store pid)) vllm

pub data Signal : Type 0 where
  sigterm sigkill : ℕ → Signal

-- What is read before SIGTERM is sent, and whether that may be sent.
pub record Moment : Type 0 where
  pub vllm : List ℕ
  pub store : ModelStore
  pub allowed : Bool

-- What is read 2 s later, which is neither the list nor the store: whether the process still runs, and whether
-- SIGKILL may be sent.
pub record Later : Type 0 where
  pub survives : Bool
  pub kill_allowed : Bool

pub data Outcome : Type 0 where
  terminated not_vllm still_tracked kill_failed : Outcome

unfoldable pub is_vllm : Moment → ℕ → Bool
is_vllm m pid = any (λ p. p == pid) m.vllm

unfoldable pub kill_orphan : ℕ → Moment → Later → List Signal × Outcome
kill_orphan pid m l =
    if not (is_vllm m pid)
    then ([], not_vllm)
    else if is_tracked m.store pid
    then ([], still_tracked)
    else if not m.allowed
    then ([], kill_failed)
    else if not l.survives
    then (sigterm pid ∷ [], terminated)
    else if l.kill_allowed
    then (sigterm pid ∷ sigkill pid ∷ [], terminated)
    else (sigterm pid ∷ [], kill_failed)

abbrev pub is_terminated : Outcome → Bool
is_terminated terminated = true
is_terminated not_vllm = false
is_terminated still_tracked = false
is_terminated kill_failed = false

pub record Killed : Type 0 where
  pub killed : List ℕ
  pub failed : List ℕ
  pub signals : List Signal

abbrev add_result : ℕ → List Signal × Outcome → Killed → Killed
add_result pid (signals, outcome) k =
    if is_terminated outcome
    then record { killed = pid ∷ k.killed; failed = k.failed; signals = signals ++ k.signals }
    else record { killed = k.killed; failed = pid ∷ k.failed; signals = signals ++ k.signals }

-- The loop of `killAllOrphans`, with the moments of each kill.
unfoldable pub kill_each : List ℕ → (ℕ → Moment) → (ℕ → Later) → Killed
unfolding add_result
kill_each [] at late = record { killed = []; failed = []; signals = [] }
kill_each (pid ∷ pids) at late =
    add_result pid (kill_orphan pid (at pid) (late pid)) (kill_each pids at late)

unfoldable pub kill_all_orphans : List ℕ → ModelStore → (ℕ → Moment) → (ℕ → Later) → Killed
kill_all_orphans vllm store at late = kill_each (scan vllm store) at late
