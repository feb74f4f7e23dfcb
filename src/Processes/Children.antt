-- ===== src/Processes/Children.antt =====
-- apps/backend/src/services/memory-monitor.ts, `findGpuChildPid`. The processes that are read from /proc are a
-- list in the order of reading; the processes that use a GPU are a test. The search takes fuel: one step for
-- each process and one more are enough.
pub mod Search
pub mod Found
use sardeenz.Base.{
  ◌==◌, if◌then◌else◌, length, find, any, ℕ, zero, suc, Bool, Option, none, some, List, [], ◌∷◌,
  ◌++◌,
}

pub record Process : Type 0 where
  pub pid : ℕ
  pub parent : ℕ

-- `childrenByParent.get(parent) ?? []`.
unfoldable pub children_of : List Process → ℕ → List ℕ
children_of [] parent = []
children_of (p ∷ ps) parent =
    let rest = children_of ps parent in if p.parent == parent then p.pid ∷ rest else rest

unfoldable pub is_visited : ℕ → List ℕ → Bool
is_visited pid visited = any (λ v. v == pid) visited

-- The loop over the queue.
unfoldable pub search : ℕ → List Process → (ℕ → Bool) → List ℕ → List ℕ → Option ℕ
search zero ps on_gpu queue visited = none
search (suc fuel) ps on_gpu [] visited = none
search (suc fuel) ps on_gpu (current ∷ queue) visited =
    let children = children_of ps current in
    let skip = search fuel ps on_gpu queue visited in
    let deeper = search fuel ps on_gpu (queue ++ children) (current ∷ visited) in
    if is_visited current visited
    then skip
    else elim (find on_gpu children) [ some child ↦ some child | none ↦ deeper ]

unfoldable pub find_gpu_child_pid : List Process → (ℕ → Bool) → ℕ → Option ℕ
find_gpu_child_pid ps on_gpu parent =
    if on_gpu parent then some parent else search (suc (length ps)) ps on_gpu (parent ∷ []) []
