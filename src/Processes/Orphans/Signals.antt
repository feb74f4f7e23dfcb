-- ===== src/Processes/Orphans/Signals.antt =====
-- orphan-detector.ts: which processes get a signal.
use sardeenz.Base.{
  ◌==◌, Bool-cases, length, any, All, ℕ, ◌+◌, ◌≡◌, ◌≢◌, inl, inr, true, false, ◌||◌, Option, none,
  some, List, [], ◌∷◌, ◌++◌, arith,
}
use sardeenz.Models.Store.{ModelInstance, ModelStore, get_all}
use sardeenz.Processes.Orphans.{
  Signal, sigterm, sigkill, Moment, Later, is_tracked, is_pid, is_vllm, scan, kill_orphan,
  is_terminated, kill_each, kill_all_orphans,
}

-- Neither process of the instance is this one.
abbrev pub IsOther : ℕ → ModelInstance → Type 0
IsOther pid i = (i.process_id ≢ pid) × (i.engine_core_pid ≢ some pid)

-- A process of vLLM, by the list of this moment, that no instance owns.
pub record IsOrphan (pid : ℕ) (m : Moment) : Type 0 where
  pub vllm : is_vllm m pid ≡ true
  pub owned : All (IsOther pid) (get_all m.store)

-- SIGTERM goes to orphans of the moment, and SIGKILL to a process that has had SIGTERM just before.
abbrev pub Follows : (ℕ → Moment) → Option ℕ → List Signal → Type 0
Follows at last [] = Unit
Follows at last (sigterm pid ∷ ss) = IsOrphan pid (at pid) × Follows at (some pid) ss
Follows at last (sigkill pid ∷ ss) = (last ≡ some pid) × Follows at none ss

is_pid_none : (o : Option ℕ) (pid : ℕ) → is_pid o pid ≡ false → o ≢ some pid
is_pid_none none pid h e = cc
is_pid_none (some p) pid h e = absurd (ground (arith, h, e))

is_other :
    (pid : ℕ) (i : ModelInstance)
    → ((i.process_id == pid) || is_pid i.engine_core_pid pid) ≡ false
    → IsOther pid i
is_other pid i h =
    (λ e. absurd (ground (arith, h, e)), is_pid_none i.engine_core_pid pid (ground (arith, h)))

each-IsOther :
    (pid : ℕ) (is : List ModelInstance)
    → any (λ i. (i.process_id == pid) || is_pid i.engine_core_pid pid) is ≡ false
    → All (IsOther pid) is
each-IsOther pid [] h = tt
each-IsOther pid (i ∷ is) h =
    (is_other pid i (ground (arith, h)), each-IsOther pid is (ground (arith, h)))

Follows-append :
    (at : ℕ → Moment) (pid : ℕ) (l : Later) (last : Option ℕ) (ss : List Signal)
    → ((prev : Option ℕ) → Follows at prev ss)
    → Follows at last ((kill_orphan pid (at pid) l).0 ++ ss)
unfolding kill_orphan is_tracked
Follows-append at pid l last ss rest = elim (Bool-cases (is_vllm (at pid) pid)) [
  | inr v ↦ rw v (rest last)
  | inl v ↦ elim (Bool-cases (is_tracked (at pid).store pid)) [
    | inl t ↦ rw (v, t) (rest last)
    | inr t ↦
        let orphan : IsOrphan pid (at pid) = record {
          vllm = v;
          owned = each-IsOther pid (get_all (at pid).store) t;
        } in
        rw (v, t) (ground (arith, orphan, rest last, rest (some pid), rest none))
  ]
]

kill_each-Follows :
    (pids : List ℕ) (at : ℕ → Moment) (late : ℕ → Later) (last : Option ℕ)
    → Follows at last (kill_each pids at late).signals
unfolding kill_each
kill_each-Follows [] at late last = tt
kill_each-Follows (pid ∷ pids) at late last =
    let more =
      Follows-append at pid (late pid) last (kill_each pids at late).signals
        (kill_each-Follows pids at late) in
    elim (Bool-cases (is_terminated (kill_orphan pid (at pid) (late pid)).1)) [
      | inl e ↦ rw e more
      | inr e ↦ rw e more
    ]

kill_each-length :
    (pids : List ℕ) (at : ℕ → Moment) (late : ℕ → Later)
    → let k = kill_each pids at late in length k.killed + length k.failed ≡ length pids
unfolding kill_each
kill_each-length [] at late = omega arith
kill_each-length (pid ∷ pids) at late =
    elim (Bool-cases (is_terminated (kill_orphan pid (at pid) (late pid)).1)) [
      | inl e ↦ rw e (omega (arith, kill_each-length pids at late))
      | inr e ↦ rw e (omega (arith, kill_each-length pids at late))
    ]

-- Killing all orphans sends SIGTERM only to processes that are vLLM's, and neither the process nor the engine
-- core of any instance, when the kill begins, whatever has changed since the scan; it sends SIGKILL only after
-- SIGTERM, to the same process; and it counts each process of the scan as killed or as failed.
pub kill_all_orphans-signals :
    (vllm : List ℕ) (store : ModelStore) (at : ℕ → Moment) (late : ℕ → Later)
    → let k = kill_all_orphans vllm store at late in
      Follows at none k.signals × (length k.killed + length k.failed ≡ length (scan vllm store))
unfolding kill_all_orphans
kill_all_orphans-signals vllm store at late =
    (kill_each-Follows (scan vllm store) at late none, kill_each-length (scan vllm store) at late)
