-- ===== src/Processes/Children/Found.antt =====
-- memory-monitor.ts, `findGpuChildPid`: what is found, and when nothing is.
use sardeenz.Base.{
  Bool-cases, Option-cases, length, find, All, All-append, ℕ, zero, suc, ◌≡◌, subst, inl, inr, Bool,
  true, false, none, some, List, [], ◌∷◌, ◌++◌, arith,
}
use sardeenz.Processes.Children.{Process, children_of, is_visited, search, find_gpu_child_pid}
use sardeenz.Processes.Children.Search.{
  IsChild, Descends, itself, below, waiting-le, exhaust, reaches,
}

module _ (ps : List Process) (on_gpu : ℕ → Bool) where
  find-some :
      (xs : List ℕ) (d : ℕ) → find on_gpu xs ≡ some d → (on_gpu d ≡ true) × (is_visited d xs ≡ true)
  unfolding is_visited
  find-some [] d h = cc
  find-some (x ∷ xs) d h = elim (Bool-cases (on_gpu x)) [
    | inl e ↦ let q : x ≡ d = ground arith in (subst (λ z. on_gpu z ≡ true) q e, ground arith)
    | inr e ↦ let r = find-some xs d (ground arith) in (r.0, ground arith)
  ]

  All-below :
      (root a : ℕ) (xs : List ℕ)
      → Descends ps root a
      → ((b : ℕ) → is_visited b xs ≡ true → IsChild ps a b)
      → All (Descends ps root) xs
  unfolding is_visited
  All-below root a [] h k = tt
  All-below root a (x ∷ xs) h k =
      (below a x h (k x (ground arith)), All-below root a xs h (λ b m. k b (ground arith)))

  search-some :
      (fuel root d : ℕ) (queue visited : List ℕ)
      → All (Descends ps root) queue
      → search fuel ps on_gpu queue visited ≡ some d
      → (on_gpu d ≡ true) × Descends ps root d
  unfolding search
  search-some zero root d queue visited a h = cc
  search-some (suc fuel) root d [] visited a h = cc
  search-some (suc fuel) root d (c ∷ queue) visited a h = elim (Bool-cases (is_visited c visited)) [
    | inl v ↦ search-some fuel root d queue visited a.1 (rw v at h)
    | inr v ↦ elim (Option-cases (find on_gpu (children_of ps c))) [
      | inr (e, f) ↦
          let q : e ≡ d = ground arith in
          let r = find-some (children_of ps c) e f in
          subst (λ z. (on_gpu z ≡ true) × Descends ps root z) q (r.0, below c e a.0 r.1)
      | inl f ↦
          let kids = children_of ps c in
          search-some fuel root d (queue ++ kids) (c ∷ visited)
            (All-append (Descends ps root) queue kids a.1 (All-below root c kids a.0 (λ b m. m)))
            (rw (v, f) at h)
    ]
  ]

  search-none :
      (root d : ℕ)
      → on_gpu root ≡ false
      → search (suc (length ps)) ps on_gpu (root ∷ []) [] ≡ none
      → Descends ps root d
      → on_gpu d ≡ false
  unfolding is_visited
  search-none root d g h k =
      let r =
        exhaust ps on_gpu (suc (length ps)) (root ∷ []) [] (omega (arith, waiting-le ps []))
          (λ a b v m. absurd (ground arith)) h in
      (reaches ps on_gpu root d r.all r.settled (r.keeps root (ground arith)) g k).1

  -- The process that is found is the root or a descendant of it, and uses a GPU; and where none is found,
  -- neither the root nor any descendant of it does. This holds of any table of processes, also of one
  -- whose parents form a cycle.
  pub find_gpu_child_pid_lem :
      (root : ℕ)
      → ((d : ℕ)
          → find_gpu_child_pid ps on_gpu root ≡ some d
          → (on_gpu d ≡ true) × Descends ps root d)
        × (find_gpu_child_pid ps on_gpu root ≡ none
            → (d : ℕ) → Descends ps root d
            → on_gpu d ≡ false)
  unfolding find_gpu_child_pid
  find_gpu_child_pid_lem root = elim (Bool-cases (on_gpu root)) [
    | inl e ↦ (
      λ d h.
          let q : root ≡ d = ground arith in
          subst (λ z. (on_gpu z ≡ true) × Descends ps root z) q (e, itself),
      λ h. absurd (ground arith),
    )
    | inr e ↦ (
      λ d h. search-some (suc (length ps)) root d (root ∷ []) [] (itself, tt) (rw e at h),
      λ h d k. search-none root d e (rw e at h) k,
    )
  ]
