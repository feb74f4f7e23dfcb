-- ===== src/Gpus/Tracker/Ledger.antt =====
-- sim-gpu-tracker.ts: the memory of each GPU over any sequence of calls.
use sardeenz.Base.{
  ltb, Bool-cases, Option-cases, same, All, ℕ, zero, suc, ◌+◌, ◌≤◌, String, ◌≡◌, inl, inr, false,
  some, List, [], ◌∷◌, arith, string_key, nat_key,
}
use sardeenz.Base.Dict
use sardeenz.Base.Dict.{Dict}
use sardeenz.Gpus.Tracker.{
  SimulatedGpu, Tracker, gpus_from, initialize, allocate, with_model, release, deallocate, reset,
}

pub data Write : Type 0 where
  initializes : ℕ → ℕ → Write
  allocates : ℕ → String → ℕ → Write
  deallocates : String → Write
  resets : Write

unfoldable pub write : Write → Tracker → Tracker
write (initializes count gb) t = initialize count gb t
write (allocates index id mb) t = (allocate index id mb t).0
write (deallocates id) t = deallocate id t
write resets t = reset t

unfoldable pub write_all : List Write → Tracker → Tracker
write_all [] t = t
write_all (w ∷ ws) t = write_all ws (write w t)

-- The memory of the models of one GPU.
abbrev pub sum_of : Dict String ℕ → ℕ
sum_of [] = 0
sum_of ((id, mb) ∷ m) = mb + sum_of m

pub record Balanced (g : SimulatedGpu) : Type 0 where
  pub covered : sum_of g.models ≤ g.used_memory_mb
  pub within : g.used_memory_mb ≤ g.total_memory_mb

sum_of-set : (id : String) (mb : ℕ) (m : Dict String ℕ) → sum_of (Dict.set id mb m) ≤ sum_of m + mb
unfolding Dict.set
sum_of-set id mb [] = omega arith
sum_of-set id mb ((j, n) ∷ m) = ground (arith, sum_of-set id mb m)

sum_of-delete-le : (id : String) (m : Dict String ℕ) → sum_of (Dict.delete id m) ≤ sum_of m
unfolding Dict.delete
sum_of-delete-le id [] = omega arith
sum_of-delete-le id ((j, n) ∷ m) = ground (arith, sum_of-delete-le id m)

sum_of-delete :
    (id : String) (mb : ℕ) (m : Dict String ℕ)
    → Dict.get id m ≡ some mb
    → sum_of (Dict.delete id m) + mb ≤ sum_of m
unfolding Dict.delete Dict.get
sum_of-delete id mb [] e = cc
sum_of-delete id mb ((j, n) ∷ m) e = ground (arith, e, sum_of-delete id mb m, sum_of-delete-le id m)

release-Balanced : (id : String) (g : SimulatedGpu) → Balanced g → Balanced (release id g)
unfolding release
release-Balanced id g h = elim (Option-cases (Dict.get id g.models)) [
  | inl e ↦ rw (e, release) h
  | inr (mb, e) ↦
      let less = sum_of-delete id mb g.models e in
      rw (e, release)
        (record { covered = ground (arith, less, h.covered); within = ground (arith, h.within) })
]

deallocate-Balanced :
    (id : String) (t : Tracker)
    → All (λ e. Balanced e.1) t
    → All (λ e. Balanced e.1) (deallocate id t)
unfolding deallocate
deallocate-Balanced id [] h = tt
deallocate-Balanced id ((i, g) ∷ t) h = (release-Balanced id g h.0, deallocate-Balanced id t h.1)

with_model-Balanced :
    (index : ℕ) (id : String) (mb : ℕ) (g : SimulatedGpu) (t : Tracker)
    → Dict.get index t ≡ some g
    → ltb g.total_memory_mb (g.used_memory_mb + mb) ≡ false
    → All (λ e. Balanced e.1) t
    → All (λ e. Balanced e.1) (Dict.modify index (with_model id mb) t)
unfolding Dict.modify Dict.get
with_model-Balanced index id mb g [] e f h = tt
with_model-Balanced index id mb g ((i, q) ∷ t) e f h = elim (Bool-cases (same i index)) [
  | inl s ↦
      let here : q ≡ g = ground (arith, e, s) in
      let more = sum_of-set id mb q.models in
      rw s (
        record { covered = ground (arith, more, h.0.covered); within = ground (arith, here, f) },
        h.1,
      )
  | inr s ↦ rw s (h.0, with_model-Balanced index id mb g t (ground (arith, e, s)) f h.1)
]

allocate-Balanced :
    (index : ℕ) (id : String) (mb : ℕ) (t : Tracker)
    → All (λ e. Balanced e.1) t
    → All (λ e. Balanced e.1) (allocate index id mb t).0
unfolding allocate
allocate-Balanced index id mb t h = elim (Option-cases (Dict.get index t)) [
  | inl e ↦ rw (e, allocate) h
  | inr (g, e) ↦ elim (Bool-cases (ltb g.total_memory_mb (g.used_memory_mb + mb))) [
    | inl f ↦ rw (e, f, allocate) h
    | inr f ↦ rw (e, f, allocate) (with_model-Balanced index id mb g t e f h)
  ]
]

gpus_from-Balanced : (i n gb : ℕ) → All (λ e. Balanced e.1) (gpus_from i n gb)
unfolding gpus_from
gpus_from-Balanced i zero gb = tt
gpus_from-Balanced i (suc n) gb =
    (record { covered = omega arith; within = omega arith }, gpus_from-Balanced (i + 1) n gb)

write_all-Balanced :
    (ws : List Write) (t : Tracker)
    → All (λ e. Balanced e.1) t
    → All (λ e. Balanced e.1) (write_all ws t)
unfolding write_all write initialize reset
write_all-Balanced [] t h = h
write_all-Balanced (initializes n gb ∷ ws) t h =
    write_all-Balanced ws (gpus_from 0 n gb) (gpus_from-Balanced 0 n gb)
write_all-Balanced (allocates index id mb ∷ ws) t h =
    write_all-Balanced ws (allocate index id mb t).0 (allocate-Balanced index id mb t h)
write_all-Balanced (deallocates id ∷ ws) t h =
    write_all-Balanced ws (deallocate id t) (deallocate-Balanced id t h)
write_all-Balanced (resets ∷ ws) t h = write_all-Balanced ws [] tt

-- Over any calls on a new tracker, no simulated GPU has more memory in use than it has in all, nor less than
-- the models that it lists take.
pub write_all_balances : (ws : List Write) → All (λ e. Balanced e.1) (write_all ws [])
write_all_balances ws = write_all-Balanced ws [] tt
