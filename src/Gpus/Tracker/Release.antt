-- ===== src/Gpus/Tracker/Release.antt =====
-- sim-gpu-tracker.ts: what `deallocate` gives back.
use sardeenz.Base.{
  ltb, Bool-cases, Option-cases, same, same_refl, All, ℕ, ◌+◌, ◌-◌, String, ◌≡◌, refl, inl, inr,
  none, some, [], ◌∷◌, arith, string_key, nat_key,
}
use sardeenz.Base.Dict
use sardeenz.Base.Dict.{get-delete, Dict, get-set}
use sardeenz.Gpus.Tracker.{SimulatedGpu, Tracker, allocate, with_model, release, deallocate}

delete-absent : (id : String) (m : Dict String ℕ) → Dict.get id m ≡ none → Dict.delete id m ≡ m
unfolding Dict.delete Dict.get
delete-absent id [] e = refl
delete-absent id ((j, n) ∷ m) e = ground (arith, e, delete-absent id m)

delete-set :
    (id : String) (mb : ℕ) (m : Dict String ℕ)
    → Dict.get id m ≡ none
    → Dict.delete id (Dict.set id mb m) ≡ m
unfolding Dict.delete Dict.set Dict.get
delete-set id mb [] e = ground (arith, same_refl id)
delete-set id mb ((j, n) ∷ m) e = ground (arith, e, delete-set id mb m)

release_absent : (id : String) (g : SimulatedGpu) → Dict.get id g.models ≡ none → release id g ≡ g
unfolding release
release_absent id g e = rw (e, release) refl

release-with_model :
    (id : String) (mb : ℕ) (g : SimulatedGpu)
    → Dict.get id g.models ≡ none
    → release id (with_model id mb g) ≡ g
unfolding release
release-with_model id mb g e =
    let held : Dict.get id (Dict.set id mb g.models) ≡ some mb =
      ground (arith, get-set id id mb g.models, same_refl id) in
    let used : g.used_memory_mb + mb - mb ≡ g.used_memory_mb = omega arith in
    rw (held, release, delete-set id mb g.models e, used) refl

-- The instance has no memory on any GPU.
abbrev pub IsAbsent : String → Tracker → Type 0
IsAbsent id t = All (λ e. Dict.get id e.1.models ≡ none) t

deallocate_absent : (id : String) (t : Tracker) → IsAbsent id t → deallocate id t ≡ t
unfolding deallocate
deallocate_absent id [] h = refl
deallocate_absent id ((i, g) ∷ t) h = rw (release_absent id g h.0, deallocate_absent id t h.1) refl

deallocate-modify :
    (index : ℕ) (id : String) (mb : ℕ) (t : Tracker)
    → IsAbsent id t
    → deallocate id (Dict.modify index (with_model id mb) t) ≡ t
unfolding deallocate Dict.modify
deallocate-modify index id mb [] h = refl
deallocate-modify index id mb ((i, g) ∷ t) h = elim (Bool-cases (same i index)) [
  | inl s ↦ rw (s, release-with_model id mb g h.0, deallocate_absent id t h.1) refl
  | inr s ↦ rw (s, release_absent id g h.0, deallocate-modify index id mb t h.1) refl
]

-- Memory that is allocated to an instance that had none, and given back, leaves the tracker as it was, also
-- where the allocation is refused.
pub deallocate-allocate :
    (index : ℕ) (id : String) (mb : ℕ) (t : Tracker)
    → IsAbsent id t
    → deallocate id (allocate index id mb t).0 ≡ t
unfolding allocate
deallocate-allocate index id mb t h = elim (Option-cases (Dict.get index t)) [
  | inl e ↦ rw (e, allocate) (deallocate_absent id t h)
  | inr (g, e) ↦ elim (Bool-cases (ltb g.total_memory_mb (g.used_memory_mb + mb))) [
    | inl f ↦ rw (e, f, allocate) (deallocate_absent id t h)
    | inr f ↦ rw (e, f, allocate) (deallocate-modify index id mb t h)
  ]
]

-- Memory that is given to an instance twice on one GPU is taken back once: after its release the first amount
-- stays in use, though the instance is not listed any more.
pub release-with_model_twice :
    (id : String) (first second : ℕ) (g : SimulatedGpu)
    → Dict.get id g.models ≡ none
    → let g' = release id (with_model id second (with_model id first g)) in
      (g'.used_memory_mb ≡ g.used_memory_mb + first) × (Dict.get id g'.models ≡ none)
unfolding release
release-with_model_twice id first second g e =
    let once = Dict.set id first g.models in
    let held : Dict.get id (Dict.set id second once) ≡ some second =
      ground (arith, get-set id id second once, same_refl id) in
    let gone : Dict.get id (Dict.delete id (Dict.set id second once)) ≡ none =
      ground (arith, get-delete id id (Dict.set id second once), same_refl id) in
    rw (held, release) (omega arith, gone)
