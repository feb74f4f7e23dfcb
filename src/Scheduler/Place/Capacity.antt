-- ===== src/Scheduler/Place/Capacity.antt =====
-- pod-scheduler.ts, `placeEntry` and `placeModels`: what a placement is, when there is none, and the
-- account of the memory.
use sardeenz.Base.{
  ltb, leb, if◌then◌else◌, Bool-cases, same, length, take, filter, All, length-take, length_zero,
  length-map, ℕ, zero, suc, ◌+◌, ◌*◌, ◌≤◌, ◌<◌, String, ◌≡◌, refl, sym, ap, ◌∙◌, subst, inl, inr,
  Bool, true, false, Option, List, [], ◌∷◌, map, arith, string_key,
}
use sardeenz.Base.Sort.{sort-All, length-sort, sort}
use sardeenz.Scheduler.Slots.{GpuSlot}
use sardeenz.Scheduler.Place.{
  place_each, has_ref, prefers, select_gpus, Strategy, place_entry, total_available, Entry, Profile,
  Decision, Outcome, placed, unplaced, Constraints, required_mb, tp_of, charge, is_candidate,
  select_by_strategy, deduct, viable_pods, prefers_pod, decide_on, fail_with, place_tensor_parallel,
  place_single,
}
use sardeenz.Scheduler.Place.Deduct.{
  Distinct-deduct, total_available-deduct, has_ref-take, Distinct-filter, Distinct-sort,
  Distinct-take, has_ref-filter, has_ref-sort, Distinct, Within,
}
use sardeenz.Scheduler.Place.Select.{
  viable_pods-IsGroup, IsGroup, select_by_strategy-nil, viable_pods-nil, on_pod,
}

-- The slots that one entry may use.
abbrev pub candidates_of : Constraints → Entry → List Profile → List GpuSlot → List GpuSlot
candidates_of k e ps slots =
    filter (is_candidate e (required_mb e ps) (tp_of e) k.min_kv_cache_mb) slots

-- How many GPUs an entry takes.
abbrev pub gpus_for : Entry → ℕ
gpus_for e = if ltb 1 (tp_of e) then tp_of e else 1

-- The decision `d` stands for `chosen`: as many different slots as the entry takes, all on the target
-- pod and all candidates, from each of which its share has been taken.
pub record IsPlacement (k : Constraints) (e : Entry) (ps : List Profile) (slots : List GpuSlot)
    (d : Decision) (slots' : List GpuSlot) : Type 0 where
  pub chosen : List GpuSlot
  pub model : d.model_path ≡ e.model_path
  pub amount : d.estimated_vram_mb ≡ required_mb e ps
  pub ids : d.target_gpu_ids ≡ map (λ s. s.gpu_id) chosen
  pub one_pod : All (λ s. s.pod_id ≡ d.target_pod_id) chosen
  pub enough : length chosen ≡ gpus_for e
  pub distinct : Distinct chosen
  pub within : Within chosen (candidates_of k e ps slots)
  pub taken : slots' ≡ deduct (charge (required_mb e ps) (gpus_for e)) chosen slots

-- No pod has as many candidates as the entry takes, and nothing is taken.
pub record IsFull (k : Constraints) (e : Entry) (ps : List Profile) (slots : List GpuSlot)
    (slots' : List GpuSlot) : Type 0 where
  pub short : (pod : String) → length (on_pod pod (candidates_of k e ps slots)) < gpus_for e
  pub untouched : slots' ≡ slots

abbrev pub Handles :
    Constraints → Entry → List Profile → List GpuSlot → Outcome × List GpuSlot → Type 0
Handles k e ps slots (placed d, slots') = IsPlacement k e ps slots d slots'
Handles k e ps slots (unplaced f, slots') =
    (f.model_path ≡ e.model_path) × IsFull k e ps slots slots'

on_pod_one : (pod : String) (xs : List GpuSlot) → All (λ s. s.pod_id ≡ pod) (on_pod pod xs)
on_pod_one pod [] = tt
on_pod_one pod (x ∷ xs) = ground (arith, on_pod_one pod xs)

take-All : (P : GpuSlot → Type 0) (n : ℕ) (xs : List GpuSlot) → All P xs → All P (take n xs)
take-All P zero xs h = tt
take-All P (suc n) [] h = tt
take-All P (suc n) (x ∷ xs) h = (h.0, take-All P n xs h.1)

abbrev more_free : GpuSlot → GpuSlot → Bool
more_free a b = leb b.available a.available

select_one-Within :
    (st : Strategy) (xs : List GpuSlot) (c : GpuSlot) (cs : List GpuSlot)
    → select_by_strategy st xs ≡ c ∷ cs
    → Within (c ∷ []) xs
unfolding select_by_strategy
select_one-Within st xs c cs h r q =
    sym (has_ref-sort (prefers st) r xs)
    ∙ has_ref-take 1 r (sort (prefers st) xs) (rw h (ground arith))

-- The GPUs selected on a pod, out of all its slots `xs`.
module _ (tp : ℕ) (pod : String) (xs gpus : List GpuSlot) (whole : gpus ≡ on_pod pod xs) where
  select_gpus-one_pod : All (λ s. s.pod_id ≡ pod) (select_gpus tp gpus)
  unfolding select_gpus
  select_gpus-one_pod =
      take-All _ tp (sort more_free gpus) (sort-All more_free _ gpus (rw whole (on_pod_one pod xs)))

  select_gpus-Distinct : Distinct xs → Distinct (select_gpus tp gpus)
  unfolding select_gpus
  select_gpus-Distinct d =
      Distinct-take tp (sort more_free gpus)
        (Distinct-sort more_free gpus (rw whole (Distinct-filter _ xs d)))

  select_gpus-Within : Within (select_gpus tp gpus) xs
  unfolding select_gpus
  select_gpus-Within r h =
      has_ref-filter (λ s. same s.pod_id pod) r xs
        (subst (λ ys. has_ref r ys ≡ true) whole
          (sym (has_ref-sort more_free r gpus) ∙ has_ref-take tp r (sort more_free gpus) h))

  length-select_gpus : tp ≤ length gpus → length (select_gpus tp gpus) ≡ tp
  unfolding select_gpus
  length-select_gpus h =
      omega (arith, length-take tp (sort more_free gpus), length-sort more_free gpus)

sort_nil : {A : Type 0} (le : A → A → Bool) (xs : List A) → sort le xs ≡ [] → xs ≡ []
sort_nil le xs h = length_zero xs (sym (length-sort le xs) ∙ ap length h)

module _ (k : Constraints) (e : Entry) (ps : List Profile) (slots : List GpuSlot)
    (d : Distinct slots) where
  abbrev cands : List GpuSlot
  cands = candidates_of k e ps slots

  single_Handles :
      (xs : List GpuSlot)
      → select_by_strategy k.strategy cands ≡ xs
      → ltb 1 (tp_of e) ≡ false
      → Handles k e ps slots (place_single e cands slots k.strategy (required_mb e ps))
  unfolding place_single decide_on fail_with
  single_Handles [] h t =
      rw (h, place_single)
        (
          refl,
          record {
            short = λ pod. rw (select_by_strategy-nil k.strategy cands h) (ground arith);
            untouched = refl;
          },
        )
  single_Handles (c ∷ cs) h t =
      rw (h, place_single)
        (record {
          chosen = c ∷ [];
          model = refl;
          amount = refl;
          ids = refl;
          one_pod = (refl, tt);
          enough = ground arith;
          distinct = (refl, tt);
          within = select_one-Within k.strategy cands c cs h;
          taken = rw t;
        })

  parallel_Handles :
      (gs : List (String × List GpuSlot))
      → sort (prefers_pod k.strategy) (viable_pods (tp_of e) cands) ≡ gs
      → ltb 1 (tp_of e) ≡ true
      → Handles k e ps slots
          (place_tensor_parallel e cands slots k.strategy (required_mb e ps) (tp_of e))
  unfolding place_tensor_parallel decide_on fail_with
  parallel_Handles [] h t =
      rw (h, place_tensor_parallel)
        (
          refl,
          record {
            short = λ pod. rw t (
                viable_pods-nil (tp_of e) cands pod (ground arith)
                  (sort_nil (prefers_pod k.strategy) _ h));
            untouched = refl;
          },
        )
  parallel_Handles (g ∷ gs) h t =
      let group =
        (subst (All (IsGroup (tp_of e) cands)) h (
          sort-All (prefers_pod k.strategy) (IsGroup (tp_of e) cands) (viable_pods (tp_of e) cands)
            (viable_pods-IsGroup (tp_of e) cands))).0 in
      rw (h, place_tensor_parallel)
        (record {
          chosen = select_gpus (tp_of e) g.1;
          model = refl;
          amount = refl;
          ids = refl;
          one_pod = select_gpus-one_pod (tp_of e) g.0 cands g.1 group.whole;
          enough = rw t (length-select_gpus (tp_of e) g.0 cands g.1 group.whole group.large);
          distinct =
              select_gpus-Distinct (tp_of e) g.0 cands g.1 group.whole (Distinct-filter _ slots d);
          within = select_gpus-Within (tp_of e) g.0 cands g.1 group.whole;
          taken = rw t;
        })

-- Placing an entry on different slots ends in one of two ways: a placement on as many candidates of one
-- pod as the entry takes, from which its shares are taken, or, only where no pod has so many candidates, a
-- failure that changes no slot.
pub place_entry-Handles :
    (k : Constraints) (e : Entry) (ps : List Profile) (slots : List GpuSlot)
    → Distinct slots
    → Handles k e ps slots (place_entry k e ps slots)
unfolding place_entry
place_entry-Handles k e ps slots d = elim (Bool-cases (ltb 1 (tp_of e))) [
  | inl t ↦ rw (t, place_entry) (parallel_Handles k e ps slots d _ refl t)
  | inr t ↦ rw (t, place_entry) (single_Handles k e ps slots d _ refl t)
]

-- The units that an outcome stands for: its share on each of its GPUs.
abbrev pub charged : Outcome → ℕ
charged (placed d) = length d.target_gpu_ids * charge d.estimated_vram_mb (length d.target_gpu_ids)
charged (unplaced f) = 0

candidate_enough :
    (e : Entry) (required tp : ℕ) (kv : Option ℕ) (s : GpuSlot)
    → is_candidate e required tp kv s ≡ true
    → charge required tp ≤ s.available
unfolding is_candidate
candidate_enough e required tp kv s h = ground arith

gpus_for-eq : (e : Entry) → 0 < tp_of e → gpus_for e ≡ tp_of e
gpus_for-eq e h = ground arith

Handles-charged :
    (k : Constraints) (e : Entry) (ps : List Profile) (slots : List GpuSlot)
    (r : Outcome × List GpuSlot)
    → 0 < tp_of e
    → Distinct slots
    → Handles k e ps slots r
    → (total_available r.1 + charged r.0 ≡ total_available slots) × Distinct r.1
Handles-charged k e ps slots (placed d, slots') pos ds h =
    let u = charge (required_mb e ps) (gpus_for e) in
    let count : length d.target_gpu_ids ≡ gpus_for e =
      ap length h.ids ∙ length-map (λ (s : GpuSlot). s.gpu_id) h.chosen ∙ h.enough in
    let sum : total_available (deduct u h.chosen slots) + length h.chosen * u
        ≡ total_available slots =
      total_available-deduct _ u h.chosen slots h.distinct ds h.within (λ s c.
        rw (gpus_for-eq e pos)
          (candidate_enough e (required_mb e ps) (tp_of e) k.min_kv_cache_mb s c)) in
    (
      rw (h.taken, h.amount, count)
          (subst
            (λ (n : ℕ). total_available (deduct u h.chosen slots) + n * u ≡ total_available slots)
            h.enough sum),
      rw h.taken (Distinct-deduct u h.chosen slots ds),
    )
Handles-charged k e ps slots (unplaced f, slots') pos ds h =
    (rw h.1.untouched (omega arith), rw h.1.untouched ds)

abbrev pub charged_all : List Outcome → ℕ
charged_all [] = 0
charged_all (o ∷ os) = charged o + charged_all os

-- On different slots, for entries that take at least one GPU each: the units that are left on the slots
-- and the shares of the models placed are together the units that were available, and every entry has an
-- outcome.
pub place_each-charged :
    (k : Constraints) (profiles : String → List Profile) (es : List Entry) (slots : List GpuSlot)
    → All (λ e. 0 < tp_of e) es
    → Distinct slots
    → let r = place_each k profiles es slots in
      (total_available r.1 + charged_all r.0 ≡ total_available slots) × (length r.0 ≡ length es)
unfolding place_each
place_each-charged k profiles [] slots pos d = (omega arith, refl)
place_each-charged k profiles (e ∷ es) slots pos d =
    let r = place_entry k e (profiles e.model_path) slots in
    let (sum, d') =
      Handles-charged k e (profiles e.model_path) slots r pos.0 d
        (place_entry-Handles k e (profiles e.model_path) slots d) in
    let (rest, count) = place_each-charged k profiles es r.1 pos.1 d' in
    (omega (arith, sum, rest), ap suc count)
