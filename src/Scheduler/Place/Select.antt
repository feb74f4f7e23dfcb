-- ===== src/Scheduler/Place/Select.antt =====
-- pod-scheduler.ts: which slots are chosen.
use mathlib.Core.List.{append-nil, append_assoc}
use sardeenz.Base.{
  leb, Option-cases, same, length, take, filter, All, take_nil, ℕ, ◌≤◌, ◌<◌, String, ◌≡◌, refl, sym,
  ap, ◌∙◌, ◌⊎◌, inl, inr, Bool, true, false, some, List, [], ◌∷◌, ◌++◌, arith, string_key,
}
use sardeenz.Base.Dict
use sardeenz.Base.Dict.{Dict, IsMap, set-IsMap, get-set, All-Stands, Stands}
use sardeenz.Base.Sort.{sort, sort_first, length-sort}
use sardeenz.Scheduler.Slots.{GpuSlot}
use sardeenz.Scheduler.Place.{
  Strategy, maximize_models, balanced, prefers, select_by_strategy, group_from, viable_pods,
}

-- At least as good a choice as `s`: under `maximize_models` no more memory is free on it, under
-- `balanced` it has fewer models, or as many and no less free memory.
abbrev pub IsAsGood : Strategy → GpuSlot → GpuSlot → Type 0
IsAsGood maximize_models c s = c.available ≤ s.available
IsAsGood balanced c s =
    (c.model_count < s.model_count)
    ⊎ ((c.model_count ≡ s.model_count) × (s.available ≤ c.available))

prefers_total : (st : Strategy) (a b : GpuSlot) → (prefers st a b ≡ true) ⊎ (prefers st b a ≡ true)
prefers_total maximize_models a b = ground arith
prefers_total balanced a b = ground arith

prefers_trans :
    (st : Strategy) (a b c : GpuSlot)
    → prefers st a b ≡ true
    → prefers st b c ≡ true
    → prefers st a c ≡ true
prefers_trans maximize_models a b c h k = ground arith
prefers_trans balanced a b c h k = ground arith

prefers_good : (st : Strategy) (a b : GpuSlot) → prefers st a b ≡ true → IsAsGood st a b
prefers_good maximize_models a b h = ground arith
prefers_good balanced a b h = ground arith

All-imp :
    {A : Type 0} (P Q : A → Type 0) (xs : List A) → ((x : A) → P x → Q x) → All P xs → All Q xs
All-imp P Q [] f h = tt
All-imp P Q (x ∷ xs) f h = (f x h.0, All-imp P Q xs f h.1)

take_one :
    {A : Type 0} (xs : List A) (c : A) (cs : List A)
    → take 1 xs ≡ c ∷ cs
    → (ys : List A) × (xs ≡ c ∷ ys)
take_one [] c cs h = cc
take_one (x ∷ xs) c cs h = (xs, ground arith)

-- The GPU that a strategy selects, if it selects one, is at least as good a choice as every candidate.
pub select_by_strategy_best :
    (st : Strategy) (xs : List GpuSlot) (c : GpuSlot) (cs : List GpuSlot)
    → select_by_strategy st xs ≡ c ∷ cs
    → All (IsAsGood st c) xs
unfolding select_by_strategy
select_by_strategy_best st xs c cs h =
    let (ys, e) = take_one (sort (prefers st) xs) c cs h in
    All-imp (λ s. prefers st c s ≡ true) (IsAsGood st c) xs (prefers_good st c)
      (sort_first (prefers st) (prefers_total st) (prefers_trans st) xs c ys e)

pub select_by_strategy-nil :
    (st : Strategy) (xs : List GpuSlot) → select_by_strategy st xs ≡ [] → xs ≡ []
unfolding select_by_strategy
select_by_strategy-nil st [] h = refl
select_by_strategy-nil st (x ∷ xs) h =
    ground (arith, take_nil (sort (prefers st) (x ∷ xs)) h, length-sort (prefers st) (x ∷ xs))

-- The slots of one pod.
abbrev pub on_pod : String → List GpuSlot → List GpuSlot
on_pod pod xs = filter (λ s. same s.pod_id pod) xs

abbrev group_of : String → Dict String (List GpuSlot) → List GpuSlot
group_of pod m = Dict.or_empty (Dict.get pod m)

group_from-IsMap :
    (m : Dict String (List GpuSlot)) (xs : List GpuSlot) → IsMap m → IsMap (group_from m xs)
unfolding group_from
group_from-IsMap m [] h = h
group_from-IsMap m (s ∷ ss) h =
    let v = group_of s.pod_id m ++ s ∷ [] in
    group_from-IsMap (Dict.set s.pod_id v m) ss (set-IsMap s.pod_id v m h)

group_of-group_from :
    (pod : String) (m : Dict String (List GpuSlot)) (xs : List GpuSlot)
    → group_of pod (group_from m xs) ≡ group_of pod m ++ on_pod pod xs
unfolding group_from
group_of-group_from pod m [] = sym (append-nil (group_of pod m))
group_of-group_from pod m (s ∷ ss) =
    let v = group_of s.pod_id m ++ s ∷ [] in
    ground (
      arith,
      group_of-group_from pod (Dict.set s.pod_id v m) ss,
      get-set s.pod_id pod v m,
      append_assoc (group_of pod m) (s ∷ []) (on_pod pod ss),
    )

groups-on_pod : (pod : String) (xs : List GpuSlot) → group_of pod (group_from [] xs) ≡ on_pod pod xs
unfolding Dict.get
groups-on_pod pod xs = group_of-group_from pod [] xs

-- A viable pod's group holds its candidates, at least `tp` of them.
pub record IsGroup (tp : ℕ) (xs : List GpuSlot) (g : String × List GpuSlot) : Type 0 where
  pub whole : g.1 ≡ on_pod g.0 xs
  pub large : tp ≤ length g.1

Stands-whole :
    (xs : List GpuSlot) (g : String × List GpuSlot)
    → Stands (group_from [] xs) g
    → g.1 ≡ on_pod g.0 xs
unfolding Dict.get
Stands-whole xs g h = ap Dict.or_empty (sym h) ∙ group_of-group_from g.0 [] xs

All-filter-imp :
    {A : Type 0} (P Q : A → Type 0) (p : A → Bool) (xs : List A)
    → ((x : A) → P x → p x ≡ true → Q x)
    → All P xs
    → All Q (filter p xs)
All-filter-imp P Q p [] f h = tt
All-filter-imp P Q p (x ∷ xs) f h = ground (arith, f x h.0, All-filter-imp P Q p xs f h.1)

pub viable_pods-IsGroup : (tp : ℕ) (xs : List GpuSlot) → All (IsGroup tp xs) (viable_pods tp xs)
unfolding viable_pods
viable_pods-IsGroup tp xs =
    All-filter-imp (Stands (group_from [] xs)) (IsGroup tp xs) _ (group_from [] xs)
      (λ g s h. record { whole = Stands-whole xs g s; large = ground arith })
      (All-Stands (group_from [] xs) (group_from-IsMap [] xs tt))

found_in :
    (pod : String) (m : Dict String (List GpuSlot)) (p : String × List GpuSlot → Bool)
    (v : List GpuSlot)
    → filter p m ≡ []
    → Dict.get pod m ≡ some v
    → p (pod, v) ≡ false
unfolding Dict.get
found_in pod [] p v h e = cc
found_in pod ((j, w) ∷ m) p v h e = ground (arith, found_in pod m p v)

-- Where no pod is viable each pod has fewer than `tp` candidates.
pub viable_pods-nil :
    (tp : ℕ) (xs : List GpuSlot) (pod : String)
    → 0 < tp
    → viable_pods tp xs ≡ []
    → length (on_pod pod xs) < tp
unfolding viable_pods
viable_pods-nil tp xs pod pos h = elim (Option-cases (Dict.get pod (group_from [] xs))) [
  | inl e ↦ ground (arith, e, groups-on_pod pod xs)
  | inr (v, e) ↦ ground (
    arith,
    e,
    groups-on_pod pod xs,
    found_in pod (group_from [] xs) (λ g. leb tp (length g.1)) v h e,
  )
]
