-- ===== src/Scheduler/Place.antt =====
-- pod-scheduler.ts, `placeModels`. The memory profiles that the store answers with are an argument; the
-- size in a profile is a fraction of a GiB. Reasons are data here and texts in the source, and a failed
-- entry's reason carries no amount.
pub mod Capacity
pub mod Deduct
pub mod Select
pub mod Models
use sardeenz.Base.{
  ltb, leb, ◌==◌, if◌then◌else◌, length, take, filter, find, ℕ, ◌+◌, ◌-◌, ◌*◌, ◌/◌, String, Bool,
  true, false, not, ◌&&◌, ◌||◌, Option, none, some, List, [], ◌∷◌, ◌++◌, map, string_key,
}
use sardeenz.Base.Dict
use sardeenz.Base.Dict.{Dict}
use sardeenz.Base.Sort.{sort}
use sardeenz.Base.Text.{includes, is_blank}
use sardeenz.Cluster.PeerStore.{PeerStore}
use sardeenz.Scheduler.Slots.{GpuSlot, units_per_mb, build_gpu_slots}

pub data Strategy : Type 0 where
  maximize_models balanced : Strategy

pub record Entry : Type 0 where
  pub model_path : String
  pub max_tokens : ℕ
  pub tensor_parallel_size : Option ℕ
  pub min_vram_mb : Option ℕ
  pub gpu_type_constraint : Option String
  pub load_order : ℕ

-- A stored profile: `gib_num / gib_den` GiB.
pub record Profile : Type 0 where
  pub max_tokens : ℕ
  pub gib_num : ℕ
  pub gib_den : ℕ

pub record Decision : Type 0 where
  pub model_path : String
  pub target_pod_id : String
  pub target_gpu_ids : List ℕ
  pub estimated_vram_mb : ℕ

pub data Reason : Type 0 where
  no_healthy_peers insufficient_vram no_match no_pod : Reason

pub record Failure : Type 0 where
  pub model_path : String
  pub reason : Reason
  pub candidate_pods : List (String × ℕ)

pub data Outcome : Type 0 where
  placed : Decision → Outcome
  unplaced : Failure → Outcome

pub record Constraints : Type 0 where
  pub strategy : Strategy
  pub min_kv_cache_mb : Option ℕ

abbrev pub or_num : Option ℕ → ℕ → ℕ
or_num none d = d
or_num (some n) d = n

-- `Math.ceil(profile.totalGpuMemoryGib * 1024)`.
abbrev pub profile_mb : Profile → ℕ
profile_mb p = (p.gib_num * 1024 + (p.gib_den - 1)) / p.gib_den

unfoldable pub estimate_vram_mb : Entry → List Profile → Option ℕ
estimate_vram_mb e [] = none
estimate_vram_mb e (p ∷ ps) = elim (find (λ q. q.max_tokens == e.max_tokens) (p ∷ ps)) [
  | none ↦ some (profile_mb p)
  | some q ↦ some (profile_mb q)
]

abbrev pub required_mb : Entry → List Profile → ℕ
required_mb e ps = or_num e.min_vram_mb (or_num (estimate_vram_mb e ps) 0)

abbrev pub tp_of : Entry → ℕ
tp_of e = or_num e.tensor_parallel_size 1

-- `requiredVramMB / tpSize`, in units, where the size is not 0.
abbrev pub share : ℕ → ℕ → ℕ
share required tp = required * units_per_mb / tp

abbrev pub type_fits : Option String → String → Bool
type_fits none name = true
type_fits (some c) name = is_blank c || includes name c

-- The headroom is compared by addition, which cannot fall below 0.
abbrev pub leaves_headroom : Option ℕ → ℕ → ℕ → Bool
leaves_headroom none available need = true
leaves_headroom (some kv) available need = not (ltb available (kv * units_per_mb + need))

-- With a size of 0 the share is infinite, or, where nothing is required, not a number, which fails no comparison.
unfoldable pub is_candidate : Entry → ℕ → ℕ → Option ℕ → GpuSlot → Bool
is_candidate e required tp kv s =
    if not (type_fits e.gpu_type_constraint s.gpu_name)
    then false
    else if tp == 0
    then not (ltb 0 required)
    else if ltb 0 required && ltb s.available (share required tp)
    then false
    else leaves_headroom kv s.available (share required tp)

-- `a` stands before `b`, or beside it.
abbrev pub prefers : Strategy → GpuSlot → GpuSlot → Bool
prefers maximize_models a b = leb a.available b.available
prefers balanced a b =
    if a.model_count == b.model_count
    then leb b.available a.available
    else leb a.model_count b.model_count

-- `selectByStrategy`, the head of the sorted candidates.
unfoldable pub select_by_strategy : Strategy → List GpuSlot → List GpuSlot
select_by_strategy st candidates = take 1 (sort (prefers st) candidates)

-- `podMap`, the available units by pod.
unfoldable pub summary_from : Dict String ℕ → List GpuSlot → Dict String ℕ
summary_from m [] = m
summary_from m (s ∷ ss) =
    summary_from (Dict.set s.pod_id (or_num (Dict.get s.pod_id m) 0 + s.available) m) ss

unfoldable pub build_candidate_pod_summary : List GpuSlot → List (String × ℕ)
build_candidate_pod_summary ss = summary_from [] ss

-- One of the chosen slots is this one.
abbrev pub has_ref : ℕ → List GpuSlot → Bool
has_ref r [] = false
has_ref r (c ∷ cs) = c.ref == r || has_ref r cs

abbrev pub is_chosen : List GpuSlot → GpuSlot → Bool
is_chosen chosen s = has_ref s.ref chosen

-- `availableVramMB -= units; modelCount += 1` on each chosen slot.
unfoldable pub deduct : ℕ → List GpuSlot → List GpuSlot → List GpuSlot
deduct units chosen = map λ s.
    if is_chosen chosen s
    then record s { available = s.available - units; model_count = s.model_count + 1 }
    else s

abbrev pub charge : ℕ → ℕ → ℕ
charge required tp = if ltb 0 required then share required tp else 0

-- `podGroups`.
unfoldable pub group_from : Dict String (List GpuSlot) → List GpuSlot → Dict String (List GpuSlot)
group_from m [] = m
group_from m (s ∷ ss) =
    group_from (Dict.set s.pod_id (Dict.or_empty (Dict.get s.pod_id m) ++ s ∷ []) m) ss

unfoldable pub viable_pods : ℕ → List GpuSlot → List (String × List GpuSlot)
viable_pods tp candidates = filter (λ g. leb tp (length g.1)) (group_from [] candidates)

unfoldable pub total_models : List GpuSlot → ℕ
total_models [] = 0
total_models (s ∷ ss) = s.model_count + total_models ss

unfoldable pub total_available : List GpuSlot → ℕ
total_available [] = 0
total_available (s ∷ ss) = s.available + total_available ss

abbrev pub prefers_pod : Strategy → String × List GpuSlot → String × List GpuSlot → Bool
prefers_pod balanced a b = leb (total_models a.1) (total_models b.1)
prefers_pod maximize_models a b = leb (total_available b.1) (total_available a.1)

-- The chosen pod's `tp` GPUs with the most available memory.
unfoldable pub select_gpus : ℕ → List GpuSlot → List GpuSlot
select_gpus tp gpus = take tp (sort (λ a b. leb b.available a.available) gpus)

abbrev gpu_ids_of : List GpuSlot → List ℕ
gpu_ids_of = map (λ s. s.gpu_id)

unfoldable pub decide_on :
    Entry → ℕ → ℕ → String → List GpuSlot → List GpuSlot → Outcome × List GpuSlot
decide_on e required tp pod chosen slots = (
  placed (record {
    model_path = e.model_path;
    target_pod_id = pod;
    target_gpu_ids = gpu_ids_of chosen;
    estimated_vram_mb = required;
  }),
  deduct (charge required tp) chosen slots,
)

unfoldable pub fail_with : Entry → Reason → List GpuSlot → Outcome × List GpuSlot
fail_with e r slots = (
  unplaced (record {
    model_path = e.model_path;
    reason = r;
    candidate_pods = build_candidate_pod_summary slots;
  }),
  slots,
)

unfoldable pub place_tensor_parallel :
    Entry → List GpuSlot → List GpuSlot → Strategy → ℕ → ℕ → Outcome × List GpuSlot
place_tensor_parallel e candidates slots st required tp =
    elim (sort (prefers_pod st) (viable_pods tp candidates)) [
      | [] ↦ fail_with e no_pod slots
      | g ∷ gs ↦ decide_on e required tp g.0 (select_gpus tp g.1) slots
    ]

-- The choice of one GPU.
unfoldable pub place_single :
    Entry → List GpuSlot → List GpuSlot → Strategy → ℕ → Outcome × List GpuSlot
place_single e candidates slots st required = elim (select_by_strategy st candidates) [
  | [] ↦ fail_with e (if ltb 0 required then insufficient_vram else no_match) slots
  | c ∷ cs ↦ decide_on e required 1 c.pod_id (c ∷ []) slots
]

unfoldable pub place_entry :
    Constraints → Entry → List Profile → List GpuSlot → Outcome × List GpuSlot
place_entry k e profiles slots =
    let required = required_mb e profiles in
    let tp = tp_of e in
    let candidates = filter (is_candidate e required tp k.min_kv_cache_mb) slots in
    if ltb 1 tp
    then place_tensor_parallel e candidates slots k.strategy required tp
    else place_single e candidates slots k.strategy required

-- The loop over the entries, with the outcomes in their order and the slots after the last.
unfoldable pub place_each :
    Constraints → (String → List Profile) → List Entry → List GpuSlot → List Outcome × List GpuSlot
place_each k profiles [] slots = ([], slots)
place_each k profiles (e ∷ es) slots =
    let (o, slots') = place_entry k e (profiles e.model_path) slots in
    let (os, slots'') = place_each k profiles es slots' in (o ∷ os, slots'')

unfoldable pub decisions_of : List Outcome → List Decision
decisions_of [] = []
decisions_of (placed d ∷ os) = d ∷ decisions_of os
decisions_of (unplaced f ∷ os) = decisions_of os

unfoldable pub failures_of : List Outcome → List Failure
failures_of [] = []
failures_of (placed d ∷ os) = failures_of os
failures_of (unplaced f ∷ os) = f ∷ failures_of os

abbrev no_peers_failure : Entry → Failure
no_peers_failure e = record {
  model_path = e.model_path;
  reason = no_healthy_peers;
  candidate_pods = [];
}

unfoldable pub in_load_order : List Entry → List Entry
in_load_order es = sort (λ a b. leb a.load_order b.load_order) es

unfoldable pub place_models :
    Constraints → (String → List Profile) → List Entry → PeerStore → List Decision × List Failure
place_models k profiles entries s = elim (build_gpu_slots s) [
  | [] ↦ ([], map no_peers_failure entries)
  | slot ∷ slots ↦
      let os = (place_each k profiles (in_load_order entries) (slot ∷ slots)).0 in
      (decisions_of os, failures_of os)
]
