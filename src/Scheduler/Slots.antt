-- ===== src/Scheduler/Slots.antt =====
-- pod-scheduler.ts: the GPU slots of a placement. Amounts of memory are natural numbers of units, of
-- which `units_per_mb` make a megabyte, so that the share of one GPU of up to 16 is exact. A slot is an
-- object that later placements change: `ref`, its place in the list of all slots, says which it is. The
-- memory that a GPU reports as used is at most its total, so that `-` is exact.
pub mod Refs
use sardeenz.Base.{
  ◌==◌, length, filter, any, ℕ, ◌+◌, ◌-◌, ◌*◌, String, Bool, ◌&&◌, ◌||◌, List, [], ◌∷◌, ◌++◌,
  string_key,
}
use sardeenz.Types.{PeerInfo, PeerGpuInfo, PeerModelEntry, is_running, is_starting, is_sleeping}
use sardeenz.Cluster.PeerStore.{PeerStore, get_healthy_peers}

abbrev pub units_per_mb : ℕ
units_per_mb = 720_720

pub record GpuSlot : Type 0 where
  pub ref : ℕ
  pub pod_id : String
  pub gpu_id : ℕ
  pub gpu_name : String
  pub total : ℕ
  pub available : ℕ
  pub model_count : ℕ

-- `gpuIds.includes(id)`.
abbrev pub holds_gpu : ℕ → List ℕ → Bool
holds_gpu id ids = any (λ g. g == id) ids

abbrev pub counts_on : ℕ → PeerModelEntry → Bool
counts_on id m =
    holds_gpu id m.gpu_ids
    && (is_running m.status || (is_starting m.status || is_sleeping m.status))

abbrev pub slot_of : ℕ → PeerInfo → PeerGpuInfo → GpuSlot
slot_of ref p g = record {
  ref = ref;
  pod_id = p.pod_id;
  gpu_id = g.gpu_id;
  gpu_name = g.name;
  total = g.total_vram_mb * units_per_mb;
  available = (g.total_vram_mb - g.used_vram_mb) * units_per_mb;
  model_count = length (filter (counts_on g.gpu_id) p.models);
}

-- The loop over a peer's GPUs, the first of which gets `ref`.
unfoldable pub peer_slots : ℕ → PeerInfo → List PeerGpuInfo → List GpuSlot
peer_slots ref p [] = []
peer_slots ref p (g ∷ gs) = slot_of ref p g ∷ peer_slots (ref + 1) p gs

unfoldable pub slots_from : ℕ → List PeerInfo → List GpuSlot
slots_from ref [] = []
slots_from ref (p ∷ ps) = peer_slots ref p p.gpus ++ slots_from (ref + length p.gpus) ps

unfoldable pub build_gpu_slots : PeerStore → List GpuSlot
build_gpu_slots s = slots_from 0 (get_healthy_peers s)
