-- ===== src/Scheduler/Examples.antt =====
-- pod-scheduler.ts: the theorems at concrete inputs.
use sardeenz.Scheduler.Place.{
  Constraints, Entry, Profile, balanced, maximize_models, place_entry, place_models,
  total_available, tp_of,
}
use sardeenz.Scheduler.Place.Capacity.{Handles, place_entry-Handles}
use sardeenz.Scheduler.Place.Deduct.{Distinct}
use sardeenz.Scheduler.Place.Models.{
  decisions_units, has_decision, has_entry, has_failure, place_models-fits,
}
use sardeenz.Scheduler.Reconcile.{Preset, reconcile}
use sardeenz.Scheduler.Reconcile.Plans.{has_model, reconcile_loads}
use sardeenz.Base.{
  length, All, ◌+◌, ◌≤◌, ◌<◌, String, ◌≡◌, refl, not, ◌&&◌, ◌||◌, none, some, List, [], ◌∷◌, arith,
}
use sardeenz.Types.{PeerInfo, PeerGpuInfo, PeerModelEntry, healthy, leader, running}
use sardeenz.Cluster.PeerStore.{PeerStore}
use sardeenz.Scheduler.Slots.{build_gpu_slots, GpuSlot}

abbrev loaded : PeerModelEntry
loaded = record {
  instance_id = "i1";
  model_path = "org/m";
  model_name = "m";
  port = 8001;
  status = running;
  gpu_ids = 0 ∷ [];
  tensor_parallel_size = 1;
  max_tokens = 4096;
}

abbrev gpu : PeerGpuInfo
gpu = record {
  gpu_id = 0;
  name = "L40S";
  total_vram_mb = 46_000;
  used_vram_mb = 6_000;
  temperature = 40;
  utilization = 3;
}

abbrev peer : PeerInfo
peer = record {
  pod_id = "a";
  address = "10.0.0.1";
  port = 3000;
  role = leader;
  status = healthy;
  last_heartbeat = 1000;
  term = 1;
  models = loaded ∷ [];
  gpus = gpu ∷ [];
  joined_at = 0;
}

abbrev peers : PeerStore
peers = ("a", peer) ∷ []

abbrev small : Entry
small = record {
  model_path = "org/n";
  max_tokens = 2048;
  tensor_parallel_size = none;
  min_vram_mb = none;
  gpu_type_constraint = none;
  load_order = 1;
}

abbrev large : Entry
large = record {
  model_path = "org/l";
  max_tokens = 2048;
  tensor_parallel_size = some 2;
  min_vram_mb = some 60_000;
  gpu_type_constraint = some "L40";
  load_order = 2;
}

abbrev profile : Profile
profile = record { max_tokens = 4096; gib_num = 20; gib_den = 1 }

abbrev profiles : String → List Profile
profiles path = profile ∷ []

abbrev slots : List GpuSlot
slots =
    record {
      ref = 0;
      pod_id = "a";
      gpu_id = 0;
      gpu_name = "L40S";
      total = 46_000;
      available = 40_000;
      model_count = 1;
    }
    ∷ record {
      ref = 1;
      pod_id = "a";
      gpu_id = 1;
      gpu_name = "L40S";
      total = 46_000;
      available = 45_000;
      model_count = 0;
    }
    ∷ []

abbrev spread : Constraints
spread = record { strategy = balanced; min_kv_cache_mb = some 500 }

abbrev preset : Preset
preset = record {
  entries = some (small ∷ large ∷ []);
  placement_strategy = some maximize_models;
  min_kv_cache_mb = none;
}

slots-Distinct : Distinct slots
slots-Distinct = (refl, (refl, tt))

some_gpus : All (λ e. 0 < tp_of e) (small ∷ large ∷ [])
some_gpus = (omega arith, (omega arith, tt))

place_entry-Handles_example :
    Handles spread large (profile ∷ []) slots (place_entry spread large (profile ∷ []) slots)
place_entry-Handles_example = place_entry-Handles spread large (profile ∷ []) slots slots-Distinct

place_models-fits_example :
    let r = place_models spread profiles (small ∷ large ∷ []) peers in
    (decisions_units r.0 ≤ total_available (build_gpu_slots peers)) × (length r.0 + length r.1 ≡ 2)
place_models-fits_example = place_models-fits spread profiles (small ∷ large ∷ []) peers some_gpus

reconcile_loads_example :
    let plan = reconcile profiles preset peers in
    (has_decision "org/n" plan.to_load || has_failure "org/n" plan.failures)
    ≡ (has_entry "org/n" (small ∷ large ∷ []) && not (has_model "org/n" plan.unchanged))
reconcile_loads_example = reconcile_loads profiles preset peers "org/n"
