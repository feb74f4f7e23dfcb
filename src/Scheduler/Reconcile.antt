-- ===== src/Scheduler/Reconcile.antt =====
-- pod-scheduler.ts, `reconcile`: the plan that brings the cluster to a preset.
pub mod Plans
use sardeenz.Base.{
  if◌then◌else◌, same, filter, ℕ, String, Bool, false, not, ◌||◌, Option, none, some, List, [], ◌∷◌,
  ◌++◌, map, string_key,
}
use sardeenz.Types.{PeerInfo, PeerModelEntry, is_running, is_sleeping}
use sardeenz.Cluster.PeerStore.{PeerStore, get_healthy_peers}
use sardeenz.Scheduler.Place.{
  Strategy, balanced, Entry, Profile, Decision, Failure, Constraints, place_models,
}

pub record Preset : Type 0 where
  pub entries : Option (List Entry)
  pub placement_strategy : Option Strategy
  pub min_kv_cache_mb : Option ℕ

pub record LoadedModel : Type 0 where
  pub pod_id : String
  pub instance_id : String
  pub model_path : String

pub record Plan : Type 0 where
  pub to_unload : List LoadedModel
  pub to_load : List Decision
  pub failures : List Failure
  pub unchanged : List LoadedModel

abbrev loaded_of : PeerInfo → PeerModelEntry → LoadedModel
loaded_of p m = record { pod_id = p.pod_id; instance_id = m.instance_id; model_path = m.model_path }

-- The running and sleeping models of a peer.
unfoldable pub peer_models : PeerInfo → List PeerModelEntry → List LoadedModel
peer_models p [] = []
peer_models p (m ∷ ms) =
    if is_running m.status || is_sleeping m.status
    then loaded_of p m ∷ peer_models p ms
    else peer_models p ms

unfoldable pub current_models : List PeerInfo → List LoadedModel
current_models [] = []
current_models (p ∷ ps) = peer_models p p.models ++ current_models ps

-- `new Set(paths).has(path)`.
abbrev pub has_path : String → List String → Bool
has_path path [] = false
has_path path (q ∷ qs) = same q path || has_path path qs

abbrev pub entries_of : Preset → List Entry
entries_of p = elim p.entries [ none ↦ [] | some es ↦ es ]

abbrev pub constraints_of : Preset → Constraints
constraints_of p = record {
  strategy = elim p.placement_strategy [ none ↦ balanced | some s ↦ s ];
  min_kv_cache_mb = p.min_kv_cache_mb;
}

abbrev pub paths_of : List Entry → List String
paths_of = map (λ e. e.model_path)

unfoldable pub missing_entries : List LoadedModel → List Entry → List Entry
missing_entries unchanged es =
    filter (λ e. not (has_path e.model_path (map (λ m. m.model_path) unchanged))) es

unfoldable pub reconcile : (String → List Profile) → Preset → PeerStore → Plan
reconcile profiles preset s =
    let current = current_models (get_healthy_peers s) in
    let desired = paths_of (entries_of preset) in
    let unchanged = filter (λ m. has_path m.model_path desired) current in
    let placed_models =
      place_models (constraints_of preset) profiles (missing_entries unchanged (entries_of preset))
        s in
    record {
      to_unload = filter (λ m. not (has_path m.model_path desired)) current;
      to_load = placed_models.0;
      failures = placed_models.1;
      unchanged = unchanged;
    }
