-- ===== src/Cluster/RoutingStore.antt =====
-- apps/backend/src/stores/cluster-routing-store.ts. A method that reads the clock takes `now`; an array
-- that the source grows in place is written back under its key.
pub mod Lookups
pub mod Rebuild
pub mod Tables
pub mod Refine
use sardeenz.Base.{
  ◌==◌, if◌then◌else◌, same, length, filter, ℕ, ◌+◌, String, Bool, true, false, not, Option, none,
  some, List, [], ◌∷◌, ◌++◌, string_key,
}
use sardeenz.Base.Dict
use sardeenz.Base.Dict.{Dict}
use sardeenz.Types.{PeerInfo, PeerModelEntry, RoutingEntry, is_running, is_unavailable}

abbrev pub Entries : Type 0
Entries = Dict String (List RoutingEntry)

pub record RoutingStore : Type 0 where
  pub entries : Entries
  pub version : ℕ
  pub local_pod_id : Option String

unfoldable pub new : RoutingStore
new = record { entries = []; version = 0; local_pod_id = none }

unfoldable pub set_local_pod_id : String → RoutingStore → RoutingStore
set_local_pod_id pod s = record s { local_pod_id = some pod }

-- `podId === this.localPodId`.
abbrev pub is_local : Option String → String → Bool
is_local none pod = false
is_local (some l) pod = same pod l

abbrev pub entry_of : Option String → ℕ → PeerInfo → PeerModelEntry → RoutingEntry
entry_of l now p m = record {
  pod_id = p.pod_id;
  pod_address = p.address;
  vllm_port = m.port;
  weight = if is_local l p.pod_id then 2 else 1;
  last_verified = now;
}

-- `get`, create when absent, `push`.
unfoldable pub push_entry : String → RoutingEntry → Entries → Entries
push_entry name e t = elim (Dict.get name t) [
  | none ↦ Dict.set name (e ∷ []) t
  | some es ↦ Dict.set name (es ++ e ∷ []) t
]

-- The loop over a peer's models.
unfoldable pub add_models : Option String → ℕ → PeerInfo → List PeerModelEntry → Entries → Entries
add_models l now p [] t = t
add_models l now p (m ∷ ms) t =
    add_models l now p ms
      (if is_running m.status then push_entry m.model_name (entry_of l now p m) t else t)

-- The loop over the peers.
unfoldable pub add_peers : Option String → ℕ → List PeerInfo → Entries → Entries
add_peers l now [] t = t
add_peers l now (p ∷ ps) t =
    add_peers l now ps (if is_unavailable p.status then t else add_models l now p p.models t)

unfoldable pub rebuild_from_peers : List PeerInfo → ℕ → RoutingStore → RoutingStore
rebuild_from_peers peers now s = record s {
  entries = add_peers s.local_pod_id now peers [];
  version = s.version + 1;
}

unfoldable pub get_routing_entries : String → RoutingStore → List RoutingEntry
get_routing_entries name s = Dict.or_empty (Dict.get name s.entries)

unfoldable pub get_local_entries : String → RoutingStore → List RoutingEntry
get_local_entries name s = elim (Dict.get name s.entries) [
  | none ↦ []
  | some es ↦ filter (λ e. is_local s.local_pod_id e.pod_id) es
]

-- `entries.filter((e) => e.podId !== podId)`.
abbrev pub others : String → List RoutingEntry → List RoutingEntry
others pod es = filter (λ e. not (same e.pod_id pod)) es

-- The loop of `removeEntriesForPod`, with its flag `changed`.
unfoldable pub drop_pod : String → Entries → Entries × Bool
drop_pod pod [] = ([], false)
drop_pod pod ((name, es) ∷ t) =
    let (rest, changed) = drop_pod pod t in
    let filtered = others pod es in
    if length filtered == length es
    then ((name, es) ∷ rest, changed)
    else if length filtered == 0
    then (rest, true)
    else ((name, filtered) ∷ rest, true)

unfoldable pub remove_entries_for_pod : String → RoutingStore → RoutingStore
remove_entries_for_pod pod s =
    let (t, changed) = drop_pod pod s.entries in
    record s { entries = t; version = if changed then s.version + 1 else s.version }

unfoldable pub add_entry : String → RoutingEntry → RoutingStore → RoutingStore
add_entry name e s = record s { entries = push_entry name e s.entries; version = s.version + 1 }

-- `delete` for an empty list of entries, `set` for any other.
unfoldable pub put_entries : String → List RoutingEntry → Entries → Entries
put_entries name [] t = Dict.delete name t
put_entries name (e ∷ es) t = Dict.set name (e ∷ es) t

unfoldable pub remove_entry : String → String → RoutingStore → RoutingStore
remove_entry name pod s = elim (Dict.get name s.entries) [
  | none ↦ s
  | some es ↦
      let filtered = others pod es in
      if length filtered == length es
      then s
      else record s { entries = put_entries name filtered s.entries; version = s.version + 1 }
]

unfoldable pub swap_entry : String → String → RoutingEntry → RoutingStore → RoutingStore
swap_entry name source target s =
    let t = push_entry name target s.entries in
    record s {
      entries = put_entries name (others source (Dict.or_empty (Dict.get name t))) t;
      version = s.version + 1;
    }

unfoldable pub get_all_model_names : RoutingStore → List String
get_all_model_names s = Dict.keys s.entries

unfoldable pub count : RoutingStore → ℕ
count s = length s.entries

unfoldable pub clear : RoutingStore → RoutingStore
clear s = record s { entries = []; version = s.version + 1 }
