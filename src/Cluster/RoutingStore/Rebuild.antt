-- ===== src/Cluster/RoutingStore/Rebuild.antt =====
-- cluster-routing-store.ts, `rebuildFromPeers`: the table against a description of it by comprehension.
use mathlib.Core.List.{append-nil, append_assoc}
use sardeenz.Base.{
  if◌then◌else◌, same, ℕ, String, ◌≡◌, sym, ◌&&◌, Option, List, [], ◌∷◌, ◌++◌, arith, string_key,
}
use sardeenz.Base.Dict
use sardeenz.Types.{PeerInfo, PeerModelEntry, RoutingEntry, is_running, is_unavailable}
use sardeenz.Cluster.RoutingStore.{
  RoutingStore, Entries, entry_of, push_entry, add_models, add_peers, rebuild_from_peers,
  get_routing_entries,
}
use sardeenz.Cluster.RoutingStore.Lookups.{find_in, find_in-push_entry}

-- The entries that a peer's models give a model name.
abbrev pub served : Option String → ℕ → PeerInfo → String → List PeerModelEntry → List RoutingEntry
served l now p name [] = []
served l now p name (m ∷ ms) =
    if is_running m.status && same m.model_name name
    then entry_of l now p m ∷ served l now p name ms
    else served l now p name ms

-- The entries that all peers that are not unavailable give it.
abbrev pub served_by : Option String → ℕ → String → List PeerInfo → List RoutingEntry
served_by l now name [] = []
served_by l now name (p ∷ ps) =
    if is_unavailable p.status
    then served_by l now name ps
    else served l now p name p.models ++ served_by l now name ps

find_in-add_models :
    (l : Option String) (now : ℕ) (p : PeerInfo) (name : String) (ms : List PeerModelEntry)
    (t : Entries)
    → find_in name (add_models l now p ms t) ≡ find_in name t ++ served l now p name ms
unfolding add_models
find_in-add_models l now p name [] t = sym (append-nil (find_in name t))
find_in-add_models l now p name (m ∷ ms) t = ground (
  arith,
  find_in-add_models l now p name ms t,
  find_in-add_models l now p name ms (push_entry m.model_name (entry_of l now p m) t),
  find_in-push_entry m.model_name name (entry_of l now p m) t,
  append_assoc (find_in name t) (entry_of l now p m ∷ []) (served l now p name ms),
)

find_in-add_peers :
    (l : Option String) (now : ℕ) (name : String) (ps : List PeerInfo) (t : Entries)
    → find_in name (add_peers l now ps t) ≡ find_in name t ++ served_by l now name ps
unfolding add_peers
find_in-add_peers l now name [] t = sym (append-nil (find_in name t))
find_in-add_peers l now name (p ∷ ps) t = ground (
  arith,
  find_in-add_peers l now name ps t,
  find_in-add_peers l now name ps (add_models l now p p.models t),
  find_in-add_models l now p name p.models t,
  append_assoc (find_in name t) (served l now p name p.models) (served_by l now name ps),
)

-- After `rebuildFromPeers` a lookup finds, for every model name, one entry for each running model of
-- that name on each peer that is not unavailable, in the order of the peers and of their models, and
-- nothing else; what was in the table before does not matter.
pub get_routing_entries-rebuild_from_peers :
    (peers : List PeerInfo) (now : ℕ) (s : RoutingStore) (name : String)
    → get_routing_entries name (rebuild_from_peers peers now s)
      ≡ served_by s.local_pod_id now name peers
unfolding get_routing_entries rebuild_from_peers Dict.get
get_routing_entries-rebuild_from_peers peers now s name =
    find_in-add_peers s.local_pod_id now name peers []
