-- ===== src/Cluster/PeerStore.antt =====
-- apps/backend/src/stores/peer-store.ts. The store is the `Map` itself; a method that writes returns
-- the new store, with its Boolean result where it has one. `updatePeer` takes a partial record: a
-- field that is `none` is absent from it.
pub mod Laws
use sardeenz.Base.{
  if◌then◌else◌, length, filter, ℕ, String, Bool, ◌||◌, Option, none, some, List, [], string_key,
}
use sardeenz.Base.Dict
use sardeenz.Base.Dict.{Dict}
use sardeenz.Types.{
  PeerInfo, PeerRole, PeerStatus, PeerModelEntry, PeerGpuInfo, healthy, suspect, unavailable,
  is_healthy, is_suspect, is_unavailable,
}

abbrev pub PeerStore : Type 0
PeerStore = Dict String PeerInfo

-- `Partial<Omit<PeerInfo, 'podId'>>`.
pub record PeerUpdates : Type 0 where
  pub address : Option String
  pub port : Option ℕ
  pub role : Option PeerRole
  pub status : Option PeerStatus
  pub last_heartbeat : Option ℕ
  pub term : Option ℕ
  pub models : Option (List PeerModelEntry)
  pub gpus : Option (List PeerGpuInfo)
  pub joined_at : Option ℕ

abbrev pub no_updates : PeerUpdates
no_updates = record {
  address = none;
  port = none;
  role = none;
  status = none;
  last_heartbeat = none;
  term = none;
  models = none;
  gpus = none;
  joined_at = none;
}

abbrev or_else {ℓ} : {A : Type ℓ} → Option A → A → A
or_else none a = a
or_else (some b) a = b

-- `Object.assign(peer, updates)`.
unfoldable pub assign : PeerUpdates → PeerInfo → PeerInfo
assign u p = record p {
  address = or_else u.address p.address;
  port = or_else u.port p.port;
  role = or_else u.role p.role;
  status = or_else u.status p.status;
  last_heartbeat = or_else u.last_heartbeat p.last_heartbeat;
  term = or_else u.term p.term;
  models = or_else u.models p.models;
  gpus = or_else u.gpus p.gpus;
  joined_at = or_else u.joined_at p.joined_at;
}

unfoldable pub add_peer : PeerInfo → PeerStore → PeerStore
add_peer p s = Dict.set p.pod_id p s

unfoldable pub remove_peer : String → PeerStore → PeerStore × Bool
remove_peer pod s = (Dict.delete pod s, Dict.has pod s)

unfoldable pub update_peer : String → PeerUpdates → PeerStore → PeerStore × Bool
update_peer pod u s = (Dict.modify pod (assign u) s, Dict.has pod s)

unfoldable pub get_peer : String → PeerStore → Option PeerInfo
get_peer pod s = Dict.get pod s

abbrev pub get_all_peers : PeerStore → List PeerInfo
get_all_peers s = Dict.values s

unfoldable pub get_healthy_peers : PeerStore → List PeerInfo
get_healthy_peers s = filter (λ p. is_healthy p.status) (get_all_peers s)

unfoldable pub update_last_heartbeat : String → ℕ → PeerStore → PeerStore × Bool
update_last_heartbeat pod timestamp s = (
  Dict.modify pod (λ p. record p { last_heartbeat = timestamp; status = healthy }) s,
  Dict.has pod s,
)

abbrev pub to_suspect : PeerInfo → PeerInfo
to_suspect p = if is_healthy p.status then record p { status = suspect } else p

unfoldable pub mark_suspect : String → PeerStore → PeerStore × Bool
mark_suspect pod s = (Dict.modify pod to_suspect s, Dict.has pod s)

abbrev pub to_unavailable : PeerInfo → PeerInfo
to_unavailable p =
    if is_healthy p.status || is_suspect p.status then record p { status = unavailable } else p

unfoldable pub mark_unavailable : String → PeerStore → PeerStore × Bool
mark_unavailable pod s = (Dict.modify pod to_unavailable s, Dict.has pod s)

abbrev pub has_status : PeerStatus → PeerStatus → Bool
has_status healthy t = is_healthy t
has_status suspect t = is_suspect t
has_status unavailable t = is_unavailable t

unfoldable pub get_peers_by_status : PeerStatus → PeerStore → List PeerInfo
get_peers_by_status status s = filter (λ p. has_status status p.status) (get_all_peers s)

unfoldable pub count : PeerStore → ℕ
count s = length s

unfoldable pub clear : PeerStore → PeerStore
clear s = []
