-- ===== src/Cluster/Manager.antt =====
-- apps/backend/src/services/cluster-manager.ts: what the cluster manager does with the callbacks of the
-- discovery and of the election, and with what it reads of the GPUs. `now` is the clock. The services
-- start in the background: `services_up` and `services_failed` are the two ends of that.
pub mod Steps
pub mod Runs
use sardeenz.Base.{
  leb, if◌then◌else◌, same, ℕ, String, Bool, true, false, not, ◌&&◌, Option, none, some, List, [],
  ◌∷◌, string_key,
}
use sardeenz.Base.Dict
use sardeenz.Base.Text.{host_port}
use sardeenz.Types.{PeerInfo, PeerModelEntry, PeerGpuInfo, leader, follower, healthy}
use sardeenz.Cluster.PeerStore
use sardeenz.Cluster.PeerStore.{
  PeerStore, no_updates, add_peer, remove_peer, update_peer, get_peer, count,
}
use sardeenz.Cluster.RoutingStore.{RoutingStore, remove_entries_for_pod}
use sardeenz.Cluster.Discovery.{
  DiscoveredPeer, KnownPods, Callback, peer_added, peer_removed, Phase, Pod, Ping, handle_pod_event,
  poll_peers,
}

abbrev pub max_cluster_size : ℕ
max_cluster_size = 8

pub record Manager : Type 0 where
  pub pod_id : String
  pub cluster_mode : Bool
  pub services_started : Bool
  pub peers : PeerStore
  pub routing : RoutingStore

-- A peer that is new: a healthy follower with no models.
unfoldable pub fresh_peer : String → String → ℕ → ℕ → PeerInfo
fresh_peer pod address port now = record {
  pod_id = pod;
  address = address;
  port = port;
  role = follower;
  status = healthy;
  last_heartbeat = now;
  term = 0;
  models = [];
  gpus = [];
  joined_at = now;
}

-- The address of the pod's own peer.
unfoldable pub own_address : String → String
own_address host = if same host "0.0.0.0" then "127.0.0.1" else host

-- `start`, up to the start of the services.
unfoldable pub register_self : String → ℕ → ℕ → Manager → Manager
register_self host port now m = record m {
  peers = add_peer (fresh_peer m.pod_id (own_address host) port now) m.peers;
}

-- The flag of `startClusterServices`.
unfoldable pub start_services : Manager → Manager
start_services m = if m.services_started then m else record m { services_started = true }

unfoldable pub start : String → ℕ → ℕ → Manager → Manager
start host port now m =
    let m' = register_self host port now m in if m'.cluster_mode then start_services m' else m'

unfoldable pub services_up : Manager → Manager
services_up m = record m { cluster_mode = true }

unfoldable pub services_failed : Manager → Manager
services_failed m = record m { services_started = false }

unfoldable pub stop : Manager → Manager
stop m = record m { peers = PeerStore.clear m.peers }

-- The callback `onLeaderChange`.
unfoldable pub leader_changed : String → ℕ → Manager → Manager
leader_changed id term m =
    let role = if same id m.pod_id then leader else follower in
    record m {
      peers =
          (update_peer m.pod_id (record no_updates { role = some role; term = some term })
            m.peers).0;
    }

-- The end of `refreshGpuInfo`; where `nvidia-smi` fails nothing changes.
unfoldable pub gpus_read : List PeerGpuInfo → List PeerModelEntry → Manager → Manager
gpus_read gpus models m = record m {
  peers =
      (update_peer m.pod_id (record no_updates { gpus = some gpus; models = some models })
        m.peers).0;
}

-- `getLeaderAddress`, with the leader that the election knows.
unfoldable pub get_leader_address : Option String → PeerStore → Option String
get_leader_address none peers = none
get_leader_address (some id) peers = elim (get_peer id peers) [
  | none ↦ none
  | some p ↦ some (host_port p.address p.port)
]

-- The lazy activation at the end of `handlePeerAdded`.
unfoldable pub activate : Manager → Manager
activate m = if not m.services_started && not m.cluster_mode then start_services m else m

unfoldable pub handle_peer_added : ℕ → DiscoveredPeer → Manager → Manager
handle_peer_added now peer m =
    if leb max_cluster_size (count m.peers)
    then m
    else activate (
        if Dict.has peer.pod_id m.peers then m else record m {
          peers = add_peer (fresh_peer peer.pod_id peer.address peer.port now) m.peers;
        })

unfoldable pub handle_peer_removed : String → Manager → Manager
handle_peer_removed pod m = record m {
  peers = (remove_peer pod m.peers).0;
  routing = remove_entries_for_pod pod m.routing;
}

unfoldable pub call : ℕ → Callback → Manager → Manager
call now (peer_added peer) m = handle_peer_added now peer m
call now (peer_removed pod) m = handle_peer_removed pod m

unfoldable pub call_all : ℕ → List Callback → Manager → Manager
call_all now [] m = m
call_all now (c ∷ cs) m = call_all now cs (call now c m)

-- A cluster manager with its discovery, and what happens to them.
pub record System : Type 0 where
  pub known : KnownPods
  pub manager : Manager

pub data Event : Type 0 where
  pod_event : Phase → Pod → Event
  polled : List Ping → Event
  leader_is : String → ℕ → Event
  gpus_are : List PeerGpuInfo → List PeerModelEntry → Event
  up_now failed_now : Event

unfoldable pub deliver : ℕ → KnownPods × List Callback → Manager → System
deliver now (known, calls) m = record { known = known; manager = call_all now calls m }

-- `port` is the port of the configuration, `now` the clock.
unfoldable pub step : ℕ → ℕ → Event → System → System
step port now (pod_event phase pod) s =
    deliver now (handle_pod_event port phase pod s.known) s.manager
step port now (polled pings) s = deliver now (poll_peers pings s.known) s.manager
step port now (leader_is id term) s = record s { manager = leader_changed id term s.manager }
step port now (gpus_are gpus models) s = record s { manager = gpus_read gpus models s.manager }
step port now up_now s = record s { manager = services_up s.manager }
step port now failed_now s = record s { manager = services_failed s.manager }

-- Events with the time of each.
unfoldable pub steps : ℕ → List (ℕ × Event) → System → System
steps port [] s = s
steps port ((now, e) ∷ es) s = steps port es (step port now e s)

-- A manager that has just started, with nothing discovered.
unfoldable pub started : String → ℕ → ℕ → Manager → System
started host port now m = record { known = []; manager = start host port now m }
