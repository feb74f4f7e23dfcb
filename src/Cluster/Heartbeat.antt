-- ===== src/Cluster/Heartbeat.antt =====
-- apps/backend/src/services/heartbeat.ts with the two stores that it works on: one pod's view of the
-- cluster. The data provider's answers (`role`, `term`) are part of the state; `now` is the clock. The
-- timers are the environment's: each callback is a function of its own, and `rebuild_pending` says
-- whether the debounced rebuild is scheduled. Sending a heartbeat changes no state until its answer
-- comes, which is `handle_ack`.
pub mod Incoming
pub mod Reaper
pub mod Detection
use sardeenz.Base.{
  ltb, leb, ◌==◌, if◌then◌else◌, same, filter, ℕ, ◌+◌, ◌-◌, ◌*◌, String, Bool, true, false, not,
  ◌&&◌, Option, none, some, List, [], ◌∷◌, ◌++◌, string_key,
}
use sardeenz.Base.Text.{codes, is_blank}
use sardeenz.Types.{
  PeerInfo, PeerRole, HeartbeatMessage, HeartbeatAck, healthy, is_healthy, is_suspect,
}
use sardeenz.Cluster.PeerStore.{
  PeerStore, PeerUpdates, no_updates, add_peer, update_peer, get_peer, get_all_peers,
  update_last_heartbeat, mark_suspect, mark_unavailable,
}
use sardeenz.Cluster.RoutingStore.{RoutingStore, rebuild_from_peers, remove_entries_for_pod}

abbrev pub suspect_threshold_ms : ℕ
suspect_threshold_ms = 10_000

abbrev pub unavailable_threshold_ms : ℕ
unavailable_threshold_ms = 15_000

pub record Node : Type 0 where
  pub pod_id : String
  pub role : PeerRole
  pub term : ℕ
  pub default_port : ℕ
  pub peers : PeerStore
  pub routing : RoutingStore
  pub rebuild_pending : Bool

unfoldable pub schedule_rebuild : Node → Node
schedule_rebuild n = if n.rebuild_pending then n else record n { rebuild_pending = true }

-- The callback of the debounce timer.
unfoldable pub rebuild_fires : ℕ → Node → Node
rebuild_fires now n = record n {
  rebuild_pending = false;
  routing = rebuild_from_peers (get_all_peers n.peers) now n.routing;
}

-- The peers that `sendHeartbeats` sends to.
unfoldable pub heartbeat_targets : Node → List PeerInfo
heartbeat_targets n = filter (λ p. not (same p.pod_id n.pod_id)) (get_all_peers n.peers)

unfoldable pub handle_ack : HeartbeatAck → ℕ → Node → Node
handle_ack ack now n = record n { peers = (update_last_heartbeat ack.pod_id now n.peers).0 }

-- `podId.split(':').pop()`.
last_segment : List ℕ → List ℕ → List ℕ
last_segment acc [] = acc
last_segment acc (c ∷ cs) = last_segment (if c == b':' then [] else acc ++ c ∷ []) cs

-- `parseInt(text, 10)` on a text with no blank and no sign in front; 0 stands for `NaN`, which the
-- caller treats alike.
parse_int : ℕ → List ℕ → ℕ
parse_int n [] = n
parse_int n (c ∷ cs) = elim (leb b'0' c && leb c b'9') [
  | true ↦ parse_int (n * 10 + (c - b'0')) cs
  | false ↦ n
]

unfoldable pub peer_port : String → ℕ → ℕ
unfolding last_segment parse_int
peer_port pod default =
    let port = parse_int 0 (last_segment [] (codes pod)) in if port == 0 then default else port

abbrev or_blank : Option String → String
or_blank none = ""
or_blank (some s) = s

-- The address is filled in only where it is blank and the source is known.
unfoldable pub fill_address : String → Option String → Option String
fill_address address none = none
fill_address address (some ip) = if is_blank address && not (is_blank ip) then some ip else none

abbrev pub message_updates : HeartbeatMessage → Option String → PeerUpdates
message_updates m address = record no_updates {
  role = some m.role;
  term = some m.term;
  models = some m.models;
  gpus = some m.gpus;
  address = address;
}

unfoldable pub new_peer : HeartbeatMessage → Option String → ℕ → ℕ → PeerInfo
new_peer m source now default = record {
  pod_id = m.pod_id;
  address = or_blank source;
  port = peer_port m.pod_id default;
  role = m.role;
  status = healthy;
  last_heartbeat = now;
  term = m.term;
  models = m.models;
  gpus = m.gpus;
  joined_at = now;
}

unfoldable pub receive : HeartbeatMessage → Option String → ℕ → ℕ → PeerStore → PeerStore
receive m source now default s = elim (get_peer m.pod_id s) [
  | some peer ↦
      (update_last_heartbeat m.pod_id now
        (update_peer m.pod_id (message_updates m (fill_address peer.address source)) s).0).0
  | none ↦ add_peer (new_peer m source now default) s
]

unfoldable pub process_incoming_heartbeat :
    HeartbeatMessage → Option String → ℕ → Node → Node × HeartbeatAck
process_incoming_heartbeat m source now n =
    let n' = schedule_rebuild (record n { peers = receive m source now n.default_port n.peers }) in
    (
      n',
      record {
        pod_id = n.pod_id;
        term = n.term;
        role = n.role;
        cluster_version = n.routing.version;
      },
    )

-- The body of the reaper's loop.
unfoldable pub reap_peer : ℕ → PeerInfo → Node → Node
reap_peer now p n =
    let age = now - p.last_heartbeat in
    if is_healthy p.status && ltb suspect_threshold_ms age
    then record n { peers = (mark_suspect p.pod_id n.peers).0 }
    else if is_suspect p.status && ltb unavailable_threshold_ms age
    then record n {
      peers = (mark_unavailable p.pod_id n.peers).0;
      routing = remove_entries_for_pod p.pod_id n.routing;
    }
    else n

unfoldable pub reap_each : ℕ → List PeerInfo → Node → Node
reap_each now [] n = n
reap_each now (p ∷ ps) n = reap_each now ps (reap_peer now p n)

unfoldable pub reap_peers : ℕ → Node → Node
reap_peers now n = reap_each now (heartbeat_targets n) n
