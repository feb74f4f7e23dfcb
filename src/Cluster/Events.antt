-- ===== src/Cluster/Events.antt =====
-- apps/backend/src/routes/internal.ts, `/internal/cluster/event`: what an event that a peer sends at once does to
-- the two stores. `plausible` is the answer of the regular expression on the address of a pod that joins.
pub mod Kept
use sardeenz.Base.{
  ◌==◌, if◌then◌else◌, ℕ, String, Bool, not, ◌&&◌, ◌||◌, Option, none, some, string_key,
}
use sardeenz.Base.Dict
use sardeenz.Base.Text.{is_blank}
use sardeenz.Types.{leader}
use sardeenz.Cluster.PeerStore.{no_updates, add_peer, update_peer, get_all_peers}
use sardeenz.Cluster.RoutingStore.{rebuild_from_peers}
use sardeenz.Cluster.Manager.{Manager, fresh_peer, handle_peer_removed}

-- The type and the payload of a `ClusterEvent`.
pub data ClusterEvent : Type 0 where
  model_loaded model_unloaded model_moved : ClusterEvent
  leader_elected : String → ℕ → ClusterEvent
  pod_joined : String → Option String → Option ℕ → ClusterEvent
  pod_left : String → ClusterEvent

abbrev or_text : Option String → String
or_text none = ""
or_text (some s) = s

abbrev or_port : Option ℕ → ℕ
or_port none = 3000
or_port (some p) = p

unfoldable pub rebuild : ℕ → Manager → Manager
rebuild now m = record m { routing = rebuild_from_peers (get_all_peers m.peers) now m.routing }

unfoldable pub mark_leader : String → ℕ → Manager → Manager
mark_leader id term m =
    if not (is_blank id) && not (term == 0) && Dict.has id m.peers
    then record m {
      peers =
          (update_peer id (record no_updates { role = some leader; term = some term }) m.peers).0;
    }
    else m

-- An address is looked at only where there is one.
unfoldable pub join : Bool → ℕ → ℕ → String → String → ℕ → Manager → Manager
join plausible now term pod address port m =
    if is_blank pod || Dict.has pod m.peers
    then m
    else if not (is_blank address) && not plausible
    then m
    else record m {
      peers = add_peer (record (fresh_peer pod address port now) { term = term }) m.peers;
    }

-- With the term that the event bears.
unfoldable pub handle_cluster_event : Bool → ℕ → ℕ → ClusterEvent → Manager → Manager
unfolding or_text or_port
handle_cluster_event plausible now term model_loaded m = rebuild now m
handle_cluster_event plausible now term model_unloaded m = rebuild now m
handle_cluster_event plausible now term model_moved m = rebuild now m
handle_cluster_event plausible now term (leader_elected id t) m = mark_leader id t m
handle_cluster_event plausible now term (pod_joined pod address port) m =
    join plausible now term pod (or_text address) (or_port port) m
handle_cluster_event plausible now term (pod_left pod) m =
    if is_blank pod then m else handle_peer_removed pod m
