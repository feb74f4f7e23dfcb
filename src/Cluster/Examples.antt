-- ===== src/Cluster/Examples.antt =====
-- leader-election.ts (without Kubernetes) and heartbeat.ts: the theorems at concrete inputs.
use sardeenz.Cluster.Election.Agreement.{one_leader}
use sardeenz.Cluster.Election.Outcome.{Elects, IsLeast, run_election-Elects}
use sardeenz.Cluster.Heartbeat.{reap_peers}
use sardeenz.Cluster.Heartbeat.Detection.{reap_twice}
use sardeenz.Cluster.PeerStore.{get_peer}
use sardeenz.Cluster.RoutingStore.{get_routing_entries, rebuild_from_peers}
use sardeenz.Cluster.RoutingStore.Rebuild.{get_routing_entries-rebuild_from_peers, served_by}
use sardeenz.Cluster.Samples.{
  a_not_b, b_not_a, node, node-IsNode, peer_a, peer_b, peer_b_known, m_served, view, view-HasQuorum,
  view_a, view_b,
}
use sardeenz.Base.{string_discrete, All, String, ◌≡◌, refl, ◌≢◌, inr, true, some, [], ◌∷◌, arith}
use sardeenz.Types.{HeartbeatMessage, follower, unavailable}
use sardeenz.Cluster.Election
use sardeenz.Types.{PeerInfo}
use sardeenz.Base.Text.{le_text}
use sardeenz.Base.Sort
use sardeenz.Cluster.Election.{run_election}

reap_twice_example :
    let n' = reap_peers 17_000 (reap_peers 12_000 node) in
    (get_peer "b" n'.peers ≡ some (record peer_b { status = unavailable }))
    × All (λ e. e.pod_id ≢ "b") (get_routing_entries "m" n'.routing)
reap_twice_example =
    reap_twice 12_000 17_000 node peer_b "m" node-IsNode peer_b_known b_not_a refl (omega arith)
      (omega arith)

get_routing_entries-rebuild_from_peers_example :
    get_routing_entries "m" (rebuild_from_peers (peer_b ∷ peer_a ∷ []) 9 m_served)
    ≡ served_by (some "a") 9 "m" (peer_b ∷ peer_a ∷ [])
get_routing_entries-rebuild_from_peers_example =
    get_routing_entries-rebuild_from_peers (peer_b ∷ peer_a ∷ []) 9 m_served "m"

run_election-Elects_example :
    (id : String) × IsLeast id view
    × Elects id (Election.new "b") (run_election 3 view (Election.new "b"))
run_election-Elects_example = run_election-Elects 3 view (Election.new "b") view-HasQuorum

-- A partition of a cluster of two: each side holds only itself for alive.
one_leader_example : ¬ (
    ((run_election 2 view_a (Election.new "a")).0.is_leader ≡ true)
    × ((run_election 2 view_b (Election.new "b")).0.is_leader ≡ true))
unfolding Election.new
one_leader_example =
    one_leader 2 view_a view_b (Election.new "a") (Election.new "b") a_not_b
      (inr (omega arith, omega arith))

-- The views of three pods may overlap: where the first two do not hear of each other, both have a quorum with
-- the third, and both lead.
abbrev peer_c : PeerInfo
peer_c = record peer_b { pod_id = "c" }

split_brain :
    ((run_election 3 (("a", peer_a) ∷ ("c", peer_c) ∷ []) (Election.new "a")).0.is_leader ≡ true)
    × ((run_election 3 (("b", peer_b) ∷ ("c", peer_c) ∷ []) (Election.new "b")).0.is_leader ≡ true)
unfolding run_election sardeenz.Cluster.Election.sorted_ids sardeenz.Cluster.Election.elect
    Election.new sardeenz.Base.Sort.sort le_text string_discrete
split_brain = (refl, refl)

abbrev beat_c : HeartbeatMessage
beat_c = record {
  pod_id = "c";
  role = follower;
  term = 0;
  timestamp = 5;
  models = [];
  gpus = [];
  cluster_version = 2;
}
