-- ===== src/Cluster/ManagerExamples.antt =====
-- cluster-manager.ts, peer-discovery.ts and leader-redirect.ts: the theorems at concrete inputs.
use sardeenz.Base.{
  if◌then◌else◌, string_discrete, All, ℕ, ◌≤◌, String, ◌≡◌, refl, ◌≢◌, ◌⊎◌, true, false, not, ◌||◌,
  none, some, List, [], ◌∷◌, arith, string_key,
}
use sardeenz.Base.Dict
use sardeenz.Base.Text.{starts_with, host_port, decimal_text}
use sardeenz.Cluster.RoutingStore.{get_routing_entries}
use sardeenz.Cluster.Manager.{System, step, get_leader_address}
use sardeenz.Cluster.Redirect.{
  Request, Receiver, forward_headers, on_request, forwarded, handled, replied, should_forward,
  forward, forward_to, is_known_peer, truthy, forwarded_header,
}
use sardeenz.Cluster.Redirect.Laws.{is_forward, on_request_twice, on_request_lem, destination}
use sardeenz.Cluster.Samples.{view-IsPeers, view, m_served, m_served-IsTable}
use sardeenz.Cluster.PeerStore.{get_peer, count}
use sardeenz.Cluster.Discovery.{Pod, DiscoveredPeer, added, deleted, poll_peers, answered}
use sardeenz.Cluster.Discovery.Known.{has-poll_peers}
use sardeenz.Cluster.Manager.{Manager, Event, pod_event, polled, steps, started, max_cluster_size}
use sardeenz.Cluster.Manager.Runs.{step_deleted, IsSystem, Follows, steps-started}

abbrev pod_b : Pod
pod_b = record { name = some "b"; ip = some "10.0.0.2"; phase = some "Running" }

abbrev pod_c : DiscoveredPeer
pod_c = record { pod_id = "c:3000"; address = "c"; port = 3000 }

abbrev idle : Manager
idle = record {
  pod_id = "a";
  cluster_mode = true;
  services_started = false;
  peers = [];
  routing = m_served;
}

abbrev morning : List (ℕ × Event)
morning =
    (5, pod_event added pod_b)
    ∷ (6, polled (record { peer = pod_c; ok = true } ∷ []))
    ∷ (7, pod_event deleted pod_b)
    ∷ []

steps-started_example :
    let s = steps 3000 morning (started "0.0.0.0" 3000 1 idle) in
    (count s.manager.peers ≤ max_cluster_size) × Follows s
steps-started_example = steps-started "0.0.0.0" 3000 1 idle morning refl m_served-IsTable

has-poll_peers_example :
    Dict.has "c:3000" (poll_peers (record { peer = pod_c; ok = true } ∷ []) []).0
    ≡ answered "c:3000" (record { peer = pod_c; ok = true } ∷ [])
has-poll_peers_example = has-poll_peers "c:3000" (record { peer = pod_c; ok = true } ∷ []) [] tt

view_known :
    (pod : String)
    → Dict.has pod view ≡ true
    → (pod ≡ "a") ⊎ (Dict.has pod (("b", record pod_c { pod_id = "b" }) ∷ []) ≡ true)
unfolding Dict.get
view_known pod h = ground arith

abbrev with_b : System
with_b = record {
  known = ("b", record pod_c { pod_id = "b" }) ∷ [];
  manager = record idle { peers = view };
}

with_b-IsSystem : IsSystem with_b
unfolding count Dict.get string_discrete
with_b-IsSystem = record {
  manager_ok = record { peers_ok = view-IsPeers; table_ok = m_served-IsTable; small = omega arith };
  known_ok = (refl, tt);
  follows = view_known;
}

b_known : Dict.has "b" with_b.known ≡ true
unfolding Dict.get string_discrete
b_known = refl

step_deleted_example :
    let s' = step 3000 9 (pod_event deleted pod_b) with_b in
    (Dict.has "b" s'.known ≡ false)
    × (get_peer "b" s'.manager.peers ≡ none)
    × All (λ e. e.pod_id ≢ "b") (get_routing_entries "m" s'.manager.routing)
step_deleted_example = step_deleted 3000 9 pod_b with_b "m" with_b-IsSystem refl b_known

abbrev asked : Request
asked = record {
  url = "/api/models";
  ip = "192.0.2.7";
  headers = ("host", "sardeenz.example") ∷ ("te", "trailers") ∷ [];
}

abbrev follower_b : Receiver
follower_b = record { cluster_mode = true; is_leader = false; leader_id = some "a"; peers = view }

abbrev sent_a : Request
sent_a = record asked { headers = forward_headers "192.0.2.7" asked.headers }

goes_to_a : on_request follower_b asked ≡ forwarded "10.0.0.1:3000" sent_a
unfolding on_request should_forward starts_with forward get_leader_address get_peer Dict.get
    string_discrete forward_to is_known_peer host_port decimal_text
goes_to_a = refl

on_request_twice_example : is_forward (on_request follower_b sent_a) ≡ false
on_request_twice_example =
    on_request_twice follower_b follower_b asked sent_a "10.0.0.1:3000" goes_to_a

on_request_lem_example : on_request follower_b asked ≡ (
    if not follower_b.cluster_mode || follower_b.is_leader || not (should_forward asked.url)
    then handled
    else if truthy (Dict.get forwarded_header asked.headers)
    then replied 508
    else destination (get_leader_address follower_b.leader_id follower_b.peers) asked)
on_request_lem_example = on_request_lem follower_b asked
