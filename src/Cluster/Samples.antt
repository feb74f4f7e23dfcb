-- ===== src/Cluster/Samples.antt =====
-- A small cluster, on which the theorems are tried.
use sardeenz.Base.Dict.{Dict}
use sardeenz.Cluster.Election.Outcome.{HasQuorum}
use sardeenz.Cluster.Heartbeat.{Node}
use sardeenz.Cluster.Heartbeat.Detection.{IsNode}
use sardeenz.Cluster.PeerStore.{PeerStore, get_peer}
use sardeenz.Cluster.PeerStore.Laws.{IsPeers}
use sardeenz.Cluster.RoutingStore.{RoutingStore}
use sardeenz.Cluster.RoutingStore.Tables.{IsTable}
use sardeenz.Base.Dict
use sardeenz.Base.{
  string_discrete, ne_of_same, String, ◌≡◌, refl, ◌≢◌, false, some, [], ◌∷◌, arith, string_key,
}
use sardeenz.Types.{
  PeerInfo, PeerModelEntry, RoutingEntry, suspect, leader, running, healthy, follower,
}

abbrev pub model_m : PeerModelEntry
model_m = record {
  instance_id = "i1";
  model_path = "org/m";
  model_name = "m";
  port = 8001;
  status = running;
  gpu_ids = 0 ∷ [];
  tensor_parallel_size = 1;
  max_tokens = 4096;
}

abbrev pub peer_a : PeerInfo
peer_a = record {
  pod_id = "a";
  address = "10.0.0.1";
  port = 3000;
  role = leader;
  status = healthy;
  last_heartbeat = 1000;
  term = 1;
  models = model_m ∷ [];
  gpus = [];
  joined_at = 0;
}

abbrev pub peer_b : PeerInfo
peer_b = record {
  pod_id = "b";
  address = "10.0.0.2";
  port = 3000;
  role = follower;
  status = healthy;
  last_heartbeat = 1000;
  term = 1;
  models = model_m ∷ [];
  gpus = [];
  joined_at = 0;
}

abbrev pub view : PeerStore
view = ("b", peer_b) ∷ ("a", peer_a) ∷ []

abbrev pub view_b : PeerStore
view_b = ("b", peer_b) ∷ []

abbrev pub view_a : PeerStore
view_a = ("a", peer_a) ∷ []

abbrev pub entry_b : RoutingEntry
entry_b = record {
  pod_id = "b";
  pod_address = "10.0.0.2";
  vllm_port = 8001;
  weight = 1;
  last_verified = 7;
}

abbrev pub entry_c : RoutingEntry
entry_c = record {
  pod_id = "c";
  pod_address = "10.0.0.3";
  vllm_port = 8002;
  weight = 2;
  last_verified = 8;
}

abbrev pub m_served : RoutingStore
m_served = record {
  entries = ("m", entry_b ∷ entry_c ∷ []) ∷ [];
  version = 4;
  local_pod_id = some "a";
}

abbrev pub node : Node
node = record {
  pod_id = "a";
  role = leader;
  term = 1;
  default_port = 3000;
  peers = view;
  routing = m_served;
  rebuild_pending = false;
}

pub m_served-IsTable : IsTable m_served.entries
unfolding Dict.get
m_served-IsTable = record { keyed = (refl, tt); filled = (λ e. cc, tt) }

pub view-IsPeers : IsPeers view
unfolding Dict.get string_discrete
view-IsPeers = record { keyed = (refl, (refl, tt)); unique = (refl, (refl, tt)) }

pub node-IsNode : IsNode node
node-IsNode = record { peers_ok = view-IsPeers; table_ok = m_served-IsTable }

pub peer_b_known : get_peer "b" view ≡ some peer_b
unfolding get_peer Dict.get string_discrete
peer_b_known = refl

pub b_not_a : ◌≢◌ {A = String} "b" "a"
unfolding string_discrete
b_not_a = ne_of_same {K = String} "b" "a" refl

pub a_not_b : ◌≢◌ {A = String} "a" "b"
unfolding string_discrete
a_not_b = ne_of_same {K = String} "a" "b" refl

pub view-HasQuorum : HasQuorum 3 view
view-HasQuorum = omega arith

abbrev pub silent_b : PeerInfo
silent_b = record peer_b { status = suspect }

abbrev pub doubtful : Node
doubtful = record node { peers = ("b", silent_b) ∷ [] }

pub doubtful-IsNode : IsNode doubtful
unfolding Dict.get
doubtful-IsNode = record {
  peers_ok = record { keyed = (refl, tt); unique = (refl, tt) };
  table_ok = m_served-IsTable;
}

pub silent_b_known : get_peer "b" doubtful.peers ≡ some silent_b
unfolding get_peer Dict.get string_discrete
silent_b_known = refl

pub c_not_b : ◌≢◌ {A = String} "c" "b"
unfolding string_discrete
c_not_b = ne_of_same {K = String} "c" "b" refl
