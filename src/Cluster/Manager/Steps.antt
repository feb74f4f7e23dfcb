-- ===== src/Cluster/Manager/Steps.antt =====
-- cluster-manager.ts with peer-discovery.ts: the manager and the discovery that it listens to.
use sardeenz.Base.{
  leb, if◌then◌else◌, length, ℕ, suc, ◌≤◌, String, ◌≡◌, Bool, true, false, ◌||◌, List, [], ◌∷◌,
  arith, string_key,
}
use sardeenz.Base.Dict
use sardeenz.Base.Dict.{get-set, get-delete, length-set}
use sardeenz.Cluster.PeerStore.{PeerStore, count, add_peer, remove_peer}
use sardeenz.Cluster.PeerStore.Laws.{IsPeers, write, write-IsPeers, adds, removes}
use sardeenz.Cluster.RoutingStore.Tables.{IsTable, write-IsTable, removes_pod, write as write_table}
use sardeenz.Cluster.Discovery.{DiscoveredPeer, Callback, peer_added, peer_removed}
use sardeenz.Cluster.Discovery.Told.{told}
use sardeenz.Cluster.Manager.{
  Manager, max_cluster_size, fresh_peer, activate, start_services, handle_peer_added,
  handle_peer_removed, call, call_all,
}

-- The peers' and the table's invariants, and the cap on the size.
pub record IsManager (m : Manager) : Type 0 where
  pub peers_ok : IsPeers m.peers
  pub table_ok : IsTable m.routing.entries
  pub small : count m.peers ≤ max_cluster_size

length-delete : (pod : String) (s : PeerStore) → length (Dict.delete pod s) ≤ length s
unfolding Dict.delete
length-delete pod [] = omega arith
length-delete pod ((j, q) ∷ s) = ground (arith, length-delete pod s)

peers-activate : (m : Manager) → (activate m).peers ≡ m.peers
unfolding activate start_services
peers-activate m = ground arith

routing-activate : (m : Manager) → (activate m).routing ≡ m.routing
unfolding activate start_services
routing-activate m = ground arith

peers-handle_peer_added :
    (now : ℕ) (peer : DiscoveredPeer) (m : Manager)
    → (handle_peer_added now peer m).peers ≡ (
        if leb max_cluster_size (count m.peers) || Dict.has peer.pod_id m.peers
        then m.peers
        else add_peer (fresh_peer peer.pod_id peer.address peer.port now) m.peers)
unfolding handle_peer_added activate start_services
peers-handle_peer_added now peer m = ground arith

routing-handle_peer_added :
    (now : ℕ) (peer : DiscoveredPeer) (m : Manager)
    → (handle_peer_added now peer m).routing ≡ m.routing
unfolding handle_peer_added activate start_services
routing-handle_peer_added now peer m = ground arith

length-add :
    (peer : DiscoveredPeer) (now : ℕ) (s : PeerStore)
    → Dict.has peer.pod_id s ≡ false
    → count (add_peer (fresh_peer peer.pod_id peer.address peer.port now) s) ≡ suc (count s)
unfolding count add_peer fresh_peer
length-add peer now s h =
    ground (arith, length-set peer.pod_id (fresh_peer peer.pod_id peer.address peer.port now) s)

handle_peer_added-IsManager :
    (now : ℕ) (peer : DiscoveredPeer) (m : Manager)
    → IsManager m
    → IsManager (handle_peer_added now peer m)
unfolding write
handle_peer_added-IsManager now peer m h =
    let p = fresh_peer peer.pod_id peer.address peer.port now in
    let e = peers-handle_peer_added now peer m in
    let r = routing-handle_peer_added now peer m in
    record {
      peers_ok = ground (arith, e, write-IsPeers (adds p) m.peers h.peers_ok, h.peers_ok);
      table_ok = rw r h.table_ok;
      small = ground (arith, e, length-add peer now m.peers, h.small);
    }

handle_peer_removed-IsManager :
    (now : ℕ) (pod : String) (m : Manager) → IsManager m → IsManager (handle_peer_removed pod m)
unfolding handle_peer_removed write write_table remove_peer count
handle_peer_removed-IsManager now pod m h = record {
  peers_ok = write-IsPeers (removes pod) m.peers h.peers_ok;
  table_ok = write-IsTable (removes_pod pod) m.routing h.table_ok;
  small = omega (arith, length-delete pod m.peers, h.small);
}

call-IsManager : (now : ℕ) (c : Callback) (m : Manager) → IsManager m → IsManager (call now c m)
unfolding call
call-IsManager now (peer_added peer) m h = handle_peer_added-IsManager now peer m h
call-IsManager now (peer_removed pod) m h = handle_peer_removed-IsManager now pod m h

pub call_all-IsManager :
    (now : ℕ) (cs : List Callback) (m : Manager) → IsManager m → IsManager (call_all now cs m)
unfolding call_all
call_all-IsManager now [] m h = h
call_all-IsManager now (c ∷ cs) m h =
    call_all-IsManager now cs (call now c m) (call-IsManager now c m h)

pub told_mono :
    (pod : String) (cs : List Callback) (b c : Bool)
    → (b ≡ true → c ≡ true)
    → told pod cs b ≡ true
    → told pod cs c ≡ true
unfolding told
told_mono pod [] b c f h = f h
told_mono pod (peer_added p ∷ cs) b c f h = told_mono pod cs _ _ (λ k. ground arith) h
told_mono pod (peer_removed q ∷ cs) b c f h = told_mono pod cs _ _ (λ k. ground arith) h

has-call :
    (now : ℕ) (c : Callback) (m : Manager) (pod : String)
    → Dict.has pod (call now c m).peers ≡ true
    → told pod (c ∷ []) (Dict.has pod m.peers) ≡ true
unfolding call told handle_peer_removed remove_peer add_peer fresh_peer
has-call now (peer_added p) m pod h = ground (
  arith,
  peers-handle_peer_added now p m,
  get-set p.pod_id pod (fresh_peer p.pod_id p.address p.port now) m.peers,
)
has-call now (peer_removed q) m pod h = ground (arith, get-delete q pod m.peers)

-- A pod that is in the peer store after the callbacks is one of which they told, or was there.
pub has-call_all :
    (now : ℕ) (cs : List Callback) (m : Manager) (pod : String)
    → Dict.has pod (call_all now cs m).peers ≡ true
    → told pod cs (Dict.has pod m.peers) ≡ true
unfolding call_all told
has-call_all now [] m pod h = h
has-call_all now (peer_added p ∷ cs) m pod h =
    told_mono pod cs _ _ (has-call now (peer_added p) m pod)
      (has-call_all now cs (call now (peer_added p) m) pod h)
has-call_all now (peer_removed q ∷ cs) m pod h =
    told_mono pod cs _ _ (has-call now (peer_removed q) m pod)
      (has-call_all now cs (call now (peer_removed q) m) pod h)
