-- ===== src/Cluster/Manager/Runs.antt =====
-- cluster-manager.ts with peer-discovery.ts: all histories of events.
use sardeenz.Base.{
  Bool-cases, same, same_refl, same_iff, ne_of_same, All, All-filter, ℕ, ◌≤◌, String, ◌≡◌, refl,
  sym, ◌∙◌, ◌≢◌, ◌⊎◌, inl, inr, Bool, true, false, none, List, [], ◌∷◌, arith, string_key,
}
use sardeenz.Base.Dict
use sardeenz.Base.Dict.{get-delete, get-modify, IsMap, length-modify}
use sardeenz.Types.{RoutingEntry}
use sardeenz.Cluster.PeerStore.{
  PeerStore, PeerUpdates, assign, count, get_peer, add_peer, update_peer, remove_peer,
}
use sardeenz.Cluster.PeerStore.Laws.{write, write-IsPeers, updates}
use sardeenz.Cluster.RoutingStore.{get_routing_entries, others}
use sardeenz.Cluster.RoutingStore.Lookups.{get_routing_entries-remove_entries_for_pod}
use sardeenz.Cluster.RoutingStore.Tables.{IsTable}
use sardeenz.Cluster.Discovery.{
  KnownPods, Callback, Pod, deleted, handle_pod_event, handle_named_event, poll_peers, forget,
  present, text_of, peer_removed, peer_added,
}
use sardeenz.Cluster.Discovery.Known.{handle_pod_event-IsMap, poll_peers-IsMap}
use sardeenz.Cluster.Discovery.Told.{told, told-handle_pod_event, told-poll_peers}
use sardeenz.Cluster.Manager.{
  Manager, System, Event, pod_event, polled, leader_is, gpus_are, up_now, failed_now, deliver, step,
  steps, started, start, start_services, register_self, call, call_all, handle_peer_added, activate,
  handle_peer_removed, leader_changed, gpus_read, services_up, services_failed, max_cluster_size,
  fresh_peer, own_address,
}
use sardeenz.Cluster.Manager.Steps.{IsManager, call_all-IsManager, has-call_all, told_mono}

-- Each peer in the store is the pod itself or one that the discovery knows.
abbrev pub Follows : System → Type 0
Follows s =
    (pod : String)
    → Dict.has pod s.manager.peers ≡ true
    → (pod ≡ s.manager.pod_id) ⊎ (Dict.has pod s.known ≡ true)

pub record IsSystem (s : System) : Type 0 where
  pub manager_ok : IsManager s.manager
  pub known_ok : IsMap s.known
  pub follows : Follows s

pod_id-call : (now : ℕ) (c : Callback) (m : Manager) → (call now c m).pod_id ≡ m.pod_id
unfolding call handle_peer_added handle_peer_removed activate start_services
pod_id-call now (peer_added p) m = ground arith
pod_id-call now (peer_removed q) m = refl

pod_id-call_all :
    (now : ℕ) (cs : List Callback) (m : Manager) → (call_all now cs m).pod_id ≡ m.pod_id
unfolding call_all
pod_id-call_all now [] m = refl
pod_id-call_all now (c ∷ cs) m = pod_id-call_all now cs (call now c m) ∙ pod_id-call now c m

-- Callbacks that tell of each change keep the store within what is known.
deliver-IsSystem :
    (now : ℕ) (known : KnownPods) (cs : List Callback) (s : System)
    → ((pod : String) → told pod cs (Dict.has pod s.known) ≡ Dict.has pod known)
    → IsMap known
    → IsSystem s
    → IsSystem (deliver now (known, cs) s.manager)
unfolding deliver
deliver-IsSystem now known cs s t k h = record {
  manager_ok = call_all-IsManager now cs s.manager h.manager_ok;
  known_ok = k;
  follows = λ pod e. elim (Bool-cases (same pod s.manager.pod_id)) [
    | inl own ↦ inl ((same_iff pod s.manager.pod_id).0 own ∙ sym (pod_id-call_all now cs s.manager))
    | inr other ↦ inr (
        sym (t pod)
        ∙ told_mono pod cs _ _
            (λ p. elim (h.follows pod p) [
              | inl own ↦ absurd (ne_of_same pod s.manager.pod_id other own)
              | inr q ↦ q
            ])
            (has-call_all now cs s.manager pod e))
  ];
}

-- An update of one peer.
update-IsManager :
    (pod : String) (u : PeerUpdates) (m : Manager)
    → IsManager m
    → IsManager (record m { peers = (update_peer pod u m.peers).0 })
unfolding write update_peer count
update-IsManager pod u m h = record {
  peers_ok = write-IsPeers (updates pod u) m.peers h.peers_ok;
  table_ok = h.table_ok;
  small = omega (arith, length-modify pod (assign u) m.peers, h.small);
}

has-update_peer :
    (pod j : String) (u : PeerUpdates) (s : PeerStore)
    → Dict.has j (update_peer pod u s).0 ≡ Dict.has j s
unfolding update_peer
has-update_peer pod j u s = ground (arith, get-modify pod j (assign u) s)

update-IsSystem :
    (pod : String) (u : PeerUpdates) (s : System)
    → IsSystem s
    → IsSystem
        (record s { manager = record s.manager { peers = (update_peer pod u s.manager.peers).0 } })
update-IsSystem pod u s h = record {
  manager_ok = update-IsManager pod u s.manager h.manager_ok;
  known_ok = h.known_ok;
  follows = λ j e. h.follows j (sym (has-update_peer pod j u s.manager.peers) ∙ e);
}

flags-IsSystem :
    (mode up : Bool) (s : System)
    → IsSystem s
    → IsSystem
        (record s { manager = record s.manager { cluster_mode = mode; services_started = up } })
flags-IsSystem mode up s h = record {
  manager_ok = record {
    peers_ok = h.manager_ok.peers_ok;
    table_ok = h.manager_ok.table_ok;
    small = h.manager_ok.small;
  };
  known_ok = h.known_ok;
  follows = h.follows;
}

step-IsSystem : (port now : ℕ) (e : Event) (s : System) → IsSystem s → IsSystem (step port now e s)
unfolding step leader_changed gpus_read services_up services_failed
step-IsSystem port now (pod_event phase pod) s h =
    let r = handle_pod_event port phase pod s.known in
    deliver-IsSystem now r.0 r.1 s (λ j. told-handle_pod_event port phase pod j s.known)
      (handle_pod_event-IsMap port phase pod s.known h.known_ok) h
step-IsSystem port now (polled pings) s h =
    let r = poll_peers pings s.known in
    deliver-IsSystem now r.0 r.1 s (λ j. told-poll_peers j pings s.known h.known_ok)
      (poll_peers-IsMap pings s.known h.known_ok) h
step-IsSystem port now (leader_is id term) s h = update-IsSystem s.manager.pod_id _ s h
step-IsSystem port now (gpus_are gpus models) s h = update-IsSystem s.manager.pod_id _ s h
step-IsSystem port now up_now s h = flags-IsSystem true s.manager.services_started s h
step-IsSystem port now failed_now s h = flags-IsSystem s.manager.cluster_mode false s h

pub steps-IsSystem :
    (port : ℕ) (es : List (ℕ × Event)) (s : System) → IsSystem s → IsSystem (steps port es s)
unfolding steps
steps-IsSystem port [] s h = h
steps-IsSystem port ((now, e) ∷ es) s h =
    steps-IsSystem port es (step port now e s) (step-IsSystem port now e s h)

peers-start :
    (host : String) (port now : ℕ) (m : Manager)
    → (start host port now m).peers
      ≡ add_peer (fresh_peer m.pod_id (own_address host) port now) m.peers
unfolding start register_self start_services
peers-start host port now m = ground arith

rest-start :
    (host : String) (port now : ℕ) (m : Manager)
    → ((start host port now m).pod_id ≡ m.pod_id) × ((start host port now m).routing ≡ m.routing)
unfolding start register_self start_services
rest-start host port now m = ground arith

started-IsSystem :
    (host : String) (port now : ℕ) (m : Manager)
    → m.peers ≡ []
    → IsTable m.routing.entries
    → IsSystem (started host port now m)
unfolding started add_peer fresh_peer count Dict.set Dict.get
started-IsSystem host port now m e t =
    let p = peers-start host port now m in
    let r = rest-start host port now m in
    record {
      manager_ok = record {
        peers_ok = rw (p, e) (record { keyed = (refl, tt); unique = (refl, tt) });
        table_ok = rw r.1 t;
        small = ground (arith, p, e);
      };
      known_ok = tt;
      follows = λ pod q. ground (arith, p, e, r.0);
    }

-- From a start with no peers and any routing table that is well formed: after any events of the
-- discovery, the election, the GPUs and the background start, the peer store holds at most 8 pods, and
-- each of them is the pod itself or one that the discovery knows.
pub steps-started :
    (host : String) (port now : ℕ) (m : Manager) (es : List (ℕ × Event))
    → m.peers ≡ []
    → IsTable m.routing.entries
    → let s = steps port es (started host port now m) in
      (count s.manager.peers ≤ max_cluster_size) × Follows s
steps-started host port now m es e t =
    let h = steps-IsSystem port es _ (started-IsSystem host port now m e t) in
    (h.manager_ok.small, h.follows)

no_entries_of : (pod : String) (es : List RoutingEntry) → All (λ e. e.pod_id ≢ pod) (others pod es)
no_entries_of pod es = All-filter _ es (λ e k p. ground arith)

-- When a known pod is deleted, the discovery forgets it, and its peer and all routes to it go.
pub step_deleted :
    (port now : ℕ) (p : Pod) (s : System) (name : String)
    → IsSystem s
    → present p.name ≡ true
    → Dict.has (text_of p.name) s.known ≡ true
    → let s' = step port now (pod_event deleted p) s in
      (Dict.has (text_of p.name) s'.known ≡ false)
      × (get_peer (text_of p.name) s'.manager.peers ≡ none)
      × All (λ e. e.pod_id ≢ text_of p.name) (get_routing_entries name s'.manager.routing)
unfolding step deliver handle_pod_event handle_named_event forget call call_all handle_peer_removed
    get_peer remove_peer
step_deleted port now p s name h n k =
    let pod = text_of p.name in
    rw (n, k)
      (
        ground (arith, get-delete pod pod s.known, same_refl {K = String} pod),
        ground (arith, get-delete pod pod s.manager.peers, same_refl {K = String} pod),
        rw
            (get_routing_entries-remove_entries_for_pod pod name s.manager.routing
              h.manager_ok.table_ok.keyed)
            (no_entries_of pod (get_routing_entries name s.manager.routing)),
      )
