-- ===== src/Cluster/Heartbeat/Detection.antt =====
-- heartbeat.ts, `reapPeers`: the routing table through a pass, and the end of a silent peer.
use mathlib.Core.Path.{fun_ext}
use sardeenz.Base.{
  if◌then◌else◌, Bool-cases, same, filter, any, All, All-filter, ℕ, ◌+◌, ◌<◌, String, ◌≡◌, refl,
  sym, ap, ◌∙◌, ◌≢◌, inl, inr, Bool, true, false, not, ◌&&◌, some, List, [], ◌∷◌, arith, string_key,
}
use sardeenz.Base.Dict
use sardeenz.Types.{suspect, PeerInfo, RoutingEntry, healthy, unavailable}
use sardeenz.Cluster.PeerStore.{PeerStore, get_peer, get_all_peers}
use sardeenz.Cluster.PeerStore.Laws.{IsPeers, Keyed, write-IsPeers, suspects, gives_up, write}
use sardeenz.Cluster.RoutingStore.{get_routing_entries, others}
use sardeenz.Cluster.RoutingStore.Lookups.{get_routing_entries-remove_entries_for_pod}
use sardeenz.Cluster.RoutingStore.Tables.{IsTable, write-IsTable, removes_pod, write as write_table}
use sardeenz.Cluster.Heartbeat.{
  Node, suspect_threshold_ms, unavailable_threshold_ms, heartbeat_targets, reap_peer, reap_each,
  reap_peers,
}
use sardeenz.Cluster.Heartbeat.Reaper.{get_peer-reap_peers, is_lost}

-- The peers' and the table's invariants together.
pub record IsNode (n : Node) : Type 0 where
  pub peers_ok : IsPeers n.peers
  pub table_ok : IsTable n.routing.entries

reap_peer-IsNode : (now : ℕ) (p : PeerInfo) (n : Node) → IsNode n → IsNode (reap_peer now p n)
unfolding reap_peer write write_table
reap_peer-IsNode now p n h = ground (
  arith,
  write-IsPeers (suspects p.pod_id) n.peers h.peers_ok,
  write-IsPeers (gives_up p.pod_id) n.peers h.peers_ok,
  write-IsTable (removes_pod p.pod_id) n.routing h.table_ok,
)

reap_each-IsNode :
    (now : ℕ) (ps : List PeerInfo) (n : Node) → IsNode n → IsNode (reap_each now ps n)
unfolding reap_each
reap_each-IsNode now [] n h = h
reap_each-IsNode now (p ∷ ps) n h =
    reap_each-IsNode now ps (reap_peer now p n) (reap_peer-IsNode now p n h)

pub reap_peers-IsNode : (now : ℕ) (n : Node) → IsNode n → IsNode (reap_peers now n)
unfolding reap_peers
reap_peers-IsNode now n h = reap_each-IsNode now _ n h

pod_id-reap_each :
    (now : ℕ) (ps : List PeerInfo) (n : Node) → (reap_each now ps n).pod_id ≡ n.pod_id
unfolding reap_each reap_peer
pod_id-reap_each now [] n = refl
pod_id-reap_each now (p ∷ ps) n = ground (arith, pod_id-reap_each now ps (reap_peer now p n))

pod_id-reap_peers : (now : ℕ) (n : Node) → (reap_peers now n).pod_id ≡ n.pod_id
unfolding reap_peers
pod_id-reap_peers now n = pod_id-reap_each now _ n

-- One of the peers has this pod id and is lost.
abbrev loses : ℕ → List PeerInfo → String → Bool
loses now ps pod = any (λ p. same p.pod_id pod && is_lost now p) ps

filter-filter :
    {A : Type 0} (p q r : A → Bool) (xs : List A)
    → ((x : A) → r x ≡ (p x && q x))
    → filter q (filter p xs) ≡ filter r xs
filter-filter p q r [] h = refl
filter-filter p q r (x ∷ xs) h = ground (arith, h x, filter-filter p q r xs h)

filter-true : {A : Type 0} (p : A → Bool) (xs : List A) → ((x : A) → p x ≡ true) → filter p xs ≡ xs
filter-true p [] h = refl
filter-true p (x ∷ xs) h = ground (arith, h x, filter-true p xs h)

abbrev kept : ℕ → List PeerInfo → RoutingEntry → Bool
kept now ps e = not (loses now ps e.pod_id)

routes-reap_peer :
    (now : ℕ) (p : PeerInfo) (n : Node) (name : String)
    → IsNode n
    → get_routing_entries name (reap_peer now p n).routing ≡ (
        if is_lost now p
        then others p.pod_id (get_routing_entries name n.routing)
        else get_routing_entries name n.routing)
unfolding reap_peer
routes-reap_peer now p n name h =
    ground
      (arith, get_routing_entries-remove_entries_for_pod p.pod_id name n.routing h.table_ok.keyed)

routes-reap_each :
    (now : ℕ) (ps : List PeerInfo) (n : Node) (name : String)
    → IsNode n
    → get_routing_entries name (reap_each now ps n).routing
      ≡ filter (kept now ps) (get_routing_entries name n.routing)
unfolding reap_each
routes-reap_each now [] n name h =
    sym (filter-true _ (get_routing_entries name n.routing) (λ x. refl))
routes-reap_each now (p ∷ ps) n name h =
    routes-reap_each now ps (reap_peer now p n) name (reap_peer-IsNode now p n h)
    ∙ (rw (routes-reap_peer now p n name h) (elim (Bool-cases (is_lost now p)) [
      | inl e ↦ rw e (
          filter-filter (λ x. not (same x.pod_id p.pod_id)) (kept now ps) (kept now (p ∷ ps))
            (get_routing_entries name n.routing) (λ x. ground arith))
      | inr e ↦ rw e (
          ap (λ (f : RoutingEntry → Bool). filter f (get_routing_entries name n.routing))
            (fun_ext (λ x. ground arith)))
    ]))

loses-targets :
    (now : ℕ) (self pod : String) (s : PeerStore) (p : PeerInfo)
    → Keyed s
    → Dict.get pod s ≡ some p
    → same pod self ≡ false
    → is_lost now p ≡ true
    → loses now (filter (λ q. not (same q.pod_id self)) (get_all_peers s)) pod ≡ true
unfolding Dict.get
loses-targets now self pod [] p h e d l = cc
loses-targets now self pod ((j, q) ∷ s) p h e d l =
    ground (arith, loses-targets now self pod s p h.1)

no_others :
    (pod : String) (f : RoutingEntry → Bool) (es : List RoutingEntry)
    → ((e : RoutingEntry) → f e ≡ true → same e.pod_id pod ≡ false)
    → All (λ e. e.pod_id ≢ pod) (filter f es)
no_others pod f es h = All-filter f es (λ e k p. ground (arith, h e k))

-- On a node that keeps its invariants: in the pass in which another pod's peer becomes unavailable, every
-- routing entry of that pod goes.
pub reap_peers-lost :
    (now : ℕ) (n : Node) (p : PeerInfo) (name : String)
    → IsNode n
    → get_peer p.pod_id n.peers ≡ some p
    → p.pod_id ≢ n.pod_id
    → is_lost now p ≡ true
    → All (λ e. e.pod_id ≢ p.pod_id) (get_routing_entries name (reap_peers now n).routing)
unfolding reap_peers heartbeat_targets get_peer
reap_peers-lost now n p name h e d l =
    let ps : List PeerInfo = filter (λ q. not (same q.pod_id n.pod_id)) (get_all_peers n.peers) in
    rw (routes-reap_each now ps n name h) (
      no_others p.pod_id (kept now ps) (get_routing_entries name n.routing)
        (λ e' k. ground (arith, loses-targets now n.pod_id p.pod_id n.peers p h.peers_ok.keyed e)))

-- On a node that keeps its invariants: another pod's healthy peer that stays silent is found out by two
-- passes, the first more than 10 s and the second more than 15 s after it was last heard of. It is
-- unavailable then, and no model is routed to it.
pub reap_twice :
    (t1 t2 : ℕ) (n : Node) (p : PeerInfo) (name : String)
    → IsNode n
    → get_peer p.pod_id n.peers ≡ some p
    → p.pod_id ≢ n.pod_id
    → p.status ≡ healthy
    → p.last_heartbeat + suspect_threshold_ms < t1
    → p.last_heartbeat + unavailable_threshold_ms < t2
    → let n' = reap_peers t2 (reap_peers t1 n) in
      (get_peer p.pod_id n'.peers ≡ some (record p { status = unavailable }))
      × All (λ e. e.pod_id ≢ p.pod_id) (get_routing_entries name n'.routing)
reap_twice t1 t2 n p name h e d s a b =
    let n1 = reap_peers t1 n in
    let q = record p { status = suspect } in
    let h1 = reap_peers-IsNode t1 n h in
    let self : n1.pod_id ≡ n.pod_id = pod_id-reap_peers t1 n in
    let seen : get_peer p.pod_id n1.peers ≡ some q =
      ground (arith, get_peer-reap_peers t1 n p.pod_id h.peers_ok) in
    (
      ground (arith, get_peer-reap_peers t2 n1 p.pod_id h1.peers_ok),
      reap_peers-lost t2 n1 q name h1 seen (λ k. d (k ∙ self)) (ground arith),
    )
