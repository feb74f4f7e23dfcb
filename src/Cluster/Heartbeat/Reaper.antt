-- ===== src/Cluster/Heartbeat/Reaper.antt =====
-- heartbeat.ts, `reapPeers`: one pass over the peers, and two passes over a silent one.
use mathlib.Core.Path.{fun_ext}
use sardeenz.Base.{
  ltb, if◌then◌else◌, Bool-cases, Option-cases, same, filter, find, ℕ, ◌-◌, String, ◌≡◌, refl, inl,
  inr, Bool, not, ◌&&◌, Option, none, some, List, [], ◌∷◌, arith, string_key,
}
use sardeenz.Base.Dict
use sardeenz.Base.Dict.{map_some, get-modify, IsMap, map_some_id}
use sardeenz.Types.{PeerInfo, is_healthy, is_suspect, suspect, unavailable}
use sardeenz.Cluster.PeerStore.{
  PeerStore, get_peer, get_all_peers, mark_suspect, mark_unavailable, to_suspect, to_unavailable,
}
use sardeenz.Cluster.PeerStore.Laws.{IsPeers, Keyed, doubted, given_up, to_unavailable-eq-given_up}
use sardeenz.Cluster.Heartbeat.{
  Node, suspect_threshold_ms, unavailable_threshold_ms, heartbeat_targets, reap_peer, reap_each,
  reap_peers,
}

-- Healthy, and silent for more than 10 s.
abbrev pub is_late : ℕ → PeerInfo → Bool
is_late now p = is_healthy p.status && ltb suspect_threshold_ms (now - p.last_heartbeat)

-- Suspect, and silent for more than 15 s.
abbrev pub is_lost : ℕ → PeerInfo → Bool
is_lost now p = is_suspect p.status && ltb unavailable_threshold_ms (now - p.last_heartbeat)

-- What one pass makes of a peer.
abbrev pub aged : ℕ → PeerInfo → PeerInfo
aged now p =
    if is_late now p
    then record p { status = suspect }
    else if is_lost now p
    then record p { status = unavailable }
    else p

-- The same from an earlier look `p` at the peer.
abbrev transition : ℕ → PeerInfo → PeerInfo → PeerInfo
transition now p = if is_late now p then doubted else if is_lost now p then given_up else (λ q. q)

transition_self : (now : ℕ) (p : PeerInfo) → transition now p p ≡ aged now p
transition_self now p = ground arith

get-reap_peer :
    (now : ℕ) (p : PeerInfo) (n : Node) (pod : String)
    → Dict.get pod (reap_peer now p n).peers ≡ (
        if same p.pod_id pod
        then map_some (transition now p) (Dict.get pod n.peers)
        else Dict.get pod n.peers)
unfolding reap_peer mark_suspect mark_unavailable
get-reap_peer now p n pod = elim (Bool-cases (is_late now p)) [
  | inl e ↦ rw e (get-modify p.pod_id pod to_suspect n.peers)
  | inr e ↦ elim (Bool-cases (is_lost now p)) [
    | inl f ↦
        rw (e, f)
          (rw (← fun_ext to_unavailable-eq-given_up)
            (get-modify p.pod_id pod to_unavailable n.peers))
    | inr f ↦ rw (e, f) (ground (arith, map_some_id (Dict.get pod n.peers)))
  ]
]

abbrev find_peer : String → List PeerInfo → Option PeerInfo
find_peer pod ps = find (λ p. same p.pod_id pod) ps

abbrev Distinct : List PeerInfo → Type 0
Distinct [] = Unit
Distinct (p ∷ ps) = (find_peer p.pod_id ps ≡ none) × Distinct ps

abbrev moved : ℕ → Option PeerInfo → Option PeerInfo → Option PeerInfo
moved now none o = o
moved now (some p) o = map_some (transition now p) o

get-reap_each :
    (now : ℕ) (ps : List PeerInfo) (n : Node) (pod : String)
    → Distinct ps
    → Dict.get pod (reap_each now ps n).peers ≡ moved now (find_peer pod ps) (Dict.get pod n.peers)
unfolding reap_each
get-reap_each now [] n pod d = refl
get-reap_each now (p ∷ ps) n pod d =
    ground (arith, get-reap_each now ps (reap_peer now p n) pod d.1, get-reap_peer now p n pod)

abbrev targets : String → PeerStore → List PeerInfo
targets self s = filter (λ p. not (same p.pod_id self)) (get_all_peers s)

find_peer-targets :
    (self pod : String) (s : PeerStore)
    → Keyed s
    → find_peer pod (targets self s) ≡ (if same pod self then none else Dict.get pod s)
unfolding Dict.get
find_peer-targets self pod [] h = ground arith
find_peer-targets self pod ((j, p) ∷ s) h = ground (arith, find_peer-targets self pod s h.1)

targets-Distinct : (self : String) (s : PeerStore) → IsMap s → Keyed s → Distinct (targets self s)
targets-Distinct self [] u h = tt
targets-Distinct self ((j, p) ∷ s) u h =
    ground (arith, targets-Distinct self s u.1 h.1, find_peer-targets self p.pod_id s h.1)

-- On a well-formed peer store, one pass of the reaper makes every other pod's peer that is healthy and
-- more than 10 s silent suspect, and one that is suspect and more than 15 s silent unavailable; any other
-- stays as it is, and the pod's own peer too.
pub get_peer-reap_peers :
    (now : ℕ) (n : Node) (pod : String)
    → IsPeers n.peers
    → get_peer pod (reap_peers now n).peers ≡ (
        if same pod n.pod_id
        then get_peer pod n.peers
        else map_some (aged now) (get_peer pod n.peers))
unfolding get_peer reap_peers heartbeat_targets
get_peer-reap_peers now n pod h = elim (Option-cases (Dict.get pod n.peers)) [
  | inl e ↦ ground (
    arith,
    get-reap_each now (targets n.pod_id n.peers) n pod d,
    find_peer-targets n.pod_id pod n.peers h.keyed,
  )
  | inr (p, e) ↦ ground (
    arith,
    get-reap_each now (targets n.pod_id n.peers) n pod d,
    find_peer-targets n.pod_id pod n.peers h.keyed,
    transition_self now p,
  )
]
  where
    d : Distinct (targets n.pod_id n.peers)
    d = targets-Distinct n.pod_id n.peers h.unique h.keyed
