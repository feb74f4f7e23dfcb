-- ===== src/Cluster/PeerStore/Laws.antt =====
-- peer-store.ts: the shape of the store, and what its lookups find after each write.
use mathlib.Core.Path.{fun_ext}
use sardeenz.Base.{
  if◌then◌else◌, same, All, ℕ, String, ◌≡◌, refl, Option, none, some, List, [], ◌∷◌, arith,
  string_key,
}
use sardeenz.Base.Dict
use sardeenz.Base.Dict.{
  map_some, get-set, get-delete, get-modify, IsMap, set-IsMap, delete-IsMap, modify-IsMap,
}
use sardeenz.Types.{PeerInfo, PeerStatus, is_healthy}
use sardeenz.Cluster.PeerStore.{
  PeerStore, PeerUpdates, assign, add_peer, remove_peer, update_peer, get_peer,
  update_last_heartbeat, mark_suspect, mark_unavailable, to_suspect, to_unavailable, clear,
}

-- Each peer stands under its own pod id.
abbrev pub Keyed : PeerStore → Type 0
Keyed s = All (λ e. e.1.pod_id ≡ e.0) s

pub record IsPeers (s : PeerStore) : Type 0 where
  pub keyed : Keyed s
  pub unique : IsMap s

-- The methods that write.
pub data Write : Type 0 where
  adds : PeerInfo → Write
  removes : String → Write
  updates : String → PeerUpdates → Write
  beats : String → ℕ → Write
  suspects : String → Write
  gives_up : String → Write
  clears : Write

unfoldable pub write : Write → PeerStore → PeerStore
write (adds p) s = add_peer p s
write (removes pod) s = (remove_peer pod s).0
write (updates pod u) s = (update_peer pod u s).0
write (beats pod t) s = (update_last_heartbeat pod t s).0
write (suspects pod) s = (mark_suspect pod s).0
write (gives_up pod) s = (mark_unavailable pod s).0
write clears s = clear s

unfoldable pub write_all : List Write → PeerStore → PeerStore
write_all [] s = s
write_all (w ∷ ws) s = write_all ws (write w s)

set-Keyed : (p : PeerInfo) (s : PeerStore) → Keyed s → Keyed (Dict.set p.pod_id p s)
unfolding Dict.set
set-Keyed p [] h = (refl, tt)
set-Keyed p ((j, q) ∷ s) h = ground (arith, set-Keyed p s h.1)

delete-Keyed : (pod : String) (s : PeerStore) → Keyed s → Keyed (Dict.delete pod s)
unfolding Dict.delete
delete-Keyed pod [] h = tt
delete-Keyed pod ((j, q) ∷ s) h = ground (arith, delete-Keyed pod s h.1)

modify-Keyed :
    (pod : String) (f : PeerInfo → PeerInfo) (s : PeerStore)
    → ((p : PeerInfo) → (f p).pod_id ≡ p.pod_id)
    → Keyed s
    → Keyed (Dict.modify pod f s)
unfolding Dict.modify
modify-Keyed pod f [] e h = tt
modify-Keyed pod f ((j, q) ∷ s) e h = ground (arith, e q, modify-Keyed pod f s e h.1)

modify-IsPeers :
    (pod : String) (f : PeerInfo → PeerInfo) (s : PeerStore)
    → ((p : PeerInfo) → (f p).pod_id ≡ p.pod_id)
    → IsPeers s
    → IsPeers (Dict.modify pod f s)
modify-IsPeers pod f s e h = record {
  keyed = modify-Keyed pod f s e h.keyed;
  unique = modify-IsMap pod f s h.unique;
}

pub write-IsPeers : (w : Write) (s : PeerStore) → IsPeers s → IsPeers (write w s)
unfolding write add_peer remove_peer update_peer update_last_heartbeat mark_suspect mark_unavailable
    clear assign
write-IsPeers (adds p) s h = record {
  keyed = set-Keyed p s h.keyed;
  unique = set-IsMap p.pod_id p s h.unique;
}
write-IsPeers (removes pod) s h = record {
  keyed = delete-Keyed pod s h.keyed;
  unique = delete-IsMap pod s h.unique;
}
write-IsPeers (updates pod u) s h = modify-IsPeers pod (assign u) s (λ p. refl) h
write-IsPeers (beats pod t) s h = modify-IsPeers pod _ s (λ p. refl) h
write-IsPeers (suspects pod) s h = modify-IsPeers pod to_suspect s (λ p. ground arith) h
write-IsPeers (gives_up pod) s h = modify-IsPeers pod to_unavailable s (λ p. ground arith) h
write-IsPeers clears s h = record { keyed = tt; unique = tt }

write_all-IsPeers : (ws : List Write) (s : PeerStore) → IsPeers s → IsPeers (write_all ws s)
unfolding write_all
write_all-IsPeers [] s h = h
write_all-IsPeers (w ∷ ws) s h = write_all-IsPeers ws (write w s) (write-IsPeers w s h)

-- After any sequence of writes to an empty store each peer stands under its own pod id, and no pod
-- id stands twice.
pub write_all_empty-IsPeers : (ws : List Write) → IsPeers (write_all ws [])
write_all_empty-IsPeers ws = write_all-IsPeers ws [] (record { keyed = tt; unique = tt })

abbrev pub alive_at : ℕ → PeerInfo → PeerInfo
alive_at t p = record p { last_heartbeat = t; status = PeerStatus.healthy }

-- Only a healthy peer becomes suspect; any peer becomes unavailable.
abbrev pub doubted : PeerInfo → PeerInfo
doubted p = if is_healthy p.status then record p { status = PeerStatus.suspect } else p

abbrev pub given_up : PeerInfo → PeerInfo
given_up p = record p { status = PeerStatus.unavailable }

-- What a write does to the peer of a pod: nothing, unless it names that pod.
abbrev pub after : Write → String → Option PeerInfo → Option PeerInfo
after (adds p) pod o = if same p.pod_id pod then some p else o
after (removes q) pod o = if same q pod then none else o
after (updates q u) pod o = if same q pod then map_some (assign u) o else o
after (beats q t) pod o = if same q pod then map_some (alive_at t) o else o
after (suspects q) pod o = if same q pod then map_some doubted o else o
after (gives_up q) pod o = if same q pod then map_some given_up o else o
after clears pod o = none

pub to_unavailable-eq-given_up : (p : PeerInfo) → to_unavailable p ≡ given_up p
to_unavailable-eq-given_up p = ground arith

-- The store refines a function from pod ids to peers: each write changes the peer of the pod that it
-- names, as `after` says, and no other.
pub get_peer-write :
    (w : Write) (pod : String) (s : PeerStore)
    → get_peer pod (write w s) ≡ after w pod (get_peer pod s)
unfolding get_peer write add_peer remove_peer update_peer update_last_heartbeat mark_suspect
    mark_unavailable clear Dict.get
get_peer-write (adds p) pod s = get-set p.pod_id pod p s
get_peer-write (removes q) pod s = get-delete q pod s
get_peer-write (updates q u) pod s = get-modify q pod (assign u) s
get_peer-write (beats q t) pod s = get-modify q pod _ s
get_peer-write (suspects q) pod s = get-modify q pod to_suspect s
get_peer-write (gives_up q) pod s =
    rw (← fun_ext to_unavailable-eq-given_up) (get-modify q pod to_unavailable s)
get_peer-write clears pod s = refl
