-- ===== src/Http/ClusterModels.antt =====
-- apps/backend/src/routes/cluster/models.ts, with the handlers of apps/backend/src/routes/internal.ts that it
-- calls on another pod: a pod loads, unloads, puts to sleep, wakes or moves an instance of any pod. `Pods` are
-- the model managers of the cluster; whether a pod answers, and whether a process or vLLM does what it is
-- told, are the environment's. A signed request is taken to pass the check of its signature.
pub mod Owners
pub mod Reach
use sardeenz.Base.{
  if◌then◌else◌, same, any, ℕ, String, Bool, not, ◌&&◌, Option, none, some, List, [], ◌∷◌,
  string_key,
}
use sardeenz.Base.Dict
use sardeenz.Base.Dict.{Dict}
use sardeenz.Base.Text.{is_blank, host_port}
use sardeenz.Types.{PeerInfo, is_healthy}
use sardeenz.Cluster.PeerStore.{PeerStore, get_peer, get_all_peers}
use sardeenz.Models.Manager.{
  Manager, Reply, done, awaits, not_found, internal_error, unload_model, sleep_model, wake_model,
}
use sardeenz.Models.Store

-- The loops of `findPodForInstance`.
unfoldable pub serves_instance : String → PeerInfo → Bool
serves_instance id p = any (λ m. same m.instance_id id) p.models

unfoldable pub find_in_peers : String → List PeerInfo → Option PeerInfo
find_in_peers id [] = none
find_in_peers id (p ∷ ps) =
    let rest = find_in_peers id ps in if serves_instance id p then some p else rest

unfoldable pub find_pod_for_instance : String → PeerStore → Option PeerInfo
find_pod_for_instance id peers = find_in_peers id (get_all_peers peers)

pub data Operation : Type 0 where
  unloads : Operation
  sleeps : ℕ → Operation
  wakes : Operation

unfoldable pub perform : Operation → String → Bool → Manager → Manager × Reply
perform unloads id ok m = unload_model id ok m
perform (sleeps level) id ok m = sleep_model id level ok m
perform wakes id ok m = wake_model id ok m

abbrev pub Pods : Type 0
Pods = Dict String Manager

-- The code of a handler of routes/cluster/models.ts for an instance of the pod's own.
unfoldable pub own_code : Reply → ℕ
own_code done = 200
own_code (awaits id) = 500
own_code not_found = 500
own_code internal_error = 500

-- The code of a handler of routes/internal.ts.
unfoldable pub internal_code : Reply → ℕ
internal_code done = 200
internal_code (awaits id) = 500
internal_code not_found = 404
internal_code internal_error = 500

unfoldable pub perform_at :
    Operation → String → Bool → (Reply → ℕ) → String → Manager → Pods → Pods × ℕ
perform_at op id ok code pod m pods =
    let (m', r) = perform op id ok m in (Dict.set pod m' pods, code r)

-- A signed request to another pod: 502 where it does not answer.
unfoldable pub forward_operation : Operation → String → Bool → Bool → String → Pods → Pods × ℕ
forward_operation op id ok answers pod pods = elim (Dict.get pod pods) [
  | none ↦ (pods, 502)
  | some m ↦
      let sent = perform_at op id ok internal_code pod m pods in
      if answers then sent else (pods, 502)
]

unfoldable pub operate_remote : Operation → String → Bool → Bool → Option PeerInfo → Pods → Pods × ℕ
operate_remote op id ok answers none pods = (pods, 404)
operate_remote op id ok answers (some p) pods = forward_operation op id ok answers p.pod_id pods

-- The handlers for `unload`, `sleep` and `wake` on the pod `self`, whose manager is `m`.
unfoldable pub operate :
    Operation → String → Bool → Bool → String → Manager → PeerStore → Pods → Pods × ℕ
operate op id ok answers self m peers pods = elim (Store.get id m.store) [
  | some i ↦ perform_at op id ok own_code self m pods
  | none ↦ operate_remote op id ok answers (find_pod_for_instance id peers) pods
]

-- What the handler of `load` does.
pub data Load : Type 0 where
  load_refused : ℕ → Load
  load_here : Load
  load_at : String → Load

abbrev or_self : Option String → String → String
or_self none self = self
or_self (some t) self = t

unfoldable pub load : Option String → String → PeerStore → Load
unfolding or_self
load target self peers =
    let pod = or_self target self in
    elim (get_peer pod peers) [
      | none ↦ load_refused 404
      | some p ↦
          if not (is_healthy p.status)
          then load_refused 400
          else if same pod self
          then load_here
          else load_at (host_port p.address p.port)
    ]

-- What the handler of `move` does.
pub data Move : Type 0 where
  move_unknown : Move
  move_by : String → Move
  move_here : Move
  move_to : String → Move

abbrev own_move : Option String → String → Move
own_move none self = move_here
own_move (some t) self = if not (is_blank t) && not (same t self) then move_to t else move_here

unfoldable pub move_remote : Option PeerInfo → Move
move_remote none = move_unknown
move_remote (some p) = move_by (host_port p.address p.port)

unfoldable pub move : String → Option String → String → Manager → PeerStore → Move
unfolding own_move
move id target self m peers = elim (Store.get id m.store) [
  | some i ↦ own_move target self
  | none ↦ move_remote (find_pod_for_instance id peers)
]
