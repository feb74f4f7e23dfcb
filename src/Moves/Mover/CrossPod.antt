-- ===== src/Moves/Mover/CrossPod.antt =====
-- model-mover.ts: a move to another pod. What the peers report of the target is the environment's, as is the
-- answer to the request that loads it: its instance id, or an error. The request that unloads it in a rollback
-- changes nothing here. The fields of `World` on the local launch are not used.
pub mod Ends
pub mod Outcome
mod Examples
use sardeenz.Base.{
  ltb, if◌then◌else◌, same, find, ℕ, zero, suc, ◌+◌, String, true, false, Option, none, some,
  string_key,
}
use sardeenz.Types.{
  PeerInfo, PeerModelEntry, is_healthy, starting, running, sleeping, stopping, failed,
}
use sardeenz.Models
use sardeenz.Cluster.PeerStore.{get_peer, get_all_peers}
use sardeenz.Cluster.RoutingStore.{rebuild_from_peers}
use sardeenz.Moves.Store
use sardeenz.Moves.Store.{MoveOperation}
use sardeenz.Moves.Mover.{Mover, MoveRequest, operation, is_movable}
use sardeenz.Moves.Mover.Run.{
  World, Waited, ready, gives_up, complete_move, set_phase, set_routable, unload, note_target,
  switch, wait_for_drain,
}

pub data CrossPodReply : Type 0 where
  accepted : String → CrossPodReply
  model_not_found not_movable already_moving pod_not_found pod_not_healthy locked : CrossPodReply

unfoldable create_cross_pod_move : MoveOperation → Mover → Mover × CrossPodReply
create_cross_pod_move op x =
    let (moves', created) = Store.create op x.moves in
    if created then (record x { moves = moves' }, accepted op.id) else (x, locked)

-- `crossPodMoveModel` up to the start of the move.
unfoldable pub cross_pod_move_model :
    MoveRequest → String → String → ℕ → Mover → Mover × CrossPodReply
unfolding create_cross_pod_move
cross_pod_move_model r pod move now x = elim (Models.Store.get r.instance_id x.manager.store) [
  | none ↦ (x, model_not_found)
  | some source ↦
      if is_movable source.status
      then elim (Store.get_by_source_instance r.instance_id x.moves) [
        | some _ ↦ (x, already_moving)
        | none ↦ elim (get_peer pod x.peers) [
          | none ↦ (x, pod_not_found)
          | some peer ↦
              if is_healthy peer.status
              then create_cross_pod_move (operation r move now) x
              else (x, pod_not_healthy)
        ]
      ]
      else (x, not_movable)
]

-- The entry that a peer reports for an instance.
abbrev pub reported : String → PeerInfo → Option PeerModelEntry
reported target peer = find (λ m. same m.instance_id target) peer.models

-- One poll of `waitForRemoteRunning`: `none` to wait on.
unfoldable pub remote_poll : String → String → Mover → Option Waited
remote_poll pod target x = elim (get_peer pod x.peers) [
  | none ↦ some (gives_up "Target pod disappeared during loading")
  | some peer ↦ elim (reported target peer) [
    | none ↦ none
    | some m ↦ elim m.status [
      | running ↦ some ready
      | failed ↦ some (gives_up "Target model failed to load on remote pod")
      | starting ↦ none
      | sleeping ↦ none
      | stopping ↦ none
    ]
  ]
]

unfoldable pub wait_for_remote_running :
    World → String → String → ℕ → ℕ → ℕ → Mover → Option (Mover × Waited)
wait_for_remote_running w pod target zero k elapsed x = none
wait_for_remote_running w pod target (suc fuel) k elapsed x =
    let rest =
      wait_for_remote_running w pod target fuel (suc k) (elapsed + 3000 + w.poll_late k)
        (w.after_poll k x) in
    if ltb elapsed 1_800_000
    then elim (remote_poll pod target x) [ some r ↦ some (x, r) | none ↦ rest ]
    else some (x, gives_up "Timeout waiting for target model to become ready on remote pod")

unfoldable pub cross_pod_rollback : MoveOperation → String → Mover → Mover
cross_pod_rollback op message x =
    complete_move op.id false (some message) (set_routable op.source_instance_id true x)

abbrev pub rebuild : ℕ → Mover → Mover
rebuild now x = record x { routing = rebuild_from_peers (get_all_peers x.peers) now x.routing }

-- From the phase `completing` on.
unfoldable pub leave_pod : World → ℕ → MoveOperation → Mover → Mover
leave_pod w now op x =
    let (x', ok) = unload w op.source_instance_id (set_phase op.id Store.completing x) in
    if ok
    then complete_move op.id true none (rebuild now x')
    else cross_pod_rollback op "Failed to unload model" x'

abbrev pub left : World → ℕ → MoveOperation → Option Mover → Option Mover
left w now op none = none
left w now op (some x) = some (leave_pod w now op x)

abbrev pub loaded_remote : World → ℕ → ℕ → MoveOperation → Option (Mover × Waited) → Option Mover
loaded_remote w now fuel op none = none
loaded_remote w now fuel op (some (x, gives_up e)) = some (cross_pod_rollback op e x)
loaded_remote w now fuel op (some (x, ready)) =
    left w now op
      (wait_for_drain w op.source_instance_id op.drain_timeout_ms fuel 0 0 (switch op x))

-- `remote` is the id that the answer to the load request has.
unfoldable pub after_load :
    World → ℕ → ℕ → MoveOperation → String → Option String → Mover → Option Mover
after_load w now fuel op pod none x = some (cross_pod_rollback op "Remote load failed" x)
after_load w now fuel op pod (some target) x =
    let (x', op') = note_target target op x in
    loaded_remote w now fuel op' (wait_for_remote_running w pod target fuel 0 0 x')

unfoldable pub execute_cross_pod_move :
    World → ℕ → Option String → ℕ → String → String → Mover → Option Mover
execute_cross_pod_move w now remote fuel pod move x = elim (Store.get move x.moves) [
  | none ↦ some x
  | some op ↦ elim (Models.Store.get op.source_instance_id x.manager.store) [
    | none ↦ some (complete_move move false (some "Source model not found") x)
    | some source ↦ elim (get_peer pod x.peers) [
      | none ↦ some (complete_move move false (some "Target pod not found") x)
      | some peer ↦
          after_load w now fuel op pod remote (w.during_launch (set_phase move Store.spawning x))
    ]
  ]
]
