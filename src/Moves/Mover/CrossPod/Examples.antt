-- ===== src/Moves/Mover/CrossPod/Examples.antt =====
-- model-mover.ts, a move to another pod: the theorems at concrete inputs.
use sardeenz.Base.Dict
use sardeenz.Models
use sardeenz.Models.Samples.{serving, both-IsManager, get-serving}
use sardeenz.Cluster.RoutingStore.{get_routing_entries}
use sardeenz.Cluster.RoutingStore.Rebuild.{served_by}
use sardeenz.Cluster.PeerStore.{get_all_peers}
use sardeenz.Models.Store.Index
use sardeenz.Models.Manager.Held.{IsManager}
use sardeenz.Models.Store.{ModelInstance}
use sardeenz.Moves.Mover.Outcome.{stored, with_routable, set_routable-IsManager}
use sardeenz.Moves.Mover.CrossPod.Outcome.{asked, execute_cross_pod_move-stored}
use sardeenz.Cluster.Samples.{peer_b}
use sardeenz.Cluster.PeerStore.{get_peer}
use sardeenz.Moves.Mover.Run.{ready, note_target}
use sardeenz.Moves.Store
use sardeenz.Stores.Connections.{get_instance_connections}
use sardeenz.Moves.Mover.Run.{note_target, set_phase, set_routable}
use sardeenz.Base.Dict.{Dict}
use sardeenz.Base.{
  if◌then◌else◌, string_discrete, same, String, ◌≡◌, refl, false, none, some, arith, string_key,
}
use sardeenz.Base.Dict
use sardeenz.Cluster.PeerStore.{get_peer}
use sardeenz.Moves.Mover.{Mover}
use sardeenz.Moves.Mover.Samples.{going, pod, world, get-going}
use sardeenz.Moves.Mover.Run.{switch, wait_for_drain}
use sardeenz.Moves.Mover.Ends.{IsFree}
use sardeenz.Moves.Mover.CrossPod.{execute_cross_pod_move, wait_for_remote_running, remote_poll}
use sardeenz.Moves.Mover.CrossPod.Ends.{execute_cross_pod_move_ends}

execute_cross_pod_move_ends_example :
    (y : Mover) × (execute_cross_pod_move world 9 (some "i1") 601 "b" "m1" pod ≡ some y)
    × IsFree "m1" y
execute_cross_pod_move_ends_example =
    execute_cross_pod_move_ends world 9 600 (some "i1") "b" going pod get-going (omega arith)
      (omega arith)

asked_ready :
    let (x', op') = asked world "i1" going pod in
    wait_for_remote_running world "b" "i1" 5 0 0 x' ≡ some (x', ready)
unfolding wait_for_remote_running remote_poll get_peer Dict.get string_discrete set_phase
    note_target Store.update Dict.set Dict.modify
asked_ready = refl

no_requests :
    let (x', op') = asked world "i1" going pod in
    wait_for_drain world op'.source_instance_id op'.drain_timeout_ms 5 0 0 (switch op' x')
    ≡ some (switch op' x')
unfolding wait_for_drain get_instance_connections Dict.get Dict.set Dict.modify string_discrete
    set_phase set_routable note_target switch Store.update
no_requests = refl

-- The source as the drain leaves it.
abbrev unroutable : ModelInstance
unroutable = with_routable false serving

abbrev in_transit : Mover
in_transit = let (x', op') = asked world "i1" going pod in switch op' x'

peer_there : get_peer "b" pod.peers ≡ some peer_b
unfolding get_peer Dict.get string_discrete
peer_there = refl

in_transit-IsManager : IsManager in_transit.manager
unfolding Dict.get Dict.set Dict.modify string_discrete set_phase note_target switch Store.update
    Store.assign set_routable
in_transit-IsManager = set_routable-IsManager "i1" false pod both-IsManager

get-unroutable : stored "i1" in_transit ≡ some unroutable
unfolding Dict.get Dict.set Dict.modify string_discrete set_phase set_routable note_target switch
    Store.update Models.Store.set_routable Models.Store.get Models.Store.set Models.Store.new
    Index.write Index.write_all
get-unroutable = refl

execute_cross_pod_move-stored_example :
    (y : Mover) × (execute_cross_pod_move world 9 (some "i1") 5 "b" "m1" pod ≡ some y)
    × (stored "i2" y ≡ (if same {K = String} "i1" "i2" then none else stored "i2" in_transit))
    × IsFree "m1" y
    × (get_routing_entries "m" y.routing
        ≡ served_by in_transit.routing.local_pod_id 9 "m" (get_all_peers in_transit.peers))
execute_cross_pod_move-stored_example =
    execute_cross_pod_move-stored world 9 5 going serving unroutable peer_b "i1" "b" "i2" "m" pod
      (asked world "i1" going pod).0 in_transit get-going get-serving peer_there asked_ready
      no_requests in_transit-IsManager get-unroutable refl refl
