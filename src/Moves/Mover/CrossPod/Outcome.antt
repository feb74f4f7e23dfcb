-- ===== src/Moves/Mover/CrossPod/Outcome.antt =====
-- model-mover.ts, a move to another pod: what it has seen before it gives up its source, and what it leaves.
use sardeenz.Cluster.RoutingStore.{get_routing_entries}
use sardeenz.Cluster.RoutingStore.Rebuild.{get_routing_entries-rebuild_from_peers, served_by}
use sardeenz.Models.Manager.Held.{IsManager}
use sardeenz.Models.Store.{ModelInstance}
use sardeenz.Moves.Mover.Ends.{IsFree, complete_move-frees}
use sardeenz.Moves.Mover.Outcome.{stored, stored-unload}
use sardeenz.Moves.Store.{MoveOperation}
use sardeenz.Base.{
  ltb, if◌then◌else◌, Bool-cases, Option-cases, same, ℕ, zero, suc, ◌+◌, String, ◌≡◌, refl, sym, ap,
  ◌∙◌, subst, ◌⊎◌, inl, inr, true, none, some, arith, string_key,
}
use sardeenz.Types.{PeerInfo, PeerModelEntry, running}
use sardeenz.Cluster.PeerStore.{get_all_peers, get_peer}
use sardeenz.Moves.Store
use sardeenz.Moves.Mover.{Mover}
use sardeenz.Moves.Mover.Run.{
  note_target, no_updates, wait_for_drain, unload, complete_move, set_phase, switch, World, ready,
}
use sardeenz.Moves.Mover.CrossPod.{
  execute_cross_pod_move, after_load, gives_up, loaded_remote, rebuild, leave_pod, left,
  cross_pod_rollback, wait_for_remote_running, remote_poll, reported,
}

-- The peer of this pod reports that the instance runs.
abbrev pub RunsOn : String → String → Mover → Type 0
RunsOn pod target x =
    (peer : PeerInfo) × (m : PeerModelEntry) × (get_peer pod x.peers ≡ some peer)
    × (reported target peer ≡ some m)
    × (m.status ≡ running)

remote_poll-ready :
    (pod target : String) (x : Mover) → remote_poll pod target x ≡ some ready → RunsOn pod target x
unfolding remote_poll
remote_poll-ready pod target x e = elim (Option-cases (get_peer pod x.peers)) [
  | inl lost ↦ absurd (ground (arith, e, lost))
  | inr (peer, found) ↦ elim (Option-cases (reported target peer)) [
    | inl silent ↦ absurd (ground (arith, e, found, silent))
    | inr (m, said) ↦ (peer, m, found, said, ground (arith, e, found, said))
  ]
]

wait_for_remote_running-ready :
    (w : World) (pod target : String) (fuel k elapsed : ℕ) (x y : Mover)
    → wait_for_remote_running w pod target fuel k elapsed x ≡ some (y, ready)
    → RunsOn pod target y
unfolding wait_for_remote_running
wait_for_remote_running-ready w pod target zero k elapsed x y e = cc
wait_for_remote_running-ready w pod target (suc fuel) k elapsed x y e =
    let later = elapsed + 3000 + w.poll_late k in
    let ih = wait_for_remote_running-ready w pod target fuel (suc k) later (w.after_poll k x) y in
    elim (Bool-cases (ltb elapsed 1_800_000)) [
      | inr late ↦ absurd (ground (arith, e, late))
      | inl early ↦ elim (Option-cases (remote_poll pod target x)) [
        | inl seen ↦ ih (ground (arith, e, early, seen))
        | inr (r, seen) ↦
            let here : x ≡ y = ground (arith, e, early, seen) in
            let now_ready : remote_poll pod target x ≡ some ready =
              ground (arith, e, early, seen) in
            subst (RunsOn pod target) here (remote_poll-ready pod target x now_ready)
      ]
    ]

-- A rollback, or the end of the drain that follows on the switch of a state in which the target runs.
abbrev pub SettlesOn : World → ℕ → ℕ → String → String → MoveOperation → Mover → Type 0
SettlesOn w now fuel pod target op y =
    ((message : String) × (z : Mover) × (y ≡ cross_pod_rollback op message z))
    ⊎ ((z z' : Mover) × RunsOn pod target z
        × (wait_for_drain w op.source_instance_id op.drain_timeout_ms fuel 0 0 (switch op z)
            ≡ some z')
        × (y ≡ leave_pod w now op z'))

-- The source of a move to another pod is unloaded only once that pod has reported the target as running and
-- the requests of the source have been drained or have had their time; otherwise the move ends with a
-- rollback.
pub loaded_remote-SettlesOn :
    (w : World) (now fuel : ℕ) (pod target : String) (op : MoveOperation) (x y : Mover)
    → loaded_remote w now fuel op (wait_for_remote_running w pod target fuel 0 0 x) ≡ some y
    → SettlesOn w now fuel pod target op y
loaded_remote-SettlesOn w now fuel pod target op x y e =
    elim (Option-cases (wait_for_remote_running w pod target fuel 0 0 x)) [
      | inl out ↦
          let clash : none ≡ some y = sym (ap (loaded_remote w now fuel op) out) ∙ e in absurd (cc)
      | inr ((z, gives_up m), seen) ↦
          let same_end : some (cross_pod_rollback op m z) ≡ some y =
            sym (ap (loaded_remote w now fuel op) seen) ∙ e in
          inl (m, z, cc)
      | inr ((z, ready), seen) ↦
          elim (Option-cases
            (wait_for_drain w op.source_instance_id op.drain_timeout_ms fuel 0 0 (switch op z))) [
              | inl out ↦
                  let clash : none ≡ some y =
                    sym (ap (left w now op) out)
                    ∙ sym (ap (loaded_remote w now fuel op) seen)
                    ∙ e in
                  absurd (cc)
              | inr (z', ends) ↦
                  let same_end : some (leave_pod w now op z') ≡ some y =
                    sym (ap (left w now op) ends)
                    ∙ sym (ap (loaded_remote w now fuel op) seen)
                    ∙ e in
                  inr
                    (z, z', wait_for_remote_running-ready w pod target fuel 0 0 x z seen, ends, cc)
            ]
    ]

leave_pod-stored :
    (w : World) (now : ℕ) (op : MoveOperation) (i : ModelInstance) (j name : String) (x : Mover)
    → IsManager x.manager
    → stored i.id x ≡ some i
    → w.killed i.id ≡ true
    → op.source_instance_id ≡ i.id
    → let y = leave_pod w now op x in
      (stored j y ≡ (if same i.id j then none else stored j x))
      × IsFree op.id y
      × (get_routing_entries name y.routing
          ≡ served_by x.routing.local_pod_id now name (get_all_peers x.peers))
unfolding leave_pod complete_move set_phase unload
leave_pod-stored w now op i j name x h e k o =
    let x' = set_phase op.id Store.completing x in
    let (ok, after) = stored-unload w i j x' h e k in
    rw (o, ok, leave_pod)
      (
        after,
        complete_move-frees op.id true none (rebuild now (unload w i.id x').0),
        get_routing_entries-rebuild_from_peers (get_all_peers x.peers) now x.routing name,
      )

-- The state in which the wait for the target begins: the other pod has answered with the id of the target.
abbrev pub asked : World → String → MoveOperation → Mover → Mover × MoveOperation
asked w target op x = note_target target op (w.during_launch (set_phase op.id Store.spawning x))

source-note_target :
    (target : String) (op : MoveOperation) (x : Mover)
    → let op' = (note_target target op x).1 in
      (op'.source_instance_id ≡ op.source_instance_id) × (op'.id ≡ op.id)
unfolding note_target
source-note_target target op x =
    elim (Bool-cases
      (Store.update op.id (record no_updates { target_instance_id = some target }) x.moves).1) [
        | inl e ↦ rw e (refl, refl)
        | inr e ↦ rw e (refl, refl)
      ]

-- A move to another pod whose peer loads the target, reports it as running, and whose source is stored and can
-- be killed when its drain is over, ends, through all its phases and whatever other tasks do in its waits, with
-- the source gone, every other instance as it was at the end of the drain, the lock free, and in the routing
-- table the running models of the peers.
pub execute_cross_pod_move-stored :
    (w : World) (now fuel : ℕ) (op : MoveOperation) (source i : ModelInstance) (peer : PeerInfo)
    (target pod j name : String) (x z z' : Mover)
    → Store.get op.id x.moves ≡ some op
    → stored op.source_instance_id x ≡ some source
    → get_peer pod x.peers ≡ some peer
    → let (x', op') = asked w target op x in
      wait_for_remote_running w pod target fuel 0 0 x' ≡ some (z, ready)
      → wait_for_drain w op'.source_instance_id op'.drain_timeout_ms fuel 0 0 (switch op' z)
        ≡ some z'
      → IsManager z'.manager
      → stored i.id z' ≡ some i
      → w.killed i.id ≡ true
      → op.source_instance_id ≡ i.id
      → (y : Mover) × (execute_cross_pod_move w now (some target) fuel pod op.id x ≡ some y)
        × (stored j y ≡ (if same i.id j then none else stored j z'))
        × IsFree op.id y
        × (get_routing_entries name y.routing
            ≡ served_by z'.routing.local_pod_id now name (get_all_peers z'.peers))
unfolding execute_cross_pod_move after_load
execute_cross_pod_move-stored w now fuel op source i peer target pod j name x z z' g here there runs
      drains h e k o =
    let op' = (asked w target op x).1 in
    let (same_source, same_id) =
      source-note_target target op (w.during_launch (set_phase op.id Store.spawning x)) in
    let (gone, free, routes) = leave_pod-stored w now op' i j name z' h e k (same_source ∙ o) in
    (
      leave_pod w now op' z',
      rw (g, here, there, execute_cross_pod_move)
          (ap (loaded_remote w now fuel op') runs ∙ ap (left w now op') drains),
      gone,
      subst (λ m. IsFree m (leave_pod w now op' z')) same_id free,
      routes,
    )
