-- ===== src/Moves/Mover/CrossPod/Ends.antt =====
-- model-mover.ts, a move to another pod: it ends, and what it has seen and leaves.
use sardeenz.Base.Dict.{Dict}
use sardeenz.Base.{
  ltb, Bool-cases, Option-cases, ℕ, zero, suc, ◌+◌, ◌*◌, ◌≤◌, String, ◌≡◌, refl, ap, ◌∙◌, inl, inr,
  true, false, Option, none, some, arith, string_key,
}
use sardeenz.Base.Dict
use sardeenz.Models
use sardeenz.Cluster.PeerStore.{get_peer}
use sardeenz.Moves.Store
use sardeenz.Moves.Store.{MoveOperation}
use sardeenz.Moves.Mover.{Mover}
use sardeenz.Moves.Mover.Ends.{IsFree, complete_move-frees, wait_for_drain-ends}
use sardeenz.Moves.Mover.Run.{
  World, Waited, ready, gives_up, complete_move, set_routable, set_phase, unload, note_target,
  switch,
}
use sardeenz.Moves.Mover.CrossPod.{
  execute_cross_pod_move, after_load, loaded_remote, left, leave_pod, cross_pod_rollback,
  wait_for_remote_running, remote_poll,
}

wait_for_remote_running-ends :
    (w : World) (pod target : String) (f k elapsed : ℕ) (x : Mover)
    → 1_800_000 ≤ elapsed + 3000 * f
    → (r : Mover × Waited) × (wait_for_remote_running w pod target (suc f) k elapsed x ≡ some r)
unfolding wait_for_remote_running
wait_for_remote_running-ends w pod target zero k elapsed x h =
    let late : ltb elapsed 1_800_000 ≡ false = ground (arith, h) in
    ((x, gives_up "Timeout waiting for target model to become ready on remote pod"), rw late refl)
wait_for_remote_running-ends w pod target (suc f) k elapsed x h =
    elim (Bool-cases (ltb elapsed 1_800_000)) [
      | inr late ↦ (
        (x, gives_up "Timeout waiting for target model to become ready on remote pod"),
        rw late refl,
      )
      | inl e ↦ elim (Option-cases (remote_poll pod target x)) [
        | inr (r, seen) ↦ ((x, r), rw (e, seen) refl)
        | inl seen ↦
            let (r, ends) =
              wait_for_remote_running-ends w pod target f (suc k) (elapsed + 3000 + w.poll_late k)
                (w.after_poll k x) (ground (arith, h)) in
            (r, rw (e, seen) ends)
      ]
    ]

leave_pod-frees :
    (w : World) (now : ℕ) (op : MoveOperation) (x : Mover) → IsFree op.id (leave_pod w now op x)
unfolding leave_pod cross_pod_rollback
leave_pod-frees w now op x =
    let (x', ok) = unload w op.source_instance_id (set_phase op.id Store.completing x) in
    elim (Bool-cases ok) [
      | inl e ↦ rw e (complete_move-frees op.id true none _)
      | inr e ↦ rw e (complete_move-frees op.id false (some "Failed to unload model") _)
    ]

loaded_remote-ends :
    (w : World) (now f : ℕ) (op : MoveOperation) (r : Mover × Waited)
    → op.drain_timeout_ms ≤ 500 * f
    → (y : Mover) × (loaded_remote w now (suc f) op (some r) ≡ some y) × IsFree op.id y
unfolding cross_pod_rollback
loaded_remote-ends w now f op (x, gives_up e) h = (
  cross_pod_rollback op e x,
  refl,
  complete_move-frees op.id false (some e) (set_routable op.source_instance_id true x),
)
loaded_remote-ends w now f op (x, ready) h =
    let (y, ends) =
      wait_for_drain-ends w op.source_instance_id op.drain_timeout_ms f 0 0 (switch op x)
        (ground (arith, h)) in
    (leave_pod w now op y, ap (left w now op) ends, leave_pod-frees w now op y)

after_load-ends :
    (w : World) (now f : ℕ) (op : MoveOperation) (pod : String) (remote : Option String) (x : Mover)
    → 600 ≤ f
    → op.drain_timeout_ms ≤ 500 * f
    → (y : Mover) × (after_load w now (suc f) op pod remote x ≡ some y) × IsFree op.id y
unfolding after_load cross_pod_rollback note_target Store.update
after_load-ends w now f op pod none x long drains = (
  cross_pod_rollback op "Remote load failed" x,
  refl,
  complete_move-frees op.id false (some "Remote load failed")
      (set_routable op.source_instance_id true x),
)
after_load-ends w now f op pod (some target) x long drains =
    let noted = note_target target op x in
    let (r, waits) =
      wait_for_remote_running-ends w pod target f 0 0 noted.0 (ground (arith, long)) in
    elim (Bool-cases (Dict.has op.id x.moves.operations)) [
      | inl e ↦
          let op' = record op { target_instance_id = target } in
          let (y, ends, free) = loaded_remote-ends w now f op' r drains in
          (y, rw (e, after_load) (ap (loaded_remote w now (suc f) op') waits ∙ ends), free)
      | inr e ↦
          let (y, ends, free) = loaded_remote-ends w now f op r drains in
          (y, rw (e, after_load) (ap (loaded_remote w now (suc f) op) waits ∙ ends), free)
    ]

-- A move to another pod ends, whatever other tasks do while it awaits and whatever the peer reports, and frees
-- the lock: fuel for 601 polls of the peer, and for one poll of the drain more than its timeout has half
-- seconds, is enough.
pub execute_cross_pod_move_ends :
    (w : World) (now f : ℕ) (remote : Option String) (pod : String) (op : MoveOperation) (x : Mover)
    → Store.get op.id x.moves ≡ some op
    → 600 ≤ f
    → op.drain_timeout_ms ≤ 500 * f
    → (y : Mover) × (execute_cross_pod_move w now remote (suc f) pod op.id x ≡ some y)
      × IsFree op.id y
unfolding execute_cross_pod_move
execute_cross_pod_move_ends w now f remote pod op x e long drains =
    elim (Option-cases (Models.Store.get op.source_instance_id x.manager.store)) [
      | inl gone ↦ (
        complete_move op.id false (some "Source model not found") x,
        rw (e, gone, execute_cross_pod_move) refl,
        complete_move-frees op.id false (some "Source model not found") x,
      )
      | inr (source, here) ↦ elim (Option-cases (get_peer pod x.peers)) [
        | inl lost ↦ (
          complete_move op.id false (some "Target pod not found") x,
          rw (e, here, lost, execute_cross_pod_move) refl,
          complete_move-frees op.id false (some "Target pod not found") x,
        )
        | inr (peer, found) ↦
            let x' = w.during_launch (set_phase op.id Store.spawning x) in
            let (y, ends, free) = after_load-ends w now f op pod remote x' long drains in
            (y, rw (e, here, found, execute_cross_pod_move) ends, free)
      ]
    ]
