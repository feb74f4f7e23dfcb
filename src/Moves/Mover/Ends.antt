-- ===== src/Moves/Mover/Ends.antt =====
-- model-mover.ts: the waits end, and with them the move.
use sardeenz.Gpus.Selector.{free}
use sardeenz.Stores.Connections.{get_instance_connections}
use sardeenz.Models.Manager.{launch_model}
use sardeenz.Models.Store.{ModelInstance}
use sardeenz.Base.Dict
use sardeenz.Moves.Mover.Run.{
  after_launch, target_of, note_target, drained, loaded, switch, unload_target, set_routable,
  unload, set_phase,
}
use sardeenz.Base.Dict.{Dict}
use sardeenz.Moves.Store.{MoveOperation}
use sardeenz.Moves.Store.Lock.{active-prune_completed_operations}
use sardeenz.Base.{
  ltb, ◌==◌, Bool-cases, Option-cases, same_refl, ℕ, zero, suc, ◌+◌, ◌*◌, ◌≤◌, String, ◌≡◌, refl,
  ap, ◌∙◌, inl, inr, Bool, true, false, Option, none, some, arith, string_key,
}
use sardeenz.Models
use sardeenz.Moves.Store
use sardeenz.Moves.Mover.{Mover}
use sardeenz.Moves.Mover.Run.{
  gives_up, with_target, ready, rollback, execute_move, poll, unload_source, World, Waited,
  wait_for_running, wait_for_drain, complete_move,
}

wait_for_running-ends :
    (w : World) (target : String) (f k elapsed : ℕ) (x : Mover)
    → 1_800_000 ≤ elapsed + 2000 * f
    → (r : Mover × Waited) × (wait_for_running w target (suc f) k elapsed x ≡ some r)
unfolding wait_for_running
wait_for_running-ends w target zero k elapsed x h =
    let late : ltb elapsed 1_800_000 ≡ false = ground (arith, h) in
    ((x, gives_up "Timeout waiting for target model to become ready"), rw late refl)
wait_for_running-ends w target (suc f) k elapsed x h = elim (Bool-cases (ltb elapsed 1_800_000)) [
  | inr late ↦ ((x, gives_up "Timeout waiting for target model to become ready"), rw late refl)
  | inl e ↦ elim (Option-cases (poll target x)) [
    | inr (r, seen) ↦ ((x, r), rw (e, seen) refl)
    | inl seen ↦
        let (r, ends) =
          wait_for_running-ends w target f (suc k) (elapsed + 2000 + w.poll_late k)
            (w.after_poll k x) (ground (arith, h)) in
        (r, rw (e, seen) ends)
  ]
]

pub wait_for_drain-ends :
    (w : World) (source : String) (timeout f k elapsed : ℕ) (x : Mover)
    → timeout ≤ elapsed + 500 * f
    → (y : Mover) × (wait_for_drain w source timeout (suc f) k elapsed x ≡ some y)
unfolding wait_for_drain
wait_for_drain-ends w source timeout zero k elapsed x h =
    let late : ltb elapsed timeout ≡ false = ground (arith, h) in (x, rw late refl)
wait_for_drain-ends w source timeout (suc f) k elapsed x h =
    elim (Bool-cases (ltb elapsed timeout)) [
      | inr late ↦ (x, rw late refl)
      | inl e ↦ elim (Bool-cases (get_instance_connections source x.connections == 0)) [
        | inl none_left ↦ (x, rw (e, none_left) refl)
        | inr some_left ↦
            let (y, ends) =
              wait_for_drain-ends w source timeout f (suc k) (elapsed + 500 + w.count_late k)
                (w.after_count k x) (ground (arith, h)) in
            (y, rw (e, some_left) ends)
      ]
    ]

-- The move does not hold the lock.
abbrev pub IsFree : String → Mover → Type 0
IsFree move x = Store.is_active move x.moves.active_move ≡ false

pub complete_move-frees :
    (move : String) (ok : Bool) (err : Option String) (x : Mover)
    → IsFree move (complete_move move ok err x)
unfolding complete_move Store.complete Store.release_lock
complete_move-frees move ok err x =
    let marked = record x.moves {
      operations = Dict.modify move (Store.finish ok err) x.moves.operations;
    } in
    ap (Store.is_active move) (active-prune_completed_operations (Store.release_lock move marked))
    ∙ ground (arith, same_refl move)

unload_source-frees :
    (w : World) (op : MoveOperation) (x : Mover) → IsFree op.id (unload_source w op x)
unfolding unload_source rollback
unload_source-frees w op x =
    let (x', ok) = unload w op.source_instance_id (set_phase op.id Store.completing x) in
    elim (Bool-cases ok) [
      | inl e ↦ rw e (complete_move-frees op.id true none x')
      | inr e ↦ rw e (
          complete_move-frees op.id false (some "Failed to unload model")
            (unload_target w op.target_instance_id (set_routable op.source_instance_id true x')))
    ]

loaded-ends :
    (w : World) (f : ℕ) (op : MoveOperation) (r : Mover × Waited)
    → op.drain_timeout_ms ≤ 500 * f
    → (y : Mover) × (loaded w (suc f) op (some r) ≡ some y) × IsFree op.id y
unfolding rollback
loaded-ends w f op (x, gives_up e) h = (
  rollback w op e x,
  refl,
  complete_move-frees op.id false (some e)
      (unload_target w op.target_instance_id (set_routable op.source_instance_id true x)),
)
loaded-ends w f op (x, ready) h =
    let (y, ends) =
      wait_for_drain-ends w op.source_instance_id op.drain_timeout_ms f 0 0 (switch op x)
        (ground (arith, h)) in
    (unload_source w op y, ap (drained w op) ends, unload_source-frees w op y)

with_target-ends :
    (w : World) (f : ℕ) (op : MoveOperation) (i : ModelInstance) (spawned : Bool) (x : Mover)
    → 900 ≤ f
    → op.drain_timeout_ms ≤ 500 * f
    → (y : Mover) × (with_target w (suc f) op i spawned x ≡ some y) × IsFree op.id y
unfolding with_target launch_model rollback note_target Store.update
with_target-ends w f op i false x long drains =
    let y =
      rollback w op "Failed to spawn vLLM process"
        (record x { manager = (launch_model i false x.manager).0 }) in
    (y, refl, complete_move-frees op.id false _ _)
with_target-ends w f op i true x long drains =
    let launched' = record x { manager = (launch_model i true x.manager).0 } in
    let noted = note_target i.id op launched' in
    let (r, waits) = wait_for_running-ends w i.id f 0 0 noted.0 (ground (arith, long)) in
    elim (Bool-cases (Dict.has op.id x.moves.operations)) [
      | inl e ↦
          let op' = record op { target_instance_id = i.id } in
          let (y, ends, free) = loaded-ends w f op' r drains in
          (y, rw (e, with_target) (ap (loaded w (suc f) op') waits ∙ ends), free)
      | inr e ↦
          let (y, ends, free) = loaded-ends w f op r drains in
          (y, rw (e, with_target) (ap (loaded w (suc f) op) waits ∙ ends), free)
    ]

after_launch-ends :
    (w : World) (f : ℕ) (op : MoveOperation) (source : ModelInstance)
    (o : Option (ModelInstance × Bool)) (x : Mover)
    → 900 ≤ f
    → op.drain_timeout_ms ≤ 500 * f
    → (y : Mover) × (after_launch w (suc f) op source o x ≡ some y) × IsFree op.id y
unfolding after_launch rollback
after_launch-ends w f op source none x long drains = (
  rollback w op "The launch failed" x,
  refl,
  complete_move-frees op.id false (some "The launch failed")
      (unload_target w op.target_instance_id (set_routable op.source_instance_id true x)),
)
after_launch-ends w f op source (some (i, spawned)) x long drains =
    with_target-ends w f op (target_of source op i) spawned x long drains

-- A move ends, whatever other tasks do while it awaits, and frees the lock: fuel for 901 polls of the load,
-- and for one poll of the drain more than its timeout has half seconds, is enough.
pub execute_move_ends :
    (w : World) (f : ℕ) (op : MoveOperation) (x : Mover)
    → Store.get op.id x.moves ≡ some op
    → 900 ≤ f
    → op.drain_timeout_ms ≤ 500 * f
    → (y : Mover) × (execute_move w (suc f) op.id x ≡ some y) × IsFree op.id y
unfolding execute_move
execute_move_ends w f op x e long drains =
    elim (Option-cases (Models.Store.get op.source_instance_id x.manager.store)) [
      | inl gone ↦ (
        complete_move op.id false (some "Source model not found") x,
        rw (e, gone, execute_move) refl,
        complete_move-frees op.id false (some "Source model not found") x,
      )
      | inr (source, here) ↦
          let x' = w.during_launch (set_phase op.id Store.spawning x) in
          let (y, ends, free) = after_launch-ends w f op source w.launched x' long drains in
          (y, rw (e, here, execute_move) ends, free)
    ]
