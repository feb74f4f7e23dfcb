-- ===== src/Moves/Mover/Run.antt =====
-- model-mover.ts: `executeMoveAsync` with its two waits, the rollback, and `cancelMove`.
use sardeenz.Stores.Connections.{get_instance_connections}
use sardeenz.Base.{
  ltb, ◌==◌, if◌then◌else◌, ℕ, zero, suc, ◌+◌, String, Bool, true, false, Option, none, some,
  string_key,
}
use sardeenz.Base.Text.{is_blank}
use sardeenz.Types.{starting, running, sleeping, stopping, failed}
use sardeenz.Models
use sardeenz.Models.Store.{ModelInstance}
use sardeenz.Models.Manager.{unload_model, launch_model, done}
use sardeenz.Moves.Store
use sardeenz.Moves.Store.{MoveOperation, MoveUpdates, MovePhase}
use sardeenz.Moves.Mover.{Mover}

-- What a move meets: the instance that the launch makes, and whether it was spawned (`none` where the launch
-- throws before); the changes other tasks make during the launch and after each poll; how much longer than its interval each
-- sleep takes; which kills succeed.
pub record World : Type 0 where
  pub launched : Option (ModelInstance × Bool)
  pub during_launch : Mover → Mover
  pub after_poll : ℕ → Mover → Mover
  pub poll_late : ℕ → ℕ
  pub after_count : ℕ → Mover → Mover
  pub count_late : ℕ → ℕ
  pub killed : String → Bool

abbrev pub no_updates : MoveUpdates
no_updates = record {
  id = none;
  source_instance_id = none;
  target_instance_id = none;
  target_gpu_ids = none;
  drain_timeout_ms = none;
  phase = none;
  started_at = none;
  error = none;
}

-- `modelStore.setRoutable`.
unfoldable pub set_routable : String → Bool → Mover → Mover
set_routable id b x = record x {
  manager = record x.manager { store = (Models.Store.set_routable id b x.manager.store).0 };
}

unfoldable pub set_phase : String → MovePhase → Mover → Mover
set_phase move p x = record x {
  moves = (Store.update move (record no_updates { phase = some p }) x.moves).0;
}

-- `modelManager.unloadModel`, and whether it returns.
unfoldable pub unload : World → String → Mover → Mover × Bool
unload w id x =
    let (m, r) = unload_model id (w.killed id) x.manager in
    (record x { manager = m }, elim r [ done ↦ true | _ ↦ false ])

unfoldable pub complete_move : String → Bool → Option String → Mover → Mover
complete_move move ok err x = record x { moves = Store.complete move ok err x.moves }

unfoldable pub unload_target : World → String → Mover → Mover
unload_target w target x = if is_blank target then x else (unload w target x).0

unfoldable pub rollback : World → MoveOperation → String → Mover → Mover
rollback w op message x =
    complete_move op.id false (some message)
      (unload_target w op.target_instance_id (set_routable op.source_instance_id true x))

pub data Waited : Type 0 where
  ready : Waited
  gives_up : String → Waited

abbrev message_of : Option String → String
message_of none = "Target model failed to load"
message_of (some e) = if is_blank e then "Target model failed to load" else e

-- One poll of `waitForRunning`: `none` to wait on.
unfoldable pub poll : String → Mover → Option Waited
poll target x = elim (Models.Store.get target x.manager.store) [
  | none ↦ some (gives_up "Target instance disappeared during loading")
  | some i ↦ elim i.status [
    | running ↦ some ready
    | failed ↦ some (gives_up (message_of i.error_message))
    | starting ↦ none
    | sleeping ↦ none
    | stopping ↦ none
  ]
]

-- On fuel: `none` where it runs out. `k` counts the polls.
unfoldable pub wait_for_running : World → String → ℕ → ℕ → ℕ → Mover → Option (Mover × Waited)
wait_for_running w target zero k elapsed x = none
wait_for_running w target (suc fuel) k elapsed x =
    let rest =
      wait_for_running w target fuel (suc k) (elapsed + 2000 + w.poll_late k) (w.after_poll k x) in
    if ltb elapsed 1_800_000
    then elim (poll target x) [ some r ↦ some (x, r) | none ↦ rest ]
    else some (x, gives_up "Timeout waiting for target model to become ready")

unfoldable pub wait_for_drain : World → String → ℕ → ℕ → ℕ → ℕ → Mover → Option Mover
wait_for_drain w source timeout zero k elapsed x = none
wait_for_drain w source timeout (suc fuel) k elapsed x =
    let rest =
      wait_for_drain w source timeout fuel (suc k) (elapsed + 500 + w.count_late k)
        (w.after_count k x) in
    if ltb elapsed timeout
    then (if get_instance_connections source x.connections == 0 then some x else rest)
    else some x

-- The new instance has the configuration of the source; its id, port and process are new.
abbrev pub target_of : ModelInstance → MoveOperation → ModelInstance → ModelInstance
target_of source op i = record i {
  model_path = source.model_path;
  model_name = source.model_name;
  max_tokens = source.max_tokens;
  gpu_ids = op.target_gpu_ids;
  tensor_parallel_size = source.tensor_parallel_size;
  sleep_mode_enabled = source.sleep_mode_enabled;
  routable = true;
}

-- From the phase `completing` on.
unfoldable pub unload_source : World → MoveOperation → Mover → Mover
unload_source w op x =
    let (x', ok) = unload w op.source_instance_id (set_phase op.id Store.completing x) in
    if ok then complete_move op.id true none x' else rollback w op "Failed to unload model" x'

unfoldable pub switch : MoveOperation → Mover → Mover
switch op x =
    set_phase op.id Store.draining
      (set_routable op.source_instance_id false (set_phase op.id Store.switching x))

abbrev pub drained : World → MoveOperation → Option Mover → Option Mover
drained w op none = none
drained w op (some x) = some (unload_source w op x)

abbrev pub loaded : World → ℕ → MoveOperation → Option (Mover × Waited) → Option Mover
loaded w fuel op none = none
loaded w fuel op (some (x, gives_up e)) = some (rollback w op e x)
loaded w fuel op (some (x, ready)) =
    drained w op (wait_for_drain w op.source_instance_id op.drain_timeout_ms fuel 0 0 (switch op x))

-- `moveStore.update(moveId, { targetInstanceId })`, and the object `op` after it.
unfoldable pub note_target : String → MoveOperation → Mover → Mover × MoveOperation
note_target target op x =
    let (moves', ok) =
      Store.update op.id (record no_updates { target_instance_id = some target }) x.moves in
    (record x { moves = moves' }, if ok then record op { target_instance_id = target } else op)

unfoldable pub with_target : World → ℕ → MoveOperation → ModelInstance → Bool → Mover → Option Mover
with_target w fuel op i spawned x =
    let (m, r, _) = launch_model i spawned x.manager in
    let launched' = record x { manager = m } in
    elim r [
      | done ↦
          let (x', op') = note_target i.id op launched' in
          loaded w fuel op' (wait_for_running w i.id fuel 0 0 x')
      | _ ↦ some (rollback w op "Failed to spawn vLLM process" launched')
    ]

unfoldable pub after_launch :
    World → ℕ → MoveOperation → ModelInstance → Option (ModelInstance × Bool) → Mover → Option Mover
after_launch w fuel op source none x = some (rollback w op "The launch failed" x)
after_launch w fuel op source (some (i, spawned)) x =
    with_target w fuel op (target_of source op i) spawned x

unfoldable pub execute_move : World → ℕ → String → Mover → Option Mover
execute_move w fuel move x = elim (Store.get move x.moves) [
  | none ↦ some x
  | some op ↦ elim (Models.Store.get op.source_instance_id x.manager.store) [
    | none ↦ some (complete_move move false (some "Source model not found") x)
    | some source ↦
        after_launch w fuel op source w.launched (w.during_launch (set_phase move Store.spawning x))
  ]
]

pub data CancelReply : Type 0 where
  cancelled already_over move_not_found cannot_cancel : CancelReply

unfoldable pub revert_to_source : World → MoveOperation → Mover → Mover
revert_to_source w op x =
    complete_move op.id false (some "Cancelled by user - reverted to source")
      (unload_target w op.target_instance_id (set_routable op.source_instance_id true x))

unfoldable pub force_complete : World → MoveOperation → Mover → Mover
force_complete w op x =
    complete_move op.id true (some "Force completed by user") (unload w op.source_instance_id x).0

unfoldable pub cancel_move : World → Bool → String → Mover → Mover × CancelReply
cancel_move w force move x = elim (Store.get move x.moves) [
  | none ↦ (x, move_not_found)
  | some op ↦ elim op.phase [
    | Store.completed ↦ (x, already_over)
    | Store.failed ↦ (x, already_over)
    | Store.completing ↦ (x, cannot_cancel)
    | Store.validating ↦
        (if force then force_complete w op x else revert_to_source w op x, cancelled)
    | Store.spawning ↦ (if force then force_complete w op x else revert_to_source w op x, cancelled)
    | Store.switching ↦
        (if force then force_complete w op x else revert_to_source w op x, cancelled)
    | Store.draining ↦ (if force then force_complete w op x else revert_to_source w op x, cancelled)
  ]
]
