-- ===== src/Moves/Mover/Examples.antt =====
-- model-mover.ts: the theorems at concrete inputs.
use sardeenz.Base.Dict
use sardeenz.Moves.Store
use sardeenz.Stores.Connections.{get_instance_connections}
use sardeenz.Moves.Mover.Run.{revert_to_source, unload_target, unload, complete_move}
use sardeenz.Moves.Mover.Samples.{get-going, going, pod, world}
use sardeenz.Base.{
  string_discrete, zero, suc, ◌<◌, ◌≡◌, refl, false, none, some, [], ◌∷◌, arith, string_key,
}
use sardeenz.Models.Samples.{serving, resting, both-IsManager, get-serving, get-resting}
use sardeenz.Moves.Store.{MoveOperation}
use sardeenz.Moves.Mover.{Mover}
use sardeenz.Moves.Mover.Run.{World, drained, wait_for_drain, cancel_move, cancelled, execute_move}
use sardeenz.Moves.Mover.Ends.{IsFree, execute_move_ends}
use sardeenz.Moves.Mover.Outcome.{stored}
use sardeenz.Moves.Mover.Cancel.{drained-cancel_move}

execute_move_ends_example : (y : Mover) × (execute_move world 901 "m1" pod ≡ some y) × IsFree "m1" y
execute_move_ends_example =
    execute_move_ends world 900 going pod get-going (omega arith) (omega arith)

-- One request is left when the drain begins, and the cancellation comes in its first wait.
abbrev busy_pod : Mover
busy_pod = record pod { connections = ("i1", 1) ∷ [] }

abbrev cancelling : World
cancelling = record world {
  after_count = λ k x. elim k [ zero ↦ (cancel_move world false "m1" x).0 | suc n ↦ x ];
}

one_left : 0 < get_instance_connections "i1" busy_pod.connections
unfolding get_instance_connections Dict.get string_discrete
one_left = omega arith

cancels : (cancel_move world false "m1" busy_pod).0 ≡ (cancel_move cancelling false "m1" busy_pod).0
unfolding cancel_move revert_to_source unload_target unload complete_move Store.get Dict.get
    string_discrete
cancels = refl

drained-cancel_move_example :
    let end = drained cancelling going (wait_for_drain cancelling "i1" 30_000 62 0 0 busy_pod) in
    (y : Mover) × (end ≡ some y)
    × ((cancel_move cancelling false "m1" busy_pod).1 ≡ cancelled)
    × (stored "i1" y ≡ none)
    × (stored "i2" y ≡ none)
unfolding string_discrete
drained-cancel_move_example =
    drained-cancel_move cancelling 60 going serving resting busy_pod both-IsManager get-going refl
      get-serving get-resting refl refl refl refl refl refl (omega arith) (omega arith) one_left
      cancels (λ n z. refl)

-- The other way: the target runs, and the source sleeps.
abbrev back : MoveOperation
back = record going { source_instance_id = "i2"; target_instance_id = "i1" }
