-- ===== src/Moves/Mover/Ready.antt =====
-- model-mover.ts: what a move has seen before it gives up its source.
use sardeenz.Moves.Store.{MoveOperation}
use sardeenz.Base.{ℕ, String, ◌≡◌, ◌⊎◌, some, string_key}
use sardeenz.Base.Dict.{map_some}
use sardeenz.Types.{running}
use sardeenz.Moves.Mover.{Mover}
use sardeenz.Moves.Mover.Outcome.{stored}
use sardeenz.Moves.Mover.Run.{
  gives_up, wait_for_drain, rollback, unload_source, switch, World, ready, wait_for_running,
}

abbrev pub Runs : String → Mover → Type 0
Runs id x = map_some (λ i. i.status) (stored id x) ≡ some running

-- The ends of a move from the state in which its wait for the target ended: a rollback there, or the unloading
-- of the source after the wait for the drain, which follows on the switch in that state.
abbrev pub Settles : World → ℕ → String → MoveOperation → Mover → Mover → Type 0
Settles w fuel target op x y =
    ((z : Mover) × (message : String) × (wait_for_running w target fuel 0 0 x
        ≡ some (z, gives_up message))
      × (y ≡ rollback w op message z))
    ⊎ ((z z' : Mover) × (wait_for_running w target fuel 0 0 x ≡ some (z, ready))
        × Runs target z
        × (wait_for_drain w op.source_instance_id op.drain_timeout_ms fuel 0 0 (switch op z)
            ≡ some z')
        × (y ≡ unload_source w op z'))
