-- ===== src/Moves/Mover.antt =====
-- apps/backend/src/services/model-mover.ts: a move to other GPUs of the same pod, or to another pod. What other tasks do while the
-- move awaits is a function on the whole state, so that they may come between at every `await` but that of an
-- unload, which is one step here. Progress events go to subscribers and change nothing; they are left out.
pub mod Run
pub mod CrossPod
pub mod Ends
pub mod Outcome
pub mod Cancel
pub mod Ready
pub mod Samples
mod Examples
use sardeenz.Stores.Connections.{Connections}
use sardeenz.Base.{
  ◌==◌, if◌then◌else◌, length, ℕ, String, Bool, true, false, ◌&&◌, ◌||◌, Option, none, some, List,
  [], ◌∷◌, string_key,
}
use sardeenz.Types.{ModelStatus, running, sleeping}
use sardeenz.Models
use sardeenz.Models.Manager.{Manager}
use sardeenz.Cluster.PeerStore.{PeerStore}
use sardeenz.Cluster.RoutingStore.{RoutingStore}
use sardeenz.Moves.Store
use sardeenz.Moves.Store.{MoveOperation, MoveStore}

pub record Mover : Type 0 where
  pub manager : Manager
  pub moves : MoveStore
  pub peers : PeerStore
  pub routing : RoutingStore
  pub connections : Connections

pub record MoveRequest : Type 0 where
  pub instance_id : String
  pub target_gpu_ids : List ℕ
  pub drain_timeout_ms : Option ℕ

pub data MoveReply : Type 0 where
  accepted : String → MoveReply
  model_not_found not_movable already_moving same_gpus gpu_count_differs no_memory locked :
      MoveReply

abbrev includes : ℕ → List ℕ → Bool
includes n [] = false
includes n (k ∷ ks) = n == k || includes n ks

abbrev all_in : List ℕ → List ℕ → Bool
all_in [] ks = true
all_in (n ∷ ns) ks = includes n ks && all_in ns ks

-- `allSameGpus`.
unfoldable pub all_same_gpus : List ℕ → List ℕ → Bool
all_same_gpus target source = length target == length source && all_in target source

-- `running` or `sleeping`.
abbrev pub is_movable : ModelStatus → Bool
is_movable running = true
is_movable sleeping = true
is_movable _ = false

abbrev timeout_of : Option ℕ → ℕ
timeout_of none = 60_000
timeout_of (some t) = t

-- The operation that `moveModel` makes.
abbrev pub operation : MoveRequest → String → ℕ → MoveOperation
operation r move now = record {
  id = move;
  source_instance_id = r.instance_id;
  target_instance_id = "";
  target_gpu_ids = r.target_gpu_ids;
  drain_timeout_ms = timeout_of r.drain_timeout_ms;
  phase = Store.validating;
  started_at = now;
  error = none;
}

unfoldable create_move : MoveOperation → Mover → Mover × MoveReply
create_move op x =
    let (moves', created) = Store.create op x.moves in
    if created then (record x { moves = moves' }, accepted op.id) else (x, locked)

-- `moveModel` up to the start of the move; `fits` is the outcome of the memory check of the GPU selector.
unfoldable pub move_model : Bool → MoveRequest → String → ℕ → Mover → Mover × MoveReply
unfolding create_move all_same_gpus
move_model fits r move now x = elim (Models.Store.get r.instance_id x.manager.store) [
  | none ↦ (x, model_not_found)
  | some source ↦
      if is_movable source.status
      then elim (Store.get_by_source_instance r.instance_id x.moves) [
        | some _ ↦ (x, already_moving)
        | none ↦
            if all_same_gpus r.target_gpu_ids source.gpu_ids
            then (x, same_gpus)
            else if length r.target_gpu_ids == source.tensor_parallel_size
            then (if fits then create_move (operation r move now) x else (x, no_memory))
            else (x, gpu_count_differs)
      ]
      else (x, not_movable)
]
