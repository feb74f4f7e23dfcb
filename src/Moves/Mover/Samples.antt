-- ===== src/Moves/Mover/Samples.antt =====
-- A move and what it meets, for the examples.
use sardeenz.Cluster.RoutingStore.{RoutingStore}
use sardeenz.Cluster.Samples.{peer_b}
use sardeenz.Cluster.RoutingStore
use sardeenz.Base.Dict
use sardeenz.Base.{string_discrete, ◌≡◌, refl, true, none, some, [], ◌∷◌, string_key}
use sardeenz.Base.Dict.{Dict}
use sardeenz.Models.Samples.{both}
use sardeenz.Moves.Store
use sardeenz.Moves.Store.{MoveOperation}
use sardeenz.Moves.Mover.{Mover}
use sardeenz.Moves.Mover.Run.{World}

-- A move of the first instance to the second one's GPU.
abbrev pub going : MoveOperation
going = record {
  id = "m1";
  source_instance_id = "i1";
  target_instance_id = "i2";
  target_gpu_ids = 1 ∷ [];
  drain_timeout_ms = 30_000;
  phase = Store.draining;
  started_at = 50;
  error = none;
}

abbrev pub pod : Mover
pod = record {
  manager = both;
  moves = record { operations = ("m1", going) ∷ []; active_move = some "m1" };
  peers = ("b", peer_b) ∷ [];
  routing = RoutingStore.new;
  connections = [];
}

-- The launch fails, nothing else happens meanwhile, and every kill succeeds.
abbrev pub world : World
world = record {
  launched = none;
  during_launch = λ x. x;
  after_poll = λ k x. x;
  poll_late = λ k. k;
  after_count = λ k x. x;
  count_late = λ k. 0;
  killed = λ id. true;
}

pub get-going : Store.get "m1" pod.moves ≡ some going
unfolding Store.get Dict.get string_discrete
get-going = refl
