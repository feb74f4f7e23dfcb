-- ===== src/Models/Samples.antt =====
-- Instances and a manager for the examples.
use sardeenz.Base.Dict.{Dict}
use sardeenz.Types.{running, sleeping}
use sardeenz.Base.{string_discrete, ◌≡◌, refl, true, none, some, [], ◌∷◌, arith, string_key}
use sardeenz.Base.Dict
use sardeenz.Logs.Buffer
use sardeenz.Models.Store
use sardeenz.Models.Store.Index
use sardeenz.Models.Store.Index.{new-IsStore}
use sardeenz.Models.Store.{Index, ModelInstance}
use sardeenz.Models.Manager.{Manager}
use sardeenz.Models.Manager.Held.{IsManager}

abbrev pub serving : ModelInstance
serving = record {
  id = "i1";
  model_path = "org/m";
  model_name = "m";
  status = running;
  port = 8001;
  process_id = 100;
  engine_core_pid = none;
  max_tokens = 4096;
  gpu_ids = 0 ∷ [];
  tensor_parallel_size = 1;
  sleep_mode_enabled = true;
  sleep_level = none;
  error_message = none;
  routable = true;
}

abbrev pub resting : ModelInstance
resting = record {
  id = "i2";
  model_path = "org/r";
  model_name = "r";
  status = sleeping;
  port = 8002;
  process_id = 101;
  engine_core_pid = none;
  max_tokens = 4096;
  gpu_ids = 1 ∷ [];
  tensor_parallel_size = 1;
  sleep_mode_enabled = true;
  sleep_level = none;
  error_message = none;
  routable = true;
}

-- Both instances, each with its process.
abbrev pub both : Manager
both = record {
  store = Index.write_all (Index.sets serving ∷ Index.sets resting ∷ []) Store.new;
  processes = "i1" ∷ "i2" ∷ [];
  detached = [];
  logs = Buffer.new none none;
}

pub both-IsManager : IsManager both
unfolding Dict.get
both-IsManager = record {
  store_ok = new-IsStore (Index.sets serving ∷ Index.sets resting ∷ []);
  owned = tt;
  apart = λ id. ground arith;
}

pub get-serving : Store.get "i1" both.store ≡ some serving
unfolding Store.get Store.set Store.new Index.write Index.write_all Dict.get Dict.set
    string_discrete
get-serving = refl

pub get-resting : Store.get "i2" both.store ≡ some resting
unfolding Store.get Store.set Store.new Index.write Index.write_all Dict.get Dict.set
    string_discrete
get-resting = refl
