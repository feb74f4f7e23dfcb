-- ===== src/Proxy/Examples.antt =====
-- proxy-router.ts: the theorems at concrete inputs.
use sardeenz.Models.Store.Index.{new-IsStore}
use sardeenz.Models.Store.Lookups.{passes}
use sardeenz.Proxy.Route.Served.{route_request_to_instance}
use sardeenz.Base.Dict.{Dict}
use sardeenz.Cluster.RoutingStore.{get_routing_entries}
use sardeenz.Proxy.Balancer.{select_instance, expand, new_weighted, or_zero, select}
use sardeenz.Proxy.Balancer.Stale.{select_stale}
use sardeenz.Proxy.Breaker.{Breaker, is_open}
use sardeenz.Proxy.Route.{route_local, to_instance, Router, route_request}
use sardeenz.Proxy.Route.Safety.{AllOpen, route_request_broken, stays}
use sardeenz.Base.{
  string_discrete, same, length, get_elem?, ◌%◌, ◌≡◌, refl, true, false, ◌&&◌, none, some, [], ◌∷◌,
  string_key,
}
use sardeenz.Base.Dict
use sardeenz.Types.{RoutingEntry, running}
use sardeenz.Models.Store
use sardeenz.Models.Store.Index
use sardeenz.Models.Store.{
  Index, serves, index_add, reindex, get_all_by_name, get_running_by_name, add_id, resolve,
  ModelInstance,
}

abbrev entry_b : RoutingEntry
entry_b = record {
  pod_id = "b";
  pod_address = "10.0.0.2";
  vllm_port = 8001;
  weight = 1;
  last_verified = 7;
}

abbrev entry_c : RoutingEntry
entry_c = record {
  pod_id = "c";
  pod_address = "10.0.0.3";
  vllm_port = 8002;
  weight = 2;
  last_verified = 8;
}

abbrev first : ModelInstance
first = record {
  id = "i1";
  model_path = "org/m";
  model_name = "m";
  status = running;
  port = 8001;
  process_id = 100;
  engine_core_pid = none;
  max_tokens = 4096;
  gpu_ids = 0 ∷ [];
  tensor_parallel_size = 1;
  sleep_mode_enabled = true;
  sleep_level = none;
  error_message = none;
  routable = true;
}

abbrev second : ModelInstance
second = record first { id = "i2"; port = 8002 }

abbrev failing : Breaker
failing = ("b", record { failures = 10 ∷ 20 ∷ []; cooldown_until = 0 }) ∷ []

abbrev broken : Breaker
broken =
    ("b", record { failures = []; cooldown_until = 900 })
    ∷ ("c", record { failures = []; cooldown_until = 900 })
    ∷ []

abbrev router : Router
router = record {
  models = Store.new;
  table = record {
    entries = ("m", entry_b ∷ entry_c ∷ []) ∷ [];
    version = 4;
    local_pod_id = some "a";
  };
  breaker = broken;
  weighted = new_weighted;
  balancer = [];
}

b_waits : (is_open "b" 30 failing).1 ≡ false
unfolding is_open Dict.get string_discrete
b_waits = refl

all_open : AllOpen 500 broken (get_routing_entries "m" router.table)
unfolding is_open get_routing_entries Dict.get string_discrete
all_open = (refl, (refl, tt))

route_request_broken_example : stays (route_request "m" 500 false router).1 ≡ true
route_request_broken_example = route_request_broken "m" 500 false router all_open

select_stale_example :
    let xs = expand (entry_b ∷ entry_c ∷ []) in
    let w = (select "m" (entry_b ∷ entry_c ∷ []) 4 new_weighted).0 in
    (select "m" (entry_c ∷ entry_c ∷ []) 4 w).1
    ≡ get_elem? xs (or_zero (Dict.get "m" w.counters) % length xs)
unfolding new_weighted Dict.get
select_stale_example = select_stale "m" entry_b entry_c entry_c entry_c [] [] 4 new_weighted refl

abbrev serving : Router
serving = record router { models = Index.write_all (Index.sets first ∷ []) Store.new }

first_picked : (route_request "m" 500 true serving).1 ≡ to_instance first
unfolding route_request route_local select_instance Index.write_all Index.write Store.set Store.new
    get_running_by_name get_all_by_name resolve Dict.get Dict.set reindex index_add add_id
    string_discrete
first_picked = refl

route_request_to_instance_example :
    passes (λ j. same j.model_name "m" && serves j) (Store.get "i1" serving.models) ≡ true
route_request_to_instance_example =
    route_request_to_instance "m" 500 true serving first (new-IsStore (Index.sets first ∷ []))
      first_picked
