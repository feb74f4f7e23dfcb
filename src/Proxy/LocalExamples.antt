-- ===== src/Proxy/LocalExamples.antt =====
-- proxy-router.ts and metrics-store.ts: the theorems at concrete inputs.
use sardeenz.Base.{ltb, string_discrete, ◌≡◌, refl, List, [], ◌∷◌, string_key}
use sardeenz.Base.Dict
use sardeenz.Stores.Requests
use sardeenz.Stores.Connections.{has_active_connections}
use sardeenz.Stores.Metrics.{MetricsStore}
use sardeenz.Stores.Metrics.Average.{idle}
use sardeenz.Proxy.Local.{Proxy, begin_local, streamed}
use sardeenz.Proxy.Local.Balanced.{
  Act, begins, begins_audio, lands, act_all, AllNew, connections_of, in_flight, act_all-connections,
}

abbrev measured : MetricsStore
measured = record { metrics = ("m", idle) ∷ []; instance_connections = [] }

abbrev quiet : Proxy
quiet = record { requests = Requests.new 100; metrics = measured; flights = [] }

abbrev busy : List Act
busy = begins "r1" "m" "i1" ∷ begins_audio "r2" "m" "i1" ∷ lands "r1" (streamed 40) ∷ []

busy-AllNew : AllNew busy quiet
unfolding AllNew Dict.get string_discrete sardeenz.Proxy.Local.Balanced.act begin_local
    sardeenz.Proxy.Local.take_off Dict.set
busy-AllNew = (refl, (refl, (tt, tt)))

act_all-connections_example :
    let p' = act_all busy quiet in
    (connections_of "i1" p' ≡ in_flight "i1" p'.flights)
    × (has_active_connections "i1" p'.metrics.instance_connections
        ≡ ltb 0 (in_flight "i1" p'.flights))
act_all-connections_example = act_all-connections busy quiet "i1" refl refl busy-AllNew
