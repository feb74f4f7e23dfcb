-- ===== src/Proxy/Local.antt =====
-- proxy-router.ts, `routeLocal` from the choice of an instance on, and `selectInstanceForAudio`, with the ends
-- that routes/proxy.ts gives to them: `pipeStreamToReply` and `handleAudioProxyRequest`. `flights` holds the
-- requests that wait for an answer or whose stream goes on. What the instance answers is the environment's.
-- The work that `setImmediate` puts off is done at once. The request is one object, so its end also changes
-- the copy that the store holds.
pub mod Balanced
pub mod Recorded
use sardeenz.Base.{
  if◌then◌else◌, same, ℕ, String, Bool, true, false, Option, none, some, List, [], ◌∷◌, map,
  string_key,
}
use sardeenz.Base.Dict
use sardeenz.Base.Dict.{Dict}
use sardeenz.Models.Store.{ModelInstance, ModelStore, get_running_by_name, get_all_by_name}
use sardeenz.Proxy.Balancer.{RoundRobin, select_instance}
use sardeenz.Stores.Connections.{Delta, plus, minus, update_instance_connections}
use sardeenz.Stores.Metrics
use sardeenz.Stores.Metrics.{MetricsStore, update_connections, record_request}
use sardeenz.Stores.Requests
use sardeenz.Stores.Requests.{
  RequestStore, InferenceRequest, RequestStatus, pending, completed, failed,
}

pub record Flight : Type 0 where
  pub name : String
  pub instance_id : String

pub record Proxy : Type 0 where
  pub requests : RequestStore
  pub metrics : MetricsStore
  pub flights : Dict String Flight

-- The two updates of connection counts.
unfoldable pub connect : Delta → String → String → MetricsStore → MetricsStore
connect delta name instance_id m =
    let m' = update_connections name delta m in
    record m' {
      instance_connections = update_instance_connections instance_id delta m'.instance_connections;
    }

unfoldable pub take_off : String → String → String → Proxy → Proxy
take_off id name instance_id p = record p {
  metrics = connect (plus 1) name instance_id p.metrics;
  flights = Dict.set id (record { name = name; instance_id = instance_id }) p.flights;
}

abbrev pub pending_request : String → InferenceRequest
pending_request id = record { id = id; status = pending; duration_ms = none }

-- `routeLocal` up to its request.
unfoldable pub begin_local : String → String → String → Proxy → Proxy
begin_local id name instance_id p =
    take_off id name instance_id
      (record p { requests = Requests.add name (pending_request id) p.requests })

-- `selectInstanceForAudio`, once an instance is chosen.
unfoldable pub begin_audio : String → String → String → Proxy → Proxy
begin_audio id name instance_id p = take_off id name instance_id p

-- The object of a request is changed, and added once more.
abbrev pub ended : String → RequestStatus → ℕ → InferenceRequest
ended id status duration = record { id = id; status = status; duration_ms = some duration }

unfoldable pub replace : InferenceRequest → List InferenceRequest → List InferenceRequest
replace r qs = map (λ q. if same q.id r.id then r else q) qs

unfoldable pub end_request : String → InferenceRequest → RequestStore → RequestStore
end_request name r s =
    Requests.add name r (record s { requests = Dict.modify name (replace r) s.requests })

-- How a request ends: a stream that was piped, a stream that the instance refused, an answer, an error, or
-- the release of a connection for audio; with its duration.
pub data End : Type 0 where
  streamed refused threw : ℕ → End
  answered : Bool → ℕ → End
  released : End

unfoldable pub settle_end : String → String → End → Proxy → Proxy
settle_end id name (streamed d) p = record p { metrics = record_request name true d p.metrics }
settle_end id name (refused d) p = record p {
  requests = end_request name (ended id failed d) p.requests;
  metrics = record_request name false d p.metrics;
}
settle_end id name (threw d) p = record p {
  requests = end_request name (ended id failed d) p.requests;
  metrics = record_request name false d p.metrics;
}
settle_end id name (answered ok d) p = record p {
  requests = end_request name (ended id (if ok then completed else failed) d) p.requests;
  metrics = record_request name ok d p.metrics;
}
settle_end id name released p = p

-- The end of a flight.
unfoldable pub land : String → End → Proxy → Proxy
land id end p = elim (Dict.get id p.flights) [
  | none ↦ p
  | some f ↦
      let p' = settle_end id f.name end p in
      record p' {
        metrics = connect (minus 1) f.name f.instance_id p'.metrics;
        flights = Dict.delete id p'.flights;
      }
]

-- The choice of an instance for audio.
pub data Audio : Type 0 where
  chosen : ModelInstance → Audio
  not_loaded not_running undefined : Audio

abbrev chosen_of : Option ModelInstance → Audio
chosen_of none = undefined
chosen_of (some i) = chosen i

unfoldable pub select_instance_for_audio : String → ModelStore → RoundRobin → RoundRobin × Audio
select_instance_for_audio name models b = elim (get_running_by_name name models) [
  | [] ↦ elim (get_all_by_name name models) [ [] ↦ (b, not_loaded) | i ∷ is ↦ (b, not_running) ]
  | i ∷ is ↦ let (b', picked) = select_instance (i ∷ is) b in (b', chosen_of picked)
]
