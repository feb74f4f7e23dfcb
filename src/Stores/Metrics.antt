-- ===== src/Stores/Metrics.antt =====
-- apps/backend/src/stores/metrics-store.ts: the metrics of each model. Of a `ResourceMetrics` the counts and the
-- average are kept. An average is a fraction; a division by 0 leaves no number, which stays so. The
-- connections of each instance are `Stores.Connections`.
pub mod Average
use sardeenz.Base.{
  ◌==◌, if◌then◌else◌, ℕ, ◌+◌, ◌-◌, ◌*◌, String, Bool, true, false, Option, List, [], string_key,
}
use sardeenz.Base.Dict
use sardeenz.Base.Dict.{Dict}
use sardeenz.Stores.Connections.{Connections, Delta, change}

pub data Mean : Type 0 where
  missing : Mean
  ratio : ℕ → ℕ → Mean
  not_a_number : Mean

pub record ResourceMetrics : Type 0 where
  pub active_connections : ℕ
  pub total_requests : ℕ
  pub successful_requests : ℕ
  pub failed_requests : ℕ
  pub average : Mean

pub record MetricsStore : Type 0 where
  pub metrics : Dict String ResourceMetrics
  pub instance_connections : Connections

unfoldable pub set : String → ResourceMetrics → MetricsStore → MetricsStore
set path m s = record s { metrics = Dict.set path m s.metrics }

unfoldable pub get : String → MetricsStore → Option ResourceMetrics
get path s = Dict.get path s.metrics

unfoldable pub has : String → MetricsStore → Bool
has path s = Dict.has path s.metrics

unfoldable pub delete : String → MetricsStore → MetricsStore × Bool
delete path s = (record s { metrics = Dict.delete path s.metrics }, Dict.has path s.metrics)

unfoldable pub get_all : MetricsStore → List ResourceMetrics
get_all s = Dict.values s.metrics

abbrev pub with_connections : Delta → ResourceMetrics → ResourceMetrics
with_connections delta m = record m { active_connections = change delta m.active_connections }

unfoldable pub update_connections : String → Delta → MetricsStore → MetricsStore
update_connections path delta s = record s {
  metrics = Dict.modify path (with_connections delta) s.metrics;
}

-- `(average * (completed - 1) + duration) / completed`.
unfoldable pub next_mean : Mean → ℕ → ℕ → Mean
next_mean missing completed duration = ratio duration 1
next_mean (ratio n d) completed duration =
    if completed == 0
    then not_a_number
    else ratio (n * (completed - 1) + duration * d) (d * completed)
next_mean not_a_number completed duration = not_a_number

abbrev pub recorded : Bool → ℕ → ResourceMetrics → ResourceMetrics
recorded true duration m = record m {
  total_requests = m.total_requests + 1;
  successful_requests = m.successful_requests + 1;
  average = next_mean m.average (m.successful_requests + 1) duration;
}
recorded false duration m = record m {
  total_requests = m.total_requests + 1;
  failed_requests = m.failed_requests + 1;
  average = next_mean m.average m.successful_requests duration;
}

unfoldable pub record_request : String → Bool → ℕ → MetricsStore → MetricsStore
record_request path success duration s = record s {
  metrics = Dict.modify path (recorded success duration) s.metrics;
}

unfoldable pub clear : MetricsStore → MetricsStore
clear s = record s { metrics = []; instance_connections = [] }
