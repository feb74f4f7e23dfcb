-- ===== src/Proxy/Route.antt =====
-- proxy-router.ts, `routeRequest`: which instance or remote pod gets a request, and what the answer of a
-- remote pod does to the router. Sending the request, its metrics and its record are left out.
pub mod Safety
pub mod Served
use sardeenz.Base.{
  ltb, leb, ◌==◌, if◌then◌else◌, same, length, any, ℕ, String, Bool, Option, none, some, List, [],
  ◌∷◌, string_key,
}
use sardeenz.Types.{RoutingEntry, is_sleeping}
use sardeenz.Cluster.RoutingStore.{
  RoutingStore, get_routing_entries, get_local_entries, remove_entry,
}
use sardeenz.Models.Store.{ModelInstance, ModelStore, get_running_by_name, get_all_by_name}
use sardeenz.Proxy.Breaker.{Breaker, is_open, record_failure, record_success}
use sardeenz.Proxy.Balancer.{RoundRobin, Weighted, select_instance, select}

pub record Router : Type 0 where
  pub models : ModelStore
  pub table : RoutingStore
  pub breaker : Breaker
  pub weighted : Weighted
  pub balancer : RoundRobin

pub data Route : Type 0 where
  to_instance : ModelInstance → Route
  to_pod : RoutingEntry → Route
  not_found all_broken sleeping no_running no_local undefined : Route

abbrev or_undefined {ℓ} : {A : Type ℓ} → (A → Route) → Option A → Route
or_undefined f none = undefined
or_undefined f (some a) = f a

-- `entries.filter((e) => !this.circuitBreaker.isOpen(e.podId))`.
unfoldable pub available : ℕ → List RoutingEntry → Breaker → Breaker × List RoutingEntry
available now [] b = (b, [])
available now (e ∷ es) b =
    let (b', broken) = is_open e.pod_id now b in
    let (b'', rest) = available now es b' in (b'', if broken then rest else e ∷ rest)

unfoldable pub route_local : String → Router → Router × Route
route_local name r = elim (get_running_by_name name r.models) [
  | [] ↦ (r, no_local)
  | i ∷ is ↦
      let (m, picked) = select_instance (i ∷ is) r.balancer in
      (record r { balancer = m }, or_undefined to_instance picked)
]

-- The selected entry is one of the pod's own.
abbrev pub is_own : String → RoutingStore → RoutingEntry → Bool
is_own name t e = any (λ l. same l.pod_id e.pod_id) (get_local_entries name t)

-- The call of `select`, with the version of the table.
unfoldable pub selected : String → List RoutingEntry → Router → Router × Option RoutingEntry
selected name es r =
    let (w, picked) = select name es r.table.version r.weighted in
    (record r { weighted = w }, picked)

unfoldable pub follow : String → Router → Option RoutingEntry → Router × Route
follow name r none = (r, undefined)
follow name r (some e) = if is_own name r.table e then route_local name r else (r, to_pod e)

unfoldable pub route_among : String → List RoutingEntry → Router → Router × Route
route_among name [] r = route_local name r
route_among name (e ∷ es) r = let (r', picked) = selected name (e ∷ es) r in follow name r' picked

unfoldable pub route_with_weighted_rr : String → ℕ → List RoutingEntry → Router → Router × Route
route_with_weighted_rr name now es r =
    let (b, free) = available now es r.breaker in route_among name free (record r { breaker = b })

-- No instance serves and no pod is available.
unfoldable pub refusal : List ModelInstance → List RoutingEntry → Route
refusal [] [] = not_found
refusal [] (e ∷ es) = all_broken
refusal (i ∷ is) es = if any (λ j. is_sleeping j.status) (i ∷ is) then sleeping else no_running

unfoldable pub route_away : String → List RoutingEntry → List RoutingEntry → Router → Router × Route
route_away name [] entries r = (r, refusal (get_all_by_name name r.models) entries)
route_away name (e ∷ es) entries r =
    let (r', picked) = selected name (e ∷ es) r in (r', or_undefined to_pod picked)

unfoldable pub route_remote : String → ℕ → Router → Router × Route
route_remote name now r =
    let entries = get_routing_entries name r.table in
    let (b, free) = available now entries r.breaker in
    route_away name free entries (record r { breaker = b })

unfoldable pub route_request : String → ℕ → Bool → Router → Router × Route
route_request name now forwarded r =
    if forwarded then route_local name r else elim (get_running_by_name name r.models) [
      | [] ↦ route_remote name now r
      | i ∷ is ↦
          let entries = get_routing_entries name r.table in
          if ltb 1 (length entries)
          then route_with_weighted_rr name now entries r
          else route_local name r
    ]

-- What came of a forward to a pod: an HTTP status, no connection, or a success whose body, not streamed, cannot
-- be read.
pub data Answer : Type 0 where
  status : ℕ → Answer
  no_connection unreadable : Answer

-- `forwardToRemotePod` after the answer.
unfoldable pub settle : String → RoutingEntry → ℕ → Answer → Router → Router
settle name e now (status code) r =
    if leb 400 code
    then record r {
      breaker = record_failure e.pod_id now r.breaker;
      table = if code == 404 then remove_entry name e.pod_id r.table else r.table;
    }
    else record r { breaker = record_success e.pod_id r.breaker }
settle name e now no_connection r = record r {
  breaker = record_failure e.pod_id now r.breaker;
  table = remove_entry name e.pod_id r.table;
}
settle name e now unreadable r = record r {
  breaker = record_failure e.pod_id now (record_success e.pod_id r.breaker);
  table = remove_entry name e.pod_id r.table;
}
