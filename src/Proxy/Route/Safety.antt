-- ===== src/Proxy/Route/Safety.antt =====
-- proxy-router.ts, `routeRequest`: where a request can end.
use sardeenz.Base.{
  ◌==◌, if◌then◌else◌, same_refl, All, ℕ, String, ◌≡◌, refl, sym, subst, Bool, true, false, List,
  [], ◌∷◌, arith, ℕ_discrete, string_key,
}
use sardeenz.Types.{RoutingEntry}
use sardeenz.Cluster.RoutingStore.{remove_entry, RoutingStore, get_routing_entries, others}
use sardeenz.Cluster.RoutingStore.Lookups.{get_routing_entries-remove_entry}
use sardeenz.Proxy.Breaker.{Breaker, is_open}
use sardeenz.Proxy.Route.{
  Answer, status, no_connection, unreadable, settle, route_remote, route_with_weighted_rr,
  route_away, route_among, refusal, Router, Route, to_pod, available, route_local, route_request,
}

-- The route leads to no other pod.
abbrev pub stays : Route → Bool
stays (to_pod e) = false
stays _ = true

stays-route_local : (name : String) (r : Router) → stays (route_local name r).1 ≡ true
unfolding route_local
stays-route_local name r = ground arith

-- A request that was already forwarded is not forwarded again.
pub route_request_no_loop :
    (name : String) (now : ℕ) (r : Router) → stays (route_request name now true r).1 ≡ true
unfolding route_request
route_request_no_loop name now r = stays-route_local name r

-- The breaker of every entry's pod is open.
abbrev pub AllOpen : ℕ → Breaker → List RoutingEntry → Type 0
AllOpen now b es = All (λ e. (is_open e.pod_id now b).1 ≡ true) es

is_open_keeps :
    (pod : String) (now : ℕ) (b : Breaker)
    → (is_open pod now b).1 ≡ true
    → (is_open pod now b).0 ≡ b
unfolding is_open
is_open_keeps pod now b h = ground arith

available_none :
    (now : ℕ) (es : List RoutingEntry) (b : Breaker)
    → AllOpen now b es
    → available now es b ≡ (b, [])
unfolding available
available_none now [] b h = refl
available_none now (e ∷ es) b (h, hs) =
    rw (is_open_keeps e.pod_id now b h, available_none now es b hs, h) refl

-- When the breaker of every pod that serves the name is open, the request goes to no other pod.
pub route_request_broken :
    (name : String) (now : ℕ) (forwarded : Bool) (r : Router)
    → AllOpen now r.breaker (get_routing_entries name r.table)
    → stays (route_request name now forwarded r).1 ≡ true
unfolding route_request route_remote route_with_weighted_rr route_away route_among refusal
route_request_broken name now forwarded r h = ground (
  arith,
  available_none now (get_routing_entries name r.table) r.breaker h,
  stays-route_local name r,
  stays-route_local name (record r { breaker = r.breaker }),
)

-- The answer says that the pod does not serve the name.
abbrev pub forgets : Answer → Bool
forgets (status code) = code == 404
forgets _ = true

settle_table :
    (name : String) (e : RoutingEntry) (now : ℕ) (a : Answer) (r : Router)
    → (settle name e now a r).table
      ≡ (if forgets a then remove_entry name e.pod_id r.table else r.table)
unfolding settle
settle_table name e now (status code) r = elim (ℕ_discrete code 404) [
  | yes h ↦
      subst
        (λ c.
          (settle name e now (status c) r).table
          ≡ (if forgets (status c) then remove_entry name e.pod_id r.table else r.table))
        (sym h) refl
  | no h ↦ ground arith
]
settle_table name e now no_connection r = refl
settle_table name e now unreadable r = refl

without_pod :
    (name pod : String) (t : RoutingStore)
    → get_routing_entries name (remove_entry name pod t) ≡ others pod (get_routing_entries name t)
without_pod name pod t = rw (get_routing_entries-remove_entry name pod name t, same_refl name) refl

-- After a forward that found no connection, a status 404 or an unreadable body, the table lists for the
-- model name the entries of the other pods, in their order; after any other status it lists what it did.
pub get_routing_entries-settle :
    (name : String) (e : RoutingEntry) (now : ℕ) (a : Answer) (r : Router)
    → get_routing_entries name (settle name e now a r).table ≡ (
        if forgets a
        then others e.pod_id (get_routing_entries name r.table)
        else get_routing_entries name r.table)
get_routing_entries-settle name e now a r =
    rw (settle_table name e now a r)
      (elim (forgets a)
        as (λ b.
          get_routing_entries name (if b then remove_entry name e.pod_id r.table else r.table) ≡ (
            if b
            then others e.pod_id (get_routing_entries name r.table)
            else get_routing_entries name r.table)) [
              | true ↦ without_pod name e.pod_id r.table
              | false ↦ refl
            ])
