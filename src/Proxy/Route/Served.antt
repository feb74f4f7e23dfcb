-- ===== src/Proxy/Route/Served.antt =====
-- proxy-router.ts, `routeRequest`: the instances of the pod that get requests.
use sardeenz.Models.Store.Index.{IsStore}
use sardeenz.Base.Dict.{Dict}
use sardeenz.Cluster.RoutingStore.{get_routing_entries}
use sardeenz.Models.Store.{serves, ModelInstance, ModelStore, get_all_by_name, get_running_by_name}
use sardeenz.Models.Store.Lookups.{passes, get_running_by_name_iff, has_id}
use sardeenz.Proxy.Balancer.{RoundRobin, or_zero, select, select_instance}
use sardeenz.Base.Dict
use sardeenz.Models.Store
use sardeenz.Base.{
  same, length, get_elem?, ℕ, zero, suc, ◌%◌, String, ◌≡◌, refl, sym, ap, ◌∙◌, Bool, true, ◌&&◌,
  Option, none, some, List, [], ◌∷◌, arith, string_key,
}
use sardeenz.Types.{RoutingEntry}
use sardeenz.Proxy.Route.{
  refusal, Route, to_pod, selected, route_among, Router, route_request, to_instance,
  route_with_weighted_rr, route_away, route_remote, route_local, available, follow, or_undefined,
}

-- An instance that the route leads to is among the running ones of the name.
abbrev pub leads_to_running : String → ModelStore → Route → Bool
leads_to_running name m (to_instance i) = has_id i.id (get_running_by_name name m)
leads_to_running name m _ = true

has_id-get_elem? :
    (n : ℕ) (is : List ModelInstance) (i : ModelInstance)
    → get_elem? is n ≡ some i
    → has_id i.id is ≡ true
has_id-get_elem? n [] i h = cc
has_id-get_elem? zero (j ∷ is) i h = ground arith
has_id-get_elem? (suc n) (j ∷ is) i h = ground (arith, has_id-get_elem? n is i h)

has_id-select_instance :
    (is : List ModelInstance) (m : RoundRobin) (i : ModelInstance)
    → (select_instance is m).1 ≡ some i
    → has_id i.id is ≡ true
unfolding select_instance
has_id-select_instance [] m i h = cc
has_id-select_instance (a ∷ []) m i h = ground arith
has_id-select_instance (a ∷ b ∷ is) m i h =
    has_id-get_elem? (or_zero (Dict.get a.model_path m) % length (a ∷ b ∷ is)) (a ∷ b ∷ is) i h

picked_runs :
    (name : String) (m : ModelStore) (o : Option ModelInstance)
    → ((i : ModelInstance) → o ≡ some i → has_id i.id (get_running_by_name name m) ≡ true)
    → leads_to_running name m (or_undefined to_instance o) ≡ true
picked_runs name m none h = refl
picked_runs name m (some i) h = h i refl

leads_to_running-route_local :
    (name : String) (r : Router) → leads_to_running name r.models (route_local name r).1 ≡ true
unfolding route_local
leads_to_running-route_local name r = go (get_running_by_name name r.models) refl
  where
    go :
        (is : List ModelInstance)
        → get_running_by_name name r.models ≡ is
        → leads_to_running name r.models (route_local name r).1 ≡ true
    go [] e = rw (e, route_local) refl
    go (i ∷ is) e =
        rw (e, route_local)
          (picked_runs name r.models (select_instance (i ∷ is) r.balancer).1
            (λ j h. rw e (has_id-select_instance (i ∷ is) r.balancer j h)))

leads_to_running-follow :
    (name : String) (r : Router) (o : Option RoutingEntry)
    → leads_to_running name r.models (follow name r o).1 ≡ true
unfolding follow
leads_to_running-follow name r none = refl
leads_to_running-follow name r (some e) = ground (arith, leads_to_running-route_local name r)

leads_to_running-route_among :
    (name : String) (es : List RoutingEntry) (r : Router)
    → leads_to_running name r.models (route_among name es r).1 ≡ true
unfolding route_among selected
leads_to_running-route_among name [] r = leads_to_running-route_local name r
leads_to_running-route_among name (e ∷ es) r =
    let picked = select name (e ∷ es) r.table.version r.weighted in
    leads_to_running-follow name (record r { weighted = picked.0 }) picked.1

leads_to_running-refusal :
    (name : String) (m : ModelStore) (is : List ModelInstance) (es : List RoutingEntry)
    → leads_to_running name m (refusal is es) ≡ true
unfolding refusal
leads_to_running-refusal name m [] [] = refl
leads_to_running-refusal name m [] (e ∷ es) = refl
leads_to_running-refusal name m (i ∷ is) es = ground arith

leads_to_running-or_undefined :
    (name : String) (m : ModelStore) (o : Option RoutingEntry)
    → leads_to_running name m (or_undefined to_pod o) ≡ true
leads_to_running-or_undefined name m none = refl
leads_to_running-or_undefined name m (some e) = refl

leads_to_running-route_away :
    (name : String) (es entries : List RoutingEntry) (r : Router)
    → leads_to_running name r.models (route_away name es entries r).1 ≡ true
unfolding route_away selected
leads_to_running-route_away name [] entries r =
    leads_to_running-refusal name r.models (get_all_by_name name r.models) entries
leads_to_running-route_away name (e ∷ es) entries r =
    leads_to_running-or_undefined name r.models (select name (e ∷ es) r.table.version r.weighted).1

leads_to_running-route_request :
    (name : String) (now : ℕ) (forwarded : Bool) (r : Router)
    → leads_to_running name r.models (route_request name now forwarded r).1 ≡ true
unfolding route_request route_remote route_with_weighted_rr
leads_to_running-route_request name now forwarded r =
    let entries = get_routing_entries name r.table in
    let asked = available now entries r.breaker in
    let r' : Router = record r { breaker = asked.0 } in
    ground (
      arith,
      leads_to_running-route_local name r,
      leads_to_running-route_among name asked.1 r',
      leads_to_running-route_away name asked.1 entries r',
    )

-- On a model store whose indexes agree with its instances: a request that is sent to an instance of this pod,
-- whichever way it came there, is sent to one whose id the store knows, under the requested name, running and
-- routable.
pub route_request_to_instance :
    (name : String) (now : ℕ) (forwarded : Bool) (r : Router) (i : ModelInstance)
    → IsStore r.models
    → (route_request name now forwarded r).1 ≡ to_instance i
    → passes (λ j. same j.model_name name && serves j) (Store.get i.id r.models) ≡ true
route_request_to_instance name now forwarded r i ok h =
    sym (get_running_by_name_iff name i.id r.models ok)
    ∙ ap (leads_to_running name r.models) (sym h)
    ∙ leads_to_running-route_request name now forwarded r
