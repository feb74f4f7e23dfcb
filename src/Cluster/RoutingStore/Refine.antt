-- ===== src/Cluster/RoutingStore/Refine.antt =====
-- cluster-routing-store.ts against its contract: a function from model names to entries.
use sardeenz.Base.{
  if◌then◌else◌, same, same_refl, any, String, ◌≡◌, refl, ◌≢◌, true, Option, List, [], ◌∷◌, ◌++◌,
  arith, string_key,
}
use sardeenz.Base.Dict
use sardeenz.Types.{RoutingEntry}
use sardeenz.Cluster.RoutingStore.{
  RoutingStore, get_routing_entries, others, set_local_pod_id, clear,
}
use sardeenz.Cluster.RoutingStore.Lookups.{
  get_routing_entries-remove_entries_for_pod, get_routing_entries-add_entry,
  get_routing_entries-remove_entry, get_routing_entries-swap_entry,
}
use sardeenz.Cluster.RoutingStore.Rebuild.{served_by, get_routing_entries-rebuild_from_peers}
use sardeenz.Cluster.RoutingStore.Tables.{
  Write, sets_local, rebuilds, removes_pod, adds, removes, swaps, clears, write, IsTable,
}

-- What a write makes of the entries `es` that a model name had; `l` is the store's own pod.
abbrev pub after : Write → Option String → String → List RoutingEntry → List RoutingEntry
after (sets_local pod) l name es = es
after (rebuilds peers now) l name es = served_by l now name peers
after (removes_pod pod) l name es = others pod es
after (adds m e) l name es = if same m name then es ++ e ∷ [] else es
after (removes m pod) l name es = if same m name then others pod es else es
after (swaps m source target) l name es =
    if same m name then others source (es ++ target ∷ []) else es
after clears l name es = []

-- On a table with one list to a model name the store refines a function from model names to lists of
-- entries: each write changes what every lookup finds as `after` says.
pub get_routing_entries-write :
    (w : Write) (s : RoutingStore) (name : String)
    → IsTable s.entries
    → get_routing_entries name (write w s)
      ≡ after w s.local_pod_id name (get_routing_entries name s)
unfolding write set_local_pod_id clear get_routing_entries Dict.get
get_routing_entries-write (sets_local pod) s name h = refl
get_routing_entries-write (rebuilds peers now) s name h =
    get_routing_entries-rebuild_from_peers peers now s name
get_routing_entries-write (removes_pod pod) s name h =
    get_routing_entries-remove_entries_for_pod pod name s h.keyed
get_routing_entries-write (adds m e) s name h = get_routing_entries-add_entry m name e s
get_routing_entries-write (removes m pod) s name h = get_routing_entries-remove_entry m pod name s
get_routing_entries-write (swaps m source target) s name h =
    get_routing_entries-swap_entry m source name target s
get_routing_entries-write clears s name h = refl

-- A swap to another pod leaves the model a route to the target.
pub swap_keeps_route :
    (m source : String) (target : RoutingEntry) (s : RoutingStore)
    → target.pod_id ≢ source
    → any
        (λ e. same e.pod_id target.pod_id)
        (get_routing_entries m (write (swaps m source target) s))
      ≡ true
unfolding write
swap_keeps_route m source target s d =
    rw (get_routing_entries-swap_entry m source m target s)
      (rw (same_refl m) (kept (get_routing_entries m s)))
  where
    kept :
        (es : List RoutingEntry)
        → any (λ e. same e.pod_id target.pod_id) (others source (es ++ target ∷ [])) ≡ true
    kept [] = ground arith
    kept (e ∷ es) = ground (arith, kept es)
