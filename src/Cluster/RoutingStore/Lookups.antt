-- ===== src/Cluster/RoutingStore/Lookups.antt =====
-- cluster-routing-store.ts: what a lookup finds after each write.
use sardeenz.Base.{
  if◌then◌else◌, same, length, filter, length-filter-le, length_zero, String, ◌≡◌, refl, not, none,
  List, [], ◌∷◌, ◌++◌, arith, string_key,
}
use sardeenz.Base.Dict
use sardeenz.Base.Dict.{get-set, get-delete, IsMap}
use sardeenz.Types.{RoutingEntry}
use sardeenz.Cluster.RoutingStore.{
  RoutingStore, Entries, push_entry, get_routing_entries, get_local_entries, others, drop_pod,
  remove_entries_for_pod, add_entry, put_entries, remove_entry, swap_entry, is_local,
}

abbrev pub find_in : String → Entries → List RoutingEntry
find_in name t = Dict.or_empty (Dict.get name t)

pub find_in-push_entry :
    (name j : String) (e : RoutingEntry) (t : Entries)
    → find_in j (push_entry name e t) ≡ (if same name j then find_in j t ++ e ∷ [] else find_in j t)
unfolding push_entry
find_in-push_entry name j e t =
    ground (arith, get-set name j (e ∷ []) t, get-set name j (find_in name t ++ e ∷ []) t)

pub find_in-put_entries :
    (name j : String) (es : List RoutingEntry) (t : Entries)
    → find_in j (put_entries name es t) ≡ (if same name j then es else find_in j t)
unfolding put_entries
find_in-put_entries name j [] t = ground (arith, get-delete name j t)
find_in-put_entries name j (e ∷ es) t = ground (arith, get-set name j (e ∷ es) t)

pub others_of_length :
    (pod : String) (es : List RoutingEntry)
    → length (others pod es) ≡ length es
    → others pod es ≡ es
others_of_length pod [] h = refl
others_of_length pod (e ∷ es) h =
    ground (arith, others_of_length pod es, length-filter-le (λ e. not (same e.pod_id pod)) es)

pub get-drop_pod-none :
    (pod j : String) (t : Entries) → Dict.get j t ≡ none → Dict.get j (drop_pod pod t).0 ≡ none
unfolding Dict.get drop_pod
get-drop_pod-none pod j [] h = refl
get-drop_pod-none pod j ((name, es) ∷ t) h = ground (arith, get-drop_pod-none pod j t)

pub find_in-drop_pod :
    (pod j : String) (t : Entries)
    → IsMap t
    → find_in j (drop_pod pod t).0 ≡ others pod (find_in j t)
unfolding Dict.get drop_pod
find_in-drop_pod pod j [] h = refl
find_in-drop_pod pod j ((name, es) ∷ t) h = ground (
  arith,
  find_in-drop_pod pod j t h.1,
  get-drop_pod-none pod name t h.0,
  others_of_length pod es,
  length_zero (others pod es),
)

-- After `removeEntriesForPod` every model keeps exactly its entries of other pods, in their order.
pub get_routing_entries-remove_entries_for_pod :
    (pod j : String) (s : RoutingStore)
    → IsMap s.entries
    → get_routing_entries j (remove_entries_for_pod pod s) ≡ others pod (get_routing_entries j s)
unfolding get_routing_entries remove_entries_for_pod
get_routing_entries-remove_entries_for_pod pod j s h = find_in-drop_pod pod j s.entries h

-- After `removeEntry` the model has lost exactly the entries of the pod, and no other model any.
pub get_routing_entries-remove_entry :
    (name pod j : String) (s : RoutingStore)
    → get_routing_entries j (remove_entry name pod s)
      ≡ (if same name j then others pod (get_routing_entries j s) else get_routing_entries j s)
unfolding get_routing_entries remove_entry
get_routing_entries-remove_entry name pod j s = ground (
  arith,
  find_in-put_entries name j (others pod (find_in name s.entries)) s.entries,
  others_of_length pod (find_in name s.entries),
)

-- After `swapEntry` the model has its entries of pods other than the source, then the target if that
-- is on another pod, and no other model has changed.
pub get_routing_entries-swap_entry :
    (name source j : String) (target : RoutingEntry) (s : RoutingStore)
    → get_routing_entries j (swap_entry name source target s) ≡ (
        if same name j
        then others source (get_routing_entries j s ++ target ∷ [])
        else get_routing_entries j s)
unfolding get_routing_entries swap_entry
get_routing_entries-swap_entry name source j target s =
    let t = push_entry name target s.entries in
    ground (
      arith,
      find_in-put_entries name j (others source (find_in name t)) t,
      find_in-push_entry name j target s.entries,
      find_in-push_entry name name target s.entries,
    )

-- `addEntry` puts the entry behind those of its model, and changes no other model.
pub get_routing_entries-add_entry :
    (name j : String) (e : RoutingEntry) (s : RoutingStore)
    → get_routing_entries j (add_entry name e s)
      ≡ (if same name j then get_routing_entries j s ++ e ∷ [] else get_routing_entries j s)
unfolding get_routing_entries add_entry
get_routing_entries-add_entry name j e s = find_in-push_entry name j e s.entries

-- The local entries are those of the lookup that stand on the store's own pod.
pub get_local_entries-filter :
    (name : String) (s : RoutingStore)
    → get_local_entries name s
      ≡ filter (λ e. is_local s.local_pod_id e.pod_id) (get_routing_entries name s)
unfolding get_local_entries get_routing_entries
get_local_entries-filter name s = ground arith
