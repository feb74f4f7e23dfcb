-- ===== src/Cluster/StoreExamples.antt =====
-- peer-store.ts and cluster-routing-store.ts: the theorems at concrete inputs.
use sardeenz.Cluster.RoutingStore.{drop_pod, get_routing_entries, remove_entries_for_pod}
use sardeenz.Cluster.RoutingStore.Refine.{get_routing_entries-write, swap_keeps_route}
use sardeenz.Cluster.RoutingStore.Tables.{entries-write_of_version}
use sardeenz.Cluster.Samples.{c_not_b, entry_c, peer_b, m_served, m_served-IsTable}
use sardeenz.Base.{string_discrete, same, any, ◌≡◌, refl, true, some, [], ◌∷◌, string_key}
use sardeenz.Cluster.PeerStore.Laws
use sardeenz.Cluster.PeerStore.Laws.{IsPeers, write_all_empty-IsPeers}
use sardeenz.Cluster.RoutingStore.Tables
use sardeenz.Cluster.RoutingStore.Refine

get_routing_entries-write_example :
    get_routing_entries "m" (Tables.write (Tables.removes "m" "b") m_served)
    ≡ Refine.after (Tables.removes "m" "b") (some "a") "m" (get_routing_entries "m" m_served)
get_routing_entries-write_example =
    get_routing_entries-write (Tables.removes "m" "b") m_served "m" m_served-IsTable

swap_keeps_route_example :
    any
      (λ e. same e.pod_id "c")
      (get_routing_entries "m" (Tables.write (Tables.swaps "m" "b" entry_c) m_served))
    ≡ true
swap_keeps_route_example = swap_keeps_route "m" "b" entry_c m_served c_not_b

entries-write_of_version_example :
    (Tables.write (Tables.removes_pod "z") m_served).entries ≡ m_served.entries
unfolding Tables.write remove_entries_for_pod drop_pod string_discrete
entries-write_of_version_example = entries-write_of_version (Tables.removes_pod "z") m_served refl

write_all_empty-IsPeers_example :
    IsPeers (Laws.write_all (Laws.adds peer_b ∷ Laws.beats "b" 9 ∷ Laws.removes "a" ∷ []) [])
write_all_empty-IsPeers_example =
    write_all_empty-IsPeers (Laws.adds peer_b ∷ Laws.beats "b" 9 ∷ Laws.removes "a" ∷ [])
