-- ===== src/Cluster/Events/Kept.antt =====
-- internal.ts, `/internal/cluster/event`: the stores keep their shape.
use sardeenz.Base.{◌==◌, Bool-cases, ℕ, String, inl, inr, Bool, not, ◌&&◌, ◌||◌, some, string_key}
use sardeenz.Base.Dict
use sardeenz.Base.Text.{is_blank}
use sardeenz.Types.{leader}
use sardeenz.Cluster.PeerStore.{no_updates, get_all_peers}
use sardeenz.Cluster.PeerStore.Laws.{IsPeers, write, write-IsPeers, adds, removes, updates}
use sardeenz.Cluster.RoutingStore.Tables.{
  IsTable, write-IsTable, removes_pod, rebuilds, write as write_table,
}
use sardeenz.Cluster.Manager.{Manager, fresh_peer, handle_peer_removed}
use sardeenz.Cluster.Events.{
  ClusterEvent, model_loaded, model_unloaded, model_moved, leader_elected, pod_joined, pod_left,
  rebuild, mark_leader, join, handle_cluster_event, or_text, or_port,
}

pub record IsView (m : Manager) : Type 0 where
  pub peers_ok : IsPeers m.peers
  pub table_ok : IsTable m.routing.entries

rebuild-IsView : (now : ℕ) (m : Manager) → IsView m → IsView (rebuild now m)
unfolding rebuild write_table
rebuild-IsView now m h = record {
  peers_ok = h.peers_ok;
  table_ok = write-IsTable (rebuilds (get_all_peers m.peers) now) m.routing h.table_ok;
}

mark_leader-IsView : (id : String) (t : ℕ) (m : Manager) → IsView m → IsView (mark_leader id t m)
unfolding mark_leader write
mark_leader-IsView id t m h =
    elim (Bool-cases (not (is_blank id) && not (t == 0) && Dict.has id m.peers)) [
      | inl e ↦ rw e (record {
        peers_ok =
            write-IsPeers (updates id (record no_updates { role = some leader; term = some t }))
              m.peers h.peers_ok;
        table_ok = h.table_ok;
      })
      | inr e ↦ rw e h
    ]

join-IsView :
    (ok : Bool) (now term : ℕ) (pod address : String) (port : ℕ) (m : Manager)
    → IsView m
    → IsView (join ok now term pod address port m)
unfolding join write
join-IsView ok now term pod address port m h =
    elim (Bool-cases (is_blank pod || Dict.has pod m.peers)) [
      | inl e ↦ rw e h
      | inr e ↦ elim (Bool-cases (not (is_blank address) && not ok)) [
        | inl d ↦ rw (e, d) h
        | inr d ↦
            rw (e, d)
              (record {
                peers_ok =
                    write-IsPeers (adds (record (fresh_peer pod address port now) { term = term }))
                      m.peers h.peers_ok;
                table_ok = h.table_ok;
              })
      ]
    ]

handle_peer_removed-IsView :
    (pod : String) (m : Manager) → IsView m → IsView (handle_peer_removed pod m)
unfolding handle_peer_removed write write_table
handle_peer_removed-IsView pod m h = record {
  peers_ok = write-IsPeers (removes pod) m.peers h.peers_ok;
  table_ok = write-IsTable (removes_pod pod) m.routing h.table_ok;
}

-- Whatever event a peer sends, each peer of the store stands under its own pod id, no pod id stands
-- twice, and no model of the routing table has an empty list of entries or stands twice.
pub handle_cluster_event-IsView :
    (ok : Bool) (now term : ℕ) (e : ClusterEvent) (m : Manager)
    → IsView m
    → IsView (handle_cluster_event ok now term e m)
unfolding handle_cluster_event
handle_cluster_event-IsView ok now term model_loaded m h = rebuild-IsView now m h
handle_cluster_event-IsView ok now term model_unloaded m h = rebuild-IsView now m h
handle_cluster_event-IsView ok now term model_moved m h = rebuild-IsView now m h
handle_cluster_event-IsView ok now term (leader_elected id t) m h = mark_leader-IsView id t m h
handle_cluster_event-IsView ok now term (pod_joined pod address port) m h =
    join-IsView ok now term pod (or_text address) (or_port port) m h
handle_cluster_event-IsView ok now term (pod_left pod) m h = elim (Bool-cases (is_blank pod)) [
  | inl e ↦ rw e h
  | inr e ↦ rw e (handle_peer_removed-IsView pod m h)
]
