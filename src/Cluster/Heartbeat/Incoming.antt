-- ===== src/Cluster/Heartbeat/Incoming.antt =====
-- heartbeat.ts, `processIncomingHeartbeat` and `handleAck`: what a message changes in the view.
use sardeenz.Base.{
  if◌then◌else◌, Option-cases, same, ℕ, String, ◌≡◌, inl, inr, true, Option, none, some, arith,
  string_key,
}
use sardeenz.Base.Dict
use sardeenz.Base.Dict.{map_some, get-modify, get-set}
use sardeenz.Types.{PeerInfo, HeartbeatMessage, HeartbeatAck}
use sardeenz.Cluster.PeerStore.{
  get_peer, add_peer, update_peer, update_last_heartbeat, PeerStore, assign,
}
use sardeenz.Cluster.PeerStore.Laws.{alive_at}
use sardeenz.Cluster.Heartbeat.{
  Node, schedule_rebuild, handle_ack, fill_address, new_peer, message_updates, receive,
  process_incoming_heartbeat,
}

-- The peer that a message leaves, from the one that was known.
abbrev pub reported : HeartbeatMessage → Option String → ℕ → ℕ → Option PeerInfo → PeerInfo
reported m source now default none = new_peer m source now default
reported m source now default (some p) =
    alive_at now (assign (message_updates m (fill_address p.address source)) p)

get_peer-receive :
    (m : HeartbeatMessage) (source : Option String) (now default : ℕ) (s : PeerStore) (pod : String)
    → get_peer pod (receive m source now default s) ≡ (
        if same m.pod_id pod
        then some (reported m source now default (get_peer m.pod_id s))
        else get_peer pod s)
unfolding get_peer receive add_peer update_peer update_last_heartbeat new_peer
get_peer-receive m source now default s pod = elim (Option-cases (Dict.get m.pod_id s)) [
  | inl e ↦ rw (e, receive) (ground (arith, get-set m.pod_id pod (new_peer m source now default) s))
  | inr (p, e) ↦
      rw (e, receive)
        (let u = assign (message_updates m (fill_address p.address source)) in
          ground (
            arith,
            get-modify m.pod_id pod (alive_at now) (Dict.modify m.pod_id u s),
            get-modify m.pod_id pod u s,
          ))
]

-- An incoming heartbeat leaves its sender's peer healthy, heard of now, with the role, term, models and
-- GPUs of the message, whatever term it bears; it changes no other peer and no routing entry, and a
-- rebuild of the routing table is scheduled.
pub process_incoming_heartbeat_lem :
    (m : HeartbeatMessage) (source : Option String) (now : ℕ) (n : Node) (pod : String)
    → let n' = (process_incoming_heartbeat m source now n).0 in
      (get_peer pod n'.peers ≡ (
        if same m.pod_id pod
        then some (reported m source now n.default_port (get_peer m.pod_id n.peers))
        else get_peer pod n.peers))
      × (n'.routing ≡ n.routing)
      × (n'.rebuild_pending ≡ true)
unfolding process_incoming_heartbeat schedule_rebuild
process_incoming_heartbeat_lem m source now n pod =
    ground (arith, get_peer-receive m source now n.default_port n.peers pod)

-- An acknowledgement makes the peer that sends it healthy, if it is known, and changes no other.
pub get_peer-handle_ack :
    (ack : HeartbeatAck) (now : ℕ) (n : Node) (pod : String)
    → get_peer pod (handle_ack ack now n).peers ≡ (
        if same ack.pod_id pod
        then map_some (alive_at now) (get_peer pod n.peers)
        else get_peer pod n.peers)
unfolding get_peer handle_ack update_last_heartbeat
get_peer-handle_ack ack now n pod = get-modify ack.pod_id pod (alive_at now) n.peers
