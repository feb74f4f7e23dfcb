-- ===== src/Cluster/Election.antt =====
-- apps/backend/src/services/leader-election.ts, `HeartbeatLeaderElection`: the bully election with a
-- quorum over the peers that this pod sees. `expected` is `config.clusterExpectedPods`; a step returns
-- the call of `onLeaderChange` that it makes.
pub mod Outcome
pub mod Agreement
use sardeenz.Base.{
  ltb, if◌then◌else◌, same, length, filter, ℕ, ◌+◌, ◌/◌, String, Bool, true, false, not, ◌&&◌,
  Option, none, some, List, [], ◌∷◌, map, string_key,
}
use sardeenz.Base.Sort.{sort}
use sardeenz.Base.Text.{le_text}
use sardeenz.Types.{PeerInfo, is_unavailable}
use sardeenz.Cluster.PeerStore.{PeerStore, get_all_peers}

pub record Election : Type 0 where
  pub pod_id : String
  pub term : ℕ
  pub leader_id : Option String
  pub is_leader : Bool

pub record Notice : Type 0 where
  pub leader_id : String
  pub term : ℕ

unfoldable pub new : String → Election
new pod = record { pod_id = pod; term = 0; leader_id = none; is_leader = false }

abbrev pub calculate_quorum : ℕ → ℕ
calculate_quorum n = n / 2 + 1

-- `allPeers.filter((p) => p.status !== 'unavailable')`.
abbrev pub healthy_of : PeerStore → List PeerInfo
healthy_of s = filter (λ p. not (is_unavailable p.status)) (get_all_peers s)

abbrev pub expected_size : ℕ → PeerStore → ℕ
expected_size expected s = if ltb 0 expected then expected else length (get_all_peers s)

-- `sortedPeers`.
unfoldable pub sorted_ids : PeerStore → List String
sorted_ids s = sort le_text (map (λ p. p.pod_id) (healthy_of s))

-- `this.leaderId === id`.
abbrev pub is_known : Option String → String → Bool
is_known none id = false
is_known (some l) id = same l id

-- The branches once `electedId` is known.
unfoldable pub elect : String → Election → Election × Option Notice
elect id e =
    let mine = same id e.pod_id in
    if not (is_known e.leader_id id)
    then (
      record e { term = e.term + 1; leader_id = some id; is_leader = mine },
      some (record { leader_id = id; term = e.term + 1 }),
    )
    else if mine && not e.is_leader
    then (record e { is_leader = true }, none)
    else if not mine && e.is_leader
    then (record e { is_leader = false }, none)
    else (e, none)

unfoldable pub run_election : ℕ → PeerStore → Election → Election × Option Notice
run_election expected s e =
    if ltb (length (healthy_of s)) (calculate_quorum (expected_size expected s))
    then (if e.is_leader then record e { is_leader = false } else e, none)
    else elim (sorted_ids s) [ [] ↦ (e, none) | id ∷ ids ↦ elect id e ]

unfoldable pub stop : Election → Election
stop e = record e { is_leader = false }
