-- ===== src/Cluster/Discovery.antt =====
-- apps/backend/src/services/peer-discovery.ts. Which pods a discovery knows, and the calls of its two
-- callbacks, which come back as a list in the order in which they are made; `Cluster.Manager` makes them.
-- The Kubernetes API and the network are not part of the program: what the watch reports, and which
-- pings are answered, are arguments.
pub mod Known
pub mod Told
use sardeenz.Base.{
  if◌then◌else◌, same, any, ℕ, String, Bool, false, not, ◌&&◌, Option, none, some, List, [], ◌∷◌,
  ◌++◌, string_key,
}
use sardeenz.Base.Dict
use sardeenz.Base.Dict.{Dict}
use sardeenz.Base.Text.{host_port, is_blank}

pub record DiscoveredPeer : Type 0 where
  pub pod_id : String
  pub address : String
  pub port : ℕ

abbrev pub KnownPods : Type 0
KnownPods = Dict String DiscoveredPeer

-- `onPeerAdded` and `onPeerRemoved`.
pub data Callback : Type 0 where
  peer_added : DiscoveredPeer → Callback
  peer_removed : String → Callback

-- What is read of a pod: `metadata.name`, `status.podIP` and `status.phase`.
pub record Pod : Type 0 where
  pub name : Option String
  pub ip : Option String
  pub phase : Option String

pub data Phase : Type 0 where
  added modified deleted other : Phase

-- `!!text` for a text that may be missing.
abbrev pub present : Option String → Bool
present none = false
present (some s) = not (is_blank s)

abbrev pub text_of : Option String → String
text_of none = ""
text_of (some s) = s

abbrev pub is_running_phase : Option String → Bool
is_running_phase none = false
is_running_phase (some s) = same s "Running"

abbrev pub pod_peer : ℕ → String → Pod → DiscoveredPeer
pod_peer port name pod = record { pod_id = name; address = text_of pod.ip; port = port }

-- Add a pod that is not known, and tell of it.
unfoldable pub learn : DiscoveredPeer → KnownPods → KnownPods × List Callback
learn peer known =
    if Dict.has peer.pod_id known
    then (known, [])
    else (Dict.set peer.pod_id peer known, peer_added peer ∷ [])

-- Forget a pod that is known, and tell of it.
unfoldable pub forget : String → KnownPods → KnownPods × List Callback
forget pod known =
    if Dict.has pod known then (Dict.delete pod known, peer_removed pod ∷ []) else (known, [])

-- `handlePodEvent` past the check of the name, for a pod that was added or modified.
unfoldable pub pod_present : ℕ → String → Pod → KnownPods → KnownPods × List Callback
pod_present port name pod known =
    if is_running_phase pod.phase && present pod.ip
    then learn (pod_peer port name pod) known
    else if not (is_running_phase pod.phase)
    then forget name known
    else (known, [])

unfoldable pub handle_named_event : ℕ → Phase → String → Pod → KnownPods → KnownPods × List Callback
handle_named_event port added name pod known = pod_present port name pod known
handle_named_event port modified name pod known = pod_present port name pod known
handle_named_event port deleted name pod known = forget name known
handle_named_event port other name pod known = (known, [])

-- `handlePodEvent`, with the port of the configuration.
unfoldable pub handle_pod_event : ℕ → Phase → Pod → KnownPods → KnownPods × List Callback
handle_pod_event port phase pod known =
    if present pod.name
    then handle_named_event port phase (text_of pod.name) pod known
    else (known, [])

-- The initial list of `start`.
unfoldable pub list_pods : ℕ → List Pod → KnownPods → KnownPods × List Callback
list_pods port [] known = (known, [])
list_pods port (pod ∷ pods) known =
    let (known', calls) = handle_pod_event port added pod known in
    let (known'', calls') = list_pods port pods known' in (known'', calls ++ calls')

-- The peer of a configured address.
unfoldable pub static_peer : String → ℕ → DiscoveredPeer
static_peer host port = record { pod_id = host_port host port; address = host; port = port }

-- An answered or failed ping of `pollPeers`: the configured peer, and `response.ok`.
pub record Ping : Type 0 where
  pub peer : DiscoveredPeer
  pub ok : Bool

-- The pings in the order in which they end. `activePodIds` is what `answered` reads off.
unfoldable pub poll_answers : List Ping → KnownPods → KnownPods × List Callback
poll_answers [] known = (known, [])
poll_answers (p ∷ ps) known =
    let (known', calls) = if p.ok then learn p.peer known else (known, []) in
    let (known'', calls') = poll_answers ps known' in (known'', calls ++ calls')

unfoldable pub answered : String → List Ping → Bool
answered pod pings = any (λ p. p.ok && same p.peer.pod_id pod) pings

-- The loop over `knownPods` that removes those that did not respond.
unfoldable pub drop_silent : List Ping → KnownPods → KnownPods × List Callback
drop_silent pings [] = ([], [])
drop_silent pings ((pod, peer) ∷ known) =
    let (known', calls) = drop_silent pings known in
    if answered pod pings then ((pod, peer) ∷ known', calls) else (known', peer_removed pod ∷ calls)

unfoldable pub poll_peers : List Ping → KnownPods → KnownPods × List Callback
poll_peers pings known =
    let (known', calls) = poll_answers pings known in
    let (known'', calls') = drop_silent pings known' in (known'', calls ++ calls')

-- `stop`.
unfoldable pub stop : KnownPods → KnownPods
stop known = []

-- The discovery that `createPeerDiscovery` chooses.
pub data Kind : Type 0 where
  kubernetes static none_needed : Kind

unfoldable pub create_peer_discovery : Bool → Option String → Option String → Kind
create_peer_discovery cluster_mode service_host cluster_peers =
    if not cluster_mode
    then none_needed
    else if present service_host
    then kubernetes
    else if present cluster_peers
    then static
    else none_needed
