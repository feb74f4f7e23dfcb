-- ===== src/Cluster/Redirect.antt =====
-- apps/backend/src/plugins/leader-redirect.ts: a pod that is not the leader forwards a request to the
-- leader. Headers are an association list, as in `Object.entries`, with lower-case names, which is how the
-- runtime gives them. The answer of the leader is the network's: the hook ends in the request that it
-- sends, and `end_of_forward` in what it replies.
pub mod Laws
use sardeenz.Base.{
  if◌then◌else◌, same, filter, any, ℕ, String, Bool, false, not, ◌&&◌, ◌||◌, Option, none, some,
  List, [], ◌∷◌, string_key,
}
use sardeenz.Base.Dict
use sardeenz.Base.Dict.{Dict}
use sardeenz.Base.Text.{codes, starts_with, is_blank, host_port}
use sardeenz.Types.{PeerInfo}
use sardeenz.Cluster.PeerStore.{PeerStore, get_all_peers}
use sardeenz.Cluster.Manager.{get_leader_address}

abbrev pub Headers : Type 0
Headers = Dict String String

abbrev pub begins : String → String → Bool
begins url prefix = starts_with (codes prefix) (codes url)

unfoldable pub should_forward : String → Bool
should_forward url = not (
    begins url "/v1/"
    || begins url "/api/direct/"
    || begins url "/internal/"
    || begins url "/api/health"
    || begins url "/api/cluster"
    || begins url "/docs"
    || begins url "/metrics")

unfoldable pub hop_by_hop : String → Bool
hop_by_hop key =
    any (λ h. same h key)
      ("connection" ∷ "keep-alive" ∷ "proxy-authenticate" ∷ "proxy-authorization" ∷ "te" ∷ "trailer"
        ∷ "transfer-encoding" ∷ "upgrade" ∷ [])

unfoldable pub filter_headers : Headers → Headers
filter_headers [] = []
filter_headers ((key, value) ∷ hs) =
    let rest = filter_headers hs in
    if hop_by_hop key || same key "host" then rest else (key, value) ∷ rest

abbrev pub forwarded_header : String
forwarded_header = "x-sardeenz-forwarded"

-- `!!headers[key]`.
abbrev pub truthy : Option String → Bool
truthy none = false
truthy (some s) = not (is_blank s)

-- The header that keeps the host, where there is one and no proxy has set it.
unfoldable pub keep_host : Option String → Headers → Headers
keep_host none hs = hs
keep_host (some host) hs =
    if not (is_blank host) && not (truthy (Dict.get "x-forwarded-host" hs))
    then Dict.set "x-forwarded-host" host hs
    else hs

unfoldable pub forward_headers : String → Headers → Headers
forward_headers ip hs =
    keep_host (Dict.get "host" hs)
      (Dict.set "x-forwarded-for" ip (Dict.set forwarded_header "true" (filter_headers hs)))

pub record Request : Type 0 where
  pub url : String
  pub ip : String
  pub headers : Headers

pub data Action : Type 0 where
  handled : Action
  replied : ℕ → Action
  forwarded : String → Request → Action

unfoldable pub is_known_peer : String → List PeerInfo → Bool
is_known_peer address peers =
    any (λ p. same address (host_port p.address p.port) || same address p.address) peers

-- The pod that receives a request: what its cluster manager answers.
pub record Receiver : Type 0 where
  pub cluster_mode : Bool
  pub is_leader : Bool
  pub leader_id : Option String
  pub peers : PeerStore

unfoldable pub forward_to : String → PeerStore → Request → Action
forward_to address peers r =
    if is_known_peer address (get_all_peers peers)
    then forwarded address (record r { headers = forward_headers r.ip r.headers })
    else replied 503

unfoldable pub forward : Option String → PeerStore → Request → Action
forward none peers r = replied 503
forward (some address) peers r =
    if is_blank address then replied 503 else forward_to address peers r

-- The hook, up to the call of the leader.
unfoldable pub on_request : Receiver → Request → Action
on_request pod r =
    if not pod.cluster_mode || pod.is_leader
    then handled
    else if not (should_forward r.url)
    then handled
    else if truthy (Dict.get forwarded_header r.headers)
    then replied 508
    else forward (get_leader_address pod.leader_id pod.peers) pod.peers r

-- The end of the call of the leader: an answer, a time-out or another error.
pub data Outcome : Type 0 where
  answered : ℕ → Headers → Outcome
  timed_out unreachable : Outcome

unfoldable pub response_headers : Headers → Headers
response_headers hs = filter (λ h. not (hop_by_hop h.0)) hs

unfoldable pub end_of_forward : Outcome → ℕ × Headers
end_of_forward (answered status hs) = (status, response_headers hs)
end_of_forward timed_out = (504, [])
end_of_forward unreachable = (502, [])
