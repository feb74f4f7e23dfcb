-- ===== src/Cluster/Redirect/Laws.antt =====
-- leader-redirect.ts: a request is forwarded once at most, and only to a peer.
use sardeenz.Base.{
  if◌then◌else◌, Bool-cases, Option-cases, string_discrete, same, same_refl, String, ◌≡◌, refl, ap,
  subst, inl, inr, Bool, true, false, not, ◌||◌, Option, none, some, [], ◌∷◌, arith, string_key,
}
use sardeenz.Base.Dict
use sardeenz.Base.Dict.{get-set}
use sardeenz.Base.Text.{is_blank-host_port, host_port}
use sardeenz.Cluster.PeerStore.{PeerStore, get_peer, get_all_peers}
use sardeenz.Cluster.Manager.{get_leader_address}
use sardeenz.Types.{PeerInfo}
use sardeenz.Cluster.Redirect.{
  Headers, Action, handled, replied, forwarded, filter_headers, Request, Receiver, should_forward,
  truthy, forwarded_header, keep_host, forward_headers, is_known_peer, forward_to, forward,
  on_request,
}

pub get-keep_host :
    (host : Option String) (hs : Headers)
    → Dict.get forwarded_header (keep_host host hs) ≡ Dict.get forwarded_header hs
unfolding keep_host string_discrete
get-keep_host none hs = refl
get-keep_host (some host) hs = ground (arith, get-set "x-forwarded-host" forwarded_header host hs)

-- A forwarded request bears the header that says so.
pub get-forward_headers :
    (ip : String) (hs : Headers) → Dict.get forwarded_header (forward_headers ip hs) ≡ some "true"
unfolding forward_headers string_discrete
get-forward_headers ip hs =
    let a = Dict.set forwarded_header "true" (filter_headers hs) in
    ground (
      arith,
      get-keep_host (Dict.get "host" hs) (Dict.set "x-forwarded-for" ip a),
      get-set "x-forwarded-for" forwarded_header ip a,
      get-set forwarded_header forwarded_header "true" (filter_headers hs),
    )

abbrev pub is_forward : Action → Bool
is_forward handled = false
is_forward (replied code) = false
is_forward (forwarded address r) = true

known-values :
    (id : String) (p : PeerInfo) (s : PeerStore)
    → Dict.get id s ≡ some p
    → is_known_peer (host_port p.address p.port) (get_all_peers s) ≡ true
unfolding Dict.get is_known_peer
known-values id p [] h = cc
known-values id p ((j, q) ∷ s) h = elim (Bool-cases (same j id)) [
  | inl e ↦
      let k : q ≡ p = ground arith in
      rw (k, same_refl {K = String} (host_port p.address p.port)) refl
  | inr e ↦ ground (arith, known-values id p s (ground arith))
]

-- The address that a pod has for the leader is always that of a known peer: the reply that it could
-- not be verified is never sent.
pub is_known_peer-get_leader_address :
    (leader : Option String) (peers : PeerStore) (address : String)
    → get_leader_address leader peers ≡ some address
    → is_known_peer address (get_all_peers peers) ≡ true
unfolding get_leader_address get_peer
is_known_peer-get_leader_address none peers address h = cc
is_known_peer-get_leader_address (some id) peers address h =
    elim (Option-cases (Dict.get id peers)) [
      | inl e ↦ absurd (ground arith)
      | inr (p, e) ↦
          let k : host_port p.address p.port ≡ address = ground arith in
          subst (λ a. is_known_peer a (get_all_peers peers) ≡ true) k (known-values id p peers e)
    ]

forward_known :
    (id : String) (p : PeerInfo) (peers : PeerStore) (r : Request)
    → Dict.get id peers ≡ some p
    → forward (some (host_port p.address p.port)) peers r
      ≡ forwarded
          (host_port p.address p.port)
          (record r { headers = forward_headers r.ip r.headers })
unfolding forward forward_to
forward_known id p peers r h =
    rw (is_blank-host_port p.address p.port, known-values id p peers h) refl

-- Where a request goes that may be forwarded.
unfoldable pub destination : Option String → Request → Action
destination none r = replied 503
destination (some address) r =
    forwarded address (record r { headers = forward_headers r.ip r.headers })

pub forward-get_leader_address :
    (leader : Option String) (peers : PeerStore) (r : Request)
    → forward (get_leader_address leader peers) peers r
      ≡ destination (get_leader_address leader peers) r
unfolding get_leader_address get_peer destination forward
forward-get_leader_address none peers r = refl
forward-get_leader_address (some id) peers r = elim (Option-cases (Dict.get id peers)) [
  | inl e ↦
      let k : get_leader_address (some id) peers ≡ none = rw (e, get_leader_address) refl in
      rw k refl
  | inr (p, e) ↦
      let k : get_leader_address (some id) peers ≡ some (host_port p.address p.port) =
        rw (e, get_leader_address) refl in
      rw k (forward_known id p peers r e)
]

-- The decision in one table: a pod outside a cluster or the leader handles every request, and any pod
-- the exempt ones; a request that has been forwarded gets 508; one with no known leader gets 503; any
-- other goes to the leader's peer, marked as forwarded.
pub on_request_lem :
    (pod : Receiver) (r : Request)
    → on_request pod r ≡ (
        if not pod.cluster_mode || pod.is_leader || not (should_forward r.url)
        then handled
        else if truthy (Dict.get forwarded_header r.headers)
        then replied 508
        else destination (get_leader_address pod.leader_id pod.peers) r)
unfolding on_request
on_request_lem pod r = ground (arith, forward-get_leader_address pod.leader_id pod.peers r)

abbrev headers_of : Action → Headers
headers_of handled = []
headers_of (replied code) = []
headers_of (forwarded address r) = r.headers

destination_marked :
    (leader : Option String) (r sent : Request) (address : String)
    → destination leader r ≡ forwarded address sent
    → truthy (Dict.get forwarded_header sent.headers) ≡ true
unfolding destination
destination_marked none r sent address h = cc
destination_marked (some a) r sent address h =
    let e : forward_headers r.ip r.headers ≡ sent.headers = ap headers_of h in
    subst (λ hs. truthy (Dict.get forwarded_header hs) ≡ true) e
      (rw (get-forward_headers r.ip r.headers) refl)

stays :
    (b : Bool) (a : Action)
    → is_forward (if b then handled else if true then replied 508 else a) ≡ false
stays b a = ground arith

sent_marked :
    (pod : Receiver) (r sent : Request) (address : String)
    → on_request pod r ≡ forwarded address sent
    → truthy (Dict.get forwarded_header sent.headers) ≡ true
sent_marked pod r sent address h =
    destination_marked (get_leader_address pod.leader_id pod.peers) r sent address
      (ground (arith, on_request_lem pod r))

-- A request that one pod forwards no pod forwards again: it is handled or refused where it arrives.
pub on_request_twice :
    (first second : Receiver) (r sent : Request) (address : String)
    → on_request first r ≡ forwarded address sent
    → is_forward (on_request second sent) ≡ false
unfolding destination
on_request_twice first second r sent address h =
    let mark : truthy (Dict.get forwarded_header sent.headers) ≡ true =
      sent_marked first r sent address h in
    rw (on_request_lem second sent, mark)
      (stays (not second.cluster_mode || second.is_leader || not (should_forward sent.url))
        (destination (get_leader_address second.leader_id second.peers) sent))
