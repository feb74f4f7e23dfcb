-- ===== src/Cluster/Discovery/Known.antt =====
-- peer-discovery.ts: which pods are known after an event and after a poll.
use sardeenz.Base.{
  if◌then◌else◌, Bool-cases, same, ℕ, String, ◌≡◌, refl, inl, inr, Bool, true, false, not, ◌&&◌,
  ◌||◌, none, List, [], ◌∷◌, arith, string_key,
}
use sardeenz.Base.Dict
use sardeenz.Base.Dict.{delete-IsMap, get-set, get-delete, IsMap, set-IsMap}
use sardeenz.Cluster.Discovery.{
  DiscoveredPeer, KnownPods, Pod, Phase, added, modified, deleted, other, present, text_of,
  is_running_phase, learn, forget, pod_present, handle_named_event, handle_pod_event, Ping,
  poll_answers, answered, drop_silent, poll_peers,
}

-- What an event says of a pod, which was known or not.
abbrev pub known_after : Phase → Pod → Bool → Bool
known_after added p b = if is_running_phase p.phase then present p.ip || b else false
known_after modified p b = if is_running_phase p.phase then present p.ip || b else false
known_after deleted p b = false
known_after other p b = b

has-learn :
    (peer : DiscoveredPeer) (pod : String) (known : KnownPods)
    → Dict.has pod (learn peer known).0 ≡ (same peer.pod_id pod || Dict.has pod known)
unfolding learn
has-learn peer pod known = ground (arith, get-set peer.pod_id pod peer known)

has-forget :
    (name pod : String) (known : KnownPods)
    → Dict.has pod (forget name known).0 ≡ (not (same name pod) && Dict.has pod known)
unfolding forget
has-forget name pod known = ground (arith, get-delete name pod known)

-- After an event of a named pod that pod is known where it runs and has an address; one that runs
-- without an address stays as it was; one that does not run or is deleted is not known. No other pod
-- changes.
pub has-handle_pod_event :
    (port : ℕ) (phase : Phase) (p : Pod) (pod : String) (known : KnownPods)
    → present p.name ≡ true
    → Dict.has pod (handle_pod_event port phase p known).0 ≡ (
        if same (text_of p.name) pod
        then known_after phase p (Dict.has pod known)
        else Dict.has pod known)
unfolding handle_pod_event handle_named_event pod_present
has-handle_pod_event port added p pod known h = ground (
  arith,
  has-learn (record { pod_id = text_of p.name; address = text_of p.ip; port = port }) pod known,
  has-forget (text_of p.name) pod known,
)
has-handle_pod_event port modified p pod known h = ground (
  arith,
  has-learn (record { pod_id = text_of p.name; address = text_of p.ip; port = port }) pod known,
  has-forget (text_of p.name) pod known,
)
has-handle_pod_event port deleted p pod known h =
    ground (arith, has-forget (text_of p.name) pod known)
has-handle_pod_event port other p pod known h = ground arith

has-poll_answers :
    (pod : String) (pings : List Ping) (known : KnownPods)
    → Dict.has pod (poll_answers pings known).0 ≡ (answered pod pings || Dict.has pod known)
unfolding poll_answers answered
has-poll_answers pod [] known = refl
has-poll_answers pod (p ∷ ps) known = ground (
  arith,
  has-poll_answers pod ps known,
  has-poll_answers pod ps (learn p.peer known).0,
  has-learn p.peer pod known,
)

get-drop_silent-none :
    (pod : String) (pings : List Ping) (known : KnownPods)
    → Dict.get pod known ≡ none
    → Dict.get pod (drop_silent pings known).0 ≡ none
unfolding Dict.get drop_silent
get-drop_silent-none pod pings [] h = refl
get-drop_silent-none pod pings ((j, q) ∷ known) h =
    ground (arith, get-drop_silent-none pod pings known)

pub has-drop_silent :
    (pod : String) (pings : List Ping) (known : KnownPods)
    → IsMap known
    → Dict.has pod (drop_silent pings known).0 ≡ (answered pod pings && Dict.has pod known)
unfolding Dict.get drop_silent
has-drop_silent pod pings [] h = ground arith
has-drop_silent pod pings ((j, q) ∷ known) h =
    ground (arith, has-drop_silent pod pings known h.1, get-drop_silent-none j pings known h.0)

learn-IsMap : (peer : DiscoveredPeer) (known : KnownPods) → IsMap known → IsMap (learn peer known).0
unfolding learn
learn-IsMap peer known h = ground (arith, set-IsMap peer.pod_id peer known h)

pub poll_answers-IsMap :
    (pings : List Ping) (known : KnownPods) → IsMap known → IsMap (poll_answers pings known).0
unfolding poll_answers
poll_answers-IsMap [] known h = h
poll_answers-IsMap (p ∷ ps) known h = elim (Bool-cases p.ok) [
  | inl e ↦ rw e (poll_answers-IsMap ps (learn p.peer known).0 (learn-IsMap p.peer known h))
  | inr e ↦ rw e (poll_answers-IsMap ps known h)
]

-- After a poll of the configured peers, whatever the order of the answers, exactly the pods whose ping
-- was answered are known.
pub has-poll_peers :
    (pod : String) (pings : List Ping) (known : KnownPods)
    → IsMap known
    → Dict.has pod (poll_peers pings known).0 ≡ answered pod pings
unfolding poll_peers
has-poll_peers pod pings known h = ground (
  arith,
  has-drop_silent pod pings (poll_answers pings known).0 (poll_answers-IsMap pings known h),
  has-poll_answers pod pings known,
)

forget-IsMap : (name : String) (known : KnownPods) → IsMap known → IsMap (forget name known).0
unfolding forget
forget-IsMap name known h = ground (arith, delete-IsMap name known h)

pub handle_pod_event-IsMap :
    (port : ℕ) (phase : Phase) (p : Pod) (known : KnownPods)
    → IsMap known
    → IsMap (handle_pod_event port phase p known).0
unfolding handle_pod_event handle_named_event pod_present
handle_pod_event-IsMap port added p known h = ground (
  arith,
  learn-IsMap (record { pod_id = text_of p.name; address = text_of p.ip; port = port }) known h,
  forget-IsMap (text_of p.name) known h,
)
handle_pod_event-IsMap port modified p known h = ground (
  arith,
  learn-IsMap (record { pod_id = text_of p.name; address = text_of p.ip; port = port }) known h,
  forget-IsMap (text_of p.name) known h,
)
handle_pod_event-IsMap port deleted p known h =
    ground (arith, forget-IsMap (text_of p.name) known h)
handle_pod_event-IsMap port other p known h = ground (arith, h)

drop_silent-IsMap :
    (pings : List Ping) (known : KnownPods) → IsMap known → IsMap (drop_silent pings known).0
unfolding drop_silent
drop_silent-IsMap pings [] h = tt
drop_silent-IsMap pings ((j, q) ∷ known) h =
    ground (arith, drop_silent-IsMap pings known h.1, get-drop_silent-none j pings known h.0)

pub poll_peers-IsMap :
    (pings : List Ping) (known : KnownPods) → IsMap known → IsMap (poll_peers pings known).0
unfolding poll_peers
poll_peers-IsMap pings known h =
    drop_silent-IsMap pings (poll_answers pings known).0 (poll_answers-IsMap pings known h)
