-- ===== src/Cluster/Discovery/Told.antt =====
-- peer-discovery.ts: the callbacks, read as changes of what is known.
use sardeenz.Base.{
  Bool-cases, same, ℕ, String, ◌≡◌, refl, ◌∙◌, inl, inr, Bool, true, false, not, ◌&&◌, ◌||◌, none,
  List, [], ◌∷◌, ◌++◌, arith, string_key,
}
use sardeenz.Base.Dict
use sardeenz.Base.Dict.{get-set, get-delete, IsMap}
use sardeenz.Cluster.Discovery.{
  DiscoveredPeer, KnownPods, Callback, peer_added, peer_removed, Pod, Phase, added, modified,
  deleted, other, text_of, learn, forget, pod_present, handle_named_event, handle_pod_event, Ping,
  poll_answers, answered, drop_silent, poll_peers,
}
use sardeenz.Cluster.Discovery.Known.{has-drop_silent, poll_answers-IsMap}
use sardeenz.Base.{
  Bool-cases, same, ℕ, String, ◌≡◌, refl, ◌∙◌, inl, inr, Bool, true, false, not, ◌&&◌, ◌||◌, none,
  List, [], ◌∷◌, ◌++◌, arith, string_key,
}
use sardeenz.Base.Dict.{get-set, get-delete, IsMap}
use sardeenz.Cluster.Discovery.{peer_added, peer_removed, Callback}

-- Whether a pod is known after the callbacks, to one who knew it or not before.
unfoldable pub told : String → List Callback → Bool → Bool
told pod [] b = b
told pod (peer_added p ∷ cs) b = told pod cs (same p.pod_id pod || b)
told pod (peer_removed q ∷ cs) b = told pod cs (not (same q pod) && b)

pub told-append :
    (pod : String) (cs ds : List Callback) (b : Bool)
    → told pod (cs ++ ds) b ≡ told pod ds (told pod cs b)
unfolding told
told-append pod [] ds b = refl
told-append pod (peer_added p ∷ cs) ds b = told-append pod cs ds _
told-append pod (peer_removed q ∷ cs) ds b = told-append pod cs ds _

told-learn :
    (peer : DiscoveredPeer) (pod : String) (known : KnownPods)
    → told pod (learn peer known).1 (Dict.has pod known) ≡ Dict.has pod (learn peer known).0
unfolding learn told
told-learn peer pod known = ground (arith, get-set peer.pod_id pod peer known)

told-forget :
    (name pod : String) (known : KnownPods)
    → told pod (forget name known).1 (Dict.has pod known) ≡ Dict.has pod (forget name known).0
unfolding forget told
told-forget name pod known = ground (arith, get-delete name pod known)

pub told-handle_pod_event :
    (port : ℕ) (phase : Phase) (p : Pod) (pod : String) (known : KnownPods)
    → told pod (handle_pod_event port phase p known).1 (Dict.has pod known)
      ≡ Dict.has pod (handle_pod_event port phase p known).0
unfolding handle_pod_event handle_named_event pod_present told
told-handle_pod_event port added p pod known = ground (
  arith,
  told-learn (record { pod_id = text_of p.name; address = text_of p.ip; port = port }) pod known,
  told-forget (text_of p.name) pod known,
)
told-handle_pod_event port modified p pod known = ground (
  arith,
  told-learn (record { pod_id = text_of p.name; address = text_of p.ip; port = port }) pod known,
  told-forget (text_of p.name) pod known,
)
told-handle_pod_event port deleted p pod known =
    ground (arith, told-forget (text_of p.name) pod known)
told-handle_pod_event port other p pod known = ground arith

told-poll_answers :
    (pod : String) (pings : List Ping) (known : KnownPods)
    → told pod (poll_answers pings known).1 (Dict.has pod known)
      ≡ Dict.has pod (poll_answers pings known).0
unfolding poll_answers told
told-poll_answers pod [] known = refl
told-poll_answers pod (p ∷ ps) known = ground (
  arith,
  told-append pod (learn p.peer known).1 (poll_answers ps (learn p.peer known).0).1
      (Dict.has pod known),
  told-learn p.peer pod known,
  told-poll_answers pod ps (learn p.peer known).0,
  told-poll_answers pod ps known,
)

told_still :
    (pod : String) (pings : List Ping) (known : KnownPods)
    → told pod (drop_silent pings known).1 false ≡ false
unfolding drop_silent told
told_still pod pings [] = refl
told_still pod pings ((j, q) ∷ known) = ground (arith, told_still pod pings known)

told_unknown :
    (pod : String) (pings : List Ping) (known : KnownPods)
    → Dict.get pod known ≡ none
    → told pod (drop_silent pings known).1 true ≡ true
unfolding Dict.get drop_silent told
told_unknown pod pings [] h = refl
told_unknown pod pings ((j, q) ∷ known) h = ground (arith, told_unknown pod pings known)

told_known :
    (pod : String) (pings : List Ping) (known : KnownPods)
    → IsMap known
    → Dict.has pod known ≡ true
    → told pod (drop_silent pings known).1 true ≡ answered pod pings
unfolding Dict.get drop_silent told
told_known pod pings [] h k = cc
told_known pod pings ((j, q) ∷ known) h k = ground (
  arith,
  told_known pod pings known h.1,
  told_unknown pod pings known,
  told_still pod pings known,
  h.0,
)

told-drop_silent :
    (pod : String) (pings : List Ping) (known : KnownPods)
    → IsMap known
    → told pod (drop_silent pings known).1 (Dict.has pod known)
      ≡ Dict.has pod (drop_silent pings known).0
told-drop_silent pod pings known h = elim (Bool-cases (Dict.has pod known)) [
  | inl e ↦ rw e (ground (arith, told_known pod pings known h e, has-drop_silent pod pings known h))
  | inr e ↦ rw e (ground (arith, told_still pod pings known, has-drop_silent pod pings known h))
]

-- The callbacks of a poll tell of each change of what is known.
pub told-poll_peers :
    (pod : String) (pings : List Ping) (known : KnownPods)
    → IsMap known
    → told pod (poll_peers pings known).1 (Dict.has pod known)
      ≡ Dict.has pod (poll_peers pings known).0
unfolding poll_peers
told-poll_peers pod pings known h =
    let mid = (poll_answers pings known).0 in
    told-append pod (poll_answers pings known).1 (drop_silent pings mid).1 (Dict.has pod known)
    ∙ (rw (told-poll_answers pod pings known)
        (told-drop_silent pod pings mid (poll_answers-IsMap pings known h)))
