-- ===== src/Http/ClusterModels/Owners.antt =====
-- routes/cluster/models.ts, `findPodForInstance`.
use sardeenz.Base.{
  Bool-cases, All, String, ◌≡◌, subst, inl, inr, true, false, none, some, List, [], ◌∷◌, arith,
  string_key,
}
use sardeenz.Types.{PeerInfo}
use sardeenz.Cluster.PeerStore.{PeerStore, get_all_peers}
use sardeenz.Http.ClusterModels.{serves_instance, find_in_peers, find_pod_for_instance}

find_in_peers-serves :
    (id : String) (ps : List PeerInfo) (p : PeerInfo)
    → find_in_peers id ps ≡ some p
    → serves_instance id p ≡ true
unfolding find_in_peers
find_in_peers-serves id [] p h = cc
find_in_peers-serves id (q ∷ ps) p h = elim (Bool-cases (serves_instance id q)) [
  | inl e ↦
      let same_peer : q ≡ p = ground arith in subst (λ x. serves_instance id x ≡ true) same_peer e
  | inr e ↦ find_in_peers-serves id ps p (ground arith)
]

find_in_peers-none :
    (id : String) (ps : List PeerInfo)
    → find_in_peers id ps ≡ none
    → All (λ p. serves_instance id p ≡ false) ps
unfolding find_in_peers
find_in_peers-none id [] h = tt
find_in_peers-none id (q ∷ ps) h = elim (Bool-cases (serves_instance id q)) [
  | inl e ↦ absurd (ground arith)
  | inr e ↦ (e, find_in_peers-none id ps (ground arith))
]

-- The pod that is found reports the instance, and where none is found no pod of the store reports it.
pub find_pod_for_instance_lem :
    (id : String) (peers : PeerStore)
    → ((p : PeerInfo) → find_pod_for_instance id peers ≡ some p → serves_instance id p ≡ true)
      × (find_pod_for_instance id peers ≡ none
          → All (λ p. serves_instance id p ≡ false) (get_all_peers peers))
unfolding find_pod_for_instance
find_pod_for_instance_lem id peers = (
  λ p h. find_in_peers-serves id (get_all_peers peers) p h,
  λ h. find_in_peers-none id (get_all_peers peers) h,
)
