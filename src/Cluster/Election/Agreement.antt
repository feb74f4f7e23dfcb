-- ===== src/Cluster/Election/Agreement.antt =====
-- leader-election.ts, `HeartbeatLeaderElection`: two pods, and one pod over time.
use native.Mathlib.Decide.{dec_le}
use sardeenz.Base.{
  if◌then◌else◌, same, same_iff, length, ℕ, ◌+◌, ◌≤◌, ◌<◌, String, ◌≡◌, refl, sym, ap, ◌∙◌, ◌≢◌,
  ◌⊎◌, inl, inr, true, false, none, some, List, [], ◌∷◌, arith, string_key,
}
use sardeenz.Base.Text.{le_text_antisymm}
use sardeenz.Cluster.PeerStore.{PeerStore}
use sardeenz.Cluster.Election.{
  expected_size, calculate_quorum, healthy_of, elect, is_known, new, Election, run_election, stop,
}
use sardeenz.Cluster.Election.Outcome.{
  least-le, run_election_no_quorum, HasQuorum, IsLeast, is_candidate, run_election-Elects,
}

-- The views hold the same candidates.
abbrev pub SameCandidates : PeerStore → PeerStore → Type 0
SameCandidates s t = (q : String) → is_candidate s q ≡ is_candidate t q

least_is_one :
    (s t : PeerStore) (a b : String) → SameCandidates s t → IsLeast a s → IsLeast b t → a ≡ b
least_is_one s t a b h m n =
    le_text_antisymm a b (least-le s a b m (h b ∙ n.found)) (least-le t b a n (sym (h a) ∙ m.found))

-- Two pods with a quorum that see the same candidates, in any order, hold the same leader after a
-- round.
pub run_election_agreement :
    (m n : ℕ) (s t : PeerStore) (e f : Election)
    → SameCandidates s t
    → HasQuorum m s
    → HasQuorum n t
    → (run_election m s e).0.leader_id ≡ (run_election n t f).0.leader_id
run_election_agreement m n s t e f h qs qt =
    let (a, la, ea) = run_election-Elects m s e qs in
    let (b, lb, eb) = run_election-Elects n t f qt in
    ea.leads ∙ ap some (least_is_one s t a b h la lb) ∙ sym eb.leads

one_leader_of_candidates :
    (m n : ℕ) (s t : PeerStore) (e f : Election)
    → SameCandidates s t
    → HasQuorum m s
    → HasQuorum n t
    → e.pod_id ≢ f.pod_id
    → ¬ (((run_election m s e).0.is_leader ≡ true) × ((run_election n t f).0.is_leader ≡ true))
one_leader_of_candidates m n s t e f h qs qt d (x, y) =
    let (a, la, ea) = run_election-Elects m s e qs in
    let (b, lb, eb) = run_election-Elects n t f qt in
    d (
      sym ((same_iff a e.pod_id).0 (sym ea.mine ∙ x))
      ∙ least_is_one s t a b h la lb
      ∙ (same_iff b f.pod_id).0 (sym eb.mine ∙ y))

-- What befalls an election: a timer's round over the peers of the moment, or `stop`.
pub data Event : Type 0 where
  round : ℕ → PeerStore → Event
  stopped : Event

unfoldable pub step : Election → Event → Election
step e (round n s) = (run_election n s e).0
step e stopped = stop e

unfoldable pub run : Election → List Event → Election
run e [] = e
run e (ev ∷ evs) = run (step e ev) evs

-- Who leads knows itself as the leader, and has counted that change in its term.
pub record IsElection (pod : String) (e : Election) : Type 0 where
  pub self : e.pod_id ≡ pod
  pub own : (e.is_leader ≡ false) ⊎ (e.leader_id ≡ some pod)
  pub counted : (e.leader_id ≡ none) ⊎ (0 < e.term)

own_of :
    (id : String) (e r : Election) (pod : String)
    → e.pod_id ≡ pod
    → r.leader_id ≡ some id
    → r.is_leader ≡ same id e.pod_id
    → (r.is_leader ≡ false) ⊎ (r.leader_id ≡ some pod)
own_of id e r pod p l m = ground arith

counted_of :
    (id : String) (e : Election) (pod : String) (r : Election)
    → IsElection pod e
    → r.term ≡ (if is_known e.leader_id id then e.term else e.term + 1)
    → 0 < r.term
counted_of id e pod r h t = ground arith

step-IsElection :
    (pod : String) (e : Election) (ev : Event) → IsElection pod e → IsElection pod (step e ev)
unfolding step stop
step-IsElection pod e stopped h = record { self = h.self; own = inl refl; counted = h.counted }
step-IsElection pod e (round n s) h =
    elim (dec_le (calculate_quorum (expected_size n s)) (length (healthy_of s))) [
      | yes q ↦
          let (id, least, r) = run_election-Elects n s e q in
          record {
            self = r.same_pod ∙ h.self;
            own = own_of id e (run_election n s e).0 pod h.self r.leads r.mine;
            counted = inr (counted_of id e pod (run_election n s e).0 h r.term_of);
          }
      | no q ↦
          rw (run_election_no_quorum n s e q, step)
            (record { self = h.self; own = inl refl; counted = h.counted })
    ]

run-IsElection :
    (pod : String) (e : Election) (evs : List Event) → IsElection pod e → IsElection pod (run e evs)
unfolding run
run-IsElection pod e [] h = h
run-IsElection pod e (ev ∷ evs) h = run-IsElection pod (step e ev) evs (step-IsElection pod e ev h)

-- Over any rounds and stops of a new election: while the pod leads it holds itself as the leader, and
-- once it holds any leader its term is positive.
pub new-IsElection : (pod : String) (evs : List Event) → IsElection pod (run (new pod) evs)
unfolding new
new-IsElection pod evs =
    run-IsElection pod (new pod) evs (record { self = refl; own = inl refl; counted = inl refl })

step-term-le : (e : Election) (ev : Event) → e.term ≤ (step e ev).term
unfolding step stop run_election elect
step-term-le e stopped = omega arith
step-term-le e (round n s) = ground arith

-- Over any rounds and stops of an election its term never falls.
pub run-term-le : (e : Election) (evs : List Event) → e.term ≤ (run e evs).term
unfolding run
run-term-le e [] = omega arith
run-term-le e (ev ∷ evs) = omega (arith, step-term-le e ev, run-term-le (step e ev) evs)

-- Where the pods that two views hold for alive are together no more than the expected number, as in a
-- partition of the cluster, not both views have a quorum.
partition_one_quorum :
    (n : ℕ) (s t : PeerStore)
    → 0 < n
    → length (healthy_of s) + length (healthy_of t) ≤ n
    → HasQuorum n s
    → ¬ HasQuorum n t
partition_one_quorum n s t pos h qs qt = ground arith

-- A pod that leads after a round has had a quorum in it.
leads_by_quorum :
    (n : ℕ) (s : PeerStore) (e : Election) → (run_election n s e).0.is_leader ≡ true → HasQuorum n s
leads_by_quorum n s e l =
    elim (dec_le (calculate_quorum (expected_size n s)) (length (healthy_of s))) [
      | yes q ↦ q
      | no q ↦
          let off = ap (λ r. r.0.is_leader) (run_election_no_quorum n s e q) in
          absurd (ground (arith, l, off))
    ]

-- Two different pods do not both lead after a round each, where their views hold the same candidates, or
-- where an expected number of pods is configured and the pods that the views hold for alive are together no
-- more than it, as in a partition of the cluster.
pub one_leader :
    (n : ℕ) (s t : PeerStore) (e f : Election)
    → e.pod_id ≢ f.pod_id
    → SameCandidates s t ⊎ ((0 < n) × (length (healthy_of s) + length (healthy_of t) ≤ n))
    → ¬ (((run_election n s e).0.is_leader ≡ true) × ((run_election n t f).0.is_leader ≡ true))
one_leader n s t e f d (inl h) (x, y) =
    one_leader_of_candidates n n s t e f h (leads_by_quorum n s e x) (leads_by_quorum n t f y) d
      (x, y)
one_leader n s t e f d (inr (pos, few)) (x, y) =
    partition_one_quorum n s t pos few (leads_by_quorum n s e x) (leads_by_quorum n t f y)
