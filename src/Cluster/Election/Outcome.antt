-- ===== src/Cluster/Election/Outcome.antt =====
-- leader-election.ts, `runElection`: the outcome of a round, and what holds over all rounds.
use sardeenz.Base.{
  if◌then◌else◌, same, same_iff, length, any, All, any-All, any-map, length-map, ℕ, ◌+◌, ◌≤◌, ◌<◌,
  String, ◌≡◌, refl, subst, Bool, true, false, Option, none, some, List, [], ◌∷◌, map, arith,
  string_key,
}
use sardeenz.Base.Sort.{any-sort, sort, length-sort, sort_first}
use sardeenz.Base.Text.{le_text, le_text_total, le_text_trans}
use sardeenz.Types.{PeerInfo}
use sardeenz.Cluster.PeerStore.{PeerStore}
use sardeenz.Cluster.Election.{
  is_known, Election, Notice, calculate_quorum, healthy_of, expected_size, sorted_ids, elect,
  run_election,
}

-- Enough of the expected pods are seen.
abbrev pub HasQuorum : ℕ → PeerStore → Type 0
HasQuorum expected s = calculate_quorum (expected_size expected s) ≤ length (healthy_of s)

-- A peer of this id is known and not unavailable.
abbrev pub is_candidate : PeerStore → String → Bool
is_candidate s id = any (λ p. same p.pod_id id) (healthy_of s)

-- `id` is the least pod id of the peers that are not unavailable.
pub record IsLeast (id : String) (s : PeerStore) : Type 0 where
  pub found : is_candidate s id ≡ true
  pub below : All (λ p. le_text id p.pod_id ≡ true) (healthy_of s)

sorted_cases :
    (xs : List String) → 0 < length xs → (id : String) × (ids : List String) × (xs ≡ id ∷ ids)
sorted_cases [] h = elim h [ ]
sorted_cases (x ∷ xs) h = (x, xs, refl)

abbrev id_of : PeerInfo → String
id_of p = p.pod_id

All-map :
    (P : String → Type 0) (f : PeerInfo → String) (ps : List PeerInfo)
    → All P (map f ps)
    → All (λ p. P (f p)) ps
All-map P f [] h = tt
All-map P f (p ∷ ps) h = (h.0, All-map P f ps h.1)

-- The least id stands before every candidate.
pub least-le :
    (s : PeerStore) (id q : String) → IsLeast id s → is_candidate s q ≡ true → le_text id q ≡ true
least-le s id q l c =
    let (p, le, m) =
      any-All (λ p. le_text id p.pod_id ≡ true) (λ p. same p.pod_id q) (healthy_of s) l.below c in
    subst (λ y. le_text id y ≡ true) ((same_iff p.pod_id q).0 m) le

-- The head of the sorted ids is the least.
sorted_ids-IsLeast :
    (s : PeerStore) (id : String) (ids : List String) → sorted_ids s ≡ id ∷ ids → IsLeast id s
unfolding sorted_ids
sorted_ids-IsLeast s id ids e = record {
  found =
      let p : String → Bool = λ q. same q id in
      ground (arith, any-map p id_of (healthy_of s), any-sort le_text p (map id_of (healthy_of s)));
  below =
      All-map (λ q. le_text id q ≡ true) id_of (healthy_of s)
        (sort_first le_text le_text_total le_text_trans (map id_of (healthy_of s)) id ids e);
}

-- With a quorum some peer is a candidate.
elected :
    (expected : ℕ) (s : PeerStore)
    → HasQuorum expected s
    → (id : String) × (ids : List String) × (sorted_ids s ≡ id ∷ ids)
unfolding sorted_ids
elected expected s h =
    sorted_cases (sort le_text (map id_of (healthy_of s))) (
      omega
        (arith, length-sort le_text (map id_of (healthy_of s)), length-map id_of (healthy_of s)))

-- What one round must give.
pub record Elects (id : String) (e : Election) (r : Election × Option Notice) : Type 0 where
  pub leads : r.0.leader_id ≡ some id
  pub mine : r.0.is_leader ≡ same id e.pod_id
  pub same_pod : r.0.pod_id ≡ e.pod_id
  pub term_of : r.0.term ≡ (if is_known e.leader_id id then e.term else e.term + 1)
  pub notice : r.1 ≡ (
      if is_known e.leader_id id then none else some (record { leader_id = id; term = e.term + 1 }))

elect-Elects : (id : String) (e : Election) → Elects id e (elect id e)
unfolding elect
elect-Elects id e = record {
  leads = ground arith;
  mine = ground arith;
  same_pod = ground arith;
  term_of = ground arith;
  notice = ground arith;
}

-- A round with a quorum elects the least pod id of the peers that are not unavailable: it is the known
-- leader then, this pod leads exactly if the id is its own, and the term rises by one, with a notice of
-- it, exactly if the leader has changed.
pub run_election-Elects :
    (expected : ℕ) (s : PeerStore) (e : Election)
    → HasQuorum expected s
    → (id : String) × IsLeast id s × Elects id e (run_election expected s e)
unfolding run_election
run_election-Elects expected s e h =
    let (id, ids, p) = elected expected s h in
    (id, sorted_ids-IsLeast s id ids p, subst (Elects id e) (ground arith) (elect-Elects id e))

-- A round without a quorum takes the lead from this pod, and changes and reports nothing else.
pub run_election_no_quorum :
    (expected : ℕ) (s : PeerStore) (e : Election)
    → ¬ HasQuorum expected s
    → run_election expected s e ≡ (record e { is_leader = false }, none)
unfolding run_election
run_election_no_quorum expected s e h = ground arith
